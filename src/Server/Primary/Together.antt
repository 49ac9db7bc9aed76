-- ===== src/Server/Primary/Together.antt =====
-- A primary and a replica: the one's stream, followed by the other.
use true_store.Base.{
  ℕ, ◌+◌, ◌^◌, ◌<◌, ◌≡◌, sym, ap, ◌∙◌, Bool, true, List, [], ◌++◌, length, drop, All, drop-append,
  ℤ, pos,
}
use true_store.Text.{Bytes}
use true_store.Platform.{Platform, Now}
use true_store.Command.{Dispatch}
use true_store.Aof.{printed}
use true_store.Aof.Split.{Few, joined}
use true_store.Server.{Server, is_logged, after_command}
use true_store.Server.Replicas.{stream_bytes, outgoing, after_command_streams}
use true_store.Server.Primary.{Following, waits, receive_all}
use true_store.Server.Primary.Followed.{KeepsCount, Follows, stream-KeepsCount}

-- A replica with the offset of its primary receives, in any pieces, the bytes that the primary has
-- sent for any command of a client: it has the offset of the primary again, and its store too. No
-- command that is sent has more than `max_elements` arguments, and the offset stays below 2^63.
pub replica_keeps_up :
    {P : Platform} (reaches : ℤ → Bytes → Bool) (fd : ℤ) (was_in_multi : Bool) (args : List Bytes)
    (response : Bytes) (v : Server P) (clock : ℕ → Now) (dispatch : Now → Dispatch P)
    (opened : Bool) (pieces : List Bytes) (r : Following P) (o : ℕ)
    → v.store.master_repl_offset ≡ pos o
    → r.offset ≡ pos o
    → r.store.master_repl_offset ≡ r.offset
    → let out = outgoing (is_logged was_in_multi args response) args v.store.pending_propagations in
      let w = after_command reaches true fd was_in_multi args response v in
      All Few out
      → o + length (printed out) < 2 ^ 63
      → stream_bytes v.stream ++ joined pieces ≡ stream_bytes w.stream
      → (x : Following P) × (receive_all clock dispatch opened pieces [] r ≡ waits [] x)
        × (x.offset ≡ w.store.master_repl_offset)
        × (x.store.master_repl_offset ≡ w.store.master_repl_offset)
unfolding KeepsCount Follows
replica_keeps_up reaches fd was_in_multi args response v clock dispatch opened pieces r o e f same
      few small sent =
    let out = outgoing (is_logged was_in_multi args response) args v.store.pending_propagations in
    let (log, stream, offset) =
      after_command_streams reaches fd was_in_multi args response v o e small in
    let bytes : joined pieces ≡ printed out =
      sym (drop-append (stream_bytes v.stream) (joined pieces))
      ∙ ap (drop (length (stream_bytes v.stream))) (sent ∙ stream)
      ∙ drop-append (stream_bytes v.stream) (printed out) in
    let (x, run, follows, stored) =
      stream-KeepsCount clock dispatch opened pieces out r o few small bytes f same in
    let level = follows.0 ∙ sym offset in (x, run, level, stored ∙ level)
