-- ===== src/Server/Primary.antt =====
-- server/server.cpp: the branch of the loop of `Server::run` that reads from a primary. What `recv`
-- gives is a parameter, and what is sent back is kept in the state.
pub mod Answers
pub mod Followed
pub mod Obeyed
pub mod Together
use true_store.Base.{
  ℕ, zero, suc, Bool, true, false, ◌&&◌, Option, none, some, List, [], ◌∷◌, ◌++◌, if◌then◌else◌,
  length, drop, ℤ, pos, ◌+ℤ◌, wrap_i64,
}
use true_store.Text.{Bytes, codes, ◌=ᵇ◌, to_upper}
use true_store.Text.Decimal.{to_string_ℤ}
use true_store.Resp.{command_bytes}
use true_store.Resp.Parse.{parse_command, done, more, resp_error, length_error}
use true_store.Platform.{Platform, Now}
use true_store.Store.Types.{Store}
use true_store.Store.{take_pending_block, take_pending_propagations, set_repl_offset}
use true_store.Client.{ClientState}
use true_store.Command.{Dispatch, handle_command}
use true_store.Aof.{append, append_transaction, printed}
use true_store.Server.{is_logged}

-- `replica_offset`, the state of the primary as a client, how many of its commands have run, the
-- bytes of the log, and the answers sent to the primary.
pub record Following (P : Platform) : Type 0 where
  pub offset : ℤ
  pub client : ClientState
  pub store : Store P
  pub commands : ℕ
  pub log : Bytes
  pub acks : List Bytes

-- The end of the inner loop: it waits for more bytes, or the connection is closed. An exception of
-- the parser that is not its own leaves `Server::run`.
pub data Heard (P : Platform) : Type 0 where
  waits : Bytes → Following P → Heard P
  gone : Following P → Heard P
  crashed out_of_rounds : Heard P

unfoldable pub is_getack : List Bytes → Bool
is_getack (word ∷ option ∷ rest) =
    to_upper word =ᵇ codes "REPLCONF" && to_upper option =ᵇ codes "GETACK"
is_getack _ = false

unfoldable pub ack_of : ℤ → Bytes
ack_of offset = command_bytes (codes "REPLCONF" ∷ codes "ACK" ∷ to_string_ℤ offset ∷ [])

unfoldable pub advance : ℤ → ℕ → ℤ
advance offset consumed = wrap_i64 (offset +ℤ pos consumed)

-- The clocks that the n-th command reads and the dispatch are parameters; `opened` is whether there
-- is a log.
module _ {P : Platform} (clock : ℕ → Now) (dispatch : Now → Dispatch P) (opened : Bool) where
  -- What the command and the commands that it queued add to the log.
  unfoldable pub logs : Bool → Bool → List Bytes → List (List Bytes) → Bytes
  logs was_in_multi itself args pending =
      let alone = (if itself then append opened args else []) in
      alone
      ++ (if was_in_multi
          then append_transaction opened pending
          else if opened
          then printed pending
          else [])

  unfoldable pub follow_command : List Bytes → ℕ → Following P → Following P
  follow_command args consumed r =
      let now = clock r.commands in
      let was_in_multi = r.client.in_multi in
      let (response, (client, s)) = handle_command now (dispatch now) args r.client r.store in
      let (pending, t) = take_pending_propagations s in
      let u = (take_pending_block t).1 in
      if is_getack args
      then record r { acks = r.acks ++ ack_of r.offset ∷ []; offset = advance r.offset consumed }
      else record {
        offset = advance r.offset consumed;
        client = client;
        store = u;
        commands = suc r.commands;
        log = r.log ++ logs was_in_multi (is_logged was_in_multi args response) args pending;
        acks = r.acks;
      }

  -- The inner loop, for at most `fuel` rounds.
  unfoldable pub follow_buffer : ℕ → Bytes → Following P → Heard P
  follow_buffer zero buffer r = out_of_rounds
  follow_buffer (suc fuel) buffer r = elim (parse_command buffer) [
    | more ↦ waits buffer r
    | resp_error ↦ gone r
    | length_error ↦ crashed
    | done (args, consumed) ↦
        follow_buffer fuel (drop consumed buffer) (follow_command args consumed r)
  ]

  -- `store.set_repl_offset(replica_offset)`, behind the inner loop.
  unfoldable pub store_offset : Following P → Following P
  store_offset r = record r { store = set_repl_offset r.offset r.store }

  -- The bytes that one call of `recv` has given.
  unfoldable pub receive : Bytes → Bytes → Following P → Heard P
  receive chunk buffer r =
      let whole = buffer ++ chunk in
      elim (follow_buffer (suc (length whole)) whole r) [
        | waits unread next ↦ waits unread (store_offset next)
        | gone next ↦ gone (store_offset next)
        | crashed ↦ crashed
        | out_of_rounds ↦ out_of_rounds
      ]

  unfoldable pub receive_all : List Bytes → Bytes → Following P → Heard P
  receive_all [] buffer r = waits buffer r
  receive_all (chunk ∷ chunks) buffer r = elim (receive chunk buffer r) [
    | waits unread next ↦ receive_all chunks unread next
    | gone next ↦ gone next
    | crashed ↦ crashed
    | out_of_rounds ↦ out_of_rounds
  ]
