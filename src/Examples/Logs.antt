-- ===== src/Examples/Logs.antt =====
-- The theorems on the append-only file and on the server's loop at concrete inputs.
use true_store.Base.{
  ℤ, ℕ, ◌+◌, ◌^◌, ◌≤◌, ◌<◌, ◌≡◌, refl, true, false, some, List, [], ◌∷◌, ◌++◌, arith, length, pos,
  pos_part,
}
use true_store.Text.{Bytes, codes, ◌=ᵇ◌, to_upper}
use true_store.Resp.{array, bulk_bytes, bulks_bytes, to_bytes, command_bytes}
use true_store.TestPlatform.{test_platform, empty_store}
use true_store.Platform.{Now}
use true_store.Command.{Dispatch}
use true_store.Text.Decimal.{to_string}
use true_store.Aof.{
  append, append_transaction, printed, Replaying, replay_client, replay_file, end_of_file, Syncing,
  sync_if_due, sync_timeout_ms, ceil_ms,
}
use true_store.Aof.Restored.{ended, run_all}
use true_store.Aof.Log.{Entry, single, transaction, logged, commands_of, replay_file-logged}
use true_store.Aof.Writing.{sync_in_time}
use true_store.Store.Types.{list_block}
use true_store.Server.{
  serve_waiters, Server, Waiter, after_command, is_logged, next_timeout, remaining_ms,
}
use true_store.Server.Replicas.{outgoing, stream_bytes, after_command_streams}
use true_store.Server.Waiters.{Agrees, Serves, serve_waiters-Agrees}
use true_store.Server.Timeout.{InTime, NotAfter, next_timeout-InTime}
use true_store.Command.{is_write_command, is_error}

abbrev pub clock : ℕ → Now
clock n = record { steady = pos n; system_ms = n }

abbrev pub echo : Now → Dispatch test_platform
echo now args c s = (to_bytes (array args), (c, s))

abbrev started : Replaying test_platform
started = record { commands = 0; client = replay_client; store = empty_store }

abbrev entries : List Entry
entries = single (codes "A" ∷ []) ∷ transaction ((codes "B" ∷ []) ∷ []) ∷ []

short : length (logged entries) < 2 ^ 64
unfolding logged append append_transaction printed command_bytes bulks_bytes bulk_bytes to_string
short = omega arith

replay_file-logged_example :
    replay_file clock echo (logged entries) started
    ≡ end_of_file clock echo
        (ended clock echo [] (run_all clock echo (commands_of entries) started))
unfolding logged commands_of
replay_file-logged_example =
    replay_file-logged clock echo entries started
      (omega arith, (omega arith, (omega arith, (omega arith, tt)))) short

abbrev syncing : Syncing
syncing = record { fsync = codes "everysec"; dirty = true; last_sync = pos 5 }

sync_in_time_example :
    (pos_part (sync_timeout_ms (pos 7) syncing) ≤ 1000)
    × (sync_if_due (pos (10 ^ 10)) (some (pos 9)) syncing
        ≡ some (record syncing { dirty = false; last_sync = pos 9 }))
unfolding sync_timeout_ms ceil_ms ◌=ᵇ◌
sync_in_time_example =
    sync_in_time 7 (10 ^ 10) 5 9 syncing refl refl refl (omega arith) (omega arith)

abbrev pub set_command : List Bytes
set_command = codes "SET" ∷ codes "k" ∷ codes "v" ∷ []

abbrev pub server : Server test_platform
server = record {
  store = empty_store;
  replicas = (pos 7, pos 0) ∷ [];
  waiters = [];
  client_offsets = [];
  log = [];
  stream = [];
  replies = [];
}

abbrev pub sent : List (List Bytes)
sent = outgoing (is_logged false set_command (codes "+OK")) set_command []

pub sent_small : 0 + length (printed sent) < 2 ^ 63
unfolding printed command_bytes bulks_bytes bulk_bytes to_string is_logged is_write_command is_error
    ◌=ᵇ◌ to_upper
sent_small = omega arith

after_command_streams_example :
    let w = after_command (λ fd bytes. true) true (pos 5) false set_command (codes "+OK") server in
    (w.log ≡ printed sent)
    × (stream_bytes w.stream ≡ stream_bytes server.stream ++ printed sent)
    × (w.store.master_repl_offset ≡ pos (0 + length (printed sent)))
after_command_streams_example =
    after_command_streams (λ fd bytes. true) (pos 5) false set_command (codes "+OK") server 0 refl
      sent_small

abbrev pub waiter : Waiter
waiter = record {
  fd = pos 5;
  kind = list_block;
  keys = codes "k" ∷ [];
  ids = [];
  count = 0;
  deadline = some (pos (10 ^ 9));
  target_offset = pos 0;
}

next_timeout-InTime_example :
    (InTime (pos 0) (next_timeout (pos 0) syncing (waiter ∷ [])) waiter.deadline × Unit {0})
    × NotAfter (next_timeout (pos 0) syncing (waiter ∷ [])) (sync_timeout_ms (pos 0) syncing)
unfolding remaining_ms
next_timeout-InTime_example = next_timeout-InTime (pos 0) syncing (waiter ∷ []) (omega arith, tt)

-- Two clients wait for a list that has one element.
abbrev filled : Server test_platform
filled = record server {
  store = record empty_store { dynamic_vector = (codes "k", codes "x" ∷ []) ∷ [] };
}

serve_waiters-Agrees_example :
    let (stay, w) = serve_waiters (λ fd bytes. true) true (waiter ∷ waiter ∷ []) filled in
    ((bytes : Bytes) × Agrees (λ fd bytes. true) filled bytes w)
    × ((answers : List (ℤ × Bytes)) × Serves filled (waiter ∷ waiter ∷ []) stay answers w
        × (w.replies ≡ filled.replies ++ answers))
serve_waiters-Agrees_example = serve_waiters-Agrees (λ fd bytes. true) (waiter ∷ waiter ∷ []) filled
