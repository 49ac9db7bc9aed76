-- ===== src/Aof.antt =====
-- aof/aof.cpp: the append-only file, as the bytes that are written to it and read from it.
pub mod Log
pub mod Restored
pub mod Split
pub mod Writing
use true_store.Base.{
  ℕ, zero, suc, ◌+◌, ◌-◌, ◌*◌, ◌/◌, ◌%◌, ◌^◌, ◌≤◌, ◌<◌, String, ◌≡◌, refl, sym, ap, ◌∙◌, ◌≢◌, ◌↔◌,
  ◌⊎◌, inl, inr, Bool, true, false, not, ◌&&◌, ◌||◌, Option, none, some, List, [], ◌∷◌, ◌++◌, map,
  append_assoc, append-nil, arith, ltb, leb, ◌==◌, if◌then◌else◌, ltb→lt, lt→ltb, leb→le, le→leb,
  ltb-false, leb-false, ==_iff, tests, Bool-cases, Option-cases, List-cases, if_both, length,
  get_elem?, take, drop, get_or, set, replicate, All, length-append, drop-append, take-append,
  take-append-drop, length-take, length-drop, length-set, length-replicate, ℤ, pos, negsuc,
  pos_part, neg_part, sub_ℕ, ◌+ℤ◌, ◌-ℤ◌, ◌≤ℤ◌, ltb_ℤ, leb_ℤ, is_negative, of_bits, wrap_i64,
  wrap_i64_fits,
}
use true_store.Text.{
  Bytes, codes, ◌=ᵇ◌, less, toupper, tolower, to_upper, to_lower, to_upper_idem, crlf,
}
use true_store.Resp.{
  RespType, simple_string, bulk_string, simple_error, null_bulk_string, integer, array,
  nested_array, null_array, RespTypes, nested, bulk_bytes, bulks_bytes, to_bytes, all_bytes,
  command_bytes,
}
use true_store.Platform.{Platform, Doubles, Rax, Now, StreamEntryData}
use true_store.Store.Types.{
  StreamId, Stream, SortedSet, BlockKind, list_block, stream_block, wait_block, BlockRequest, Store,
  KeyType, type_none, type_string, type_list, type_stream, type_zset, type_name, error_reply,
  arity_error, wrong_type, not_integer, syntax_error,
}
use true_store.Store.{take_pending_block, take_pending_propagations}
use true_store.Client.{ClientState}
use true_store.Command.{Dispatch, handle_command, is_error}
use true_store.Dict.{
  Dict, is_some, find, insert, erase, contains, keys, find-insert, find-erase, find-insert_self,
  find-erase_self, dict_laws,
}
use true_store.Resp.Parse.{parse_command, Parsed, done, more, resp_error, length_error}

-- What a call of `::write` did: it took bytes, was interrupted by a signal, or failed.
pub data Written : Type 0 where
  took : ℕ → Written
  interrupted write_failed : Written

-- The loop of `Aof::write` over what its calls do: the bytes that the file has got, and whether the
-- loop has thrown; `none` while it waits for a further call.
unfoldable pub write_loop : List Written → Bytes → Bytes → Option (Bool × Bytes)
write_loop calls file [] = some (false, file)
write_loop [] file (c ∷ bytes) = none
write_loop (interrupted ∷ calls) file (c ∷ bytes) = write_loop calls file (c ∷ bytes)
write_loop (write_failed ∷ calls) file (c ∷ bytes) = some (true, file)
write_loop (took zero ∷ calls) file (c ∷ bytes) = some (true, file)
write_loop (took (suc n) ∷ calls) file (c ∷ bytes) =
    write_loop calls (file ++ take (suc n) (c ∷ bytes)) (drop (suc n) (c ∷ bytes))

-- The commands as `append` writes them, one behind the other.
unfoldable pub printed : List (List Bytes) → Bytes
printed [] = []
printed (args ∷ commands) = command_bytes args ++ printed commands

-- What `append` and `append_transaction` hand to `write`; `opened` is `fd_ >= 0`.
unfoldable pub append : Bool → List Bytes → Bytes
append false args = []
append true args = command_bytes args

unfoldable pub append_transaction : Bool → List (List Bytes) → Bytes
append_transaction opened [] = []
append_transaction false (args ∷ commands) = []
append_transaction true (args ∷ commands) =
    command_bytes (codes "MULTI" ∷ [])
    ++ (printed (args ∷ commands) ++ command_bytes (codes "EXEC" ∷ []))

-- What `sync_if_due` and `sync_timeout_ms` read, with the clock in nanoseconds.
pub record Syncing : Type 0 where
  pub fsync : Bytes
  pub dirty : Bool
  pub last_sync : ℤ

-- At the time `now`; `::fsync` ends at the time `synced`, or fails (`none`), which throws.
unfoldable pub sync_if_due : ℤ → Option ℤ → Syncing → Option Syncing
sync_if_due now synced s =
    if not s.dirty || s.fsync =ᵇ codes "no"
    then some s
    else if s.fsync =ᵇ codes "everysec" && ltb_ℤ (now -ℤ s.last_sync) (pos (10 ^ 9))
    then some s
    else elim synced [
      | none ↦ none
      | some time ↦ some (record s { dirty = false; last_sync = time })
    ]

-- `ceil<milliseconds>`, of a time below 0 also 0: the caller takes no other.
unfoldable pub ceil_ms : ℤ → ℕ
ceil_ms time = (pos_part time + (10 ^ 6 - 1)) / 10 ^ 6

unfoldable pub sync_timeout_ms : ℤ → Syncing → ℤ
sync_timeout_ms now s =
    if not s.dirty || not (s.fsync =ᵇ codes "everysec")
    then negsuc 0
    else pos (ceil_ms ((s.last_sync +ℤ pos (10 ^ 9)) -ℤ now))

-- The chunks of `input.read`, for at most `fuel` reads.
unfoldable pub chunks : ℕ → Bytes → List Bytes
chunks fuel [] = []
chunks zero (c ∷ s) = []
chunks (suc fuel) (c ∷ s) = take 4096 (c ∷ s) ∷ chunks fuel (drop 4096 (c ∷ s))

-- The state of a replay: how many commands have run, the client, and the store.
pub record Replaying (P : Platform) : Type 0 where
  pub commands : ℕ
  pub client : ClientState
  pub store : Store P

-- The end of a loop of the replay; an exception ends the whole of it.
pub data Replay (P : Platform) : Type 0 where
  exception out_of_fuel : Replay P
  left : Bytes → Replaying P → Replay P

-- The client that the commands of the log come from.
abbrev pub replay_client : ClientState
replay_client = record {
  fd = negsuc 0;
  authenticated = true;
  subscriptions = [];
  close_after_reply = false;
  in_multi = false;
  queued = [];
  watched = [];
  repl_offset = pos 0;
}

-- The clocks that the n-th command reads, and the dispatch, are parameters.
module _ {P : Platform} (clock : ℕ → Now) (dispatch : Now → Dispatch P) where
  -- One command; `none` is an exception.
  unfoldable pub replay_command : List Bytes → Replaying P → Option (Replaying P)
  replay_command args r =
      let now = clock r.commands in
      let (response, (client, s)) = handle_command now (dispatch now) args r.client r.store in
      let (blocked, t) = take_pending_block s in
      let (propagated, u) = take_pending_propagations t in
      if is_some blocked || is_error response
      then none
      else some (record { commands = suc r.commands; client = client; store = u })

  -- The inner loop, for at most `fuel` rounds: all commands that the buffer holds.
  unfoldable pub drain : ℕ → Bytes → Replaying P → Replay P
  drain zero buffer r = out_of_fuel
  drain (suc fuel) buffer r = elim (parse_command buffer) [
    | more ↦ left buffer r
    | resp_error ↦ exception
    | length_error ↦ exception
    | done (args, consumed) ↦ elim (replay_command args r) [
      | none ↦ exception
      | some next ↦ drain fuel (drop consumed buffer) next
    ]
  ]

  -- The loop over the chunks of one file.
  unfoldable pub replay_chunks : List Bytes → Bytes → Replaying P → Replay P
  replay_chunks [] buffer r = left buffer r
  replay_chunks (chunk ∷ rest) buffer r =
      let whole = buffer ++ chunk in
      elim (drain (suc (length whole)) whole r) [
        | exception ↦ exception
        | out_of_fuel ↦ out_of_fuel
        | left unread next ↦ replay_chunks rest unread next
      ]

  -- A file must end with a whole command, outside of a transaction.
  unfoldable pub end_of_file : Replay P → Replay P
  end_of_file (left [] r) = if r.client.in_multi then exception else left [] r
  end_of_file (left (c ∷ s) r) = exception
  end_of_file exception = exception
  end_of_file out_of_fuel = out_of_fuel

  unfoldable pub replay_file : Bytes → Replaying P → Replay P
  replay_file content r = end_of_file (replay_chunks (chunks (length content) content) [] r)

  -- The files in their order; `none` is one that cannot be opened.
  unfoldable pub replay_files : List (Option Bytes) → Replaying P → Replay P
  replay_files [] r = left [] r
  replay_files (none ∷ rest) r = exception
  replay_files (some content ∷ rest) r = elim (replay_file content r) [
    | exception ↦ exception
    | out_of_fuel ↦ out_of_fuel
    | left unread next ↦ replay_files rest next
  ]

  unfoldable pub replay : List (Option Bytes) → Store P → Replay P
  replay files s = replay_files files (record { commands = 0; client = replay_client; store = s })
