-- ===== src/Server.antt =====
-- server/server.cpp: what the loop of `Server::run` does with a command, with replicas and with
-- blocked clients. Sockets are outside: `reaches` says whether `send_all` to a client succeeds, and
-- what is sent is kept in the state.
pub mod Clients
pub mod Primary
pub mod Replicas
pub mod Timeout
pub mod Waiters
use true_store.Base.{
  ℕ, zero, suc, ◌+◌, ◌-◌, ◌*◌, ◌/◌, ◌%◌, ◌^◌, ◌≤◌, ◌<◌, String, ◌≡◌, refl, sym, ap, ◌∙◌, ◌≢◌, ◌↔◌,
  ◌⊎◌, inl, inr, Bool, true, false, not, ◌&&◌, ◌||◌, Option, none, some, List, [], ◌∷◌, ◌++◌, map,
  append_assoc, append-nil, arith, ltb, leb, ◌==◌, if◌then◌else◌, ltb→lt, lt→ltb, leb→le, le→leb,
  ltb-false, leb-false, ==_iff, tests, Bool-cases, Option-cases, List-cases, if_both, length,
  get_elem?, take, drop, get_or, set, replicate, All, length-append, drop-append, take-append,
  take-append-drop, length-take, length-drop, length-set, length-replicate, ℤ, pos, negsuc,
  pos_part, neg_part, sub_ℕ, ◌+ℤ◌, ◌-ℤ◌, ◌≤ℤ◌, ltb_ℤ, leb_ℤ, is_negative, of_bits, wrap_i64,
  wrap_i64_fits,
}
use true_store.Text.{
  Bytes, codes, ◌=ᵇ◌, less, toupper, tolower, to_upper, to_lower, to_upper_idem, crlf,
}
use true_store.Resp.{
  RespType, simple_string, bulk_string, simple_error, null_bulk_string, integer, array,
  nested_array, null_array, RespTypes, nested, bulk_bytes, bulks_bytes, to_bytes, all_bytes,
  command_bytes,
}
use true_store.Platform.{Platform, Doubles, Rax, Now, StreamEntryData}
use true_store.Store.Types.{
  StreamId, Stream, SortedSet, BlockKind, list_block, stream_block, wait_block, BlockRequest, Store,
  KeyType, type_none, type_string, type_list, type_stream, type_zset, type_name, error_reply,
  arity_error, wrong_type, not_integer, syntax_error,
}
use true_store.Store.{take_pending_propagations, bump_repl_offset}
use true_store.Command.{is_write_command, is_error, word_of}
use true_store.Aof.{Syncing, sync_timeout_ms, append, append_transaction}
use true_store.Lists.{try_blpop}
use true_store.Streams.Commands.{try_xread}

pub record Waiter : Type 0 where
  pub fd : ℤ
  pub kind : BlockKind
  pub keys : List Bytes
  pub ids : List StreamId
  pub count : ℕ
  -- `none` without `has_deadline`.
  pub deadline : Option ℤ
  pub target_offset : ℤ

-- The offset that each replica has acknowledged, `repl_offset` of each client, the bytes of the log, the messages to replicas with
-- those they went to, and the messages to clients.
pub record Server (P : Platform) : Type 0 where
  pub store : Store P
  pub replicas : List (ℤ × ℤ)
  pub waiters : List Waiter
  pub client_offsets : List (ℤ × ℤ)
  pub log : Bytes
  pub stream : List (List ℤ × Bytes)
  pub replies : List (ℤ × Bytes)

unfoldable pub count_acked : ℤ → List (ℤ × ℤ) → ℕ
count_acked target_offset [] = 0
count_acked target_offset ((fd, offset) ∷ replicas) =
    let rest = count_acked target_offset replicas in
    if leb_ℤ target_offset offset then suc rest else rest

unfoldable pub kept_replicas : (ℤ → Bytes → Bool) → Bytes → List (ℤ × ℤ) → List (ℤ × ℤ)
kept_replicas reaches encoded [] = []
kept_replicas reaches encoded ((fd, offset) ∷ replicas) =
    let rest = kept_replicas reaches encoded replicas in
    if reaches fd encoded then (fd, offset) ∷ rest else rest

abbrev pub same_fd : ℤ → ℤ → Bool
same_fd a b = leb_ℤ a b && leb_ℤ b a

-- `replicas.emplace`, which leaves an entry that is there.
unfoldable pub emplace_replica : ℤ → ℤ → List (ℤ × ℤ) → List (ℤ × ℤ)
emplace_replica fd offset [] = (fd, offset) ∷ []
emplace_replica fd offset ((other, acked) ∷ replicas) =
    let rest = emplace_replica fd offset replicas in
    if same_fd fd other then (other, acked) ∷ replicas else (other, acked) ∷ rest

unfoldable pub set_offset : ℤ → ℤ → List (ℤ × ℤ) → List (ℤ × ℤ)
set_offset fd offset [] = (fd, offset) ∷ []
set_offset fd offset ((other, old) ∷ offsets) =
    let rest = set_offset fd offset offsets in
    if same_fd fd other then (other, offset) ∷ offsets else (other, old) ∷ rest

-- `expire_waiters`: those that stay, and those that are answered.
unfoldable pub due : ℤ → Waiter → Bool
due now waiter = elim waiter.deadline [ none ↦ false | some deadline ↦ leb_ℤ deadline now ]

unfoldable pub expire_reply : List (ℤ × ℤ) → Waiter → ℤ × Bytes
expire_reply replicas waiter = (
  waiter.fd,
  elim waiter.kind [
    | wait_block ↦ to_bytes (integer (pos (count_acked waiter.target_offset replicas)))
    | list_block ↦ to_bytes null_array
    | stream_block ↦ to_bytes null_array
  ],
)

unfoldable pub expire_all : ℤ → List (ℤ × ℤ) → List Waiter → List Waiter × List (ℤ × Bytes)
expire_all now replicas [] = ([], [])
expire_all now replicas (waiter ∷ waiters) =
    let (stay, replies) = expire_all now replicas waiters in
    if due now waiter
    then (stay, expire_reply replicas waiter ∷ replies)
    else (waiter ∷ stay, replies)

-- Whole milliseconds, cut towards 0, of a time that is not below 0; 0 for the others.
unfoldable pub remaining_ms : ℤ → ℤ → ℕ
remaining_ms now deadline = pos_part (deadline -ℤ now) / 10 ^ 6

-- `static_cast<int>` of a number of milliseconds.
unfoldable pub as_int : ℕ → ℤ
as_int n = of_bits (2 ^ 31) (n % 2 ^ 32)

-- One round of the loop of `next_timeout`.
unfoldable pub nearer : ℤ → Option ℤ → ℤ → ℤ
nearer now none timeout = timeout
nearer now (some deadline) timeout =
    let remaining = remaining_ms now deadline in
    if is_negative timeout || ltb_ℤ (pos remaining) timeout then as_int remaining else timeout

unfoldable pub least_timeout : ℤ → List Waiter → ℤ → ℤ
least_timeout now [] timeout = timeout
least_timeout now (waiter ∷ waiters) timeout =
    least_timeout now waiters (nearer now waiter.deadline timeout)

unfoldable pub next_timeout : ℤ → Syncing → List Waiter → ℤ
unfolding least_timeout
next_timeout now syncing waiters = least_timeout now waiters (sync_timeout_ms now syncing)

-- Whether a command is written to the log and sent to replicas as it is.
unfoldable pub is_logged : Bool → List Bytes → Bytes → Bool
is_logged was_in_multi [] response = false
is_logged was_in_multi (word ∷ rest) response =
    not was_in_multi && (is_write_command (to_upper word) && not (is_error response))

module _ {P : Platform} (reaches : ℤ → Bytes → Bool) where
  unfoldable pub send_to_replicas : Bytes → Server P → Server P
  unfolding bump_repl_offset
  send_to_replicas encoded v = record v {
    store = bump_repl_offset (length encoded) v.store;
    replicas = kept_replicas reaches encoded v.replicas;
    stream = v.stream ++ (map (λ r. r.0) v.replicas, encoded) ∷ [];
  }

  unfoldable pub propagate_to_replicas : List Bytes → Server P → Server P
  unfolding send_to_replicas
  propagate_to_replicas args v = send_to_replicas (command_bytes args) v

  -- `propagate_to_replicas`, and then `clients[fd].repl_offset = store.repl_offset()`.
  unfoldable pub propagate_for : ℤ → List Bytes → Server P → Server P
  unfolding propagate_to_replicas
  propagate_for fd args v =
      let sent = propagate_to_replicas args v in
      record sent {
        client_offsets = set_offset fd sent.store.master_repl_offset sent.client_offsets;
      }

  -- `aof_.append`; `opened` is whether there is a log.
  unfoldable pub append_log : Bool → List Bytes → Server P → Server P
  append_log opened args v = record v { log = v.log ++ append opened args }

  unfoldable pub append_all : Bool → List (List Bytes) → Server P → Server P
  unfolding append_log
  append_all opened [] v = v
  append_all opened (args ∷ pending) v = append_all opened pending (append_log opened args v)

  unfoldable pub propagate_all : ℤ → List (List Bytes) → Server P → Server P
  unfolding propagate_for
  propagate_all fd [] v = v
  propagate_all fd (args ∷ pending) v = propagate_all fd pending (propagate_for fd args v)

  -- A client that has sent PSYNC becomes a replica.
  unfoldable pub add_replica : ℤ → Bool → List Bytes → Bytes → Server P → Server P
  add_replica fd was_in_multi [] response v = v
  add_replica fd was_in_multi (word ∷ rest) response v =
      if to_upper word =ᵇ codes "PSYNC"
        && (not was_in_multi && (not (length response == 0) && not (is_error response)))
      then record v { replicas = emplace_replica fd v.store.master_repl_offset v.replicas }
      else v

  -- From the reply of `handle_command` to the end of its propagation.
  unfoldable pub after_command : Bool → ℤ → Bool → List Bytes → Bytes → Server P → Server P
  unfolding append_log propagate_for add_replica append_all propagate_all
  after_command opened fd was_in_multi args response v =
      let v1 = add_replica fd was_in_multi args response v in
      let v2 =
        (if is_logged was_in_multi args response
          then propagate_for fd args (append_log opened args v1)
          else v1) in
      let (pending, s) = take_pending_propagations v2.store in
      let v3 = record v2 { store = s } in
      propagate_all fd pending (
        if was_in_multi
        then record v3 { log = v3.log ++ append_transaction opened pending }
        else append_all opened pending v3)

  -- Commands that are logged and sent on one by one.
  unfoldable pub log_and_propagate : Bool → ℤ → List (List Bytes) → Server P → Server P
  unfolding append_log propagate_for
  log_and_propagate opened fd [] v = v
  log_and_propagate opened fd (args ∷ pending) v =
      log_and_propagate opened fd pending (propagate_for fd args (append_log opened args v))

  -- A reply to a waiter, after which it is taken from the list.
  unfoldable pub answer : Waiter → Bytes → Server P → Server P
  answer waiter reply v = record v { replies = v.replies ++ (waiter.fd, reply) ∷ [] }

  -- The end of `try_blpop` for a waiter: what it has queued is logged and sent on.
  unfoldable pub serve_popped : Bool → Waiter → Option (Bytes × Bytes) → Server P → Bool × Server P
  unfolding log_and_propagate answer
  serve_popped opened waiter none v = (false, v)
  serve_popped opened waiter (some (key, value)) v =
      let (pending, s) = take_pending_propagations v.store in
      (
        true,
        answer waiter (to_bytes (array (key ∷ value ∷ [])))
            (log_and_propagate opened waiter.fd pending (record v { store = s })),
      )

  -- One waiter: whether it has been answered.
  unfoldable pub serve_one : Bool → Waiter → Server P → Bool × Server P
  unfolding serve_popped answer
  serve_one opened waiter v = elim waiter.kind [
    | wait_block ↦
        let acked = count_acked waiter.target_offset v.replicas in
        if leb waiter.count acked
        then (true, answer waiter (to_bytes (integer (pos acked))) v)
        else (false, v)
    | list_block ↦
        let (popped, s) = try_blpop waiter.keys v.store in
        serve_popped opened waiter popped (record v { store = s })
    | stream_block ↦ elim (try_xread waiter.keys waiter.ids waiter.count v.store) [
      | none ↦ (false, v)
      | some reply ↦ (true, answer waiter reply v)
    ]
  ]

  -- `serve_waiters`: those that stay, and the server after it.
  unfoldable pub serve_waiters : Bool → List Waiter → Server P → List Waiter × Server P
  unfolding serve_one
  serve_waiters opened [] v = ([], v)
  serve_waiters opened (waiter ∷ waiters) v =
      let (served, next) = serve_one opened waiter v in
      let (stay, last) = serve_waiters opened waiters next in
      (if served then stay else waiter ∷ stay, last)
