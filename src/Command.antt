-- ===== src/Command.antt =====
-- command/command.cpp: the order of the checks in front of a command, and transactions. The choice
-- of a handler by name, `dispatch_command`, is a parameter here and stands in the module Handlers.
pub mod Handlers
pub mod Transactions
pub mod Watching
pub mod Outsiders
pub mod Sessions
use true_store.Base.{
  String, Bool, true, false, not, ◌&&◌, ◌||◌, Option, none, some, List, [], ◌∷◌, ◌++◌, ◌==◌,
  if◌then◌else◌, length,
}
use true_store.Text.{Bytes, codes, ◌=ᵇ◌, to_upper, to_lower, crlf}
use true_store.Text.Decimal.{to_string}
use true_store.Dict.{is_some}
use true_store.Resp.{simple_string, simple_error, null_array, to_bytes}
use true_store.Platform.{Platform, Now}
use true_store.Store.Types.{Store, error_reply, arity_error}
use true_store.Store.{peek, take_pending_block, queue_propagation}
use true_store.Client.{ClientState}
use true_store.PubSub.{remove_subscriber}

-- A reply with the client and the store behind it.
abbrev pub Replied : Platform → Type 0
Replied P = Bytes × (ClientState × Store P)

abbrev pub Dispatch : Platform → Type 0
Dispatch P = List Bytes → ClientState → Store P → Replied P

abbrev pub one_of : Bytes → List String → Bool
one_of word [] = false
one_of word (name ∷ names) = (word =ᵇ codes name) || one_of word names

abbrev write_commands : List String
write_commands =
    "SET" ∷ "SETNX" ∷ "SETEX" ∷ "PSETEX" ∷ "GETSET" ∷ "GETDEL" ∷ "APPEND" ∷ "SETRANGE" ∷ "MSET"
    ∷ "MSETNX" ∷ "DEL" ∷ "UNLINK" ∷ "INCR" ∷ "DECR" ∷ "INCRBY" ∷ "DECRBY" ∷ "INCRBYFLOAT" ∷ "EXPIRE"
    ∷ "PEXPIRE" ∷ "EXPIREAT" ∷ "PEXPIREAT" ∷ "PERSIST" ∷ "RPUSH" ∷ "LPUSH" ∷ "RPUSHX" ∷ "LPUSHX"
    ∷ "LPOP" ∷ "RPOP" ∷ "LSET" ∷ "LREM" ∷ "LTRIM" ∷ "LINSERT" ∷ "XADD" ∷ "XDEL" ∷ "XTRIM" ∷ "SADD"
    ∷ "SREM" ∷ "HSET" ∷ "HDEL" ∷ "ZADD" ∷ "ZREM" ∷ "RENAME" ∷ "COPY" ∷ "FLUSHALL" ∷ "FLUSHDB"
    ∷ "GEOADD" ∷ "SETBIT" ∷ "BITOP" ∷ []

unfoldable pub is_write_command : Bytes → Bool
is_write_command word = one_of word write_commands

-- `args[0]`; a command without words is refused before.
abbrev pub word_of : List Bytes → Bytes
word_of [] = []
word_of (word ∷ rest) = word

unfoldable pub is_error : Bytes → Bool
is_error [] = false
is_error (c ∷ rest) = c == b'-'

unfoldable pub same_value : Option Bytes → Option Bytes → Bool
same_value none none = true
same_value (some a) (some b) = a =ᵇ b
same_value _ _ = false

unfoldable pub ok_reply : Bytes
ok_reply = to_bytes (simple_string (codes "OK"))

-- The client outside of a transaction.
unfoldable pub cleared : ClientState → ClientState
cleared c = record c { in_multi = false; queued = []; watched = [] }

module _ {P : Platform} where
  unfoldable pub default_user_auto_auth : Store P → Bool
  default_user_auto_auth s = s.default_user_enabled && s.default_user_nopass

  -- A command that has run inside EXEC: it does not wait, and a write is left for the replicas.
  unfoldable pub after_queued : List Bytes → Bytes → Store P → Bytes × Store P
  after_queued args result s =
      let (block, t) = take_pending_block s in
      let reply = if is_some block then to_bytes null_array else result in
      (
        reply,
        if is_write_command (to_upper (word_of args)) && not (is_error reply)
            then queue_propagation args t
            else t,
      )

  -- QUIT and RESET.
  unfoldable pub end_session : Bool → List Bytes → ClientState → Store P → Replied P
  end_session quits [] c s =
      let t = remove_subscriber c.fd s in
      (
        to_bytes (simple_string (if quits then codes "OK" else codes "RESET")),
        (
          record (cleared c) {
            subscriptions = [];
            authenticated = default_user_auto_auth t;
            close_after_reply = quits;
          },
          t,
        ),
      )
  end_session quits (_ ∷ _) c s = (error_reply "ERR wrong number of arguments", (c, s))

  unfoldable pub handle_multi : List Bytes → ClientState → Store P → Replied P
  handle_multi [] c s =
      if c.in_multi
      then (error_reply "ERR MULTI calls can not be nested", (c, s))
      else (ok_reply, (record c { in_multi = true }, s))
  handle_multi (_ ∷ _) c s = (arity_error "multi", (c, s))

  unfoldable pub handle_discard : ClientState → Store P → Replied P
  handle_discard c s =
      if c.in_multi
      then (ok_reply, (cleared c, s))
      else (error_reply "ERR DISCARD without MULTI", (c, s))

  -- The loop of WATCH: each key with the string that is there now.
  unfoldable pub watch_keys : Now → List Bytes → ClientState → Store P → ClientState × Store P
  watch_keys now [] c s = (c, s)
  watch_keys now (key ∷ rest) c s =
      let (value, t) = peek now key s in
      watch_keys now rest (record c { watched = c.watched ++ (key, value) ∷ [] }) t

  unfoldable pub handle_watch : Now → List Bytes → ClientState → Store P → Replied P
  handle_watch now [] c s = (arity_error "watch", (c, s))
  handle_watch now (key ∷ rest) c s =
      if c.in_multi
      then (error_reply "ERR WATCH inside MULTI is not allowed", (c, s))
      else (ok_reply, watch_keys now (key ∷ rest) c s)

  -- The loop of EXEC over the watched keys, up to the first that has another value.
  unfoldable pub changed : Now → List (Bytes × Option Bytes) → Store P → Bool × Store P
  changed now [] s = (false, s)
  changed now ((key, snapshot) ∷ rest) s =
      let (value, t) = peek now key s in
      let others = changed now rest t in if same_value value snapshot then others else (true, t)

  -- The loop of EXEC over the queued commands.
  unfoldable pub run_queued : Dispatch P → List (List Bytes) → ClientState → Store P → Replied P
  run_queued dispatch [] c s = ([], (c, s))
  run_queued dispatch (args ∷ rest) c s =
      let (result, (d, t)) = dispatch args c s in
      let (reply, u) = after_queued args result t in
      let (replies, end) = run_queued dispatch rest d u in (reply ++ replies, end)

  unfoldable pub exec_queued : Dispatch P → List (List Bytes) → ClientState → Store P → Replied P
  exec_queued dispatch queued c s =
      let (replies, end) = run_queued dispatch queued c s in
      (b'*' ∷ to_string (length queued) ++ (crlf ++ replies), end)

  unfoldable pub handle_exec : Now → Dispatch P → ClientState → Store P → Replied P
  handle_exec now dispatch c s =
      if not c.in_multi
      then (error_reply "ERR EXEC without MULTI", (c, s))
      else (let (dirty, t) = changed now c.watched s in
          if dirty
          then (to_bytes null_array, (cleared c, t))
          else exec_queued dispatch c.queued (cleared c) t)

  -- A command that has passed the checks, by its name in upper case.
  unfoldable pub run_command :
      Now → Dispatch P → Bytes → List Bytes → ClientState → Store P → Replied P
  run_command now dispatch word rest c s =
      let command = to_upper word in
      if one_of command ("QUIT" ∷ "RESET" ∷ [])
      then end_session (command =ᵇ codes "QUIT") rest c s
      else if command =ᵇ codes "MULTI"
      then handle_multi rest c s
      else if command =ᵇ codes "WATCH"
      then handle_watch now rest c s
      else if command =ᵇ codes "UNWATCH"
      then (ok_reply, (record c { watched = [] }, s))
      else if command =ᵇ codes "DISCARD"
      then handle_discard c s
      else if command =ᵇ codes "EXEC"
      then handle_exec now dispatch c s
      else if c.in_multi
      then (
        to_bytes (simple_string (codes "QUEUED")),
        (record c { queued = c.queued ++ (word ∷ rest) ∷ [] }, s),
      )
      else dispatch (word ∷ rest) c s

  -- `handle_command`, with the clocks and the dispatch.
  unfoldable pub handle_command : Now → Dispatch P → List Bytes → ClientState → Store P → Replied P
  handle_command now dispatch [] c s = (error_reply "ERR empty command", (c, s))
  handle_command now dispatch (word ∷ rest) c s =
      if not c.authenticated
        && (not (default_user_auto_auth s)
            && not (one_of (to_upper word) ("AUTH" ∷ "QUIT" ∷ "RESET" ∷ [])))
      then (error_reply "NOAUTH Authentication required.", (c, s))
      else if not (length c.subscriptions == 0)
          && not (
              one_of (to_upper word) (
                "SUBSCRIBE" ∷ "UNSUBSCRIBE" ∷ "PSUBSCRIBE" ∷ "PUNSUBSCRIBE" ∷ "PING" ∷ "QUIT"
                ∷ "RESET" ∷ []))
      then (
        to_bytes (
            simple_error
              (codes "ERR Can't execute '" ++ (to_lower word ++ codes "' in subscribed mode"))),
        (c, s),
      )
      else run_command now dispatch word rest c s
