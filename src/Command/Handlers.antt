-- ===== src/Command/Handlers.antt =====
-- `dispatch_command` of command/command.cpp: the handler of each command, by its name. An exception
-- that leaves a handler is answered as the loop of server/server.cpp answers it.
use true_store.Base.{
  String, Bool, true, false, not, Option, none, some, List, [], ◌∷◌, ◌++◌, ◌==◌, if◌then◌else◌,
  length,
}
use true_store.Text.{Bytes, codes, ◌=ᵇ◌, to_upper}
use true_store.Resp.{simple_string, bulk_string, simple_error, array, to_bytes}
use true_store.Platform.{Platform, Now}
use true_store.Store.Types.{Store, KeyType, type_zset, error_reply, arity_error, wrong_type}
use true_store.Store.{key_type, handle_type, handle_keys}
use true_store.Client.{ClientState}
use true_store.Auth.{handle_acl, handle_auth}
use true_store.PubSub.{handle_subscribe, handle_unsubscribe, handle_publish}
use true_store.SortedSets.Commands.{
  Outcome, reply, thrown, handle_zadd, handle_zrank, handle_zrange, handle_zcard, handle_zscore,
  handle_zrem,
}
use true_store.Geospatial.Commands.{handle_geoadd, handle_geopos, handle_geodist}
use true_store.Geospatial.Queries.{handle_geosearch}
use true_store.Strings.{handle_set, handle_get, handle_strlen, handle_incr}
use true_store.Bitmaps.{handle_setbit, handle_getbit, handle_bitcount, handle_bitop}
use true_store.Lists.{
  handle_rpush, handle_lpush, handle_llen, handle_lpop, handle_blpop, handle_lrange,
}
use true_store.Streams.Commands.{handle_xadd, handle_xrange}
use true_store.Streams.Read.{handle_xread}
use true_store.Replication.{handle_info, handle_replconf, handle_psync, handle_wait}
use true_store.Setup.{handle_config_get}
use true_store.Command.{Replied, Dispatch, one_of, word_of}

-- The answer of the server to an exception.
unfoldable pub internal_error : Bytes
unfolding error_reply
internal_error = error_reply "ERR internal error"

unfoldable pub caught : Outcome → Bytes
caught (reply bytes) = bytes
caught thrown = internal_error

-- PING, which has an answer of its own in the subscribed mode.
unfoldable pub ping : List Bytes → Bool → Bytes
ping [] true = to_bytes (array (codes "pong" ∷ [] ∷ []))
ping [] false = to_bytes (simple_string (codes "PONG"))
ping (text ∷ []) true = to_bytes (array (codes "pong" ∷ text ∷ []))
ping (text ∷ []) false = to_bytes (bulk_string text)
ping (_ ∷ _ ∷ _) subscribed = arity_error "ping"

unfoldable pub echo : List Bytes → Bytes
echo (_ ∷ text ∷ []) = to_bytes (bulk_string text)
echo _ = arity_error "echo"

abbrev is_zset : KeyType → Bool
is_zset type_zset = true
is_zset _ = false

abbrev pub incompatible_with_sorted_set : List String
incompatible_with_sorted_set =
    "GET" ∷ "INCR" ∷ "RPUSH" ∷ "LPUSH" ∷ "LLEN" ∷ "LRANGE" ∷ "LPOP" ∷ "XADD" ∷ "XRANGE" ∷ []

module _ {P : Platform} where
  -- Results of handlers that change the store, and of those that may throw.
  abbrev pub plain : ClientState → Bytes × Store P → Replied P
  plain c (bytes, s) = (bytes, (c, s))

  abbrev pub guarded : ClientState → Outcome × Store P → Replied P
  guarded c (outcome, s) = (caught outcome, (c, s))

  abbrev pub acl_result : ClientState → Store P → Option (Bytes × Store P) → Replied P
  acl_result c s none = (internal_error, (c, s))
  acl_result c s (some (bytes, t)) = (bytes, (c, t))

  abbrev pub auth_result : ClientState → Store P → Option (Bytes × ClientState) → Replied P
  auth_result c s none = (internal_error, (c, s))
  auth_result c s (some (bytes, d)) = (bytes, (d, s))

  -- The check in front of the later commands, which looks at the key only for some of them.
  unfoldable pub holds_zset : Now → Bytes → List Bytes → Store P → Bool × Store P
  holds_zset now command (_ ∷ key ∷ rest) s =
      let (t, s') = key_type now key s in
      if one_of command incompatible_with_sorted_set then (is_zset t, s') else (false, s)
  holds_zset now command _ s = (false, s)

  -- The commands behind the check for sorted sets, from streams on.
  unfoldable pub dispatch_last : Now → Bytes → List Bytes → ClientState → Store P → Replied P
  dispatch_last now command args c s =
      if command =ᵇ codes "TYPE"
      then plain c (handle_type now args s)
      else if command =ᵇ codes "KEYS"
      then plain c (handle_keys now args s)
      else if command =ᵇ codes "XADD"
      then plain c (handle_xadd now args s)
      else if command =ᵇ codes "XRANGE"
      then plain c (handle_xrange args s)
      else if command =ᵇ codes "XREAD"
      then plain c (handle_xread args s)
      else if command =ᵇ codes "INCR"
      then plain c (handle_incr args s)
      else if command =ᵇ codes "INFO"
      then plain c (handle_info args s)
      else if command =ᵇ codes "REPLCONF"
      then plain c (handle_replconf args s)
      else if command =ᵇ codes "PSYNC"
      then plain c (handle_psync args s)
      else if command =ᵇ codes "WAIT"
      then plain c (handle_wait args s)
      else if command =ᵇ codes "CONFIG"
      then plain c (handle_config_get args s)
      else (
        to_bytes (simple_error (codes "ERR unknown command '" ++ (word_of args ++ codes "'"))),
        (c, s),
      )

  -- ECHO, strings, bitmaps and lists.
  unfoldable pub dispatch_late : Now → Bytes → List Bytes → ClientState → Store P → Replied P
  dispatch_late now command args c s =
      if command =ᵇ codes "ECHO"
      then (echo args, (c, s))
      else if command =ᵇ codes "SET"
      then plain c (handle_set now args s)
      else if command =ᵇ codes "GET"
      then plain c (handle_get now args s)
      else if command =ᵇ codes "STRLEN"
      then plain c (handle_strlen now args s)
      else if command =ᵇ codes "SETBIT"
      then plain c (handle_setbit now args s)
      else if command =ᵇ codes "GETBIT"
      then plain c (handle_getbit now args s)
      else if command =ᵇ codes "BITCOUNT"
      then plain c (handle_bitcount now args s)
      else if command =ᵇ codes "BITOP"
      then plain c (handle_bitop now args s)
      else if command =ᵇ codes "RPUSH"
      then plain c (handle_rpush args s)
      else if command =ᵇ codes "LRANGE"
      then plain c (handle_lrange args s)
      else if command =ᵇ codes "LPUSH"
      then plain c (handle_lpush args s)
      else if command =ᵇ codes "LLEN"
      then plain c (handle_llen args s)
      else if command =ᵇ codes "LPOP"
      then plain c (handle_lpop args s)
      else if command =ᵇ codes "BLPOP"
      then plain c (handle_blpop args s)
      else dispatch_last now command args c s

  -- The check for sorted sets, and the commands behind it.
  unfoldable pub dispatch_checked : Now → Bytes → List Bytes → ClientState → Store P → Replied P
  dispatch_checked now command args c s =
      let (wrong, s') = holds_zset now command args s in
      if wrong then (wrong_type, (c, s')) else dispatch_late now command args c s'

  -- `dispatch_command`; a command has at least its name.
  unfoldable pub dispatch_command : Now → Dispatch P
  dispatch_command now [] c s = (error_reply "ERR empty command", (c, s))
  dispatch_command now (word ∷ rest) c s =
      let command = to_upper word in
      let args = word ∷ rest in
      if command =ᵇ codes "ACL"
      then acl_result c s (handle_acl args s)
      else if command =ᵇ codes "AUTH"
      then auth_result c s (handle_auth args c s)
      else if command =ᵇ codes "PING"
      then (ping rest (not (length c.subscriptions == 0)), (c, s))
      else if command =ᵇ codes "SUBSCRIBE"
      then handle_subscribe args c s
      else if command =ᵇ codes "UNSUBSCRIBE"
      then handle_unsubscribe args c s
      else if command =ᵇ codes "PUBLISH"
      then plain c (handle_publish args s)
      else if command =ᵇ codes "ZADD"
      then plain c (handle_zadd now args s)
      else if command =ᵇ codes "ZRANK"
      then plain c (handle_zrank now args s)
      else if command =ᵇ codes "ZRANGE"
      then guarded c (handle_zrange now args s)
      else if command =ᵇ codes "ZCARD"
      then plain c (handle_zcard now args s)
      else if command =ᵇ codes "ZSCORE"
      then guarded c (handle_zscore now args s)
      else if command =ᵇ codes "ZREM"
      then plain c (handle_zrem now args s)
      else if command =ᵇ codes "GEOADD"
      then plain c (handle_geoadd now args s)
      else if command =ᵇ codes "GEOPOS"
      then guarded c (handle_geopos now args s)
      else if command =ᵇ codes "GEODIST"
      then guarded c (handle_geodist now args s)
      else if command =ᵇ codes "GEOSEARCH"
      then guarded c (handle_geosearch now args s)
      else dispatch_checked now command args c s
