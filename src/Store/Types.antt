-- ===== src/Store/Types.antt =====
-- The data of store/store.hpp, stream/stream.hpp and the error replies that the handlers share.
use true_store.Base.{ℕ, String, Bool, Option, List, ◌++◌, ℤ}
use true_store.Text.{Bytes, codes}
use true_store.Dict.{Dict}
use true_store.Resp.{simple_error, to_bytes}
use true_store.Platform.{Platform}

pub record StreamId : Type 0 where
  pub milliseconds : ℕ
  pub sequence : ℕ

-- `Stream`: the radix tree and the greatest ID that was added.
pub record Stream (Tree : Type 0) : Type 0 where
  pub tree : Tree
  pub has_max_id : Bool
  pub max_id : StreamId

-- `Store::SortedSet`: the score of each member, and the pairs in order.
pub record SortedSet (Double : Type 0) : Type 0 where
  pub scores : Dict Double
  pub ordered : List (Double × Bytes)

pub data BlockKind : Type 0 where
  list_block stream_block wait_block : BlockKind

pub record BlockRequest (Double : Type 0) : Type 0 where
  pub kind : BlockKind
  pub keys : List Bytes
  pub ids : List StreamId
  pub count : ℕ
  pub timeout : Double

pub record Store (P : Platform) : Type 0 where
  pub storage : Dict Bytes
  pub expirations : Dict ℤ
  pub dynamic_vector : Dict (List Bytes)
  pub pending_block : Option (BlockRequest P.Double)
  pub pending_propagations : List (List Bytes)
  pub streams : Dict (Stream P.Tree)
  pub sorted_sets : Dict (SortedSet P.Double)
  pub subscribers : Dict (List ℤ)
  pub pending_messages : List (ℤ × Bytes)
  pub default_user_enabled : Bool
  pub default_user_nopass : Bool
  pub default_user_passwords : List Bytes
  pub is_replica : Bool
  pub master_host : Bytes
  pub master_port : ℤ
  pub master_replid : Bytes
  pub master_repl_offset : ℤ
  pub dir : Bytes
  pub dbfilename : Bytes
  pub appendonly : Bytes
  pub appenddirname : Bytes
  pub appendfilename : Bytes
  pub appendfsync : Bytes

-- The five texts that `Store::key_type` returns.
pub data KeyType : Type 0 where
  type_none type_string type_list type_stream type_zset : KeyType

unfoldable pub type_name : KeyType → Bytes
type_name type_none = codes "none"
type_name type_string = codes "string"
type_name type_list = codes "list"
type_name type_stream = codes "stream"
type_name type_zset = codes "zset"

unfoldable pub error_reply : String → Bytes
error_reply message = to_bytes (simple_error (codes message))

unfoldable pub arity_error : String → Bytes
arity_error command = to_bytes (
    simple_error
      (codes "ERR wrong number of arguments for '" ++ (codes command ++ codes "' command")))

unfoldable pub wrong_type : Bytes
unfolding error_reply
wrong_type = error_reply "WRONGTYPE Operation against a key holding the wrong kind of value"

unfoldable pub not_integer : Bytes
unfolding error_reply
not_integer = error_reply "ERR value is not an integer or out of range"

unfoldable pub syntax_error : Bytes
unfolding error_reply
syntax_error = error_reply "ERR syntax error"
