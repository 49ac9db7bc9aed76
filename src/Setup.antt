-- ===== src/Setup.antt =====
-- store/store.cpp and store/config_commands.cpp: the settings of the store, CONFIG GET, and the
-- entries of a snapshot.
pub mod Loaded
use true_store.Base.{
  ℕ, zero, suc, ◌+◌, ◌-◌, ◌*◌, ◌/◌, ◌%◌, ◌^◌, ◌≤◌, ◌<◌, String, ◌≡◌, refl, sym, ap, ◌∙◌, ◌≢◌, ◌↔◌,
  ◌⊎◌, inl, inr, Bool, true, false, not, ◌&&◌, ◌||◌, Option, none, some, List, [], ◌∷◌, ◌++◌, map,
  append_assoc, append-nil, arith, ltb, leb, ◌==◌, if◌then◌else◌, ltb→lt, lt→ltb, leb→le, le→leb,
  ltb-false, leb-false, ==_iff, tests, Bool-cases, Option-cases, List-cases, if_both, length,
  get_elem?, take, drop, get_or, set, replicate, All, length-append, drop-append, take-append,
  take-append-drop, length-take, length-drop, length-set, length-replicate, ℤ, pos, negsuc,
  pos_part, neg_part, sub_ℕ, ◌+ℤ◌, ◌-ℤ◌, ◌≤ℤ◌, ltb_ℤ, leb_ℤ, is_negative, of_bits, wrap_i64,
  wrap_i64_fits,
}
use true_store.Text.{
  Bytes, codes, ◌=ᵇ◌, less, toupper, tolower, to_upper, to_lower, to_upper_idem, crlf,
}
use true_store.Dict.{
  Dict, is_some, find, insert, erase, contains, keys, find-insert, find-erase, find-insert_self,
  find-erase_self, dict_laws,
}
use true_store.Resp.{
  RespType, simple_string, bulk_string, simple_error, null_bulk_string, integer, array,
  nested_array, null_array, RespTypes, nested, bulk_bytes, bulks_bytes, to_bytes, all_bytes,
  command_bytes,
}
use true_store.Platform.{Platform, Doubles, Rax, Now, StreamEntryData}
use true_store.Store.Types.{
  StreamId, Stream, SortedSet, BlockKind, list_block, stream_block, wait_block, BlockRequest, Store,
  KeyType, type_none, type_string, type_list, type_stream, type_zset, type_name, error_reply,
  arity_error, wrong_type, not_integer, syntax_error,
}
use true_store.Config.{Config}
use true_store.Rdb.{RdbEntry}
use true_store.Replication.{init_replication}

-- `time_point{milliseconds(n)}` in 64-bit nanoseconds, of an unsigned number.
unfoldable pub time_of_ms : ℕ → ℤ
time_of_ms n =
    let ms = wrap_i64 (pos n) in wrap_i64 (pos (pos_part ms * 10 ^ 6) -ℤ pos (neg_part ms * 10 ^ 6))

unfoldable pub config_reply : String → Bytes → Bytes
config_reply name value = to_bytes (array (codes name ∷ value ∷ []))

module _ {P : Platform} where
  unfoldable pub init : Bytes → Config → Store P → Store P
  unfolding init_replication
  init replid config s = init_replication replid config (record s {
    dir = config.dir;
    dbfilename = config.dbfilename;
    appendonly = config.appendonly;
    appenddirname = config.appenddirname;
    appendfilename = config.appendfilename;
    appendfsync = config.appendfsync;
  })

  unfoldable pub config_value : Bytes → Store P → Bytes
  config_value param s =
      if param =ᵇ codes "DIR"
      then config_reply "dir" s.dir
      else if param =ᵇ codes "APPENDONLY"
      then config_reply "appendonly" s.appendonly
      else if param =ᵇ codes "APPENDDIRNAME"
      then config_reply "appenddirname" s.appenddirname
      else if param =ᵇ codes "APPENDFILENAME"
      then config_reply "appendfilename" s.appendfilename
      else if param =ᵇ codes "APPENDFSYNC"
      then config_reply "appendfsync" s.appendfsync
      else to_bytes (array [])

  unfoldable pub handle_config_get : List Bytes → Store P → Bytes × Store P
  handle_config_get (_ ∷ get ∷ param ∷ []) s =
      if to_upper get =ᵇ codes "GET"
      then (config_value (to_upper param) s, s)
      else (arity_error "config|get", s)
  handle_config_get _ s = (arity_error "config|get", s)

  -- One round of `load_entries`, with both clocks in nanoseconds.
  unfoldable pub load_entry : ℤ → ℤ → RdbEntry → Store P → Store P
  load_entry system_now steady_now entry s = elim entry.expire_at_ms [
    | none ↦ record s { storage = insert entry.key entry.value s.storage }
    | some ms ↦
        let expire_at = time_of_ms ms in
        if leb_ℤ expire_at system_now then s else record s {
          expirations =
              insert entry.key (wrap_i64 (steady_now +ℤ wrap_i64 (expire_at -ℤ system_now)))
                s.expirations;
          storage = insert entry.key entry.value s.storage;
        }
  ]

  unfoldable pub load_entries : ℤ → ℤ → List RdbEntry → Store P → Store P
  load_entries system_now steady_now [] s = s
  load_entries system_now steady_now (entry ∷ entries) s =
      load_entries system_now steady_now entries (load_entry system_now steady_now entry s)
