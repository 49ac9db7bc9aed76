-- ===== src/Strings.antt =====
-- store/strings.cpp: SET, GET, STRLEN and INCR.
pub mod Reads
pub mod Expire
pub mod Incr
use true_store.Base.{
  ℕ, zero, suc, ◌+◌, ◌-◌, ◌*◌, ◌/◌, ◌%◌, ◌^◌, ◌≤◌, ◌<◌, String, ◌≡◌, refl, sym, ap, ◌∙◌, ◌≢◌, ◌↔◌,
  ◌⊎◌, inl, inr, Bool, true, false, not, ◌&&◌, ◌||◌, Option, none, some, List, [], ◌∷◌, ◌++◌, map,
  append_assoc, append-nil, arith, ltb, leb, ◌==◌, if◌then◌else◌, ltb→lt, lt→ltb, leb→le, le→leb,
  ltb-false, leb-false, ==_iff, tests, Bool-cases, Option-cases, if_both, length, get_elem?, take,
  drop, get_or, set, replicate, All, length-append, drop-append, take-append, take-append-drop,
  length-take, length-drop, length-set, length-replicate, ℤ, pos, negsuc, pos_part, neg_part, sub_ℕ,
  ◌+ℤ◌, ◌-ℤ◌, ◌≤ℤ◌, ltb_ℤ, leb_ℤ, is_negative, of_bits, wrap_i64, wrap_i64_fits,
}
use true_store.Text.{
  Bytes, codes, ◌=ᵇ◌, less, toupper, tolower, to_upper, to_lower, to_upper_idem, crlf,
}
use true_store.Dict.{
  Dict, is_some, find, insert, erase, contains, keys, find-insert, find-erase, find-insert_self,
  find-erase_self, dict_laws,
}
use true_store.Resp.{
  RespType, simple_string, bulk_string, simple_error, null_bulk_string, integer, array,
  nested_array, null_array, RespTypes, nested, bulk_bytes, bulks_bytes, to_bytes, all_bytes,
  command_bytes,
}
use true_store.Platform.{Platform, Doubles, Rax, Now, StreamEntryData}
use true_store.Text.Parse.{
  is_space, negate, stoll, stoi, stoull, from_chars_u64, from_chars_i64, stoull-to_string,
  from_chars_u64-to_string, stoll-to_string, stoi-to_string, from_chars_i64-to_string,
}
use true_store.Store.{
  is_expired, live_type, key_type, peek, handle_type, match_keys, handle_keys, take_pending_block,
  queue_propagation, take_pending_propagations, take_pending_messages,
}
use true_store.Store.Types.{
  StreamId, Stream, SortedSet, BlockKind, list_block, stream_block, wait_block, BlockRequest, Store,
  KeyType, type_none, type_string, type_list, type_stream, type_zset, type_name, error_reply,
  arity_error, wrong_type, not_integer, syntax_error,
}
use true_store.Text.Decimal.{to_string_ℤ}

unfoldable pub invalid_expire : Bytes
unfolding error_reply
invalid_expire = error_reply "ERR invalid expire time in 'set' command"

unfoldable pub bulk_or_null : Option Bytes → Bytes
bulk_or_null none = to_bytes null_bulk_string
bulk_or_null (some value) = to_bytes (bulk_string value)

-- The size of an optional string, zero if there is none.
abbrev pub size_of : Option Bytes → ℕ
size_of none = 0
size_of (some value) = length value

module _ {P : Platform} where
  -- The lambda `assign` of `handle_set`.
  unfoldable pub assign : Bytes → Bytes → Store P → Store P
  assign key value s = record s {
    storage = insert key value s.storage;
    sorted_sets = erase key s.sorted_sets;
    dynamic_vector = erase key s.dynamic_vector;
    streams = erase key s.streams;
  }

-- `now + std::chrono::seconds(n)` and `+ std::chrono::milliseconds(n)` in 64-bit nanoseconds.
unfoldable pub deadline_after : ℤ → ℕ → ℕ → ℤ
deadline_after now n unit = wrap_i64 (now +ℤ wrap_i64 (pos (n * unit)))

abbrev pub ns_per_s : ℕ
ns_per_s = 10 ^ 9

abbrev pub ns_per_ms : ℕ
ns_per_ms = 10 ^ 6

-- The nanoseconds of an option's unit; `none` is a syntax error.
unfoldable pub unit_of : Bytes → Option ℕ
unit_of option =
    if option =ᵇ codes "EX"
    then some ns_per_s
    else if option =ᵇ codes "PX"
    then some ns_per_ms
    else none

module _ {P : Platform} (now : Now) where
  -- SET with an expire option, once its number is read.
  unfoldable pub set_expiring : Bytes → Bytes → Bytes → Option ℤ → Store P → Bytes × Store P
  set_expiring key value option none s = (invalid_expire, s)
  set_expiring key value option (some (negsuc n)) s = (invalid_expire, s)
  set_expiring key value option (some (pos zero)) s = (invalid_expire, s)
  set_expiring key value option (some (pos (suc n))) s = elim (unit_of option) [
    | none ↦ (syntax_error, s)
    | some unit ↦ (
      to_bytes (simple_string (codes "OK")),
      assign key value (record s {
        expirations = insert key (deadline_after now.steady (suc n) unit) s.expirations;
      }),
    )
  ]

  unfoldable pub handle_set : List Bytes → Store P → Bytes × Store P
  handle_set (_ ∷ key ∷ value ∷ []) s = (
    to_bytes (simple_string (codes "OK")),
    record (assign key value s) { expirations = erase key s.expirations },
  )
  handle_set (_ ∷ key ∷ value ∷ option ∷ time ∷ []) s = set_expiring key value option (stoll time) s
  handle_set _ s = (arity_error "set", s)

  unfoldable pub handle_get : List Bytes → Store P → Bytes × Store P
  handle_get (_ ∷ key ∷ []) s =
      let (expired, s') = is_expired now key s in
      if expired then (to_bytes null_bulk_string, s') else (bulk_or_null (find key s'.storage), s')
  handle_get _ s = (arity_error "get", s)

  unfoldable pub wrong_string_type : Bytes → Store P → Bool × Store P
  wrong_string_type key s =
      let (t, s') = key_type now key s in
      (elim t [ type_none ↦ false | type_string ↦ false | _ ↦ true ], s')

  unfoldable pub handle_strlen : List Bytes → Store P → Bytes × Store P
  handle_strlen (_ ∷ key ∷ []) s =
      let (wrong, s') = wrong_string_type key s in
      if wrong
      then (wrong_type, s')
      else (to_bytes (integer (pos (size_of (find key s'.storage)))), s')
  handle_strlen _ s = (arity_error "strlen", s)

-- `n++` on a 32-bit `int`: the sum of the greatest value and one wraps around.
unfoldable pub succ_i32 : ℤ → ℤ
succ_i32 z = let n = z +ℤ pos 1 in if ltb_ℤ (pos (2 ^ 31 - 1)) n then negsuc (2 ^ 31 - 1) else n

module _ {P : Platform} where
  -- INCR of a key that holds a value, read by `std::stoi`.
  unfoldable pub incr_value : Bytes → Option ℤ → Store P → Bytes × Store P
  incr_value key none s = (not_integer, s)
  incr_value key (some n) s = (
    to_bytes (integer (succ_i32 n)),
    record s { storage = insert key (to_string_ℤ (succ_i32 n)) s.storage },
  )

  -- INCR does not look at the deadline itself, and its arity error names another command.
  unfoldable pub handle_incr : List Bytes → Store P → Bytes × Store P
  handle_incr (_ ∷ key ∷ []) s = elim (find key s.storage) [
    | none ↦ (to_bytes (integer (pos 1)), record s { storage = insert key (codes "1") s.storage })
    | some value ↦ incr_value key (stoi value) s
  ]
  handle_incr _ s = (arity_error "lrange", s)
