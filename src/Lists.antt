-- ===== src/Lists.antt =====
-- store/lists.cpp: RPUSH, LPUSH, LLEN, LPOP, BLPOP and LRANGE.
pub mod Range
pub mod Queue
pub mod Blocking
pub mod Shape
use true_store.Base.{
  ℕ, zero, suc, ◌+◌, ◌-◌, ◌*◌, ◌/◌, ◌%◌, ◌^◌, ◌≤◌, ◌<◌, String, ◌≡◌, refl, sym, ap, ◌∙◌, ◌≢◌, ◌↔◌,
  ◌⊎◌, inl, inr, Bool, true, false, not, ◌&&◌, ◌||◌, Option, none, some, List, [], ◌∷◌, ◌++◌, map,
  append_assoc, append-nil, arith, ltb, leb, ◌==◌, if◌then◌else◌, ltb→lt, lt→ltb, leb→le, le→leb,
  ltb-false, leb-false, ==_iff, tests, Bool-cases, Option-cases, if_both, length, get_elem?, take,
  drop, get_or, set, replicate, All, length-append, drop-append, take-append, take-append-drop,
  length-take, length-drop, length-set, length-replicate, ℤ, pos, negsuc, pos_part, neg_part, sub_ℕ,
  ◌+ℤ◌, ◌-ℤ◌, ◌≤ℤ◌, ltb_ℤ, leb_ℤ, is_negative, of_bits, wrap_i64, wrap_i64_fits,
}
use true_store.Text.{
  Bytes, codes, ◌=ᵇ◌, less, toupper, tolower, to_upper, to_lower, to_upper_idem, crlf,
}
use true_store.Dict.{
  Dict, is_some, find, insert, erase, contains, keys, find-insert, find-erase, find-insert_self,
  find-erase_self, dict_laws,
}
use true_store.Resp.{
  RespType, simple_string, bulk_string, simple_error, null_bulk_string, integer, array,
  nested_array, null_array, RespTypes, nested, bulk_bytes, bulks_bytes, to_bytes, all_bytes,
  command_bytes,
}
use true_store.Platform.{Platform, Doubles, Rax, Now, StreamEntryData}
use true_store.Store.Types.{
  StreamId, Stream, SortedSet, BlockKind, list_block, stream_block, wait_block, BlockRequest, Store,
  KeyType, type_none, type_string, type_list, type_stream, type_zset, type_name, error_reply,
  arity_error, wrong_type, not_integer, syntax_error,
}
use true_store.Text.Parse.{stoll}
use true_store.Store.{queue_propagation}

-- `DynamicVector[name]`, which creates an empty vector where there is none.
abbrev pub or_empty : Option (List Bytes) → List Bytes
or_empty none = []
or_empty (some list) = list

-- The loop of LPUSH.
unfoldable pub push_front : List Bytes → List Bytes → List Bytes
push_front [] list = list
push_front (value ∷ rest) list = push_front rest (value ∷ list)

-- What is left of a list whose elements were removed: an empty vector is erased.
unfoldable pub store_rest : Bytes → List Bytes → Dict (List Bytes) → Dict (List Bytes)
store_rest key [] m = erase key m
store_rest key (value ∷ rest) m = insert key (value ∷ rest) m

-- `std::stod` of the last argument of BLPOP, which must be read to its end.
unfoldable pub whole_double : (P : Platform) → Bytes → Option P.Double
whole_double P text = elim (P.stod text) [
  | none ↦ none
  | some (value, consumed) ↦ if consumed == length text then some value else none
]

-- `start` and `stop` of a range of a list with `size` elements, counted from its front.
unfoldable pub from_front : ℕ → ℤ → ℕ
from_front size (pos n) = n
from_front size (negsuc n) = size - suc n

unfoldable pub slice : List Bytes → ℤ → ℤ → List Bytes
slice list start stop =
    let size = length list in
    let first = from_front size start in
    let last = from_front size stop in
    if leb size first || ltb last first
    then []
    else let end = if leb size last then size - 1 else last in
      take (end + 1 - first) (drop first list)

abbrev pub any_contains {ℓ} : {V : Type ℓ} → List Bytes → Dict V → Bool
any_contains [] m = false
any_contains (key ∷ keys) m = contains key m || any_contains keys m

-- The keys and the last argument.
abbrev pub split_last : Bytes → List Bytes → List Bytes × Bytes
split_last first [] = ([], first)
split_last first (next ∷ rest) = let (keys, last) = split_last next rest in (first ∷ keys, last)

module _ {P : Platform} where
  unfoldable pub handle_rpush : List Bytes → Store P → Bytes × Store P
  handle_rpush (_ ∷ key ∷ value ∷ rest) s =
      let list = or_empty (find key s.dynamic_vector) ++ value ∷ rest in
      (
        to_bytes (integer (pos (length list))),
        record s { dynamic_vector = insert key list s.dynamic_vector },
      )
  handle_rpush _ s = (arity_error "rpush", s)

  unfoldable pub handle_lpush : List Bytes → Store P → Bytes × Store P
  handle_lpush (_ ∷ key ∷ value ∷ rest) s =
      let list = push_front (value ∷ rest) (or_empty (find key s.dynamic_vector)) in
      (
        to_bytes (integer (pos (length list))),
        record s { dynamic_vector = insert key list s.dynamic_vector },
      )
  handle_lpush _ s = (arity_error "lpush", s)

  unfoldable pub handle_llen : List Bytes → Store P → Bytes × Store P
  handle_llen (_ ∷ key ∷ []) s =
      (to_bytes (integer (pos (length (or_empty (find key s.dynamic_vector))))), s)
  handle_llen _ s = (arity_error "llen", s)

  -- LPOP of one element.
  unfoldable pub pop_one : Bytes → List Bytes → Store P → Bytes × Store P
  pop_one key [] s = (to_bytes null_bulk_string, s)
  pop_one key (first ∷ rest) s = (
    to_bytes (bulk_string first),
    record s { dynamic_vector = store_rest key rest s.dynamic_vector },
  )

  -- LPOP of at most `count` elements; zero leaves an empty reply and the list as it is.
  unfoldable pub pop_count : Bytes → ℕ → List Bytes → Store P → Bytes × Store P
  pop_count key count [] s = (to_bytes null_array, s)
  pop_count key zero (first ∷ rest) s = (to_bytes (array []), s)
  pop_count key (suc n) (first ∷ rest) s = (
    to_bytes (array (take (suc n) (first ∷ rest))),
    record s { dynamic_vector = store_rest key (drop (suc n) (first ∷ rest)) s.dynamic_vector },
  )

  unfoldable pub pop_parsed : Bytes → Option ℤ → Store P → Bytes × Store P
  pop_parsed key none s = (not_integer, s)
  pop_parsed key (some (negsuc n)) s =
      (error_reply "ERR value is out of range, must be positive", s)
  pop_parsed key (some (pos n)) s = pop_count key n (or_empty (find key s.dynamic_vector)) s

  unfoldable pub handle_lpop : List Bytes → Store P → Bytes × Store P
  handle_lpop (_ ∷ key ∷ []) s = pop_one key (or_empty (find key s.dynamic_vector)) s
  handle_lpop (_ ∷ key ∷ count ∷ []) s = pop_parsed key (stoll count) s
  handle_lpop _ s = (arity_error "lpop", s)

  -- The first element of the first list that has one, with its key; the pop is queued as an LPOP.
  unfoldable pub try_blpop : List Bytes → Store P → Option (Bytes × Bytes) × Store P
  try_blpop [] s = (none, s)
  try_blpop (key ∷ keys) s =
      let later = try_blpop keys s in
      elim (or_empty (find key s.dynamic_vector)) [
        | [] ↦ later
        | value ∷ rest ↦ (
          some (key, value),
          queue_propagation (codes "LPOP" ∷ key ∷ [])
              (record s { dynamic_vector = store_rest key rest s.dynamic_vector }),
        )
      ]

  -- BLPOP with its timeout read: it pops at once, or registers a block request.
  unfoldable pub blpop_keys : List Bytes → P.Double → Store P → Bytes × Store P
  blpop_keys keys timeout s =
      if any_contains keys s.sorted_sets
      then (wrong_type, s)
      else let (popped, s') = try_blpop keys s in
        elim popped [
          | some (key, value) ↦ (to_bytes (array (key ∷ value ∷ [])), s')
          | none ↦ (
            [],
            record s' {
              pending_block = some (record {
                kind = list_block;
                keys = keys;
                ids = [];
                count = 0;
                timeout = timeout;
              });
            },
          )
        ]

  unfoldable pub blpop_parsed : List Bytes → Option P.Double → Store P → Bytes × Store P
  blpop_parsed keys none s = (error_reply "ERR timeout is not a float or out of range", s)
  blpop_parsed keys (some timeout) s =
      if P.is_nan timeout || P.lt timeout P.zero_double
      then (error_reply "ERR timeout is negative", s)
      else blpop_keys keys timeout s

  unfoldable pub handle_blpop : List Bytes → Store P → Bytes × Store P
  handle_blpop (_ ∷ key ∷ next ∷ rest) s =
      let (keys, last) = split_last key (next ∷ rest) in
      blpop_parsed keys (whole_double P last) (record s { pending_block = none })
  handle_blpop _ s = (arity_error "blpop", record s { pending_block = none })

  unfoldable pub range_parsed : Bytes → Option ℤ → Option ℤ → Store P → Bytes × Store P
  range_parsed key none stop s = (not_integer, s)
  range_parsed key (some start) none s = (not_integer, s)
  range_parsed key (some start) (some stop) s =
      (to_bytes (array (slice (or_empty (find key s.dynamic_vector)) start stop)), s)

  unfoldable pub handle_lrange : List Bytes → Store P → Bytes × Store P
  handle_lrange (_ ∷ key ∷ start ∷ stop ∷ []) s = range_parsed key (stoll start) (stoll stop) s
  handle_lrange _ s = (arity_error "lrange", s)
