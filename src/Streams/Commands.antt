-- ===== src/Streams/Commands.antt =====
-- The handlers of store/streams.cpp.
use true_store.Base.{
  ℕ, zero, suc, ◌%◌, Bool, true, false, Option, none, some, List, [], ◌∷◌, ◌==◌, if◌then◌else◌,
  length, ℤ, pos, negsuc,
}
use true_store.Text.{Bytes, codes, ◌=ᵇ◌, to_upper}
use true_store.Dict.{find, insert}
use true_store.Resp.{RespType, bulk_string, array, nested_array, RespTypes, nested, to_bytes}
use true_store.Platform.{Platform, Now, StreamEntryData}
use true_store.Store.Types.{StreamId, Store, error_reply, arity_error, not_integer, syntax_error}
use true_store.Text.Parse.{stoll}
use true_store.Streams.{
  max_u64, id_to_string, parse_range_start, parse_range_end, advance_id, AddResult, added,
  invalid_id, zero_id, not_greater, empty_stream, insert_entry, get_range,
}

-- `data.emplace_back(args[i], args[i + 1])`; a last field with no value is refused before.
unfoldable pub field_pairs : List Bytes → StreamEntryData
field_pairs [] = []
field_pairs (field ∷ []) = []
field_pairs (field ∷ value ∷ rest) = (field, value) ∷ field_pairs rest

unfoldable pub flat_fields : StreamEntryData → List Bytes
flat_fields [] = []
flat_fields ((field, value) ∷ rest) = field ∷ value ∷ flat_fields rest

unfoldable pub entry_resp : List (Bytes × StreamEntryData) → RespTypes
entry_resp [] = nested []
entry_resp ((id, entry) ∷ rest) =
    RespTypes.cons (nested_array (nested (bulk_string id ∷ array (flat_fields entry) ∷ [])))
      (entry_resp rest)

unfoldable pub entries_to_resp : List (Bytes × StreamEntryData) → RespType
entries_to_resp entries = nested_array (entry_resp entries)

unfoldable pub invalid_stream_id : Bytes
unfolding error_reply
invalid_stream_id = error_reply "ERR Invalid stream ID specified as stream command argument"

unfoldable pub xadd_reply : AddResult → Bytes
xadd_reply (added id) = to_bytes (bulk_string (id_to_string id))
xadd_reply zero_id = error_reply "ERR The ID specified in XADD must be greater than 0-0"
xadd_reply not_greater =
    error_reply "ERR The ID specified in XADD is equal or smaller than the target stream top item"
xadd_reply invalid_id = invalid_stream_id

abbrev pub is_added : AddResult → Bool
is_added (added id) = true
is_added _ = false

abbrev pub greatest : StreamId
greatest = record { milliseconds = max_u64; sequence = max_u64 }

module _ {P : Platform} (now : Now) where
  -- XADD of checked arguments: a stream that was made for it stays only if the entry was added.
  unfoldable pub xadd_entry : Bytes → Bytes → StreamEntryData → Store P → Bytes × Store P
  xadd_entry key id entry s = elim (find key s.streams) [
    | some stream ↦
        let (result, stream') = insert_entry P.rax now.system_ms id entry stream in
        (xadd_reply result, record s { streams = insert key stream' s.streams })
    | none ↦
        let (result, stream') = insert_entry P.rax now.system_ms id entry (empty_stream P.rax) in
        (
          xadd_reply result,
          if is_added result then record s { streams = insert key stream' s.streams } else s,
        )
  ]

  unfoldable pub handle_xadd : List Bytes → Store P → Bytes × Store P
  handle_xadd (_ ∷ key ∷ id ∷ field ∷ value ∷ rest) s =
      if length rest % 2 == 0
      then xadd_entry key id (field_pairs (field ∷ value ∷ rest)) s
      else (arity_error "xadd", s)
  handle_xadd _ s = (arity_error "xadd", s)

module _ {P : Platform} where
  -- XRANGE with its bounds and its count read; `none` stands for a count that is not positive.
  unfoldable pub xrange_reply : Bytes → StreamId → StreamId → Option ℕ → Store P → Bytes
  xrange_reply key start end none s = to_bytes (array [])
  xrange_reply key start end (some count) s = elim (find key s.streams) [
    | none ↦ to_bytes (array [])
    | some stream ↦ to_bytes (entries_to_resp (get_range P.rax start end count stream))
  ]

  unfoldable pub xrange_counted : Bytes → StreamId → StreamId → Option ℤ → Store P → Bytes × Store P
  xrange_counted key start end none s = (not_integer, s)
  xrange_counted key start end (some (negsuc n)) s = (xrange_reply key start end none s, s)
  xrange_counted key start end (some (pos zero)) s = (xrange_reply key start end none s, s)
  xrange_counted key start end (some (pos (suc n))) s =
      (xrange_reply key start end (some (suc n)) s, s)

  abbrev pub with_bounds :
      Option StreamId
      → Option StreamId
      → (StreamId → StreamId → Bytes × Store P)
      → Store P
      → Bytes × Store P
  with_bounds (some start) (some end) k s = k start end
  with_bounds (some start) none k s = (invalid_stream_id, s)
  with_bounds none end k s = (invalid_stream_id, s)

  unfoldable pub handle_xrange : List Bytes → Store P → Bytes × Store P
  handle_xrange (_ ∷ key ∷ start ∷ end ∷ []) s =
      with_bounds (parse_range_start start) (parse_range_end end)
        (λ a b. (xrange_reply key a b (some 0) s, s)) s
  handle_xrange (_ ∷ key ∷ start ∷ end ∷ option ∷ count ∷ []) s =
      with_bounds (parse_range_start start) (parse_range_end end)
        (λ a b.
          if to_upper option =ᵇ codes "COUNT"
          then xrange_counted key a b (stoll count) s
          else (syntax_error, s))
        s
  handle_xrange _ s = (arity_error "xrange", s)

  -- The entries of one stream behind an ID.
  unfoldable pub read_behind : Bytes → StreamId → ℕ → Store P → List (Bytes × StreamEntryData)
  read_behind key id count s = elim (find key s.streams) [
    | none ↦ []
    | some stream ↦ elim (advance_id id) [
      | none ↦ []
      | some start ↦ get_range P.rax start greatest count stream
    ]
  ]

  -- The loop of `try_xread`: a reply for each stream that has entries.
  unfoldable pub xread_replies : List Bytes → List StreamId → ℕ → Store P → List RespType
  xread_replies (key ∷ ks) (id ∷ ids) count s =
      let others = xread_replies ks ids count s in
      elim (read_behind key id count s) [
        | [] ↦ others
        | e ∷ es ↦ nested_array (nested (bulk_string key ∷ entries_to_resp (e ∷ es) ∷ [])) ∷ others
      ]
  xread_replies _ _ count s = []

  unfoldable pub try_xread : List Bytes → List StreamId → ℕ → Store P → Option Bytes
  try_xread ks ids count s = elim (xread_replies ks ids count s) [
    | [] ↦ none
    | r ∷ rs ↦ some (to_bytes (nested_array (nested (r ∷ rs))))
  ]
