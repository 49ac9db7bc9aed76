-- ===== src/Bitmaps.antt =====
-- store/bitmaps.cpp: a string as a row of bits, the highest bit of each byte first.
pub mod Bits
pub mod Byte
pub mod Commands
pub mod Count
pub mod Operations
use Prim.Native.Nat.{bit_and, bit_or, bit_xor}
use true_store.Base.{
  ℕ, zero, suc, ◌+◌, ◌-◌, ◌*◌, ◌/◌, ◌%◌, ◌^◌, ◌≤◌, ◌<◌, String, ◌≡◌, refl, sym, ap, ◌∙◌, ◌≢◌, ◌↔◌,
  ◌⊎◌, inl, inr, Bool, true, false, not, ◌&&◌, ◌||◌, Option, none, some, List, [], ◌∷◌, ◌++◌, map,
  append_assoc, append-nil, arith, ltb, leb, ◌==◌, if◌then◌else◌, ltb→lt, lt→ltb, leb→le, le→leb,
  ltb-false, leb-false, ==_iff, tests, Bool-cases, Option-cases, List-cases, if_both, length,
  get_elem?, take, drop, get_or, set, replicate, All, length-append, drop-append, take-append,
  take-append-drop, length-take, length-drop, length-set, length-replicate, ℤ, pos, negsuc,
  pos_part, neg_part, sub_ℕ, ◌+ℤ◌, ◌-ℤ◌, ◌≤ℤ◌, ltb_ℤ, leb_ℤ, is_negative, of_bits, wrap_i64,
  wrap_i64_fits,
}
use true_store.Text.{
  Bytes, codes, ◌=ᵇ◌, less, toupper, tolower, to_upper, to_lower, to_upper_idem, crlf,
}
use true_store.Text.Decimal.{to_string, to_string_ℤ}
use true_store.Dict.{
  Dict, is_some, find, insert, erase, contains, keys, find-insert, find-erase, find-insert_self,
  find-erase_self, dict_laws,
}
use true_store.Resp.{
  RespType, simple_string, bulk_string, simple_error, null_bulk_string, integer, array,
  nested_array, null_array, RespTypes, nested, bulk_bytes, bulks_bytes, to_bytes, all_bytes,
  command_bytes,
}
use true_store.Platform.{Platform, Doubles, Rax, Now, StreamEntryData}
use true_store.Text.Parse.{
  is_space, negate, stoll, stoi, stoull, from_chars_u64, from_chars_i64, stoull-to_string,
  from_chars_u64-to_string, stoll-to_string, stoi-to_string, from_chars_i64-to_string,
}
use true_store.Store.Types.{
  StreamId, Stream, SortedSet, BlockKind, list_block, stream_block, wait_block, BlockRequest, Store,
  KeyType, type_none, type_string, type_list, type_stream, type_zset, type_name, error_reply,
  arity_error, wrong_type, not_integer, syntax_error,
}
use true_store.Strings.{wrong_string_type, size_of}

-- `parse_offset`: the canonical text of a number below 2^32.
unfoldable pub parse_offset : Bytes → Option ℕ
parse_offset text = elim (from_chars_u64 text) [
  | none ↦ none
  | some offset ↦ if (text =ᵇ to_string offset) && ltb offset (2 ^ 32) then some offset else none
]

unfoldable pub parse_index : Bytes → Option ℤ
parse_index text = elim (from_chars_i64 text) [
  | none ↦ none
  | some index ↦ if text =ᵇ to_string_ℤ index then some index else none
]

unfoldable pub offset_error : Bytes
unfolding error_reply
offset_error = error_reply "ERR bit offset is not an integer or out of range"

-- `0x80 >> (offset % 8)`.
unfoldable pub mask_of : ℕ → ℕ
mask_of offset = 128 / 2 ^ (offset % 8)

-- The string, made long enough to have a byte at the index.
unfoldable pub grown : ℕ → Bytes → Bytes
grown index value =
    if leb (length value) index then value ++ replicate (index + 1 - length value) 0 else value

-- The bit that was there, and the string with the new one.
unfoldable pub set_bit : ℕ → Bool → Bytes → Bool × Bytes
unfolding mask_of
set_bit offset on value =
    let index = offset / 8 in
    let long = grown index value in
    let byte = get_or long index 0 in
    let mask = mask_of offset in
    (
      not (bit_and byte mask == 0),
      set long index (if on then bit_or byte mask else bit_and byte (255 - mask)),
    )

abbrev pub bit_number : Bool → ℕ
bit_number false = 0
bit_number true = 1

-- `(byte >> (7 - offset % 8)) & 1` of the byte at the offset, 0 behind the end.
unfoldable pub get_bit : ℕ → Bytes → ℕ
get_bit offset value =
    let index = offset / 8 in
    if leb (length value) index then 0 else bit_and (get_or value index 0 / 2 ^ (7 - offset % 8)) 1

-- `std::popcount` of a 32-bit number.
unfoldable pub ones : ℕ → ℕ → ℕ
ones zero b = 0
ones (suc n) b = b % 2 + ones n (b / 2)

-- The byte at the index `i` without what stands in front of the first bit and behind the last.
unfoldable pub masked : ℕ → ℕ → ℕ → ℕ → ℕ
masked first last i byte =
    let front = (if i == first / 8 then bit_and byte (255 / 2 ^ (first % 8)) else byte) in
    if i == last / 8 then bit_and front (255 * 2 ^ (7 - last % 8)) else front

-- The loop of BITCOUNT from the byte `i` on, for `rounds` bytes.
unfoldable pub count_bytes : Bytes → ℕ → ℕ → ℕ → ℕ → ℕ
count_bytes value first last zero i = 0
count_bytes value first last (suc rounds) i =
    ones 32 (masked first last i (get_or value i 0)) + count_bytes value first last rounds (i + 1)

unfoldable pub count_between : Bytes → ℕ → ℕ → ℕ
count_between value first last = count_bytes value first last (last / 8 + 1 - first / 8) (first / 8)

-- The bits from the index `from` to the index `to`, cut off at `length`; `none` is an empty range.
unfoldable pub cut_range : ℕ → ℕ → ℕ → Bool → Option (ℕ × ℕ)
cut_range length from to bit_range =
    let to' : ℤ = (if ltb_ℤ (pos to) (pos length -ℤ pos 1) then pos to else pos length -ℤ pos 1) in
    if ltb_ℤ to' (pos from)
    then none
    else if bit_range
    then some (from, pos_part to')
    else some (from * 8, pos_part to' * 8 + 7)

-- The first and the last bit of a range in a string of `size` bytes.
unfoldable pub bit_bounds : ℕ → ℤ → ℤ → Bool → Option (ℕ × ℕ)
bit_bounds size start end bit_range =
    if is_negative start && (is_negative end && ltb_ℤ end start)
    then none
    else let length = (if bit_range then size * 8 else size) in
      cut_range length (pos_part (if is_negative start then start +ℤ pos length else start))
        (pos_part (if is_negative end then end +ℤ pos length else end)) bit_range

unfoldable pub count_in : Option Bytes → ℤ → ℤ → Bool → ℕ
count_in none start end bit_range = 0
count_in (some value) start end bit_range = elim (bit_bounds (length value) start end bit_range) [
  | none ↦ 0
  | some (first, last) ↦ count_between value first last
]

-- The operations of BITOP.
pub data BitOperation : Type 0 where
  and_bits or_bits xor_bits not_bits : BitOperation

unfoldable pub bit_operation : Bytes → Option BitOperation
bit_operation name =
    if name =ᵇ codes "AND"
    then some and_bits
    else if name =ᵇ codes "OR"
    then some or_bits
    else if name =ᵇ codes "XOR"
    then some xor_bits
    else if name =ᵇ codes "NOT"
    then some not_bits
    else none

abbrev pub is_not : BitOperation → Bool
is_not not_bits = true
is_not _ = false

-- One source in the inner loop of BITOP.
unfoldable pub combine : BitOperation → ℕ → ℕ → ℕ
combine and_bits byte input = bit_and byte input
combine or_bits byte input = bit_or byte input
combine xor_bits byte input = bit_xor byte input
combine not_bits byte input = bit_xor input 255

unfoldable pub combine_all : BitOperation → List Bytes → ℕ → ℕ → ℕ
combine_all op [] i byte = byte
combine_all op (source ∷ sources) i byte =
    combine_all op sources i (combine op byte (get_or source i 0))

unfoldable pub first_byte : BitOperation → ℕ
first_byte and_bits = 255
first_byte _ = 0

-- The outer loop, from the byte `i` on, for `rounds` bytes.
unfoldable pub combined : BitOperation → List Bytes → ℕ → ℕ → Bytes
combined op sources zero i = []
combined op sources (suc rounds) i =
    combine_all op sources i (first_byte op) ∷ combined op sources rounds (i + 1)

unfoldable pub longest : List Bytes → ℕ
longest [] = 0
longest (source ∷ sources) =
    let rest = longest sources in if ltb rest (length source) then length source else rest

abbrev pub or_empty_string : Option Bytes → Bytes
or_empty_string none = []
or_empty_string (some value) = value

unfoldable pub single_source : Bytes
unfolding error_reply
single_source = error_reply "ERR BITOP NOT must be called with a single source key."

module _ {P : Platform} (now : Now) where
  -- SETBIT with its offset and bit read.
  unfoldable pub setbit_parsed : Bytes → Option ℕ → Bytes → Store P → Bytes × Store P
  setbit_parsed key none bit s = (offset_error, s)
  setbit_parsed key (some offset) bit s =
      let (wrong, s') = wrong_string_type now key s in
      let (previous, value) =
        set_bit offset (bit =ᵇ codes "1") (or_empty_string (find key s'.storage)) in
      if not (bit =ᵇ codes "0") && not (bit =ᵇ codes "1")
      then (error_reply "ERR bit is not an integer or out of range", s)
      else if wrong
      then (wrong_type, s')
      else (
        to_bytes (integer (pos (bit_number previous))),
        record s' { storage = insert key value s'.storage },
      )

  unfoldable pub handle_setbit : List Bytes → Store P → Bytes × Store P
  handle_setbit (_ ∷ key ∷ offset ∷ bit ∷ []) s = setbit_parsed key (parse_offset offset) bit s
  handle_setbit _ s = (arity_error "setbit", s)

  unfoldable pub getbit_parsed : Bytes → Option ℕ → Store P → Bytes × Store P
  getbit_parsed key none s = (offset_error, s)
  getbit_parsed key (some offset) s =
      let (wrong, s') = wrong_string_type now key s in
      if wrong
      then (wrong_type, s')
      else (to_bytes (integer (pos (get_bit offset (or_empty_string (find key s'.storage))))), s')

  unfoldable pub handle_getbit : List Bytes → Store P → Bytes × Store P
  handle_getbit (_ ∷ key ∷ offset ∷ []) s = getbit_parsed key (parse_offset offset) s
  handle_getbit _ s = (arity_error "getbit", s)

  unfoldable pub count_reply : Bytes → ℤ → ℤ → Bool → Store P → Bytes × Store P
  count_reply key start end bit_range s =
      let (wrong, s') = wrong_string_type now key s in
      if wrong
      then (wrong_type, s')
      else (to_bytes (integer (pos (count_in (find key s'.storage) start end bit_range))), s')

  -- BITCOUNT with its indexes read; `unit` is `some true` for BIT and `none` for an unknown word.
  unfoldable pub bitcount_parsed :
      Bytes → Option ℤ → Option ℤ → Option Bool → Store P → Bytes × Store P
  bitcount_parsed key (some start) (some end) (some bit_range) s =
      count_reply key start end bit_range s
  bitcount_parsed key (some start) (some end) none s = (syntax_error, s)
  bitcount_parsed key (some start) none unit s = (not_integer, s)
  bitcount_parsed key none end unit s = (not_integer, s)

  unfoldable pub handle_bitcount : List Bytes → Store P → Bytes × Store P
  handle_bitcount (_ ∷ key ∷ []) s = count_reply key (pos 0) (pos (2 ^ 63 - 1)) false s
  handle_bitcount (_ ∷ key ∷ start ∷ end ∷ []) s =
      bitcount_parsed key (parse_index start) (parse_index end) (some false) s
  handle_bitcount (_ ∷ key ∷ start ∷ end ∷ unit ∷ []) s =
      let name = to_upper unit in
      bitcount_parsed key (parse_index start) (parse_index end)
        (if name =ᵇ codes "BYTE"
          then some false
          else if name =ᵇ codes "BIT"
          then some true
          else none)
        s
  handle_bitcount _ s = (arity_error "bitcount", s)

  -- The sources of BITOP, up to the first key of another type (`none`).
  unfoldable pub read_sources : List Bytes → Store P → Option (List Bytes) × Store P
  read_sources [] s = (some [], s)
  read_sources (key ∷ rest) s =
      let (wrong, s') = wrong_string_type now key s in
      let (others, s'') = read_sources rest s' in
      if wrong then (none, s') else (elim others [
        | none ↦ (none, s'')
        | some values ↦ (some (or_empty_string (find key s'.storage) ∷ values), s'')
      ])

  -- The result under the destination, which loses all else that it held.
  unfoldable pub store_result : Bytes → Bytes → Store P → Store P
  store_result key value s = record s {
    storage = elim value [
      | [] ↦ erase key s.storage
      | first ∷ rest ↦ insert key (first ∷ rest) s.storage
    ];
    expirations = erase key s.expirations;
    dynamic_vector = erase key s.dynamic_vector;
    streams = erase key s.streams;
    sorted_sets = erase key s.sorted_sets;
  }

  unfoldable pub bitop_sources :
      BitOperation → Bytes → Option (List Bytes) × Store P → Bytes × Store P
  bitop_sources op key (none, s) = (wrong_type, s)
  bitop_sources op key (some sources, s) = (
    to_bytes (integer (pos (longest sources))),
    store_result key (combined op sources (longest sources) 0) s,
  )

  unfoldable pub handle_bitop : List Bytes → Store P → Bytes × Store P
  handle_bitop (_ ∷ name ∷ key ∷ source ∷ rest) s = elim (bit_operation (to_upper name)) [
    | none ↦ (syntax_error, s)
    | some op ↦
        if is_not op && not (length rest == 0)
        then (single_source, s)
        else bitop_sources op key (read_sources (source ∷ rest) s)
  ]
  handle_bitop _ s = (arity_error "bitop", s)
