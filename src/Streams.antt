-- ===== src/Streams.antt =====
-- stream/stream.cpp: stream IDs, their texts and keys, and streams over the radix tree. The
-- commands of store/streams.cpp and the laws are in the modules below.
pub mod Keys
pub mod Ids
pub mod Insert
pub mod Range
pub mod Commands
pub mod Read
use true_store.Base.{
  ℕ, zero, suc, ◌+◌, ◌-◌, ◌*◌, ◌/◌, ◌%◌, ◌^◌, ◌≤◌, ◌<◌, String, ◌≡◌, refl, sym, ap, ◌∙◌, ◌≢◌, ◌↔◌,
  ◌⊎◌, inl, inr, Bool, true, false, not, ◌&&◌, ◌||◌, Option, none, some, List, [], ◌∷◌, ◌++◌, map,
  append_assoc, append-nil, arith, ltb, leb, ◌==◌, if◌then◌else◌, ltb→lt, lt→ltb, leb→le, le→leb,
  ltb-false, leb-false, ==_iff, tests, Bool-cases, Option-cases, List-cases, if_both, length,
  get_elem?, take, drop, get_or, set, replicate, All, length-append, drop-append, take-append,
  take-append-drop, length-take, length-drop, length-set, length-replicate, ℤ, pos, negsuc,
  pos_part, neg_part, sub_ℕ, ◌+ℤ◌, ◌-ℤ◌, ◌≤ℤ◌, ltb_ℤ, leb_ℤ, is_negative, of_bits, wrap_i64,
  wrap_i64_fits,
}
use true_store.Text.{
  Bytes, codes, ◌=ᵇ◌, less, toupper, tolower, to_upper, to_lower, to_upper_idem, crlf,
}
use true_store.Platform.{Platform, Doubles, Rax, Now, StreamEntryData}
use true_store.Text.Decimal.{to_string}
use true_store.Text.Parse.{from_chars_u64}
use true_store.Store.Types.{StreamId, Stream}

abbrev pub max_u64 : ℕ
max_u64 = 2 ^ 64 - 1

-- The text in front of the first dash and the text behind it.
unfoldable pub split_dash : Bytes → Option (Bytes × Bytes)
split_dash [] = none
split_dash (c ∷ s) =
    if c == b'-'
    then some ([], s)
    else elim (split_dash s) [ none ↦ none | some (before, after) ↦ some (c ∷ before, after) ]

abbrev pub both {ℓ} : {A : Type ℓ} → Option ℕ → Option ℕ → (ℕ → ℕ → A) → Option A
both (some m) (some n) f = some (f m n)
both (some m) none f = none
both none n f = none

-- `StreamID::parse`. A second dash, like an empty number, is no text of digits.
unfoldable pub parse_id : Bytes → Option StreamId
parse_id text = elim (split_dash text) [
  | none ↦ none
  | some (before, after) ↦
      both (from_chars_u64 before) (from_chars_u64 after)
        (λ ms seq. record { milliseconds = ms; sequence = seq })
]

unfoldable pub id_to_string : StreamId → Bytes
id_to_string id = to_string id.milliseconds ++ (b'-' ∷ to_string id.sequence)

-- `operator<`.
unfoldable pub id_less : StreamId → StreamId → Bool
id_less a b =
    if a.milliseconds == b.milliseconds
    then ltb a.sequence b.sequence
    else ltb a.milliseconds b.milliseconds

-- `parse_range_bound`: with no dash, the whole text is the milliseconds.
unfoldable pub parse_range_bound : Bytes → ℕ → Option StreamId
parse_range_bound text default_sequence = elim (split_dash text) [
  | some parts ↦ parse_id text
  | none ↦ elim (from_chars_u64 text) [
    | none ↦ none
    | some ms ↦ some (record { milliseconds = ms; sequence = default_sequence })
  ]
]

unfoldable pub parse_range_start : Bytes → Option StreamId
parse_range_start text =
    if text =ᵇ codes "-"
    then some (record { milliseconds = 0; sequence = 0 })
    else parse_range_bound text 0

unfoldable pub parse_read_id : Bytes → Option StreamId
parse_read_id text = parse_range_bound text 0

unfoldable pub parse_range_end : Bytes → Option StreamId
parse_range_end text =
    if text =ᵇ codes "+"
    then some (record { milliseconds = max_u64; sequence = max_u64 })
    else parse_range_bound text max_u64

-- The ID behind `id`; `none` if `id` is the greatest.
unfoldable pub advance_id : StreamId → Option StreamId
advance_id id =
    if not (id.sequence == max_u64)
    then some (record id { sequence = id.sequence + 1 })
    else if id.milliseconds == max_u64
    then none
    else some (record { milliseconds = id.milliseconds + 1; sequence = 0 })

-- `write_u64_be`: `i` bytes, the most significant first, in front of `out`.
unfoldable pub write_be : ℕ → ℕ → Bytes → Bytes
write_be zero value out = out
write_be (suc i) value out = write_be i (value / 256) ((value % 256) ∷ out)

-- `read_u64_be`: each byte is shifted in.
unfoldable pub read_be : ℕ → Bytes → ℕ
read_be value [] = value
read_be value (c ∷ s) = read_be (value * 256 + c) s

unfoldable pub encode_id : StreamId → Bytes
encode_id id = write_be 8 id.milliseconds [] ++ write_be 8 id.sequence []

-- `decode_id` of a 16-byte key; keys of other lengths are never stored.
unfoldable pub decode_id : Bytes → StreamId
decode_id key = record { milliseconds = read_be 0 (take 8 key); sequence = read_be 0 (drop 8 key) }

pub data AddResult : Type 0 where
  added : StreamId → AddResult
  invalid_id zero_id not_greater : AddResult

module _ {Tree : Type 0} where
  -- `Stream::next_sequence`.
  unfoldable pub next_sequence : ℕ → Stream Tree → AddResult
  next_sequence ms s =
      if not s.has_max_id
      then added (record { milliseconds = ms; sequence = if ms == 0 then 1 else 0 })
      else if ltb s.max_id.milliseconds ms
      then added (record { milliseconds = ms; sequence = 0 })
      else if s.max_id.sequence == max_u64
      then not_greater
      else added (record { milliseconds = s.max_id.milliseconds; sequence = s.max_id.sequence + 1 })

  -- `<ms>-*`.
  unfoldable pub resolve_partial : Bytes → Stream Tree → AddResult
  resolve_partial before s = elim (from_chars_u64 before) [
    | none ↦ invalid_id
    | some ms ↦
        if s.has_max_id && ltb ms s.max_id.milliseconds then not_greater else next_sequence ms s
  ]

  -- An explicit ID.
  unfoldable pub resolve_explicit : Option StreamId → Stream Tree → AddResult
  resolve_explicit none s = invalid_id
  resolve_explicit (some id) s =
      if id.milliseconds == 0 && id.sequence == 0
      then zero_id
      else if s.has_max_id && not (id_less s.max_id id)
      then not_greater
      else added id

  -- `Stream::resolve_id` with the clock's milliseconds.
  unfoldable pub resolve_id : ℕ → Bytes → Stream Tree → AddResult
  resolve_id now text s =
      if text =ᵇ codes "*" then next_sequence now s else elim (split_dash text) [
        | none ↦ resolve_explicit (parse_id text) s
        | some (before, after) ↦
            if after =ᵇ codes "*"
            then resolve_partial before s
            else resolve_explicit (parse_id text) s
      ]

-- The loop of `Stream::get_range`: it ends at the first ID behind `end`, and once as many results
-- as `count` are there, unless `count` is 0.
unfoldable pub collect :
    StreamId → ℕ → List (Bytes × StreamEntryData) → List (Bytes × StreamEntryData)
collect end count [] = []
collect end count ((key, entry) ∷ rest) =
    let id = decode_id key in
    let others = collect end (count - 1) rest in
    if id_less end id then [] else (id_to_string id, entry) ∷ (if count == 1 then [] else others)

module _ (R : Rax) where
  unfoldable pub empty_stream : Stream R.Tree
  empty_stream = record {
    tree = R.rax_new;
    has_max_id = false;
    max_id = record { milliseconds = 0; sequence = 0 };
  }

  -- What `Stream::insert` does with a resolved ID.
  unfoldable pub insert_resolved :
      AddResult → StreamEntryData → Stream R.Tree → AddResult × Stream R.Tree
  insert_resolved (added id) entry s = elim (R.rax_try_insert (encode_id id) entry s.tree) [
    | none ↦ (not_greater, s)
    | some tree ↦ (added id, record { tree = tree; has_max_id = true; max_id = id })
  ]
  insert_resolved refused entry s = (refused, s)

  unfoldable pub insert_entry :
      ℕ → Bytes → StreamEntryData → Stream R.Tree → AddResult × Stream R.Tree
  insert_entry now text entry s = insert_resolved (resolve_id now text s) entry s

  -- `Stream::get_range`; a count of 0 is no limit.
  unfoldable pub get_range :
      StreamId → StreamId → ℕ → Stream R.Tree → List (Bytes × StreamEntryData)
  get_range start end count s =
      if id_less end start then [] else collect end count (R.rax_from (encode_id start) s.tree)
