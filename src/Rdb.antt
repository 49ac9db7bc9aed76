-- ===== src/Rdb.antt =====
-- rdb/rdb.cpp: reading a snapshot. The reader is the bytes that it has not read.
pub mod Consumed
pub mod Encoding
pub mod Rounds
pub mod Snapshot
use true_store.Base.{
  ℕ, zero, suc, ◌+◌, ◌-◌, ◌*◌, ◌/◌, ◌%◌, ◌^◌, ◌≤◌, ◌<◌, String, ◌≡◌, refl, sym, ap, ◌∙◌, ◌≢◌, ◌↔◌,
  ◌⊎◌, inl, inr, Bool, true, false, not, ◌&&◌, ◌||◌, Option, none, some, List, [], ◌∷◌, ◌++◌, map,
  append_assoc, append-nil, arith, ltb, leb, ◌==◌, if◌then◌else◌, ltb→lt, lt→ltb, leb→le, le→leb,
  ltb-false, leb-false, ==_iff, tests, Bool-cases, Option-cases, List-cases, if_both, length,
  get_elem?, take, drop, get_or, set, replicate, All, length-append, drop-append, take-append,
  take-append-drop, length-take, length-drop, length-set, length-replicate, ℤ, pos, negsuc,
  pos_part, neg_part, sub_ℕ, ◌+ℤ◌, ◌-ℤ◌, ◌≤ℤ◌, ltb_ℤ, leb_ℤ, is_negative, of_bits, wrap_i64,
  wrap_i64_fits,
}
use true_store.Text.{
  Bytes, codes, ◌=ᵇ◌, less, toupper, tolower, to_upper, to_lower, to_upper_idem, crlf,
}
use true_store.Text.Decimal.{
  is_digit, to_string, to_string_ℤ, read_digits, Stops, read-to_string, to_string-All,
  to_string-ne-nil,
}

-- The messages of the exceptions.
pub data RdbError : Type 0 where
  unexpected_end invalid_length unsupported_string missing_header unsupported_opcode : RdbError

pub data RdbResult {ℓ} (A : Type ℓ) : Type ℓ where
  ok : A → RdbResult A
  thrown : RdbError → RdbResult A

infixl 5 ◌>>=◌
abbrev pub ◌>>=◌ {ℓ κ} : {A : Type ℓ} {B : Type κ} → RdbResult A → (A → RdbResult B) → RdbResult B
ok a >>= f = f a
thrown e >>= f = thrown e

pub record RdbEntry : Type 0 where
  pub key : Bytes
  pub value : Bytes
  pub expire_at_ms : Option ℕ

unfoldable pub read_byte : Bytes → RdbResult (ℕ × Bytes)
read_byte [] = thrown unexpected_end
read_byte (c ∷ s) = ok (c, s)

-- The loop of `little_endian` from the byte `i` on, for `rounds` bytes; the bits that it sets in
-- `value` are clear before, and a shift by `8 * i` is a product with `256 ^ i`.
unfoldable pub little_endian : ℕ → ℕ → ℕ → Bytes → RdbResult (ℕ × Bytes)
little_endian zero i value s = ok (value, s)
little_endian (suc rounds) i value s = do
  (byte, rest) ← read_byte s
  little_endian rounds (suc i) (value + byte * 256 ^ i) rest

unfoldable pub big_endian : ℕ → ℕ → Bytes → RdbResult (ℕ × Bytes)
big_endian zero value s = ok (value, s)
big_endian (suc rounds) value s = do
  (byte, rest) ← read_byte s
  big_endian rounds (value * 256 + byte) rest

unfoldable pub read_bytes : ℕ → Bytes → RdbResult (Bytes × Bytes)
read_bytes count s =
    if ltb (length s) count then thrown unexpected_end else ok (take count s, drop count s)

-- `Reader::length` behind its first byte.
unfoldable pub length_from : ℕ → Bytes → RdbResult (ℕ × Bytes)
length_from first s =
    if first / 64 == 0
    then ok (first % 64, s)
    else if first / 64 == 1
    then (do (byte, rest) ← read_byte s; ok (first % 64 * 256 + byte, rest))
    else if first == 128
    then big_endian 4 0 s
    else if first == 129
    then big_endian 8 0 s
    else thrown invalid_length

unfoldable pub read_length : Bytes → RdbResult (ℕ × Bytes)
read_length s = do (first, rest) ← read_byte s; length_from first rest

-- The integer of `width` bytes as text, with the sign of its highest bit.
unfoldable pub read_integer : ℕ → Bytes → RdbResult (Bytes × Bytes)
read_integer width s = do
  (bits, rest) ← little_endian width 0 0 s
  ok (to_string_ℤ (of_bits (2 ^ (8 * width - 1)) bits), rest)

unfoldable pub read_string : Bytes → RdbResult (Bytes × Bytes)
read_string [] = thrown unexpected_end
read_string (first ∷ s) =
    if not (first / 64 == 3)
    then (do (count, rest) ← read_length (first ∷ s); read_bytes count rest)
    else if first == 192
    then read_integer 1 s
    else if first == 193
    then read_integer 2 s
    else if first == 194
    then read_integer 4 s
    else thrown unsupported_string

-- The end of one round of the loop of `load_rdb`.
pub data Round : Type 0 where
  returned : List RdbEntry → Round
  continued : List RdbEntry → Option ℕ → Bytes → Round

-- One round behind its opcode.
unfoldable pub load_round : List RdbEntry → Option ℕ → ℕ → Bytes → RdbResult Round
load_round entries expire_at_ms opcode s =
    if opcode == 250
    then (do
      (_, s1) ← read_string s
      (_, s2) ← read_string s1
      ok (continued entries expire_at_ms s2))
    else if opcode == 254
    then (do (_, s1) ← read_length s; ok (continued entries expire_at_ms s1))
    else if opcode == 251
    then (do
      (_, s1) ← read_length s
      (_, s2) ← read_length s1
      ok (continued entries expire_at_ms s2))
    else if opcode == 252
    then (do (ms, s1) ← little_endian 8 0 0 s; ok (continued entries (some ms) s1))
    else if opcode == 253
    then (do
      (seconds, s1) ← little_endian 4 0 0 s
      ok (continued entries (some (seconds * 1000)) s1))
    else if opcode == 0
    then (do
      (key, s1) ← read_string s
      (value, s2) ← read_string s1
      let entry : RdbEntry = record { key = key; value = value; expire_at_ms = expire_at_ms }
      ok (continued (entries ++ entry ∷ []) none s2))
    else if opcode == 255
    then ok (returned entries)
    else thrown unsupported_opcode

-- What follows a round; `next` is the rest of the loop.
abbrev pub after_round :
    (List RdbEntry → Option ℕ → Bytes → Option (RdbResult (List RdbEntry)))
    → RdbResult Round
    → Option (RdbResult (List RdbEntry))
after_round next (thrown e) = some (thrown e)
after_round next (ok (returned entries)) = some (ok entries)
after_round next (ok (continued entries expire rest)) = next entries expire rest

-- The loop, for at most `fuel` rounds; `none` says that they did not suffice.
unfoldable pub load_loop : ℕ → List RdbEntry → Option ℕ → Bytes → Option (RdbResult (List RdbEntry))
load_loop fuel entries expire_at_ms [] = some (ok entries)
load_loop zero entries expire_at_ms (opcode ∷ s) = none
load_loop (suc fuel) entries expire_at_ms (opcode ∷ s) =
    after_round (load_loop fuel) (load_round entries expire_at_ms opcode s)

-- A file that cannot be opened is `none`.
unfoldable pub load_rdb : Option Bytes → Option (RdbResult (List RdbEntry))
load_rdb none = some (ok [])
load_rdb (some file) = elim (read_bytes 9 file) [
  | thrown e ↦ some (thrown e)
  | ok (header, s) ↦
      if take 5 header =ᵇ codes "REDIS"
      then load_loop (length s) [] none s
      else some (thrown missing_header)
]
