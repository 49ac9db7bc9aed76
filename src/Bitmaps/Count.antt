-- ===== src/Bitmaps/Count.antt =====
-- BITCOUNT: the loop over the bytes counts the bits of the range that are ones.
use true_store.Base.{
  ℕ, zero, suc, ◌+◌, ◌-◌, ◌*◌, ◌/◌, ◌%◌, ◌^◌, ◌≤◌, ◌<◌, ◌≡◌, refl, sym, ap, ◌∙◌, inl, inr, Bool,
  true, false, ◌&&◌, Option, none, some, arith, ◌==◌, if◌then◌else◌, Bool-cases, length, get_or, ℤ,
  ltb_ℤ, is_negative,
}
use true_store.Text.{Bytes}
use Prim.Native.Nat.{bit_and}
use true_store.Bitmaps.{ones, masked, count_bytes, count_between, bit_bounds, cut_range, count_in}
use true_store.Bitmaps.Byte.{ones_before, whole, counted_lem}
use true_store.Bitmaps.Bits.{AreBytes, bit_at, bit_at-place, byte_at}

-- The number of ones in front of an offset.
unfoldable pub ones_to : Bytes → ℕ → ℕ
ones_to value zero = 0
ones_to value (suc j) = ones_to value j + bit_at value j

ones_to-byte :
    (value : Bytes) (i k : ℕ)
    → k ≤ 8
    → ones_to value (8 * i + k) ≡ ones_to value (8 * i) + ones_before (get_or value i 0) k
unfolding ones_to ones_before
ones_to-byte value i zero h = omega (arith, ap (ones_to value) start)
  where
    start : 8 * i + 0 ≡ 8 * i
    start = omega arith
ones_to-byte value i (suc k) h =
    omega (arith, ones_to-byte value i k (omega arith), bit_at-place value i k (omega arith), next)
  where
    same : 8 * i + suc k ≡ suc (8 * i + k)
    same = omega arith

    next : ones_to value (8 * i + suc k) ≡ ones_to value (8 * i + k) + bit_at value (8 * i + k)
    next = ap (ones_to value) same

-- The places at which the range begins and ends in the byte `i`.
abbrev begins : ℕ → ℕ → ℕ
begins first i = if i == first / 8 then first % 8 else 0

abbrev ends : ℕ → ℕ → ℕ
ends last i = if i == last / 8 then last % 8 else 7

masked_lem :
    (first last i b : ℕ)
    → b < 256
    → masked first last i b
      ≡ bit_and (bit_and b (255 / 2 ^ begins first i)) (255 * 2 ^ (7 - ends last i))
unfolding masked
masked_lem first last i b hb =
    let (front, all) = whole (first % 8) b (omega arith) hb in
    elim (Bool-cases (i == first / 8)) [
      | inl e ↦ elim (Bool-cases (i == last / 8)) [
        | inl f ↦ rw (e, f) refl
        | inr f ↦ rw (e, f) (sym front)
      ]
      | inr e ↦ elim (Bool-cases (i == last / 8)) [
        | inl f ↦ rw (e, f, all) refl
        | inr f ↦ rw (e, f, all, all) refl
      ]
    ]

-- The ones of the range in one byte.
byte_counted :
    (value : Bytes) (first last i : ℕ)
    → AreBytes value
    → first ≤ last
    → first / 8 ≤ i
    → i ≤ last / 8
    → ones 32 (masked first last i (get_or value i 0)) + ones_to value (8 * i + begins first i)
      ≡ ones_to value (8 * i + (ends last i + 1))
byte_counted value first last i bytes le low high =
    rw
      (
        masked_lem first last i (get_or value i 0) (byte_at value i bytes),
        ones_to-byte value i (begins first i) (ground arith),
        ones_to-byte value i (ends last i + 1) (ground arith),
      )
      (omega (
        arith,
        counted_lem (begins first i) (ends last i) (get_or value i 0) (ground arith) (ground arith)
            (byte_at value i bytes) (ground arith),
      ))

count_bytes_lem :
    (value : Bytes) (first last rounds i : ℕ)
    → AreBytes value
    → first ≤ last
    → first / 8 ≤ i
    → i + rounds ≡ last / 8
    → count_bytes value first last (suc rounds) i + ones_to value (8 * i + begins first i)
      ≡ ones_to value (last + 1)
unfolding count_bytes
count_bytes_lem value first last zero i bytes le low e =
    omega (arith, byte_counted value first last i bytes le low (omega arith), to_end)
  where
    to_end : ones_to value (8 * i + (ends last i + 1)) ≡ ones_to value (last + 1)
    to_end = ap (ones_to value) (ground arith)
count_bytes_lem value first last (suc rounds) i bytes le low e = omega (
  arith,
  byte_counted value first last i bytes le low (omega arith),
  count_bytes_lem value first last rounds (i + 1) bytes le (omega arith) (omega arith),
  to_next,
)
  where
    to_next :
        ones_to value (8 * i + (ends last i + 1))
        ≡ ones_to value (8 * (i + 1) + begins first (i + 1))
    to_next = ap (ones_to value) (ground arith)

-- BITCOUNT between two bits counts the ones from the first to the last.
pub count_between_lem :
    (value : Bytes) (first last : ℕ)
    → AreBytes value
    → first ≤ last
    → count_between value first last + ones_to value first ≡ ones_to value (last + 1)
unfolding count_between
count_between_lem value first last bytes le =
    ap (λ (n : ℕ). count_bytes value first last n (first / 8) + ones_to value first) (omega arith)
    ∙ ap
        (λ (n : ℕ).
          count_bytes value first last (suc (last / 8 - first / 8)) (first / 8) + ones_to value n)
        (ground arith)
    ∙ count_bytes_lem value first last (last / 8 - first / 8) (first / 8) bytes le (omega arith)
        (omega arith)

cut_range_lem :
    (length from to : ℕ) (bit_range : Bool) (first last : ℕ)
    → cut_range length from to bit_range ≡ some (first, last)
    → (first ≤ last) × (last < (if bit_range then length else length * 8))
unfolding cut_range
cut_range_lem length from to true first last h = ground (arith, h)
cut_range_lem length from to false first last h = ground (arith, h)

-- The range of BITCOUNT lies in the string and is not empty.
pub bit_bounds_lem :
    (size : ℕ) (start end : ℤ) (bit_range : Bool) (first last : ℕ)
    → bit_bounds size start end bit_range ≡ some (first, last)
    → (first ≤ last) × (last < size * 8)
unfolding bit_bounds
bit_bounds_lem size start end bit_range first last h =
    elim (Bool-cases (is_negative start && (is_negative end && ltb_ℤ end start))) [
      | inl e ↦ absurd (some_empty _ e h)
      | inr e ↦ in_size bit_range (cut_range_lem _ _ _ bit_range first last (cut _ e h))
    ]
  where
    some_empty :
        (x : Option (ℕ × ℕ)) {b : Bool}
        → b ≡ true
        → (if b then none else x) ≡ some (first, last)
        → ⊥
    some_empty x e h = ground (arith, e, h)

    cut :
        (x : Option (ℕ × ℕ)) {b : Bool}
        → b ≡ false
        → (if b then none else x) ≡ some (first, last)
        → x ≡ some (first, last)
    cut x e h = ground (arith, e, h)

    in_size :
        (bit_range : Bool)
        → (first ≤ last)
          × (last < (
              if bit_range
              then (if bit_range then size * 8 else size)
              else (if bit_range then size * 8 else size) * 8))
        → (first ≤ last) × (last < size * 8)
    in_size true p = p
    in_size false p = p

-- BITCOUNT of a string: whatever the range, the count is that of the ones from its first bit to
-- its last, and both are bits of the string.
pub bitcount_ones :
    (value : Bytes) (start end : ℤ) (bit_range : Bool) (first last : ℕ)
    → AreBytes value
    → bit_bounds (length value) start end bit_range ≡ some (first, last)
    → (count_in (some value) start end bit_range + ones_to value first ≡ ones_to value (last + 1))
      × (first ≤ last)
      × (last < length value * 8)
unfolding count_in
bitcount_ones value start end bit_range first last bytes h =
    let (le, lt) = bit_bounds_lem (length value) start end bit_range first last h in
    (rw (count_in, h) (count_between_lem value first last bytes le), le, lt)
