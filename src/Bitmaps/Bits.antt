-- ===== src/Bitmaps/Bits.antt =====
-- Strings as lists of bits: what SETBIT writes and what GETBIT reads.
use native.Mathlib.Nat.{zero-div}
use Prim.Native.Nat.{bit_and, bit_or}
use true_store.Base.{
  ℕ, zero, suc, ◌+◌, ◌-◌, ◌*◌, ◌/◌, ◌%◌, ◌^◌, ◌≤◌, ◌<◌, ◌≡◌, refl, ap, ◌∙◌, inl, inr, Bool, [], ◌∷◌,
  ◌++◌, arith, leb, ◌==◌, if◌then◌else◌, leb→le, Bool-cases, length, get_or, set, replicate, All,
  length-append, length-replicate,
}
use true_store.Text.{Bytes}
use true_store.Bitmaps.{mask_of, bit_number, set_bit, get_bit, grown}
use true_store.Bitmaps.Byte.{bit_of, written, byte_written, read_written}

-- All elements are bytes.
abbrev pub AreBytes : Bytes → Type 0
AreBytes value = All (λ c. c < 256) value

get_or-set :
    (xs : Bytes) (i j v : ℕ)
    → i < length xs
    → get_or (set xs i v) j 0 ≡ (if i == j then v else get_or xs j 0)
get_or-set [] i j v h = absurd (omega arith)
get_or-set (x ∷ xs) zero zero v h = refl
get_or-set (x ∷ xs) zero (suc j) v h = ground arith
get_or-set (x ∷ xs) (suc i) zero v h = ground arith
get_or-set (x ∷ xs) (suc i) (suc j) v h = ground (arith, get_or-set xs i j v (omega arith))

get_or-zeros : (n j : ℕ) → ◌≡◌ {A = ℕ} (get_or (replicate n 0) j 0) 0
get_or-zeros zero j = refl
get_or-zeros (suc n) zero = refl
get_or-zeros (suc n) (suc j) = get_or-zeros n j

get_or-padded : (xs : Bytes) (n j : ℕ) → get_or (xs ++ replicate n 0) j 0 ≡ get_or xs j 0
get_or-padded [] n j = get_or-zeros n j
get_or-padded (x ∷ xs) n zero = refl
get_or-padded (x ∷ xs) n (suc j) = get_or-padded xs n j

get_or-grown : (i j : ℕ) (value : Bytes) → get_or (grown i value) j 0 ≡ get_or value j 0
unfolding grown
get_or-grown i j value = ground (arith, get_or-padded value (i + 1 - length value) j)

length-grown : (i : ℕ) (value : Bytes) → i < length (grown i value)
unfolding grown
length-grown i value = ground (
  arith,
  length-append {0} value (replicate (i + 1 - length value) 0),
  length-replicate {A = ℕ} (i + 1 - length value) 0,
)

AreBytes-zeros : (n : ℕ) → AreBytes (replicate n 0)
AreBytes-zeros zero = tt
AreBytes-zeros (suc n) = (omega arith, AreBytes-zeros n)

AreBytes-append : (xs ys : Bytes) → AreBytes xs → AreBytes ys → AreBytes (xs ++ ys)
AreBytes-append [] ys h k = k
AreBytes-append (x ∷ xs) ys (b, h) k = (b, AreBytes-append xs ys h k)

AreBytes-set : (xs : Bytes) (i v : ℕ) → v < 256 → AreBytes xs → AreBytes (set xs i v)
AreBytes-set [] i v b h = tt
AreBytes-set (x ∷ xs) zero v b (c, h) = (b, h)
AreBytes-set (x ∷ xs) (suc i) v b (c, h) = (c, AreBytes-set xs i v b h)

AreBytes-grown : (i : ℕ) (value : Bytes) → AreBytes value → AreBytes (grown i value)
unfolding grown
AreBytes-grown i value h = ground (
  arith,
  h,
  AreBytes-append value (replicate (i + 1 - length value) 0) h
      (AreBytes-zeros (i + 1 - length value)),
)

pub byte_at : (value : Bytes) (i : ℕ) → AreBytes value → get_or value i 0 < 256
byte_at [] i h = omega arith
byte_at (x ∷ xs) zero h = h.0
byte_at (x ∷ xs) (suc i) h = byte_at xs i h.1

-- The bit of a string at an offset; behind its end there are zeros.
unfoldable pub bit_at : Bytes → ℕ → ℕ
bit_at value j = bit_of (get_or value (j / 8) 0) (j % 8)

-- A place of the byte at an index.
pub bit_at-place :
    (value : Bytes) (i k : ℕ) → k < 8 → bit_at value (8 * i + k) ≡ bit_of (get_or value i 0) k
unfolding bit_at
bit_at-place value i k h = rw (quotient, rest) refl
  where
    quotient : (8 * i + k) / 8 ≡ i
    quotient = omega arith

    rest : (8 * i + k) % 8 ≡ k
    rest = omega arith

get_or_behind : (xs : Bytes) (i : ℕ) → length xs ≤ i → get_or xs i 0 ≡ 0
get_or_behind [] i h = refl
get_or_behind (x ∷ xs) zero h = absurd (omega arith)
get_or_behind (x ∷ xs) (suc i) h = get_or_behind xs i (omega arith)

-- GETBIT reads the bit.
pub get_bit-bit_at : (value : Bytes) (j : ℕ) → AreBytes value → get_bit j value ≡ bit_at value j
unfolding get_bit bit_at read_written
get_bit-bit_at value j h = elim (Bool-cases (leb (length value) (j / 8))) [
  | inl behind ↦ rw (behind, get_or_behind value (j / 8) (leb→le _ _ behind)) (zero_bit (7 - j % 8))
  | inr inside ↦
      rw inside (and_fact (j % 8) (get_or value (j / 8) 0) (omega arith) (byte_at value (j / 8) h))
]
  where
    zero_bit : (k : ℕ) → 0 ≡ 0 / 2 ^ k % 2
    zero_bit k = omega (arith, zero-div (2 ^ k))

    and_fact : (k b : ℕ) → k < 8 → b < 256 → bit_and (b / 2 ^ (7 - k)) 1 ≡ bit_of b k
    and_fact k b hk hb = ground (arith, written k k b hk hk hb)

-- SETBIT replies with the bit that was there, writes the new one, and leaves all others.
pub set_bit_lem :
    (value : Bytes) (offset : ℕ) (on : Bool)
    → AreBytes value
    → let (previous, changed) = set_bit offset on value in
      AreBytes changed
      × (bit_number previous ≡ bit_at value offset)
      × ((j : ℕ) → bit_at changed j ≡ (if offset == j then bit_number on else bit_at value j))
unfolding set_bit bit_at mask_of
set_bit_lem value offset on h =
    let index = offset / 8 in
    let long = grown index value in
    let bytes = AreBytes-grown index value h in
    let small = byte_at long index bytes in
    let at = λ (j : ℕ). byte_written on (offset % 8) j (get_or long index 0) in
    (
      AreBytes-set long index _ (at 0 (omega arith) (omega arith) small).1 bytes,
      (at 0 (omega arith) (omega arith) small).2
          ∙ ap (λ (b : ℕ). bit_of b (offset % 8)) (get_or-grown index index value),
      λ j. ground (
        arith,
        get_or-set long index (j / 8)
            (if on
              then bit_or (get_or long index 0) (128 / 2 ^ (offset % 8))
              else bit_and (get_or long index 0) (255 - 128 / 2 ^ (offset % 8)))
            (length-grown index value),
        get_or-grown index (j / 8) value,
        at (j % 8) (omega arith) (omega arith) small,
      ),
    )
