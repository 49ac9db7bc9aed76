-- ===== src/Bitmaps/Operations.antt =====
-- BITOP, bit by bit: what each bit of the result is of the bits of the sources.
use native.Mathlib.Nat.{zero-div}
use true_store.Base.{
  ℕ, zero, suc, ◌+◌, ◌-◌, ◌*◌, ◌/◌, ◌%◌, ◌^◌, ◌<◌, ◌≡◌, refl, sym, ap, ◌∙◌, Bool, true, ◌&&◌, List,
  [], ◌∷◌, arith, ltb, ◌==◌, ltb→lt, ==_iff, length, get_or, All,
}
use true_store.Text.{Bytes}
use true_store.Bitmaps.{
  BitOperation, and_bits, or_bits, xor_bits, not_bits, combine, combine_all, combined, first_byte,
  longest,
}
use true_store.Bitmaps.Byte.{bit_of, holds_under, holds_at, both_true}
use true_store.Bitmaps.Bits.{AreBytes, bit_at, bit_at-place, byte_at}

-- The operations on single bits.
unfoldable pub bit_op : BitOperation → ℕ → ℕ → ℕ
bit_op and_bits a b = a * b
bit_op or_bits a b = a + b - a * b
bit_op xor_bits a b = (a + b) % 2
bit_op not_bits a b = 1 - b

-- The result of BITOP at one offset, from the bits of the sources there; behind the end of a
-- source there are zeros.
unfoldable pub bits_combined : BitOperation → List Bytes → ℕ → ℕ → ℕ
bits_combined op [] j bit = bit
bits_combined op (source ∷ sources) j bit =
    bits_combined op sources j (bit_op op bit (bit_at source j))

abbrev first_bit : BitOperation → ℕ
first_bit and_bits = 1
first_bit _ = 0

-- One operation on two bytes, at all places.
op_table : BitOperation → ℕ → ℕ → Bool
op_table op a b =
    holds_under 8 (λ k. bit_of (combine op a b) k == bit_op op (bit_of a k) (bit_of b k))
    && ltb (combine op a b) 256

and_table : holds_under 256 (λ a. holds_under 256 (op_table and_bits a)) ≡ true
unfolding holds_under op_table bit_op combine
and_table = refl

or_table : holds_under 256 (λ a. holds_under 256 (op_table or_bits a)) ≡ true
unfolding holds_under op_table bit_op combine
or_table = refl

xor_table : holds_under 256 (λ a. holds_under 256 (op_table xor_bits a)) ≡ true
unfolding holds_under op_table bit_op combine
xor_table = refl

not_table : holds_under 256 (op_table not_bits 0) ≡ true
unfolding holds_under op_table bit_op combine
not_table = refl

two :
    (op : BitOperation)
    → holds_under 256 (λ a. holds_under 256 (op_table op a)) ≡ true
    → (a b : ℕ) → a < 256
    → b < 256
    → op_table op a b ≡ true
two op table a b ha hb =
    holds_at 256 (op_table op a) b (holds_at 256 (λ a. holds_under 256 (op_table op a)) a table ha)
      hb

op_tables : (op : BitOperation) (a b : ℕ) → a < 256 → b < 256 → op_table op a b ≡ true
unfolding op_table bit_op combine
op_tables and_bits a b ha hb = two and_bits and_table a b ha hb
op_tables or_bits a b ha hb = two or_bits or_table a b ha hb
op_tables xor_bits a b ha hb = two xor_bits xor_table a b ha hb
op_tables not_bits a b ha hb = holds_at 256 (op_table not_bits 0) b not_table hb

combine_lem :
    (op : BitOperation) (a b k : ℕ)
    → a < 256
    → b < 256
    → k < 8
    → (bit_of (combine op a b) k ≡ bit_op op (bit_of a k) (bit_of b k)) × (combine op a b < 256)
unfolding op_table
combine_lem op a b k ha hb hk =
    let (bits, small) = both_true _ _ (op_tables op a b ha hb) in
    (
      (==_iff _ _).0 (
          holds_at 8 (λ k. bit_of (combine op a b) k == bit_op op (bit_of a k) (bit_of b k)) k bits
            hk),
      ltb→lt _ _ small,
    )

combine_all_lem :
    (op : BitOperation) (sources : List Bytes) (i byte k : ℕ)
    → All AreBytes sources
    → byte < 256
    → k < 8
    → (bit_of (combine_all op sources i byte) k
        ≡ bits_combined op sources (8 * i + k) (bit_of byte k))
      × (combine_all op sources i byte < 256)
unfolding combine_all bits_combined
combine_all_lem op [] i byte k h hb hk = (refl, hb)
combine_all_lem op (source ∷ sources) i byte k (bytes, h) hb hk =
    let (bit, small) = combine_lem op byte (get_or source i 0) k hb (byte_at source i bytes) hk in
    let (all, result) =
      combine_all_lem op sources i (combine op byte (get_or source i 0)) k h small hk in
    (
      all
          ∙ ap (bits_combined op sources (8 * i + k))
              (bit ∙ ap (bit_op op (bit_of byte k)) (sym (bit_at-place source i k hk))),
      result,
    )

get_or-combined :
    (op : BitOperation) (sources : List Bytes) (n i m : ℕ)
    → m < n
    → get_or (combined op sources n i) m 0 ≡ combine_all op sources (i + m) (first_byte op)
unfolding combined
get_or-combined op sources zero i m h = absurd (omega arith)
get_or-combined op sources (suc n) i zero h =
    ap (λ (x : ℕ). combine_all op sources x (first_byte op)) (omega arith)
get_or-combined op sources (suc n) i (suc m) h =
    get_or-combined op sources n (i + 1) m (omega arith)
    ∙ ap (λ (x : ℕ). combine_all op sources x (first_byte op)) (omega arith)

length-combined :
    (op : BitOperation) (sources : List Bytes) (n i : ℕ) → length (combined op sources n i) ≡ n
unfolding combined
length-combined op sources zero i = refl
length-combined op sources (suc n) i = omega (arith, length-combined op sources n (i + 1))

ones_table : holds_under 8 (λ k. bit_of 255 k == 1) ≡ true
unfolding holds_under
ones_table = refl

first_byte_lem :
    (op : BitOperation) (k : ℕ)
    → k < 8
    → (bit_of (first_byte op) k ≡ first_bit op) × (first_byte op < 256)
unfolding first_byte
first_byte_lem and_bits k h =
    ((==_iff _ _).0 (holds_at 8 (λ k. bit_of 255 k == 1) k ones_table h), omega arith)
first_byte_lem or_bits k h = (omega (arith, zero-div (2 ^ (7 - k))), omega arith)
first_byte_lem xor_bits k h = (omega (arith, zero-div (2 ^ (7 - k))), omega arith)
first_byte_lem not_bits k h = (omega (arith, zero-div (2 ^ (7 - k))), omega arith)

-- Each bit of the result of BITOP is what the operation makes of the bits of the sources at its
-- offset, where a source that is shorter has zeros; the result is as long as the longest source.
pub bitop_bits :
    (op : BitOperation) (sources : List Bytes) (j : ℕ)
    → All AreBytes sources
    → j < 8 * longest sources
    → let result = combined op sources (longest sources) 0 in
      (bit_at result j ≡ bits_combined op sources j (first_bit op))
      × (length result ≡ longest sources)
unfolding bit_at first_byte
bitop_bits op sources j h lt = (
  ap (λ (b : ℕ). bit_of b (j % 8))
        (get_or-combined op sources (longest sources) 0 (j / 8) (omega arith))
      ∙ (combine_all_lem op sources (0 + j / 8) (first_byte op) (j % 8) h
          (first_byte_lem op 0 (omega arith)).1 (omega arith)).0
      ∙ ap2 (omega arith) (first_byte_lem op (j % 8) (omega arith)).0,
  length-combined op sources (longest sources) 0,
)
  where
    ap2 :
        {a b c d : ℕ} → a ≡ b → c ≡ d → bits_combined op sources a c ≡ bits_combined op sources b d
    ap2 e f = cc
