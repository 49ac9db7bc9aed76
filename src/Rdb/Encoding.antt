-- ===== src/Rdb/Encoding.antt =====
-- Numbers, lengths and strings in the format of RDB files are read back.
use native.Mathlib.Nat.{pow-suc, add-mul, mul_assoc}
use true_store.Base.{
  ℕ, zero, suc, ◌+◌, ◌*◌, ◌/◌, ◌%◌, ◌^◌, ◌<◌, ◌≡◌, refl, ap, ◌∙◌, inl, inr, false, [], ◌∷◌, ◌++◌,
  append_assoc, arith, ltb, ◌==◌, if◌then◌else◌, ltb→lt, Bool-cases, length, length-append,
  drop-append, take-append,
}
use true_store.Text.{Bytes}
use true_store.Streams.{write_be}
use true_store.Streams.Keys.{write_be-append}
use true_store.Rdb.{
  RdbResult, ok, ◌>>=◌, read_byte, little_endian, big_endian, read_bytes, length_from, read_length,
  read_string,
}

-- A number in `n` bytes, the lowest first.
unfoldable pub write_le : ℕ → ℕ → Bytes
write_le zero v = []
write_le (suc n) v = (v % 256) ∷ write_le n (v / 256)

pub little_endian-write_le :
    (n i a v : ℕ) (rest : Bytes)
    → v < 256 ^ n
    → little_endian n i a (write_le n v ++ rest) ≡ ok (a + v * 256 ^ i, rest)
unfolding little_endian write_le read_byte
little_endian-write_le zero i a v rest h = ap (λ (k : ℕ). ok (k, rest)) (zero_case v h)
  where
    zero_case : (v : ℕ) → v < 1 → a ≡ a + v * 256 ^ i
    zero_case zero h = omega arith
    zero_case (suc v) h = absurd (omega arith)
little_endian-write_le (suc n) i a v rest h =
    little_endian-write_le n (suc i) (a + v % 256 * 256 ^ i) (v / 256) rest
      (omega (arith, pow-suc 256 n))
    ∙ ap (λ (k : ℕ). ok (k, rest)) (rw (pow-suc 256 i) (split v (256 ^ i)))
  where
    whole : (v : ℕ) → v ≡ v / 256 * 256 + v % 256
    whole v = omega arith

    swap : (p : ℕ) → 256 * p ≡ p * 256
    swap p = omega arith

    split : (v p : ℕ) → a + v % 256 * p + v / 256 * (p * 256) ≡ a + v * p
    split v p =
        let parts = add-mul (v / 256 * 256) (v % 256) p in
        let left = mul_assoc (v / 256) 256 p in
        omega (arith, ap (λ (x : ℕ). x * p) (whole v), parts, left, ap (◌*◌ (v / 256)) (swap p))

big_endian-write_be :
    (n k a v : ℕ) (out : Bytes)
    → v < 256 ^ n
    → big_endian (n + k) a (write_be n v out) ≡ big_endian k (a * 256 ^ n + v) out
unfolding big_endian write_be read_byte
big_endian-write_be zero k a v out h =
    ap (λ (j : ℕ). big_endian j a out) (omega arith)
    ∙ ap (λ (j : ℕ). big_endian k j out) (omega arith)
big_endian-write_be (suc n) k a v out h =
    ap (λ (j : ℕ). big_endian j a (write_be n (v / 256) ((v % 256) ∷ out))) (omega arith)
    ∙ big_endian-write_be n (suc k) a (v / 256) ((v % 256) ∷ out) (omega (arith, pow-suc 256 n))
    ∙ ap (λ (j : ℕ). big_endian k j out) (rw (pow-suc 256 n) (omega arith))

-- A length in the shortest of its four forms.
abbrev length_head : ℕ → ℕ
length_head n =
    if ltb n 64
    then n
    else if ltb n (2 ^ 14)
    then 64 + n / 256
    else if ltb n (2 ^ 32)
    then 128
    else 129

abbrev length_tail : ℕ → Bytes
length_tail n =
    if ltb n 64
    then []
    else if ltb n (2 ^ 14)
    then n % 256 ∷ []
    else if ltb n (2 ^ 32)
    then write_be 4 n []
    else write_be 8 n []

unfoldable pub encode_length : ℕ → Bytes
encode_length n = length_head n ∷ length_tail n

big_endian-written :
    (n v : ℕ) (rest : Bytes) → v < 256 ^ n → big_endian n 0 (write_be n v [] ++ rest) ≡ ok (v, rest)
unfolding big_endian
big_endian-written n v rest h =
    ap (big_endian n 0) (write_be-append n v [] rest)
    ∙ ap (λ (j : ℕ). big_endian j 0 (write_be n v rest)) (omega arith)
    ∙ big_endian-write_be n 0 0 v rest h
    ∙ ap (λ (j : ℕ). ok (j, rest)) (omega arith)

one_byte : (n : ℕ) (rest : Bytes) → n < 64 → length_from n rest ≡ ok (n, rest)
unfolding length_from
one_byte n rest h = ground arith

two_bytes :
    (n : ℕ) (rest : Bytes) → n < 2 ^ 14 → length_from (64 + n / 256) (n % 256 ∷ rest) ≡ ok (n, rest)
unfolding length_from read_byte
two_bytes n rest h = ground arith

length_from-encode :
    (n : ℕ) (rest : Bytes)
    → n < 2 ^ 64
    → length_from (length_head n) (length_tail n ++ rest) ≡ ok (n, rest)
unfolding length_from read_byte
length_from-encode n rest h = elim (Bool-cases (ltb n 64)) [
  | inl small ↦ rw small (one_byte n rest (ltb→lt _ _ small))
  | inr e ↦ elim (Bool-cases (ltb n (2 ^ 14))) [
    | inl two ↦ rw (e, two) (two_bytes n rest (ltb→lt _ _ two))
    | inr f ↦ elim (Bool-cases (ltb n (2 ^ 32))) [
      | inl four ↦ rw (e, f, four) (big_endian-written 4 n rest (omega (arith, ltb→lt _ _ four)))
      | inr g ↦ rw (e, f, g) (big_endian-written 8 n rest (omega arith))
    ]
  ]
]

pub read_length-encode :
    (n : ℕ) (rest : Bytes) → n < 2 ^ 64 → read_length (encode_length n ++ rest) ≡ ok (n, rest)
unfolding read_length read_byte encode_length
read_length-encode n rest h = length_from-encode n rest h

-- A string behind its length.
unfoldable pub encode_string : Bytes → Bytes
encode_string s = encode_length (length s) ++ s

plain_head : (n : ℕ) → (length_head n / 64 == 3) ≡ false
plain_head n = ground arith

string_length :
    (n : ℕ) (more : Bytes)
    → read_string (length_head n ∷ more)
      ≡ (read_length (length_head n ∷ more) >>= λ (count, rest). read_bytes count rest)
unfolding read_string
string_length n more = rw (plain_head n) refl

pub read_bytes-append : (s rest : Bytes) → read_bytes (length s) (s ++ rest) ≡ ok (s, rest)
unfolding read_bytes
read_bytes-append s rest = rw (enough, take-append s rest, drop-append s rest) refl
  where
    enough : ltb (length (s ++ rest)) (length s) ≡ false
    enough = ground (arith, length-append s rest)

pub read_string-encode :
    (s rest : Bytes) → length s < 2 ^ 64 → read_string (encode_string s ++ rest) ≡ ok (s, rest)
unfolding encode_string encode_length
read_string-encode s rest h =
    ap read_string (append_assoc (encode_length (length s)) s rest)
    ∙ string_length (length s) (length_tail (length s) ++ (s ++ rest))
    ∙ ap (λ (m : RdbResult (ℕ × Bytes)). m >>= λ (count, r). read_bytes count r)
        (read_length-encode (length s) (s ++ rest) h)
    ∙ read_bytes-append s rest
