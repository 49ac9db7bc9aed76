-- ===== src/Text/Decimal.antt =====
-- `std::to_string` of integers, and the digits that the readers take back.
use true_store.Base.{
  ℕ, zero, suc, ◌+◌, ◌-◌, ◌*◌, ◌/◌, ◌%◌, ◌≤◌, ◌≡◌, ◌≢◌, refl, Bool, true, false, ◌&&◌, [], ◌∷◌,
  ◌++◌, All, arith, leb, ◌==◌, if◌then◌else◌, ℤ, pos, negsuc, ◌∙◌, Bool-cases, inl, inr,
}
use true_store.Text.{Bytes, codes}

abbrev pub is_digit : ℕ → Bool
is_digit c = leb 48 c && leb c 57

-- The digits of `n` in front of `out`; a number has at most as many digits as it counts.
digits : ℕ → ℕ → Bytes → Bytes
digits zero n out = out
digits (suc fuel) n out =
    let rest = digits fuel (n / 10) ((48 + n % 10) ∷ out) in if n == 0 then out else rest

-- `std::to_string` of an unsigned number.
unfoldable pub to_string : ℕ → Bytes
unfolding digits
to_string n = if n == 0 then 48 ∷ [] else digits n n []

-- `std::to_string` of a signed number.
unfoldable pub to_string_ℤ : ℤ → Bytes
to_string_ℤ (pos n) = to_string n
to_string_ℤ (negsuc n) = b'-' ∷ to_string (suc n)

-- Reads digits behind the value `n`: the value, and what stands after the digits.
unfoldable pub read_digits : ℕ → Bytes → ℕ × Bytes
read_digits n [] = (n, [])
read_digits n (c ∷ s) = if is_digit c then read_digits (n * 10 + (c - 48)) s else (n, c ∷ s)

-- A text that does not begin with a digit.
abbrev pub Stops : Bytes → Type 0
Stops [] = Unit {0}
Stops (c ∷ s) = is_digit c ≡ false

read_digits-Stops : (n : ℕ) (s : Bytes) → Stops s → read_digits n s ≡ (n, s)
unfolding read_digits
read_digits-Stops n [] h = refl
read_digits-Stops n (c ∷ s) h = rw h

read_last : (n : ℕ) (out : Bytes) → read_digits (n / 10) ((48 + n % 10) ∷ out) ≡ read_digits n out
unfolding read_digits
read_last n out = ground arith

read-digits :
    (fuel n : ℕ) (out : Bytes) → n ≤ fuel → read_digits 0 (digits fuel n out) ≡ read_digits n out
unfolding digits
read-digits zero n out h = ground arith
read-digits (suc fuel) n out h = elim (Bool-cases (n == 0)) [
  | inl e ↦ ground arith
  | inr e ↦ rw e (read-digits fuel (n / 10) _ (ground arith) ∙ read_last n out)
]

digits-append :
    (fuel n : ℕ) (out rest : Bytes) → digits fuel n out ++ rest ≡ digits fuel n (out ++ rest)
unfolding digits
digits-append zero n out rest = refl
digits-append (suc fuel) n out rest =
    ground (arith, digits-append fuel (n / 10) ((48 + n % 10) ∷ out) rest)

-- Reading a printed number, and whatever text follows it, gives the number and that text.
pub read-to_string :
    (n : ℕ) (rest : Bytes) → Stops rest → read_digits 0 (to_string n ++ rest) ≡ (n, rest)
unfolding to_string
read-to_string n rest h = elim (Bool-cases (n == 0)) [
  | inl e ↦ rw e (zero_case (ground arith))
  | inr e ↦
      rw (e, digits-append n n [] rest)
        (read-digits n n rest (omega arith) ∙ read_digits-Stops n rest h)
]
  where
    zero_case : n ≡ 0 → read_digits 0 (48 ∷ rest) ≡ (n, rest)
    zero_case e = rw e (read_last 0 rest ∙ read_digits-Stops 0 rest h)

digits-All :
    (fuel n : ℕ) (out : Bytes)
    → All (λ c. is_digit c ≡ true) out
    → All (λ c. is_digit c ≡ true) (digits fuel n out)
unfolding digits
digits-All zero n out h = h
digits-All (suc fuel) n out h = elim (Bool-cases (n == 0)) [
  | inl e ↦ rw e h
  | inr e ↦ rw e (digits-All fuel (n / 10) _ (ground arith, h))
]

-- A printed number is one or more digits.
pub to_string-All : (n : ℕ) → All (λ c. is_digit c ≡ true) (to_string n)
unfolding to_string
to_string-All n = elim (Bool-cases (n == 0)) [
  | inl e ↦ rw e (refl, tt)
  | inr e ↦ rw e (digits-All n n [] tt)
]

digits-ne-nil : (fuel n : ℕ) (out : Bytes) → out ≢ [] → digits fuel n out ≢ []
unfolding digits
digits-ne-nil zero n out h = h
digits-ne-nil (suc fuel) n out h = elim (Bool-cases (n == 0)) [
  | inl e ↦ rw e h
  | inr e ↦ rw e (digits-ne-nil fuel (n / 10) _ (λ p. cc))
]

pub to_string-ne-nil : (n : ℕ) → to_string n ≢ []
unfolding to_string digits
to_string-ne-nil zero = λ p. cc
to_string-ne-nil (suc n) =
    ground (arith, digits-ne-nil n (suc n / 10) ((48 + suc n % 10) ∷ []) (λ p. cc))

print_example : to_string 1907 ≡ codes "1907"
unfolding to_string
print_example = refl
