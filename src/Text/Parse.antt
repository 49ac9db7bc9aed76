-- ===== src/Text/Parse.antt =====
-- The readers of the standard library that the sources call on a whole `std::string`: `stoi`,
-- `stoll` and `stoull`, which skip white space, take a sign and ignore what follows the digits, and
-- `from_chars`, which does not. `none` is an exception, or an error code.
use true_store.Base.{
  ℕ, zero, suc, ◌-◌, ◌%◌, ◌^◌, ◌<◌, ◌≡◌, refl, sym, ap, ◌∙◌, ◌≢◌, Bool, true, false, ◌&&◌, ◌||◌,
  Option, none, some, [], ◌∷◌, append-nil, arith, ltb, leb, ◌==◌, if◌then◌else◌, All, ℤ, pos,
  negsuc, ◌≤ℤ◌,
}
use true_store.Text.{Bytes, codes}
use true_store.Text.Decimal.{
  is_digit, to_string, to_string_ℤ, read_digits, read-to_string, to_string-All, to_string-ne-nil,
}

-- `std::isspace` in the C locale.
abbrev pub is_space : ℕ → Bool
is_space c = c == 32 || (leb 9 c && leb c 13)

skip_space : Bytes → Bytes
skip_space [] = []
skip_space (c ∷ s) = if is_space c then skip_space s else c ∷ s

-- The sign, true for `-`, and the text behind it.
sign : Bytes → Bool × Bytes
sign [] = (false, [])
sign (c ∷ s) = if c == b'-' then (true, s) else if c == b'+' then (false, s) else (false, c ∷ s)

starts_digit : Bytes → Bool
starts_digit [] = false
starts_digit (c ∷ s) = is_digit c

magnitude : Bytes → Option ℕ
magnitude s = if starts_digit s then some (read_digits 0 s).0 else none

abbrev pub negate : ℕ → ℤ
negate zero = pos 0
negate (suc n) = negsuc n

-- The range test of a signed type with `half` nonnegative values.
in_signed : ℕ → Bool → Option ℕ → Option ℤ
in_signed half neg none = none
in_signed half true (some n) = if leb n half then some (negate n) else none
in_signed half false (some n) = if ltb n half then some (pos n) else none

in_unsigned : Bool → Option ℕ → Option ℕ
in_unsigned neg none = none
in_unsigned neg (some n) =
    if ltb n (2 ^ 64) then some (if neg then (2 ^ 64 - n) % 2 ^ 64 else n) else none

unfoldable pub stoll : Bytes → Option ℤ
unfolding skip_space sign starts_digit magnitude in_signed read_digits
stoll text = let (neg, s) = sign (skip_space text) in in_signed (2 ^ 63) neg (magnitude s)

unfoldable pub stoi : Bytes → Option ℤ
unfolding skip_space sign starts_digit magnitude in_signed read_digits
stoi text = let (neg, s) = sign (skip_space text) in in_signed (2 ^ 31) neg (magnitude s)

-- `std::atoi`: 0 without digits, and also, as the model has it, where the number does not fit into
-- an `int`, which the language leaves undefined.
unfoldable pub atoi : Bytes → ℤ
unfolding stoi
atoi text = elim (stoi text) [ none ↦ pos 0 | some n ↦ n ]

-- A minus sign is accepted, and negates modulo 2^64.
unfoldable pub stoull : Bytes → Option ℕ
unfolding skip_space sign starts_digit magnitude in_unsigned read_digits
stoull text = let (neg, s) = sign (skip_space text) in in_unsigned neg (magnitude s)

-- The value of a text of digits only.
all_digits : Bytes → Option ℕ
all_digits s = elim (read_digits 0 s).1 [ [] ↦ magnitude s | _ ↦ none ]

-- `from_chars` into `uint64_t`, where `ptr` must reach the end of the text.
unfoldable pub from_chars_u64 : Bytes → Option ℕ
unfolding all_digits magnitude starts_digit in_unsigned read_digits
from_chars_u64 s = in_unsigned false (all_digits s)

minus : Bytes → Bool × Bytes
minus [] = (false, [])
minus (c ∷ s) = if c == b'-' then (true, s) else (false, c ∷ s)

-- `from_chars` into `long long`: a minus sign, no plus sign and no white space.
unfoldable pub from_chars_i64 : Bytes → Option ℤ
unfolding minus all_digits magnitude starts_digit in_signed read_digits
from_chars_i64 text = let (neg, s) = minus text in in_signed (2 ^ 63) neg (all_digits s)

-- A text that begins with a digit: no space is skipped and no sign is read.
front :
    (s : Bytes)
    → All (λ c. is_digit c ≡ true) s
    → s ≢ []
    → (sign (skip_space s) ≡ (false, s)) × (minus s ≡ (false, s)) × (starts_digit s ≡ true)
unfolding sign skip_space minus starts_digit
front [] h ne = absurd (ne refl)
front (c ∷ s) h ne = ground arith

print_front :
    (n : ℕ)
    → (sign (skip_space (to_string n)) ≡ (false, to_string n))
      × (minus (to_string n) ≡ (false, to_string n))
      × (starts_digit (to_string n) ≡ true)
print_front n = front (to_string n) (to_string-All n) (to_string-ne-nil n)

read_print : (n : ℕ) → read_digits 0 (to_string n) ≡ (n, [])
read_print n = ap (read_digits 0) (sym (append-nil (to_string n))) ∙ read-to_string n [] tt

magnitude-to_string : (n : ℕ) → magnitude (to_string n) ≡ some n
unfolding magnitude
magnitude-to_string n = rw ((print_front n).2, read_print n)

all_digits-to_string : (n : ℕ) → all_digits (to_string n) ≡ some n
unfolding all_digits
all_digits-to_string n = rw (read_print n, all_digits) (magnitude-to_string n)

-- `stoull` and `from_chars` read back every printed 64-bit number.
pub stoull-to_string : (n : ℕ) → n < 2 ^ 64 → stoull (to_string n) ≡ some n
unfolding stoull
stoull-to_string n h = rw ((print_front n).0, magnitude-to_string n) (ground arith)

pub from_chars_u64-to_string : (n : ℕ) → n < 2 ^ 64 → from_chars_u64 (to_string n) ≡ some n
unfolding from_chars_u64
from_chars_u64-to_string n h = rw (all_digits-to_string n) (ground arith)

-- `stoll` and `from_chars` read back every printed `long long`.
pub stoll-to_string :
    (z : ℤ) → negate (2 ^ 63) ≤ℤ z → z ≤ℤ pos (2 ^ 63 - 1) → stoll (to_string_ℤ z) ≡ some z
unfolding stoll to_string_ℤ
stoll-to_string (pos n) lo hi = rw ((print_front n).0, magnitude-to_string n) (ground arith)
stoll-to_string (negsuc n) lo hi = rw (magnitude-to_string (suc n)) (ground arith)

pub stoll-to_string_nat : (n : ℕ) → n < 2 ^ 63 → stoll (to_string n) ≡ some (pos n)
unfolding to_string_ℤ
stoll-to_string_nat n h = stoll-to_string (pos n) (omega arith) (omega arith)

pub stoi-to_string :
    (z : ℤ) → negate (2 ^ 31) ≤ℤ z → z ≤ℤ pos (2 ^ 31 - 1) → stoi (to_string_ℤ z) ≡ some z
unfolding stoi to_string_ℤ
stoi-to_string (pos n) lo hi = rw ((print_front n).0, magnitude-to_string n) (ground arith)
stoi-to_string (negsuc n) lo hi = rw (magnitude-to_string (suc n)) (ground arith)

pub from_chars_i64-to_string :
    (z : ℤ) → negate (2 ^ 63) ≤ℤ z → z ≤ℤ pos (2 ^ 63 - 1) → from_chars_i64 (to_string_ℤ z) ≡ some z
unfolding from_chars_i64 to_string_ℤ
from_chars_i64-to_string (pos n) lo hi =
    rw ((print_front n).1, all_digits-to_string n) (ground arith)
from_chars_i64-to_string (negsuc n) lo hi = rw (all_digits-to_string (suc n)) (ground arith)

in_unsigned-lt : (m : Option ℕ) (n : ℕ) → in_unsigned false m ≡ some n → n < 2 ^ 64
unfolding in_unsigned
in_unsigned-lt none n h = cc
in_unsigned-lt (some m) n h = ground arith

pub from_chars_u64-lt : (s : Bytes) (n : ℕ) → from_chars_u64 s ≡ some n → n < 2 ^ 64
unfolding from_chars_u64
from_chars_u64-lt s n h = in_unsigned-lt (all_digits s) n h

read_tests :
    (stoll (codes "  -12x") ≡ some (negsuc 11))
    × (stoll (codes "x") ≡ none)
    × (stoull (codes "-1") ≡ some 18446744073709551615)
    × (from_chars_i64 (codes "+1") ≡ none)
    × (stoi (codes "2147483648") ≡ none)
unfolding stoll stoull from_chars_i64 stoi
read_tests = (refl, refl, refl, refl, refl)

-- `stoull` of a minus sign and a printed number.
pub stoull-negated : (n : ℕ) → 0 < n → n < 2 ^ 64 → stoull (b'-' ∷ to_string n) ≡ some (2 ^ 64 - n)
unfolding stoull
stoull-negated n p h = rw (magnitude-to_string n) (ground arith)
