-- ===== src/Geospatial/Cells.antt =====
-- The cells of store/geospatial.cpp: `interleave` and `deinterleave`.
use Prim.Native.Nat.{bit_or, bit_or-bitwise, digits, max}
use native.Mathlib.Nat.{mul_comm, div-div-eq-div-mul, pow-suc}
use true_store.Base.{
  ℕ, zero, suc, ◌+◌, ◌*◌, ◌/◌, ◌%◌, ◌^◌, ◌≤◌, ◌<◌, ◌≡◌, refl, sym, ap, ◌∙◌, arith,
}
use true_store.Geospatial.{interleave, deinterleave, cell, cell_parts}

-- More fuel than the number itself makes no difference.
enough : (n m a b : ℕ) → a ≤ n → a ≤ m → digits (λ y. y) max n a b ≡ digits (λ y. y) max m a b
enough n m zero b p q = by_fuel n m
  where
    by_fuel : (n m : ℕ) → digits (λ y. y) max n 0 b ≡ digits (λ y. y) max m 0 b
    by_fuel zero zero = refl
    by_fuel zero (suc m) = refl
    by_fuel (suc n) zero = refl
    by_fuel (suc n) (suc m) = refl
enough zero m (suc a) b p q = absurd (omega arith)
enough (suc n) zero (suc a) b p q = absurd (omega arith)
enough (suc n) (suc m) (suc a) b p q =
    ap (λ (h : ℕ). h * 2 + max (suc a % 2) (b % 2))
      (enough n m (suc a / 2) (b / 2) (omega arith) (omega arith))

-- The lowest digit of `|`.
or_step : (a b : ℕ) → bit_or a b ≡ bit_or (a / 2) (b / 2) * 2 + max (a % 2) (b % 2)
or_step zero b = omega (arith, bit_or-bitwise 0 b, bit_or-bitwise 0 (b / 2))
or_step (suc a) b = omega (
  arith,
  bit_or-bitwise (suc a) b,
  bit_or-bitwise (suc a / 2) (b / 2),
  enough a (suc a / 2) (suc a / 2) (b / 2) (omega arith) (omega arith),
)

zero-or : (b : ℕ) → bit_or 0 b ≡ b
zero-or b = bit_or-bitwise 0 b

or-zero_fuel : (n a : ℕ) → a ≤ n → bit_or a 0 ≡ a
or-zero_fuel n zero h = refl
or-zero_fuel zero (suc a) h = absurd (omega arith)
or-zero_fuel (suc n) (suc a) h =
    omega (arith, or_step (suc a) 0, or-zero_fuel n (suc a / 2) (omega arith))

or-zero : (a : ℕ) → bit_or a 0 ≡ a
or-zero a = or-zero_fuel a a (omega arith)

twice : (c k : ℕ) → c * 2 ^ suc k ≡ c * 2 ^ k * 2
twice c k = omega (arith, ap (λ (t : ℕ). c * t) (pow-suc 2 k))

-- `|` of digits above a number, and of one digit in a gap of a number, is a sum.
or_above : (k a b : ℕ) → a < 2 ^ k → bit_or a (b * 2 ^ k) ≡ a + b * 2 ^ k
or_above zero zero b h = omega (arith, zero-or (b * 2 ^ 0))
or_above zero (suc a) b h = absurd (omega arith)
or_above (suc k) a b h =
    let half : b * 2 ^ suc k / 2 ≡ b * 2 ^ k = omega (arith, twice b k) in
    omega (
      arith,
      twice b k,
      or_step a (b * 2 ^ suc k),
      ap (bit_or (a / 2)) half,
      or_above k (a / 2) b (omega arith),
    )

or_between :
    (k a b c : ℕ)
    → a < 2 ^ k
    → b < 2
    → bit_or (a + c * 2 ^ suc k) (b * 2 ^ k) ≡ a + b * 2 ^ k + c * 2 ^ suc k
or_between zero (suc a) b c h l = absurd (omega arith)
or_between zero zero b c h l =
    let half : (0 + c * 2 ^ 1) / 2 ≡ c = omega arith in
    let none_left : b * 2 ^ 0 / 2 ≡ 0 = omega arith in
    omega (
      arith,
      or_step (0 + c * 2 ^ 1) (b * 2 ^ 0),
      ap (λ (x : ℕ). bit_or x (b * 2 ^ 0 / 2)) half,
      ap (bit_or c) none_left,
      or-zero c,
    )
or_between (suc k) a b c h l =
    let low : (a + c * 2 ^ suc (suc k)) / 2 ≡ a / 2 + c * 2 ^ suc k =
      omega (arith, twice c (suc k)) in
    let half : b * 2 ^ suc k / 2 ≡ b * 2 ^ k = omega (arith, twice b k) in
    omega (
      arith,
      twice b k,
      twice c (suc k),
      or_step (a + c * 2 ^ suc (suc k)) (b * 2 ^ suc k),
      ap (λ (x : ℕ). bit_or x (b * 2 ^ suc k / 2)) low,
      ap (bit_or (a / 2 + c * 2 ^ suc k)) half,
      or_between k (a / 2) b c (omega arith) l,
    )

-- The digits of two numbers in turn, and the digits at the odd and the even places.
unfoldable pub zip : ℕ → ℕ → ℕ → ℕ
zip zero x y = 0
zip (suc n) x y = x % 2 * 2 + y % 2 + 4 * zip n (x / 2) (y / 2)

unfoldable pub digits_from : ℕ → ℕ → ℕ
digits_from zero h = 0
digits_from (suc n) h = h % 2 + 2 * digits_from n (h / 4)

zip_odd : (n m x y : ℕ) → n ≤ m → x < 2 ^ n → digits_from m (zip n x y / 2) ≡ x
unfolding zip digits_from
zip_odd zero zero x y h l = omega arith
zip_odd zero (suc m) x y h l = omega (arith, zip_odd zero m x y (omega arith) l)
zip_odd (suc n) zero x y h l = absurd (omega arith)
zip_odd (suc n) (suc m) x y h l =
    let z : ℕ = zip n (x / 2) (y / 2) in
    let low : (x % 2 * 2 + y % 2 + 4 * z) / 2 / 4 ≡ z / 2 = omega arith in
    omega (arith, ap (digits_from m) low, zip_odd n m (x / 2) (y / 2) (omega arith) (omega arith))

zip_even : (n m x y : ℕ) → n ≤ m → y < 2 ^ n → digits_from m (zip n x y) ≡ y
unfolding zip digits_from
zip_even zero zero x y h l = omega arith
zip_even zero (suc m) x y h l = omega (arith, zip_even zero m x y (omega arith) l)
zip_even (suc n) zero x y h l = absurd (omega arith)
zip_even (suc n) (suc m) x y h l =
    let z : ℕ = zip n (x / 2) (y / 2) in
    let low : (x % 2 * 2 + y % 2 + 4 * z) / 4 ≡ z = omega arith in
    omega (arith, ap (digits_from m) low, zip_even n m (x / 2) (y / 2) (omega arith) (omega arith))

next_half : (x bit : ℕ) → x / 2 ^ suc bit ≡ x / 2 ^ bit / 2
next_half x bit = ap (λ (t : ℕ). x / t) (pow-suc 2 bit) ∙ sym (div-div-eq-div-mul x (2 ^ bit) 2)

next_place : (bit : ℕ) → 2 ^ (2 * suc bit) ≡ 4 * 2 ^ (2 * bit)
next_place bit =
    let two : 2 * suc bit ≡ suc (suc (2 * bit)) = omega arith in
    omega (arith, ap (λ (t : ℕ). 2 ^ t) two, pow-suc 2 (suc (2 * bit)), pow-suc 2 (2 * bit))

-- One round of the loop of `encode_coordinates`.
placed :
    (bit score xb yb : ℕ)
    → score < 2 ^ (2 * bit)
    → yb < 2
    → bit_or (bit_or score (xb * 2 ^ (2 * bit + 1))) (yb * 2 ^ (2 * bit))
      ≡ score + yb * 2 ^ (2 * bit) + xb * 2 ^ suc (2 * bit)
placed bit score xb yb l h =
    let one : 2 * bit + 1 ≡ suc (2 * bit) = omega arith in
    ap (λ (t : ℕ). bit_or (bit_or score (xb * 2 ^ t)) (yb * 2 ^ (2 * bit))) one
    ∙ ap (λ (t : ℕ). bit_or t (yb * 2 ^ (2 * bit)))
        (or_above (suc (2 * bit)) score xb (omega (arith, pow-suc 2 (2 * bit))))
    ∙ or_between (2 * bit) score yb xb l h

-- The loops of the code, from the bit that they have come to.
interleave_lem :
    (n bit x y score p : ℕ)
    → p ≡ 2 ^ (2 * bit)
    → score < p
    → interleave n bit x y score ≡ score + p * zip n (x / 2 ^ bit) (y / 2 ^ bit)
unfolding interleave zip
interleave_lem zero bit x y score p e l = omega arith
interleave_lem (suc n) bit x y score p e l =
    let xb : ℕ = x / 2 ^ bit % 2 in
    let yb : ℕ = y / 2 ^ bit % 2 in
    let s : ℕ = bit_or (bit_or score (xb * 2 ^ (2 * bit + 1))) (yb * 2 ^ (2 * bit)) in
    let round = placed bit score xb yb (omega (arith, e, l)) (omega arith) in
    let by_x = ap (λ (t : ℕ). xb * t) e in
    let by_y = ap (λ (t : ℕ). yb * t) e in
    let sum : s ≡ score + yb * p + xb * p * 2 =
      omega (arith, round, by_x, by_y, twice xb (2 * bit)) in
    let z : ℕ = zip n (x / 2 ^ bit / 2) (y / 2 ^ bit / 2) in
    let same : zip n (x / 2 ^ suc bit) (y / 2 ^ suc bit) ≡ z =
      (λ i. zip n (next_half x bit i) (next_half y bit i)) in
    let rest =
      interleave_lem n (suc bit) x y s (4 * p) (omega (arith, e, next_place bit))
        (grind (arith, sum, l)) in
    omega (arith, rest, sum, ap (λ (t : ℕ). 4 * p * t) same)

deinterleave_lem :
    (n bit hash x y : ℕ)
    → x < 2 ^ bit
    → y < 2 ^ bit
    → deinterleave n bit hash x y ≡ (
      x + 2 ^ bit * digits_from n (hash / 2 ^ (2 * bit) / 2),
      y + 2 ^ bit * digits_from n (hash / 2 ^ (2 * bit)),
    )
unfolding deinterleave digits_from
deinterleave_lem zero bit hash x y hx hy =
    let a : x ≡ x + 2 ^ bit * 0 = omega arith in
    let b : y ≡ y + 2 ^ bit * 0 = omega arith in λ i. (a i, b i)
deinterleave_lem (suc n) bit hash x y hx hy =
    let p : ℕ = 2 ^ bit in
    let h : ℕ = hash / 2 ^ (2 * bit) in
    let one : 2 * bit + 1 ≡ suc (2 * bit) = omega arith in
    let upper : hash / 2 ^ (2 * bit + 1) ≡ h / 2 =
      ap (λ (t : ℕ). hash / 2 ^ t) one ∙ next_half hash (2 * bit) in
    let four : hash / 2 ^ (2 * suc bit) ≡ h / 4 =
      ap (λ (t : ℕ). hash / t) (next_place bit ∙ mul_comm 4 (2 ^ (2 * bit)))
      ∙ sym (div-div-eq-div-mul hash (2 ^ (2 * bit)) 4) in
    let x' : ℕ = x + h / 2 % 2 * p in
    let y' : ℕ = y + h % 2 * p in
    let to_x : bit_or x (hash / 2 ^ (2 * bit + 1) % 2 * p) ≡ x' =
      ap (λ (t : ℕ). bit_or x (t % 2 * p)) upper ∙ or_above bit x (h / 2 % 2) hx in
    let to_y : bit_or y (hash / 2 ^ (2 * bit) % 2 * p) ≡ y' = or_above bit y (h % 2) hy in
    let swapped : h / 4 / 2 ≡ h / 2 / 4 = omega arith in
    let odd : digits_from n (hash / 2 ^ (2 * suc bit) / 2) ≡ digits_from n (h / 2 / 4) =
      ap (λ (t : ℕ). digits_from n (t / 2)) four ∙ ap (digits_from n) swapped in
    let even : digits_from n (hash / 2 ^ (2 * suc bit)) ≡ digits_from n (h / 4) =
      ap (digits_from n) four in
    let sum_x : x' + 2 ^ suc bit * digits_from n (hash / 2 ^ (2 * suc bit) / 2)
        ≡ x + p * (h / 2 % 2 + 2 * digits_from n (h / 2 / 4)) =
      ap (λ (t : ℕ). x' + 2 ^ suc bit * t) odd
      ∙ omega (arith, ap (λ (t : ℕ). t * digits_from n (h / 2 / 4)) (pow-suc 2 bit)) in
    let sum_y : y' + 2 ^ suc bit * digits_from n (hash / 2 ^ (2 * suc bit))
        ≡ y + p * (h % 2 + 2 * digits_from n (h / 4)) =
      ap (λ (t : ℕ). y' + 2 ^ suc bit * t) even
      ∙ omega (arith, ap (λ (t : ℕ). t * digits_from n (h / 4)) (pow-suc 2 bit)) in
    (λ i. deinterleave n (suc bit) hash (to_x i) (to_y i))
    ∙ deinterleave_lem n (suc bit) hash x' y' (grind (arith, hx, pow-suc 2 bit))
        (grind (arith, hy, pow-suc 2 bit))
    ∙ (λ i. (sum_x i, sum_y i))

zip-lt : (n x y p : ℕ) → p ≡ 4 ^ n → zip n x y < p
unfolding zip
zip-lt zero x y p e = omega (arith, e)
zip-lt (suc n) x y p e = omega (arith, e, pow-suc 4 n, zip-lt n (x / 2) (y / 2) (4 ^ n) refl)

cell_lem : (x y : ℕ) → cell x y ≡ zip 27 x y
unfolding cell
cell_lem x y =
    let whole_x : x / 2 ^ 0 ≡ x = omega arith in
    let whole_y : y / 2 ^ 0 ≡ y = omega arith in
    interleave_lem 27 0 x y 0 1 refl (omega arith)
    ∙ ap (λ (t : ℕ). 0 + 1 * t) (λ i. zip 27 (whole_x i) (whole_y i))
    ∙ omega arith

parts_lem : (h : ℕ) → cell_parts h ≡ (digits_from 32 (h / 2), digits_from 32 h)
unfolding cell_parts
parts_lem h =
    let whole : h / 2 ^ (2 * 0) ≡ h = omega arith in
    let a : 0 + 2 ^ 0 * digits_from 32 (h / 2 ^ (2 * 0) / 2) ≡ digits_from 32 (h / 2) =
      omega (arith, ap (λ (t : ℕ). digits_from 32 (t / 2)) whole) in
    let b : 0 + 2 ^ 0 * digits_from 32 (h / 2 ^ (2 * 0)) ≡ digits_from 32 h =
      omega (arith, ap (digits_from 32) whole) in
    deinterleave_lem 32 0 h 0 0 (omega arith) (omega arith) ∙ (λ i. (a i, b i))

-- Of a longitude and a latitude with cell numbers below 2^27, as those of the whole map are, the
-- loops of `encode_coordinates` make a number below 2^54 from which the loops of
-- `decode_coordinates` read both back.
pub cell_parts-cell :
    (x y : ℕ) → x < 2 ^ 27 → y < 2 ^ 27 → (cell_parts (cell x y) ≡ (x, y)) × (cell x y < 2 ^ 54)
cell_parts-cell x y hx hy =
    let a : digits_from 32 (zip 27 x y / 2) ≡ x = zip_odd 27 32 x y (omega arith) hx in
    let b : digits_from 32 (zip 27 x y) ≡ y = zip_even 27 32 x y (omega arith) hy in
    (
      ap cell_parts (cell_lem x y) ∙ parts_lem (zip 27 x y) ∙ (λ i. (a i, b i)),
      rw (cell_lem x y) (zip-lt 27 x y (2 ^ 54) refl),
    )
