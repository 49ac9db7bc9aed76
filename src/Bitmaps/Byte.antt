-- ===== src/Bitmaps/Byte.antt =====
-- The bits of one byte, by evaluation over all bytes and places.
use Prim.Native.Nat.{bit_and, bit_or}
use true_store.Base.{
  ℕ, zero, suc, ◌+◌, ◌-◌, ◌*◌, ◌/◌, ◌%◌, ◌^◌, ◌≤◌, ◌<◌, ◌≡◌, refl, ◌∙◌, inl, inr, Bool, true, false,
  not, ◌&&◌, ◌||◌, arith, ltb, ◌==◌, if◌then◌else◌, ltb→lt, ==_iff, Bool-cases,
}
use true_store.Bitmaps.{bit_number, ones}

-- A test at every number under a bound, for tables that are evaluated.
unfoldable pub holds_under : ℕ → (ℕ → Bool) → Bool
holds_under zero test = true
holds_under (suc last) test = let rest = holds_under last test in rest && test last

pub both_true : (a b : Bool) → (a && b) ≡ true → (a ≡ true) × (b ≡ true)
both_true true b h = (refl, h)
both_true false b h = absurd (cc)

-- A table of which all entries hold is read at one place.
pub holds_at :
    (bound : ℕ) (test : ℕ → Bool) (place : ℕ)
    → holds_under bound test ≡ true
    → place < bound
    → test place ≡ true
unfolding holds_under
holds_at zero test place table inside = absurd (omega arith)
holds_at (suc last) test place table inside =
    let (rest, here) = both_true _ _ table in
    elim (Bool-cases (place == last)) [
      | inl e ↦ rw ((==_iff _ _).0 e) here
      | inr e ↦ holds_at last test place rest (ground (arith, e))
    ]

-- The bit of a byte at a place, the highest first.
abbrev pub bit_of : ℕ → ℕ → ℕ
bit_of byte place = byte / 2 ^ (7 - place) % 2

-- One byte, with the bit at the place `k` written and the bit at `j` read.
unfoldable pub read_written : ℕ → ℕ → ℕ → Bool
read_written k j b =
    (bit_of (bit_or b (128 / 2 ^ k)) j == (if k == j then 1 else bit_of b j))
    && ((bit_of (bit_and b (255 - 128 / 2 ^ k)) j == (if k == j then 0 else bit_of b j))
        && ((bit_and (b / 2 ^ (7 - j)) 1 == bit_of b j)
            && (((if bit_and b (128 / 2 ^ k) == 0 then 0 else 1) == bit_of b k)
                && (ltb (bit_or b (128 / 2 ^ k)) 256 && ltb (bit_and b (255 - 128 / 2 ^ k)) 256))))

written_table : holds_under 8 (λ k. holds_under 8 (λ j. holds_under 256 (read_written k j))) ≡ true
unfolding holds_under read_written
written_table = refl

pub written : (k j b : ℕ) → k < 8 → j < 8 → b < 256 → read_written k j b ≡ true
written k j b hk hj hb =
    holds_at 256 _ b
      (holds_at 8 (λ j. holds_under 256 (read_written k j)) j
        (holds_at 8 (λ k. holds_under 8 (λ j. holds_under 256 (read_written k j))) k written_table
          hk)
        hj)
      hb

-- The number of ones in front of a place of a byte.
unfoldable pub ones_before : ℕ → ℕ → ℕ
ones_before b zero = 0
ones_before b (suc k) = ones_before b k + bit_of b k

-- Counting a byte between two places, both counted.
count_masked : ℕ → ℕ → ℕ → Bool
count_masked a c b =
    ltb (c + 1) a
    || (ones 32 (bit_and (bit_and b (255 / 2 ^ a)) (255 * 2 ^ (7 - c))) + ones_before b a
        == ones_before b (c + 1))

masked_table : holds_under 8 (λ a. holds_under 8 (λ c. holds_under 256 (count_masked a c))) ≡ true
unfolding holds_under count_masked ones ones_before
masked_table = refl

counted : (a c b : ℕ) → a < 8 → c < 8 → b < 256 → count_masked a c b ≡ true
counted a c b ha hc hb =
    holds_at 256 _ b
      (holds_at 8 (λ c. holds_under 256 (count_masked a c)) c
        (holds_at 8 (λ a. holds_under 8 (λ c. holds_under 256 (count_masked a c))) a masked_table
          ha)
        hc)
      hb

bit_number_test : (n : ℕ) → bit_number (not (n == 0)) ≡ (if n == 0 then 0 else 1)
bit_number_test n = elim (Bool-cases (n == 0)) [ inl e ↦ rw e refl | inr e ↦ rw e refl ]

-- One byte, written at the place `k`.
pub byte_written :
    (on : Bool) (k j b : ℕ)
    → k < 8
    → j < 8
    → b < 256
    → let new = (if on then bit_or b (128 / 2 ^ k) else bit_and b (255 - 128 / 2 ^ k)) in
      (bit_of new j ≡ (if k == j then bit_number on else bit_of b j))
      × (new < 256)
      × (bit_number (not (bit_and b (128 / 2 ^ k) == 0)) ≡ bit_of b k)
unfolding read_written
byte_written on k j b hk hj hb =
    let (set_on, r1) = both_true _ _ (written k j b hk hj hb) in
    let (set_off, r2) = both_true _ _ r1 in
    let (read, r3) = both_true _ _ r2 in
    let (old, r4) = both_true _ _ r3 in
    let (small_on, small_off) = both_true _ _ r4 in
    let previous = bit_number_test (bit_and b (128 / 2 ^ k)) ∙ (==_iff _ _).0 old in
    by_bit on (bit_of b j) ((==_iff _ _).0 set_on) ((==_iff _ _).0 set_off) (ltb→lt _ _ small_on)
      (ltb→lt _ _ small_off) previous
  where
    by_bit :
        (on : Bool) {x y : ℕ} (w : ℕ) {q : Type 0}
        → bit_of x j ≡ (if k == j then 1 else w)
        → bit_of y j ≡ (if k == j then 0 else w)
        → x < 256
        → y < 256
        → q
        → (bit_of (if on then x else y) j ≡ (if k == j then bit_number on else w))
          × ((if on then x else y) < 256)
          × q
    by_bit true w e f l m p = (e, l, p)
    by_bit false w e f l m p = (f, m, p)

-- A mask of a whole byte changes nothing.
mask_whole : ℕ → ℕ → Bool
mask_whole a b =
    (bit_and (bit_and b (255 / 2 ^ a)) 255 == bit_and b (255 / 2 ^ a)) && (bit_and b 255 == b)

whole_table : holds_under 8 (λ a. holds_under 256 (mask_whole a)) ≡ true
unfolding holds_under mask_whole
whole_table = refl

pub whole :
    (a b : ℕ)
    → a < 8
    → b < 256
    → (bit_and (bit_and b (255 / 2 ^ a)) 255 ≡ bit_and b (255 / 2 ^ a)) × (bit_and b 255 ≡ b)
unfolding mask_whole
whole a b ha hb =
    let (front, all) =
      both_true _ _
        (holds_at 256 _ b (holds_at 8 (λ a. holds_under 256 (mask_whole a)) a whole_table ha) hb) in
    ((==_iff _ _).0 front, (==_iff _ _).0 all)

pub counted_lem :
    (a c b : ℕ)
    → a < 8
    → c < 8
    → b < 256
    → a ≤ c + 1
    → ones 32 (bit_and (bit_and b (255 / 2 ^ a)) (255 * 2 ^ (7 - c))) + ones_before b a
      ≡ ones_before b (c + 1)
unfolding count_masked
counted_lem a c b ha hc hb h = elim (Bool-cases (ltb (c + 1) a)) [
  | inl e ↦ absurd (omega (arith, ltb→lt _ _ e))
  | inr e ↦ (==_iff _ _).0 (second (ltb (c + 1) a) _ e (counted a c b ha hc hb))
]
  where
    second : (x y : Bool) → x ≡ false → (x || y) ≡ true → y ≡ true
    second true y e h = absurd (cc)
    second false y e h = h
