-- ===== src/SortedSets/Order.antt =====
-- The order of a sorted set's pairs, from the laws of `<` on doubles.
use true_store.Base.{◌≡◌, inl, inr, true, false, List, [], ◌∷◌, arith, Bool-cases, All}
use true_store.Text.{Bytes}
use true_store.Text.Equality.{less_irrefl, less_trans, less_total}
use true_store.Platform.{Doubles}
use true_store.SortedSets.{pair_less, emplace, erase_pair}

-- What is relied on of `<`: a strict order, and a number that is not NaN stands on one side of any
-- gap.
pub record DoubleLaws (D : Doubles) : Type 0 where
  pub lt_irrefl : (a : D.Double) → D.lt a a ≡ false
  pub lt_trans : (a b c : D.Double) → D.lt a b ≡ true → D.lt b c ≡ true → D.lt a c ≡ true
  pub lt_split :
      (a b c : D.Double) → D.is_nan b ≡ false → D.lt a c ≡ true → D.lt a b ≡ false → D.lt b c ≡ true

module _ {D : Doubles} (laws : DoubleLaws D) where
  open laws use {lt_irrefl, lt_trans, lt_split}

  pub lt_asym : (a b : D.Double) → D.lt a b ≡ true → D.lt b a ≡ false
  lt_asym a b h = ground (arith, lt_trans a b a h, lt_irrefl a)

  pub pair_irrefl : (p : D.Double × Bytes) → pair_less D p p ≡ false
  unfolding pair_less
  pair_irrefl (a, m) = ground (arith, lt_irrefl a, less_irrefl m)

  pub pair_asym : (p q : D.Double × Bytes) → pair_less D p q ≡ true → pair_less D q p ≡ false
  unfolding pair_less
  pair_asym (a, m) (b, n) h =
      ground (arith, lt_asym a b, lt_asym b a, less_trans m n m, less_irrefl m)

  pub pair_trans :
      (p q r : D.Double × Bytes)
      → D.is_nan p.0 ≡ false
      → D.is_nan q.0 ≡ false
      → D.is_nan r.0 ≡ false
      → pair_less D p q ≡ true
      → pair_less D q r ≡ true
      → pair_less D p r ≡ true
  unfolding pair_less
  pair_trans (a, m) (b, n) (c, o) x y z h k = ground (
    arith,
    lt_trans a b c,
    lt_split a c b z,
    lt_split b a c x,
    lt_split a b c y,
    lt_split c b a y,
    lt_asym a b,
    lt_asym b c,
    lt_asym a c,
    less_trans m n o,
  )

  -- Pairs that are neither before nor behind one another have one member.
  pub pair_total :
      (p q : D.Double × Bytes) → pair_less D p q ≡ false → pair_less D q p ≡ false → p.1 ≡ q.1
  unfolding pair_less
  pair_total (a, m) (b, n) h k = ground (arith, less_total m n)

-- Every pair stands before all that follow.
abbrev pub IsSorted : (D : Doubles) → List (D.Double × Bytes) → Type 0
IsSorted D [] = Unit
IsSorted D (p ∷ l) = All (λ q. pair_less D p q ≡ true) l × IsSorted D l

abbrev pub NoNan : (D : Doubles) → List (D.Double × Bytes) → Type 0
NoNan D = All (λ p. D.is_nan p.0 ≡ false)

module _ (D : Doubles) where
  pub All-emplace {κ} :
      (Q : D.Double × Bytes → Type κ) (p : D.Double × Bytes) (l : List (D.Double × Bytes))
      → Q p
      → All Q l
      → All Q (emplace D p l)
  unfolding emplace
  All-emplace Q p [] h a = (h, tt)
  All-emplace Q p (q ∷ l) h (x, a) = elim (Bool-cases (pair_less D p q)) [
    | inl e ↦ rw e (h, (x, a))
    | inr e ↦ elim (Bool-cases (pair_less D q p)) [
      | inl f ↦ rw (e, f) (x, All-emplace Q p l h a)
      | inr f ↦ rw (e, f) (x, a)
    ]
  ]

  pub All-erase_pair {κ} :
      (Q : D.Double × Bytes → Type κ) (p : D.Double × Bytes) (l : List (D.Double × Bytes))
      → All Q l
      → All Q (erase_pair D p l)
  unfolding erase_pair
  All-erase_pair Q p [] a = tt
  All-erase_pair Q p (q ∷ l) (x, a) = elim (Bool-cases (pair_less D p q)) [
    | inl e ↦ rw e (x, a)
    | inr e ↦ elim (Bool-cases (pair_less D q p)) [
      | inl f ↦ rw (e, f) (x, All-erase_pair Q p l a)
      | inr f ↦ rw (e, f) a
    ]
  ]

  pub erase_pair-IsSorted :
      (p : D.Double × Bytes) (l : List (D.Double × Bytes))
      → IsSorted D l
      → IsSorted D (erase_pair D p l)
  unfolding erase_pair
  erase_pair-IsSorted p [] h = tt
  erase_pair-IsSorted p (q ∷ l) (a, h) = elim (Bool-cases (pair_less D p q)) [
    | inl e ↦ rw e (a, h)
    | inr e ↦ elim (Bool-cases (pair_less D q p)) [
      | inl f ↦ rw (e, f) (All-erase_pair _ p l a, erase_pair-IsSorted p l h)
      | inr f ↦ rw (e, f) h
    ]
  ]

module _ {D : Doubles} (laws : DoubleLaws D) where
  -- What stands behind `q` stands behind all that is before `q`.
  All-before :
      (p q : D.Double × Bytes) (l : List (D.Double × Bytes))
      → D.is_nan p.0 ≡ false
      → D.is_nan q.0 ≡ false
      → NoNan D l
      → pair_less D p q ≡ true
      → All (λ r. pair_less D q r ≡ true) l
      → All (λ r. pair_less D p r ≡ true) l
  All-before p q [] x y n h a = tt
  All-before p q (r ∷ l) x y (z, n) h (k, a) =
      (pair_trans laws p q r x y z h k, All-before p q l x y n h a)

  pub emplace-IsSorted :
      (p : D.Double × Bytes) (l : List (D.Double × Bytes))
      → D.is_nan p.0 ≡ false
      → NoNan D l
      → IsSorted D l
      → IsSorted D (emplace D p l)
  unfolding emplace
  emplace-IsSorted p [] x n h = (tt, tt)
  emplace-IsSorted p (q ∷ l) x (y, n) (a, h) = elim (Bool-cases (pair_less D p q)) [
    | inl e ↦ rw e ((e, All-before p q l x y n e a), (a, h))
    | inr e ↦ elim (Bool-cases (pair_less D q p)) [
      | inl f ↦ rw (e, f) (All-emplace D _ p l f a, emplace-IsSorted p l x n h)
      | inr f ↦ rw (e, f) (a, h)
    ]
  ]
