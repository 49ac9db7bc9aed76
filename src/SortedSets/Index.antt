-- ===== src/SortedSets/Index.antt =====
use mathlib.Core.Path.{subst}
-- The ordered index as a map from members to scores, and the sizes of dictionaries.
use true_store.Base.{
  suc, ◌≡◌, refl, inl, inr, true, Option, none, some, List, [], ◌∷◌, arith, if◌then◌else◌,
  Bool-cases, length, All,
}
use true_store.Text.{Bytes, ◌=ᵇ◌}
use true_store.Text.Equality.{eq_iff}
use true_store.Platform.{Doubles}
use true_store.SortedSets.{pair_less, emplace, erase_pair}
use true_store.SortedSets.Order.{DoubleLaws, IsSorted, pair_irrefl, pair_asym, pair_total}

-- The score of the first pair with that member.
abbrev pub score_in : (D : Doubles) → Bytes → List (D.Double × Bytes) → Option D.Double
score_in D m [] = none
score_in D m ((a, n) ∷ l) = if n =ᵇ m then some a else score_in D m l

-- No member stands in two pairs.
abbrev pub IsDistinct : (D : Doubles) → List (D.Double × Bytes) → Type 0
IsDistinct D [] = Unit
IsDistinct D ((a, n) ∷ l) = (score_in D n l ≡ none) × IsDistinct D l

module _ {D : Doubles} (laws : DoubleLaws D) where
  pub score_in-emplace :
      (a : D.Double) (m j : Bytes) (l : List (D.Double × Bytes))
      → score_in D m l ≡ none
      → score_in D j (emplace D (a, m) l) ≡ (if m =ᵇ j then some a else score_in D j l)
  unfolding emplace
  score_in-emplace a m j [] h = refl
  score_in-emplace a m j ((b, n) ∷ l) h = ground (
    arith,
    score_in-emplace a m j l,
    pair_total laws (a, m) (b, n),
    eq_iff n m,
    eq_iff m j,
    eq_iff n j,
  )

  pub All-score_in :
      (Q : D.Double × Bytes → Type 0) (a : D.Double) (m : Bytes) (l : List (D.Double × Bytes))
      → score_in D m l ≡ some a
      → All Q l
      → Q (a, m)
  All-score_in Q a m [] e h = cc
  All-score_in Q a m ((b, n) ∷ l) e (x, h) = elim (Bool-cases (n =ᵇ m)) [
    | inl f ↦
        let p : b ≡ a = ground arith in
        let q : n ≡ m = (eq_iff n m).0 f in subst Q (λ i. (p i, q i)) x
    | inr f ↦ All-score_in Q a m l (rw f at e) h
  ]

  pub score_in-erase_pair :
      (a : D.Double) (m j : Bytes) (l : List (D.Double × Bytes))
      → score_in D m l ≡ some a
      → IsDistinct D l
      → IsSorted D l
      → score_in D j (erase_pair D (a, m) l) ≡ (if m =ᵇ j then none else score_in D j l)
  unfolding erase_pair
  score_in-erase_pair a m j [] e d s = cc
  score_in-erase_pair a m j ((b, n) ∷ l) e (x, d) (h, s) = elim (Bool-cases (n =ᵇ m)) [
    | inl f ↦ ground (arith, pair_irrefl laws (a, m), eq_iff n m, eq_iff m j, eq_iff n j)
    | inr f ↦
        let before : pair_less D (b, n) (a, m) ≡ true =
          All-score_in (λ q. pair_less D (b, n) q ≡ true) a m l (rw f at e) h in
        ground (
          arith,
          before,
          pair_asym laws (b, n) (a, m),
          score_in-erase_pair a m j l (rw f at e) d s,
          eq_iff n m,
          eq_iff m j,
          eq_iff n j,
        )
  ]

  pub emplace-IsDistinct :
      (a : D.Double) (m : Bytes) (l : List (D.Double × Bytes))
      → score_in D m l ≡ none
      → IsDistinct D l
      → IsDistinct D (emplace D (a, m) l)
  unfolding emplace
  emplace-IsDistinct a m [] h d = (h, tt)
  emplace-IsDistinct a m ((b, n) ∷ l) h (x, d) =
      ground (arith, emplace-IsDistinct a m l, score_in-emplace a m n l, eq_iff n m, eq_iff m n)

  -- Erasing brings no member in.
  erase_pair-absent :
      (p : D.Double × Bytes) (n : Bytes) (l : List (D.Double × Bytes))
      → score_in D n l ≡ none
      → score_in D n (erase_pair D p l) ≡ none
  unfolding erase_pair
  erase_pair-absent p n [] h = refl
  erase_pair-absent p n ((b, k) ∷ l) h = ground (arith, erase_pair-absent p n l)

  pub erase_pair-IsDistinct :
      (p : D.Double × Bytes) (l : List (D.Double × Bytes))
      → IsDistinct D l
      → IsDistinct D (erase_pair D p l)
  unfolding erase_pair
  erase_pair-IsDistinct p [] d = tt
  erase_pair-IsDistinct p ((b, n) ∷ l) (x, d) =
      ground (arith, erase_pair-absent p n l x, erase_pair-IsDistinct p l d)

  pub length-emplace :
      (a : D.Double) (m : Bytes) (l : List (D.Double × Bytes))
      → score_in D m l ≡ none
      → length (emplace D (a, m) l) ≡ suc (length l)
  unfolding emplace
  length-emplace a m [] h = refl
  length-emplace a m ((b, n) ∷ l) h =
      ground (arith, length-emplace a m l, pair_total laws (a, m) (b, n), eq_iff n m)

  pub length-erase_pair :
      (a : D.Double) (m : Bytes) (l : List (D.Double × Bytes))
      → score_in D m l ≡ some a
      → IsSorted D l
      → suc (length (erase_pair D (a, m) l)) ≡ length l
  unfolding erase_pair
  length-erase_pair a m [] e s = cc
  length-erase_pair a m ((b, n) ∷ l) e (h, s) = elim (Bool-cases (n =ᵇ m)) [
    | inl f ↦ ground (arith, pair_irrefl laws (a, m), eq_iff n m)
    | inr f ↦
        let before : pair_less D (b, n) (a, m) ≡ true =
          All-score_in (λ q. pair_less D (b, n) q ≡ true) a m l (rw f at e) h in
        ground (arith, before, pair_asym laws (b, n) (a, m), length-erase_pair a m l (rw f at e) s)
  ]
