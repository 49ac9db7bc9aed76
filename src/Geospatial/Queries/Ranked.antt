-- ===== src/Geospatial/Queries/Ranked.antt =====
-- The results of GEOSEARCH: which members they are, and in which order.
use mathlib.Core.List.{Perm}
use mathlib.Core.List.Perm
use mathlib.Core.Path.{subst}
use true_store.Base.{
  ◌<◌, ◌≡◌, refl, sym, ap, ◌∙◌, inl, inr, Bool, true, false, List, [], ◌∷◌, arith, if◌then◌else◌,
  Bool-cases, take, All,
}
use true_store.Text.{Bytes}
use true_store.Platform.{Platform}
use true_store.SortedSets.Order.{DoubleLaws, lt_asym}
use true_store.Geospatial.{Coordinates}
use true_store.Geospatial.Queries.{
  Sorting, unsorted, ascending, descending, Query, Match, match_of, before, insert_match, sorted,
  order_of, shortened, ranked, search_around,
}
use true_store.Geospatial.Queries.Near.{
  near, near-placed, placed, in_radius, shortened_lem, All-take, found_by, found_lem, first_of_all,
}

module _ (P : Platform) where
  -- No match stands before one in front of it.
  unfoldable pub InOrder : Sorting → List (Match P.Double) → Type 0
  InOrder order [] = Unit
  InOrder order (m ∷ rest) = All (λ n. before P order n m ≡ false) rest × InOrder order rest

  insert-perm :
      (order : Sorting) (m : Match P.Double) (l : List (Match P.Double))
      → Perm (insert_match P order m l) (m ∷ l)
  unfolding insert_match
  insert-perm order m [] = Perm.rfl
  insert-perm order m (n ∷ rest) = elim (Bool-cases (before P order n m)) [
    | inl e ↦
        rw (e, insert_match)
          (Perm.trans (Perm.cons n (insert-perm order m rest)) (Perm.swap m n rest))
    | inr e ↦ rw (e, insert_match) Perm.rfl
  ]

  sorted-perm : (order : Sorting) (l : List (Match P.Double)) → Perm (sorted P order l) l
  unfolding sorted
  sorted-perm order [] = Perm.rfl
  sorted-perm order (m ∷ rest) =
      Perm.trans (insert-perm order m (sorted P order rest)) (Perm.cons m (sorted-perm order rest))

  All-insert {ℓ} :
      (Q : Match P.Double → Type ℓ) (order : Sorting) (m : Match P.Double)
      (l : List (Match P.Double))
      → Q m
      → All Q l
      → All Q (insert_match P order m l)
  unfolding insert_match
  All-insert Q order m [] q h = (q, tt)
  All-insert Q order m (n ∷ rest) q (x, h) = elim (Bool-cases (before P order n m)) [
    | inl e ↦ rw (e, insert_match) (x, All-insert Q order m rest q h)
    | inr e ↦ rw (e, insert_match) (q, (x, h))
  ]

  abbrev pub Numbers : List (Match P.Double) → Type 0
  Numbers = All (λ m. P.is_nan m.distance ≡ false)

  before_asym :
      (laws : DoubleLaws P.doubles) (order : Sorting) (a b : Match P.Double)
      → before P order a b ≡ true
      → before P order b a ≡ false
  unfolding before
  before_asym laws unsorted a b h = refl
  before_asym laws ascending a b h = lt_asym laws a.distance b.distance h
  before_asym laws descending a b h = lt_asym laws b.distance a.distance h

  before_split :
      (laws : DoubleLaws P.doubles) (order : Sorting) (m n x : Match P.Double)
      → P.is_nan n.distance ≡ false
      → before P order n m ≡ false
      → before P order x n ≡ false
      → before P order x m ≡ false
  unfolding before
  before_split laws unsorted m n x k h b = refl
  before_split laws ascending m n x k h b =
      ground (arith, h, b, laws.lt_split x.distance n.distance m.distance k)
  before_split laws descending m n x k h b =
      ground (arith, h, b, laws.lt_split m.distance n.distance x.distance k)

  -- What is not before a match is not before those that the match is not behind.
  behind-All :
      (laws : DoubleLaws P.doubles) (order : Sorting) (m n : Match P.Double)
      (rest : List (Match P.Double))
      → P.is_nan n.distance ≡ false
      → before P order n m ≡ false
      → All (λ x. before P order x n ≡ false) rest
      → All (λ x. before P order x m ≡ false) rest
  behind-All laws order m n [] k h a = tt
  behind-All laws order m n (x ∷ rest) k h (b, a) =
      (before_split laws order m n x k h b, behind-All laws order m n rest k h a)

  insert-InOrder :
      (laws : DoubleLaws P.doubles) (order : Sorting) (m : Match P.Double)
      (l : List (Match P.Double))
      → Numbers l
      → InOrder order l
      → InOrder order (insert_match P order m l)
  unfolding InOrder insert_match
  insert-InOrder laws order m [] k s = (tt, tt)
  insert-InOrder laws order m (n ∷ rest) (k, ks) (a, s) = elim (Bool-cases (before P order n m)) [
    | inl e ↦
        rw (e, insert_match)
          (
            All-insert (λ x. before P order x n ≡ false) order m rest (before_asym laws order n m e)
                a,
            insert-InOrder laws order m rest ks s,
          )
    | inr e ↦ rw (e, insert_match) ((e, behind-All laws order m n rest k e a), (a, s))
  ]

  sorted-Numbers :
      (order : Sorting) (l : List (Match P.Double)) → Numbers l → Numbers (sorted P order l)
  unfolding sorted
  sorted-Numbers order [] k = tt
  sorted-Numbers order (m ∷ rest) (k, ks) =
      All-insert _ order m (sorted P order rest) k (sorted-Numbers order rest ks)

  sorted-InOrder :
      (laws : DoubleLaws P.doubles) (order : Sorting) (l : List (Match P.Double))
      → Numbers l
      → InOrder order (sorted P order l)
  unfolding sorted InOrder
  sorted-InOrder laws order [] k = tt
  sorted-InOrder laws order (m ∷ rest) (k, ks) =
      insert-InOrder laws order m (sorted P order rest) (sorted-Numbers order rest ks)
        (sorted-InOrder laws order rest ks)

  unsorted-InOrder : (l : List (Match P.Double)) → InOrder unsorted l
  unfolding InOrder before
  unsorted-InOrder [] = tt
  unsorted-InOrder (m ∷ rest) = (none_before rest, unsorted-InOrder rest)
    where
      none_before : (l : List (Match P.Double)) → All (λ n. before P unsorted n m ≡ false) l
      none_before [] = tt
      none_before (n ∷ l) = (refl, none_before l)

  ranked_lem :
      (laws : DoubleLaws P.doubles) (q : Query P.Double) (matches : List (Match P.Double))
      → Numbers matches
      → (all : List (Match P.Double)) × Perm all matches
        × InOrder (order_of P q) all
        × (ranked P q matches ≡ first_of_all P q.count all)
  unfolding ranked
  ranked_lem laws q matches k = by_order (order_of P q)
    where
      by_order :
          (order : Sorting)
          → (all : List (Match P.Double)) × Perm all matches
            × InOrder order all
            × ((elim order as (λ x. List (Match P.Double)) [
              | unsorted ↦ shortened P q.count matches
              | ascending ↦ shortened P q.count (sorted P ascending matches)
              | descending ↦ shortened P q.count (sorted P descending matches)
            ])
                ≡ first_of_all P q.count all)
      by_order unsorted =
          (matches, Perm.rfl, unsorted-InOrder matches, shortened_lem P q.count matches)
      by_order ascending = (
        sorted P ascending matches,
        sorted-perm ascending matches,
        sorted-InOrder laws ascending matches k,
        shortened_lem P q.count _,
      )
      by_order descending = (
        sorted P descending matches,
        sorted-perm descending matches,
        sorted-InOrder laws descending matches k,
        shortened_lem P q.count _,
      )

  ranked_near :
      (laws : DoubleLaws P.doubles) (q : Query P.Double) (radius : P.Double)
      (center : Coordinates P.Double) (ordered : List (P.Double × Bytes))
      → (q.any ≡ true → 0 < q.count)
      → Numbers (near P (match_of P center radius q.unit) ordered)
      → let within = near P (match_of P center radius q.unit) ordered in
        (all : List (Match P.Double)) × Perm all (found_by P q within)
        × InOrder (order_of P q) all
        × (search_around P q radius center ordered ≡ first_of_all P q.count all)
  unfolding search_around
  ranked_near laws q radius center ordered positive k =
      let test = match_of P center radius q.unit in
      let (all, perm, order, whole) =
        ranked_lem laws q (found_by P q (near P test ordered)) (by_any q.any) in
      (all, perm, order, ap (ranked P q) (found_lem P q test ordered positive) ∙ whole)
    where
      by_any :
          (any : Bool)
          → Numbers (
              if any
              then take q.count (near P (match_of P center radius q.unit) ordered)
              else near P (match_of P center radius q.unit) ordered)
      by_any true = All-take P _ q.count _ k
      by_any false = k

  -- No match is nearer, or farther, than one in front of it.
  unfoldable pub Nearest : List (Match P.Double) → Type 0
  Nearest [] = Unit
  Nearest (m ∷ rest) = All (λ n. P.lt n.distance m.distance ≡ false) rest × Nearest rest

  unfoldable pub Farthest : List (Match P.Double) → Type 0
  Farthest [] = Unit
  Farthest (m ∷ rest) = All (λ n. P.lt m.distance n.distance ≡ false) rest × Farthest rest

  InOrder-Nearest : (l : List (Match P.Double)) → InOrder ascending l → Nearest l
  unfolding InOrder Nearest before
  InOrder-Nearest [] h = tt
  InOrder-Nearest (m ∷ rest) (a, h) = (a, InOrder-Nearest rest h)

  InOrder-Farthest : (l : List (Match P.Double)) → InOrder descending l → Farthest l
  unfolding InOrder Farthest before
  InOrder-Farthest [] h = tt
  InOrder-Farthest (m ∷ rest) (a, h) = (a, InOrder-Farthest rest h)

  order_requested :
      (q : Query P.Double)
      → (q.sort ≡ ascending → order_of P q ≡ ascending)
        × (q.sort ≡ descending → order_of P q ≡ descending)
        × (q.sort ≡ unsorted → q.any ≡ false → 0 < q.count → order_of P q ≡ ascending)
  unfolding order_of
  order_requested q = (
    (λ e. rw (e, order_of) refl),
    (λ e. rw (e, order_of) refl),
    λ e a c. rw (e, a, order_of) (ground (arith, c)),
  )

  -- The results of GEOSEARCH are the first COUNT ones (all, without COUNT) of an arrangement of the
  -- pairs of the set that have a position and whose distance in the requested unit does not exceed
  -- the radius; with ANY, of as many of these as COUNT says. The nearest come first with ASC, and
  -- with COUNT where neither an order nor ANY is requested; the farthest come first with DESC. The
  -- distances are numbers, and ANY comes with a COUNT.
  pub search_around_ranks :
      (laws : DoubleLaws P.doubles) (q : Query P.Double) (radius : P.Double)
      (center : Coordinates P.Double) (ordered : List (P.Double × Bytes))
      → (q.any ≡ true → 0 < q.count)
      → Numbers (in_radius P radius (placed P center q.unit ordered))
      → let within = in_radius P radius (placed P center q.unit ordered) in
        (all : List (Match P.Double)) × Perm all (found_by P q within)
        × (q.sort ≡ ascending → Nearest all)
        × (q.sort ≡ descending → Farthest all)
        × (q.sort ≡ unsorted → q.any ≡ false → 0 < q.count → Nearest all)
        × (search_around P q radius center ordered ≡ first_of_all P q.count all)
  search_around_ranks laws q radius center ordered positive k =
      let same = near-placed P center radius q.unit ordered in
      let (all, perm, order, whole) =
        ranked_near laws q radius center ordered positive (subst Numbers (sym same) k) in
      let (asc, desc, counted) = order_requested q in
      let by = λ (o : Sorting) (e : order_of P q ≡ o). subst (λ p. InOrder p all) e order in
      (
        all,
        subst (λ l. Perm all (found_by P q l)) same perm,
        λ e. InOrder-Nearest all (by ascending (asc e)),
        λ e. InOrder-Farthest all (by descending (desc e)),
        λ e a c. InOrder-Nearest all (by ascending (counted e a c)),
        whole,
      )
