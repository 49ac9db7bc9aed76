-- ===== src/Geospatial/Queries/Near.antt =====
-- The matches that the loops of GEOSEARCH find, and how many of them are left.
use true_store.Base.{
  ℕ, zero, suc, ◌+◌, ◌≤◌, ◌<◌, ◌≡◌, refl, sym, ap, ◌∙◌, inl, inr, Bool, true, false, ◌&&◌, Option,
  none, some, List, [], ◌∷◌, arith, ltb, ◌==◌, if◌then◌else◌, Bool-cases, Option-cases, length,
  take, All, ==_iff,
}
use true_store.Text.{Bytes}
use true_store.Platform.{Platform}
use true_store.Geospatial.{Coordinates, decode_coordinates, distance_in_meters}
use true_store.Geospatial.Queries.{match_of, Query, Match, collect, shortened}

module _ (P : Platform) where
  -- All matches of the pairs, in the order of the pairs.
  unfoldable pub near :
      (P.Double × Bytes → Option (Match P.Double)) → List (P.Double × Bytes) → List (Match P.Double)
  near test [] = []
  near test (pair ∷ rest) = elim (test pair) [ none ↦ near test rest | some m ↦ m ∷ near test rest ]

  -- The pairs that have a position, each with its distance from the center in a unit.
  unfoldable pub placed :
      Coordinates P.Double → P.Double → List (P.Double × Bytes) → List (Match P.Double)
  placed center unit [] = []
  placed center unit ((score, member) ∷ rest) = elim (decode_coordinates P score) [
    | none ↦ placed center unit rest
    | some point ↦
        record {
          member = member;
          score = score;
          point = point;
          distance = P.divided_by (distance_in_meters P center point) unit;
        }
        ∷ placed center unit rest
  ]

  -- Those whose distance does not exceed the radius.
  unfoldable pub in_radius : P.Double → List (Match P.Double) → List (Match P.Double)
  in_radius radius [] = []
  in_radius radius (m ∷ rest) =
      let others = in_radius radius rest in if P.lt radius m.distance then others else m ∷ others

  -- The loop tests each pair as the two steps do.
  pub near-placed :
      (center : Coordinates P.Double) (radius unit : P.Double) (pairs : List (P.Double × Bytes))
      → near (match_of P center radius unit) pairs ≡ in_radius radius (placed center unit pairs)
  unfolding near placed in_radius match_of
  near-placed center radius unit [] = refl
  near-placed center radius unit ((score, member) ∷ rest) =
      elim (Option-cases (decode_coordinates P score)) [
        | inl e ↦ rw (e, near, placed, match_of) (near-placed center radius unit rest)
        | inr (point, e) ↦
            let distance = P.divided_by (distance_in_meters P center point) unit in
            let m : Match P.Double = record {
              member = member;
              score = score;
              point = point;
              distance = distance;
            } in
            elim (Bool-cases (P.lt radius distance)) [
              | inl far ↦
                  rw (e, far, near, placed, match_of, in_radius)
                    (near-placed center radius unit rest)
              | inr close ↦
                  rw (e, close, near, placed, match_of, in_radius)
                    (ap (◌∷◌ m) (near-placed center radius unit rest))
            ]
      ]

  collect_all :
      (test : P.Double × Bytes → Option (Match P.Double)) (limit found : ℕ)
      (pairs : List (P.Double × Bytes))
      → collect P test false limit found pairs ≡ near test pairs
  unfolding collect near
  collect_all test limit found [] = refl
  collect_all test limit found (pair ∷ rest) = elim (Option-cases (test pair)) [
    | inl e ↦ rw (e, collect, near) (collect_all test limit found rest)
    | inr (m, e) ↦ rw (e, collect, near) (ap (◌∷◌ m) (collect_all test limit (suc found) rest))
  ]

  -- With ANY the loop stops when it has `left` more matches.
  collect_some :
      (test : P.Double × Bytes → Option (Match P.Double)) (left found : ℕ)
      (pairs : List (P.Double × Bytes))
      → collect P test true (found + suc left) found pairs ≡ take (suc left) (near test pairs)
  unfolding collect near
  collect_some test left found [] = refl
  collect_some test left found (pair ∷ rest) = elim (Option-cases (test pair)) [
    | inl e ↦ rw (e, collect, near) (collect_some test left found rest)
    | inr (m, e) ↦
        rw (e, collect, near) (by_left left (λ l. collect_some test l (suc found) rest) m)
  ]
    where
      by_left :
          (left : ℕ)
          → ((l : ℕ)
              → collect P test true (suc found + suc l) (suc found) rest
                ≡ take (suc l) (near test rest))
          → (m : Match P.Double)
          → (elim (true && suc found == found + suc left) as (λ x. List (Match P.Double)) [
            | true ↦ m ∷ []
            | false ↦ m ∷ collect P test true (found + suc left) (suc found) rest
          ])
            ≡ m ∷ take left (near test rest)
      by_left zero later m =
          let last : (suc found == found + 1) ≡ true = (==_iff _ _).1 (omega arith) in rw last refl
      by_left (suc l) later m =
          let more : (suc found == found + suc (suc l)) ≡ false = ground arith in
          let limit : found + suc (suc l) ≡ suc found + suc l = omega arith in
          rw more (
            ap (λ (t : ℕ). m ∷ collect P test true t (suc found) rest) limit ∙ ap (◌∷◌ m) (later l))

  pub take_all : (n : ℕ) (l : List (Match P.Double)) → length l ≤ n → take n l ≡ l
  take_all zero [] h = refl
  take_all (suc n) [] h = refl
  take_all zero (m ∷ l) h = absurd (omega arith)
  take_all (suc n) (m ∷ l) h = ap (◌∷◌ m) (take_all n l (omega arith))

  -- `resize` where there are more, and all where there is no COUNT.
  abbrev pub first_of_all : ℕ → List (Match P.Double) → List (Match P.Double)
  first_of_all zero l = l
  first_of_all (suc n) l = take (suc n) l

  pub shortened_lem : (n : ℕ) (l : List (Match P.Double)) → shortened P n l ≡ first_of_all n l
  unfolding shortened
  shortened_lem zero l = refl
  shortened_lem (suc n) l =
      let positive : (suc n == 0) ≡ false = ground arith in
      elim (Bool-cases (ltb (suc n) (length l))) [
        | inl e ↦ rw (positive, e) refl
        | inr e ↦ rw (positive, e) (sym (take_all (suc n) l (ground (arith, e))))
      ]

  pub All-take {ℓ} :
      (Q : Match P.Double → Type ℓ) (n : ℕ) (l : List (Match P.Double)) → All Q l → All Q (take n l)
  All-take Q zero l h = tt
  All-take Q (suc n) [] h = tt
  All-take Q (suc n) (m ∷ l) (x, h) = (x, All-take Q n l h)

  -- The matches that the loop finds: with ANY it stops at the COUNT.
  abbrev pub found_by : Query P.Double → List (Match P.Double) → List (Match P.Double)
  found_by q matches = if q.any then take q.count matches else matches

  pub found_lem :
      (q : Query P.Double) (test : P.Double × Bytes → Option (Match P.Double))
      (pairs : List (P.Double × Bytes))
      → (q.any ≡ true → 0 < q.count)
      → collect P test q.any q.count 0 pairs ≡ found_by q (near test pairs)
  found_lem q test pairs positive = by_any q.any q.count positive
    where
      by_any :
          (any : Bool) (count : ℕ)
          → (any ≡ true → 0 < count)
          → collect P test any count 0 pairs
            ≡ (if any then take count (near test pairs) else near test pairs)
      by_any false count h = collect_all test count 0 pairs
      by_any true zero h = absurd (omega (arith, h refl))
      by_any true (suc n) h =
          ap (λ (t : ℕ). collect P test true t 0 pairs) (omega arith) ∙ collect_some test n 0 pairs
