-- ===== src/SortedSets/Rank.antt =====
-- ZRANK against the number of pairs in front.
use true_store.Base.{
  ℕ, suc, ◌≡◌, refl, ◌∙◌, inl, inr, true, some, List, [], ◌∷◌, arith, if◌then◌else◌, Bool-cases,
  All,
}
use true_store.Text.{Bytes, ◌=ᵇ◌}
use true_store.Text.Equality.{eq_iff}
use true_store.Dict.{find}
use true_store.Platform.{Doubles}
use true_store.Store.Types.{SortedSet}
use true_store.SortedSets.{pair_less, position, distance}
use true_store.SortedSets.Order.{DoubleLaws, IsSorted, pair_irrefl, pair_asym}
use true_store.SortedSets.Index.{score_in, All-score_in}
use true_store.SortedSets.Agree.{Agrees}

-- How many pairs stand before `p`, over the whole list.
unfoldable pub count_before : (D : Doubles) → D.Double × Bytes → List (D.Double × Bytes) → ℕ
count_before D p [] = 0
count_before D p (q ∷ l) = let n = count_before D p l in if pair_less D q p then suc n else n

module _ {D : Doubles} (laws : DoubleLaws D) where
  none_before :
      (p : D.Double × Bytes) (l : List (D.Double × Bytes))
      → All (λ q. pair_less D p q ≡ true) l
      → count_before D p l ≡ 0
  unfolding count_before
  none_before p [] h = refl
  none_before p (q ∷ l) (x, h) = ground (arith, none_before p l h, pair_asym laws p q)

  rank_position :
      (a : D.Double) (m : Bytes) (l : List (D.Double × Bytes))
      → score_in D m l ≡ some a
      → IsSorted D l
      → position D (a, m) l ≡ some (count_before D (a, m) l)
  unfolding position count_before
  rank_position a m [] e s = cc
  rank_position a m ((b, n) ∷ l) e (h, s) = elim (Bool-cases (n =ᵇ m)) [
    | inl f ↦ ground (arith, none_before (b, n) l h, pair_irrefl laws (a, m), eq_iff n m)
    | inr f ↦
        let before : pair_less D (b, n) (a, m) ≡ true =
          All-score_in laws (λ q. pair_less D (b, n) q ≡ true) a m l (rw f at e) h in
        ground (arith, before, pair_asym laws (b, n) (a, m), rank_position a m l (rw f at e) s)
  ]

  -- The rank of a member that has a score is the number of pairs in the set that stand before its
  -- own, by score and then by member.
  pub rank_counts :
      (m : Bytes) (a : D.Double) (zset : SortedSet D.Double)
      → Agrees D zset
      → find m zset.scores ≡ some a
      → distance D (position D (a, m) zset.ordered) zset.ordered
        ≡ count_before D (a, m) zset.ordered
  rank_counts m a zset v e = rw (rank_position a m zset.ordered (v.same m ∙ e) v.sorted)
