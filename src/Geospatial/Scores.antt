-- ===== src/Geospatial/Scores.antt =====
-- What GEOADD makes of the scores of a set, with its flags.
use true_store.Base.{◌≡◌, true, Option, none, some, List, [], ◌∷◌, if◌then◌else◌}
use true_store.Text.{Bytes, ◌=ᵇ◌}
use true_store.Dict.{find}
use true_store.Platform.{Doubles}
use true_store.Store.Types.{SortedSet}
use true_store.SortedSets.{add}
use true_store.Geospatial.{Flags, passes, equal_score}

module _ (D : Doubles) where
  -- Both have no score, or scores that are equal as numbers.
  abbrev pub SameScore : Option D.Double → Option D.Double → Type 0
  SameScore none none = Unit
  SameScore (some a) (some b) = equal_score D a b ≡ true
  SameScore none (some b) = ⊥
  SameScore (some a) none = ⊥

  -- The score of the last entry of a member, and the old one without an entry.
  unfoldable pub last_score : Bytes → List (D.Double × Bytes) → Option D.Double → Option D.Double
  last_score j [] old = old
  last_score j ((score, member) ∷ rest) old =
      last_score j rest (if member =ᵇ j then some score else old)

  -- One round: the set behind it.
  abbrev after : Flags → D.Double → Bytes → SortedSet D.Double → SortedSet D.Double
  after f score member zset =
      if passes D f score (find member zset.scores) then zset else (add D score member zset).1
