-- ===== src/SortedSets/Agree.antt =====
-- The two indexes of a sorted set agree, and `add` and `remove` keep them so.
use true_store.Base.{
  suc, ◌≡◌, refl, sym, ap, ◌∙◌, ◌≢◌, inl, inr, false, none, List, [], ◌∷◌, arith, Bool-cases,
  Option-cases, length,
}
use true_store.Text.{Bytes, ◌=ᵇ◌}
use true_store.Text.Equality.{eq_iff, eq_refl, eq_false}
use true_store.Dict.{find, insert, find-insert, find-erase}
use true_store.Platform.{Doubles}
use true_store.Dict.Size.{
  KeysSorted, insert-KeysSorted, erase-KeysSorted, length-insert_absent, length-insert_present,
  length-erase_present,
}
use true_store.Store.Types.{SortedSet}
use true_store.SortedSets.{emplace, erase_pair, add, remove, empty_set, add_all, remove_all}
use true_store.SortedSets.Order.{
  DoubleLaws, IsSorted, NoNan, All-emplace, All-erase_pair, emplace-IsSorted, erase_pair-IsSorted,
}
use true_store.SortedSets.Index.{
  score_in, IsDistinct, score_in-emplace, score_in-erase_pair, emplace-IsDistinct,
  erase_pair-IsDistinct, length-emplace, length-erase_pair,
}

pub record Agrees (D : Doubles) (zset : SortedSet D.Double) : Type 0 where
  -- The ordered index is in order, by score and then by member, and holds each member once.
  pub sorted : IsSorted D zset.ordered
  pub distinct : IsDistinct D zset.ordered
  pub no_nan : NoNan D zset.ordered
  -- Both indexes give each member the same score, or none.
  pub same : (m : Bytes) → score_in D m zset.ordered ≡ find m zset.scores
  pub keys_sorted : KeysSorted zset.scores
  pub sizes : length zset.ordered ≡ length zset.scores

module _ {D : Doubles} (laws : DoubleLaws D) where
  pub empty-Agrees : Agrees D (empty_set D)
  unfolding find
  empty-Agrees = record {
    sorted = tt;
    distinct = tt;
    no_nan = tt;
    same = λ m. refl;
    keys_sorted = tt;
    sizes = refl;
  }

  -- The state between the two halves of a move: the member has left the ordered index.
  emplace-Agrees :
      (a : D.Double) (m : Bytes) (l : List (D.Double × Bytes)) (zset : SortedSet D.Double)
      → D.is_nan a ≡ false
      → IsSorted D l
      → IsDistinct D l
      → NoNan D l
      → score_in D m l ≡ none
      → ((j : Bytes) → m ≢ j → score_in D j l ≡ find j zset.scores)
      → KeysSorted zset.scores
      → suc (length l) ≡ length (insert m a zset.scores)
      → Agrees D (record { scores = insert m a zset.scores; ordered = emplace D (a, m) l })
  emplace-Agrees a m l zset x s d n absent same k size = record {
    sorted = emplace-IsSorted laws (a, m) l x n s;
    distinct = emplace-IsDistinct laws a m l absent d;
    no_nan = All-emplace D (λ p. D.is_nan p.0 ≡ false) (a, m) l x n;
    same = λ j. score_in-emplace laws a m j l absent ∙ elim (Bool-cases (m =ᵇ j)) [
      | inl e ↦ ground (arith, find-insert j m a zset.scores)
      | inr e ↦
          ground (arith, find-insert j m a zset.scores, same j (λ p. ground (arith, eq_iff m j)))
    ];
    keys_sorted = insert-KeysSorted m a zset.scores k;
    sizes = length-emplace laws a m l absent ∙ size;
  }

  pub add-Agrees :
      (a : D.Double) (m : Bytes) (zset : SortedSet D.Double)
      → D.is_nan a ≡ false
      → Agrees D zset
      → Agrees D (add D a m zset).1
  unfolding add
  add-Agrees a m zset x v = elim (Option-cases (find m zset.scores)) [
    | inl e ↦
        rw (e, add)
          (emplace-Agrees a m zset.ordered zset x v.sorted v.distinct v.no_nan (v.same m ∙ e)
            (λ j _. v.same j) v.keys_sorted
            (ap suc v.sizes ∙ sym (length-insert_absent m a zset.scores e)))
    | inr (old, e) ↦
        rw (e, add)
          (emplace-Agrees a m (erase_pair D (old, m) zset.ordered) zset x
            (erase_pair-IsSorted D (old, m) zset.ordered v.sorted)
            (erase_pair-IsDistinct laws (old, m) zset.ordered v.distinct)
            (All-erase_pair D (λ p. D.is_nan p.0 ≡ false) (old, m) zset.ordered v.no_nan)
            (score_in-erase_pair laws old m m zset.ordered (v.same m ∙ e) v.distinct v.sorted
              ∙ rw (eq_refl m))
            (λ j ne.
              score_in-erase_pair laws old m j zset.ordered (v.same m ∙ e) v.distinct v.sorted
              ∙ rw (eq_false m j ne) (v.same j))
            v.keys_sorted
            (length-erase_pair laws old m zset.ordered (v.same m ∙ e) v.sorted
              ∙ v.sizes
              ∙ sym (length-insert_present m a old zset.scores v.keys_sorted e)))
  ]

  remove-Agrees :
      (m : Bytes) (zset : SortedSet D.Double) → Agrees D zset → Agrees D (remove D m zset).1
  unfolding remove
  remove-Agrees m zset v = elim (Option-cases (find m zset.scores)) [
    | inl e ↦ rw (e, remove) v
    | inr (a, e) ↦
        rw (e, remove)
          (record {
            sorted = erase_pair-IsSorted D (a, m) zset.ordered v.sorted;
            distinct = erase_pair-IsDistinct laws (a, m) zset.ordered v.distinct;
            no_nan = All-erase_pair D (λ p. D.is_nan p.0 ≡ false) (a, m) zset.ordered v.no_nan;
            same = λ j.
                score_in-erase_pair laws a m j zset.ordered (v.same m ∙ e) v.distinct v.sorted
                ∙ ground (arith, v.same j, find-erase j m zset.scores);
            keys_sorted = erase-KeysSorted m zset.scores v.keys_sorted;
            sizes = omega (
              arith,
              length-erase_pair laws a m zset.ordered (v.same m ∙ e) v.sorted,
              length-erase_present m a zset.scores v.keys_sorted e,
              v.sizes,
            );
          })
  ]

  pub add_all-Agrees :
      (es : List (D.Double × Bytes)) (zset : SortedSet D.Double)
      → NoNan D es
      → Agrees D zset
      → Agrees D (add_all D es zset).1
  unfolding add_all
  add_all-Agrees [] zset n v = v
  add_all-Agrees ((a, m) ∷ es) zset (x, n) v =
      add_all-Agrees es (add D a m zset).1 n (add-Agrees a m zset x v)

  pub remove_all-Agrees :
      (ms : List Bytes) (zset : SortedSet D.Double)
      → Agrees D zset
      → Agrees D (remove_all D ms zset).1
  unfolding remove_all
  remove_all-Agrees [] zset v = v
  remove_all-Agrees (m ∷ ms) zset v =
      remove_all-Agrees ms (remove D m zset).1 (remove-Agrees m zset v)

  -- The loops of ZADD, whose scores are not NaN, and of ZREM keep the two indexes of a set in
  -- agreement: one order by score and member with each member once, the same score in both, and
  -- equal sizes; and the empty set's agree.
  pub loops-Agrees :
      (es : List (D.Double × Bytes)) (ms : List Bytes) (zset : SortedSet D.Double)
      → NoNan D es
      → Agrees D zset
      → Agrees D (add_all D es zset).1 × Agrees D (remove_all D ms zset).1 × Agrees D (empty_set D)
  loops-Agrees es ms zset n v =
      (add_all-Agrees es zset n v, remove_all-Agrees ms zset v, empty-Agrees)
