-- ===== src/SortedSets/Stored.antt =====
-- The two indexes of every stored set agree, whatever ZADD and ZREM are sent.
use mathlib.Core.Option
use mathlib.Core.Path.{subst}
use true_store.Base.{
  ◌≡◌, refl, sym, inl, inr, false, Option, none, some, List, [], ◌∷◌, arith, Bool-cases,
  Option-cases, List-cases,
}
use true_store.Text.{Bytes, codes, ◌=ᵇ◌}
use true_store.Dict.{Dict, find, insert, find-insert, find-erase}
use true_store.Platform.{Platform, Doubles, Now}
use true_store.Store.Types.{SortedSet, Store}
use true_store.Store.{key_type}
use true_store.Store.Expiry.{is_expired-SameElsewhere}
use true_store.SortedSets.{set_or_empty, parse_score, read_entries}
use true_store.SortedSets.Order.{DoubleLaws, NoNan}
use true_store.SortedSets.Agree.{Agrees, empty-Agrees, add_all-Agrees, remove_all-Agrees}
use true_store.SortedSets.Commands.{
  store_set, wrong_sorted_set_type, zadd_entries, handle_zadd, zrem_members, handle_zrem,
}

module _ (D : Doubles) where
  score-number : (text : Bytes) (a : D.Double) → parse_score D text ≡ some a → D.is_nan a ≡ false
  unfolding parse_score
  score-number [] a e = cc
  score-number (c ∷ s) a e = ground arith

  -- The scores that ZADD reads are numbers.
  read_entries-NoNan :
      (words : List Bytes) (es : List (D.Double × Bytes))
      → read_entries D words ≡ some es
      → NoNan D es
  unfolding read_entries
  read_entries-NoNan [] es e = ground arith
  read_entries-NoNan (score ∷ []) es e = cc
  read_entries-NoNan (score ∷ member ∷ rest) es e =
      both (parse_score D score) (score-number score) (read_entries D rest)
        (read_entries-NoNan rest) es e
    where
      both :
          (v : Option D.Double)
          → ((a : D.Double) → v ≡ some a → D.is_nan a ≡ false)
          → (others : Option (List (D.Double × Bytes)))
          → ((l : List (D.Double × Bytes)) → others ≡ some l → NoNan D l)
          → (l : List (D.Double × Bytes))
          → (elim v [ none ↦ none | some value ↦ Option.map (λ es. (value, member) ∷ es) others ])
            ≡ some l
          → NoNan D l
      both none f others g l e = cc
      both (some a) f none g l e = cc
      both (some a) f (some es) g [] e = cc
      both (some a) f (some es) g ((b, m) ∷ l) e =
          (ground (arith, f a refl), ground (arith, g es refl))

-- Every set of a table has two indexes that agree.
abbrev pub AllAgree : (D : Doubles) → Dict (SortedSet D.Double) → Type 0
AllAgree D m = (j : Bytes) (zset : SortedSet D.Double) → find j m ≡ some zset → Agrees D zset

module _ {D : Doubles} (laws : DoubleLaws D) where
  pub set_or_empty-Agrees :
      (key : Bytes) (m : Dict (SortedSet D.Double))
      → AllAgree D m
      → Agrees D (set_or_empty D (find key m))
  set_or_empty-Agrees key m h = elim (Option-cases (find key m)) [
    | inl e ↦ rw e (empty-Agrees laws)
    | inr (zset, e) ↦ rw e (h key zset e)
  ]

  pub insert-AllAgree :
      (key : Bytes) (zset : SortedSet D.Double) (m : Dict (SortedSet D.Double))
      → Agrees D zset
      → AllAgree D m
      → AllAgree D (insert key zset m)
  insert-AllAgree key zset m a h j z e = elim (Bool-cases (key =ᵇ j)) [
    | inl hit ↦ subst (Agrees D) (some_eq (sym (rw (find-insert j key zset m, hit) at e))) a
    | inr miss ↦ h j z (rw (find-insert j key zset m, miss) at e)
  ]
    where
      some_eq : some z ≡ some zset → zset ≡ z
      some_eq p = cc

  store_set-AllAgree :
      (key : Bytes) (zset : SortedSet D.Double) (m : Dict (SortedSet D.Double))
      → Agrees D zset
      → AllAgree D m
      → AllAgree D (store_set D key zset m)
  unfolding store_set
  store_set-AllAgree key zset m a h = elim (List-cases zset.scores) [
    | inl e ↦ rw (e, store_set) (λ j z f. h j z (ground (arith, f, find-erase j key m)))
    | inr (x, xs, e) ↦ rw (e, store_set) (insert-AllAgree key zset m a h)
  ]

module _ {P : Platform} (laws : DoubleLaws P.doubles) (now : Now) where
  type-sorted_sets :
      (key : Bytes) (s : Store P) → (wrong_sorted_set_type now key s).1.sorted_sets ≡ s.sorted_sets
  unfolding wrong_sorted_set_type key_type
  type-sorted_sets key s = ground (arith, (is_expired-SameElsewhere now key s).sorted_sets)

  zadd_entries-AllAgree :
      (key : Bytes) (entries : Option (List (P.Double × Bytes))) (s : Store P)
      → ((es : List (P.Double × Bytes)) → entries ≡ some es → NoNan P.doubles es)
      → AllAgree P.doubles s.sorted_sets
      → AllAgree P.doubles (zadd_entries now key entries s).1.sorted_sets
  unfolding zadd_entries
  zadd_entries-AllAgree key none s n h = h
  zadd_entries-AllAgree key (some es) s n h =
      let t = (wrong_sorted_set_type now key s).1 in
      let kept : AllAgree P.doubles t.sorted_sets = rw (type-sorted_sets key s) h in
      ground (
        arith,
        kept,
        insert-AllAgree laws key _ t.sorted_sets
            (add_all-Agrees laws es _ (n es refl) (set_or_empty-Agrees laws key t.sorted_sets kept))
            kept,
      )

  zrem_members-AllAgree :
      (key : Bytes) (members : List Bytes) (s : Store P)
      → AllAgree P.doubles s.sorted_sets
      → AllAgree P.doubles (zrem_members now key members s).1.sorted_sets
  unfolding zrem_members
  zrem_members-AllAgree key members s h = elim (Option-cases (find key s.sorted_sets)) [
    | inl e ↦ rw (e, zrem_members) h
    | inr (zset, e) ↦
        rw (e, zrem_members)
          (store_set-AllAgree laws key _ s.sorted_sets
            (remove_all-Agrees laws members zset (h key zset e)) h)
  ]

  zrem_kept :
      (key member : Bytes) (rest : List Bytes) (s : Store P)
      → AllAgree P.doubles s.sorted_sets
      → AllAgree P.doubles (handle_zrem now (codes "ZREM" ∷ key ∷ member ∷ rest) s).1.sorted_sets
  unfolding handle_zrem
  zrem_kept key member rest s h =
      let t = (wrong_sorted_set_type now key s).1 in
      let kept : AllAgree P.doubles t.sorted_sets = rw (type-sorted_sets key s) h in
      ground (arith, kept, zrem_members-AllAgree key (member ∷ rest) t kept)

  -- ZADD and ZREM, with any arguments, leave every sorted set of the store with two indexes that
  -- agree, if they did before: what ZADD cannot read as a number, or reads as NaN, changes nothing.
  pub handlers-AllAgree :
      (args : List Bytes) (s : Store P)
      → AllAgree P.doubles s.sorted_sets
      → AllAgree P.doubles (handle_zadd now args s).1.sorted_sets
        × AllAgree P.doubles (handle_zrem now args s).1.sorted_sets
  unfolding handle_zadd handle_zrem
  handlers-AllAgree [] s h = (h, h)
  handlers-AllAgree (w ∷ []) s h = (h, h)
  handlers-AllAgree (w ∷ key ∷ []) s h = (h, h)
  handlers-AllAgree (w ∷ key ∷ member ∷ []) s h = (h, zrem_kept key member [] s h)
  handlers-AllAgree (w ∷ key ∷ score ∷ member ∷ rest) s h = (
    ground (
      arith,
      h,
      zadd_entries-AllAgree key (read_entries P.doubles (score ∷ member ∷ rest)) s
          (read_entries-NoNan P.doubles (score ∷ member ∷ rest)) h,
    ),
    zrem_kept key score (member ∷ rest) s h,
  )
