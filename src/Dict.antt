-- ===== src/Dict.antt =====
-- `std::map` and `std::unordered_map` with string keys, as an association list that `insert` keeps
-- in key order: `find`, `operator[]` with an assignment, and `erase`.
pub mod Size
use true_store.Base.{
  ◌≡◌, refl, Bool, true, false, Option, none, some, List, [], ◌∷◌, map, arith, if◌then◌else◌,
}
use true_store.Text.{Bytes, ◌=ᵇ◌, less}
use true_store.Text.Equality.{eq_iff, eq_refl}

abbrev pub Dict {ℓ} : Type ℓ → Type ℓ
Dict V = List (Bytes × V)

abbrev pub is_some {ℓ} : {A : Type ℓ} → Option A → Bool
is_some none = false
is_some (some a) = true

module _ {ℓ} {V : Type ℓ} where
  unfoldable pub find : Bytes → Dict V → Option V
  unfolding ◌=ᵇ◌
  find k [] = none
  find k ((j, v) ∷ m) = if j =ᵇ k then some v else find k m

  -- `m[k] = v`.
  unfoldable pub insert : Bytes → V → Dict V → Dict V
  unfolding ◌=ᵇ◌ less
  insert k v [] = (k, v) ∷ []
  insert k v ((j, w) ∷ m) =
      let later = (j, w) ∷ insert k v m in
      if j =ᵇ k then (k, v) ∷ m else if less k j then (k, v) ∷ (j, w) ∷ m else later

  unfoldable pub erase : Bytes → Dict V → Dict V
  unfolding ◌=ᵇ◌
  erase k [] = []
  erase k ((j, v) ∷ m) = let rest = erase k m in if j =ᵇ k then rest else (j, v) ∷ rest

  abbrev pub contains : Bytes → Dict V → Bool
  contains k m = is_some (find k m)

  abbrev pub keys : Dict V → List Bytes
  keys = map (λ e. e.0)

  pub find-insert :
      (j k : Bytes) (v : V) (m : Dict V)
      → find j (insert k v m) ≡ (if k =ᵇ j then some v else find j m)
  unfolding find insert
  find-insert j k v [] = refl
  find-insert j k v ((i, w) ∷ m) =
      ground (arith, eq_iff k j, eq_iff i k, eq_iff i j, find-insert j k v m)

  pub find-erase :
      (j k : Bytes) (m : Dict V) → find j (erase k m) ≡ (if k =ᵇ j then none else find j m)
  unfolding find erase
  find-erase j k [] = ground arith
  find-erase j k ((i, w) ∷ m) = ground (arith, eq_iff k j, eq_iff i k, eq_iff i j, find-erase j k m)

  pub find-insert_self : (k : Bytes) (v : V) (m : Dict V) → find k (insert k v m) ≡ some v
  find-insert_self k v m = rw (find-insert k k v m, eq_refl k)

  pub find-erase_self : (k : Bytes) (m : Dict V) → find k (erase k m) ≡ none
  find-erase_self k m = rw (find-erase k k m, eq_refl k)

pub ruleset dict_laws = (find-insert, find-erase, eq_refl)
