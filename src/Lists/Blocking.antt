-- ===== src/Lists/Blocking.antt =====
-- BLPOP, its propagation, and waiters.
use true_store.Base.{
  ◌≡◌, refl, ap, ◌∙◌, inl, inr, false, Option, none, some, List, [], ◌∷◌, ◌++◌, arith, List-cases,
  All,
}
use true_store.Text.{Bytes, codes, ◌=ᵇ◌}
use true_store.Dict.{keys, find, find-insert, find-erase, find-insert_self, find-erase_self}
use true_store.Resp.{bulk_string, to_bytes}
use true_store.Platform.{Platform}
use true_store.Store.Types.{Store}
use true_store.Store.{queue_propagation}
use true_store.Lists.{store_rest, pop_one, handle_lpop, try_blpop}
use true_store.Lists.Queue.{elements}

-- What a key holds of a list: an empty one is not kept.
abbrev pub kept : List Bytes → Option (List Bytes)
kept [] = none
kept (value ∷ rest) = some (value ∷ rest)

-- From the store `s`, one element has been taken from the front of the list of a key: what is left
-- is under the key, or the key is gone with the last element; the lists of other keys are as they
-- were. Beside that, one command has been queued behind those that were there.
pub record Popped {P : Platform} (s : Store P) (key value : Bytes) (t : Store P) : Type 0 where
  pub rest : List Bytes
  pub taken : elements s key ≡ value ∷ rest
  pub left : find key t.dynamic_vector ≡ kept rest
  pub others : (j : Bytes) → key =ᵇ j ≡ false → find j t.dynamic_vector ≡ find j s.dynamic_vector
  pub queued : t.pending_propagations ≡ s.pending_propagations ++ (codes "LPOP" ∷ key ∷ []) ∷ []
  pub same : t ≡ record s {
    dynamic_vector = t.dynamic_vector;
    pending_propagations = t.pending_propagations;
  }

taken-Popped :
    {P : Platform} (key value : Bytes) (rest : List Bytes) (s : Store P)
    → elements s key ≡ value ∷ rest
    → Popped s key value (
        queue_propagation
          (codes "LPOP" ∷ key ∷ [])
          (record s { dynamic_vector = store_rest key rest s.dynamic_vector }))
unfolding queue_propagation
taken-Popped key value rest s e = record {
  rest = rest;
  taken = e;
  left = left_under rest;
  others = λ j o. others_under j rest o;
  queued = refl;
  same = refl;
}
  where
    left_under : (rest : List Bytes) → find key (store_rest key rest s.dynamic_vector) ≡ kept rest
    left_under [] = unfold store_rest in find-erase_self key s.dynamic_vector
    left_under (v ∷ rest) = unfold store_rest in find-insert_self key (v ∷ rest) s.dynamic_vector

    others_under :
        (j : Bytes) (rest : List Bytes)
        → key =ᵇ j ≡ false
        → find j (store_rest key rest s.dynamic_vector) ≡ find j s.dynamic_vector
    others_under j [] o = unfold store_rest in find-erase j key s.dynamic_vector ∙ rw o refl
    others_under j (v ∷ rest) o =
        unfold store_rest in find-insert j key (v ∷ rest) s.dynamic_vector ∙ rw o refl

-- What a retry of BLPOP on these keys finds and leaves.
unfoldable pub Pops :
    {P : Platform} → Store P → List Bytes → Option (Bytes × Bytes) × Store P → Type 0
Pops s keys (none, t) = All (λ key. elements s key ≡ []) keys × (t ≡ s)
Pops s keys (some (key, value), t) =
    (front : List Bytes) × (back : List Bytes) × (keys ≡ front ++ key ∷ back)
    × All (λ j. elements s j ≡ []) front
    × Popped s key value t

later-Pops :
    {P : Platform} (key : Bytes) (keys : List Bytes) (s : Store P)
    (r : Option (Bytes × Bytes) × Store P)
    → elements s key ≡ []
    → Pops s keys r
    → Pops s (key ∷ keys) r
unfolding Pops
later-Pops key keys s (none, t) e (empty, same) = ((e, empty), same)
later-Pops key keys s (some (k, v), t) e (front, back, split, empty, popped) =
    (key ∷ front, back, ap (◌∷◌ key) split, (e, empty), popped)

-- The first key that has elements is popped: the keys in front of it have none, its first element is
-- returned with it, what is left of its list is under the key, which is gone with the last element,
-- the lists of other keys are as they were, and an LPOP of the key is queued. Where no key has
-- elements nothing changes. The rest of the store is as it was.
pub try_blpop-Pops :
    {P : Platform} (keys : List Bytes) (s : Store P) → Pops s keys (try_blpop keys s)
unfolding try_blpop Pops
try_blpop-Pops [] s = (tt, refl)
try_blpop-Pops (key ∷ keys) s = elim (List-cases (elements s key)) [
  | inl e ↦ rw (e, try_blpop) (later-Pops key keys s (try_blpop keys s) e (try_blpop-Pops keys s))
  | inr (value, rest, e) ↦ rw (e, try_blpop) ([], keys, refl, tt, taken-Popped key value rest s e)
]

replicates_here :
    {P : Platform} (k key v value : Bytes) (rest : List Bytes) (s t : Store P)
    → elements s k ≡ v ∷ rest
    → ◌≡◌ {A = Option (Bytes × Bytes) × Store P}
        (
          some (k, v),
          queue_propagation
              (codes "LPOP" ∷ k ∷ [])
              (record s { dynamic_vector = store_rest k rest s.dynamic_vector }),
        )
        (some (key, value), t)
    → (t.pending_propagations ≡ s.pending_propagations ++ (codes "LPOP" ∷ key ∷ []) ∷ [])
      × ((handle_lpop (codes "LPOP" ∷ key ∷ []) s).0 ≡ to_bytes (bulk_string value))
      × ((handle_lpop (codes "LPOP" ∷ key ∷ []) s).1.dynamic_vector ≡ t.dynamic_vector)
unfolding handle_lpop pop_one queue_propagation
replicates_here k key v value rest s t p e = ground arith

-- The command that BLPOP leaves for the replicas and the append-only file, run by LPOP on the store
-- as it was before, replies with the popped value and gives the same lists.
pub blpop_replicates :
    {P : Platform} (keys : List Bytes) (key value : Bytes) (s t : Store P)
    → try_blpop keys s ≡ (some (key, value), t)
    → (t.pending_propagations ≡ s.pending_propagations ++ (codes "LPOP" ∷ key ∷ []) ∷ [])
      × ((handle_lpop (codes "LPOP" ∷ key ∷ []) s).0 ≡ to_bytes (bulk_string value))
      × ((handle_lpop (codes "LPOP" ∷ key ∷ []) s).1.dynamic_vector ≡ t.dynamic_vector)
unfolding try_blpop handle_lpop pop_one queue_propagation
blpop_replicates [] key value s t e = cc
blpop_replicates (k ∷ ks) key value s t e = elim (List-cases (elements s k)) [
  | inl p ↦ blpop_replicates ks key value s t (rw (p, try_blpop) at e)
  | inr (v, rest, p) ↦ replicates_here k key v value rest s t p (rw (p, try_blpop) at e)
]
