-- ===== src/Dict/Size.antt =====
-- The number of entries of a dictionary whose keys stand in order.
use true_store.Base.{suc, ◌≡◌, refl, true, none, some, [], ◌∷◌, arith, length, All}
use true_store.Text.{Bytes, less}
use true_store.Text.Equality.{eq_iff, less_irrefl, less_trans, less_total}
use true_store.Dict.{Dict, find, insert, erase}

-- Every key stands before all that follow.
abbrev pub KeysSorted {ℓ} : {V : Type ℓ} → Dict V → Type 0
KeysSorted [] = Unit
KeysSorted ((k, v) ∷ m) = All (λ e. less k e.0 ≡ true) m × KeysSorted m

module _ {ℓ} {V : Type ℓ} where
  pub absent_below : (k : Bytes) (m : Dict V) → All (λ e. less k e.0 ≡ true) m → find k m ≡ none
  unfolding find
  absent_below k [] h = refl
  absent_below k ((j, v) ∷ m) (x, h) = ground (arith, absent_below k m h, eq_iff j k, less_irrefl k)

  pub All-below :
      (k j : Bytes) (m : Dict V)
      → less k j ≡ true
      → All (λ e. less j e.0 ≡ true) m
      → All (λ e. less k e.0 ≡ true) m
  All-below k j [] h a = tt
  All-below k j ((i, v) ∷ m) h (x, a) = (less_trans k j i h x, All-below k j m h a)

  All-insert :
      (j k : Bytes) (v : V) (m : Dict V)
      → less j k ≡ true
      → All (λ e. less j e.0 ≡ true) m
      → All (λ e. less j e.0 ≡ true) (insert k v m)
  unfolding insert
  All-insert j k v [] h a = (h, tt)
  All-insert j k v ((i, w) ∷ m) h (x, a) = ground (arith, All-insert j k v m h a)

  All-erase :
      (j k : Bytes) (m : Dict V)
      → All (λ e. less j e.0 ≡ true) m
      → All (λ e. less j e.0 ≡ true) (erase k m)
  unfolding erase
  All-erase j k [] a = tt
  All-erase j k ((i, w) ∷ m) (x, a) = ground (arith, All-erase j k m a)

  pub insert-KeysSorted :
      (k : Bytes) (v : V) (m : Dict V) → KeysSorted m → KeysSorted (insert k v m)
  unfolding insert
  insert-KeysSorted k v [] h = (tt, tt)
  insert-KeysSorted k v ((j, w) ∷ m) (a, h) = ground (
    arith,
    insert-KeysSorted k v m h,
    All-insert j k v m,
    All-below k j m,
    less_total k j,
    eq_iff j k,
  )

  pub erase-KeysSorted : (k : Bytes) (m : Dict V) → KeysSorted m → KeysSorted (erase k m)
  unfolding erase
  erase-KeysSorted k [] h = tt
  erase-KeysSorted k ((j, w) ∷ m) (a, h) = ground (arith, erase-KeysSorted k m h, All-erase j k m a)

  pub length-insert_absent :
      (k : Bytes) (v : V) (m : Dict V) → find k m ≡ none → length (insert k v m) ≡ suc (length m)
  unfolding insert find
  length-insert_absent k v [] h = refl
  length-insert_absent k v ((j, w) ∷ m) h = ground (arith, length-insert_absent k v m)

  pub length-insert_present :
      (k : Bytes) (v w : V) (m : Dict V)
      → KeysSorted m
      → find k m ≡ some w
      → length (insert k v m) ≡ length m
  unfolding insert find
  length-insert_present k v w [] s h = cc
  length-insert_present k v w ((j, u) ∷ m) (a, s) h =
      ground (arith, length-insert_present k v w m s, absent_below k m, All-below k j m)

  erase_absent : (k : Bytes) (m : Dict V) → find k m ≡ none → erase k m ≡ m
  unfolding erase find
  erase_absent k [] h = refl
  erase_absent k ((j, w) ∷ m) h = ground (arith, erase_absent k m)

  pub length-erase_present :
      (k : Bytes) (w : V) (m : Dict V)
      → KeysSorted m
      → find k m ≡ some w
      → suc (length (erase k m)) ≡ length m
  unfolding erase find
  length-erase_present k w [] s h = cc
  length-erase_present k w ((j, u) ∷ m) (a, s) h =
      ground (arith, length-erase_present k w m s, erase_absent k m, absent_below k m, eq_iff j k)
