-- ===== src/Lists/Range.antt =====
-- LRANGE against the elements by position.
use true_store.Base.{
  ℕ, zero, suc, ◌+◌, ◌-◌, ◌≤◌, ◌≡◌, refl, ap, none, List, [], ◌∷◌, arith, ltb, leb, if◌then◌else◌,
  length, get_elem?, take, drop, ℤ, pos, negsuc,
}
use true_store.Text.{Bytes}
use true_store.Lists.{from_front, slice}

module _ {ℓ} {A : Type ℓ} where
  pub get_elem?-take :
      (n : ℕ) (xs : List A) (i : ℕ)
      → get_elem? (take n xs) i ≡ (if ltb i n then get_elem? xs i else none)
  get_elem?-take zero xs i = ground arith
  get_elem?-take (suc n) [] i = ground arith
  get_elem?-take (suc n) (x ∷ xs) zero = ground arith
  get_elem?-take (suc n) (x ∷ xs) (suc i) = ground (arith, get_elem?-take n xs i)

  pub get_elem?-drop :
      (n : ℕ) (xs : List A) (i j : ℕ) → j ≡ n + i → get_elem? (drop n xs) i ≡ get_elem? xs j
  get_elem?-drop zero xs i j e = ap (get_elem? xs) (omega arith)
  get_elem?-drop (suc n) [] i j e = refl
  get_elem?-drop (suc n) (x ∷ xs) i zero e = absurd (omega arith)
  get_elem?-drop (suc n) (x ∷ xs) i (suc j) e = get_elem?-drop n xs i j (omega arith)

  pub get_elem?-none : (xs : List A) (i : ℕ) → length xs ≤ i → get_elem? xs i ≡ none
  get_elem?-none [] i h = refl
  get_elem?-none (x ∷ xs) zero h = absurd (omega arith)
  get_elem?-none (x ∷ xs) (suc i) h = get_elem?-none xs i (omega arith)

-- The i-th element of a range is the element that stands i places behind its start, as long as that
-- is not behind its stop; a negative index counts from the end, and one before the front is 0.
slice_elements :
    (list : List Bytes) (start stop : ℤ) (i : ℕ)
    → let first = from_front (length list) start in
      get_elem? (slice list start stop) i ≡ (
        if leb (first + i) (from_front (length list) stop)
        then get_elem? list (first + i)
        else none)
unfolding slice
slice_elements list start stop i =
    let first = from_front (length list) start in
    let last = from_front (length list) stop in
    let end : ℕ = if leb (length list) last then length list - 1 else last in
    ground (
      arith,
      get_elem?-none list (first + i),
      get_elem?-take (end + 1 - first) (drop first list) i,
      get_elem?-drop first list i (first + i) refl,
    )

take_all : (n : ℕ) (xs : List Bytes) → length xs ≤ n → take n xs ≡ xs
take_all zero [] h = refl
take_all zero (x ∷ xs) h = absurd (omega arith)
take_all (suc n) [] h = refl
take_all (suc n) (x ∷ xs) h = ap (◌∷◌ x) (take_all n xs (omega arith))

-- From 0 to -1 is the whole list.
pub slice_all : (list : List Bytes) → slice list (pos 0) (negsuc 0) ≡ list
unfolding slice from_front
slice_all [] = refl
slice_all (x ∷ xs) = ground (arith, take_all (length xs + 1) (x ∷ xs))
