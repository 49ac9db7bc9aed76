-- ===== src/Text/Equality.antt =====
-- Laws of string comparison.
use true_store.Base.{◌≡◌, refl, true, false, [], ◌∷◌, ◌↔◌, ◌≢◌, arith}
use true_store.Text.{Bytes, ◌=ᵇ◌, less}

eq-of : (s t : Bytes) → (s =ᵇ t) ≡ true → s ≡ t
unfolding ◌=ᵇ◌
eq-of [] [] h = refl
eq-of (a ∷ s) (b ∷ t) h = ground (arith, eq-of s t)
eq-of [] (b ∷ t) h = cc
eq-of (a ∷ s) [] h = cc

pub eq_refl : (s : Bytes) → (s =ᵇ s) ≡ true
unfolding ◌=ᵇ◌
eq_refl [] = refl
eq_refl (a ∷ s) = ground (arith, eq_refl s)

pub eq_iff : (s t : Bytes) → ((s =ᵇ t) ≡ true) ↔ (s ≡ t)
eq_iff s t = (eq-of s t, λ e. rw (← e) (eq_refl s))

pub eq_false : (s t : Bytes) → s ≢ t → (s =ᵇ t) ≡ false
eq_false s t h = ground (arith, eq_iff s t)

-- `<` is irreflexive, transitive and total on distinct strings.
pub less_irrefl : (s : Bytes) → less s s ≡ false
unfolding less
less_irrefl [] = refl
less_irrefl (a ∷ s) = ground (arith, less_irrefl s)

pub less_trans : (s t u : Bytes) → less s t ≡ true → less t u ≡ true → less s u ≡ true
unfolding less
less_trans [] [] u h k = cc
less_trans [] (b ∷ t) [] h k = cc
less_trans [] (b ∷ t) (c ∷ u) h k = refl
less_trans (a ∷ s) [] u h k = cc
less_trans (a ∷ s) (b ∷ t) [] h k = cc
less_trans (a ∷ s) (b ∷ t) (c ∷ u) h k = ground (arith, less_trans s t u)

pub less_total : (s t : Bytes) → less s t ≡ false → less t s ≡ false → s ≡ t
unfolding less
less_total [] [] h k = refl
less_total [] (b ∷ t) h k = cc
less_total (a ∷ s) [] h k = cc
less_total (a ∷ s) (b ∷ t) h k = ground (arith, less_total s t)
