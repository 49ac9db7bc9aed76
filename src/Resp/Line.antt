-- ===== src/Resp/Line.antt =====
-- Lines: a line that holds no CR is read up to its CRLF, and not before the CRLF is there.
use true_store.Base.{
  drop, ℕ, zero, suc, ◌+◌, ◌≤◌, ◌<◌, ◌≡◌, refl, ap, ◌≢◌, true, ◌&&◌, none, some, List, [], ◌∷◌,
  ◌++◌, arith, leb, length, take, All,
}
use true_store.Text.{Bytes, crlf}
use true_store.Resp.Parse.{read_till_crlf}

abbrev pub NoCr : Bytes → Type 0
NoCr = All (λ c. c ≢ 13)

pub digits-NoCr : (s : Bytes) → All (λ c. (leb 48 c && leb c 57) ≡ true) s → NoCr s
digits-NoCr [] h = tt
digits-NoCr (c ∷ s) h = (λ e. ground arith, digits-NoCr s h.1)

pub read_line :
    (line rest : Bytes)
    → NoCr line
    → read_till_crlf (line ++ (crlf ++ rest)) ≡ some (line, length line + 2)
unfolding read_till_crlf
read_line [] rest h = refl
read_line (c ∷ []) rest h = ground (arith, h.0)
read_line (c ∷ d ∷ line) rest h = ground (arith, h.0, read_line (d ∷ line) rest h.1)

pub unfinished_line :
    (k : ℕ) (line : Bytes)
    → NoCr line
    → k < length line + 2
    → read_till_crlf (take k (line ++ crlf)) ≡ none
unfolding read_till_crlf
unfinished_line zero line h lt = refl
unfinished_line (suc zero) [] h lt = refl
unfinished_line (suc (suc k)) [] h lt = absurd (omega arith)
unfinished_line (suc zero) (c ∷ line) h lt = refl
unfinished_line (suc (suc k)) (c ∷ []) h lt =
    ground (arith, h.0, unfinished_line (suc k) [] tt (omega arith))
unfinished_line (suc (suc k)) (c ∷ d ∷ line) h lt =
    ground (arith, h.0, unfinished_line (suc k) (d ∷ line) h.1 (omega arith))

module _ {ℓ} {A : Type ℓ} where
  pub take_inside : (k : ℕ) (xs ys : List A) → k ≤ length xs → take k (xs ++ ys) ≡ take k xs
  take_inside zero xs ys h = refl
  take_inside (suc k) [] ys h = absurd (omega arith)
  take_inside (suc k) (x ∷ xs) ys h = ap (◌∷◌ x) (take_inside k xs ys (omega arith))

  pub take_beyond :
      (k j : ℕ) (xs ys : List A) → k ≡ length xs + j → take k (xs ++ ys) ≡ xs ++ take j ys
  take_beyond k j [] ys e = ap (λ (n : ℕ). take n ys) (omega arith)
  take_beyond zero j (x ∷ xs) ys e = absurd (omega arith)
  take_beyond (suc k) j (x ∷ xs) ys e = ap (◌∷◌ x) (take_beyond k j xs ys (omega arith))

  pub drop_beyond : (k j : ℕ) (xs ys : List A) → k ≡ length xs + j → drop k (xs ++ ys) ≡ drop j ys
  drop_beyond k j [] ys e = ap (λ (n : ℕ). drop n ys) (omega arith)
  drop_beyond zero j (x ∷ xs) ys e = absurd (omega arith)
  drop_beyond (suc k) j (x ∷ xs) ys e = drop_beyond k j xs ys (omega arith)
