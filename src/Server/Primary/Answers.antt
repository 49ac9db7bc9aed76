-- ===== src/Server/Primary/Answers.antt =====
-- The answers to a stream from a primary, and the offsets in it.
use true_store.Base.{
  ℕ, suc, ◌+◌, ◌^◌, ◌<◌, ◌≡◌, refl, ap, ◌∙◌, Bool, true, false, inl, inr, List, [], ◌∷◌, ◌++◌,
  append_assoc, if◌then◌else◌, Bool-cases, arith, length, length-append, pos, ◌+ℤ◌, wrap_i64,
  wrap_i64_fits,
}
use true_store.Text.{Bytes}
use true_store.Resp.{command_bytes}
use true_store.Aof.{printed}
use true_store.Aof.Log.{printed-append}
use true_store.Server.Primary.{is_getack, ack_of, advance}

-- The answers to the commands of a stream, when so many bytes stand in front of them.
unfoldable pub answers : ℕ → List (List Bytes) → List Bytes
answers n [] = []
answers n (args ∷ commands) =
    let rest = answers (n + length (command_bytes args)) commands in
    if is_getack args then ack_of (pos n) ∷ rest else rest

-- How many of the commands are not requests for an answer.
unfoldable pub run_count : List (List Bytes) → ℕ
run_count [] = 0
run_count (args ∷ commands) =
    let rest = run_count commands in if is_getack args then rest else suc rest

pub answers-append :
    (n : ℕ) (front back : List (List Bytes))
    → answers n (front ++ back) ≡ answers n front ++ answers (n + length (printed front)) back
unfolding answers printed
answers-append n [] back = ap (λ (k : ℕ). answers k back) (omega arith)
answers-append n (args ∷ front) back =
    let k = length (command_bytes args) in
    let rest =
      answers-append (n + k) front back
      ∙ ap (λ (m : ℕ). answers (n + k) front ++ answers m back)
          (omega (arith, length-append (command_bytes args) (printed front))) in
    elim (Bool-cases (is_getack args)) [
      | inl g ↦ rw g (ap (◌∷◌ (ack_of (pos n))) rest)
      | inr g ↦ rw g rest
    ]

pub run_count-append :
    (front back : List (List Bytes)) → run_count (front ++ back) ≡ run_count front + run_count back
unfolding run_count
run_count-append [] back = omega arith
run_count-append (args ∷ front) back = ground (arith, run_count-append front back)

pub front_back :
    (front back : List (List Bytes))
    → length (printed (front ++ back)) ≡ length (printed front) + length (printed back)
front_back front back =
    ap (length {A = ℕ}) (printed-append front back) ∙ length-append (printed front) (printed back)

pub advance_fits : (o n : ℕ) → o + n < 2 ^ 63 → advance (pos o) n ≡ pos (o + n)
unfolding advance
advance_fits o n h = ap wrap_i64 total ∙ wrap_i64_fits (o + n) (omega (arith, h))
  where
    total : pos o +ℤ pos n ≡ pos (o + n)
    total = ground arith

pub joined_answers :
    (asked : Bool) (acks : List Bytes) (ack : Bytes) (rest : List Bytes)
    → (if asked then acks ++ ack ∷ [] else acks) ++ rest
      ≡ acks ++ (if asked then ack ∷ rest else rest)
joined_answers true acks ack rest = append_assoc acks (ack ∷ []) rest
joined_answers false acks ack rest = refl
