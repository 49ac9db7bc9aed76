-- ===== src/Rdb/Consumed.antt =====
-- What the RDB reader returns is never longer than what it was given, and so the loop of `load_rdb`
-- ends.
use mathlib.Core.Path.{subst}
use true_store.Base.{
  ℕ, zero, suc, ◌+◌, ◌*◌, ◌/◌, ◌^◌, ◌≤◌, ◌≡◌, refl, ◌≢◌, inl, inr, Bool, true, false, not, Option,
  none, some, List, [], ◌∷◌, arith, ltb, ◌==◌, if◌then◌else◌, Bool-cases, length, take, length-drop,
}
use true_store.Text.{Bytes, codes, ◌=ᵇ◌}
use true_store.Rdb.{
  RdbResult, ok, thrown, ◌>>=◌, RdbEntry, read_byte, little_endian, big_endian, read_bytes,
  length_from, read_length, read_integer, read_string, Round, returned, continued, after_round,
  missing_header, load_round, load_loop, load_rdb,
}

-- What is left of `s` is no longer than `s`.
abbrev Shorter : {A : Type 0} → Bytes → RdbResult (A × Bytes) → Type 0
Shorter s (ok (a, rest)) = length rest ≤ length s
Shorter s (thrown e) = Unit

weaken-Shorter :
    {A : Type 0} (s rest : Bytes) (m : RdbResult (A × Bytes))
    → length rest ≤ length s
    → Shorter rest m
    → Shorter s m
weaken-Shorter s rest (thrown e) h k = tt
weaken-Shorter s rest (ok (b, r)) h k = omega (arith, h, k)

bind-Shorter :
    {A B : Type 0} (s : Bytes) (m : RdbResult (A × Bytes)) (f : A × Bytes → RdbResult (B × Bytes))
    → Shorter s m
    → ((a : A) (rest : Bytes) → Shorter rest (f (a, rest)))
    → Shorter s (m >>= f)
bind-Shorter s (thrown e) f h k = tt
bind-Shorter s (ok (a, rest)) f h k = weaken-Shorter s rest (f (a, rest)) h (k a rest)

read_byte-Shorter : (s : Bytes) → Shorter s (read_byte s)
unfolding read_byte
read_byte-Shorter [] = tt
read_byte-Shorter (c ∷ s) = omega arith

little_endian-Shorter : (n i value : ℕ) (s : Bytes) → Shorter s (little_endian n i value s)
unfolding little_endian
little_endian-Shorter zero i value s = omega arith
little_endian-Shorter (suc n) i value s =
    bind-Shorter s (read_byte s) _ (read_byte-Shorter s)
      (λ byte rest. little_endian-Shorter n (suc i) (value + byte * 256 ^ i) rest)

big_endian-Shorter : (n value : ℕ) (s : Bytes) → Shorter s (big_endian n value s)
unfolding big_endian
big_endian-Shorter zero value s = omega arith
big_endian-Shorter (suc n) value s =
    bind-Shorter s (read_byte s) _ (read_byte-Shorter s)
      (λ byte rest. big_endian-Shorter n (value * 256 + byte) rest)

read_bytes-Shorter : (n : ℕ) (s : Bytes) → Shorter s (read_bytes n s)
unfolding read_bytes
read_bytes-Shorter n s = elim (Bool-cases (ltb (length s) n)) [
  | inl e ↦ rw e tt
  | inr e ↦ rw e (omega (arith, length-drop n s))
]

if-Shorter :
    {A : Type 0} (b : Bool) (s : Bytes) (m n : RdbResult (A × Bytes))
    → Shorter s m
    → Shorter s n
    → Shorter s (if b then m else n)
if-Shorter true s m n h k = h
if-Shorter false s m n h k = k

length_from-Shorter : (first : ℕ) (s : Bytes) → Shorter s (length_from first s)
unfolding length_from
length_from-Shorter first s = if-Shorter (first / 64 == 0) s _ _ (omega arith) (
    if-Shorter (first / 64 == 1) s _ _
      (bind-Shorter s (read_byte s) _ (read_byte-Shorter s) (λ byte rest. omega arith))
      (if-Shorter (first == 128) s _ _ (big_endian-Shorter 4 0 s)
        (if-Shorter (first == 129) s _ _ (big_endian-Shorter 8 0 s) tt)))

read_length-Shorter : (s : Bytes) → Shorter s (read_length s)
unfolding read_length
read_length-Shorter s =
    bind-Shorter s (read_byte s) _ (read_byte-Shorter s)
      (λ first rest. length_from-Shorter first rest)

read_integer-Shorter : (n : ℕ) (s : Bytes) → Shorter s (read_integer n s)
unfolding read_integer
read_integer-Shorter n s =
    bind-Shorter s (little_endian n 0 0 s) _ (little_endian-Shorter n 0 0 s)
      (λ bits rest. omega arith)

read_string-Shorter : (s : Bytes) → Shorter s (read_string s)
unfolding read_string
read_string-Shorter [] = tt
read_string-Shorter (first ∷ s) =
    if-Shorter (not (first / 64 == 3)) (first ∷ s) _ _
      (bind-Shorter (first ∷ s) (read_length (first ∷ s)) _ (read_length-Shorter (first ∷ s))
        (λ count rest. read_bytes-Shorter count rest))
      (weaken-Shorter (first ∷ s) s _ (omega arith) (
        if-Shorter (first == 192) s _ _ (read_integer-Shorter 1 s) (
          if-Shorter (first == 193) s _ _ (read_integer-Shorter 2 s)
            (if-Shorter (first == 194) s _ _ (read_integer-Shorter 4 s) tt))))

-- What a round leaves for the next is no longer than `s`.
abbrev RoundShorter : Bytes → RdbResult Round → Type 0
RoundShorter s (ok (continued entries expire rest)) = length rest ≤ length s
RoundShorter s (ok (returned entries)) = Unit
RoundShorter s (thrown e) = Unit

bind-RoundShorter :
    {A : Type 0} (s : Bytes) (m : RdbResult (A × Bytes)) (f : A × Bytes → RdbResult Round)
    → Shorter s m
    → ((a : A) (rest : Bytes) → RoundShorter rest (f (a, rest)))
    → RoundShorter s (m >>= f)
bind-RoundShorter s (thrown e) f h k = tt
bind-RoundShorter s (ok (a, rest)) f h k = weaken (f (a, rest)) (k a rest)
  where
    weaken : (m : RdbResult Round) → RoundShorter rest m → RoundShorter s m
    weaken (thrown e) k = tt
    weaken (ok (returned entries)) k = tt
    weaken (ok (continued entries expire r)) k = omega (arith, h, k)

if-RoundShorter :
    (b : Bool) (s : Bytes) (m n : RdbResult Round)
    → RoundShorter s m
    → RoundShorter s n
    → RoundShorter s (if b then m else n)
if-RoundShorter true s m n h k = h
if-RoundShorter false s m n h k = k

load_round-RoundShorter :
    (entries : List RdbEntry) (expire : Option ℕ) (opcode : ℕ) (s : Bytes)
    → RoundShorter s (load_round entries expire opcode s)
unfolding load_round
load_round-RoundShorter entries expire opcode s =
    if-RoundShorter (opcode == 250) s _ _ (two_strings _ (λ x y rest. omega arith)) (
      if-RoundShorter (opcode == 254) s _ _
        (bind-RoundShorter s (read_length s) _ (read_length-Shorter s) (λ n rest. omega arith))
        (if-RoundShorter (opcode == 251) s _ _
          (bind-RoundShorter s (read_length s) _ (read_length-Shorter s) (λ n s1.
            bind-RoundShorter s1 (read_length s1) _ (read_length-Shorter s1)
              (λ m rest. omega arith)))
          (if-RoundShorter (opcode == 252) s _ _
            (bind-RoundShorter s (little_endian 8 0 0 s) _ (little_endian-Shorter 8 0 0 s)
              (λ ms rest. omega arith))
            (if-RoundShorter (opcode == 253) s _ _
              (bind-RoundShorter s (little_endian 4 0 0 s) _ (little_endian-Shorter 4 0 0 s)
                (λ ms rest. omega arith))
              (if-RoundShorter (opcode == 0) s _ _ (two_strings _ (λ x y rest. omega arith))
                (if-RoundShorter (opcode == 255) s _ _ tt tt))))))
  where
    two_strings :
        (f : Bytes → Bytes × Bytes → RdbResult Round)
        → ((x y : Bytes) (rest : Bytes) → RoundShorter rest (f x (y, rest)))
        → RoundShorter s (read_string s >>= λ (x, s1). read_string s1 >>= f x)
    two_strings f k =
        bind-RoundShorter s (read_string s) _ (read_string-Shorter s)
          (λ x s1. bind-RoundShorter s1 (read_string s1) _ (read_string-Shorter s1) (k x))

pub round_consumes :
    (entries : List RdbEntry) (expire : Option ℕ) (opcode : ℕ) (s : Bytes) {more : List RdbEntry}
    {ex : Option ℕ} {rest : Bytes}
    → load_round entries expire opcode s ≡ ok (continued more ex rest)
    → length rest ≤ length s
round_consumes entries expire opcode s e =
    subst (RoundShorter s) e (load_round-RoundShorter entries expire opcode s)

-- Once the fuel is the length of the bytes, more of it changes nothing.
pub load_loop-fuel :
    (n m : ℕ) (entries : List RdbEntry) (expire : Option ℕ) (s : Bytes)
    → length s ≤ n
    → length s ≤ m
    → load_loop n entries expire s ≡ load_loop m entries expire s
unfolding load_loop
load_loop-fuel n m entries expire [] h k = refl
load_loop-fuel zero m entries expire (c ∷ s) h k = absurd (omega arith)
load_loop-fuel (suc n) zero entries expire (c ∷ s) h k = absurd (omega arith)
load_loop-fuel (suc n) (suc m) entries expire (c ∷ s) h k =
    same (load_round entries expire c s) (load_round-RoundShorter entries expire c s)
      (λ more ex rest le. load_loop-fuel n m more ex rest (omega arith) (omega arith))
  where
    same :
        (r : RdbResult Round)
        → RoundShorter s r
        → ((more : List RdbEntry) (ex : Option ℕ) (rest : Bytes)
            → length rest ≤ length s
            → load_loop n more ex rest ≡ load_loop m more ex rest)
        → after_round (load_loop n) r ≡ after_round (load_loop m) r
    same (thrown e) le next = refl
    same (ok (returned all)) le next = refl
    same (ok (continued more ex rest)) le next = next more ex rest le

load_loop_ends :
    (n : ℕ) (entries : List RdbEntry) (expire : Option ℕ) (s : Bytes)
    → length s ≤ n
    → load_loop n entries expire s ≢ none
unfolding load_loop
load_loop_ends n entries expire [] h e = absurd (ground (arith, e))
load_loop_ends zero entries expire (c ∷ s) h e = absurd (omega arith)
load_loop_ends (suc n) entries expire (c ∷ s) h e =
    ends (load_round entries expire c s) (load_round-RoundShorter entries expire c s)
      (λ more ex rest le. load_loop_ends n more ex rest (omega arith)) e
  where
    ends :
        (r : RdbResult Round)
        → RoundShorter s r
        → ((more : List RdbEntry) (ex : Option ℕ) (rest : Bytes)
            → length rest ≤ length s
            → load_loop n more ex rest ≢ none)
        → after_round (load_loop n) r ≢ none
    ends (thrown e) le next eq = ground (arith, eq)
    ends (ok (returned all)) le next eq = ground (arith, eq)
    ends (ok (continued more ex rest)) le next eq = next more ex rest le eq

-- Whatever a file holds, `load_rdb` ends, with entries or with an exception.
pub load_rdb_ends : (file : Option Bytes) → load_rdb file ≢ none
unfolding load_rdb
load_rdb_ends none e = ground (arith, e)
load_rdb_ends (some file) e = headed (read_bytes 9 file) e
  where
    headed :
        (m : RdbResult (Bytes × Bytes))
        → (elim m [
          | thrown e ↦ some (thrown e)
          | ok (header, s) ↦
              if take 5 header =ᵇ codes "REDIS"
              then load_loop (length s) [] none s
              else some (thrown missing_header)
        ])
          ≢ none
    headed (thrown e) eq = ground (arith, eq)
    headed (ok (header, s)) eq =
        ground (arith, eq, load_loop_ends (length s) [] none s (omega arith))
