-- ===== src/Streams/Keys.antt =====
-- The 16-byte keys: they are read back, and their byte order is the order of the IDs.
use native.Mathlib.Nat.{pow-suc}
use true_store.Base.{
  ℕ, zero, suc, ◌+◌, ◌*◌, ◌/◌, ◌%◌, ◌^◌, ◌<◌, ◌≡◌, refl, sym, ap, ◌∙◌, [], ◌∷◌, ◌++◌, arith, ltb,
  ◌==◌, if◌then◌else◌, length, take, drop, drop-append, take-append,
}
use true_store.Text.{Bytes, less}
use true_store.Store.Types.{StreamId}
use true_store.Streams.{write_be, read_be, encode_id, decode_id, id_less}

-- Both parts fit in 64 bits.
pub record Fits (id : StreamId) : Type 0 where
  pub ms : id.milliseconds < 2 ^ 64
  pub seq : id.sequence < 2 ^ 64

pub write_be-append :
    (n v : ℕ) (out rest : Bytes) → write_be n v out ++ rest ≡ write_be n v (out ++ rest)
unfolding write_be
write_be-append zero v out rest = refl
write_be-append (suc n) v out rest = write_be-append n (v / 256) ((v % 256) ∷ out) rest

length-write_be : (n v : ℕ) (out : Bytes) → length (write_be n v out) ≡ n + length out
unfolding write_be
length-write_be zero v out = omega arith
length-write_be (suc n) v out = omega (arith, length-write_be n (v / 256) ((v % 256) ∷ out))

read-write_be :
    (n v a : ℕ) (out : Bytes)
    → v < 256 ^ n
    → read_be a (write_be n v out) ≡ read_be (a * 256 ^ n + v) out
unfolding write_be read_be
read-write_be zero v a out h = ap (λ (k : ℕ). read_be k out) (omega arith)
read-write_be (suc n) v a out h =
    read-write_be n (v / 256) a ((v % 256) ∷ out) (omega (arith, pow-suc 256 n))
    ∙ ap (λ (k : ℕ). read_be k out) (rw (pow-suc 256 n) (omega arith))

less-write_be :
    (n a b : ℕ) (x y : Bytes)
    → a < 256 ^ n
    → b < 256 ^ n
    → less (write_be n a x) (write_be n b y) ≡ (if a == b then less x y else ltb a b)
unfolding write_be less
less-write_be zero a b x y h k = ground arith
less-write_be (suc n) a b x y h k =
    less-write_be n (a / 256) (b / 256) ((a % 256) ∷ x) ((b % 256) ∷ y)
      (omega (arith, pow-suc 256 n)) (omega (arith, pow-suc 256 n))
    ∙ ground arith

encode_parts :
    (id : StreamId) → encode_id id ≡ write_be 8 id.milliseconds (write_be 8 id.sequence [])
unfolding encode_id
encode_parts id = write_be-append 8 id.milliseconds [] (write_be 8 id.sequence [])

-- Keys compare as their IDs do: the order in which the radix tree walks its keys is the order of
-- the IDs whose parts fit in 64 bits.
pub less-encode_id :
    (a b : StreamId) → Fits a → Fits b → less (encode_id a) (encode_id b) ≡ id_less a b
unfolding id_less
less-encode_id a b h k =
    rw
      (
        encode_parts a,
        encode_parts b,
        less-write_be 8 a.milliseconds b.milliseconds (write_be 8 a.sequence [])
            (write_be 8 b.sequence []) h.ms k.ms,
        less-write_be 8 a.sequence b.sequence [] [] h.seq k.seq,
      )
      (unfold less in ground arith)

read_back : (n v : ℕ) → v < 256 ^ n → read_be 0 (write_be n v []) ≡ v
unfolding read_be
read_back n v h = read-write_be n v 0 [] h ∙ omega arith

-- An ID is read back from its key.
pub decode-encode_id : (id : StreamId) → Fits id → decode_id (encode_id id) ≡ id
unfolding decode_id encode_id
decode-encode_id id h = λ i. record { milliseconds = front i; sequence = back i }
  where
    ms : Bytes
    ms = write_be 8 id.milliseconds []

    seq : Bytes
    seq = write_be 8 id.sequence []

    eight : length ms ≡ 8
    eight = length-write_be 8 id.milliseconds []

    front : read_be 0 (take 8 (ms ++ seq)) ≡ id.milliseconds
    front =
        ap (λ (k : ℕ). read_be 0 (take k (ms ++ seq))) (sym eight)
        ∙ ap (read_be 0) (take-append ms seq)
        ∙ read_back 8 id.milliseconds h.ms

    back : read_be 0 (drop 8 (ms ++ seq)) ≡ id.sequence
    back =
        ap (λ (k : ℕ). read_be 0 (drop k (ms ++ seq))) (sym eight)
        ∙ ap (read_be 0) (drop-append ms seq)
        ∙ read_back 8 id.sequence h.seq
