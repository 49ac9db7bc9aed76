-- ===== src/Rdb/Rounds.antt =====
-- The rounds of the loop of `load_rdb` over entries in the format of RDB files.
use true_store.Base.{
  ℕ, suc, ◌^◌, ◌<◌, ◌≡◌, refl, sym, ap, ◌∙◌, Option, none, some, List, [], ◌∷◌, ◌++◌, append_assoc,
  append-nil, arith, length, All,
}
use true_store.Text.{Bytes}
use true_store.Rdb.Consumed.{load_loop-fuel, round_consumes}
use true_store.Rdb.Encoding.{write_le, encode_string, little_endian-write_le, read_string-encode}
use true_store.Rdb.{RdbResult, ok, RdbEntry, continued, after_round, load_round, load_loop}

-- An entry as the format has it: its deadline, if it has one, and the key and the value.
unfoldable pub encode_deadline : Option ℕ → Bytes
encode_deadline none = []
encode_deadline (some ms) = 252 ∷ write_le 8 ms

unfoldable pub encode_entry : RdbEntry → Bytes
encode_entry entry =
    encode_deadline entry.expire_at_ms ++ 0 ∷ (encode_string entry.key ++ encode_string entry.value)

unfoldable pub encode_entries : List RdbEntry → Bytes
encode_entries [] = []
encode_entries (entry ∷ entries) = encode_entry entry ++ encode_entries entries

-- An entry whose deadline and lengths fit in 64 bits.
abbrev DeadlineFits : Option ℕ → Type 0
DeadlineFits none = Unit
DeadlineFits (some ms) = ms < 2 ^ 64

abbrev pub Fits : RdbEntry → Type 0
Fits entry =
    (length entry.key < 2 ^ 64) × (length entry.value < 2 ^ 64) × DeadlineFits entry.expire_at_ms

-- The loop with as much fuel as there are bytes.
abbrev pub load : List RdbEntry → Option ℕ → Bytes → Option (RdbResult (List RdbEntry))
load entries expire s = load_loop (length s) entries expire s

pub load_loop_round :
    (n : ℕ) (entries : List RdbEntry) (expire : Option ℕ) (opcode : ℕ) (s : Bytes)
    → load_loop (suc n) entries expire (opcode ∷ s)
      ≡ after_round (load_loop n) (load_round entries expire opcode s)
unfolding load_loop
load_loop_round n entries expire opcode s = refl

-- One round of the loop.
pub load_next :
    (entries : List RdbEntry) (expire : Option ℕ) (opcode : ℕ) (s : Bytes) {more : List RdbEntry}
    {ex : Option ℕ} {rest : Bytes}
    → load_round entries expire opcode s ≡ ok (continued more ex rest)
    → load entries expire (opcode ∷ s) ≡ load more ex rest
load_next entries expire opcode s {more} {ex} {rest} e =
    ap (λ (n : ℕ). load_loop n entries expire (opcode ∷ s)) count
    ∙ load_loop_round (length s) entries expire opcode s
    ∙ ap (after_round (load_loop (length s))) e
    ∙ load_loop-fuel (length s) (length rest) more ex rest
        (round_consumes entries expire opcode s e) (omega arith)
  where
    count : length (opcode ∷ s) ≡ suc (length s)
    count = omega arith

round_strings :
    (entries : List RdbEntry) (expire : Option ℕ) (key value tail : Bytes)
    → length key < 2 ^ 64
    → length value < 2 ^ 64
    → let entry : RdbEntry = record { key = key; value = value; expire_at_ms = expire } in
      load_round entries expire 0 ((encode_string key ++ encode_string value) ++ tail)
      ≡ ok (continued (entries ++ entry ∷ []) none tail)
unfolding load_round
round_strings entries expire key value tail hk hv =
    rw
      (
        append_assoc (encode_string key) (encode_string value) tail,
        read_string-encode key (encode_string value ++ tail) hk,
        read_string-encode value tail hv,
      )
      refl

round_deadline :
    (entries : List RdbEntry) (expire : Option ℕ) (ms : ℕ) (tail : Bytes)
    → ms < 2 ^ 64
    → load_round entries expire 252 (write_le 8 ms ++ tail) ≡ ok (continued entries (some ms) tail)
unfolding load_round
round_deadline entries expire ms tail h =
    rw (little_endian-write_le 8 0 0 ms tail h)
      (ap (λ (n : ℕ). ok (continued entries (some n) tail)) (omega arith))

load_one_entry :
    (entries : List RdbEntry) (entry : RdbEntry) (tail : Bytes)
    → Fits entry
    → load entries none (encode_entry entry ++ tail) ≡ load (entries ++ entry ∷ []) none tail
unfolding encode_entry encode_deadline
load_one_entry entries entry tail (hk, hv, hd) = deadline entry.expire_at_ms hd
  where
    body : Bytes
    body = encode_string entry.key ++ encode_string entry.value

    deadline :
        (expire : Option ℕ)
        → DeadlineFits expire
        → load entries none ((encode_deadline expire ++ 0 ∷ body) ++ tail)
          ≡ load
              (entries
                ++ record { key = entry.key; value = entry.value; expire_at_ms = expire } ∷ [])
              none
              tail
    deadline none h =
        load_next entries none 0 (body ++ tail)
          (round_strings entries none entry.key entry.value tail hk hv)
    deadline (some ms) h =
        ap (load entries none) (ap (◌∷◌ 252) (append_assoc (write_le 8 ms) (0 ∷ body) tail))
        ∙ load_next entries none 252 (write_le 8 ms ++ 0 ∷ (body ++ tail))
            (round_deadline entries none ms (0 ∷ (body ++ tail)) h)
        ∙ load_next entries (some ms) 0 (body ++ tail)
            (round_strings entries (some ms) entry.key entry.value tail hk hv)

pub load_entry_list :
    (done entries : List RdbEntry) (tail : Bytes)
    → All Fits entries
    → load done none (encode_entries entries ++ tail) ≡ load (done ++ entries) none tail
unfolding encode_entries
load_entry_list done [] tail h =
    ap (λ (all : List RdbEntry). load all none tail) (sym (append-nil done))
load_entry_list done (entry ∷ entries) tail (fits, h) =
    ap (load done none) (append_assoc (encode_entry entry) (encode_entries entries) tail)
    ∙ load_one_entry done entry (encode_entries entries ++ tail) fits
    ∙ load_entry_list (done ++ entry ∷ []) entries tail h
    ∙ ap (λ (all : List RdbEntry). load all none tail) (append_assoc done (entry ∷ []) entries)
