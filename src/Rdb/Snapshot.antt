-- ===== src/Rdb/Snapshot.antt =====
-- Snapshots written in the format of RDB files are read back.
use true_store.Base.{
  ℕ, suc, ◌^◌, ◌<◌, ◌≡◌, refl, ap, ◌∙◌, true, none, some, List, [], ◌∷◌, ◌++◌, append_assoc, arith,
  length, take, All,
}
use true_store.Text.{Bytes, codes, ◌=ᵇ◌}
use true_store.Rdb.Encoding.{
  encode_length, encode_string, read_length-encode, read_string-encode, read_bytes-append,
}
use true_store.Rdb.{ok, RdbEntry, read_bytes, continued, load_round, load_loop, load_rdb}
use true_store.Text.Equality.{eq_refl}
use true_store.Rdb.Rounds.{load, load_next, load_loop_round, load_entry_list, encode_entries, Fits}

-- The fields in front of the entries.
unfoldable pub encode_fields : List (Bytes × Bytes) → Bytes
encode_fields [] = []
encode_fields ((name, value) ∷ fields) =
    250 ∷ ((encode_string name ++ encode_string value) ++ encode_fields fields)

abbrev FieldFits : Bytes × Bytes → Type 0
FieldFits (name, value) = (length name < 2 ^ 64) × (length value < 2 ^ 64)

load_fields :
    (fields : List (Bytes × Bytes)) (tail : Bytes)
    → All FieldFits fields
    → load [] none (encode_fields fields ++ tail) ≡ load [] none tail
unfolding encode_fields
load_fields [] tail h = refl
load_fields ((name, value) ∷ fields) tail ((hn, hv), h) =
    ap (λ (x : Bytes). load [] none (250 ∷ x))
      (append_assoc (encode_string name ++ encode_string value) (encode_fields fields) tail)
    ∙ load_next [] none 250 _ (round_field (encode_fields fields ++ tail))
    ∙ load_fields fields tail h
  where
    round_field :
        (rest : Bytes)
        → load_round [] none 250 ((encode_string name ++ encode_string value) ++ rest)
          ≡ ok (continued [] none rest)
    round_field rest =
        unfold load_round in
        rw
          (
            append_assoc (encode_string name) (encode_string value) rest,
            read_string-encode name (encode_string value ++ rest) hn,
            read_string-encode value rest hv,
          )
          refl

-- The number of the database, and the sizes of its two tables.
unfoldable pub encode_sizes : ℕ → ℕ → ℕ → Bytes
encode_sizes database keys deadlines =
    254 ∷ (encode_length database ++ 251 ∷ (encode_length keys ++ encode_length deadlines))

load_sizes :
    (database keys deadlines : ℕ) (tail : Bytes)
    → database < 2 ^ 64
    → keys < 2 ^ 64
    → deadlines < 2 ^ 64
    → load [] none (encode_sizes database keys deadlines ++ tail) ≡ load [] none tail
unfolding encode_sizes
load_sizes database keys deadlines tail hd hk ht =
    ap (λ (x : Bytes). load [] none (254 ∷ x))
      (append_assoc (encode_length database) (251 ∷ (encode_length keys ++ encode_length deadlines))
        tail)
    ∙ load_next [] none 254 _
        (round_database (251 ∷ ((encode_length keys ++ encode_length deadlines) ++ tail)))
    ∙ load_next [] none 251 _ round_tables
  where
    round_database :
        (rest : Bytes)
        → load_round [] none 254 (encode_length database ++ rest) ≡ ok (continued [] none rest)
    round_database rest = unfold load_round in rw (read_length-encode database rest hd) refl

    round_tables :
        load_round [] none 251 ((encode_length keys ++ encode_length deadlines) ++ tail)
        ≡ ok (continued [] none tail)
    round_tables =
        unfold load_round in
        rw
          (
            append_assoc (encode_length keys) (encode_length deadlines) tail,
            read_length-encode keys (encode_length deadlines ++ tail) hk,
            read_length-encode deadlines tail ht,
          )
          refl

-- A file: the header with its version, the fields, the sizes, the entries, and a checksum.
unfoldable pub snapshot : Bytes → List (Bytes × Bytes) → ℕ → ℕ → ℕ → List RdbEntry → Bytes → Bytes
snapshot version fields database keys deadlines entries checksum =
    (codes "REDIS" ++ version)
    ++ (encode_fields fields
        ++ (encode_sizes database keys deadlines ++ (encode_entries entries ++ 255 ∷ checksum)))

load_end :
    (entries : List RdbEntry) (checksum : Bytes)
    → load entries none (255 ∷ checksum) ≡ some (ok entries)
unfolding load_round
load_end entries checksum =
    ap (λ (n : ℕ). load_loop n entries none (255 ∷ checksum)) count
    ∙ load_loop_round (length checksum) entries none 255 checksum
  where
    count : length (255 ∷ checksum) ≡ suc (length checksum)
    count = omega arith

load_headed :
    (file header s : Bytes)
    → read_bytes 9 file ≡ ok (header, s)
    → (take 5 header =ᵇ codes "REDIS") ≡ true
    → load_rdb (some file) ≡ load [] none s
unfolding load_rdb
load_headed file header s e h = rw (load_rdb, e, h) refl

-- A file in the format of a snapshot, with any version of four bytes, any fields, sizes and
-- checksum, is loaded to its entries, in their order and with their deadlines, if the lengths, the
-- sizes and the deadlines are below 2^64.
pub load_rdb-snapshot :
    (version : Bytes) (fields : List (Bytes × Bytes)) (database keys deadlines : ℕ)
    (entries : List RdbEntry) (checksum : Bytes)
    → length version ≡ 4
    → All FieldFits fields
    → database < 2 ^ 64
    → keys < 2 ^ 64
    → deadlines < 2 ^ 64
    → All Fits entries
    → load_rdb (some (snapshot version fields database keys deadlines entries checksum))
      ≡ some (ok entries)
unfolding snapshot
load_rdb-snapshot version fields database keys deadlines entries checksum four hf hd hk ht he =
    load_headed _ (codes "REDIS" ++ version) body header (eq_refl (codes "REDIS"))
    ∙ load_fields fields (sizes ++ (encode_entries entries ++ 255 ∷ checksum)) hf
    ∙ load_sizes database keys deadlines (encode_entries entries ++ 255 ∷ checksum) hd hk ht
    ∙ load_entry_list [] entries (255 ∷ checksum) he
    ∙ load_end entries checksum
  where
    sizes : Bytes
    sizes = encode_sizes database keys deadlines

    body : Bytes
    body = encode_fields fields ++ (sizes ++ (encode_entries entries ++ 255 ∷ checksum))

    header : read_bytes 9 ((codes "REDIS" ++ version) ++ body) ≡ ok (codes "REDIS" ++ version, body)
    header =
        ap (λ (n : ℕ). read_bytes n ((codes "REDIS" ++ version) ++ body)) (omega (arith, four))
        ∙ read_bytes-append (codes "REDIS" ++ version) body
