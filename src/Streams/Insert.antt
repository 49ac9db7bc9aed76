-- ===== src/Streams/Insert.antt =====
-- XADD keeps the IDs of a stream increasing, over any radix tree that behaves as documented.
use true_store.Base.{
  sym, ◌∙◌, ap, ℕ, ◌^◌, ◌<◌, ◌≡◌, refl, inl, inr, Bool, true, false, Option, none, some, arith,
  if◌then◌else◌, Bool-cases, Option-cases,
}
use true_store.Text.Equality.{eq_iff}
use true_store.Text.{Bytes, codes, ◌=ᵇ◌, less}
use true_store.Platform.{Rax, StreamEntryData}
use true_store.Dict
use true_store.Dict.Size.{KeysSorted}
use true_store.Store.Types.{StreamId, Stream}
use true_store.Text.Parse.{from_chars_u64, from_chars_u64-lt}
use true_store.Streams.{
  insert_resolved, empty_stream, insert_entry, encode_id, decode_id, id_less, split_dash, parse_id,
  next_sequence, resolve_partial, resolve_explicit, resolve_id, added, invalid_id, not_greater,
}
use true_store.Streams.Keys.{decode-encode_id, Fits}
use true_store.Streams.Ids.{parse_id-Fits}

-- What rax.h documents: an ordered map from byte strings to payloads. The walk from a key lists the
-- entries from that key on in byte order.
pub record RaxLaws (R : Rax) : Type 0 where
  pub find_new : (k : Bytes) → R.rax_find k R.rax_new ≡ none
  pub insert_absent :
      (k : Bytes) (v : StreamEntryData) (t : R.Tree)
      → R.rax_find k t ≡ none
      → (u : R.Tree) × (R.rax_try_insert k v t ≡ some u)
        × ((j : Bytes) → R.rax_find j u ≡ (if k =ᵇ j then some v else R.rax_find j t))
  pub from_sorted : (k : Bytes) (t : R.Tree) → KeysSorted (R.rax_from k t)
  pub from_entries :
      (j k : Bytes) (t : R.Tree)
      → Dict.find j (R.rax_from k t) ≡ (if less j k then none else R.rax_find j t)

-- Every key of the tree is an ID of 64-bit parts that is not behind the recorded greatest ID.
pub record Increasing (R : Rax) (s : Stream R.Tree) : Type 0 where
  pub max_fits : Fits s.max_id
  pub bounded :
      (j : Bytes) (e : StreamEntryData)
      → R.rax_find j s.tree ≡ some e
      → (id : StreamId) × Fits id
        × (j ≡ encode_id id)
        × (s.has_max_id ≡ true)
        × (id_less s.max_id id ≡ false)

-- An ID that may be added: it fits in 64 bits and is behind the greatest one.
abbrev pub Behind : {Tree : Type 0} → Stream Tree → StreamId → Type 0
Behind s id = Fits id × (s.has_max_id ≡ true → id_less s.max_id id ≡ true)

module _ {Tree : Type 0} (s : Stream Tree) (id : StreamId) (f : Fits s.max_id) where
  next-Behind : (ms : ℕ) → ms < 2 ^ 64 → next_sequence ms s ≡ added id → Behind s id
  unfolding next_sequence id_less
  next-Behind ms h e = ground arith

  partial-Behind : (before : Bytes) → resolve_partial before s ≡ added id → Behind s id
  unfolding resolve_partial
  partial-Behind before e = elim (Option-cases (from_chars_u64 before)) [
    | inl n ↦ absurd (none_case (rw (n, resolve_partial) at e))
    | inr (ms, n) ↦ some_case ms (from_chars_u64-lt before ms n) _ (rw (n, resolve_partial) at e)
  ]
    where
      none_case : invalid_id ≡ added id → ⊥
      none_case e = cc

      some_case :
          (ms : ℕ)
          → ms < 2 ^ 64
          → (b : Bool) → (if b then not_greater else next_sequence ms s) ≡ added id
          → Behind s id
      some_case ms h true e = cc
      some_case ms h false e = next-Behind ms h e

  explicit-Behind :
      (parsed : Option StreamId)
      → ((i : StreamId) → parsed ≡ some i → Fits i)
      → resolve_explicit parsed s ≡ added id
      → Behind s id
  unfolding resolve_explicit
  explicit-Behind none g e = cc
  explicit-Behind (some i) g e = ground (arith, g i refl)

  -- A resolved ID fits in 64 bits and is behind the greatest one.
  pub resolved-Behind :
      (now : ℕ) (text : Bytes) → now < 2 ^ 64 → resolve_id now text s ≡ added id → Behind s id
  unfolding resolve_id
  resolved-Behind now text h e = elim (Bool-cases (text =ᵇ codes "*")) [
    | inl star ↦ next-Behind now h (rw star at e)
    | inr no_star ↦ elim (Option-cases (split_dash text)) [
      | inl n ↦ explicit (rw (no_star, n, resolve_id) at e)
      | inr ((before, after), n) ↦ elim (Bool-cases (after =ᵇ codes "*")) [
        | inl a ↦ partial-Behind before (rw (no_star, n, resolve_id, a) at e)
        | inr a ↦ explicit (rw (no_star, n, resolve_id, a) at e)
      ]
    ]
  ]
    where
      explicit : resolve_explicit (parse_id text) s ≡ added id → Behind s id
      explicit = explicit-Behind (parse_id text) (parse_id-Fits text)

id_less_irrefl : (a : StreamId) → id_less a a ≡ false
unfolding id_less
id_less_irrefl a = ground arith

id_less_trans : (a b c : StreamId) → id_less a b ≡ true → id_less b c ≡ true → id_less a c ≡ true
unfolding id_less
id_less_trans a b c h k = ground arith

module _ (R : Rax) (laws : RaxLaws R) where
  pub empty-Increasing : Increasing R (empty_stream R)
  unfolding empty_stream
  empty-Increasing = record {
    max_fits = record { ms = omega arith; seq = omega arith };
    bounded = λ j e h. absurd (none_some e (sym (laws.find_new j) ∙ h));
  }
    where
      none_some : (e : StreamEntryData) → ◌≡◌ {A = Option StreamEntryData} none (some e) → ⊥
      none_some e p = cc

  -- The key of an ID behind the greatest one is new.
  key_absent :
      (s : Stream R.Tree) (id : StreamId)
      → Increasing R s
      → Behind s id
      → R.rax_find (encode_id id) s.tree ≡ none
  key_absent s id v b = elim (Option-cases (R.rax_find (encode_id id) s.tree)) [
    | inl n ↦ n
    | inr (e, h) ↦
        let (id', fits, same, has, not_less) = v.bounded (encode_id id) e h in
        absurd (
          clash id' (sym (decode-encode_id id b.0) ∙ ap decode_id same ∙ decode-encode_id id' fits)
            not_less (b.1 has))
  ]
    where
      clash :
          (id' : StreamId)
          → id ≡ id'
          → id_less s.max_id id' ≡ false
          → id_less s.max_id id ≡ true
          → ⊥
      clash id' p n y = cc

  grown-Increasing :
      (s : Stream R.Tree) (id : StreamId) (e : StreamEntryData) (u : R.Tree)
      → Increasing R s
      → Behind s id
      → ((j : Bytes) → R.rax_find j u ≡ (if encode_id id =ᵇ j then some e else R.rax_find j s.tree))
      → Increasing R (record { tree = u; has_max_id = true; max_id = id })
  grown-Increasing s id e u v b grown = record {
    max_fits = b.0;
    bounded = λ j d h. elim (Bool-cases (encode_id id =ᵇ j)) [
      | inl same ↦ (id, b.0, sym ((eq_iff (encode_id id) j).0 same), refl, id_less_irrefl id)
      | inr other ↦
          let (id', fits, key, has, not_less) = v.bounded j d (old j d h other) in
          (id', fits, key, refl, ground (arith, id_less_trans s.max_id id id', b.1 has, not_less))
    ];
  }
    where
      old :
          (j : Bytes) (d : StreamEntryData)
          → R.rax_find j u ≡ some d
          → (encode_id id =ᵇ j) ≡ false
          → R.rax_find j s.tree ≡ some d
      old j d h other = ground (arith, grown j)

  -- In a stream whose IDs do not exceed the recorded greatest, as in a new one, an entry whose ID
  -- resolves is always added: the ID fits in 64 bits and is behind every earlier one, it becomes the
  -- greatest, the entry is found under it, and the other entries are as they were.
  pub insert_increases :
      (now : ℕ) (text : Bytes) (e : StreamEntryData) (s : Stream R.Tree) (id : StreamId)
      → now < 2 ^ 64
      → Increasing R s
      → resolve_id now text s ≡ added id
      → (t : Stream R.Tree) × (insert_entry R now text e s ≡ (added id, t))
        × Behind s id
        × Increasing R t
        × (t.max_id ≡ id)
        × ((j : Bytes)
            → R.rax_find j t.tree ≡ (if encode_id id =ᵇ j then some e else R.rax_find j s.tree))
  unfolding insert_entry insert_resolved
  insert_increases now text e s id h v r =
      let b = resolved-Behind s id v.max_fits now text h r in
      let (u, done, grown) = laws.insert_absent (encode_id id) e s.tree (key_absent s id v b) in
      (
        record { tree = u; has_max_id = true; max_id = id },
        rw (r, insert_resolved, done),
        b,
        grown-Increasing s id e u v b grown,
        refl,
        grown,
      )
