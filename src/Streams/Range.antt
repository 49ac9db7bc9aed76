-- ===== src/Streams/Range.antt =====
-- What a range of a stream finds, over any radix tree that behaves as documented.
use true_store.Base.{
  ℕ, zero, suc, take, ◌<◌, ◌||◌, none, true, true, none, if◌then◌else◌, ◌∙◌, ◌≡◌, refl, sym, ap,
  ◌∙◌, inl, inr, false, some, [], ◌∷◌, arith, Bool-cases, All,
}
use true_store.Text.{less, Bytes, ◌=ᵇ◌}
use true_store.Text.Equality.{eq_iff, eq_refl}
use true_store.Dict
use true_store.Dict.{Dict}
use true_store.Dict.Size.{All-below, KeysSorted, absent_below}
use true_store.Platform.{Rax, StreamEntryData}
use true_store.Store.Types.{Stream, StreamId}
use true_store.Streams.{
  get_range, collect, decode_id, id_less, collect, encode_id, decode_id, id_to_string, parse_id,
}
use true_store.Streams.Keys.{less-encode_id, decode-encode_id, Fits}
use true_store.Streams.Insert.{RaxLaws, Increasing}
use true_store.Streams.Ids.{parse-id_to_string}

-- A key that is the key of an ID of 64-bit parts.
abbrev IsKey : Bytes → Type 0
IsKey j = (id : StreamId) × Fits id × (j ≡ encode_id id)

text_injective : (a b : StreamId) → Fits a → Fits b → id_to_string a ≡ id_to_string b → a ≡ b
text_injective a b f g e =
    some_eq (sym (parse-id_to_string a 0 f).0 ∙ ap parse_id e ∙ (parse-id_to_string b 0 g).0)
  where
    some_eq : some a ≡ some b → a ≡ b
    some_eq p = cc

key_injective : (a b : StreamId) → Fits a → Fits b → encode_id a ≡ encode_id b → a ≡ b
key_injective a b f g e = sym (decode-encode_id a f) ∙ ap decode_id e ∙ decode-encode_id b g

-- The two names of an ID tell the same IDs apart.
same_names :
    (a b : StreamId)
    → Fits a
    → Fits b
    → (id_to_string a =ᵇ id_to_string b) ≡ (encode_id a =ᵇ encode_id b)
same_names a b f g = elim (Bool-cases (id_to_string a =ᵇ id_to_string b)) [
  | inl e ↦
      rw
        (text_injective a b f g ((eq_iff _ _).0 e), eq_refl (id_to_string b), eq_refl (encode_id b))
        refl
  | inr e ↦ elim (Bool-cases (encode_id a =ᵇ encode_id b)) [
    | inl k ↦ absurd (clash e (key_injective a b f g ((eq_iff _ _).0 k)))
    | inr k ↦ e ∙ sym k
  ]
]
  where
    clash : (id_to_string a =ᵇ id_to_string b) ≡ false → a ≡ b → ⊥
    clash e p = ground (arith, eq_refl (id_to_string b))

keys_of_entries :
    (l : Dict StreamEntryData)
    → KeysSorted l
    → ((j : Bytes) (e : StreamEntryData) → Dict.find j l ≡ some e → IsKey j)
    → All (λ e. IsKey e.0) l
unfolding Dict.find
keys_of_entries [] s h = tt
keys_of_entries ((k, e) ∷ l) (a, s) h = (
  h k e (rw (eq_refl k) refl),
  keys_of_entries l s (λ j d f. h j d (ground (arith, f, eq_iff k j, absent_below k l a))),
)

-- Behind the end there is nothing up to the end.
absent_behind :
    (end id i : StreamId) (k : Bytes) (e : StreamEntryData) (l : Dict StreamEntryData)
    → Fits id
    → Fits i
    → k ≡ encode_id i
    → All (λ d. less k d.0 ≡ true) l
    → id_less end i ≡ true
    → id_less end id ≡ false
    → Dict.find (encode_id id) ((k, e) ∷ l) ≡ none
unfolding id_less
absent_behind end id i k e l g fits same a stop before =
    let below : less (encode_id id) k ≡ true =
      ap (λ (j : Bytes). less (encode_id id) j) same
      ∙ less-encode_id id i g fits
      ∙ less_between end id i before stop in
    absent_below (encode_id id) ((k, e) ∷ l) (below, All-below (encode_id id) k l below a)
  where
    less_between :
        (end id i : StreamId) → id_less end id ≡ false → id_less end i ≡ true → id_less id i ≡ true
    less_between end id i b h = ground arith

-- An ID whose key stands at or in front of the end is not behind it.
same_end :
    (end id i : StreamId) (k : Bytes)
    → Fits i
    → Fits id
    → k ≡ encode_id i
    → id_less end i ≡ false
    → (k =ᵇ encode_id id) ≡ true
    → id_less end id ≡ false
same_end end id i k fits g same go hit =
    ap (λ (x : StreamId). id_less end x)
      (key_injective id i g fits (sym ((eq_iff k (encode_id id)).0 hit) ∙ same))
    ∙ go

-- The walk over entries in order finds those up to its end.
collect_finds :
    (end id : StreamId) (l : Dict StreamEntryData)
    → Fits end
    → Fits id
    → KeysSorted l
    → All (λ e. IsKey e.0) l
    → Dict.find (id_to_string id) (collect end 0 l)
      ≡ (if id_less end id then none else Dict.find (encode_id id) l)
unfolding collect Dict.find
collect_finds end id [] f g s h = ground arith
collect_finds end id ((k, e) ∷ l) f g (a, s) ((i, fits, same), h) =
    let decoded : decode_id k ≡ i = ap decode_id same ∙ decode-encode_id i fits in
    let names : (id_to_string i =ᵇ id_to_string id) ≡ (k =ᵇ encode_id id) =
      same_names i id fits g ∙ ap (λ (j : Bytes). j =ᵇ encode_id id) (sym same) in
    elim (Bool-cases (id_less end i)) [
      | inl stop ↦ ground (arith, decoded, absent_behind end id i k e l g fits same a stop)
      | inr go ↦ ground (
        arith,
        decoded,
        names,
        eq_iff k (encode_id id),
        same_end end id i k fits g same go,
        collect_finds end id l f g s h,
      )
    ]

module _ (R : Rax) (laws : RaxLaws R) where
  -- A range without a count, of a stream whose IDs do not exceed the recorded greatest, holds the
  -- entry of an ID under the ID's text exactly if the ID is neither before the start nor behind the
  -- end; the bounds and the ID have 64-bit parts.
  pub range_finds :
      (start end id : StreamId) (s : Stream R.Tree)
      → Increasing R s
      → Fits start
      → Fits end
      → Fits id
      → Dict.find (id_to_string id) (get_range R start end 0 s)
        ≡ (if id_less id start || id_less end id then none else R.rax_find (encode_id id) s.tree)
  unfolding get_range id_less Dict.find
  range_finds start end id s v f g h =
      let walk = R.rax_from (encode_id start) s.tree in
      let walked = laws.from_entries (encode_id id) (encode_id start) s.tree in
      let found =
        collect_finds end id walk g h (laws.from_sorted (encode_id start) s.tree) (
          keys_of_entries walk (laws.from_sorted (encode_id start) s.tree) (walk_keys start s v)) in
      ground (arith, found, walked, less-encode_id id start h f)
    where
      walk_keys :
          (start : StreamId) (s : Stream R.Tree)
          → Increasing R s
          → (j : Bytes) (e : StreamEntryData)
          → Dict.find j (R.rax_from (encode_id start) s.tree) ≡ some e
          → IsKey j
      walk_keys start s v j e p =
          let (id, fits, same, _, _) =
            v.bounded j e (ground (arith, p, laws.from_entries j (encode_id start) s.tree)) in
          (id, fits, same)

collect-take :
    (end : StreamId) (n : ℕ) (l : Dict StreamEntryData)
    → collect end (suc n) l ≡ take (suc n) (collect end 0 l)
unfolding collect
collect-take end n [] = refl
collect-take end zero ((k, e) ∷ l) = ground arith
collect-take end (suc n) ((k, e) ∷ l) = ground (arith, collect-take end n l)

-- A range with a positive count is the front of the range without one, of at most that many
-- entries, whatever the radix tree.
pub range_takes :
    (R : Rax) (start end : StreamId) (n : ℕ) (s : Stream R.Tree)
    → 0 < n
    → get_range R start end n s ≡ take n (get_range R start end 0 s)
unfolding get_range
range_takes R start end zero s h = absurd (omega arith)
range_takes R start end (suc n) s h = elim (Bool-cases (id_less end start)) [
  | inl e ↦ rw e refl
  | inr e ↦ rw e (collect-take end n (R.rax_from (encode_id start) s.tree))
]
