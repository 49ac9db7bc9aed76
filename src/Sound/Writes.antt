-- ===== src/Sound/Writes.antt =====
-- The handlers that change sorted sets, lists, streams or passwords, and the invariant of the store.
use true_store.Base.{
  zero, suc, ◌≡◌, inl, inr, Option, none, some, List, [], ◌∷◌, arith, if_both, Option-cases, ℤ, pos,
  negsuc,
}
use true_store.Text.{Bytes, to_upper}
use true_store.Text.Parse.{stoll}
use true_store.Dict.{Dict, find, insert, erase, find-erase}
use true_store.Platform.{Platform, Now}
use true_store.Store.Types.{Store}
use true_store.Sound.{AllIncreasing, IsSound, SameParts, SameParts-IsSound}
use true_store.Sound.Frames.{same, sources-Same}
use true_store.SortedSets.Stored.{AllAgree}
use true_store.Lists.Shape.{NoEmpty}
use true_store.Strings.{assign, set_expiring, handle_set, unit_of, deadline_after}
use true_store.Bitmaps.{
  bitop_sources, store_result, handle_bitop, read_sources, BitOperation, bit_operation,
}

module _ {P : Platform} (s t : Store P) (sound : IsSound s) where
  -- Only the sorted sets, the lists or the streams have changed, and they are as they should.
  pub sets-IsSound :
      SameParts (record s { sorted_sets = t.sorted_sets }) t
      → AllAgree P.doubles t.sorted_sets
      → IsSound t
  sets-IsSound same kept =
      SameParts-IsSound _ t same (record {
        sets = kept;
        lists = sound.lists;
        streams = sound.streams;
        hashes = sound.hashes;
      })

  pub lists-IsSound :
      SameParts (record s { dynamic_vector = t.dynamic_vector }) t
      → NoEmpty t.dynamic_vector
      → IsSound t
  lists-IsSound same kept =
      SameParts-IsSound _ t same
        (record { sets = sound.sets; lists = kept; streams = sound.streams; hashes = sound.hashes })

  pub streams-IsSound :
      SameParts (record s { streams = t.streams }) t → AllIncreasing P.rax t.streams → IsSound t
  streams-IsSound same kept =
      SameParts-IsSound _ t same
        (record { sets = sound.sets; lists = sound.lists; streams = kept; hashes = sound.hashes })

-- What is found in a table without a key was there before.
found_before {ℓ} :
    {V : Type ℓ} (j k : Bytes) (v : V) (m : Dict V)
    → find j (erase k m) ≡ some v
    → find j m ≡ some v
found_before j k v m e = ground (arith, find-erase j k m)

module _ {P : Platform} where
  -- A key that becomes a string, or is deleted.
  pub erased-IsSound :
      (key : Bytes) (s t : Store P)
      → IsSound s
      → SameParts
          (record s {
            sorted_sets = erase key s.sorted_sets;
            dynamic_vector = erase key s.dynamic_vector;
            streams = erase key s.streams;
          })
          t
      → IsSound t
  erased-IsSound key s t sound same = SameParts-IsSound _ t same (record {
    sets = λ j zset e. sound.sets j zset (found_before j key zset s.sorted_sets e);
    lists = λ j e. sound.lists j (found_before j key [] s.dynamic_vector e);
    streams = λ j stream e. sound.streams j stream (found_before j key stream s.streams e);
    hashes = sound.hashes;
  })

  assign-IsSound :
      (key value : Bytes) (s t : Store P) → IsSound s → SameParts (assign key value s) t → IsSound t
  unfolding assign
  assign-IsSound key value s t sound same = erased-IsSound key s t sound (ground (arith, same))

  set_expiring-IsSound :
      (now : Now) (key value option : Bytes) (time : Option ℤ) (s : Store P)
      → IsSound s
      → IsSound (set_expiring now key value option time s).1
  unfolding set_expiring
  set_expiring-IsSound now key value option none s sound = sound
  set_expiring-IsSound now key value option (some (negsuc n)) s sound = sound
  set_expiring-IsSound now key value option (some (pos zero)) s sound = sound
  set_expiring-IsSound now key value option (some (pos (suc n))) s sound =
      elim (Option-cases (unit_of option)) [
        | inl e ↦ rw (e, set_expiring) sound
        | inr (unit, e) ↦
            rw (e, set_expiring)
              (assign-IsSound key value
                (record s {
                  expirations = insert key (deadline_after now.steady (suc n) unit) s.expirations;
                })
                _ (SameParts-IsSound s _ (ground arith) sound) (same _))
      ]

  pub set-IsSound :
      (now : Now) (args : List Bytes) (s : Store P) → IsSound s → IsSound (handle_set now args s).1
  unfolding handle_set
  set-IsSound now (w ∷ key ∷ value ∷ []) s sound = assign-IsSound key value s _ sound (ground arith)
  set-IsSound now (w ∷ key ∷ value ∷ option ∷ time ∷ []) s sound =
      set_expiring-IsSound now key value option (stoll time) s sound
  set-IsSound now _ s sound = sound

  bitop_sources-IsSound :
      (now : Now) (op : BitOperation) (key : Bytes) (sources : Option (List Bytes)) (s : Store P)
      → IsSound s
      → IsSound (bitop_sources now op key (sources, s)).1
  unfolding bitop_sources store_result
  bitop_sources-IsSound now op key none s sound = sound
  bitop_sources-IsSound now op key (some sources) s sound =
      erased-IsSound key s _ sound (ground arith)

  pub bitop-IsSound :
      (now : Now) (args : List Bytes) (s : Store P)
      → IsSound s
      → IsSound (handle_bitop now args s).1
  unfolding handle_bitop
  bitop-IsSound now (w ∷ name ∷ key ∷ source ∷ rest) s sound =
      let (sources, t) = read_sources now (source ∷ rest) s in
      let read : IsSound t = SameParts-IsSound s t (sources-Same now (source ∷ rest) s) sound in
      elim (Option-cases (bit_operation (to_upper name))) [
        | inl e ↦ rw (e, handle_bitop) sound
        | inr (op, e) ↦
            rw (e, handle_bitop)
              (if_both (λ (r : Bytes × Store P). IsSound r.1) _ sound
                (bitop_sources-IsSound now op key sources t read))
      ]
  bitop-IsSound now _ s sound = sound
