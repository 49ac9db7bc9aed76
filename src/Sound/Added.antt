-- ===== src/Sound/Added.antt =====
-- GEOADD, XADD and ACL, and the invariant of the store.
use mathlib.Core.Path.{subst}
use true_store.Base.{
  ℕ, ◌^◌, ◌<◌, ◌≡◌, refl, sym, ◌⊎◌, inl, inr, false, Option, none, some, List, [], ◌∷◌, arith,
  if_both, Bool-cases, Option-cases,
}
use true_store.Text.{Bytes, codes, ◌=ᵇ◌}
use true_store.Dict.{Dict, find, insert, find-insert}
use true_store.Platform.{Platform, Now, StreamEntryData}
use true_store.Resp.{to_bytes, simple_string}
use true_store.Store.Types.{Store, Stream, SortedSet}
use true_store.Sound.{AllIncreasing, IsSound}
use true_store.Sound.Frames.{same, set_type-Same}
use true_store.Sound.Writes.{sets-IsSound, streams-IsSound}
use true_store.Sound.Structures.{SetsOnly}
use true_store.SortedSets.Commands.{wrong_sorted_set_type}
use true_store.SortedSets.Order.{DoubleLaws, NoNan}
use true_store.SortedSets.Agree.{Agrees, add-Agrees}
use true_store.SortedSets.Stored.{AllAgree, insert-AllAgree, set_or_empty-Agrees}
use true_store.Streams.{
  AddResult, added, zero_id, not_greater, invalid_id, resolve_id, insert_resolved, insert_entry,
  empty_stream,
}
use true_store.Streams.Commands.{xadd_entry, handle_xadd, field_pairs}
use true_store.Streams.Insert.{RaxLaws, Increasing, empty-Increasing, insert_increases}
use true_store.Geospatial.{
  Coordinates, encode_coordinates, parse_coordinates, Flags, passes, add_points, read_points,
  read_flags,
}
use true_store.Geospatial.Commands.{geoadd_entries, geoadd_words, handle_geoadd, no_flags}
use true_store.Auth.{
  set_user, acl_setuser, handle_acl, RuleResult, apply_rules, credentials, applied, refused, thrown,
}
use true_store.Auth.Passwords.{DigestLaw, Held, acl-Held}

module _ (P : Platform) (laws : DoubleLaws P.doubles)
    (number : (n : ℕ) → P.is_nan (P.of_u64 n) ≡ false) where
  -- The loop of GEOADD, whose scores are cells.
  add_points-Agrees :
      (f : Flags) (es : List (P.Double × Bytes)) (zset : SortedSet P.Double)
      → NoNan P.doubles es
      → Agrees P.doubles zset
      → Agrees P.doubles (add_points P.doubles f es zset).2
  unfolding add_points
  add_points-Agrees f [] zset n v = v
  add_points-Agrees f ((score, member) ∷ es) zset (x, n) v =
      elim (Bool-cases (passes P.doubles f score (find member zset.scores))) [
        | inl e ↦ rw e (add_points-Agrees f es zset n v)
        | inr e ↦ rw e (add_points-Agrees f es _ n (add-Agrees laws score member zset x v))
      ]

  points-NoNan :
      (words : List Bytes) (es : List (P.Double × Bytes))
      → read_points P words ≡ inr es
      → NoNan P.doubles es
  unfolding read_points
  points-NoNan (longitude ∷ latitude ∷ member ∷ rest) es e =
      both (parse_coordinates P longitude latitude) (read_points P rest) (points-NoNan rest) es e
    where
      both :
          (v : Bytes ⊎ Coordinates P.Double) (others : Bytes ⊎ List (P.Double × Bytes))
          → ((l : List (P.Double × Bytes)) → others ≡ inr l → NoNan P.doubles l)
          → (l : List (P.Double × Bytes))
          → (elim v [
            | inl failure ↦ inl failure
            | inr point ↦ elim others [
              | inl failure ↦ inl failure
              | inr entries ↦ inr ((P.of_u64 (encode_coordinates P point), member) ∷ entries)
            ]
          ])
            ≡ inr l
          → NoNan P.doubles l
      both (inl failure) others g l q = cc
      both (inr point) (inl failure) g l q = cc
      both (inr point) (inr entries) g [] q = cc
      both (inr point) (inr entries) g ((a, m) ∷ l) q =
          (ground (arith, number (encode_coordinates P point)), ground (arith, g entries refl))
  points-NoNan [] es e = ground arith
  points-NoNan (a ∷ []) es e = ground arith
  points-NoNan (a ∷ b ∷ []) es e = ground arith

  entries-AllAgree :
      (now : Now) (f : Flags) (key : Bytes) (es : List (P.Double × Bytes)) (s : Store P)
      → NoNan P.doubles es
      → AllAgree P.doubles s.sorted_sets
      → AllAgree P.doubles (geoadd_entries now f key (inr es) s).1.sorted_sets
  unfolding geoadd_entries
  entries-AllAgree now f key es s n h =
      let t = (wrong_sorted_set_type now key s).1 in
      let kept : AllAgree P.doubles t.sorted_sets = rw (set_type-Same now key s).sets h in
      ground (
        arith,
        kept,
        insert-AllAgree laws key _ t.sorted_sets
            (add_points-Agrees f es _ n (set_or_empty-Agrees laws key t.sorted_sets kept)) kept,
      )

  entries-SetsOnly :
      (now : Now) (f : Flags) (key : Bytes) (es : Bytes ⊎ List (P.Double × Bytes)) (s : Store P)
      → SetsOnly s (geoadd_entries now f key es s).1
  unfolding geoadd_entries
  entries-SetsOnly now f key (inl failure) s = same s
  entries-SetsOnly now f key (inr es) s = ground (arith, set_type-Same now key s)

  geoadd_entries-IsSound :
      (now : Now) (f : Flags) (key : Bytes) (words : List Bytes) (s : Store P)
      → IsSound s
      → IsSound (geoadd_entries now f key (read_points P words) s).1
  geoadd_entries-IsSound now f key words s sound =
      by_points (read_points P words) (points-NoNan words)
    where
      by_points :
          (r : Bytes ⊎ List (P.Double × Bytes))
          → ((es : List (P.Double × Bytes)) → r ≡ inr es → NoNan P.doubles es)
          → IsSound (geoadd_entries now f key r s).1
      by_points (inl failure) n = unfold geoadd_entries in sound
      by_points (inr es) n =
          sets-IsSound s _ sound (entries-SetsOnly now f key (inr es) s)
            (entries-AllAgree now f key es s (n es refl) sound.sets)

  pub geoadd-IsSound :
      (now : Now) (args : List Bytes) (s : Store P)
      → IsSound s
      → IsSound (handle_geoadd now args s).1
  unfolding handle_geoadd geoadd_words
  geoadd-IsSound now (w ∷ key ∷ a ∷ b ∷ c ∷ rest) s sound =
      let (f, words) = read_flags (a ∷ b ∷ c ∷ rest) no_flags in
      if_both (λ (r : Bytes × Store P). IsSound r.1) _ sound
        (geoadd_entries-IsSound now f key words s sound)
  geoadd-IsSound now _ s sound = sound

module _ (P : Platform) (laws : RaxLaws P.rax) (now : Now) (small : now.system_ms < 2 ^ 64) where
  entry-Increasing :
      (text : Bytes) (e : StreamEntryData) (stream : Stream P.Tree)
      → Increasing P.rax stream
      → Increasing P.rax (insert_entry P.rax now.system_ms text e stream).1
  entry-Increasing text e stream v = by_result (resolve_id now.system_ms text stream) refl
    where
      by_result :
          (r : AddResult)
          → resolve_id now.system_ms text stream ≡ r
          → Increasing P.rax (insert_entry P.rax now.system_ms text e stream).1
      by_result (added id) q =
          let (t, done, b, kept, greatest, found) =
            insert_increases P.rax laws now.system_ms text e stream id small v q in
          rw done kept
      by_result zero_id q = unfold insert_entry insert_resolved in rw (q, insert_resolved) v
      by_result not_greater q = unfold insert_entry insert_resolved in rw (q, insert_resolved) v
      by_result invalid_id q = unfold insert_entry insert_resolved in rw (q, insert_resolved) v

  insert-AllIncreasing :
      (key : Bytes) (stream : Stream P.Tree) (m : Dict (Stream P.Tree))
      → Increasing P.rax stream
      → AllIncreasing P.rax m
      → AllIncreasing P.rax (insert key stream m)
  insert-AllIncreasing key stream m v h j t e = elim (Bool-cases (key =ᵇ j)) [
    | inl hit ↦
        subst (Increasing P.rax) (some_eq (sym (rw (find-insert j key stream m, hit) at e))) v
    | inr miss ↦ h j t (rw (find-insert j key stream m, miss) at e)
  ]
    where
      some_eq : some t ≡ some stream → stream ≡ t
      some_eq p = cc

  xadd_entry-IsSound :
      (key text : Bytes) (e : StreamEntryData) (s : Store P)
      → IsSound s
      → IsSound (xadd_entry now key text e s).1
  unfolding xadd_entry
  xadd_entry-IsSound key text e s sound = elim (Option-cases (find key s.streams)) [
    | inl n ↦
        rw (n, xadd_entry)
          (if_both IsSound _
            (streams-IsSound s _ sound (same _) (
              insert-AllIncreasing key _ s.streams
                (entry-Increasing text e (empty_stream P.rax) (empty-Increasing P.rax laws))
                sound.streams))
            sound)
    | inr (stream, n) ↦
        rw (n, xadd_entry)
          (streams-IsSound s _ sound (same _) (
            insert-AllIncreasing key _ s.streams
              (entry-Increasing text e stream (sound.streams key stream n)) sound.streams))
  ]

  pub xadd-IsSound :
      (args : List Bytes) (s : Store P) → IsSound s → IsSound (handle_xadd now args s).1
  unfolding handle_xadd
  xadd-IsSound (w ∷ key ∷ id ∷ field ∷ value ∷ rest) s sound =
      if_both (λ (r : Bytes × Store P). IsSound r.1) _
        (xadd_entry-IsSound key id (field_pairs (field ∷ value ∷ rest)) s sound) sound
  xadd-IsSound _ s sound = sound

module _ {P : Platform} (law : DigestLaw P) where
  -- Whatever ACL answers, only the passwords may have changed.
  abbrev UserOnly : Store P → Option (Bytes × Store P) → Type 0
  UserOnly s none = Unit
  UserOnly s (some (bytes, t)) =
      (t.sorted_sets ≡ s.sorted_sets)
      × (t.dynamic_vector ≡ s.dynamic_vector)
      × (t.streams ≡ s.streams)

  set_user-UserOnly : (rules : List Bytes) (s : Store P) → UserOnly s (set_user rules s)
  unfolding set_user
  set_user-UserOnly rules s = by_result (apply_rules P rules (credentials s))
    where
      by_result :
          (r : RuleResult)
          → UserOnly s (elim r [
            | applied c ↦ some (
              to_bytes (simple_string (codes "OK")),
              record s {
                default_user_enabled = c.enabled;
                default_user_nopass = c.nopass;
                default_user_passwords = c.passwords;
              },
            )
            | refused reply ↦ some (reply, s)
            | thrown ↦ none
          ])
      by_result (applied c) = (refl, refl, refl)
      by_result (refused reply) = (refl, refl, refl)
      by_result thrown = tt

  acl-UserOnly : (args : List Bytes) (s : Store P) → UserOnly s (handle_acl args s)
  unfolding handle_acl acl_setuser
  acl-UserOnly [] s = (refl, refl, refl)
  acl-UserOnly (w ∷ []) s = (refl, refl, refl)
  acl-UserOnly (w ∷ subcommand ∷ []) s = ground arith
  acl-UserOnly (w ∷ subcommand ∷ user ∷ rules) s = ground (arith, set_user-UserOnly rules s)

  -- The store behind ACL, which an exception leaves as it is.
  pub acl-IsSound :
      (args : List Bytes) (s : Store P)
      → IsSound s
      → (bytes : Bytes) (t : Store P) → handle_acl args s ≡ some (bytes, t)
      → IsSound t
  acl-IsSound args s sound bytes t e =
      let (sets, lists, streams) = subst (UserOnly s) e (acl-UserOnly args s) in
      record {
        sets = rw sets sound.sets;
        lists = rw lists sound.lists;
        streams = rw streams sound.streams;
        hashes = subst Held e (acl-Held P law args s sound.hashes);
      }
