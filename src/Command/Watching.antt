-- ===== src/Command/Watching.antt =====
-- WATCH: EXEC compares what is there with what was there.
use true_store.Base.{
  ◌≡◌, refl, sym, ap, ◌∙◌, inl, inr, Bool, true, false, Option, none, some, List, [], ◌∷◌, ◌++◌,
  map, append_assoc, append-nil, arith, if◌then◌else◌, Bool-cases, All,
}
use true_store.Text.{Bytes, codes, ◌=ᵇ◌, toupper, to_upper}
use true_store.Text.Equality.{eq_iff, eq_refl}
use true_store.Resp.{simple_string, null_array, to_bytes}
use true_store.Platform.{Platform, Now}
use true_store.Store.Types.{Store, error_reply}
use true_store.Store.{peek}
use true_store.Store.Expiry.{visible, visible-is_expired}
use true_store.Client.{ClientState}
use true_store.Command.{
  Replied, Dispatch, same_value, cleared, changed, exec_queued, handle_exec, run_command,
  handle_command, watch_keys, handle_watch, ok_reply,
}
use true_store.Command.Transactions.{IsOpen, open_command}

same_value_eq : (a b : Option Bytes) → same_value a b ≡ true → a ≡ b
unfolding same_value
same_value_eq none none h = refl
same_value_eq none (some b) h = cc
same_value_eq (some a) none h = cc
same_value_eq (some a) (some b) h = ap some ((eq_iff a b).0 h)

same_value_refl : (a : Option Bytes) → same_value a a ≡ true
unfolding same_value
same_value_refl none = refl
same_value_refl (some a) = eq_refl a

-- The keys have the values that were seen.
abbrev pub Unchanged : {P : Platform} → Now → Store P → List (Bytes × Option Bytes) → Type 0
Unchanged now s watched = All (λ e. visible now s e.0 ≡ e.1) watched

module _ {P : Platform} (now : Now) where
  -- A look at a key changes no visible string.
  visible-peek : (k j : Bytes) (s : Store P) → visible now (peek now k s).1 j ≡ visible now s j
  unfolding peek
  visible-peek k j s = ground (arith, visible-is_expired now now k j s)

  visible-changed :
      (watched : List (Bytes × Option Bytes)) (j : Bytes) (s : Store P)
      → visible now (changed now watched s).1 j ≡ visible now s j
  unfolding changed
  visible-changed [] j s = refl
  visible-changed ((k, v) ∷ rest) j s =
      ground (arith, visible-peek k j s, visible-changed rest j (peek now k s).1)

  Unchanged-peek :
      (k : Bytes) (watched : List (Bytes × Option Bytes)) (s : Store P)
      → (Unchanged now s watched → Unchanged now (peek now k s).1 watched)
        × (Unchanged now (peek now k s).1 watched → Unchanged now s watched)
  Unchanged-peek k [] s = (λ h. tt, λ h. tt)
  Unchanged-peek k ((j, v) ∷ rest) s =
      let (to, from) = Unchanged-peek k rest s in
      (λ h. (visible-peek k j s ∙ h.0, to h.1), λ h. (sym (visible-peek k j s) ∙ h.0, from h.1))

  -- The check of EXEC succeeds exactly if all keys have the values that were seen.
  changed-Unchanged :
      (watched : List (Bytes × Option Bytes)) (s : Store P)
      → ((changed now watched s).0 ≡ false → Unchanged now s watched)
        × (Unchanged now s watched → (changed now watched s).0 ≡ false)
  unfolding changed
  changed-Unchanged [] s = (λ h. tt, λ h. refl)
  changed-Unchanged ((k, v) ∷ rest) s =
      let (to, from) = changed-Unchanged rest (peek now k s).1 in
      let (there, back) = Unchanged-peek k rest s in
      elim (Bool-cases (same_value (peek now k s).0 v)) [
        | inl e ↦ (λ h. (same_value_eq _ v e, back (to (rw e at h))), λ h. rw e (from (there h.1)))
        | inr e ↦ (λ h. absurd (true_false (rw e at h)), λ h. absurd (differs e h.0))
      ]
    where
      true_false : true ≡ false → ⊥
      true_false h = cc

      differs : same_value (peek now k s).0 v ≡ false → (peek now k s).0 ≡ v → ⊥
      differs e h = ground (arith, same_value_refl v)

  -- What WATCH remembers of each key.
  abbrev pub snapshots : List Bytes → Store P → List (Bytes × Option Bytes)
  snapshots ks s = map (λ k. (k, visible now s k)) ks

  snapshots-peek :
      (k : Bytes) (ks : List Bytes) (s : Store P) → snapshots ks (peek now k s).1 ≡ snapshots ks s
  snapshots-peek k [] s = refl
  snapshots-peek k (j ∷ ks) s = rw (visible-peek k j s, snapshots-peek k ks s) refl

  watch_keys-snapshots :
      (ks : List Bytes) (c : ClientState) (s : Store P)
      → (watch_keys now ks c s).0 ≡ record c { watched = c.watched ++ snapshots ks s }
  unfolding watch_keys
  watch_keys-snapshots [] c s =
      ap (λ (l : List (Bytes × Option Bytes)). record c { watched = l })
        (sym (append-nil c.watched))
  watch_keys-snapshots (k ∷ ks) c s =
      rw
        (
          watch_keys-snapshots ks (record c { watched = c.watched ++ (k, visible now s k) ∷ [] })
              (peek now k s).1,
          snapshots-peek k ks s,
          append_assoc c.watched ((k, visible now s k) ∷ []) (snapshots ks s),
        )
        refl

  exec_command :
      (dispatch : Dispatch P) (c : ClientState) (s : Store P)
      → IsOpen c
      → handle_command now dispatch (codes "EXEC" ∷ []) c s ≡ handle_exec now dispatch c s
  unfolding run_command to_upper toupper ◌=ᵇ◌
  exec_command dispatch c s o = open_command dispatch now (codes "EXEC") [] c s o

  -- EXEC of an open client in a transaction: it runs the queued commands if every watched key has
  -- the string that WATCH saw, on a store in which the same strings are visible, and otherwise it
  -- answers with a null array and runs none. The client has left the transaction before the commands
  -- run, and what is visible is not changed by the check.
  pub exec_watches :
      (dispatch : Dispatch P) (c : ClientState) (s : Store P)
      → IsOpen c
      → c.in_multi ≡ true
      → let r = handle_command now dispatch (codes "EXEC" ∷ []) c s in
        (t : Store P) × ((j : Bytes) → visible now t j ≡ visible now s j)
        × (Unchanged now s c.watched → r ≡ exec_queued dispatch c.queued (cleared c) t)
        × ((Unchanged now s c.watched → ⊥) → r ≡ (to_bytes null_array, (cleared c, t)))
  unfolding handle_exec
  exec_watches dispatch c s o m = (
    (changed now c.watched s).1,
    (λ j. visible-changed c.watched j s),
    (λ u.
        exec_command dispatch c s o
        ∙ rw (m, (changed-Unchanged c.watched s).1 u, handle_exec) refl),
    (λ n. exec_command dispatch c s o ∙ elim (Bool-cases (changed now c.watched s).0) [
      | inl e ↦ rw (m, e, handle_exec) refl
      | inr e ↦ absurd (n ((changed-Unchanged c.watched s).0 e))
    ]),
  )

  watch_command :
      (dispatch : Dispatch P) (key : Bytes) (rest : List Bytes) (c : ClientState) (s : Store P)
      → IsOpen c
      → c.in_multi ≡ false
      → handle_command now dispatch (codes "WATCH" ∷ key ∷ rest) c s
        ≡ (to_bytes (simple_string (codes "OK")), watch_keys now (key ∷ rest) c s)
  unfolding run_command handle_watch ok_reply to_upper toupper ◌=ᵇ◌
  watch_command dispatch key rest c s o m =
      open_command dispatch now (codes "WATCH") (key ∷ rest) c s o ∙ by_mode c.in_multi m
    where
      by_mode :
          (b : Bool)
          → b ≡ false
          → ◌≡◌ {A = Replied P}
              (if b
                then (error_reply "ERR WATCH inside MULTI is not allowed", (c, s))
                else (to_bytes (simple_string (codes "OK")), watch_keys now (key ∷ rest) c s))
              (to_bytes (simple_string (codes "OK")), watch_keys now (key ∷ rest) c s)
      by_mode true h = cc
      by_mode false h = refl

  -- WATCH of one or more keys outside a transaction adds to what the client remembers the string
  -- that is visible under each key, and the reply is OK.
  pub watch_remembers :
      (dispatch : Dispatch P) (key : Bytes) (rest : List Bytes) (c : ClientState) (s : Store P)
      → IsOpen c
      → c.in_multi ≡ false
      → let r = handle_command now dispatch (codes "WATCH" ∷ key ∷ rest) c s in
        (r.0 ≡ to_bytes (simple_string (codes "OK")))
        × (r.1.0 ≡ record c { watched = c.watched ++ snapshots (key ∷ rest) s })
  watch_remembers dispatch key rest c s o m =
      rw (watch_command dispatch key rest c s o m) (refl, watch_keys-snapshots (key ∷ rest) c s)
