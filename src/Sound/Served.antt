-- ===== src/Sound/Served.antt =====
-- The invariant of the store along any history of the server.
use true_store.Base.{
  ℕ, ◌^◌, ◌<◌, Bool, not, ◌&&◌, Option, List, [], ◌∷◌, ◌++◌, arith, length, ◌==◌, if_both, ℤ,
}
use true_store.Text.{Bytes, codes, ◌=ᵇ◌, to_upper}
use true_store.Platform.{Platform, Now}
use true_store.Store.Types.{Store}
use true_store.Client.{ClientState}
use true_store.Store.{
  take_pending_block, take_pending_propagations, take_pending_messages, queue_propagation, peek,
  bump_repl_offset, set_repl_offset,
}
use true_store.PubSub.{remove_subscriber}
use true_store.Lists.{try_blpop}
use true_store.Rdb.{RdbEntry}
use true_store.Setup.{load_entry, load_entries}
use true_store.Command.{
  after_queued, end_session, handle_multi, handle_discard, watch_keys, handle_watch, changed,
  run_queued, exec_queued, handle_exec, run_command, handle_command, cleared, one_of,
  default_user_auto_auth,
}
use true_store.Command.Handlers.{dispatch_command}
use true_store.Sound.{StoreLaws, IsSound, SameParts, SameParts-IsSound}
use true_store.Sound.Commands.{Leaves, leaves, dispatch-Leaves}
use true_store.Sound.Frames.{same, then_same, peek-Same}
use true_store.Sound.Reads.{removed-Same}
use true_store.Sound.Structures.{try_blpop-IsSound}

module _ {P : Platform} where
  block-Same : (s : Store P) → SameParts s (take_pending_block s).1
  unfolding take_pending_block
  block-Same s = ground arith

  queue-Same : (args : List Bytes) (s : Store P) → SameParts s (queue_propagation args s)
  unfolding queue_propagation
  queue-Same args s = ground arith

  propagations-Same : (s : Store P) → SameParts s (take_pending_propagations s).1
  unfolding take_pending_propagations
  propagations-Same s = ground arith

  messages-Same : (s : Store P) → SameParts s (take_pending_messages s).1
  unfolding take_pending_messages
  messages-Same s = ground arith

  bumped-Same : (bytes : ℕ) (s : Store P) → SameParts s (bump_repl_offset bytes s)
  unfolding bump_repl_offset
  bumped-Same bytes s = ground arith

  offset-Same : (value : ℤ) (s : Store P) → SameParts s (set_repl_offset value s)
  unfolding set_repl_offset
  offset-Same value s = ground arith

  queued-Same :
      (args : List Bytes) (result : Bytes) (s : Store P)
      → SameParts s (after_queued args result s).1
  unfolding after_queued
  queued-Same args result s =
      let t = (take_pending_block s).1 in
      let first = block-Same s in ground (arith, block-Same s, queue-Same args t)

  watch_keys-Same :
      (now : Now) (ks : List Bytes) (c : ClientState) (s : Store P)
      → SameParts s (watch_keys now ks c s).1
  unfolding watch_keys
  watch_keys-Same now [] c s = same s
  watch_keys-Same now (key ∷ ks) c s =
      let (value, t) = peek now key s in
      let d : ClientState = record c { watched = c.watched ++ (key, value) ∷ [] } in
      then_same s t (watch_keys now ks d t).1 (peek-Same now key s) (watch_keys-Same now ks d t)

  changed-Same :
      (now : Now) (watched : List (Bytes × Option Bytes)) (s : Store P)
      → SameParts s (changed now watched s).1
  unfolding changed
  changed-Same now [] s = same s
  changed-Same now ((key, snapshot) ∷ rest) s =
      let t = (peek now key s).1 in ground (arith, peek-Same now key s, changed-Same now rest t)

  ended-Same :
      (quits : Bool) (rest : List Bytes) (c : ClientState) (s : Store P)
      → SameParts s (end_session quits rest c s).1.1
  unfolding end_session
  ended-Same quits [] c s = removed-Same c.fd s
  ended-Same quits (w ∷ rest) c s = same s

  multi-Same :
      (rest : List Bytes) (c : ClientState) (s : Store P) → SameParts s (handle_multi rest c s).1.1
  unfolding handle_multi
  multi-Same [] c s = ground arith
  multi-Same (w ∷ rest) c s = same s

  discard-Same : (c : ClientState) (s : Store P) → SameParts s (handle_discard c s).1.1
  unfolding handle_discard
  discard-Same c s = ground arith

  watch-Same :
      (now : Now) (rest : List Bytes) (c : ClientState) (s : Store P)
      → SameParts s (handle_watch now rest c s).1.1
  unfolding handle_watch
  watch-Same now [] c s = same s
  watch-Same now (key ∷ rest) c s = ground (arith, watch_keys-Same now (key ∷ rest) c s)

module _ {P : Platform} (laws : StoreLaws P) (now : Now) (small : now.system_ms < 2 ^ 64) where
  run_queued-IsSound :
      (queued : List (List Bytes)) (c : ClientState) (s : Store P)
      → IsSound s
      → IsSound (run_queued (dispatch_command now) queued c s).1.1
  unfolding run_queued
  run_queued-IsSound [] c s sound = sound
  run_queued-IsSound (args ∷ rest) c s sound =
      let (result, (d, t)) = dispatch_command now args c s in
      let u = (after_queued args result t).1 in
      run_queued-IsSound rest d u (
        SameParts-IsSound t u (queued-Same args result t)
          (dispatch-Leaves laws now small args c s sound).sound)

  exec-IsSound :
      (c : ClientState) (s : Store P)
      → IsSound s
      → IsSound (handle_exec now (dispatch_command now) c s).1.1
  unfolding handle_exec exec_queued
  exec-IsSound c s sound =
      let t = (changed now c.watched s).1 in
      let checked = SameParts-IsSound s t (changed-Same now c.watched s) sound in
      ground (arith, sound, checked, run_queued-IsSound c.queued (cleared c) t checked)

  run-Leaves :
      (word : Bytes) (rest : List Bytes) (c : ClientState) (s : Store P)
      → IsSound s
      → Leaves (run_command now (dispatch_command now) word rest c s)
  unfolding run_command
  run-Leaves word rest c s sound =
      let command = to_upper word in
      let frame = λ (t : Store P) (h : SameParts s t). SameParts-IsSound s t h sound in
      if_both Leaves (one_of command ("QUIT" ∷ "RESET" ∷ []))
        (leaves _ (frame _ (ended-Same (command =ᵇ codes "QUIT") rest c s)))
        (if_both Leaves (command =ᵇ codes "MULTI") (leaves _ (frame _ (multi-Same rest c s))) (
          if_both Leaves (command =ᵇ codes "WATCH") (leaves _ (frame _ (watch-Same now rest c s))) (
            if_both Leaves (command =ᵇ codes "UNWATCH") (leaves _ sound) (
              if_both Leaves (command =ᵇ codes "DISCARD") (leaves _ (frame _ (discard-Same c s))) (
                if_both Leaves (command =ᵇ codes "EXEC") (leaves _ (exec-IsSound c s sound)) (
                  if_both Leaves c.in_multi (leaves _ sound)
                    (dispatch-Leaves laws now small (word ∷ rest) c s sound)))))))

  checked-Leaves :
      (args : List Bytes) (c : ClientState) (s : Store P)
      → IsSound s
      → Leaves (handle_command now (dispatch_command now) args c s)
  unfolding handle_command
  checked-Leaves [] c s sound = leaves _ sound
  checked-Leaves (word ∷ rest) c s sound =
      if_both Leaves
        (not c.authenticated
          && (not (default_user_auto_auth s)
              && not (one_of (to_upper word) ("AUTH" ∷ "QUIT" ∷ "RESET" ∷ []))))
        (leaves _ sound)
        (if_both Leaves
          (not (length c.subscriptions == 0)
            && not (
                one_of (to_upper word) (
                  "SUBSCRIBE" ∷ "UNSUBSCRIBE" ∷ "PSUBSCRIBE" ∷ "PUNSUBSCRIBE" ∷ "PING" ∷ "QUIT"
                  ∷ "RESET" ∷ [])))
          (leaves _ sound) (run-Leaves word rest c s sound))

  -- A command of any client, whatever it has queued, watches or may do.
  pub command-IsSound :
      (args : List Bytes) (c : ClientState) (s : Store P)
      → IsSound s
      → IsSound (handle_command now (dispatch_command now) args c s).1.1
  command-IsSound args c s sound = (checked-Leaves args c s sound).sound

-- What the server does with its store: the entries of a snapshot, commands of any clients, the taking
-- of what they left, the retry of a blocked BLPOP, the end of a connection, and the offsets: of what
-- is sent to replicas, and of what has come from a primary.
pub data Step {P : Platform} : Store P → Store P → Type 0 where
  loaded :
      (system steady : ℤ) (entries : List RdbEntry) (s : Store P)
      → Step s (load_entries system steady entries s)
  command :
      (now : Now) (args : List Bytes) (c : ClientState) (s : Store P)
      → now.system_ms < 2 ^ 64
      → Step s (handle_command now (dispatch_command now) args c s).1.1
  block_taken : (s : Store P) → Step s (take_pending_block s).1
  propagations_taken : (s : Store P) → Step s (take_pending_propagations s).1
  messages_taken : (s : Store P) → Step s (take_pending_messages s).1
  retried : (ks : List Bytes) (s : Store P) → Step s (try_blpop ks s).1
  closed : (fd : ℤ) (s : Store P) → Step s (remove_subscriber fd s)
  offset_bumped : (bytes : ℕ) (s : Store P) → Step s (bump_repl_offset bytes s)
  offset_set : (value : ℤ) (s : Store P) → Step s (set_repl_offset value s)

-- Any number of steps.
pub data Reaches {P : Platform} (s : Store P) : Store P → Type 0 where
  start : Reaches s s
  next : {t u : Store P} → Reaches s t → Step t u → Reaches s u

module _ {P : Platform} (laws : StoreLaws P) where
  loaded-Same :
      (system steady : ℤ) (entries : List RdbEntry) (s : Store P)
      → SameParts s (load_entries system steady entries s)
  unfolding load_entries load_entry
  loaded-Same system steady [] s = same s
  loaded-Same system steady (entry ∷ entries) s =
      let t = load_entry system steady entry s in
      then_same s t (load_entries system steady entries t) (ground arith)
        (loaded-Same system steady entries t)

  step-IsSound : {s t : Store P} → Step s t → IsSound s → IsSound t
  step-IsSound (loaded system steady entries s) sound =
      SameParts-IsSound s _ (loaded-Same system steady entries s) sound
  step-IsSound (command now args c s small) sound = command-IsSound laws now small args c s sound
  step-IsSound (block_taken s) sound = SameParts-IsSound s _ (block-Same s) sound
  step-IsSound (propagations_taken s) sound = SameParts-IsSound s _ (propagations-Same s) sound
  step-IsSound (messages_taken s) sound = SameParts-IsSound s _ (messages-Same s) sound
  step-IsSound (retried ks s) sound = try_blpop-IsSound ks s sound
  step-IsSound (closed fd s) sound = SameParts-IsSound s _ (removed-Same fd s) sound
  step-IsSound (offset_bumped bytes s) sound = SameParts-IsSound s _ (bumped-Same bytes s) sound
  step-IsSound (offset_set value s) sound = SameParts-IsSound s _ (offset-Same value s) sound

  -- Along any history of the server, whatever its clients send and in whatever order, the two indexes
  -- of every sorted set agree, no key holds an empty list, the IDs of every stream do not exceed the
  -- greatest that it has recorded, and the passwords are hashes, if that was so in the beginning. The
  -- system clock shows less than 2^64 milliseconds.
  pub reached-IsSound : {s t : Store P} → Reaches s t → IsSound s → IsSound t
  reached-IsSound start sound = sound
  reached-IsSound (next r step) sound = step-IsSound step (reached-IsSound r sound)
