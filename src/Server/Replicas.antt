-- ===== src/Server/Replicas.antt =====
-- The log and the stream to the replicas.
use true_store.Base.{
  ℕ, ◌+◌, ◌^◌, ◌<◌, ◌≡◌, refl, sym, ap, ◌∙◌, inl, inr, Bool, true, false, not, ◌&&◌, List, [], ◌∷◌,
  ◌++◌, map, append_assoc, append-nil, arith, ◌==◌, if◌then◌else◌, Bool-cases, length,
  length-append, ℤ, pos, ◌+ℤ◌, wrap_i64, wrap_i64_fits,
}
use true_store.Text.{Bytes, codes, ◌=ᵇ◌, to_upper}
use true_store.Resp.{command_bytes}
use true_store.Platform.{Platform}
use true_store.Aof.{append_transaction, append, printed}
use true_store.Command.{is_error}
use true_store.Store.{take_pending_propagations, bump_repl_offset}
use true_store.Server.{
  emplace_replica, take_pending_propagations, append_log, is_logged, add_replica, append_all,
  after_command, Server, send_to_replicas, propagate_to_replicas, propagate_for, propagate_all,
}

-- The bytes that were sent to replicas, one message behind the other.
unfoldable pub stream_bytes : List (List ℤ × Bytes) → Bytes
stream_bytes [] = []
stream_bytes ((fds, encoded) ∷ stream) = encoded ++ stream_bytes stream

pub stream_bytes-append :
    (stream : List (List ℤ × Bytes)) (fds : List ℤ) (encoded : Bytes)
    → stream_bytes (stream ++ (fds, encoded) ∷ []) ≡ stream_bytes stream ++ encoded
unfolding stream_bytes
stream_bytes-append [] fds encoded = append-nil encoded
stream_bytes-append ((other, bytes) ∷ stream) fds encoded =
    ap (◌++◌ bytes) (stream_bytes-append stream fds encoded)
    ∙ sym (append_assoc bytes (stream_bytes stream) encoded)

bump_fits : (o n : ℕ) → o + n < 2 ^ 63 → wrap_i64 (pos o +ℤ pos n) ≡ pos (o + n)
bump_fits o n h = ap wrap_i64 total ∙ wrap_i64_fits (o + n) (omega (arith, h))
  where
    total : pos o +ℤ pos n ≡ pos (o + n)
    total = ground arith

abbrev pending_bytes : Bool → List (List Bytes) → Bytes
pending_bytes was_in_multi pending =
    if was_in_multi then append_transaction true pending else printed pending

-- The commands that a client's command sends on: itself, if it is logged, and then what it left.
abbrev pub outgoing : Bool → List Bytes → List (List Bytes) → List (List Bytes)
outgoing itself args pending = if itself then args ∷ pending else pending

module _ {P : Platform} (reaches : ℤ → Bytes → Bool) where
  -- What propagation does to the log, the stream and the offset.
  Sends : Server P → Bytes → Server P → Type 0
  Sends v bytes w =
      (w.log ≡ v.log)
      × (stream_bytes w.stream ≡ stream_bytes v.stream ++ bytes)
      × ((o : ℕ)
          → v.store.master_repl_offset ≡ pos o
          → o + length bytes < 2 ^ 63
          → w.store.master_repl_offset ≡ pos (o + length bytes))

  propagate_for-Sends :
      (fd : ℤ) (args : List Bytes) (v : Server P)
      → Sends v (command_bytes args) (propagate_for reaches fd args v)
  unfolding propagate_for propagate_to_replicas send_to_replicas bump_repl_offset Sends
  propagate_for-Sends fd args v = (
    refl,
    stream_bytes-append v.stream (map (λ r. r.0) v.replicas) (command_bytes args),
    λ o e h.
        ap (λ (x : ℤ). wrap_i64 (x +ℤ pos (length (command_bytes args)))) e
        ∙ bump_fits o (length (command_bytes args)) h,
  )

  propagate_all-Sends :
      (fd : ℤ) (pending : List (List Bytes)) (v : Server P)
      → Sends v (printed pending) (propagate_all reaches fd pending v)
  unfolding propagate_all printed Sends
  propagate_all-Sends fd [] v =
      (refl, sym (append-nil (stream_bytes v.stream)), λ o e h. e ∙ ap pos (omega arith))
  propagate_all-Sends fd (args ∷ pending) v =
      let (log, stream, offset) = propagate_for-Sends fd args v in
      let (log', stream', offset') =
        propagate_all-Sends fd pending (propagate_for reaches fd args v) in
      let size = length-append (command_bytes args) (printed pending) in
      (
        log' ∙ log,
        stream'
            ∙ ap (λ (s : Bytes). s ++ printed pending) stream
            ∙ append_assoc (stream_bytes v.stream) (command_bytes args) (printed pending),
        λ o e h.
            offset' (o + length (command_bytes args)) (offset o e (omega (arith, h, size)))
              (omega (arith, h, size))
            ∙ ap pos (omega (arith, size)),
      )

  append_all_lem :
      (pending : List (List Bytes)) (v : Server P)
      → let u = append_all reaches true pending v in
        (u.log ≡ v.log ++ printed pending) × (u.stream ≡ v.stream) × (u.store ≡ v.store)
  unfolding append_all append_log append printed
  append_all_lem [] v = (sym (append-nil v.log), refl, refl)
  append_all_lem (args ∷ pending) v =
      let (log, stream, store) = append_all_lem pending (append_log reaches true args v) in
      (log ∙ append_assoc v.log (command_bytes args) (printed pending), stream, store)

  -- The part of `after_command` behind the command itself.
  pending_logged :
      (was_in_multi : Bool) (fd : ℤ) (pending : List (List Bytes)) (v : Server P)
      → let w = propagate_all reaches fd pending (
          if was_in_multi
          then record v { log = v.log ++ append_transaction true pending }
          else append_all reaches true pending v) in
        (w.log ≡ v.log ++ pending_bytes was_in_multi pending)
        × (stream_bytes w.stream ≡ stream_bytes v.stream ++ printed pending)
        × ((o : ℕ)
            → v.store.master_repl_offset ≡ pos o
            → o + length (printed pending) < 2 ^ 63
            → w.store.master_repl_offset ≡ pos (o + length (printed pending)))
  unfolding Sends
  pending_logged true fd pending v =
      propagate_all-Sends fd pending (record v { log = v.log ++ append_transaction true pending })
  pending_logged false fd pending v =
      let u = append_all reaches true pending v in
      let (log, stream, store) = append_all_lem pending v in
      let (log', stream', offset) = propagate_all-Sends fd pending u in
      (
        log' ∙ log,
        stream' ∙ ap (λ s. stream_bytes s ++ printed pending) stream,
        λ o e. offset o (ap (λ s. s.master_repl_offset) store ∙ e),
      )

  add_replica_fields :
      (fd : ℤ) (was_in_multi : Bool) (args : List Bytes) (response : Bytes) (v : Server P)
      → (replicas : List (ℤ × ℤ)) × (add_replica reaches fd was_in_multi args response v
          ≡ record v { replicas = replicas })
  unfolding add_replica
  add_replica_fields fd was_in_multi [] response v = (v.replicas, refl)
  add_replica_fields fd was_in_multi (word ∷ rest) response v =
      elim (Bool-cases (
        to_upper word =ᵇ codes "PSYNC"
        && (not was_in_multi && (not (length response == 0) && not (is_error response))))) [
          | inl e ↦ (emplace_replica fd v.store.master_repl_offset v.replicas, rw e refl)
          | inr e ↦ (v.replicas, rw e refl)
        ]

  -- `after_command` behind the test for PSYNC.
  finish : Bool → ℤ → Bool → List Bytes → Server P → Server P
  finish itself fd was_in_multi args v =
      let v2 =
        (if itself then propagate_for reaches fd args (append_log reaches true args v) else v) in
      let (pending, s) = take_pending_propagations v2.store in
      let v3 = record v2 { store = s } in
      propagate_all reaches fd pending (
        if was_in_multi
        then record v3 { log = v3.log ++ append_transaction true pending }
        else append_all reaches true pending v3)

  finished :
      (itself : Bool) (fd : ℤ) (was_in_multi : Bool) (args : List Bytes) (v : Server P) (o : ℕ)
      → v.store.master_repl_offset ≡ pos o
      → o + length (printed (outgoing itself args v.store.pending_propagations)) < 2 ^ 63
      → let pending = v.store.pending_propagations in
        let w = finish itself fd was_in_multi args v in
        (w.log
          ≡ v.log
            ++ ((if itself then command_bytes args else []) ++ pending_bytes was_in_multi pending))
        × (stream_bytes w.stream ≡ stream_bytes v.stream ++ printed (outgoing itself args pending))
        × (w.store.master_repl_offset ≡ pos (o + length (printed (outgoing itself args pending))))
  unfolding finish take_pending_propagations Sends printed append_log append propagate_for
      propagate_to_replicas send_to_replicas bump_repl_offset
  finished false fd was_in_multi args v o e small =
      let (log, stream, offset) =
        pending_logged was_in_multi fd v.store.pending_propagations
          (record v { store = record v.store { pending_propagations = [] } }) in
      (log, stream, offset o e small)
  finished true fd was_in_multi args v o e small =
      let u = propagate_for reaches fd args (append_log reaches true args v) in
      let (log, stream, offset) = propagate_for-Sends fd args (append_log reaches true args v) in
      let pending = v.store.pending_propagations in
      let size = length-append (command_bytes args) (printed pending) in
      let (log', stream', offset') =
        pending_logged was_in_multi fd pending
          (record u { store = record u.store { pending_propagations = [] } }) in
      (
        log'
            ∙ ap (λ (s : Bytes). s ++ pending_bytes was_in_multi pending) log
            ∙ append_assoc v.log (command_bytes args) (pending_bytes was_in_multi pending),
        stream'
            ∙ ap (λ (s : Bytes). s ++ printed pending) stream
            ∙ append_assoc (stream_bytes v.stream) (command_bytes args) (printed pending),
        offset' (o + length (command_bytes args)) (offset o e (omega (arith, small, size)))
              (omega (arith, small, size))
            ∙ ap pos (omega (arith, size)),
      )

  after_command-finish :
      (fd : ℤ) (was_in_multi : Bool) (args : List Bytes) (response : Bytes) (v : Server P)
      → after_command reaches true fd was_in_multi args response v
        ≡ finish
            (is_logged was_in_multi args response)
            fd
            was_in_multi
            args
            (add_replica reaches fd was_in_multi args response v)
  unfolding after_command finish
  after_command-finish fd was_in_multi args response v = refl

transaction_unlogged : (args : List Bytes) (response : Bytes) → is_logged true args response ≡ false
unfolding is_logged
transaction_unlogged [] response = refl
transaction_unlogged (word ∷ rest) response = refl

logged_bytes :
    (was_in_multi : Bool) (args : List Bytes) (response : Bytes) (pending : List (List Bytes))
    → let itself = is_logged was_in_multi args response in
      (if itself then command_bytes args else []) ++ pending_bytes was_in_multi pending ≡ (
        if was_in_multi
        then append_transaction true pending
        else printed (outgoing itself args pending))
logged_bytes true args response pending = rw (transaction_unlogged args response) refl
logged_bytes false args response pending = by_test (is_logged false args response)
  where
    by_test :
        (itself : Bool)
        → (if itself then command_bytes args else []) ++ printed pending
          ≡ printed (outgoing itself args pending)
    by_test true = unfold printed in refl
    by_test false = refl

-- After any command of a client, the log has grown by exactly the commands that were sent on to the
-- replicas, in the same order; those of a transaction stand between MULTI and EXEC there. The
-- replication offset has grown by the bytes that were sent, while it stays below 2^63.
pub after_command_streams :
    {P : Platform} (reaches : ℤ → Bytes → Bool) (fd : ℤ) (was_in_multi : Bool) (args : List Bytes)
    (response : Bytes) (v : Server P) (o : ℕ)
    → v.store.master_repl_offset ≡ pos o
    → o
        + length (
            printed
              (outgoing (is_logged was_in_multi args response) args v.store.pending_propagations))
      < 2 ^ 63
    → let pending = v.store.pending_propagations in
      let out = outgoing (is_logged was_in_multi args response) args pending in
      let w = after_command reaches true fd was_in_multi args response v in
      (w.log ≡ v.log ++ (if was_in_multi then append_transaction true pending else printed out))
      × (stream_bytes w.stream ≡ stream_bytes v.stream ++ printed out)
      × (w.store.master_repl_offset ≡ pos (o + length (printed out)))
after_command_streams reaches fd was_in_multi args response v o e small =
    let itself = is_logged was_in_multi args response in
    let (replicas, same) = add_replica_fields reaches fd was_in_multi args response v in
    let whole =
      after_command-finish reaches fd was_in_multi args response v
      ∙ ap (finish reaches itself fd was_in_multi args) same in
    let (log, stream, offset) =
      finished reaches itself fd was_in_multi args (record v { replicas = replicas }) o e small in
    (
      ap (λ w. w.log) whole
          ∙ log
          ∙ ap (◌++◌ v.log) (logged_bytes was_in_multi args response v.store.pending_propagations),
      ap (λ w. stream_bytes w.stream) whole ∙ stream,
      ap (λ w. w.store.master_repl_offset) whole ∙ offset,
    )
