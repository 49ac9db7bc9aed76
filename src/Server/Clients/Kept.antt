-- ===== src/Server/Clients/Kept.antt =====
-- What the commands of clients and the rounds for waiters keep of the tables of `Server::run`.
use true_store.Base.{
  ◌≡◌, refl, ◌∙◌, Bool, true, false, not, ◌&&◌, Option, none, some, List, [], ◌∷◌, ◌++◌, ℤ, leb,
  if◌then◌else◌, if_both, ◌==◌, length,
}
use true_store.Text.{Bytes, codes, ◌=ᵇ◌, to_upper}
use true_store.Platform.{Platform}
use true_store.Resp.{command_bytes}
use true_store.Store.Types.{BlockKind, list_block, stream_block, wait_block}
use true_store.Store.{take_pending_propagations}
use true_store.Command.{is_error}
use true_store.Lists.{try_blpop}
use true_store.Streams.Commands.{try_xread}
use true_store.Aof.{append_transaction}
use true_store.Server.{
  Server, Waiter, is_logged, count_acked, send_to_replicas, propagate_to_replicas, propagate_for,
  append_log, append_all, propagate_all, add_replica, after_command, log_and_propagate, answer,
  serve_popped, serve_one, serve_waiters,
}
use true_store.Server.Clients.Tables.{Waiting, Replicas, kept-Replicas, emplace-Replicas}

module _ {P : Platform} (reaches : ℤ → Bytes → Bool) (Q : ℤ → Type 0) where
  -- The waiters are the same, and the replicas still have `Q`.
  unfoldable pub Keeps : Server P → Server P → Type 0
  Keeps v w = (w.waiters ≡ v.waiters) × (Replicas Q v.replicas → Replicas Q w.replicas)

  then_Keeps : (u v w : Server P) → Keeps u v → Keeps v w → Keeps u w
  unfolding Keeps
  then_Keeps u v w (a, f) (b, g) = (b ∙ a, λ h. g (f h))

  same_Keeps : (v : Server P) → Keeps v v
  unfolding Keeps
  same_Keeps v = (refl, λ h. h)

  pub sent-Keeps : (bytes : Bytes) (v : Server P) → Keeps v (send_to_replicas reaches bytes v)
  unfolding Keeps send_to_replicas
  sent-Keeps bytes v = (refl, kept-Replicas Q reaches bytes v.replicas)

  propagated-Keeps :
      (fd : ℤ) (args : List Bytes) (v : Server P) → Keeps v (propagate_for reaches fd args v)
  unfolding Keeps propagate_for propagate_to_replicas
  propagated-Keeps fd args v = sent-Keeps (command_bytes args) v

  logged-Keeps :
      (opened : Bool) (fd : ℤ) (pending : List (List Bytes)) (v : Server P)
      → Keeps v (log_and_propagate reaches opened fd pending v)
  unfolding log_and_propagate append_log Keeps
  logged-Keeps opened fd [] v = same_Keeps v
  logged-Keeps opened fd (args ∷ pending) v =
      let t = append_log reaches opened args v in
      let u = propagate_for reaches fd args t in
      then_Keeps v u (log_and_propagate reaches opened fd pending u) (propagated-Keeps fd args t)
        (logged-Keeps opened fd pending u)

  propagate_all-Keeps :
      (fd : ℤ) (pending : List (List Bytes)) (v : Server P)
      → Keeps v (propagate_all reaches fd pending v)
  unfolding propagate_all
  propagate_all-Keeps fd [] v = same_Keeps v
  propagate_all-Keeps fd (args ∷ pending) v =
      let u = propagate_for reaches fd args v in
      then_Keeps v u (propagate_all reaches fd pending u) (propagated-Keeps fd args v)
        (propagate_all-Keeps fd pending u)

  append_all-Keeps :
      (opened : Bool) (pending : List (List Bytes)) (v : Server P)
      → Keeps v (append_all reaches opened pending v)
  unfolding append_all append_log Keeps
  append_all-Keeps opened [] v = same_Keeps v
  append_all-Keeps opened (args ∷ pending) v =
      append_all-Keeps opened pending (append_log reaches opened args v)

  replica-Keeps :
      (fd : ℤ) (was_in_multi : Bool) (args : List Bytes) (response : Bytes) (v : Server P)
      → Q fd
      → Keeps v (add_replica reaches fd was_in_multi args response v)
  unfolding add_replica Keeps
  replica-Keeps fd was_in_multi [] response v q = same_Keeps v
  replica-Keeps fd was_in_multi (word ∷ rest) response v q =
      if_both (Keeps v)
        (to_upper word =ᵇ codes "PSYNC"
          && (not was_in_multi && (not (length response == 0) && not (is_error response))))
        (refl, emplace-Replicas Q fd v.store.master_repl_offset v.replicas q) (same_Keeps v)

  pub after_command-Keeps :
      (opened : Bool) (fd : ℤ) (was_in_multi : Bool) (args : List Bytes) (response : Bytes)
      (v : Server P)
      → Q fd
      → Keeps v (after_command reaches opened fd was_in_multi args response v)
  unfolding after_command append_log Keeps
  after_command-Keeps opened fd was_in_multi args response v q =
      let v1 = add_replica reaches fd was_in_multi args response v in
      let v2 =
        (if is_logged was_in_multi args response
          then propagate_for reaches fd args (append_log reaches opened args v1)
          else v1) in
      let itself : Keeps v1 v2 =
        if_both (Keeps v1) (is_logged was_in_multi args response)
          (propagated-Keeps fd args (append_log reaches opened args v1)) (same_Keeps v1) in
      let (pending, s) = take_pending_propagations v2.store in
      let v3 : Server P = record v2 { store = s } in
      let v4 =
        (if was_in_multi
          then record v3 { log = v3.log ++ append_transaction opened pending }
          else append_all reaches opened pending v3) in
      let queued : Keeps v3 v4 =
        if_both (Keeps v3) was_in_multi (same_Keeps v3) (append_all-Keeps opened pending v3) in
      let w = propagate_all reaches fd pending v4 in
      then_Keeps v v1 w (replica-Keeps fd was_in_multi args response v q)
        (then_Keeps v1 v2 w itself (then_Keeps v3 v4 w queued (propagate_all-Keeps fd pending v4)))

  popped-Keeps :
      (opened : Bool) (waiter : Waiter) (popped : Option (Bytes × Bytes)) (v : Server P)
      → Keeps v (serve_popped reaches opened waiter popped v).1
  unfolding serve_popped answer Keeps
  popped-Keeps opened waiter none v = same_Keeps v
  popped-Keeps opened waiter (some (key, value)) v =
      let (pending, s) = take_pending_propagations v.store in
      logged-Keeps opened waiter.fd pending (record v { store = s })

  served-Keeps :
      (opened : Bool) (waiter : Waiter) (v : Server P)
      → Keeps v (serve_one reaches opened waiter v).1
  unfolding serve_one answer Keeps
  served-Keeps opened waiter v = by_kind waiter.kind
    where
      by_reply :
          (reply : Option Bytes)
          → Keeps v
              (elim reply as (λ r. Bool × Server P) [
                | none ↦ (false, v)
                | some bytes ↦
                    (true, answer reaches (record waiter { kind = stream_block }) bytes v)
              ]).1
      by_reply none = same_Keeps v
      by_reply (some bytes) = same_Keeps v

      by_kind :
          (kind : BlockKind)
          → Keeps v (serve_one reaches opened (record waiter { kind = kind }) v).1
      by_kind wait_block =
          if_both (λ (r : Bool × Server P). Keeps v r.1)
            (leb waiter.count (count_acked waiter.target_offset v.replicas)) (same_Keeps v)
            (same_Keeps v)
      by_kind list_block =
          let (popped, s) = try_blpop waiter.keys v.store in
          popped-Keeps opened (record waiter { kind = list_block }) popped (record v { store = s })
      by_kind stream_block = by_reply (try_xread waiter.keys waiter.ids waiter.count v.store)

  pub served_all :
      (opened : Bool) (waiters : List Waiter) (v : Server P)
      → Waiting Q waiters
      → Replicas Q v.replicas
      → let (stay, w) = serve_waiters reaches opened waiters v in
        Waiting Q stay × Replicas Q w.replicas
  unfolding serve_waiters Keeps
  served_all opened [] v h k = (tt, k)
  served_all opened (waiter ∷ waiters) v (q, h) k =
      let (served, u) = serve_one reaches opened waiter v in
      let (rest, replicas) = served_all opened waiters u h ((served-Keeps opened waiter v).1 k) in
      (if_both (Waiting Q) served rest (q, rest), replicas)
