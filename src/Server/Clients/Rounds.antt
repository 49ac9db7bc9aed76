-- ===== src/Server/Clients/Rounds.antt =====
-- How long the loops run that split a buffer into commands: those of server/server.cpp and of the
-- replay in aof/aof.cpp.
use mathlib.Core.Path.{subst}
use true_store.Base.{
  ℕ, zero, suc, ◌^◌, ◌≤◌, ◌<◌, ◌≢◌, Bool, Option, none, some, List, arith, if_both, if◌then◌else◌,
  length, drop, length-drop, ℤ,
}
use true_store.Text.{Bytes}
use true_store.Platform.{Platform, Now}
use true_store.Command.{Dispatch}
use true_store.Resp.Parse.{Parsed, done, more, resp_error, length_error, parse_command}
use true_store.Resp.Consumed.{EndsIn, parse_command-EndsIn}
use true_store.Aof.{Replaying, Replay, exception, out_of_fuel, left, drain, replay_command}
use true_store.Server.Primary.{
  Following, Heard, waits, gone, crashed, out_of_rounds, follow_command, follow_buffer,
}
use true_store.Server.Clients.{
  Loop, Handled, asks_more, ended, failed, no_rounds, close_client, serve_request, serve_buffer,
}

-- The result is not that of a loop that was cut off.
abbrev Ended : {P : Platform} → Handled P → Type 0
Ended no_rounds = ⊥
Ended _ = Unit

abbrev Left : {P : Platform} → Heard P → Type 0
Left out_of_rounds = ⊥
Left _ = Unit

abbrev Stopped : {P : Platform} → Replay P → Type 0
Stopped out_of_fuel = ⊥
Stopped _ = Unit

module _ {P : Platform} (clock : ℕ → Now) (dispatch : Now → Dispatch P) (opened : Bool) where
  replay_ends :
      (fuel : ℕ) (buffer : Bytes) (r : Replaying P)
      → length buffer < fuel
      → length buffer < 2 ^ 64
      → Stopped (drain clock dispatch fuel buffer r)
  unfolding drain
  replay_ends zero buffer r enough small = absurd (omega arith)
  replay_ends (suc fuel) buffer r enough small =
      by_parse (parse_command buffer) (parse_command-EndsIn buffer small) (λ n next pos inside.
        replay_ends fuel (drop n buffer) next (omega (arith, length-drop n buffer, enough))
          (omega (arith, length-drop n buffer, small)))
    where
      by_result :
          (n : ℕ) (o : Option (Replaying P))
          → ((next : Replaying P) → Stopped (drain clock dispatch fuel (drop n buffer) next))
          → Stopped (elim o as (λ x. Replay P) [
            | none ↦ exception
            | some next ↦ drain clock dispatch fuel (drop n buffer) next
          ])
      by_result n none h = tt
      by_result n (some next) h = h next

      by_parse :
          (p : Parsed (List Bytes × ℕ))
          → EndsIn 1 (length buffer) p
          → ((n : ℕ) (next : Replaying P)
              → 0 < n
              → n ≤ length buffer
              → Stopped (drain clock dispatch fuel (drop n buffer) next))
          → Stopped (elim p as (λ x. Replay P) [
            | more ↦ left buffer r
            | resp_error ↦ exception
            | length_error ↦ exception
            | done (args, consumed) ↦ elim (replay_command clock dispatch args r) [
              | none ↦ exception
              | some next ↦ drain clock dispatch fuel (drop consumed buffer) next
            ]
          ])
      by_parse more h next = tt
      by_parse resp_error h next = tt
      by_parse length_error h next = tt
      by_parse (done (args, n)) (pos, inside) next =
          by_result n (replay_command clock dispatch args r)
            (λ s. next n s (omega (arith, pos)) inside)

  primary_ends :
      (fuel : ℕ) (buffer : Bytes) (r : Following P)
      → length buffer < fuel
      → length buffer < 2 ^ 64
      → Left (follow_buffer clock dispatch opened fuel buffer r)
  unfolding follow_buffer
  primary_ends zero buffer r enough small = absurd (omega arith)
  primary_ends (suc fuel) buffer r enough small =
      by_parse (parse_command buffer) (parse_command-EndsIn buffer small) (λ n next pos inside.
        primary_ends fuel (drop n buffer) next (omega (arith, length-drop n buffer, enough))
          (omega (arith, length-drop n buffer, small)))
    where
      by_parse :
          (p : Parsed (List Bytes × ℕ))
          → EndsIn 1 (length buffer) p
          → ((n : ℕ) (next : Following P)
              → 0 < n
              → n ≤ length buffer
              → Left (follow_buffer clock dispatch opened fuel (drop n buffer) next))
          → Left (elim p as (λ x. Heard P) [
            | more ↦ waits buffer r
            | resp_error ↦ gone r
            | length_error ↦ crashed
            | done (args, n) ↦
                follow_buffer clock dispatch opened fuel
                  (drop n buffer)
                  (follow_command clock dispatch opened args n r)
          ])
      by_parse more h next = tt
      by_parse resp_error h next = tt
      by_parse length_error h next = tt
      by_parse (done (args, n)) (pos, inside) next =
          next n (follow_command clock dispatch opened args n r) (omega (arith, pos)) inside

  module _ (reaches : ℤ → Bytes → Bool) (nanoseconds : P.Double → ℤ) where
    requests_end :
        (fuel n : ℕ) (fd : ℤ) (buffer : Bytes) (l : Loop P)
        → length buffer < fuel
        → length buffer < 2 ^ 64
        → Ended (serve_buffer reaches nanoseconds opened clock dispatch fuel n fd buffer l)
    unfolding serve_buffer
    requests_end zero n fd buffer l enough small = absurd (omega arith)
    requests_end (suc fuel) n fd buffer l enough small =
        by_parse (parse_command buffer) (parse_command-EndsIn buffer small) (λ k next pos inside.
          requests_end fuel (suc n) fd (drop k buffer) next
            (omega (arith, length-drop k buffer, enough))
            (omega (arith, length-drop k buffer, small)))
      where
        by_parse :
            (p : Parsed (List Bytes × ℕ))
            → EndsIn 1 (length buffer) p
            → ((k : ℕ) (next : Loop P)
                → 0 < k
                → k ≤ length buffer
                → Ended (
                    serve_buffer reaches nanoseconds opened clock dispatch fuel
                      (suc n)
                      fd
                      (drop k buffer)
                      next))
            → Ended (elim p as (λ x. Handled P) [
              | more ↦ asks_more buffer l
              | resp_error ↦ ended (close_client reaches fd l)
              | length_error ↦ failed
              | done (args, consumed) ↦
                  let (closed, next) =
                    serve_request reaches nanoseconds opened
                      (clock n)
                      (dispatch (clock n))
                      fd
                      args
                      l in
                  let rest =
                    serve_buffer reaches nanoseconds opened clock dispatch fuel
                      (suc n)
                      fd
                      (drop consumed buffer)
                      next in
                  if closed then ended next else rest
            ])
        by_parse more h next = tt
        by_parse resp_error h next = tt
        by_parse length_error h next = tt
        by_parse (done (args, k)) (pos, inside) next =
            let (closed, last) =
              serve_request reaches nanoseconds opened (clock n) (dispatch (clock n)) fd args l in
            if_both Ended closed tt (next k last (omega (arith, pos)) inside)

    -- Whatever bytes a buffer shorter than 2^64 holds, the loop over the requests of a client, that
    -- over the commands of a primary and that of the replay come to an end, within one round more
    -- than there are bytes: every request that is parsed takes at least one, whatever the commands
    -- do.
    pub loops_end :
        (n : ℕ) (fd : ℤ) (buffer : Bytes) (l : Loop P) (f : Following P) (r : Replaying P)
        → length buffer < 2 ^ 64
        → (serve_buffer reaches nanoseconds opened clock dispatch
              (suc (length buffer))
              n
              fd
              buffer
              l
            ≢ no_rounds)
          × (follow_buffer clock dispatch opened (suc (length buffer)) buffer f ≢ out_of_rounds)
          × (drain clock dispatch (suc (length buffer)) buffer r ≢ out_of_fuel)
    loops_end n fd buffer l f r small =
        let rounds = suc (length buffer) in
        (
          λ e. subst Ended e (requests_end rounds n fd buffer l (omega arith) small),
          λ e. subst Left e (primary_ends rounds buffer f (omega arith) small),
          λ e. subst Stopped e (replay_ends rounds buffer r (omega arith) small),
        )
