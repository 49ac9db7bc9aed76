-- ===== src/Aof/Restored.antt =====
-- A log is replayed to the commands that were appended to it, in whatever chunks it is read.
use mathlib.Core.Path.{subst}
use true_store.Base.{
  ℕ, zero, suc, ◌+◌, ◌^◌, ◌<◌, ◌≡◌, refl, sym, ap, ◌∙◌, Option, none, some, List, [], ◌∷◌, ◌++◌,
  append_assoc, arith, length, drop, All, length-append, drop-append,
}
use true_store.Text.{Bytes}
use true_store.Resp.{command_bytes}
use true_store.Platform.{Platform, Now}
use true_store.Command.{Dispatch}
use true_store.Resp.Parse.{parse_command, done, more}
use true_store.Resp.RoundTrip.{parse-command_bytes}
use true_store.Aof.{
  printed, Replaying, Replay, exception, out_of_fuel, left, replay_command, drain, replay_chunks,
}
use true_store.Aof.Split.{
  Few, command-suc, Short, Split, split, left_over, joined, All-front, All-back, rest_size,
}

module _ {P : Platform} (clock : ℕ → Now) (dispatch : Now → Dispatch P) where
  -- The commands one after the other; `none` is an exception.
  unfoldable pub run_all : List (List Bytes) → Replaying P → Option (Replaying P)
  run_all [] r = some r
  run_all (args ∷ commands) r = elim (replay_command clock dispatch args r) [
    | none ↦ none
    | some next ↦ run_all commands next
  ]

  abbrev pub ended : Bytes → Option (Replaying P) → Replay P
  ended buffer none = exception
  ended buffer (some r) = left buffer r

  drain_stop :
      (fuel : ℕ) (buffer : Bytes) (r : Replaying P)
      → parse_command buffer ≡ more
      → drain clock dispatch (suc fuel) buffer r ≡ left buffer r
  unfolding drain
  drain_stop fuel buffer r e = rw (drain, e) refl

  drain_next :
      (fuel n : ℕ) (buffer : Bytes) (args : List Bytes) (r : Replaying P)
      → parse_command buffer ≡ done (args, n)
      → drain clock dispatch (suc fuel) buffer r ≡ (elim (replay_command clock dispatch args r) [
        | none ↦ exception
        | some next ↦ drain clock dispatch fuel (drop n buffer) next
      ])
  unfolding drain
  drain_next fuel n buffer args r e = rw (drain, e) refl

  -- A buffer that begins with whole commands and goes on with less than one.
  drain_lem :
      (front : List (List Bytes)) (unread : Bytes) (fuel : ℕ) (r : Replaying P)
      → All Few front
      → length (printed front ++ unread) < 2 ^ 64
      → parse_command unread ≡ more
      → length (printed front ++ unread) < fuel
      → drain clock dispatch fuel (printed front ++ unread) r ≡ ended unread (run_all front r)
  unfolding run_all printed
  drain_lem front unread zero r few small end lt = absurd (omega arith)
  drain_lem [] unread (suc fuel) r few small end lt = drain_stop fuel unread r end
  drain_lem (args ∷ front) unread (suc fuel) r (few, h) small end lt =
      drain_next fuel (length bytes) ((bytes ++ printed front) ++ unread) args r (
        ap parse_command assoc
        ∙ parse-command_bytes args (printed front ++ unread) few
            (subst (λ (s : Bytes). length s < 2 ^ 64) assoc small))
      ∙ by_result (replay_command clock dispatch args r) (λ next.
        ap (λ (s : Bytes). drain clock dispatch fuel s next) after
        ∙ drain_lem front unread fuel next h (omega (arith, sizes)) end
            (omega (arith, sizes, command-suc args)))
    where
      bytes : Bytes
      bytes = command_bytes args

      assoc : (bytes ++ printed front) ++ unread ≡ bytes ++ (printed front ++ unread)
      assoc = append_assoc bytes (printed front) unread

      after : drop (length bytes) ((bytes ++ printed front) ++ unread) ≡ printed front ++ unread
      after = ap (drop (length bytes)) assoc ∙ drop-append bytes (printed front ++ unread)

      sizes :
          length ((bytes ++ printed front) ++ unread)
          ≡ length bytes + length (printed front ++ unread)
      sizes = ap (length {A = ℕ}) assoc ∙ length-append bytes (printed front ++ unread)

      by_result :
          (o : Option (Replaying P))
          → ((next : Replaying P)
              → drain clock dispatch fuel
                  (drop (length bytes) ((bytes ++ printed front) ++ unread))
                  next
                ≡ ended unread (run_all front next))
          → (elim o [
            | none ↦ exception
            | some next ↦
                drain clock dispatch fuel
                  (drop (length bytes) ((bytes ++ printed front) ++ unread))
                  next
          ])
            ≡ ended unread (elim o [ none ↦ none | some next ↦ run_all front next ])
      by_result none h = refl
      by_result (some next) h = h next

  abbrev then_run : Option (Replaying P) → List (List Bytes) → Option (Replaying P)
  then_run none commands = none
  then_run (some r) commands = run_all commands r

  run_all-append :
      (front back : List (List Bytes)) (r : Replaying P)
      → run_all (front ++ back) r ≡ then_run (run_all front r) back
  unfolding run_all
  run_all-append [] back r = refl
  run_all-append (args ∷ front) back r =
      by_result (replay_command clock dispatch args r) (run_all-append front back)
    where
      by_result :
          (o : Option (Replaying P))
          → ((next : Replaying P)
              → run_all (front ++ back) next ≡ then_run (run_all front next) back)
          → (elim o [ none ↦ none | some next ↦ run_all (front ++ back) next ])
            ≡ then_run (elim o [ none ↦ none | some next ↦ run_all front next ]) back
      by_result none h = refl
      by_result (some next) h = h next

  -- One piece, when its commands are known and the pieces behind it are replayed as they should.
  restored_piece :
      (piece : Bytes) (pieces : List Bytes) (commands : List (List Bytes)) (buffer : Bytes)
      (r : Replaying P) (parts : Split commands (buffer ++ piece) (joined pieces))
      → All Few commands
      → length ((buffer ++ piece) ++ joined pieces) < 2 ^ 64
      → ((next : Replaying P)
          → replay_chunks clock dispatch pieces parts.unread next
            ≡ ended [] (run_all parts.back next))
      → replay_chunks clock dispatch (piece ∷ pieces) buffer r ≡ ended [] (run_all commands r)
  unfolding replay_chunks
  restored_piece piece pieces commands buffer r parts few small next =
      ap after_drain drained
      ∙ by_result (run_all parts.front r)
      ∙ ap (ended []) (
          sym (run_all-append parts.front parts.back r)
          ∙ ap (λ c. run_all c r) (sym parts.commands_split))
    where
      whole : Bytes
      whole = buffer ++ piece

      after_drain : Replay P → Replay P
      after_drain result = elim result [
        | exception ↦ exception
        | out_of_fuel ↦ out_of_fuel
        | left unread last ↦ replay_chunks clock dispatch pieces unread last
      ]

      each : All Few (parts.front ++ parts.back)
      each = subst (All Few) parts.commands_split few

      sizes :
          length ((buffer ++ piece) ++ joined pieces)
          ≡ length (printed parts.front ++ parts.unread) + length (joined pieces)
      sizes =
          ap (λ (w : Bytes). length (w ++ joined pieces)) parts.buffer_split
          ∙ length-append (printed parts.front ++ parts.unread) (joined pieces)

      drained :
          drain clock dispatch (suc (length whole)) whole r
          ≡ ended parts.unread (run_all parts.front r)
      drained =
          ap (λ (w : Bytes). drain clock dispatch (suc (length w)) w r) parts.buffer_split
          ∙ drain_lem parts.front parts.unread (suc (length (printed parts.front ++ parts.unread)))
              r (All-front parts.front parts.back each) (omega (arith, small, sizes))
              (left_over parts.back parts.unread (joined pieces)
                (All-back parts.front parts.back each) (rest_size whole (joined pieces) parts small)
                parts.rest_split parts.short)
              (omega arith)

      by_result :
          (o : Option (Replaying P))
          → after_drain (ended parts.unread o) ≡ ended [] (then_run o parts.back)
      by_result none = refl
      by_result (some last) = next last

  -- The chunks of a log, behind the bytes of `buffer` that are not yet a command.
  pub restored :
      (pieces : List Bytes) (commands : List (List Bytes)) (buffer : Bytes) (r : Replaying P)
      → All Few commands
      → length (buffer ++ joined pieces) < 2 ^ 64
      → buffer ++ joined pieces ≡ printed commands
      → Short buffer commands
      → replay_chunks clock dispatch pieces buffer r ≡ ended [] (run_all commands r)
  unfolding replay_chunks run_all printed
  restored [] [] buffer r few small e short = ap (λ (s : Bytes). left s r) short
  restored [] (args ∷ commands) buffer r few small e short = absurd (
      omega (
        arith,
        ap (length {A = ℕ}) e,
        length-append buffer [],
        length-append (command_bytes args) (printed commands),
        short,
      ))
  restored (piece ∷ pieces) commands buffer r few small e short =
      let assoc : (buffer ++ piece) ++ joined pieces ≡ buffer ++ (piece ++ joined pieces) =
        append_assoc buffer piece (joined pieces) in
      let parts = split commands (buffer ++ piece) (joined pieces) (assoc ∙ e) in
      let small' : length ((buffer ++ piece) ++ joined pieces) < 2 ^ 64 =
        omega (arith, small, ap (length {A = ℕ}) assoc) in
      let each = subst (All Few) parts.commands_split few in
      restored_piece piece pieces commands buffer r parts few small' (λ next.
        restored pieces parts.back parts.unread next (All-back parts.front parts.back each)
          (rest_size (buffer ++ piece) (joined pieces) parts small') parts.rest_split parts.short)
