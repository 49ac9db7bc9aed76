-- ===== src/Server/Primary/Followed.antt =====
-- The stream from a primary in server/server.cpp, in the pieces in which it arrives.
use mathlib.Core.Path.{subst}
use true_store.Base.{
  ℕ, zero, suc, ◌+◌, ◌^◌, ◌<◌, ◌≡◌, refl, sym, ap, ◌∙◌, Bool, inl, inr, List, [], ◌∷◌, ◌++◌,
  append_assoc, append-nil, if◌then◌else◌, Bool-cases, arith, length, drop, All, length-append,
  drop-append, pos,
}
use true_store.Text.{Bytes}
use true_store.Resp.{command_bytes}
use true_store.Platform.{Platform, Now}
use true_store.Store.{set_repl_offset}
use true_store.Command.{Dispatch}
use true_store.Resp.Parse.{parse_command, done, more}
use true_store.Resp.RoundTrip.{parse-command_bytes}
use true_store.Aof.{printed}
use true_store.Aof.Log.{no_bytes}
use true_store.Aof.Split.{
  Few, command-suc, Short, Split, split, left_over, joined, All-front, All-back, rest_size,
}
use true_store.Server.Primary.{
  Following, waits, is_getack, ack_of, advance, follow_command, follow_buffer, store_offset,
  receive, receive_all,
}
use true_store.Server.Primary.Obeyed.{
  Obeys, ended, progress_of, one-Obeys, store_offset-Obeys, Obeys-append,
}
use true_store.Server.Primary.Answers.{
  answers, run_count, front_back, answers-append, run_count-append, advance_fits, joined_answers,
}

module _ {P : Platform} (clock : ℕ → Now) (dispatch : Now → Dispatch P) (opened : Bool) where
  unfoldable follow_all : List (List Bytes) → Following P → Following P
  follow_all [] r = r
  follow_all (args ∷ commands) r =
      follow_all commands
        (follow_command clock dispatch opened args (length (command_bytes args)) r)

  -- The commands have been followed from `r` to `w`, where `o` bytes stood in front of them.
  unfoldable pub Follows : ℕ → List (List Bytes) → Following P → Following P → Type 0
  Follows o commands r w =
      (w.offset ≡ pos (o + length (printed commands)))
      × (w.acks ≡ r.acks ++ answers o commands)
      × (w.commands ≡ r.commands + run_count commands)
      × Obeys clock dispatch commands (progress_of r) (progress_of w)

  one-Follows :
      (o n : ℕ) (args : List Bytes) (r : Following P)
      → r.offset ≡ pos o
      → o + n < 2 ^ 63
      → let w = follow_command clock dispatch opened args n r in
        (w.offset ≡ pos (o + n))
        × (w.acks ≡ (if is_getack args then r.acks ++ ack_of (pos o) ∷ [] else r.acks))
        × (w.commands ≡ (if is_getack args then r.commands else suc r.commands))
  unfolding follow_command
  one-Follows o n args r e h =
      let after : advance r.offset n ≡ pos (o + n) = ap (λ x. advance x n) e ∙ advance_fits o n h in
      elim (Bool-cases (is_getack args)) [
        | inl g ↦ rw g (after, ap (λ x. r.acks ++ ack_of x ∷ []) e, refl)
        | inr g ↦ rw g (after, refl, refl)
      ]

  follow_all-Follows :
      (o : ℕ) (commands : List (List Bytes)) (r : Following P)
      → r.offset ≡ pos o
      → o + length (printed commands) < 2 ^ 63
      → Follows o commands r (follow_all commands r)
  unfolding Follows follow_all answers run_count printed
  follow_all-Follows o [] r e h =
      (e ∙ ap pos (omega arith), sym (append-nil r.acks), omega arith, ended)
  follow_all-Follows o (args ∷ commands) r e h =
      let n = length (command_bytes args) in
      let size = length-append (command_bytes args) (printed commands) in
      let (offset, acks, count) = one-Follows o n args r e (omega (arith, h, size)) in
      let next = follow_command clock dispatch opened args n r in
      let (offset', acks', count', obeyed) =
        follow_all-Follows (o + n) commands next offset (omega (arith, h, size)) in
      (
        offset' ∙ ap pos (omega (arith, size)),
        acks'
            ∙ ap (λ (a : List Bytes). a ++ answers (o + n) commands) acks
            ∙ joined_answers (is_getack args) r.acks (ack_of (pos o)) (answers (o + n) commands),
        ground (arith, count, count'),
        one-Obeys clock dispatch opened args commands r (progress_of (follow_all commands next))
            obeyed,
      )

  -- A buffer that begins with whole commands and goes on with less than one.
  follow_buffer_lem :
      (front : List (List Bytes)) (unread : Bytes) (fuel : ℕ) (r : Following P)
      → All Few front
      → length (printed front ++ unread) < 2 ^ 64
      → parse_command unread ≡ more
      → length (printed front ++ unread) < fuel
      → follow_buffer clock dispatch opened fuel (printed front ++ unread) r
        ≡ waits unread (follow_all front r)
  unfolding follow_buffer follow_all printed
  follow_buffer_lem front unread zero r few small end lt = absurd (omega arith)
  follow_buffer_lem [] unread (suc fuel) r few small end lt = rw (end, follow_buffer) refl
  follow_buffer_lem (args ∷ front) unread (suc fuel) r (few, h) small end lt =
      rw (whole, follow_buffer)
        (ap (λ (s : Bytes). follow_buffer clock dispatch opened fuel s next) after
          ∙ follow_buffer_lem front unread fuel next h (omega (arith, sizes)) end
              (omega (arith, sizes, command-suc args)))
    where
      bytes : Bytes
      bytes = command_bytes args

      next : Following P
      next = follow_command clock dispatch opened args (length bytes) r

      assoc : (bytes ++ printed front) ++ unread ≡ bytes ++ (printed front ++ unread)
      assoc = append_assoc bytes (printed front) unread

      whole : parse_command ((bytes ++ printed front) ++ unread) ≡ done (args, length bytes)
      whole =
          ap parse_command assoc
          ∙ parse-command_bytes args (printed front ++ unread) few
              (subst (λ (s : Bytes). length s < 2 ^ 64) assoc small)

      after : drop (length bytes) ((bytes ++ printed front) ++ unread) ≡ printed front ++ unread
      after = ap (drop (length bytes)) assoc ∙ drop-append bytes (printed front ++ unread)

      sizes :
          length ((bytes ++ printed front) ++ unread)
          ≡ length bytes + length (printed front ++ unread)
      sizes = ap (length {A = ℕ}) assoc ∙ length-append bytes (printed front ++ unread)

  Follows-append :
      (o : ℕ) (front back : List (List Bytes)) (r v w : Following P)
      → Follows o front r v
      → Follows (o + length (printed front)) back v w
      → Follows o (front ++ back) r w
  unfolding Follows
  Follows-append o front back r v w (offset, acks, count, runs) (offset', acks', count', runs') = (
    offset' ∙ ap pos (omega (arith, front_back front back)),
    acks'
        ∙ ap (λ (a : List Bytes). a ++ answers (o + length (printed front)) back) acks
        ∙ append_assoc r.acks (answers o front) (answers (o + length (printed front)) back)
        ∙ ap (◌++◌ r.acks) (sym (answers-append o front back)),
    omega (arith, count, count', run_count-append front back),
    Obeys-append clock dispatch opened front back (progress_of r) (progress_of v) (progress_of w)
        runs runs',
  )

  -- All pieces have been received, and nothing of them is left.
  unfoldable pub KeepsCount : ℕ → List (List Bytes) → List Bytes → Bytes → Following P → Type 0
  KeepsCount o commands pieces buffer r =
      (w : Following P) × (receive_all clock dispatch opened pieces buffer r ≡ waits [] w)
      × Follows o commands r w
      × (w.store.master_repl_offset ≡ w.offset)

  -- One piece, when the pieces behind it are received as they should.
  received_piece :
      (piece : Bytes) (pieces : List Bytes) (commands : List (List Bytes)) (buffer : Bytes)
      (r : Following P) (o : ℕ) (parts : Split commands (buffer ++ piece) (joined pieces))
      → All Few commands
      → length ((buffer ++ piece) ++ joined pieces) < 2 ^ 64
      → o + length (printed commands) < 2 ^ 63
      → r.offset ≡ pos o
      → ((next : Following P)
          → next.offset ≡ pos (o + length (printed parts.front))
          → next.store.master_repl_offset ≡ next.offset
          → KeepsCount (o + length (printed parts.front)) parts.back pieces parts.unread next)
      → KeepsCount o commands (piece ∷ pieces) buffer r
  unfolding receive_all receive KeepsCount store_offset Follows set_repl_offset
  received_piece piece pieces commands buffer r o parts few whole small at_o behind =
      let v = follow_all parts.front r in
      let front = follow_all-Follows o parts.front r at_o (
        omega (
          arith,
          small,
          front_back parts.front parts.back,
          ap (λ c. length (printed c)) parts.commands_split,
        )) in
      let (w, run, (offset, acks, count, runs), same) =
        behind (store_offset clock dispatch opened v) front.0 refl in
      let later = store_offset-Obeys clock dispatch opened parts.back v (progress_of w) runs in
      (
        w,
        rw (drained, receive_all, receive) run,
        subst (λ c. Follows o c r w) (sym parts.commands_split)
            (Follows-append o parts.front parts.back r v w front (offset, acks, count, later)),
        same,
      )
    where
      each : All Few (parts.front ++ parts.back)
      each = subst (All Few) parts.commands_split few

      sizes :
          length ((buffer ++ piece) ++ joined pieces)
          ≡ length (printed parts.front ++ parts.unread) + length (joined pieces)
      sizes =
          ap (λ (w : Bytes). length (w ++ joined pieces)) parts.buffer_split
          ∙ length-append (printed parts.front ++ parts.unread) (joined pieces)

      drained :
          follow_buffer clock dispatch opened (suc (length (buffer ++ piece))) (buffer ++ piece) r
          ≡ waits parts.unread (follow_all parts.front r)
      drained =
          ap (λ (w : Bytes). follow_buffer clock dispatch opened (suc (length w)) w r)
            parts.buffer_split
          ∙ follow_buffer_lem parts.front parts.unread
              (suc (length (printed parts.front ++ parts.unread))) r
              (All-front parts.front parts.back each) (omega (arith, whole, sizes))
              (left_over parts.back parts.unread (joined pieces)
                (All-back parts.front parts.back each)
                (rest_size (buffer ++ piece) (joined pieces) parts whole) parts.rest_split
                parts.short)
              (omega arith)

  received_lem :
      (pieces : List Bytes) (commands : List (List Bytes)) (buffer : Bytes) (r : Following P)
      (o : ℕ)
      → All Few commands
      → o + length (printed commands) < 2 ^ 63
      → buffer ++ joined pieces ≡ printed commands
      → Short buffer commands
      → r.offset ≡ pos o
      → r.store.master_repl_offset ≡ r.offset
      → KeepsCount o commands pieces buffer r
  unfolding receive_all receive KeepsCount store_offset printed follow_all
  received_lem [] [] buffer r o few small e short at_o same =
      (r, ap (λ s. waits s r) short, follow_all-Follows o [] r at_o small, same)
  received_lem [] (args ∷ commands) buffer r o few small e short at_o same = absurd (
      omega (
        arith,
        ap (length {A = ℕ}) e,
        length-append buffer [],
        length-append (command_bytes args) (printed commands),
        short,
      ))
  received_lem (piece ∷ pieces) commands buffer r o few small e short at_o same =
      let assoc : (buffer ++ piece) ++ joined pieces ≡ buffer ++ (piece ++ joined pieces) =
        append_assoc buffer piece (joined pieces) in
      let parts = split commands (buffer ++ piece) (joined pieces) (assoc ∙ e) in
      let whole : length ((buffer ++ piece) ++ joined pieces) < 2 ^ 64 =
        omega (arith, small, ap (length {A = ℕ}) (assoc ∙ e)) in
      let each = subst (All Few) parts.commands_split few in
      let sizes = front_back parts.front parts.back in
      let total = ap (λ c. length (printed c)) parts.commands_split in
      received_piece piece pieces commands buffer r o parts few whole (omega (arith, small)) at_o
        (λ next.
          received_lem pieces parts.back parts.unread next (o + length (printed parts.front))
            (All-back parts.front parts.back each) (omega (arith, small, sizes, total))
            parts.rest_split parts.short)

  -- A stream of commands that arrives in any pieces: every byte is counted in the offset, which is
  -- also that of the store; each request for an answer is answered with the number of bytes in
  -- front of it, in their order; and each other command is run once, in their order, on the client
  -- and the store that those before it have left, which are then those of the replica. Between two
  -- commands nothing of the store is written but its offset. No command has more than `max_elements`
  -- arguments, and the offset stays below 2^63.
  pub stream-KeepsCount :
      (pieces : List Bytes) (commands : List (List Bytes)) (r : Following P) (o : ℕ)
      → All Few commands
      → o + length (printed commands) < 2 ^ 63
      → joined pieces ≡ printed commands
      → r.offset ≡ pos o
      → r.store.master_repl_offset ≡ r.offset
      → KeepsCount o commands pieces [] r
  stream-KeepsCount pieces commands r o few small e =
      received_lem pieces commands [] r o few small e (no_bytes commands)
