-- ===== src/Aof/Split.antt =====
-- The bytes of a log that have been read, split into whole commands and the rest.
use true_store.Base.{
  ℕ, zero, suc, ◌^◌, ◌≤◌, ◌<◌, ◌≡◌, refl, sym, ap, ◌∙◌, inl, inr, List, [], ◌∷◌, ◌++◌, append_assoc,
  arith, ltb, ltb→lt, Bool-cases, length, take, drop, All, length-append, drop-append, take-append,
  take-append-drop,
}
use true_store.Text.{Bytes}
use true_store.Resp.{to_bytes, command_bytes}
use true_store.Resp.Parse.{parse_command, more, max_elements}
use true_store.Resp.Line.{take_inside}
use true_store.Resp.Prefix.{parse-prefix}
use true_store.Aof.{printed}

-- A command that the parser takes in one piece.
abbrev pub Few : List Bytes → Type 0
Few args = length args ≤ max_elements

-- The bytes of a command are never none.
pub command-suc : (args : List Bytes) → 0 < length (command_bytes args)
unfolding command_bytes to_bytes
command-suc args = omega arith

-- `buffer` ends before the first of the commands does.
abbrev pub Short : Bytes → List (List Bytes) → Type 0
Short buffer [] = buffer ≡ []
Short buffer (args ∷ commands) = length buffer < length (command_bytes args)

drop-shorter : (n : ℕ) (s t : Bytes) → n ≤ length s → drop n (s ++ t) ≡ drop n s ++ t
drop-shorter zero s t h = refl
drop-shorter (suc n) [] t h = absurd (omega arith)
drop-shorter (suc n) (c ∷ s) t h = drop-shorter n s t (omega arith)

nothing : (s t : Bytes) → s ++ t ≡ [] → s ≡ []
nothing [] t e = refl
nothing (c ∷ s) t e = absurd (ground (arith, e))

empty_buffer : parse_command [] ≡ more
unfolding parse_command
empty_buffer = refl

-- The commands that end in the buffer, and the rest of it.
pub record Split (commands : List (List Bytes)) (buffer rest : Bytes) : Type 0 where
  pub front : List (List Bytes)
  pub back : List (List Bytes)
  pub unread : Bytes
  pub commands_split : commands ≡ front ++ back
  pub buffer_split : buffer ≡ printed front ++ unread
  pub rest_split : unread ++ rest ≡ printed back
  pub short : Short unread back

pub split :
    (commands : List (List Bytes)) (buffer rest : Bytes)
    → buffer ++ rest ≡ printed commands
    → Split commands buffer rest
unfolding printed
split [] buffer rest e = record {
  front = [];
  back = [];
  unread = buffer;
  commands_split = refl;
  buffer_split = refl;
  rest_split = e;
  short = nothing buffer rest e;
}
split (args ∷ commands) buffer rest e =
    elim (Bool-cases (ltb (length buffer) (length (command_bytes args)))) [
      | inl early ↦ record {
        front = [];
        back = args ∷ commands;
        unread = buffer;
        commands_split = refl;
        buffer_split = refl;
        rest_split = e;
        short = ltb→lt _ _ early;
      }
      | inr late ↦
          let bytes = command_bytes args in
          let enough : length bytes ≤ length buffer = ground (arith, late) in
          let after : Bytes = drop (length bytes) buffer in
          let follows : after ++ rest ≡ printed commands =
            sym (drop-shorter (length bytes) buffer rest enough)
            ∙ ap (drop (length bytes)) e
            ∙ drop-append bytes (printed commands) in
          let first : take (length bytes) buffer ≡ bytes =
            sym (take_inside (length bytes) buffer rest enough)
            ∙ ap (take (length bytes)) e
            ∙ take-append bytes (printed commands) in
          let next = split commands after rest follows in
          record {
            front = args ∷ next.front;
            back = next.back;
            unread = next.unread;
            commands_split = ap (◌∷◌ args) next.commands_split;
            buffer_split =
                sym (take-append-drop (length bytes) buffer)
                ∙ ap (λ (x : Bytes). x ++ after) first
                ∙ ap (λ (x : Bytes). bytes ++ x) next.buffer_split
                ∙ sym (append_assoc bytes (printed next.front) next.unread);
            rest_split = next.rest_split;
            short = next.short;
          }
    ]

-- What is left of a drained buffer is no whole command.
pub left_over :
    (back : List (List Bytes)) (unread rest : Bytes)
    → All Few back
    → length (unread ++ rest) < 2 ^ 64
    → unread ++ rest ≡ printed back
    → Short unread back
    → parse_command unread ≡ more
unfolding printed
left_over [] unread rest few small e short = ap parse_command short ∙ empty_buffer
left_over (args ∷ back) unread rest (few, h) small e short =
    ap parse_command cut ∙ parse-prefix args (length unread) few fits short
  where
    fits : length (command_bytes args) < 2 ^ 64
    fits =
        omega
          (arith, small, ap (length {A = ℕ}) e, length-append (command_bytes args) (printed back))

    cut : unread ≡ take (length unread) (command_bytes args)
    cut =
        sym (take-append unread rest)
        ∙ ap (take (length unread)) e
        ∙ take_inside (length unread) (command_bytes args) (printed back) (omega (arith, short))

-- The pieces one behind the other.
abbrev pub joined : List Bytes → Bytes
joined [] = []
joined (piece ∷ pieces) = piece ++ joined pieces

pub All-front : (front back : List (List Bytes)) → All Few (front ++ back) → All Few front
All-front [] back h = tt
All-front (args ∷ front) back (few, h) = (few, All-front front back h)

pub All-back : (front back : List (List Bytes)) → All Few (front ++ back) → All Few back
All-back [] back h = h
All-back (args ∷ front) back (few, h) = All-back front back h

-- What follows the whole commands of a buffer is no longer than the buffer with what follows it.
pub rest_size :
    {commands : List (List Bytes)} (whole rest : Bytes) (parts : Split commands whole rest)
    → length (whole ++ rest) < 2 ^ 64
    → length (parts.unread ++ rest) < 2 ^ 64
rest_size whole rest parts small = omega (
  arith,
  small,
  ap (λ (w : Bytes). length (w ++ rest)) parts.buffer_split,
  length-append (printed parts.front ++ parts.unread) rest,
  length-append (printed parts.front) parts.unread,
  length-append parts.unread rest,
)
