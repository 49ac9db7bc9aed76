-- ===== src/Aof/Log.antt =====
-- What `append` and `append_transaction` write is replayed command by command.
use mathlib.Core.Path.{subst}
use true_store.Base.{
  ℕ, zero, suc, ◌^◌, ◌≤◌, ◌<◌, ◌≡◌, refl, sym, ap, ◌∙◌, true, List, [], ◌∷◌, ◌++◌, append_assoc,
  arith, length, take, drop, All, take-append-drop, length-drop,
}
use true_store.Text.{Bytes, codes}
use true_store.Resp.{command_bytes}
use true_store.Platform.{Platform, Now}
use true_store.Command.{Dispatch}
use true_store.Aof.{
  append, append_transaction, printed, chunks, Replaying, end_of_file, replay_file,
}
use true_store.Aof.Split.{Few, joined, Short, command-suc}
use true_store.Aof.Restored.{run_all, restored, ended}

-- One call of `append` or of `append_transaction`.
pub data Entry : Type 0 where
  single : List Bytes → Entry
  transaction : List (List Bytes) → Entry

-- The bytes that the open log gets, and the commands that they stand for.
unfoldable pub logged : List Entry → Bytes
logged [] = []
logged (single args ∷ entries) = append true args ++ logged entries
logged (transaction commands ∷ entries) = append_transaction true commands ++ logged entries

unfoldable pub commands_of : List Entry → List (List Bytes)
commands_of [] = []
commands_of (single args ∷ entries) = args ∷ commands_of entries
commands_of (transaction [] ∷ entries) = commands_of entries
commands_of (transaction (args ∷ commands) ∷ entries) =
    (codes "MULTI" ∷ []) ∷ ((args ∷ commands) ++ (codes "EXEC" ∷ []) ∷ commands_of entries)

pub printed-append :
    (front back : List (List Bytes)) → printed (front ++ back) ≡ printed front ++ printed back
unfolding printed
printed-append [] back = refl
printed-append (args ∷ front) back =
    ap (◌++◌ (command_bytes args)) (printed-append front back)
    ∙ sym (append_assoc (command_bytes args) (printed front) (printed back))

logged-printed : (entries : List Entry) → logged entries ≡ printed (commands_of entries)
unfolding logged commands_of append append_transaction printed
logged-printed [] = refl
logged-printed (single args ∷ entries) = ap (◌++◌ (command_bytes args)) (logged-printed entries)
logged-printed (transaction [] ∷ entries) = logged-printed entries
logged-printed (transaction (args ∷ commands) ∷ entries) =
    append_assoc multi ((first ++ printed commands) ++ exec) (logged entries)
    ∙ ap (◌++◌ multi) (
        append_assoc (first ++ printed commands) exec (logged entries)
        ∙ append_assoc first (printed commands) (exec ++ logged entries)
        ∙ ap (λ (s : Bytes). first ++ (printed commands ++ (exec ++ s))) (logged-printed entries)
        ∙ ap (◌++◌ first)
            (sym (printed-append commands ((codes "EXEC" ∷ []) ∷ commands_of entries))))
  where
    multi : Bytes
    multi = command_bytes (codes "MULTI" ∷ [])

    first : Bytes
    first = command_bytes args

    exec : Bytes
    exec = command_bytes (codes "EXEC" ∷ [])

joined-chunks : (fuel : ℕ) (s : Bytes) → length s ≤ fuel → joined (chunks fuel s) ≡ s
unfolding chunks
joined-chunks fuel [] h = refl
joined-chunks zero (c ∷ s) h = absurd (omega arith)
joined-chunks (suc fuel) (c ∷ s) h =
    ap (◌++◌ (take 4096 (c ∷ s)))
      (joined-chunks fuel (drop 4096 (c ∷ s)) (omega (arith, length-drop 4096 (c ∷ s), h)))
    ∙ take-append-drop 4096 (c ∷ s)

pub no_bytes : (commands : List (List Bytes)) → Short [] commands
no_bytes [] = refl
no_bytes (args ∷ commands) = command-suc args

-- A file that holds what `append` and `append_transaction` have written is replayed to exactly their
-- commands, in their order and each once, with MULTI and EXEC around those of a transaction: the
-- chunks in which the file is read do not matter. The replay throws if one of the commands fails
-- or blocks, or if the last leaves the client in a transaction. No command has more than
-- `max_elements` arguments, and the file is shorter than 2^64 bytes.
pub replay_file-logged :
    {P : Platform} (clock : ℕ → Now) (dispatch : Now → Dispatch P) (entries : List Entry)
    (r : Replaying P)
    → All Few (commands_of entries)
    → length (logged entries) < 2 ^ 64
    → replay_file clock dispatch (logged entries) r
      ≡ end_of_file clock dispatch
          (ended clock dispatch [] (run_all clock dispatch (commands_of entries) r))
unfolding replay_file
replay_file-logged clock dispatch entries r few small = ap (end_of_file clock dispatch) (
    restored clock dispatch (chunks (length bytes) bytes) (commands_of entries) [] r few
      (subst (λ (s : Bytes). length s < 2 ^ 64) (sym whole) small) (whole ∙ logged-printed entries)
      (no_bytes (commands_of entries)))
  where
    bytes : Bytes
    bytes = logged entries

    whole : joined (chunks (length bytes) bytes) ≡ bytes
    whole = joined-chunks (length bytes) bytes (omega arith)
