-- ===== src/Server/Primary/Obeyed.antt =====
-- What the commands of a primary do, in server/server.cpp, in the order in which they come: a
-- description of the replica's client and store beside the loop that reads the commands.
use true_store.Base.{
  Bool, ℕ, suc, ◌≡◌, refl, Bool-cases, inl, inr, true, false, none, List, [], ◌∷◌, ◌++◌, length, ℤ,
}
use true_store.Text.{Bytes}
use true_store.Resp.{command_bytes}
use true_store.Platform.{Platform, Now}
use true_store.Store.Types.{Store}
use true_store.Store.{set_repl_offset, take_pending_block, take_pending_propagations}
use true_store.Client.{ClientState}
use true_store.Command.{Dispatch, handle_command}
use true_store.Server.Primary.{Following, is_getack, advance, follow_command, store_offset}

-- A replica as its commands see it: what it has read, how many commands it has run, and the client
-- and the store on which they run.
pub record Progress (P : Platform) : Type 0 where
  pub offset : ℤ
  pub commands : ℕ
  pub client : ClientState
  pub store : Store P

abbrev pub progress_of : {P : Platform} → Following P → Progress P
progress_of r = record {
  offset = r.offset;
  commands = r.commands;
  client = r.client;
  store = r.store;
}

-- The store as a command leaves it, with nothing queued in it.
abbrev pub settled : {P : Platform} → Store P → Store P
settled s = record s { pending_block = none; pending_propagations = [] }

-- The commands, run one after the other. REPLCONF GETACK runs nothing. Each other command is run on
-- the client and the store that those before it have left, and leaves its own. Between two commands
-- the offset may be written to the store.
pub data Obeys {P : Platform} (clock : ℕ → Now) (dispatch : Now → Dispatch P)
    : List (List Bytes) → Progress P → Progress P → Type 0 where
  ended : {p : Progress P} → Obeys clock dispatch [] p p
  stored :
      {commands : List (List Bytes)} {p q : Progress P}
      → Obeys clock dispatch commands (record p { store = set_repl_offset p.offset p.store }) q
      → Obeys clock dispatch commands p q
  asked :
      {args : List Bytes} {commands : List (List Bytes)} {p q : Progress P}
      → is_getack args ≡ true
      → Obeys clock dispatch commands
          (record p { offset = advance p.offset (length (command_bytes args)) })
          q
      → Obeys clock dispatch (args ∷ commands) p q
  ran :
      {args : List Bytes} {commands : List (List Bytes)} {p q : Progress P} {reply : Bytes}
      {client : ClientState} {store : Store P}
      → is_getack args ≡ false
      → handle_command (clock p.commands) (dispatch (clock p.commands)) args p.client p.store
        ≡ (reply, (client, store))
      → Obeys clock dispatch commands
          (record {
            offset = advance p.offset (length (command_bytes args));
            commands = suc p.commands;
            client = client;
            store = settled store;
          })
          q
      → Obeys clock dispatch (args ∷ commands) p q

module _ {P : Platform} (clock : ℕ → Now) (dispatch : Now → Dispatch P) (opened : Bool) where
  -- One command in front of others.
  pub one-Obeys :
      (args : List Bytes) (commands : List (List Bytes)) (r : Following P) (q : Progress P)
      → Obeys clock dispatch commands
          (progress_of (follow_command clock dispatch opened args (length (command_bytes args)) r))
          q
      → Obeys clock dispatch (args ∷ commands) (progress_of r) q
  unfolding follow_command take_pending_block take_pending_propagations
  one-Obeys args commands r q rest = elim (Bool-cases (is_getack args)) [
    | inl getack ↦ asked getack (rw getack at rest)
    | inr other ↦ ran other refl (rw other at rest)
  ]

  -- The end of a piece, at which the offset is written to the store.
  pub store_offset-Obeys :
      (commands : List (List Bytes)) (r : Following P) (q : Progress P)
      → Obeys clock dispatch commands (progress_of (store_offset clock dispatch opened r)) q
      → Obeys clock dispatch commands (progress_of r) q
  unfolding store_offset
  store_offset-Obeys commands r q rest = stored rest

  pub Obeys-append :
      (front back : List (List Bytes)) (p q s : Progress P)
      → Obeys clock dispatch front p q
      → Obeys clock dispatch back q s
      → Obeys clock dispatch (front ++ back) p s
  Obeys-append [] back p q s ended behind = behind
  Obeys-append front back p q s (stored rest) behind =
      stored (Obeys-append front back _ q s rest behind)
  Obeys-append (args ∷ front) back p q s (asked getack rest) behind =
      asked getack (Obeys-append front back _ q s rest behind)
  Obeys-append (args ∷ front) back p q s (ran other run rest) behind =
      ran other run (Obeys-append front back _ q s rest behind)
