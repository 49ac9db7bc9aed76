-- ===== src/Command/Transactions.antt =====
-- MULTI, EXEC and WATCH over any dispatch of the commands.
use mathlib.Core.Path.{subst}
use true_store.Base.{
  ℕ, not, ◌&&◌, Bool, none, if◌then◌else◌, length, ◌≡◌, refl, sym, ap, ◌∙◌, true, false, List, [],
  ◌∷◌, ◌++◌, map, append_assoc, append-nil, arith, All,
}
use true_store.Text.{Bytes, codes, ◌=ᵇ◌, toupper, to_upper, crlf}
use true_store.Text.Decimal.{to_string}
use true_store.Dict.{is_some}
use true_store.Store.{take_pending_block, queue_propagation}
use true_store.Resp.{simple_string, null_array, to_bytes}
use true_store.Platform.{Platform, Now}
use true_store.Store.Types.{Store}
use true_store.Client.{ClientState}
use true_store.Command.{
  Dispatch, Replied, is_write_command, is_error, word_of, after_queued, run_queued, one_of, cleared,
  ok_reply, handle_multi, changed, exec_queued, handle_exec, run_command, handle_command,
}

-- The commands that a transaction does not queue.
unfoldable pub IsQueueable : List Bytes → Type 0
IsQueueable [] = ⊥
IsQueueable (word ∷ rest) =
    one_of (to_upper word)
      ("QUIT" ∷ "RESET" ∷ "MULTI" ∷ "WATCH" ∷ "UNWATCH" ∷ "DISCARD" ∷ "EXEC" ∷ [])
    ≡ false

-- A client that may run any command: it has authenticated and has no channel.
pub record IsOpen (c : ClientState) : Type 0 where
  pub authenticated : c.authenticated ≡ true
  pub no_channel : c.subscriptions ≡ []

-- A client sends commands one after another, each at its own time, to whatever store is there then.
abbrev pub Requests : Platform → Type 0
Requests P = List (Now × (Store P × List Bytes))

-- The store behind a command of a transaction that has been answered: it waits for nothing, and a
-- write that did not fail is left for the replicas.
abbrev pub left_store : {P : Platform} → List Bytes → Bytes → Store P → Store P
left_store args reply t = record t {
  pending_block = none;
  pending_propagations =
      if is_write_command (to_upper (word_of args)) && not (is_error reply)
      then t.pending_propagations ++ args ∷ []
      else t.pending_propagations;
}

-- Commands that are run one after the other: each by the dispatch on the client and the store that
-- the one before it has left, with its reply, or the null array where it would block.
pub data Executes {P : Platform} (dispatch : Dispatch P)
    : List (List Bytes) → ClientState → Store P → List Bytes → ClientState → Store P → Type 0 where
  nothing : {c : ClientState} {s : Store P} → Executes dispatch [] c s [] c s
  executed :
      {args : List Bytes} {rest : List (List Bytes)} {c d e : ClientState} {s t w : Store P}
      {result reply : Bytes} {replies : List Bytes}
      → dispatch args c s ≡ (result, (d, t))
      → reply ≡ (if is_some t.pending_block then to_bytes null_array else result)
      → Executes dispatch rest d (left_store args reply t) replies e w
      → Executes dispatch (args ∷ rest) c s (reply ∷ replies) e w

-- The bytes of an array of these replies.
abbrev pub concatenated : List Bytes → Bytes
concatenated [] = []
concatenated (reply ∷ replies) = reply ++ concatenated replies

unfoldable pub array_of : List Bytes → Bytes
array_of replies = b'*' ∷ to_string (length replies) ++ (crlf ++ concatenated replies)

module _ {P : Platform} (dispatch : Dispatch P) where
  -- EXEC of queued commands: the replies of all of them, in order.
  unfoldable pub RunsAll : List (List Bytes) → ClientState → Store P → Replied P → Type 0
  RunsAll queued c s (reply, (e, w)) =
      (replies : List Bytes) × Executes dispatch queued c s replies e w
      × (length replies ≡ length queued)
      × (reply ≡ array_of replies)

  queued-Executes :
      (queued : List (List Bytes)) (c : ClientState) (s : Store P)
      → let (bytes, (e, w)) = run_queued dispatch queued c s in
        (replies : List Bytes) × Executes dispatch queued c s replies e w
        × (length replies ≡ length queued)
        × (bytes ≡ concatenated replies)
  unfolding run_queued after_queued take_pending_block queue_propagation
  queued-Executes [] c s = ([], nothing, refl, refl)
  queued-Executes (args ∷ rest) c s =
      let (result, (d, t)) = dispatch args c s in
      let reply = (if is_some t.pending_block then to_bytes null_array else result) in
      let u = (after_queued args result t).1 in
      let left : u ≡ left_store args reply t =
        by_write (is_write_command (to_upper (word_of args)) && not (is_error reply)) t in
      let (replies, runs, size, bytes) = queued-Executes rest d u in
      let (e, w) = (run_queued dispatch rest d u).1 in
      (
        reply ∷ replies,
        executed refl refl (subst (λ x. Executes dispatch rest d x replies e w) left runs),
        omega (arith, size),
        ap (◌++◌ reply) bytes,
      )
    where
      by_write :
          (write : Bool) (t : Store P)
          → ◌≡◌ {A = Store P}
              (if write
                then queue_propagation args (record t { pending_block = none })
                else record t { pending_block = none })
              (record t {
                pending_block = none;
                pending_propagations =
                    if write then t.pending_propagations ++ args ∷ [] else t.pending_propagations;
              })
      by_write true t = refl
      by_write false t = refl

  exec-RunsAll :
      (queued : List (List Bytes)) (c : ClientState) (s : Store P)
      → RunsAll queued c s (exec_queued dispatch queued c s)
  unfolding RunsAll exec_queued array_of
  exec-RunsAll queued c s =
      let (replies, runs, size, bytes) = queued-Executes queued c s in
      (
        replies,
        runs,
        size,
        ap (λ (b : Bytes). b'*' ∷ to_string (length queued) ++ (crlf ++ b)) bytes
            ∙ ap (λ (n : ℕ). b'*' ∷ to_string n ++ (crlf ++ concatenated replies)) (sym size),
      )

  pub open_command :
      (now : Now) (word : Bytes) (rest : List Bytes) (c : ClientState) (s : Store P)
      → IsOpen c
      → handle_command now dispatch (word ∷ rest) c s ≡ run_command now dispatch word rest c s
  unfolding handle_command
  open_command now word rest c s o = ground (arith, o.authenticated, o.no_channel)

  queue_command :
      (now : Now) (args : List Bytes) (c : ClientState) (s : Store P)
      → IsOpen c
      → c.in_multi ≡ true
      → IsQueueable args
      → handle_command now dispatch args c s ≡ (
        to_bytes (simple_string (codes "QUEUED")),
        (record c { queued = c.queued ++ args ∷ [] }, s),
      )
  unfolding run_command IsQueueable
  queue_command now [] c s o m q = absurd q
  queue_command now (word ∷ rest) c s o m q =
      open_command now word rest c s o ∙ ground (arith, q, m)

  -- The replies with the stores behind each request, and the client in the end.
  unfoldable pub send_all : Requests P → ClientState → List (Bytes × Store P) × ClientState
  send_all [] c = ([], c)
  send_all ((now, (s, args)) ∷ rest) c =
      let (reply, (d, t)) = handle_command now dispatch args c s in
      let (others, end) = send_all rest d in ((reply, t) ∷ others, end)

  abbrev pub commands_of : Requests P → List (List Bytes)
  commands_of = map (λ r. r.1.1)

  queue-All :
      (requests : Requests P) (c : ClientState)
      → IsOpen c
      → c.in_multi ≡ true
      → All (λ r. IsQueueable r.1.1) requests
      → send_all requests c ≡ (
        map (λ r. (to_bytes (simple_string (codes "QUEUED")), r.1.0)) requests,
        record c { queued = c.queued ++ commands_of requests },
      )
  unfolding send_all
  queue-All [] c o m q =
      ap (λ (l : List (List Bytes)). ([], record c { queued = l })) (sym (append-nil c.queued))
  queue-All ((now, (s, args)) ∷ rest) c o m (q, qs) =
      rw
        (
          queue_command now args c s o m q,
          queue-All rest (record c { queued = c.queued ++ args ∷ [] })
              (record { authenticated = o.authenticated; no_channel = o.no_channel }) m qs,
          append_assoc c.queued (args ∷ []) (commands_of rest),
        )
        refl

  begin :
      (now : Now) (c : ClientState) (s : Store P)
      → IsOpen c
      → c.in_multi ≡ false
      → handle_command now dispatch (codes "MULTI" ∷ []) c s
        ≡ (ok_reply, (record c { in_multi = true }, s))
  unfolding run_command handle_multi to_upper toupper ◌=ᵇ◌
  begin now c s o m = open_command now (codes "MULTI") [] c s o ∙ ground (arith, m)

  finish :
      (now : Now) (c : ClientState) (s : Store P)
      → IsOpen c
      → c.in_multi ≡ true
      → c.watched ≡ []
      → handle_command now dispatch (codes "EXEC" ∷ []) c s
        ≡ exec_queued dispatch c.queued (cleared c) s
  unfolding run_command handle_exec changed to_upper toupper ◌=ᵇ◌
  finish now c s o m w = open_command now (codes "EXEC") [] c s o ∙ ground (arith, m, w)

  still-IsOpen : (c : ClientState) → IsOpen c → IsOpen (record c { in_multi = true })
  still-IsOpen c o = record { authenticated = o.authenticated; no_channel = o.no_channel }

  -- A client that has authenticated, has no channel and watches nothing sends MULTI, then any
  -- commands that are not control words, and then EXEC, while others may change the store. Each
  -- command is answered QUEUED and leaves the store as it is. EXEC then runs them all in order, from
  -- the store that it finds and outside of the transaction, each on what the one before it has left,
  -- and replies with the array of their replies; one that would block has the null array as its
  -- reply, and the writes that did not fail are left for the replicas.
  pub transaction_runs :
      (now later : Now) (requests : Requests P) (c : ClientState) (s t : Store P)
      → IsOpen c
      → c.in_multi ≡ false
      → c.queued ≡ []
      → c.watched ≡ []
      → All (λ r. IsQueueable r.1.1) requests
      → let begun = (handle_command now dispatch (codes "MULTI" ∷ []) c s).1 in
        let (seen, waiting) = send_all requests begun.0 in
        (begun.1 ≡ s)
        × (seen ≡ map (λ r. (to_bytes (simple_string (codes "QUEUED")), r.1.0)) requests)
        × RunsAll
            (commands_of requests)
            (cleared c)
            t
            (handle_command later dispatch (codes "EXEC" ∷ []) waiting t)
  unfolding cleared
  transaction_runs now later requests c s t o m q w qs = rw (begin now c s o m) (
    refl,
    rw (queue-All requests (record c { in_multi = true }) (still-IsOpen c o) refl qs) refl,
    rw
        (
          queue-All requests (record c { in_multi = true }) (still-IsOpen c o) refl qs,
          q,
          finish later (record c { in_multi = true; queued = commands_of requests }) t
              (record { authenticated = o.authenticated; no_channel = o.no_channel }) refl w,
        )
        (exec-RunsAll (commands_of requests) (cleared c) t),
  )
