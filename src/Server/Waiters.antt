-- ===== src/Server/Waiters.antt =====
-- Serving the blocked clients of server/server.cpp: their answers, the log and what is sent on.
use mathlib.Core.Path.{subst}
use true_store.Base.{
  ◌≤◌, pos, ◌≡◌, refl, sym, ap, ◌∙◌, Bool, true, false, Option, none, some, List, [], ◌∷◌, ◌++◌,
  map, append_assoc, append-nil, arith, leb, leb→le, if◌then◌else◌, ℤ,
}
use true_store.Text.{Bytes}
use true_store.Resp.{integer, array, to_bytes, command_bytes}
use true_store.Platform.{Platform}
use true_store.Store.Types.{Store, BlockKind, list_block, stream_block, wait_block}
use true_store.Lists.{try_blpop}
use true_store.Lists.Blocking.{Pops, try_blpop-Pops}
use true_store.Streams.Commands.{try_xread}
use true_store.Store.{take_pending_propagations, bump_repl_offset}
use true_store.Aof.{append, printed}
use true_store.Server.{
  Server, Waiter, propagate_to_replicas, propagate_for, append_log, log_and_propagate, answer,
  serve_popped, serve_one, serve_waiters, count_acked, send_to_replicas,
}
use true_store.Server.Replicas.{stream_bytes, stream_bytes-append}

-- What a waiter may be answered, by the way in which it waits: WAIT with a number of replicas, at
-- least as many as it asked for, that have acknowledged its offset; BLPOP with a pair of one of its
-- keys and the first element of the list of the key; XREAD with the entries that a store has for it.
unfoldable pub IsAnswer : {P : Platform} → Server P → Waiter → Bytes → Type 0
IsAnswer v waiter text = elim waiter.kind [
  | wait_block ↦
      let acked = count_acked waiter.target_offset v.replicas in
      (waiter.count ≤ acked) × (text ≡ to_bytes (integer (pos acked)))
  | list_block ↦
      (key : Bytes) × (value : Bytes) × ((try_blpop waiter.keys v.store).0 ≡ some (key, value))
      × (text ≡ to_bytes (array (key ∷ value ∷ [])))
  | stream_block ↦ try_xread waiter.keys waiter.ids waiter.count v.store ≡ some text
]

-- The server that an answered waiter leaves: an element that has been popped is gone from the store,
-- with the command that was queued for it and the offset of what was sent; for the others nothing
-- but the replies has changed.
unfoldable pub IsLeft : {P : Platform} → Server P → Waiter → Server P → Type 0
IsLeft v waiter u =
    let same = (u.store ≡ v.store) × (u.replicas ≡ v.replicas) in
    elim waiter.kind [
      | wait_block ↦ same
      | list_block ↦ u.store ≡ record (try_blpop waiter.keys v.store).1 {
        pending_propagations = [];
        master_repl_offset = u.store.master_repl_offset;
      }
      | stream_block ↦ same
    ]

-- Waiters that are looked at one after the other, each by the server as those before it have left
-- it: those that stay, the texts for those that are answered, and the server behind all of them. A
-- waiter stays only if it has no answer, and then nothing has changed.
pub data Serves {P : Platform}
    : Server P → List Waiter → List Waiter → List (ℤ × Bytes) → Server P → Type 0 where
  all_seen : {v : Server P} → Serves v [] [] [] v
  stays :
      {v u w : Server P} {waiter : Waiter} {waiters stay : List Waiter} {answers : List (ℤ × Bytes)}
      → ((text : Bytes) → ¬ IsAnswer v waiter text)
      → u ≡ v
      → Serves u waiters stay answers w
      → Serves v (waiter ∷ waiters) (waiter ∷ stay) answers w
  answered :
      {v u w : Server P} {waiter : Waiter} {text : Bytes} {waiters stay : List Waiter}
      {answers : List (ℤ × Bytes)}
      → IsAnswer v waiter text
      → IsLeft v waiter u
      → u.replies ≡ v.replies ++ (waiter.fd, text) ∷ []
      → Serves u waiters stay answers w
      → Serves v (waiter ∷ waiters) stay ((waiter.fd, text) ∷ answers) w

all_answers :
    {P : Platform} (v w : Server P) (waiters stay : List Waiter) (answers : List (ℤ × Bytes))
    → Serves v waiters stay answers w
    → w.replies ≡ v.replies ++ answers
all_answers v w waiters stay answers all_seen = sym (append-nil v.replies)
all_answers v w waiters stay answers (stays {u = u} idle same rest) =
    all_answers u w _ _ answers rest ∙ ap (λ (t : Server _). t.replies ++ answers) same
all_answers v w waiters stay answers
      (answered {u = u} {waiter = waiter} {text = text} {answers = behind} is_answer left one
        rest) =
    all_answers u w _ _ behind rest
    ∙ ap (λ (r : List (ℤ × Bytes)). r ++ behind) one
    ∙ append_assoc v.replies ((waiter.fd, text) ∷ []) behind

idle_same :
    {P : Platform} (keys : List Bytes) (s : Store P) (r : Option (Bytes × Bytes) × Store P)
    → Pops s keys r
    → r.0 ≡ none
    → r.1 ≡ s
unfolding Pops
idle_same keys s (none, t) (empty, same) e = same
idle_same keys s (some p, t) h e = absurd (some_none e)
  where
    some_none : some p ≡ none → ⊥
    some_none q = cc

no_reply : (text : Bytes) → none ≡ some text → ⊥
no_reply text q = cc

pair_absent : (p : Bytes × Bytes) → none ≡ some p → ⊥
pair_absent p q = cc

module _ {P : Platform} (reaches : ℤ → Bytes → Bool) where
  -- The log and the stream have grown by the same bytes.
  abbrev pub Agrees : Server P → Bytes → Server P → Type 0
  Agrees v bytes w =
      (w.log ≡ v.log ++ bytes) × (stream_bytes w.stream ≡ stream_bytes v.stream ++ bytes)

  then-Agrees : (u v w : Server P) (a b : Bytes) → Agrees u a v → Agrees v b w → Agrees u (a ++ b) w
  then-Agrees u v w a b (log, stream) (log', stream') = (
    log' ∙ ap (λ (s : Bytes). s ++ b) log ∙ append_assoc u.log a b,
    stream' ∙ ap (λ (s : Bytes). s ++ b) stream ∙ append_assoc (stream_bytes u.stream) a b,
  )

  same-Agrees : (v : Server P) → Agrees v [] v
  same-Agrees v = (sym (append-nil v.log), sym (append-nil (stream_bytes v.stream)))

  logged-Agrees :
      (fd : ℤ) (pending : List (List Bytes)) (v : Server P)
      → Agrees v (printed pending) (log_and_propagate reaches true fd pending v)
        × ((log_and_propagate reaches true fd pending v).replies ≡ v.replies)
  unfolding log_and_propagate printed propagate_for propagate_to_replicas send_to_replicas
      append_log append
  logged-Agrees fd [] v = (same-Agrees v, refl)
  logged-Agrees fd (args ∷ pending) v =
      let u = propagate_for reaches fd args (append_log reaches true args v) in
      let (rest, replies) = logged-Agrees fd pending u in
      (
        then-Agrees v u (log_and_propagate reaches true fd pending u) (command_bytes args)
            (printed pending)
            (refl, stream_bytes-append v.stream (map (λ r. r.0) v.replicas) (command_bytes args))
            rest,
        replies,
      )

  -- What is true of one waiter that has been looked at.
  abbrev Seen : Waiter → Server P → Bool → Server P → Type 0
  Seen waiter v true w =
      (text : Bytes) × IsAnswer v waiter text
      × IsLeft v waiter w
      × (w.replies ≡ v.replies ++ (waiter.fd, text) ∷ [])
  Seen waiter v false w = ((text : Bytes) → ¬ IsAnswer v waiter text) × (w ≡ v)

  abbrev Served : Waiter → Server P → Bool × Server P → Type 0
  Served waiter v (served, w) = (bytes : Bytes) × Agrees v bytes w × Seen waiter v served w

  logged_store :
      (fd : ℤ) (pending : List (List Bytes)) (v : Server P)
      → let w = log_and_propagate reaches true fd pending v in
        w.store ≡ record v.store { master_repl_offset = w.store.master_repl_offset }
  unfolding log_and_propagate propagate_for propagate_to_replicas send_to_replicas append_log
      bump_repl_offset
  logged_store fd [] v = refl
  logged_store fd (args ∷ pending) v =
      logged_store fd pending (propagate_for reaches fd args (append_log reaches true args v))

  popped-Served :
      (waiter : Waiter) (popped : Option (Bytes × Bytes)) (s : Store P) (v : Server P)
      → try_blpop waiter.keys v.store ≡ (popped, s)
      → Served
          (record waiter { kind = list_block })
          v
          (serve_popped reaches true
            (record waiter { kind = list_block })
            popped
            (record v { store = s }))
  unfolding serve_popped answer IsAnswer IsLeft take_pending_propagations
  popped-Served waiter none s v e =
      let nothing : (try_blpop waiter.keys v.store).0 ≡ none = ap (λ p. p.0) e in
      let same : s ≡ v.store =
        sym (ap (λ p. p.1) e)
        ∙ idle_same waiter.keys v.store _ (try_blpop-Pops waiter.keys v.store) nothing in
      let u : Server P = record v { store = s } in
      let whole : u ≡ v = ap (λ t. record v { store = t }) same in
      (
        [],
        subst (λ t. Agrees v [] t) (sym whole) (same-Agrees v),
        ((λ text a. pair_absent (a.0, a.1) (sym nothing ∙ a.2)), whole),
      )
  popped-Served waiter (some (key, value)) s v e =
      let (pending, t) = take_pending_propagations s in
      let u : Server P = record v { store = t } in
      let (agrees, replies) = logged-Agrees waiter.fd pending u in
      let text = to_bytes (array (key ∷ value ∷ [])) in
      (
        printed pending,
        agrees,
        (
          text,
          (key, value, ap (λ p. p.0) e, refl),
          logged_store waiter.fd pending u
              ∙ ap
                  (λ (q : Store P). record q {
                    pending_propagations = [];
                    master_repl_offset =
                        (log_and_propagate reaches true waiter.fd pending
                          u).store.master_repl_offset;
                  })
                  (sym (ap (λ p. p.1) e)),
          ap (λ (r : List (ℤ × Bytes)). r ++ (waiter.fd, text) ∷ []) replies,
        ),
      )

  serve_one-Served :
      (waiter : Waiter) (v : Server P) → Served waiter v (serve_one reaches true waiter v)
  unfolding serve_one IsAnswer IsLeft answer
  serve_one-Served waiter v = by_kind waiter.kind
    where
      by_reply :
          (reply : Option Bytes)
          → try_xread waiter.keys waiter.ids waiter.count v.store ≡ reply
          → Served
              (record waiter { kind = stream_block })
              v
              (elim reply [
                | none ↦ (false, v)
                | some bytes ↦
                    (true, answer reaches (record waiter { kind = stream_block }) bytes v)
              ])
      by_reply none e = ([], same-Agrees v, ((λ text a. no_reply text (sym e ∙ a)), refl))
      by_reply (some bytes) e = ([], same-Agrees v, (bytes, e, (refl, refl), refl))

      by_test :
          (enough : Bool)
          → leb waiter.count (count_acked waiter.target_offset v.replicas) ≡ enough
          → Served
              (record waiter { kind = wait_block })
              v
              (if enough
                then (
                  true,
                  answer reaches
                      (record waiter { kind = wait_block })
                      (to_bytes (integer (pos (count_acked waiter.target_offset v.replicas))))
                      v,
                )
                else (false, v))
      by_test true e = ([], same-Agrees v, (_, (leb→le _ _ e, refl), (refl, refl), refl))
      by_test false e = ([], same-Agrees v, ((λ text a. ground (arith, e, a.0)), refl))

      by_kind :
          (kind : BlockKind)
          → Served
              (record waiter { kind = kind })
              v
              (serve_one reaches true (record waiter { kind = kind }) v)
      by_kind wait_block =
          by_test (leb waiter.count (count_acked waiter.target_offset v.replicas)) refl
      by_kind list_block =
          popped-Served waiter (try_blpop waiter.keys v.store).0 (try_blpop waiter.keys v.store).1 v
            refl
      by_kind stream_block = by_reply (try_xread waiter.keys waiter.ids waiter.count v.store) refl

  next-Serves :
      (waiter : Waiter) (served : Bool) (v u w : Server P) {waiters stay : List Waiter}
      {answers : List (ℤ × Bytes)}
      → Seen waiter v served u
      → Serves u waiters stay answers w
      → (all : List (ℤ × Bytes)) × Serves v
          (waiter ∷ waiters)
          (if served then stay else waiter ∷ stay)
          all
          w
  next-Serves waiter true v u w {answers = answers} (text, is_answer, left, one) rest =
      ((waiter.fd, text) ∷ answers, answered is_answer left one rest)
  next-Serves waiter false v u w {answers = answers} (idle, same) rest =
      (answers, stays idle same rest)

  serve_all :
      (waiters : List Waiter) (v : Server P)
      → let (stay, w) = serve_waiters reaches true waiters v in
        (bytes : Bytes) × Agrees v bytes w
        × ((answers : List (ℤ × Bytes)) × Serves v waiters stay answers w)
  unfolding serve_waiters
  serve_all [] v = ([], same-Agrees v, ([], all_seen))
  serve_all (waiter ∷ waiters) v =
      let (served, u) = serve_one reaches true waiter v in
      let (a, first, case) = serve_one-Served waiter v in
      let (b, rest, (answers, serves)) = serve_all waiters u in
      let (stay, w) = serve_waiters reaches true waiters u in
      (a ++ b, then-Agrees v u w a b first rest, next-Serves waiter served v u w case serves)

  -- The waiters are looked at in their order: one that has no answer stays as it is and changes
  -- nothing, and each other is answered once, on its own descriptor and with its own answer (the
  -- number of replicas that have acknowledged its offset, if these are as many as it asked for; the
  -- key and the first element of a list of its keys, which is popped; or what XREAD finds). Nobody
  -- else is sent anything, and the log grows by exactly the bytes that are sent to the replicas.
  pub serve_waiters-Agrees :
      (waiters : List Waiter) (v : Server P)
      → let (stay, w) = serve_waiters reaches true waiters v in
        ((bytes : Bytes) × Agrees v bytes w)
        × ((answers : List (ℤ × Bytes)) × Serves v waiters stay answers w
            × (w.replies ≡ v.replies ++ answers))
  serve_waiters-Agrees waiters v =
      let (stay, w) = serve_waiters reaches true waiters v in
      let (bytes, agrees, (answers, serves)) = serve_all waiters v in
      ((bytes, agrees), (answers, serves, all_answers v w waiters stay answers serves))
