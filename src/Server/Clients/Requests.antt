-- ===== src/Server/Clients/Requests.antt =====
-- One turn of the loop of server/server.cpp, and its tables of waiters and replicas.
use true_store.Base.{
  ◌≡◌, ◌∙◌, inl, inr, Bool, true, false, not, ◌||◌, Option, none, some, List, [], ◌∷◌, ◌++◌, ℤ, pos,
  leb, Option-cases, if_both, ◌==◌, length,
}
use true_store.Text.{Bytes}
use true_store.Text.Parse.{stoll}
use true_store.Platform.{Platform, Now}
use true_store.Store.Types.{BlockRequest, BlockKind, list_block, stream_block, wait_block}
use true_store.Store.{take_pending_block, take_pending_messages}
use true_store.Client.{ClientState}
use true_store.Command.{Dispatch, handle_command}
use true_store.Server.{Server, Waiter, same_fd, send_to_replicas, after_command, count_acked}
use true_store.Server.Clients.{
  Loop, connected, without, entry, put, close_client, send_to, deliver, deliver_messages,
  add_waiter, block_wait, block_client, finish_request, reply_request, run_request, serve_request,
  acked_text, accept_client, serve_round, expire_round, new_client, getack_request, waiter_of,
}
use true_store.Server.Clients.Tables.{
  Waiting, Replicas, acknowledge-Replicas, expire_all-Waiting, Waiting-map, Replicas-map,
  other-Waiting, without-Replicas, connected-put, connected-put_self, connected-without,
}
use true_store.Server.Clients.Kept.{Keeps, sent-Keeps, after_command-Keeps, served_all}

-- Every waiter and every replica is a connected client.
pub record IsAttached {P : Platform} (l : Loop P) : Type 0 where
  pub waiters : Waiting (λ x. connected x l.clients ≡ true) l.server.waiters
  pub replicas : Replicas (λ x. connected x l.clients ≡ true) l.server.replicas

added-Waiting :
    (Q : ℤ → Type 0) (waiters : List Waiter) (waiter : Waiter)
    → Q waiter.fd
    → Waiting Q waiters
    → Waiting Q (waiters ++ waiter ∷ [])
added-Waiting Q [] waiter q h = (q, tt)
added-Waiting Q (other ∷ waiters) waiter q (p, h) = (p, added-Waiting Q waiters waiter q h)

module _ {P : Platform} (reaches : ℤ → Bytes → Bool) where
  pub close-IsAttached :
      (fd : ℤ) (l : Loop P) → IsAttached l → IsAttached (close_client reaches fd l)
  unfolding close_client
  close-IsAttached fd l h =
      let stays = λ (x : ℤ) (e : same_fd x fd ≡ false) (c : connected x l.clients ≡ true).
        connected-without x fd l.clients e ∙ c in
      let before = λ (x : ℤ). connected x l.clients ≡ true in
      let after = λ (x : ℤ). connected x (without fd l.clients) ≡ true in
      record {
        waiters = other-Waiting before after fd l.server.waiters stays h.waiters;
        replicas = without-Replicas before after fd l.server.replicas stays h.replicas;
      }

  kept-IsAttached :
      (l : Loop P) (v : Server P)
      → Keeps reaches (λ x. connected x l.clients ≡ true) l.server v
      → IsAttached l
      → IsAttached (record l { server = v })
  unfolding Keeps
  kept-IsAttached l v (waiters, replicas) h = record {
    waiters = rw waiters h.waiters;
    replicas = replicas h.replicas;
  }

  sent-IsAttached :
      (fd : ℤ) (bytes : Bytes) (l : Loop P)
      → IsAttached l
      → IsAttached (record l { server = send_to reaches fd bytes l.server })
  unfolding send_to
  sent-IsAttached fd bytes l h =
      if_both (λ (v : Server P). IsAttached (record l { server = v })) (reaches fd bytes)
        (record { waiters = h.waiters; replicas = h.replicas }) h

  deliver-IsAttached :
      (messages : List (ℤ × Bytes)) (l : Loop P)
      → IsAttached l
      → IsAttached (deliver reaches messages l)
  unfolding deliver
  deliver-IsAttached [] l h = h
  deliver-IsAttached ((recipient, message) ∷ messages) l h = deliver-IsAttached messages _ (
      if_both IsAttached (not (connected recipient l.clients)) h (
        if_both IsAttached (reaches recipient message) (sent-IsAttached recipient message l h)
          (close-IsAttached recipient l h)))

  delivered-IsAttached : (l : Loop P) → IsAttached l → IsAttached (deliver_messages reaches l)
  unfolding deliver_messages take_pending_messages
  delivered-IsAttached l h =
      deliver-IsAttached l.server.store.pending_messages _
        (record { waiters = h.waiters; replicas = h.replicas })

  module _ (nanoseconds : P.Double → ℤ) (opened : Bool) where
    added-IsAttached :
        (waiter : Waiter) (l : Loop P)
        → connected waiter.fd l.clients ≡ true
        → IsAttached l
        → IsAttached (record l { server = add_waiter reaches nanoseconds opened waiter l.server })
    unfolding add_waiter
    added-IsAttached waiter l c h = record {
      waiters =
          added-Waiting (λ x. connected x l.clients ≡ true) l.server.waiters waiter c h.waiters;
      replicas = h.replicas;
    }

    wait-IsAttached :
        (now : Now) (fd : ℤ) (request : BlockRequest P.Double) (l : Loop P)
        → connected fd l.clients ≡ true
        → IsAttached l
        → IsAttached
            (record l { server = block_wait reaches nanoseconds opened now fd request l.server })
    unfolding block_wait waiter_of Keeps
    wait-IsAttached now fd request l c h =
        let Q = λ (x : ℤ). connected x l.clients ≡ true in
        let target = entry (pos 0) fd l.server.client_offsets in
        let asked = send_to_replicas reaches getack_request l.server in
        if_both (λ (v : Server P). IsAttached (record l { server = v }))
          ((length l.server.replicas == 0)
            || leb request.count (count_acked target l.server.replicas))
          (sent-IsAttached fd _ l h)
          (added-IsAttached _ (record l { server = asked }) c
            (kept-IsAttached l asked (sent-Keeps reaches Q getack_request l.server) h))

    blocked-IsAttached :
        (now : Now) (fd : ℤ) (request : BlockRequest P.Double) (l : Loop P)
        → connected fd l.clients ≡ true
        → IsAttached l
        → IsAttached
            (record l { server = block_client reaches nanoseconds opened now fd request l.server })
    unfolding block_client waiter_of
    blocked-IsAttached now fd request l c h = by_kind request.kind
      where
        by_kind :
            (kind : BlockKind)
            → IsAttached (record l {
              server =
                  block_client reaches nanoseconds opened now fd
                    (record request { kind = kind })
                    l.server;
            })
        by_kind wait_block = wait-IsAttached now fd (record request { kind = wait_block }) l c h
        by_kind list_block = added-IsAttached _ l c h
        by_kind stream_block = added-IsAttached _ l c h

    finished-IsAttached :
        (fd : ℤ) (l : Loop P)
        → IsAttached l
        → IsAttached (finish_request reaches nanoseconds opened fd l).1
    unfolding finish_request
    finished-IsAttached fd l h =
        let next = deliver_messages reaches l in
        let after = delivered-IsAttached l h in
        if_both (λ (r : Bool × Loop P). IsAttached r.1) (not (connected fd next.clients)) after
          (if_both (λ (r : Bool × Loop P). IsAttached r.1)
            (entry new_client fd next.clients).close_after_reply (close-IsAttached fd next after)
            after)

    replied-IsAttached :
        (now : Now) (fd : ℤ) (response : Bytes) (block : Option (BlockRequest P.Double))
        (l : Loop P)
        → connected fd l.clients ≡ true
        → IsAttached l
        → IsAttached (reply_request reaches nanoseconds opened now fd response block l).1
    unfolding reply_request
    replied-IsAttached now fd response (some request) l c h =
        finished-IsAttached fd _ (blocked-IsAttached now fd request l c h)
    replied-IsAttached now fd response none l c h =
        if_both (λ (r : Bool × Loop P). IsAttached r.1) (length response == 0)
          (finished-IsAttached fd l h)
          (if_both (λ (r : Bool × Loop P). IsAttached r.1) (reaches fd response)
            (finished-IsAttached fd _ (sent-IsAttached fd response l h)) (close-IsAttached fd l h))

    put-IsAttached :
        (fd : ℤ) (c : ClientState) (l : Loop P)
        → IsAttached l
        → IsAttached (record l { clients = put fd c l.clients })
    put-IsAttached fd c l h =
        let Q = λ (x : ℤ). connected x l.clients ≡ true in
        let R = λ (x : ℤ). connected x (put fd c l.clients) ≡ true in
        let stays = λ (x : ℤ). connected-put x fd c l.clients in
        record {
          waiters = Waiting-map Q R l.server.waiters stays h.waiters;
          replicas = Replicas-map Q R l.server.replicas stays h.replicas;
        }

    run-IsAttached :
        (now : Now) (dispatch : Dispatch P) (fd : ℤ) (args : List Bytes) (l : Loop P)
        → connected fd l.clients ≡ true
        → IsAttached l
        → IsAttached (run_request reaches nanoseconds opened now dispatch fd args l).1
    unfolding run_request take_pending_block Keeps
    run-IsAttached now dispatch fd args l c h =
        let client = entry new_client fd l.clients in
        let (response, (d, s)) = handle_command now dispatch args client l.server.store in
        let u : Server P = record l.server { store = s } in
        let v = after_command reaches opened fd client.in_multi args response u in
        let kept =
          kept-IsAttached l v
            (after_command-Keeps reaches (λ x. connected x l.clients ≡ true) opened fd
              client.in_multi args response u c)
            h in
        let m : Loop P = record l {
          server = record v { store = record v.store { pending_block = none } };
        } in
        let taken : IsAttached m = record { waiters = kept.waiters; replicas = kept.replicas } in
        replied-IsAttached now fd response v.store.pending_block _
          (connected-put_self fd d l.clients) (put-IsAttached fd d m taken)

    pub request-IsAttached :
        (now : Now) (dispatch : Dispatch P) (fd : ℤ) (args : List Bytes) (l : Loop P)
        → connected fd l.clients ≡ true
        → IsAttached l
        → IsAttached (serve_request reaches nanoseconds opened now dispatch fd args l).1
    unfolding serve_request
    request-IsAttached now dispatch fd args l c h =
        elim (Option-cases (acked_text (entry new_client fd l.clients) l.server.store args)) [
          | inl e ↦ rw (e, serve_request) (run-IsAttached now dispatch fd args l c h)
          | inr (text, e) ↦
              rw (e, serve_request)
                (record {
                  waiters = h.waiters;
                  replicas =
                      acknowledge-Replicas (λ x. connected x l.clients ≡ true) fd (stoll text)
                        l.server.replicas h.replicas;
                })
        ]

    pub accepted-IsAttached :
        (fd : ℤ) (l : Loop P)
        → IsAttached l
        → IsAttached (accept_client reaches nanoseconds opened fd l)
    unfolding accept_client
    accepted-IsAttached fd l h = put-IsAttached fd _ l h

    pub served-IsAttached :
        (l : Loop P) → IsAttached l → IsAttached (serve_round reaches nanoseconds opened l)
    unfolding serve_round
    served-IsAttached l h =
        let (waiters, replicas) =
          served_all reaches (λ x. connected x l.clients ≡ true) opened l.server.waiters l.server
            h.waiters h.replicas in
        record { waiters = waiters; replicas = replicas }

    pub expired-IsAttached :
        (now : Now) (l : Loop P)
        → IsAttached l
        → IsAttached (expire_round reaches nanoseconds opened now l)
    unfolding expire_round
    expired-IsAttached now l h = record {
      waiters =
          expire_all-Waiting (λ x. connected x l.clients ≡ true) now.steady l.server.replicas
            l.server.waiters h.waiters;
      replicas = h.replicas;
    }
