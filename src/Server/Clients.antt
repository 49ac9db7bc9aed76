-- ===== src/Server/Clients.antt =====
-- server/server.cpp: the table of clients of `Server::run`, one request of a client, its block
-- request, the messages for other clients, and the end of a connection.
pub mod Tables
pub mod Kept
pub mod Requests
pub mod Attached
pub mod Rounds
use true_store.Base.{
  ℕ, zero, suc, Bool, true, false, not, ◌&&◌, ◌||◌, Option, none, some, List, [], ◌∷◌, ◌++◌, leb,
  ◌==◌, if◌then◌else◌, length, drop, ℤ, pos, negsuc, ◌+ℤ◌, wrap_i64,
}
use true_store.Text.{Bytes, codes, ◌=ᵇ◌, to_upper}
use true_store.Text.Parse.{stoll}
use true_store.Resp.{integer, to_bytes, command_bytes}
use true_store.Resp.Parse.{parse_command, done, more, resp_error, length_error}
use true_store.Platform.{Platform, Now}
use true_store.Store.Types.{Store, BlockRequest, BlockKind, list_block, stream_block, wait_block}
use true_store.Store.{take_pending_block, take_pending_messages}
use true_store.PubSub.{remove_subscriber}
use true_store.Client.{ClientState}
use true_store.Command.{Dispatch, handle_command, default_user_auto_auth}
use true_store.Server.{
  Server, Waiter, same_fd, set_offset, count_acked, send_to_replicas, after_command, serve_waiters,
  expire_all,
}

-- The variables of `Server::run`; the descriptors of `fds` are those of `clients`.
pub record Loop (P : Platform) : Type 0 where
  pub server : Server P
  pub clients : List (ℤ × ClientState)

-- The end of the inner loop over the requests in a buffer: it asks for more bytes, or the connection
-- is closed. An exception of the parser that is not its own leaves `Server::run`.
pub data Handled (P : Platform) : Type 0 where
  asks_more : Bytes → Loop P → Handled P
  ended : Loop P → Handled P
  failed no_rounds : Handled P

module _ {ℓ} {A : Type ℓ} where
  unfoldable pub connected : ℤ → List (ℤ × A) → Bool
  connected fd [] = false
  connected fd ((other, a) ∷ table) = same_fd fd other || connected fd table

  -- `erase` of a key.
  unfoldable pub without : ℤ → List (ℤ × A) → List (ℤ × A)
  without fd [] = []
  without fd ((other, a) ∷ table) =
      let rest = without fd table in if same_fd fd other then rest else (other, a) ∷ rest

  unfoldable pub entry : A → ℤ → List (ℤ × A) → A
  entry default fd [] = default
  entry default fd ((other, a) ∷ table) =
      let rest = entry default fd table in if same_fd fd other then a else rest

  unfoldable pub put : ℤ → A → List (ℤ × A) → List (ℤ × A)
  put fd a [] = (fd, a) ∷ []
  put fd a ((other, b) ∷ table) =
      let rest = put fd a table in
      if same_fd fd other then (other, a) ∷ table else (other, b) ∷ rest

-- `std::remove_if` over the waiters.
unfoldable pub other_waiters : ℤ → List Waiter → List Waiter
other_waiters fd [] = []
other_waiters fd (waiter ∷ waiters) =
    let rest = other_waiters fd waiters in if same_fd waiter.fd fd then rest else waiter ∷ rest

abbrev pub new_client : ClientState
new_client = record {
  fd = negsuc 0;
  authenticated = false;
  subscriptions = [];
  close_after_reply = false;
  in_multi = false;
  queued = [];
  watched = [];
  repl_offset = pos 0;
}

-- The offset that a replica acknowledges; what `std::stoll` throws is ignored.
unfoldable pub acknowledge : ℤ → Option ℤ → List (ℤ × ℤ) → List (ℤ × ℤ)
acknowledge fd none replicas = replicas
acknowledge fd (some offset) replicas =
    if connected fd replicas then set_offset fd offset replicas else replicas

unfoldable pub getack_request : Bytes
getack_request = command_bytes (codes "REPLCONF" ∷ codes "GETACK" ∷ codes "*" ∷ [])

-- The nanoseconds of a number of seconds are a parameter: `std::chrono::duration_cast`.
module _ (P : Platform) (nanoseconds : P.Double → ℤ) where
  unfoldable pub deadline_of : Now → P.Double → Option ℤ
  deadline_of now timeout =
      if P.lt P.zero_double timeout
      then some (wrap_i64 (now.steady +ℤ nanoseconds timeout))
      else none

  unfoldable pub waiter_of : Now → ℤ → ℤ → BlockRequest P.Double → Waiter
  waiter_of now fd target_offset request = record {
    fd = fd;
    kind = request.kind;
    keys = request.keys;
    ids = request.ids;
    count = request.count;
    deadline = deadline_of now request.timeout;
    target_offset = target_offset;
  }

module _ {P : Platform} where
  -- Whether a request is an acknowledgement, and the text of its offset.
  unfoldable pub acked_text : ClientState → Store P → List Bytes → Option Bytes
  acked_text c s (word ∷ option ∷ text ∷ rest) =
      if (c.authenticated || default_user_auto_auth s)
        && ((length c.subscriptions == 0)
            && (to_upper word =ᵇ codes "REPLCONF" && to_upper option =ᵇ codes "ACK"))
      then some text
      else none
  acked_text c s _ = none

module _ {P : Platform} (reaches : ℤ → Bytes → Bool) where
  unfoldable pub close_client : ℤ → Loop P → Loop P
  close_client fd l = record {
    server = record l.server {
      store = remove_subscriber fd l.server.store;
      waiters = other_waiters fd l.server.waiters;
      replicas = without fd l.server.replicas;
      client_offsets = without fd l.server.client_offsets;
    };
    clients = without fd l.clients;
  }

  -- `send_all` to a client, where its failure is ignored.
  unfoldable pub send_to : ℤ → Bytes → Server P → Server P
  send_to fd bytes v =
      if reaches fd bytes then record v { replies = v.replies ++ (fd, bytes) ∷ [] } else v

  unfoldable pub deliver : List (ℤ × Bytes) → Loop P → Loop P
  deliver [] l = l
  deliver ((recipient, message) ∷ messages) l =
      let next =
        (if not (connected recipient l.clients)
          then l
          else if reaches recipient message
          then record l { server = send_to recipient message l.server }
          else close_client recipient l) in
      deliver messages next

  unfoldable pub deliver_messages : Loop P → Loop P
  deliver_messages l =
      let (messages, s) = take_pending_messages l.server.store in
      deliver messages (record l { server = record l.server { store = s } })

  module _ (nanoseconds : P.Double → ℤ) (opened : Bool) where
    unfoldable pub add_waiter : Waiter → Server P → Server P
    add_waiter waiter v = record v { waiters = v.waiters ++ waiter ∷ [] }

    -- WAIT: an answer, if there are no replicas or enough of them are known to have the client's
    -- writes; otherwise the replicas are asked.
    unfoldable pub block_wait : Now → ℤ → BlockRequest P.Double → Server P → Server P
    block_wait now fd request v =
        let target_offset = entry (pos 0) fd v.client_offsets in
        let acked = count_acked target_offset v.replicas in
        if (length v.replicas == 0) || leb request.count acked
        then send_to fd (to_bytes (integer (pos acked))) v
        else add_waiter
            (record (waiter_of P nanoseconds now fd target_offset request) { keys = []; ids = [] })
            (send_to_replicas reaches getack_request v)

    unfoldable pub block_client : Now → ℤ → BlockRequest P.Double → Server P → Server P
    block_client now fd request v = elim request.kind [
      | wait_block ↦ block_wait now fd request v
      | list_block ↦ add_waiter (waiter_of P nanoseconds now fd (pos 0) request) v
      | stream_block ↦ add_waiter (waiter_of P nanoseconds now fd (pos 0) request) v
    ]

    -- Behind the reply: whether the connection is closed, and the loop.
    unfoldable pub finish_request : ℤ → Loop P → Bool × Loop P
    finish_request fd l =
        let next = deliver_messages l in
        if not (connected fd next.clients)
        then (true, next)
        else if (entry new_client fd next.clients).close_after_reply
        then (true, close_client fd next)
        else (false, next)

    -- The reply, unless the command blocks.
    unfoldable pub reply_request :
        Now → ℤ → Bytes → Option (BlockRequest P.Double) → Loop P → Bool × Loop P
    reply_request now fd response (some request) l =
        finish_request fd (record l { server = block_client now fd request l.server })
    reply_request now fd response none l =
        if length response == 0
        then finish_request fd l
        else if reaches fd response
        then finish_request fd (record l { server = send_to fd response l.server })
        else (true, close_client fd l)

    -- A request that is no acknowledgement.
    unfoldable pub run_request : Now → Dispatch P → ℤ → List Bytes → Loop P → Bool × Loop P
    run_request now dispatch fd args l =
        let c = entry new_client fd l.clients in
        let (response, (d, s)) = handle_command now dispatch args c l.server.store in
        let v =
          after_command reaches opened fd c.in_multi args response
            (record l.server { store = s }) in
        let (block, t) = take_pending_block v.store in
        reply_request now fd response block
          (record { server = record v { store = t }; clients = put fd d l.clients })

    unfoldable pub serve_request : Now → Dispatch P → ℤ → List Bytes → Loop P → Bool × Loop P
    serve_request now dispatch fd args l =
        elim (acked_text (entry new_client fd l.clients) l.server.store args) [
          | some text ↦ (
            false,
            record l {
              server = record l.server { replicas = acknowledge fd (stoll text) l.server.replicas };
            },
          )
          | none ↦ run_request now dispatch fd args l
        ]

    -- The inner loop over what the buffer of a client holds, for at most `fuel` rounds; the n-th
    -- request reads its own clocks.
    unfoldable pub serve_buffer :
        (ℕ → Now) → (Now → Dispatch P) → ℕ → ℕ → ℤ → Bytes → Loop P → Handled P
    serve_buffer clock dispatch zero n fd buffer l = no_rounds
    serve_buffer clock dispatch (suc fuel) n fd buffer l = elim (parse_command buffer) [
      | more ↦ asks_more buffer l
      | resp_error ↦ ended (close_client fd l)
      | length_error ↦ failed
      | done (args, consumed) ↦
          let (closed, next) = serve_request (clock n) (dispatch (clock n)) fd args l in
          let rest = serve_buffer clock dispatch fuel (suc n) fd (drop consumed buffer) next in
          if closed then ended next else rest
    ]

    -- A connection that has been accepted.
    unfoldable pub accept_client : ℤ → Loop P → Loop P
    accept_client fd l = record l {
      clients =
          put fd
            (record (entry new_client fd l.clients) {
              fd = fd;
              authenticated = default_user_auto_auth l.server.store;
            })
            l.clients;
    }

    -- The rounds of `serve_waiters` and `expire_waiters`.
    unfoldable pub serve_round : Loop P → Loop P
    serve_round l =
        let (stay, v) = serve_waiters reaches opened l.server.waiters l.server in
        record l { server = record v { waiters = stay } }

    unfoldable pub expire_round : Now → Loop P → Loop P
    expire_round now l =
        let (stay, replies) = expire_all now.steady l.server.replicas l.server.waiters in
        record l {
          server = record l.server { waiters = stay; replies = l.server.replies ++ replies };
        }
