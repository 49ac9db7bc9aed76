-- ===== src/Server/Clients/Attached.antt =====
-- Runs of the loop of server/server.cpp, and its tables of waiters and replicas.
use true_store.Base.{◌≡◌, Bool, true, List, ℤ}
use true_store.Text.{Bytes}
use true_store.Platform.{Platform, Now}
use true_store.Command.{Dispatch}
use true_store.Server.Clients.{
  Loop, connected, close_client, serve_request, accept_client, serve_round, expire_round,
}
use true_store.Server.Clients.Requests.{
  IsAttached, close-IsAttached, request-IsAttached, accepted-IsAttached, served-IsAttached,
  expired-IsAttached,
}

-- What `Server::run` does with its tables: a request of a connected client, the end of a connection,
-- a new one, and the rounds for the waiters.
pub data Turn {P : Platform} (reaches : ℤ → Bytes → Bool) (nanoseconds : P.Double → ℤ)
    (opened : Bool) : Loop P → Loop P → Type 0 where
  request :
      (now : Now) (dispatch : Dispatch P) (fd : ℤ) (args : List Bytes) (l : Loop P)
      → connected fd l.clients ≡ true
      → Turn reaches nanoseconds opened l
          (serve_request reaches nanoseconds opened now dispatch fd args l).1
  closed : (fd : ℤ) (l : Loop P) → Turn reaches nanoseconds opened l (close_client reaches fd l)
  accepted :
      (fd : ℤ) (l : Loop P)
      → Turn reaches nanoseconds opened l (accept_client reaches nanoseconds opened fd l)
  served :
      (l : Loop P) → Turn reaches nanoseconds opened l (serve_round reaches nanoseconds opened l)
  expired :
      (now : Now) (l : Loop P)
      → Turn reaches nanoseconds opened l (expire_round reaches nanoseconds opened now l)

-- Any number of turns.
pub data Runs {P : Platform} (reaches : ℤ → Bytes → Bool) (nanoseconds : P.Double → ℤ)
    (opened : Bool) (l : Loop P) : Loop P → Type 0 where
  stay : Runs reaches nanoseconds opened l l
  turn :
      {m n : Loop P}
      → Runs reaches nanoseconds opened l m
      → Turn reaches nanoseconds opened m n
      → Runs reaches nanoseconds opened l n

module _ {P : Platform} (reaches : ℤ → Bytes → Bool) (nanoseconds : P.Double → ℤ)
    (opened : Bool) where
  turn-IsAttached :
      {l m : Loop P} → Turn reaches nanoseconds opened l m → IsAttached l → IsAttached m
  turn-IsAttached (request now dispatch fd args l c) h =
      request-IsAttached reaches nanoseconds opened now dispatch fd args l c h
  turn-IsAttached (closed fd l) h = close-IsAttached reaches fd l h
  turn-IsAttached (accepted fd l) h = accepted-IsAttached reaches nanoseconds opened fd l h
  turn-IsAttached (served l) h = served-IsAttached reaches nanoseconds opened l h
  turn-IsAttached (expired now l) h = expired-IsAttached reaches nanoseconds opened now l h

  -- Along any sequence of requests, new and ended connections and rounds for the waiters, every
  -- waiter and every replica is a client that is connected, if that was so in the beginning:
  -- whatever the commands do, and whatever sends fail.
  pub turns-IsAttached :
      {l m : Loop P} → Runs reaches nanoseconds opened l m → IsAttached l → IsAttached m
  turns-IsAttached stay h = h
  turns-IsAttached (turn before last) h = turn-IsAttached last (turns-IsAttached before h)
