-- ===== src/Examples/Loops.antt =====
-- The theorems on the clients of the server's loop and on its primary at concrete inputs.
use true_store.Base.{
  ◌+◌, ◌^◌, ◌<◌, ◌≡◌, ◌≢◌, refl, sym, ap, ◌∙◌, append-nil, true, false, List, [], ◌∷◌, ◌++◌, arith,
  length, pos,
}
use true_store.Text.{Bytes, codes, ◌=ᵇ◌, to_upper}
use true_store.Text.Decimal.{to_string}
use true_store.Resp.{bulk_bytes, bulks_bytes, command_bytes}
use true_store.TestPlatform.{test_platform, empty_store}
use true_store.Aof.{printed, replay_client, Replaying}
use true_store.Resp.Parse.{parse_command}
use true_store.Resp.Consumed.{EndsIn, parse_command-EndsIn}
use true_store.Server.Clients.Rounds.{loops_end}
use true_store.Aof.Split.{joined}
use true_store.Command.{is_write_command, is_error}
use true_store.Server.{after_command, is_logged}
use true_store.Server.Replicas.{stream_bytes, after_command_streams}
use true_store.Server.Primary.{Following, waits, receive_all}
use true_store.Server.Primary.Followed.{KeepsCount, stream-KeepsCount}
use true_store.Server.Primary.Together.{replica_keeps_up}
use true_store.Server.Clients.{
  serve_buffer, no_rounds, Loop, connected, serve_request, close_client,
}
use true_store.Server.Clients.Requests.{IsAttached}
use true_store.Server.Clients.Attached.{stay, turn, request, closed, turns-IsAttached}
use true_store.Examples.Sessions.{client, now, push}
use true_store.Examples.Logs.{clock, echo, server, set_command, sent, sent_small, waiter}

abbrev following : Following test_platform
following = record {
  offset = pos 0;
  client = replay_client;
  store = empty_store;
  commands = 0;
  log = [];
  acks = [];
}

-- A request for an answer, in the stream behind another command.
abbrev streamed : List (List Bytes)
streamed = set_command ∷ (codes "REPLCONF" ∷ codes "GETACK" ∷ codes "*" ∷ []) ∷ []

streamed_small : 0 + length (printed streamed) < 2 ^ 63
unfolding printed command_bytes bulks_bytes bulk_bytes to_string
streamed_small = omega arith

stream-KeepsCount_example :
    KeepsCount clock echo true 0 streamed (printed streamed ∷ []) [] following
stream-KeepsCount_example =
    stream-KeepsCount clock echo true (printed streamed ∷ []) streamed following 0
      (omega arith, (omega arith, tt)) streamed_small (append-nil (printed streamed)) refl refl

received :
    stream_bytes server.stream ++ joined (printed sent ∷ [])
    ≡ stream_bytes
        (after_command
          (λ fd bytes. true)
          true
          (pos 5)
          false
          set_command
          (codes "+OK")
          server).stream
received =
    ap (λ (b : Bytes). stream_bytes [] ++ b) (append-nil (printed sent))
    ∙ sym
        (after_command_streams (λ fd bytes. true) (pos 5) false set_command (codes "+OK") server 0
          refl sent_small).1

replica_keeps_up_example :
    (x : Following test_platform) × (receive_all clock echo true (printed sent ∷ []) [] following
      ≡ waits [] x)
unfolding is_logged is_write_command is_error ◌=ᵇ◌ to_upper
replica_keeps_up_example =
    let r =
      replica_keeps_up (λ fd bytes. true) (pos 5) false set_command (codes "+OK") server clock echo
        true (printed sent ∷ []) following 0 refl refl refl (omega arith, tt) sent_small received in
    (r.0, r.1)

-- A client that waits, another one, and a replica.
abbrev tables : Loop test_platform
tables = record {
  server = record server { waiters = waiter ∷ [] };
  clients = (pos 4, client) ∷ (pos 5, client) ∷ (pos 7, client) ∷ [];
}

tables-IsAttached : IsAttached tables
unfolding connected
tables-IsAttached = record { waiters = (refl, tt); replicas = (refl, tt) }

turns-IsAttached_example : IsAttached (
    close_client
      (λ fd bytes. true)
      (pos 5)
      (serve_request (λ fd bytes. true) (λ n. pos n) true now (echo now) (pos 4) push tables).1)
unfolding connected
turns-IsAttached_example =
    turns-IsAttached (λ fd bytes. true) (λ n. pos n) true
      (turn (turn stay (request now (echo now) (pos 4) push tables refl)) (closed (pos 5) _))
      tables-IsAttached

-- A length that wraps: the consumed bytes are fewer than those of the request.
abbrev wrapping : Bytes
wrapping = codes "*1\r\n$-5\r\nGET\r\n"

parse_command-EndsIn_example : EndsIn 1 14 (parse_command wrapping)
parse_command-EndsIn_example = parse_command-EndsIn wrapping (omega arith)

abbrev replaying : Replaying test_platform
replaying = record { commands = 0; client = replay_client; store = empty_store }

loops_end_example :
    serve_buffer (λ fd bytes. true) (λ n. pos n) true clock echo 15 0 (pos 4) wrapping tables
    ≢ no_rounds
loops_end_example =
    (loops_end clock echo true (λ fd bytes. true) (λ n. pos n) 0 (pos 4) wrapping tables following
      replaying (omega arith)).0
