-- ===== src/Examples/Sessions.antt =====
-- The theorems on channels, transactions and sessions at concrete inputs.
use mathlib.Core.Path.{subst}
use true_store.Base.{
  ◌+◌, ℕ, arith, take, replicate, length-take, length-append, length-replicate, some, ◌++◌, ◌≡◌,
  refl, true, false, none, List, [], ◌∷◌, length, pos,
}
use true_store.Text.{Bytes, codes, ◌=ᵇ◌, toupper, to_upper}
use true_store.Dict.{find}
use true_store.Platform.{Now}
use true_store.Resp.{simple_string, integer, to_bytes}
use true_store.Store.Types.{Store}
use true_store.TestPlatform.{test_platform, empty_store}
use true_store.Store.Expiry.{visible}
use true_store.Client.{ClientState}
use true_store.PubSub.{handle_subscribe, handle_publish}
use true_store.PubSub.Subscribers.{Linked, KeepsLinked, handlers-Linked, has_fd}
use true_store.PubSub.Delivered.{Ascending, AllAscending, handlers-AllAscending, publish_delivers}
use true_store.Lists.{handle_rpush}
use true_store.Auth.{member, hex_digit, credentials, handle_auth, to_hex, password_hash}
use true_store.Auth.Passwords.{DigestLaw, AreHashes, auth_accepts}
use true_store.Command.{Dispatch, handle_command}
use true_store.Command.Transactions.{IsOpen, IsQueueable, Requests, transaction_runs}
use true_store.Command.Watching.{exec_watches}
use true_store.Command.Outsiders.{IsWrong, StaysOut, send_each, locked_out}
use true_store.Command.Sessions.{reset_leaves}

abbrev pub now : Now
now = record { steady = pos 10; system_ms = 5 }

abbrev channel : Bytes
channel = codes "news"

abbrev pub client : ClientState
client = record {
  fd = pos 4;
  authenticated = true;
  subscriptions = [];
  close_after_reply = false;
  in_multi = false;
  queued = [];
  watched = [];
  repl_offset = pos 0;
}

-- A channel that another client has.
abbrev channels : Store test_platform
channels = record empty_store { subscribers = (channel, pos 7 ∷ []) ∷ [] }

-- RPUSH, whatever the command's name.
abbrev pushes : Dispatch test_platform
pushes args c s = let (reply, t) = handle_rpush args s in (reply, (c, t))

Linked-empty : Linked client empty_store
unfolding find has_fd
Linked-empty j = refl

handlers-Linked_example :
    KeepsLinked client empty_store
      (handle_subscribe (codes "SUBSCRIBE" ∷ channel ∷ []) client empty_store).1
handlers-Linked_example =
    (handlers-Linked (codes "SUBSCRIBE" ∷ channel ∷ []) client empty_store Linked-empty).0

AllAscending-empty : AllAscending empty_store.subscribers
unfolding find Ascending
AllAscending-empty j = tt

abbrev joined : ClientState × Store test_platform
joined = (handle_subscribe (codes "SUBSCRIBE" ∷ channel ∷ []) client empty_store).1

Linked-joined : Linked joined.0 joined.1
Linked-joined =
    (handlers-Linked (codes "SUBSCRIBE" ∷ channel ∷ []) client empty_store Linked-empty).0.0

AllAscending-joined : AllAscending joined.1.subscribers
AllAscending-joined =
    (handlers-AllAscending (codes "SUBSCRIBE" ∷ channel ∷ []) client empty_store
      AllAscending-empty).0

publish_delivers_example :
    let r = handle_publish (codes "PUBLISH" ∷ channel ∷ codes "hi" ∷ []) joined.1 in
    (n : ℕ) × (r.0 ≡ to_bytes (integer (pos n)))
    × (length r.1.pending_messages ≡ length joined.1.pending_messages + n)
publish_delivers_example =
    (publish_delivers (codes "PUBLISH") channel (codes "hi") joined.0 joined.1 Linked-joined
      AllAscending-joined).2

client-IsOpen : IsOpen client
client-IsOpen = record { authenticated = refl; no_channel = refl }

abbrev pub push : List Bytes
push = codes "RPUSH" ∷ codes "k" ∷ codes "v" ∷ []

abbrev requests : Requests test_platform
requests = (now, (empty_store, push)) ∷ (now, (channels, push)) ∷ []

push-IsQueueable : IsQueueable push
unfolding IsQueueable to_upper toupper ◌=ᵇ◌
push-IsQueueable = refl

transaction_runs_example :
    (handle_command now pushes (codes "MULTI" ∷ []) client empty_store).1.1 ≡ empty_store
transaction_runs_example =
    (transaction_runs pushes now now requests client empty_store channels client-IsOpen refl refl
      refl (push-IsQueueable, (push-IsQueueable, tt))).0

abbrev in_transaction : ClientState
in_transaction = record client {
  in_multi = true;
  queued = push ∷ [];
  watched = (codes "a", none) ∷ [];
}

exec_watches_example :
    (t : Store test_platform) × ((j : Bytes) → visible now t j ≡ visible now empty_store j)
exec_watches_example =
    let r =
      exec_watches now pushes in_transaction empty_store
        (record { authenticated = refl; no_channel = refl }) refl in
    (r.0, r.1)

-- A store with a password, and a client that has not given it.
abbrev closed : Store test_platform
closed = record empty_store { default_user_nopass = false }

abbrev stranger : ClientState
stranger = record client { authenticated = false }

reset_leaves_example :
    (handle_command now pushes (codes "reset" ∷ []) in_transaction channels).1.0.in_multi ≡ false
unfolding to_upper toupper ◌=ᵇ◌
reset_leaves_example =
    (reset_leaves now pushes (codes "reset") in_transaction channels refl (tt, tt)).2

pub platform_digests : DigestLaw test_platform
platform_digests text digest e = ground (
  arith,
  some_eq e,
  length-take 32 (text ++ replicate 32 0),
  length-append text (replicate 32 0),
  length-replicate {A = ℕ} 32 0,
)
  where
    some_eq :
        some (take 32 (text ++ replicate 32 0)) ≡ some digest
        → take 32 (text ++ replicate 32 0) ≡ digest
    some_eq p = cc

pub no_passwords : AreHashes (credentials empty_store)
no_passwords = (tt, λ e. refl)

abbrev set_password : List Bytes
set_password = codes "ACL" ∷ codes "SETUSER" ∷ codes "default" ∷ codes ">secret" ∷ []

abbrev secret_hash : Bytes
unfolding to_hex hex_digit
secret_hash = to_hex (take 32 (codes "secret" ++ replicate 32 0))

abbrev guarded : Store test_platform
guarded = record closed { default_user_passwords = secret_hash ∷ [] }

auth_accepts_example :
    handle_auth (codes "AUTH" ∷ codes "secret" ∷ []) stranger guarded
    ≡ some (to_bytes (simple_string (codes "OK")), client)
unfolding to_hex hex_digit password_hash ◌=ᵇ◌
auth_accepts_example =
    auth_accepts test_platform platform_digests (codes "AUTH") (codes "secret") secret_hash stranger
      guarded ((refl, tt), λ e. cc) refl refl

-- A wrong password, then RESET and a write.
abbrev guesses : List (Now × List Bytes)
guesses = (now, codes "AUTH" ∷ codes "guess" ∷ []) ∷ (now, codes "RESET" ∷ []) ∷ (now, push) ∷ []

-- The digest of a text, as the platform of the tests makes it.
abbrev digits : Bytes → Bytes
digits text = to_hex (take 32 (text ++ replicate 32 0))

digits-IsWrong :
    (text : Bytes)
    → member (digits text) guarded.default_user_passwords ≡ false
    → IsWrong guarded text
unfolding IsWrong password_hash
digits-IsWrong text other hash e =
    subst (λ h. member h guarded.default_user_passwords ≡ false) (some_eq hash e) other
  where
    some_eq : (hash : Bytes) → some (digits text) ≡ some hash → digits text ≡ hash
    some_eq hash p = cc

locked_out_example : StaysOut guarded (send_each guesses stranger guarded)
unfolding secret_hash to_hex hex_digit ◌=ᵇ◌
locked_out_example =
    locked_out platform_digests guesses stranger guarded refl ((refl, tt), λ e. cc) refl refl
      (
        (digits-IsWrong _ refl, (digits-IsWrong _ refl, tt)),
        (
          (digits-IsWrong _ refl, tt),
          ((digits-IsWrong _ refl, (digits-IsWrong _ refl, (digits-IsWrong _ refl, tt))), tt),
        ),
      )
