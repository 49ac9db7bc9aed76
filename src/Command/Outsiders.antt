-- ===== src/Command/Outsiders.antt =====
-- A client that does not know the password, before `handle_command` and `Store::handle_auth`.
use mathlib.Core.Path.{subst}
use true_store.Base.{
  sym, ◌⊎◌, not, ◌&&◌, ◌==◌, length, ◌≡◌, refl, ap, ◌∙◌, inl, inr, Bool, true, false, some, List,
  [], ◌∷◌, arith, Bool-cases, Option-cases, All,
}
use true_store.Text.{Bytes, codes, ◌=ᵇ◌, to_upper}
use true_store.Text.Equality.{eq_iff}
use true_store.Platform.{Platform, Now}
use true_store.Store.Types.{Store}
use true_store.Client.{ClientState}
use true_store.PubSub.{remove_subscriber}
use true_store.Auth.{password_hash, member, matches, check_password, handle_auth, credentials}
use true_store.Auth.Passwords.{DigestLaw, AreHashes, length-password_hash, matches-member}
use true_store.Command.{
  one_of, default_user_auto_auth, cleared, end_session, run_command, handle_command,
}
use true_store.Command.Handlers.{auth_result, dispatch_command}

-- One client's requests, each with its clock, one after the other on the same store.
unfoldable pub send_each :
    {P : Platform} → List (Now × List Bytes) → ClientState → Store P → ClientState × Store P
send_each [] c s = (c, s)
send_each ((now, args) ∷ rest) c s =
    let (d, t) = (handle_command now (dispatch_command now) args c s).1 in send_each rest d t

-- The text is not a password: its digest is not among those that the store keeps.
unfoldable pub IsWrong : {P : Platform} → Store P → Bytes → Type 0
IsWrong {P = P} s text =
    (hash : Bytes) → password_hash P text ≡ some hash → member hash s.default_user_passwords ≡ false

-- A client that has not authenticated and is in no transaction, and a store that is as it was but
-- for the table of subscribers.
unfoldable pub StaysOut : {P : Platform} → Store P → ClientState × Store P → Type 0
StaysOut s (d, t) =
    (d.authenticated ≡ false)
    × (d.in_multi ≡ false)
    × (t ≡ record s { subscribers = t.subscribers })

-- A word that a client with channels may not use.
abbrev shut_out : Bytes → ClientState → Bool
shut_out word c =
    not (length c.subscriptions == 0)
    && not (
        one_of (to_upper word) (
          "SUBSCRIBE" ∷ "UNSUBSCRIBE" ∷ "PSUBSCRIBE" ∷ "PUNSUBSCRIBE" ∷ "PING" ∷ "QUIT" ∷ "RESET"
          ∷ []))

module _ {P : Platform} (law : DigestLaw P) where
  refused :
      (named : Bool) (password : Bytes) (c : ClientState) (s : Store P)
      → s.default_user_nopass ≡ false
      → AreHashes (credentials s)
      → IsWrong s password
      → (auth_result c s (check_password named password c s)).1 ≡ (c, s)
  unfolding check_password IsWrong
  refused named password c s n h wrong = elim (Option-cases (password_hash P password)) [
    | inl e ↦ ground (arith, e)
    | inr (hash, e) ↦
        let unknown : matches hash s.default_user_passwords ≡ false =
          matches-member hash s.default_user_passwords (length-password_hash P law password hash e)
            h.0
          ∙ wrong hash e in
        ground (arith, n, e, unknown)
  ]

  refused_auth :
      (args : List Bytes) (c : ClientState) (s : Store P)
      → s.default_user_nopass ≡ false
      → AreHashes (credentials s)
      → All (IsWrong s) args
      → (auth_result c s (handle_auth args c s)).1 ≡ (c, s)
  unfolding handle_auth
  refused_auth [] c s n h w = refl
  refused_auth (word ∷ []) c s n h w = refl
  refused_auth (word ∷ password ∷ []) c s n h (_, (w, _)) =
      ground (arith, n, refused true password c s n h w)
  refused_auth (word ∷ user ∷ password ∷ []) c s n h (_, (_, (w, _))) =
      refused (user =ᵇ codes "default") password c s n h w
  refused_auth (word ∷ user ∷ password ∷ more ∷ rest) c s n h w = refl

  unchanged :
      (c : ClientState) (s : Store P)
      → c.authenticated ≡ false
      → c.in_multi ≡ false
      → StaysOut s (c, s)
  unfolding StaysOut
  unchanged c s a m = (a, m, refl)

  -- QUIT and RESET.
  ended-StaysOut :
      (quits : Bool) (rest : List Bytes) (c : ClientState) (s : Store P)
      → s.default_user_nopass ≡ false
      → c.authenticated ≡ false
      → c.in_multi ≡ false
      → StaysOut s (end_session quits rest c s).1
  unfolding end_session StaysOut default_user_auto_auth remove_subscriber cleared
  ended-StaysOut quits [] c s n a m = (ground (arith, n), refl, refl)
  ended-StaysOut quits (_ ∷ _) c s n a m = (a, m, refl)

  by_auth :
      (now : Now) (word : Bytes) (rest : List Bytes) (c : ClientState) (s : Store P)
      → c.in_multi ≡ false
      → to_upper word ≡ codes "AUTH"
      → (run_command now (dispatch_command now) word rest c s).1
        ≡ (auth_result c s (handle_auth (word ∷ rest) c s)).1
  unfolding run_command dispatch_command ◌=ᵇ◌
  by_auth now word rest c s m auth = ground (arith, m, auth)

  run-StaysOut :
      (now : Now) (word : Bytes) (rest : List Bytes) (c : ClientState) (s : Store P)
      → s.default_user_nopass ≡ false
      → AreHashes (credentials s)
      → All (IsWrong s) (word ∷ rest)
      → c.authenticated ≡ false
      → c.in_multi ≡ false
      → one_of (to_upper word) ("AUTH" ∷ "QUIT" ∷ "RESET" ∷ []) ≡ true
      → StaysOut s (run_command now (dispatch_command now) word rest c s).1
  unfolding StaysOut run_command
  run-StaysOut now word rest c s n h w a m one =
      elim (Bool-cases (one_of (to_upper word) ("QUIT" ∷ "RESET" ∷ []))) [
        | inl ends ↦ rw ends (ended-StaysOut (to_upper word =ᵇ codes "QUIT") rest c s n a m)
        | inr other ↦
            let auth : to_upper word ≡ codes "AUTH" =
              ground (arith, one, other, eq_iff (to_upper word) (codes "AUTH")) in
            subst (StaysOut s)
              (sym (by_auth now word rest c s m auth ∙ refused_auth (word ∷ rest) c s n h w))
              (unchanged c s a m)
      ]

  shut_out_lem :
      (now : Now) (word : Bytes) (rest : List Bytes) (c : ClientState) (s : Store P)
      → s.default_user_nopass ≡ false
      → c.authenticated ≡ false
      → (one_of (to_upper word) ("AUTH" ∷ "QUIT" ∷ "RESET" ∷ []) ≡ false) ⊎ (shut_out word c ≡ true)
      → (handle_command now (dispatch_command now) (word ∷ rest) c s).1 ≡ (c, s)
  unfolding handle_command default_user_auto_auth
  shut_out_lem now word rest c s n a (inl other) = ground (arith, n, a, other)
  shut_out_lem now word rest c s n a (inr shut) = ground (arith, n, a, shut)

  let_in :
      (now : Now) (word : Bytes) (rest : List Bytes) (c : ClientState) (s : Store P)
      → one_of (to_upper word) ("AUTH" ∷ "QUIT" ∷ "RESET" ∷ []) ≡ true
      → shut_out word c ≡ false
      → handle_command now (dispatch_command now) (word ∷ rest) c s
        ≡ run_command now (dispatch_command now) word rest c s
  unfolding handle_command
  let_in now word rest c s one may = ground (arith, one, may)

  step-StaysOut :
      (now : Now) (args : List Bytes) (c : ClientState) (s : Store P)
      → s.default_user_nopass ≡ false
      → AreHashes (credentials s)
      → All (IsWrong s) args
      → c.authenticated ≡ false
      → c.in_multi ≡ false
      → StaysOut s (handle_command now (dispatch_command now) args c s).1
  unfolding handle_command
  step-StaysOut now [] c s n h w a m = unchanged c s a m
  step-StaysOut now (word ∷ rest) c s n h w a m =
      elim (Bool-cases (one_of (to_upper word) ("AUTH" ∷ "QUIT" ∷ "RESET" ∷ []))) [
        | inl one ↦ elim (Bool-cases (shut_out word c)) [
          | inl shut ↦ as_before (inr shut)
          | inr may ↦
              subst (λ r. StaysOut s r.1) (sym (let_in now word rest c s one may))
                (run-StaysOut now word rest c s n h w a m one)
        ]
        | inr other ↦ as_before (inl other)
      ]
    where
      as_before :
          (one_of (to_upper word) ("AUTH" ∷ "QUIT" ∷ "RESET" ∷ []) ≡ false)
            ⊎ (shut_out word c ≡ true)
          → StaysOut s (handle_command now (dispatch_command now) (word ∷ rest) c s).1
      as_before why =
          subst (StaysOut s) (sym (shut_out_lem now word rest c s n a why)) (unchanged c s a m)

  -- A client that has not authenticated and is in no transaction sends any requests, AUTH, QUIT and
  -- RESET among them, to a store that asks for a password and keeps hashes of 64 digits. If the
  -- digest of no argument is among those that the store keeps, then the client has not authenticated
  -- and is in no transaction at the end, and of the store at most the table of subscribers has
  -- changed. A digest has 32 bytes.
  pub locked_out :
      (requests : List (Now × List Bytes)) (c : ClientState) (s : Store P)
      → s.default_user_nopass ≡ false
      → AreHashes (credentials s)
      → c.authenticated ≡ false
      → c.in_multi ≡ false
      → All (λ r. All (IsWrong s) r.1) requests
      → StaysOut s (send_each requests c s)
  unfolding send_each StaysOut IsWrong
  locked_out [] c s n h a m w = (a, m, refl)
  locked_out ((now, args) ∷ rest) c s n h a m (first, w) =
      let (d, t) = (handle_command now (dispatch_command now) args c s).1 in
      let (a', m', same) = step-StaysOut now args c s n h first a m in
      let back = sym same in
      let (a'', m'', end) =
        locked_out rest d t (subst (λ x. x.default_user_nopass ≡ false) back n)
          (subst (λ x. AreHashes (credentials x)) back h) a' m'
          (subst (λ x. All (λ r. All (IsWrong x) r.1) rest) back w) in
      let u = (send_each rest d t).1 in
      (a'', m'', end ∙ ap (λ (x : Store P). record x { subscribers = u.subscribers }) same)
