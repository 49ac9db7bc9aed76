-- ===== src/Auth/Passwords.antt =====
-- Passwords are kept as hashes of one length, and AUTH accepts exactly those.
use true_store.Base.{
  ◌+◌, ◌≡◌, refl, sym, ap, ◌∙◌, inl, inr, Bool, true, false, ◌&&◌, Option, none, some, List, [],
  ◌∷◌, ◌++◌, arith, ◌==◌, if◌then◌else◌, Bool-cases, Option-cases, length, take, All,
}
use true_store.Text.{Bytes, codes, ◌=ᵇ◌}
use true_store.Resp.{simple_string, to_bytes}
use true_store.Platform.{Platform}
use true_store.Store.Types.{Store, error_reply}
use true_store.Client.{ClientState}
use true_store.Resp.{simple_string, to_bytes}
use true_store.Store.Types.{Store, error_reply}
use true_store.Client.{ClientState}
use true_store.Auth.{
  apply_rules, credentials, set_user, acl_setuser, handle_acl, check_password, handle_auth, to_hex,
  password_hash, member, erase_all, Credentials, RuleResult, applied, refused, thrown, add_hash,
  remove_hash, change_password, change_hash, prefixed_rule, apply_rule, apply_rules, credentials,
  set_user, acl_setuser, handle_acl, matches, check_password, handle_auth, all_hex,
}

-- What is relied on of SHA-256: a digest has 32 bytes.
abbrev pub DigestLaw : Platform → Type 0
DigestLaw P = (text digest : Bytes) → P.sha256 text ≡ some digest → length digest ≡ 32

-- All passwords are hashes of 64 digits, and there are none if no password is asked for.
abbrev pub AreHashes : Credentials → Type 0
AreHashes c = All (λ p. length p ≡ 64) c.passwords × (c.nopass ≡ true → c.passwords ≡ [])

length-to_hex : (digest : Bytes) → length (to_hex digest) ≡ length digest + length digest
unfolding to_hex
length-to_hex [] = refl
length-to_hex (c ∷ digest) = omega (arith, length-to_hex digest)

module _ (P : Platform) (law : DigestLaw P) where
  pub length-password_hash :
      (text hash : Bytes) → password_hash P text ≡ some hash → length hash ≡ 64
  unfolding password_hash
  length-password_hash text hash e = elim (Option-cases (P.sha256 text)) [
    | inl n ↦ absurd (none_some hash (rw (n, password_hash) at e))
    | inr (digest, d) ↦
        ap length (sym (some_eq _ _ (rw (d, password_hash) at e)))
        ∙ omega (arith, length-to_hex digest, law text digest d)
  ]
    where
      none_some : (h : Bytes) → ◌≡◌ {A = Option Bytes} none (some h) → ⊥
      none_some h p = cc

      some_eq : (a b : Bytes) → some a ≡ some b → a ≡ b
      some_eq a b p = cc

All-erase_all :
    (hash : Bytes) (ps : List Bytes)
    → All (λ p. length p ≡ 64) ps
    → All (λ p. length p ≡ 64) (erase_all hash ps)
unfolding erase_all
All-erase_all hash [] h = tt
All-erase_all hash (p ∷ ps) (x, h) = ground (arith, All-erase_all hash ps h)

All-append_one :
    (hash : Bytes) (ps : List Bytes)
    → length hash ≡ 64
    → All (λ p. length p ≡ 64) ps
    → All (λ p. length p ≡ 64) (ps ++ hash ∷ [])
All-append_one hash [] x h = (x, tt)
All-append_one hash (p ∷ ps) x (y, h) = (y, All-append_one hash ps x h)

add_hash-AreHashes :
    (hash : Bytes) (c : Credentials) → length hash ≡ 64 → AreHashes c → AreHashes (add_hash hash c)
unfolding add_hash
add_hash-AreHashes hash c x (h, n) =
    (ground (arith, h, All-append_one hash c.passwords x h), λ e. cc)

remove_hash-AreHashes :
    (hash : Bytes) (c : Credentials) → AreHashes c → AreHashes (remove_hash hash c)
unfolding remove_hash erase_all
remove_hash-AreHashes hash c (h, n) = (All-erase_all hash c.passwords h, λ e. rw (n e) refl)

-- The hash of a password that is compared is found exactly if it is kept.
pub matches-member :
    (hash : Bytes) (ps : List Bytes)
    → length hash ≡ 64
    → All (λ p. length p ≡ 64) ps
    → matches hash ps ≡ member hash ps
unfolding matches
matches-member hash [] x h = refl
matches-member hash (p ∷ ps) x (y, h) = rw (x, matches-member hash ps x h, sym y, take_all p) refl
  where
    take_all : (l : Bytes) → take (length l) l ≡ l
    take_all [] = refl
    take_all (c ∷ l) = ap (λ (t : Bytes). c ∷ t) (take_all l)

-- What a rule leaves, if it is applied, are hashes.
abbrev Kept : RuleResult → Type 0
Kept (applied c) = AreHashes c
Kept (refused reply) = Unit
Kept thrown = Unit

-- The credentials of the store behind a command, if it does not end in an exception, are hashes.
abbrev pub Held : {P : Platform} → Option (Bytes × Store P) → Type 0
Held none = Unit
Held (some (reply, s)) = AreHashes (credentials s)

change_password-Kept :
    (adds : Bool) (hash : Option Bytes) (c : Credentials)
    → ((h : Bytes) → hash ≡ some h → length h ≡ 64)
    → AreHashes c
    → Kept (change_password adds hash c)
unfolding change_password
change_password-Kept adds none c x h = tt
change_password-Kept true (some hash) c x h = add_hash-AreHashes hash c (x hash refl) h
change_password-Kept false (some hash) c x h = remove_hash-AreHashes hash c h

change_hash-Kept :
    (adds : Bool) (hash : Bytes) (c : Credentials) → AreHashes c → Kept (change_hash adds hash c)
unfolding change_hash
change_hash-Kept adds hash c h = elim (Bool-cases ((length hash == 64) && all_hex hash)) [
  | inl e ↦ rw e (change_password-Kept adds (some hash) c (λ k p. fits k p e) h)
  | inr e ↦ rw e tt
]
  where
    fits :
        (k : Bytes)
        → some hash ≡ some k
        → ((length hash == 64) && all_hex hash) ≡ true
        → length k ≡ 64
    fits k p e = ground arith

module _ (P : Platform) (law : DigestLaw P) where
  apply_rule-Kept : (rule : Bytes) (c : Credentials) → AreHashes c → Kept (apply_rule P rule c)
  unfolding apply_rule prefixed_rule ◌=ᵇ◌
  apply_rule-Kept [] c h = tt
  apply_rule-Kept (sign ∷ text) c h = ground (
    arith,
    h,
    change_password-Kept true (password_hash P text) c (length-password_hash P law text) h,
    change_password-Kept false (password_hash P text) c (length-password_hash P law text) h,
    change_hash-Kept true text c h,
    change_hash-Kept false text c h,
  )

  apply_rules-Kept :
      (rules : List Bytes) (c : Credentials) → AreHashes c → Kept (apply_rules P rules c)
  unfolding apply_rules
  apply_rules-Kept [] c h = h
  apply_rules-Kept (rule ∷ rest) c h =
      after (λ d k. apply_rules-Kept rest d k) (apply_rule P rule c) (apply_rule-Kept rule c h)
    where
      after :
          ((d : Credentials) → AreHashes d → Kept (apply_rules P rest d))
          → (r : RuleResult) → Kept r
          → Kept (elim r [
            | applied d ↦ apply_rules P rest d
            | refused reply ↦ refused reply
            | thrown ↦ thrown
          ])
      after later (applied d) k = later d k
      after later (refused reply) k = tt
      after later thrown k = tt

  set_user-Held :
      (rules : List Bytes) (s : Store P) → AreHashes (credentials s) → Held (set_user rules s)
  unfolding set_user
  set_user-Held rules s h =
      after (apply_rules P rules (credentials s)) (apply_rules-Kept rules (credentials s) h)
    where
      after :
          (r : RuleResult)
          → Kept r
          → Held {P = P} (elim r [
            | applied c ↦ some (
              to_bytes (simple_string (codes "OK")),
              record s {
                default_user_enabled = c.enabled;
                default_user_nopass = c.nopass;
                default_user_passwords = c.passwords;
              },
            )
            | refused reply ↦ some (reply, s)
            | thrown ↦ none
          ])
      after (applied d) k = k
      after (refused reply) k = h
      after thrown k = tt

  -- ACL, with any arguments, keeps what AUTH relies on when it compares: every password of the
  -- default user is a hash of 64 digits, and there is none while no password is asked for. Digests
  -- have 32 bytes.
  pub acl-Held :
      (args : List Bytes) (s : Store P) → AreHashes (credentials s) → Held (handle_acl args s)
  unfolding handle_acl acl_setuser
  acl-Held [] s h = h
  acl-Held (w ∷ []) s h = h
  acl-Held (w ∷ subcommand ∷ []) s h = ground (arith, h)
  acl-Held (w ∷ subcommand ∷ user ∷ rules) s h = ground (arith, h, set_user-Held rules s h)

  -- When the passwords are hashes of 64 digits and one is asked for, AUTH with a password whose
  -- digest can be made succeeds exactly if the user is enabled and the whole hash is among those
  -- kept; otherwise the client stays as it is.
  pub auth_accepts :
      (word password hash : Bytes) (c : ClientState) (s : Store P)
      → AreHashes (credentials s)
      → s.default_user_nopass ≡ false
      → password_hash P password ≡ some hash
      → handle_auth (word ∷ password ∷ []) c s
        ≡ some (
            if s.default_user_enabled && member hash s.default_user_passwords
            then (to_bytes (simple_string (codes "OK")), record c { authenticated = true })
            else (error_reply "WRONGPASS invalid username-password pair or user is disabled.", c))
  unfolding handle_auth check_password
  auth_accepts word password hash c s h n e = ground (
    arith,
    n,
    e,
    matches-member hash s.default_user_passwords (length-password_hash P law password hash e) h.0,
  )
