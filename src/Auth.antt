-- ===== src/Auth.antt =====
-- auth/auth.cpp: the default user's passwords, ACL and AUTH. `none` is the exception of a failed
-- digest, which no handler catches.
pub mod Passwords
use true_store.Base.{
  ℕ, zero, suc, ◌+◌, ◌-◌, ◌*◌, ◌/◌, ◌%◌, ◌^◌, ◌≤◌, ◌<◌, String, ◌≡◌, refl, sym, ap, ◌∙◌, ◌≢◌, ◌↔◌,
  ◌⊎◌, inl, inr, Bool, true, false, not, ◌&&◌, ◌||◌, Option, none, some, List, [], ◌∷◌, ◌++◌, map,
  append_assoc, append-nil, arith, ltb, leb, ◌==◌, if◌then◌else◌, ltb→lt, lt→ltb, leb→le, le→leb,
  ltb-false, leb-false, ==_iff, tests, Bool-cases, Option-cases, List-cases, if_both, length,
  get_elem?, take, drop, get_or, set, replicate, All, length-append, drop-append, take-append,
  take-append-drop, length-take, length-drop, length-set, length-replicate, ℤ, pos, negsuc,
  pos_part, neg_part, sub_ℕ, ◌+ℤ◌, ◌-ℤ◌, ◌≤ℤ◌, ltb_ℤ, leb_ℤ, is_negative, of_bits, wrap_i64,
  wrap_i64_fits,
}
use true_store.Text.{
  Bytes, codes, ◌=ᵇ◌, less, toupper, tolower, to_upper, to_lower, to_upper_idem, crlf,
}
use true_store.Resp.{
  RespType, simple_string, bulk_string, simple_error, null_bulk_string, integer, array,
  nested_array, null_array, RespTypes, nested, bulk_bytes, bulks_bytes, to_bytes, all_bytes,
  command_bytes,
}
use true_store.Platform.{Platform, Doubles, Rax, Now, StreamEntryData}
use true_store.Store.Types.{
  StreamId, Stream, SortedSet, BlockKind, list_block, stream_block, wait_block, BlockRequest, Store,
  KeyType, type_none, type_string, type_list, type_stream, type_zset, type_name, error_reply,
  arity_error, wrong_type, not_integer, syntax_error,
}
use true_store.Client.{ClientState}

unfoldable pub hex_digit : ℕ → ℕ
hex_digit n = if ltb n 10 then b'0' + n else b'a' + (n - 10)

unfoldable pub to_hex : Bytes → Bytes
to_hex [] = []
to_hex (c ∷ digest) = hex_digit (c / 16) ∷ hex_digit (c % 16) ∷ to_hex digest

unfoldable pub password_hash : (P : Platform) → Bytes → Option Bytes
password_hash P password = elim (P.sha256 password) [
  | none ↦ none
  | some digest ↦ some (to_hex digest)
]

abbrev pub is_hex : ℕ → Bool
is_hex c = (leb b'0' c && leb c b'9') || (leb b'a' c && leb c b'f')

abbrev pub all_hex : Bytes → Bool
all_hex [] = true
all_hex (c ∷ rest) = is_hex c && all_hex rest

abbrev pub member : Bytes → List Bytes → Bool
member hash [] = false
member hash (p ∷ ps) = (p =ᵇ hash) || member hash ps

-- `std::erase(passwords, hash)`.
unfoldable pub erase_all : Bytes → List Bytes → List Bytes
erase_all hash [] = []
erase_all hash (p ∷ ps) = let rest = erase_all hash ps in if p =ᵇ hash then rest else p ∷ rest

-- The local copies that ACL SETUSER changes.
pub record Credentials : Type 0 where
  pub enabled : Bool
  pub nopass : Bool
  pub passwords : List Bytes

-- What one rule does: new credentials, a reply of an error, or an exception.
pub data RuleResult : Type 0 where
  applied : Credentials → RuleResult
  refused : Bytes → RuleResult
  thrown : RuleResult

unfoldable pub bad_hash : Bytes
unfolding error_reply
bad_hash = error_reply "ERR password hash must contain 64 lowercase hex characters"

unfoldable pub unsupported_rule : Bytes
unfolding error_reply
unsupported_rule = error_reply "ERR unsupported ACL rule"

unfoldable pub add_hash : Bytes → Credentials → Credentials
add_hash hash c = record c {
  nopass = false;
  passwords = if member hash c.passwords then c.passwords else c.passwords ++ hash ∷ [];
}

unfoldable pub remove_hash : Bytes → Credentials → Credentials
remove_hash hash c = record c { passwords = erase_all hash c.passwords }

-- A rule with a password or its hash: `adds` for > and #.
unfoldable pub change_password : Bool → Option Bytes → Credentials → RuleResult
change_password adds none c = thrown
change_password adds (some hash) c = applied (if adds then add_hash hash c else remove_hash hash c)

unfoldable pub change_hash : Bool → Bytes → Credentials → RuleResult
change_hash adds hash c =
    if (length hash == 64) && all_hex hash
    then change_password adds (some hash) c
    else refused bad_hash

unfoldable pub prefixed_rule : Platform → Bytes → Credentials → RuleResult
prefixed_rule P [] c = refused unsupported_rule
prefixed_rule P (sign ∷ text) c =
    if sign == b'>'
    then change_password true (password_hash P text) c
    else if sign == b'<'
    then change_password false (password_hash P text) c
    else if sign == b'#'
    then change_hash true text c
    else if sign == b'!'
    then change_hash false text c
    else refused unsupported_rule

unfoldable pub apply_rule : Platform → Bytes → Credentials → RuleResult
apply_rule P rule c =
    if rule =ᵇ codes "on"
    then applied (record c { enabled = true })
    else if rule =ᵇ codes "off"
    then applied (record c { enabled = false })
    else if rule =ᵇ codes "nopass"
    then applied (record c { nopass = true; passwords = [] })
    else if rule =ᵇ codes "resetpass"
    then applied (record c { nopass = false; passwords = [] })
    else prefixed_rule P rule c

-- The loop of ACL SETUSER, up to the first rule that fails.
unfoldable pub apply_rules : Platform → List Bytes → Credentials → RuleResult
apply_rules P [] c = applied c
apply_rules P (rule ∷ rest) c = elim (apply_rule P rule c) [
  | applied d ↦ apply_rules P rest d
  | refused reply ↦ refused reply
  | thrown ↦ thrown
]

unfoldable pub acl_whoami : List Bytes → Bytes
acl_whoami [] = to_bytes (bulk_string (codes "default"))
acl_whoami (_ ∷ _) = arity_error "acl|whoami"

-- `CRYPTO_memcmp` of a hash with as many bytes of each password.
unfoldable pub matches : Bytes → List Bytes → Bool
matches hash [] = false
matches hash (p ∷ ps) = (take (length hash) p =ᵇ hash) || matches hash ps

module _ {P : Platform} where
  abbrev pub credentials : Store P → Credentials
  credentials s = record {
    enabled = s.default_user_enabled;
    nopass = s.default_user_nopass;
    passwords = s.default_user_passwords;
  }

  unfoldable pub set_user : List Bytes → Store P → Option (Bytes × Store P)
  set_user rules s = elim (apply_rules P rules (credentials s)) [
    | applied c ↦ some (
      to_bytes (simple_string (codes "OK")),
      record s {
        default_user_enabled = c.enabled;
        default_user_nopass = c.nopass;
        default_user_passwords = c.passwords;
      },
    )
    | refused reply ↦ some (reply, s)
    | thrown ↦ none
  ]

  unfoldable pub get_user : Store P → Bytes
  get_user s =
      let state = (if s.default_user_enabled then codes "on" else codes "off") in
      let flags = state ∷ (if s.default_user_nopass then codes "nopass" ∷ [] else []) in
      to_bytes (
        nested_array (
          nested (
            bulk_string (codes "flags")
            ∷ array flags
            ∷ bulk_string (codes "passwords")
            ∷ array s.default_user_passwords
            ∷ bulk_string (codes "commands")
            ∷ bulk_string (codes "+@all")
            ∷ bulk_string (codes "keys")
            ∷ bulk_string (codes "~*")
            ∷ bulk_string (codes "channels")
            ∷ bulk_string (codes "&*")
            ∷ bulk_string (codes "selectors")
            ∷ array []
            ∷ [])))

  -- ACL GETUSER and ACL SETUSER with the arguments behind the subcommand.
  unfoldable pub acl_getuser : List Bytes → Store P → Bytes
  acl_getuser (user ∷ []) s =
      if user =ᵇ codes "default" then get_user s else to_bytes null_bulk_string
  acl_getuser _ s = arity_error "acl|getuser"

  unfoldable pub acl_setuser : List Bytes → Store P → Option (Bytes × Store P)
  acl_setuser [] s = some (arity_error "acl|setuser", s)
  acl_setuser (user ∷ rules) s =
      if user =ᵇ codes "default"
      then set_user rules s
      else some (error_reply "ERR only the default user is supported", s)

  unfoldable pub handle_acl : List Bytes → Store P → Option (Bytes × Store P)
  handle_acl (_ ∷ subcommand ∷ rest) s =
      if to_upper subcommand =ᵇ codes "WHOAMI"
      then some (acl_whoami rest, s)
      else if to_upper subcommand =ᵇ codes "GETUSER"
      then some (acl_getuser rest s, s)
      else if to_upper subcommand =ᵇ codes "SETUSER"
      then acl_setuser rest s
      else some (error_reply "ERR unknown ACL subcommand", s)
  handle_acl _ s = some (arity_error "acl", s)

  -- AUTH once the arguments are counted; `named` tells whether the user is `default`.
  unfoldable pub check_password :
      Bool → Bytes → ClientState → Store P → Option (Bytes × ClientState)
  check_password named password c s = elim (password_hash P password) [
    | none ↦ none
    | some hash ↦ some (
        if s.default_user_enabled
          && (named && (s.default_user_nopass || matches hash s.default_user_passwords))
        then (to_bytes (simple_string (codes "OK")), record c { authenticated = true })
        else (error_reply "WRONGPASS invalid username-password pair or user is disabled.", c))
  ]

  unfoldable pub handle_auth : List Bytes → ClientState → Store P → Option (Bytes × ClientState)
  handle_auth (_ ∷ password ∷ []) c s =
      if s.default_user_nopass
      then some (
        error_reply
            "ERR AUTH <password> called without any password configured for the default user. Are you sure your configuration is correct?",
        c,
      )
      else check_password true password c s
  handle_auth (_ ∷ user ∷ password ∷ []) c s = check_password (user =ᵇ codes "default") password c s
  handle_auth _ c s = some (arity_error "auth", c)
