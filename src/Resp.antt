-- ===== src/Resp.antt =====
-- resp/resp.hpp and the printer of resp/resp.cpp: RESP values and their bytes. The parser and its
-- laws are in the modules below.
pub mod Parse
pub mod Line
pub mod RoundTrip
pub mod Consumed
pub mod Prefix
pub mod Negative
use true_store.Base.{
  ℕ, zero, suc, ◌+◌, ◌-◌, ◌*◌, ◌/◌, ◌%◌, ◌^◌, ◌≤◌, ◌<◌, ◌≡◌, refl, sym, ap, ◌∙◌, ◌≢◌, ◌↔◌, ◌⊎◌, inl,
  inr, Bool, true, false, not, ◌&&◌, ◌||◌, Option, none, some, List, [], ◌∷◌, ◌++◌, append_assoc,
  append-nil, arith, ltb, leb, ◌==◌, if◌then◌else◌, ltb→lt, lt→ltb, leb→le, le→leb, ltb-false,
  leb-false, ==_iff, tests, Bool-cases, Option-cases, if_both, length, get_elem?, take, drop,
  get_or, set, replicate, All, length-append, drop-append, take-append, take-append-drop,
  length-take, length-drop, length-set, length-replicate, ℤ, pos, negsuc, pos_part, neg_part, sub_ℕ,
  ◌+ℤ◌, ◌-ℤ◌, ◌≤ℤ◌, ltb_ℤ, leb_ℤ, is_negative, of_bits, wrap_i64, wrap_i64_fits,
}
use true_store.Text.{
  Bytes, codes, ◌=ᵇ◌, less, toupper, tolower, to_upper, to_lower, to_upper_idem, crlf,
}
use true_store.Text.Decimal.{to_string, to_string_ℤ}

mutual
  pub data RespType : Type 0 where
    simple_string : Bytes → RespType
    bulk_string : Bytes → RespType
    simple_error : Bytes → RespType
    null_bulk_string : RespType
    integer : ℤ → RespType
    array : List Bytes → RespType
    nested_array : RespTypes → RespType
    null_array : RespType

  -- The vector of a nested array.
  pub data RespTypes : Type 0 where
    nil : RespTypes
    cons : RespType → RespTypes → RespTypes

abbrev pub nested : List RespType → RespTypes
nested [] = nil
nested (r ∷ rs) = cons r (nested rs)

abbrev pub size : RespTypes → ℕ
size nil = 0
size (cons r rs) = suc (size rs)

unfoldable pub bulk_bytes : Bytes → Bytes
bulk_bytes value = b'$' ∷ (to_string (length value) ++ (crlf ++ (value ++ crlf)))

unfoldable pub bulks_bytes : List Bytes → Bytes
bulks_bytes [] = []
bulks_bytes (value ∷ rest) = bulk_bytes value ++ bulks_bytes rest

unfoldable mutual
  pub to_bytes : RespType → Bytes
  to_bytes (simple_string value) = b'+' ∷ (value ++ crlf)
  to_bytes (bulk_string value) = bulk_bytes value
  to_bytes (simple_error value) = b'-' ∷ (value ++ crlf)
  to_bytes null_bulk_string = codes "$-1" ++ crlf
  to_bytes null_array = codes "*-1" ++ crlf
  to_bytes (integer value) = b':' ∷ (to_string_ℤ value ++ crlf)
  to_bytes (array elements) = b'*' ∷ (to_string (length elements) ++ (crlf ++ bulks_bytes elements))
  to_bytes (nested_array rs) = b'*' ∷ (to_string (size rs) ++ (crlf ++ all_bytes rs))

  pub all_bytes : RespTypes → Bytes
  all_bytes nil = []
  all_bytes (cons r rs) = to_bytes r ++ all_bytes rs

-- The bytes of `RespType::Array(args).to_bytes()`, as commands are sent, logged and replicated.
unfoldable pub command_bytes : List Bytes → Bytes
unfolding to_bytes
command_bytes args = to_bytes (array args)

ping_bytes : command_bytes (codes "PING" ∷ []) ≡ codes "*1\r\n$4\r\nPING\r\n"
unfolding command_bytes bulks_bytes bulk_bytes to_string
ping_bytes = refl
