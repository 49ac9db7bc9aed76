-- ===== src/Examples.antt =====
-- Each theorem at a concrete input.
pub mod Data
pub mod Logs
pub mod Loops
pub mod Structures
pub mod Sessions
pub mod Places
use true_store.Base.{
  ◌+◌, ◌-◌, ◌≢◌, true, false, ℕ, zero, suc, ◌+◌, ◌-◌, ◌*◌, ◌/◌, ◌%◌, ◌^◌, ◌≤◌, ◌<◌, String, ◌≡◌,
  refl, sym, ap, ◌∙◌, ◌≢◌, ◌↔◌, ◌⊎◌, inl, inr, Bool, true, false, not, ◌&&◌, ◌||◌, Option, none,
  some, List, [], ◌∷◌, ◌++◌, map, append_assoc, append-nil, arith, ltb, leb, ◌==◌, if◌then◌else◌,
  ltb→lt, lt→ltb, leb→le, le→leb, ltb-false, leb-false, ==_iff, tests, Bool-cases, Option-cases,
  List-cases, if_both, length, get_elem?, take, drop, get_or, set, replicate, All, length-append,
  drop-append, take-append, take-append-drop, length-take, length-drop, length-set,
  length-replicate, ℤ, pos, negsuc, pos_part, neg_part, sub_ℕ, ◌+ℤ◌, ◌-ℤ◌, ◌≤ℤ◌, ltb_ℤ, leb_ℤ,
  is_negative, of_bits, wrap_i64, wrap_i64_fits,
}
use true_store.Text.Decimal.{to_string, to_string_ℤ}
use true_store.Text.Equality.{eq_iff}
use true_store.Text.{
  crlf, ◌=ᵇ◌, Bytes, codes, ◌=ᵇ◌, less, toupper, tolower, to_upper, to_lower, to_upper_idem, crlf,
}
use true_store.Dict.{find}
use true_store.Platform.{Platform, Doubles, Rax, Now, StreamEntryData}
use true_store.Resp.{
  RespType, simple_string, bulk_string, simple_error, null_bulk_string, integer, array,
  nested_array, null_array, RespTypes, nested, bulk_bytes, bulks_bytes, to_bytes, all_bytes,
  command_bytes,
}
use true_store.Store.Types.{
  StreamId, Stream, SortedSet, BlockKind, list_block, stream_block, wait_block, BlockRequest, Store,
  KeyType, type_none, type_string, type_list, type_stream, type_zset, type_name, error_reply,
  arity_error, wrong_type, not_integer, syntax_error,
}
use true_store.TestPlatform.{
  test_platform, empty_store, naturals, naturals_laws, entry_list, entry_list_laws,
}
use true_store.Resp.Parse.{length_error, parse_bulk_string, parse_command, done, more, max_elements}
use true_store.Resp.RoundTrip.{parse-command_bytes}
use true_store.Resp.Negative.{negative_count, negative_length}
use true_store.Resp.Prefix.{parse-prefix}
use true_store.Store.{is_expired, handle_type}
use true_store.Strings.{handle_set, handle_get, handle_strlen, handle_incr, ns_per_s, unit_of}
use true_store.Strings.Expire.{expiry_exact, set_elsewhere}
use true_store.Strings.Incr.{incr_adds_one}

abbrev key_a : Bytes
key_a = codes "a"

abbrev key_b : Bytes
key_b = codes "b"

abbrev now : Now
now = record { steady = pos 1000; system_ms = 5 }

abbrev later : Now
later = record { steady = pos 6000; system_ms = 5 }

-- A string that ends at 2000 and one that stays.
abbrev strings : Store test_platform
strings = record empty_store {
  storage = (key_a, codes "41") ∷ (key_b, codes "2147483647") ∷ [];
  expirations = (key_a, pos 2000) ∷ [];
}

abbrev get_a : List Bytes
get_a = codes "GET" ∷ key_a ∷ []

abbrev get_a_bytes : Bytes
get_a_bytes = codes "*2\r\n$3\r\nGET\r\n$1\r\na\r\n"

parse-command_bytes_example :
    parse_command (command_bytes get_a ++ codes "*1") ≡ done (get_a, length (command_bytes get_a))
unfolding command_bytes bulks_bytes bulk_bytes to_string
parse-command_bytes_example =
    parse-command_bytes get_a (codes "*1") (leb→le _ _ refl) (ltb→lt _ _ refl)

parse-prefix_example : parse_command (take 9 (command_bytes get_a)) ≡ more
unfolding command_bytes bulks_bytes bulk_bytes to_string
parse-prefix_example = parse-prefix get_a 9 (leb→le _ _ refl) (ltb→lt _ _ refl) (ltb→lt _ _ refl)

abbrev set_a : List Bytes
set_a = codes "SET" ∷ key_a ∷ key_b ∷ []

abbrev seconds : List Bytes
seconds = codes "EX" ∷ to_string 5 ∷ []

expiry_exact_example :
    (handle_get
      (record { steady = pos 5000001000; system_ms = 5 })
      get_a
      (handle_set now (codes "SET" ∷ key_a ∷ key_b ∷ seconds) strings).1).0
    ≡ to_bytes null_bulk_string
unfolding unit_of ◌=ᵇ◌
expiry_exact_example =
    expiry_exact (codes "SET") (codes "GET") key_a key_b (codes "EX") 1000 5000001000 5 ns_per_s 5
      strings refl (ltb→lt _ _ refl) (ltb→lt _ _ refl) (ltb→lt _ _ refl)

apart : key_a ≢ key_b
unfolding ◌=ᵇ◌
apart p = false_true ((eq_iff key_a key_b).1 p)
  where
    false_true : false ≡ true → ⊥
    false_true e = cc

negative_count_example :
    parse_command (b'*' ∷ b'-' ∷ (to_string 1 ++ (crlf ++ codes "$4"))) ≡ length_error
negative_count_example = negative_count 1 (codes "$4") (ltb→lt _ _ refl) (leb→le _ _ refl)

negative_length_example :
    parse_bulk_string (b'$' ∷ b'-' ∷ (to_string 1 ++ (crlf ++ codes "PING")))
    ≡ done (codes "PING", length (to_string 1) + 4 - 1 + 2)
unfolding to_string
negative_length_example =
    negative_length 1 (codes "PING") (ltb→lt _ _ refl) (leb→le _ _ refl) (λ p. cc) (ltb→lt _ _ refl)
