-- ===== src/Resp/Parse.antt =====
-- The parser of resp/resp.cpp. Offsets are `std::size_t`, so their sums wrap around modulo 2^64.
use true_store.Base.{
  ℕ, zero, suc, ◌+◌, ◌-◌, ◌/◌, ◌%◌, ◌^◌, ◌≡◌, refl, Bool, false, ◌&&◌, Option, none, some, List, [],
  ◌∷◌, ◌++◌, ltb, ◌==◌, if◌then◌else◌, length, take, drop,
}
use true_store.Resp.{RespType, simple_string}
use true_store.Text.{Bytes, codes}
use true_store.Text.Parse.{stoull}

-- What a parser returns or throws: no value yet (`std::nullopt`), a value, `RespError`, or the
-- `std::length_error` of `std::vector::reserve`.
pub data Parsed {ℓ} (A : Type ℓ) : Type ℓ where
  more : Parsed A
  done : A → Parsed A
  resp_error : Parsed A
  length_error : Parsed A

infixl 5 ◌>>=◌
abbrev pub ◌>>=◌ {ℓ κ} : {A : Type ℓ} {B : Type κ} → Parsed A → (A → Parsed B) → Parsed B
more >>= f = more
done a >>= f = f a
resp_error >>= f = resp_error
length_error >>= f = length_error

-- `std::vector<std::string>().max_size()`: 2^63 - 1 bytes of 32-byte strings.
abbrev pub max_elements : ℕ
max_elements = (2 ^ 63 - 1) / 32

abbrev is_crlf : ℕ → Bytes → Bool
is_crlf c [] = false
is_crlf c (d ∷ s) = c == 13 && d == 10

abbrev pub further : ℕ → Option (Bytes × ℕ) → Option (Bytes × ℕ)
further c none = none
further c (some (line, n)) = some (c ∷ line, n + 1)

-- The text before the first CRLF, and the position behind it.
unfoldable pub read_till_crlf : Bytes → Option (Bytes × ℕ)
read_till_crlf [] = none
read_till_crlf (c ∷ s) = if is_crlf c s then some ([], 2) else further c (read_till_crlf s)

abbrev pub or_more {ℓ} : {A : Type ℓ} → Option A → Parsed A
or_more none = more
or_more (some a) = done a

unfoldable pub parse_usize_from_buf : Bytes → Parsed ℕ
parse_usize_from_buf buffer = elim (stoull buffer) [ none ↦ resp_error | some n ↦ done n ]

-- An empty buffer, and one without a CRLF, is refused; the first byte is not looked at.
unfoldable pub parse_simple_string : Bytes → Parsed (RespType × ℕ)
unfolding read_till_crlf
parse_simple_string [] = resp_error
parse_simple_string (_ ∷ rest) = elim (read_till_crlf rest) [
  | none ↦ resp_error
  | some (text, len) ↦ done (simple_string text, len + 1)
]

-- The part of `parse_bulk_string` behind the length line.
unfoldable pub bulk_body : Bytes → ℕ → ℕ → Parsed (Bytes × ℕ)
bulk_body buffer bytes_consumed bulkstr_len =
    let end = (bytes_consumed + bulkstr_len) % 2 ^ 64 in
    if ltb (length buffer) ((end + 2) % 2 ^ 64)
    then more
    else done (take bulkstr_len (drop bytes_consumed buffer), (end + 2) % 2 ^ 64)

unfoldable pub parse_bulk_string : Bytes → Parsed (Bytes × ℕ)
unfolding parse_usize_from_buf bulk_body read_till_crlf
parse_bulk_string [] = more
parse_bulk_string (c ∷ rest) =
    if c == b'$'
    then (do
      (buf_data, len) ← or_more (read_till_crlf rest)
      bulkstr_len ← parse_usize_from_buf buf_data
      bulk_body (c ∷ rest) (len + 1) bulkstr_len)
    else resp_error

-- The loop of `parse_command`: elements still to read, offset, elements so far.
unfoldable pub parse_elements : ℕ → Bytes → ℕ → List Bytes → Parsed (List Bytes × ℕ)
unfolding parse_bulk_string
parse_elements zero buffer offset elements = done (elements, offset)
parse_elements (suc i) buffer offset elements = elim (parse_bulk_string (drop offset buffer)) [
  | more ↦ more
  | done (value, consumed) ↦
      parse_elements i buffer ((offset + consumed) % 2 ^ 64) (elements ++ value ∷ [])
  | resp_error ↦ resp_error
  | length_error ↦ length_error
]

-- The part of `parse_command` behind the count line.
unfoldable pub command_body : Bytes → ℕ → ℕ → Parsed (List Bytes × ℕ)
unfolding parse_elements
command_body buffer offset count =
    if ltb max_elements count then length_error else parse_elements count buffer offset []

unfoldable pub parse_command : Bytes → Parsed (List Bytes × ℕ)
unfolding parse_usize_from_buf command_body read_till_crlf
parse_command [] = more
parse_command (c ∷ rest) =
    if c == b'*'
    then (do
      (count_str, header_len) ← or_more (read_till_crlf rest)
      count ← parse_usize_from_buf count_str
      command_body (c ∷ rest) (header_len + 1) count)
    else resp_error

two_words :
    parse_command (codes "*2\r\n$3\r\nGET\r\n$1\r\nk\r\n*1")
    ≡ done (codes "GET" ∷ codes "k" ∷ [], 20)
unfolding parse_command stoull
two_words = refl

bad_header : parse_command (codes "PING\r\n") ≡ resp_error
unfolding parse_command
bad_header = refl
