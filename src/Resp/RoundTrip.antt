-- ===== src/Resp/RoundTrip.antt =====
-- What the printer writes the parser reads back, whatever bytes the arguments hold.
use true_store.Base.{
  ℕ, suc, ◌+◌, ◌^◌, ◌≤◌, ◌<◌, ◌≡◌, sym, ap, ◌∙◌, some, List, [], ◌∷◌, ◌++◌, append_assoc,
  append-nil, arith, ltb-false, length, take, drop, length-append, drop-append, take-append,
}
use true_store.Text.{Bytes, crlf}
use true_store.Text.Decimal.{to_string, to_string-All}
use true_store.Text.Parse.{stoull-to_string}
use true_store.Resp.{bulk_bytes, bulks_bytes, command_bytes}
use true_store.Resp.Line.{digits-NoCr, read_line, drop_beyond}
use true_store.Resp.Parse.{
  done, max_elements, read_till_crlf, parse_usize_from_buf, bulk_body, parse_bulk_string,
  parse_elements, command_body, parse_command,
}

pub usize-to_string : (n : ℕ) → n < 2 ^ 64 → parse_usize_from_buf (to_string n) ≡ done n
unfolding parse_usize_from_buf
usize-to_string n h = rw (stoull-to_string n h, parse_usize_from_buf)

-- A printed length line is read back.
pub read_header :
    (n : ℕ) (rest : Bytes)
    → read_till_crlf (to_string n ++ (crlf ++ rest)) ≡ some (to_string n, length (to_string n) + 2)
read_header n rest = read_line (to_string n) rest (digits-NoCr _ (to_string-All n))

-- The number of bytes in front of a bulk string's contents.
abbrev pub header_length : ℕ → ℕ
header_length n = length (to_string n) + 3

pub length-bulk_bytes :
    (v : Bytes) → length (bulk_bytes v) ≡ header_length (length v) + length v + 2
unfolding bulk_bytes
length-bulk_bytes v = omega (
  arith,
  length-append {0} (to_string (length v)) (crlf ++ (v ++ crlf)),
  length-append {0} v crlf,
)

-- The bytes behind the header.
pub drop-header :
    (n : ℕ) (rest : Bytes) (c : ℕ)
    → drop (header_length n) (c ∷ (to_string n ++ (crlf ++ rest))) ≡ rest
drop-header n rest c =
    drop_beyond (header_length n) 2 (c ∷ to_string n) (crlf ++ rest) (omega arith)

pub bulk_bytes-append :
    (v rest : Bytes)
    → bulk_bytes v ++ rest ≡ b'$' ∷ (to_string (length v) ++ (crlf ++ (v ++ (crlf ++ rest))))
unfolding bulk_bytes
bulk_bytes-append v rest = ap (◌∷◌ b'$') (
    append_assoc (to_string (length v)) (crlf ++ (v ++ crlf)) rest
    ∙ ap (λ (s : Bytes). to_string (length v) ++ (crlf ++ s)) (append_assoc v crlf rest))

-- With its header complete, a bulk string waits only for its contents.
pub parse_header :
    (n : ℕ) (rest : Bytes)
    → n < 2 ^ 64
    → parse_bulk_string (b'$' ∷ (to_string n ++ (crlf ++ rest)))
      ≡ bulk_body (b'$' ∷ (to_string n ++ (crlf ++ rest))) (header_length n) n
unfolding parse_bulk_string
parse_header n rest h =
    rw (read_header n rest, usize-to_string n h)
      (ap (λ (k : ℕ). bulk_body (b'$' ∷ (to_string n ++ (crlf ++ rest))) k n) (omega arith))

body_complete :
    (buffer v : Bytes) (at n : ℕ)
    → take n (drop at buffer) ≡ v
    → at + n + 2 ≤ length buffer
    → length buffer < 2 ^ 64
    → bulk_body buffer at n ≡ done (v, at + n + 2)
unfolding bulk_body
body_complete buffer v at n e fits small = ground arith

pub parse-bulk_bytes :
    (v rest : Bytes)
    → length (bulk_bytes v ++ rest) < 2 ^ 64
    → parse_bulk_string (bulk_bytes v ++ rest) ≡ done (v, length (bulk_bytes v))
parse-bulk_bytes v rest h =
    rw
      (
        bulk_bytes-append v rest,
        parse_header (length v) (v ++ (crlf ++ rest)) (omega (arith, total)),
        body_complete buffer v (header_length (length v)) (length v)
            (rw (drop-header (length v) (v ++ (crlf ++ rest)) b'$') (take-append v _))
            (omega (arith, total, ap length (bulk_bytes-append v rest)))
            (rw (bulk_bytes-append v rest) at h),
      )
      (rw length-bulk_bytes)
  where
    buffer : Bytes
    buffer = b'$' ∷ (to_string (length v) ++ (crlf ++ (v ++ (crlf ++ rest))))

    total : length (bulk_bytes v ++ rest) ≡ header_length (length v) + length v + 2 + length rest
    total = omega (arith, length-append {0} (bulk_bytes v) rest, length-bulk_bytes v)

-- One round of the loop, where the offset does not wrap around.
pub parse_elements_step :
    (i : ℕ) (buffer : Bytes) (offset : ℕ) (elements : List Bytes) (v : Bytes) (consumed next : ℕ)
    → parse_bulk_string (drop offset buffer) ≡ done (v, consumed)
    → next ≡ offset + consumed
    → next < 2 ^ 64
    → parse_elements (suc i) buffer offset elements
      ≡ parse_elements i buffer next (elements ++ v ∷ [])
unfolding parse_elements
parse_elements_step i buffer offset elements v consumed next e sum small =
    rw (e, parse_elements)
      (ap (λ (k : ℕ). parse_elements i buffer k (elements ++ v ∷ [])) (omega arith))

-- The contents of a buffer from the end of its first part on, that part read up to `v`.
pub bulks_bytes_split :
    (before : Bytes) (v : Bytes) (args : List Bytes) (rest : Bytes)
    → before ++ (bulks_bytes (v ∷ args) ++ rest)
      ≡ (before ++ bulk_bytes v) ++ (bulks_bytes args ++ rest)
unfolding bulks_bytes
bulks_bytes_split before v args rest = simp append_assoc

pub parse_elements-bulks :
    (args : List Bytes) (buffer before rest : Bytes) (elements : List Bytes)
    → buffer ≡ before ++ (bulks_bytes args ++ rest)
    → length buffer < 2 ^ 64
    → parse_elements (length args) buffer (length before) elements
      ≡ done (elements ++ args, length before + length (bulks_bytes args))
unfolding parse_elements bulks_bytes
parse_elements-bulks [] buffer before rest elements e h = rw append-nil (ground arith)
parse_elements-bulks (v ∷ args) buffer before rest elements e h =
    parse_elements_step (length args) buffer (length before) elements v (length (bulk_bytes v))
      (length (before ++ bulk_bytes v)) here (length-append before (bulk_bytes v))
      (omega (arith, sizes))
    ∙ parse_elements-bulks args buffer (before ++ bulk_bytes v) rest (elements ++ v ∷ []) split h
    ∙ ground (
      arith,
      append_assoc elements (v ∷ []) args,
      length-append before (bulk_bytes v),
      length-append (bulk_bytes v) (bulks_bytes args),
    )
  where
    split : buffer ≡ (before ++ bulk_bytes v) ++ (bulks_bytes args ++ rest)
    split = e ∙ bulks_bytes_split before v args rest

    sizes : length buffer ≡ length (before ++ bulk_bytes v) + length (bulks_bytes args ++ rest)
    sizes = ap length split ∙ length-append (before ++ bulk_bytes v) (bulks_bytes args ++ rest)

    here : parse_bulk_string (drop (length before) buffer) ≡ done (v, length (bulk_bytes v))
    here =
        rw
          (
            e,
            drop-append before (bulks_bytes (v ∷ args) ++ rest),
            append_assoc (bulk_bytes v) (bulks_bytes args) rest,
          )
          (parse-bulk_bytes v (bulks_bytes args ++ rest) (
            omega (
              arith,
              sizes,
              length-append before (bulk_bytes v),
              length-append (bulk_bytes v) (bulks_bytes args ++ rest),
            )))

command_bytes-append :
    (args : List Bytes) (rest : Bytes)
    → command_bytes args ++ rest
      ≡ b'*' ∷ (to_string (length args) ++ (crlf ++ (bulks_bytes args ++ rest)))
unfolding command_bytes
command_bytes-append args rest =
    ap (◌∷◌ b'*') (append_assoc (to_string (length args)) (crlf ++ bulks_bytes args) rest)

pub length-command_bytes :
    (args : List Bytes)
    → length (command_bytes args) ≡ header_length (length args) + length (bulks_bytes args)
unfolding command_bytes
length-command_bytes args =
    omega (arith, length-append {0} (to_string (length args)) (crlf ++ bulks_bytes args))

-- With its header complete, a command waits only for its elements.
pub parse_command_header :
    (n : ℕ) (rest : Bytes)
    → n ≤ max_elements
    → parse_command (b'*' ∷ (to_string n ++ (crlf ++ rest)))
      ≡ parse_elements n (b'*' ∷ (to_string n ++ (crlf ++ rest))) (header_length n) []
unfolding parse_command command_body
parse_command_header n rest h =
    rw (read_header n rest, usize-to_string n (omega arith), ltb-false max_elements n h)
      (ap (λ (k : ℕ). parse_elements n (b'*' ∷ (to_string n ++ (crlf ++ rest))) k []) (omega arith))

-- A command that was printed by `RespType::Array`, followed by any bytes, is parsed to its
-- arguments, and the bytes counted as consumed are its own, if it has at most `max_elements`
-- arguments and the buffer is shorter than 2^64 bytes.
pub parse-command_bytes :
    (args : List Bytes) (rest : Bytes)
    → length args ≤ max_elements
    → length (command_bytes args ++ rest) < 2 ^ 64
    → parse_command (command_bytes args ++ rest) ≡ done (args, length (command_bytes args))
parse-command_bytes args rest few small =
    rw
      (
        command_bytes-append args rest,
        parse_command_header (length args) (bulks_bytes args ++ rest) few,
      )
      (ap (λ (k : ℕ). parse_elements (length args) buffer k []) (sym before_length)
        ∙ parse_elements-bulks args buffer before rest [] split
            (rw (command_bytes-append args rest) at small)
        ∙ ap (λ (k : ℕ). done (args, k)) (omega (arith, before_length, length-command_bytes args)))
  where
    buffer : Bytes
    buffer = b'*' ∷ (to_string (length args) ++ (crlf ++ (bulks_bytes args ++ rest)))

    before : Bytes
    before = b'*' ∷ (to_string (length args) ++ crlf)

    before_length : length before ≡ header_length (length args)
    before_length = omega (arith, length-append {0} (to_string (length args)) crlf)

    split : buffer ≡ before ++ (bulks_bytes args ++ rest)
    split =
        ap (◌∷◌ b'*') (sym (append_assoc (to_string (length args)) crlf (bulks_bytes args ++ rest)))
