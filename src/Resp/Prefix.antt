-- ===== src/Resp/Prefix.antt =====
-- A command of which only a proper part has arrived is left in the buffer: the parser reports no
-- error and consumes nothing.
use true_store.Base.{
  ℕ, zero, suc, ◌+◌, ◌-◌, ◌^◌, ◌≤◌, ◌<◌, ◌≡◌, refl, sym, ap, ◌∙◌, ◌⊎◌, inl, inr, none, List, [],
  ◌∷◌, ◌++◌, append_assoc, arith, ltb, ltb→lt, Bool-cases, length, take, drop, length-append,
  drop-append, length-take,
}
use true_store.Text.{Bytes, crlf}
use true_store.Text.Decimal.{to_string, to_string-All}
use true_store.Resp.{bulk_bytes, bulks_bytes, command_bytes}
use true_store.Resp.Line.{digits-NoCr, unfinished_line, take_inside, take_beyond}
use true_store.Resp.Parse.{
  more, done, max_elements, read_till_crlf, bulk_body, parse_bulk_string, parse_elements,
  parse_command,
}
use true_store.Resp.RoundTrip.{
  header_length, length-bulk_bytes, parse_header, parse-bulk_bytes, parse_elements_step,
  length-command_bytes, parse_command_header,
}

cut_header :
    (k n : ℕ) (rest : Bytes)
    → k < length (to_string n) + 2
    → read_till_crlf (take k (to_string n ++ (crlf ++ rest))) ≡ none
cut_header k n rest h =
    rw
      (
        sym (append_assoc (to_string n) crlf rest),
        take_inside k (to_string n ++ crlf) rest
            (omega (arith, length-append {0} (to_string n) crlf)),
      )
      (unfinished_line k (to_string n) (digits-NoCr _ (to_string-All n)) h)

body_short :
    (buffer : Bytes) (at n : ℕ)
    → length buffer < at + n + 2
    → at + n + 2 < 2 ^ 64
    → bulk_body buffer at n ≡ more
unfolding bulk_body
body_short buffer at n short small = ground arith

take_header :
    (k j n : ℕ) (rest : Bytes)
    → k ≡ length (to_string n) + (j + 2)
    → take k (to_string n ++ (crlf ++ rest)) ≡ to_string n ++ (crlf ++ take j rest)
take_header k j n rest e = take_beyond k (suc (suc j)) (to_string n) (crlf ++ rest) (omega arith)

-- What is missing of a text of `n` items when `k` of them are there, or none.
short_of : (k n : ℕ) → (k < n) ⊎ ((j : ℕ) × (k ≡ n + j))
short_of k n = elim (Bool-cases (ltb k n)) [
  | inl lt ↦ inl (ltb→lt k n lt)
  | inr ge ↦ inr (k - n, ground arith)
]

-- A bulk string of which the header is there and the contents are not.
cut_body :
    (j : ℕ) (v : Bytes)
    → length (bulk_bytes v) < 2 ^ 64
    → j < length v + 2
    → parse_bulk_string (b'$' ∷ (to_string (length v) ++ (crlf ++ take j (v ++ crlf)))) ≡ more
cut_body j v small h =
    parse_header (length v) (take j (v ++ crlf)) (omega (arith, length-bulk_bytes v))
    ∙ body_short (b'$' ∷ (to_string (length v) ++ (crlf ++ take j (v ++ crlf)))) _ (length v)
        (omega (
          arith,
          length-append {0} (to_string (length v)) (crlf ++ take j (v ++ crlf)),
          length-take j (v ++ crlf),
        ))
        (omega (arith, length-bulk_bytes v))

-- A proper prefix of a bulk string.
cut_bulk :
    (k : ℕ) (v : Bytes)
    → length (bulk_bytes v) < 2 ^ 64
    → k < length (bulk_bytes v)
    → parse_bulk_string (take k (bulk_bytes v)) ≡ more
unfolding bulk_bytes parse_bulk_string
cut_bulk zero v small h = refl
cut_bulk (suc k) v small h = elim (short_of k (length (to_string (length v)) + 2)) [
  | inl early ↦ rw (cut_header k (length v) (v ++ crlf) early)
  | inr (j, e) ↦
      rw (take_header k j (length v) (v ++ crlf) (omega arith))
        (cut_body j v small (omega (arith, length-bulk_bytes v)))
]

parse_elements_more :
    (i : ℕ) (buffer : Bytes) (offset : ℕ) (elements : List Bytes)
    → parse_bulk_string (drop offset buffer) ≡ more
    → parse_elements (suc i) buffer offset elements ≡ more
unfolding parse_elements
parse_elements_more i buffer offset elements e = rw (e, parse_elements)

-- The elements that are complete are read, and the first that is not stops the loop.
cut_elements :
    (args : List Bytes) (buffer before : Bytes) (k : ℕ) (elements : List Bytes)
    → buffer ≡ before ++ take k (bulks_bytes args)
    → k < length (bulks_bytes args)
    → length before + length (bulks_bytes args) < 2 ^ 64
    → parse_elements (length args) buffer (length before) elements ≡ more
unfolding bulks_bytes
cut_elements [] buffer before k elements e h small = absurd (omega arith)
cut_elements (v ∷ args) buffer before k elements e h small =
    elim (short_of k (length (bulk_bytes v))) [
      | inl inside ↦ parse_elements_more (length args) buffer (length before) elements (
          rw
            (
              e,
              drop-append before (take k (bulk_bytes v ++ bulks_bytes args)),
              take_inside k (bulk_bytes v) (bulks_bytes args) (omega arith),
            )
            (cut_bulk k v (omega (arith, sizes)) inside))
      | inr (j, beyond) ↦
          parse_elements_step (length args) buffer (length before) elements v
            (length (bulk_bytes v)) (length (before ++ bulk_bytes v)) (here j beyond)
            (length-append before (bulk_bytes v))
            (omega (arith, sizes, length-append before (bulk_bytes v)))
          ∙ cut_elements args buffer (before ++ bulk_bytes v) j (elements ++ v ∷ [])
              (split j beyond) (omega (arith, sizes))
              (omega (arith, sizes, length-append before (bulk_bytes v)))
    ]
  where
    sizes :
        length (bulk_bytes v ++ bulks_bytes args)
        ≡ length (bulk_bytes v) + length (bulks_bytes args)
    sizes = length-append (bulk_bytes v) (bulks_bytes args)

    beyond_v :
        (j : ℕ)
        → k ≡ length (bulk_bytes v) + j
        → take k (bulk_bytes v ++ bulks_bytes args) ≡ bulk_bytes v ++ take j (bulks_bytes args)
    beyond_v j = take_beyond k j (bulk_bytes v) (bulks_bytes args)

    here :
        (j : ℕ)
        → k ≡ length (bulk_bytes v) + j
        → parse_bulk_string (drop (length before) buffer) ≡ done (v, length (bulk_bytes v))
    here j beyond =
        rw (e, drop-append before (take k (bulk_bytes v ++ bulks_bytes args)), beyond_v j beyond)
          (parse-bulk_bytes v (take j (bulks_bytes args)) (
            omega (
              arith,
              sizes,
              length-append (bulk_bytes v) (take j (bulks_bytes args)),
              length-take j (bulks_bytes args),
            )))

    split :
        (j : ℕ)
        → k ≡ length (bulk_bytes v) + j
        → buffer ≡ (before ++ bulk_bytes v) ++ take j (bulks_bytes args)
    split j beyond =
        e
        ∙ ap (λ (s : Bytes). before ++ s) (beyond_v j beyond)
        ∙ sym (append_assoc before (bulk_bytes v) (take j (bulks_bytes args)))

-- A command of which the header is there and the elements are not.
cut_command :
    (args : List Bytes) (j : ℕ)
    → length args ≤ max_elements
    → header_length (length args) + length (bulks_bytes args) < 2 ^ 64
    → j < length (bulks_bytes args)
    → parse_command (b'*' ∷ (to_string (length args) ++ (crlf ++ take j (bulks_bytes args)))) ≡ more
cut_command args j few small h =
    parse_command_header (length args) (take j (bulks_bytes args)) few
    ∙ ap (λ (n : ℕ). parse_elements (length args) buffer n []) (sym before_length)
    ∙ cut_elements args buffer before j []
        (ap (◌∷◌ b'*')
          (sym (append_assoc (to_string (length args)) crlf (take j (bulks_bytes args)))))
        h (omega (arith, before_length))
  where
    before : Bytes
    before = b'*' ∷ (to_string (length args) ++ crlf)

    buffer : Bytes
    buffer = b'*' ∷ (to_string (length args) ++ (crlf ++ take j (bulks_bytes args)))

    before_length : length before ≡ header_length (length args)
    before_length = omega (arith, length-append {0} (to_string (length args)) crlf)

-- Of a printed command shorter than 2^64 bytes, with at most `max_elements` arguments, any proper
-- prefix is an incomplete request: the parser asks for more bytes and neither fails nor consumes.
pub parse-prefix :
    (args : List Bytes) (k : ℕ)
    → length args ≤ max_elements
    → length (command_bytes args) < 2 ^ 64
    → k < length (command_bytes args)
    → parse_command (take k (command_bytes args)) ≡ more
unfolding command_bytes parse_command
parse-prefix args zero few small h = refl
parse-prefix args (suc k) few small h = elim (short_of k (length (to_string (length args)) + 2)) [
  | inl early ↦ rw (cut_header k (length args) (bulks_bytes args) early)
  | inr (j, e) ↦ rw (take_header k j (length args) (bulks_bytes args) (omega arith)) (
      cut_command args j few (omega (arith, length-command_bytes args))
        (omega (arith, length-command_bytes args)))
]
