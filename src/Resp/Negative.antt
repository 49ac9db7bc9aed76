-- ===== src/Resp/Negative.antt =====
-- Counts and lengths with a minus sign, which the parser reads modulo 2^64.
use true_store.Base.{
  ℕ, zero, suc, ◌+◌, ◌-◌, ◌^◌, ◌≤◌, ◌<◌, ◌≡◌, refl, sym, ap, ◌∙◌, ◌≢◌, some, [], ◌∷◌, ◌++◌,
  append_assoc, arith, lt→ltb, length, take, drop, length-append,
}
use true_store.Text.{Bytes, crlf}
use true_store.Text.Decimal.{to_string, to_string-All}
use true_store.Text.Parse.{stoull-negated}
use true_store.Resp.Line.{drop_beyond, digits-NoCr, read_line}
use true_store.Resp.Parse.{
  length_error, done, max_elements, read_till_crlf, bulk_body, parse_usize_from_buf,
  parse_bulk_string, command_body, parse_command,
}

negated_line :
    (n : ℕ) (rest : Bytes)
    → read_till_crlf (b'-' ∷ (to_string n ++ (crlf ++ rest)))
      ≡ some (b'-' ∷ to_string n, length (to_string n) + 3)
negated_line n rest =
    read_line (b'-' ∷ to_string n) rest (λ e. ground arith, digits-NoCr _ (to_string-All n))
    ∙ ap (λ (k : ℕ). some (b'-' ∷ to_string n, k)) (omega arith)

usize-negated :
    (n : ℕ) → 0 < n → n < 2 ^ 64 → parse_usize_from_buf (b'-' ∷ to_string n) ≡ done (2 ^ 64 - n)
unfolding parse_usize_from_buf
usize-negated n p h = rw (stoull-negated n p h, parse_usize_from_buf) refl

take_short : (n : ℕ) (l : Bytes) → length l ≤ n → take n l ≡ l
take_short zero [] h = refl
take_short (suc n) [] h = refl
take_short zero (c ∷ l) h = absurd (omega arith)
take_short (suc n) (c ∷ l) h = ap (λ (t : Bytes). c ∷ t) (take_short n l (omega arith))

-- A request whose count is the text of a number from -2^63 to -1 ends in the exception of the
-- vector's `reserve` for too many elements, whatever follows; it is not the parser's own error.
pub negative_count :
    (n : ℕ) (rest : Bytes)
    → 0 < n
    → n ≤ 2 ^ 63
    → parse_command (b'*' ∷ b'-' ∷ (to_string n ++ (crlf ++ rest))) ≡ length_error
unfolding parse_command command_body
negative_count n rest p h =
    rw
      (
        negated_line n rest,
        usize-negated n p (omega arith),
        lt→ltb max_elements (2 ^ 64 - n) (omega arith),
      )
      refl

body_wraps :
    (buffer v : Bytes) (at n end : ℕ)
    → at + n ≡ 2 ^ 64 + end
    → end + 2 ≤ length buffer
    → length buffer < 2 ^ 64
    → take n (drop at buffer) ≡ v
    → bulk_body buffer at n ≡ done (v, end + 2)
unfolding bulk_body
body_wraps buffer v at n end e fits small t = ground arith

-- A bulk string whose length is the text of a number from -4 to -1, with anything behind its length
-- line, is taken for all that is in the buffer, and fewer bytes are counted as consumed. The buffer
-- is shorter than 2^63 bytes.
pub negative_length :
    (n : ℕ) (rest : Bytes)
    → 0 < n
    → n ≤ 4
    → rest ≢ []
    → length (b'$' ∷ b'-' ∷ (to_string n ++ (crlf ++ rest))) < 2 ^ 63
    → parse_bulk_string (b'$' ∷ b'-' ∷ (to_string n ++ (crlf ++ rest)))
      ≡ done (rest, length (to_string n) + 4 - n + 2)
unfolding parse_bulk_string
negative_length n rest p q ne h =
    rw (negated_line n rest, usize-negated n p (omega arith))
      (body_wraps buffer rest (length (to_string n) + 3 + 1) (2 ^ 64 - n)
        (length (to_string n) + 4 - n) (omega arith) (omega (arith, size, some_rest rest ne))
        (omega (arith, h))
        (rw (behind_header) (take_short (2 ^ 64 - n) rest (omega (arith, size, h)))))
  where
    buffer : Bytes
    buffer = b'$' ∷ b'-' ∷ (to_string n ++ (crlf ++ rest))

    size : length buffer ≡ length (to_string n) + 4 + length rest
    size = omega (arith, length-append {0} (to_string n) (crlf ++ rest))

    some_rest : (l : Bytes) → l ≢ [] → 0 < length l
    some_rest [] ne = absurd (ne refl)
    some_rest (c ∷ l) ne = omega arith

    behind_header : drop (length (to_string n) + 3 + 1) buffer ≡ rest
    behind_header =
        ap (λ (l : Bytes). drop (length (to_string n) + 3 + 1) (b'$' ∷ b'-' ∷ l))
          (sym (append_assoc (to_string n) crlf rest))
        ∙ drop_beyond (length (to_string n) + 3 + 1) 0 (b'$' ∷ b'-' ∷ (to_string n ++ crlf)) rest
            (omega (arith, length-append {0} (to_string n) crlf))
