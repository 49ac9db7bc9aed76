-- ===== src/Resp/Consumed.antt =====
-- The bytes that a request takes, by the parsers of resp/resp.cpp.
use true_store.Base.{
  ℕ, zero, suc, ◌+◌, ◌%◌, ◌==◌, ◌&&◌, ◌^◌, ◌≤◌, ◌<◌, ◌≡◌, inl, inr, Option, none, some, List, [],
  ◌∷◌, ◌++◌, arith, ltb, Bool-cases, if_both, length, drop, length-drop,
}
use true_store.Text.{Bytes}
use true_store.Resp.Parse.{
  Parsed, done, more, resp_error, length_error, max_elements, read_till_crlf, parse_usize_from_buf,
  bulk_body, parse_bulk_string, parse_elements, command_body, parse_command, or_more, further,
  ◌>>=◌,
}

-- What has been parsed ends between two positions.
abbrev pub EndsIn {ℓ} : {A : Type ℓ} → ℕ → ℕ → Parsed (A × ℕ) → Type 0
EndsIn low high (done (a, n)) = (low ≤ n) × (n ≤ high)
EndsIn low high more = Unit
EndsIn low high resp_error = Unit
EndsIn low high length_error = Unit

-- The position behind a line lies in the text.
abbrev LineIn : ℕ → Option (Bytes × ℕ) → Type 0
LineIn size none = Unit
LineIn size (some (line, n)) = n ≤ size

further-LineIn :
    (c size : ℕ) (o : Option (Bytes × ℕ)) → LineIn size o → LineIn (suc size) (further c o)
further-LineIn c size none h = tt
further-LineIn c size (some (line, n)) h = omega (arith, h)

read_till_crlf-LineIn : (s : Bytes) → LineIn (length s) (read_till_crlf s)
unfolding read_till_crlf
read_till_crlf-LineIn [] = tt
read_till_crlf-LineIn (c ∷ []) = tt
read_till_crlf-LineIn (c ∷ d ∷ s) =
    if_both (LineIn (suc (suc (length s)))) (c == 13 && d == 10) (omega arith)
      (further-LineIn c (suc (length s)) (read_till_crlf (d ∷ s)) (read_till_crlf-LineIn (d ∷ s)))

module _ {A : Type 0} (low high : ℕ) where
  bind-EndsIn :
      {B : Type 0} (p : Parsed B) (f : B → Parsed (A × ℕ))
      → ((b : B) → EndsIn low high (f b))
      → EndsIn low high (p >>= f)
  bind-EndsIn (done b) f h = h b
  bind-EndsIn more f h = tt
  bind-EndsIn resp_error f h = tt
  bind-EndsIn length_error f h = tt

  later-EndsIn :
      (start : ℕ) (p : Parsed (A × ℕ)) → low ≤ start → EndsIn start high p → EndsIn low high p
  later-EndsIn start (done (a, n)) le (l, h) = (omega (arith, le, l), h)
  later-EndsIn start more le h = tt
  later-EndsIn start resp_error le h = tt
  later-EndsIn start length_error le h = tt

  line-EndsIn :
      (size : ℕ) (o : Option (Bytes × ℕ)) (f : Bytes × ℕ → Parsed (A × ℕ))
      → LineIn size o
      → ((line : Bytes) (n : ℕ) → n ≤ size → EndsIn low high (f (line, n)))
      → EndsIn low high (or_more o >>= f)
  line-EndsIn size none f inside h = tt
  line-EndsIn size (some (line, n)) f inside h = h line n inside

bulk_body-EndsIn :
    (buffer : Bytes) (start len : ℕ) → EndsIn 0 (length buffer) (bulk_body buffer start len)
unfolding bulk_body
bulk_body-EndsIn buffer start len =
    elim (Bool-cases (ltb (length buffer) (((start + len) % 2 ^ 64 + 2) % 2 ^ 64))) [
      | inl e ↦ rw e tt
      | inr e ↦ rw e (omega arith, ground (arith, e))
    ]

parse_bulk_string-EndsIn : (buffer : Bytes) → EndsIn 0 (length buffer) (parse_bulk_string buffer)
unfolding parse_bulk_string
parse_bulk_string-EndsIn [] = tt
parse_bulk_string-EndsIn (c ∷ rest) =
    let size = suc (length rest) in
    if_both (EndsIn 0 size) (c == b'$')
      (bind-EndsIn 0 size (or_more (read_till_crlf rest)) _ (λ line.
        bind-EndsIn 0 size (parse_usize_from_buf line.0) _
          (λ len. bulk_body-EndsIn (c ∷ rest) (line.1 + 1) len)))
      tt

parse_elements-EndsIn :
    (i : ℕ) (buffer : Bytes) (offset : ℕ) (elements : List Bytes)
    → length buffer < 2 ^ 64
    → offset ≤ length buffer
    → EndsIn offset (length buffer) (parse_elements i buffer offset elements)
unfolding parse_elements
parse_elements-EndsIn zero buffer offset elements small inside = (omega arith, inside)
parse_elements-EndsIn (suc i) buffer offset elements small inside =
    by_bulk (parse_bulk_string (drop offset buffer)) (parse_bulk_string-EndsIn (drop offset buffer))
      (λ next others. parse_elements-EndsIn i buffer next others small)
  where
    by_bulk :
        (p : Parsed (Bytes × ℕ))
        → EndsIn 0 (length (drop offset buffer)) p
        → ((next : ℕ) (others : List Bytes)
            → next ≤ length buffer
            → EndsIn next (length buffer) (parse_elements i buffer next others))
        → EndsIn offset (length buffer) (elim p as (λ x. Parsed (List Bytes × ℕ)) [
          | more ↦ more
          | done (value, consumed) ↦
              parse_elements i buffer ((offset + consumed) % 2 ^ 64) (elements ++ value ∷ [])
          | resp_error ↦ resp_error
          | length_error ↦ length_error
        ])
    by_bulk (done (value, n)) (l, h) behind =
        let next : (offset + n) % 2 ^ 64 ≡ offset + n =
          omega (arith, h, small, length-drop offset buffer, inside) in
        later-EndsIn offset (length buffer) ((offset + n) % 2 ^ 64) _ (omega (arith, next)) (
          behind ((offset + n) % 2 ^ 64) (elements ++ value ∷ [])
            (omega (arith, next, h, length-drop offset buffer, inside)))
    by_bulk more h behind = tt
    by_bulk resp_error h behind = tt
    by_bulk length_error h behind = tt

-- Of a buffer shorter than 2^64 bytes, a request that the parser accepts counts at least one byte as
-- consumed, and no more than there are: so it is with any bytes, also where the lengths that they
-- say make the positions wrap around.
pub parse_command-EndsIn :
    (buffer : Bytes) → length buffer < 2 ^ 64 → EndsIn 1 (length buffer) (parse_command buffer)
unfolding parse_command
parse_command-EndsIn [] small = tt
parse_command-EndsIn (c ∷ rest) small =
    let size = suc (length rest) in
    if_both (EndsIn 1 size) (c == b'*')
      (line-EndsIn 1 size (length rest) (read_till_crlf rest) _ (read_till_crlf-LineIn rest)
        (λ line n inside.
          bind-EndsIn 1 size (parse_usize_from_buf line) _ (λ count. body n count inside)))
      tt
  where
    body :
        (n count : ℕ)
        → n ≤ length rest
        → EndsIn 1 (suc (length rest)) (command_body (c ∷ rest) (n + 1) count)
    body n count inside =
        unfold command_body in
        if_both (EndsIn 1 (suc (length rest))) (ltb max_elements count) tt (
          later-EndsIn 1 (suc (length rest)) (n + 1) _ (omega arith)
            (parse_elements-EndsIn count (c ∷ rest) (n + 1) [] small (omega (arith, inside))))
