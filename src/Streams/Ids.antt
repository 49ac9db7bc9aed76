-- ===== src/Streams/Ids.antt =====
-- The texts of IDs, and the next ID.
use true_store.Base.{
  inl, inr, Option-cases, Option, none, Option-cases, Option, ℕ, ◌≡◌, refl, true, false, not, none,
  some, [], ◌∷◌, ◌++◌, arith, All,
}
use true_store.Text.{Bytes}
use true_store.Text.Decimal.{is_digit, to_string, to_string-All}
use true_store.Text.Parse.{from_chars_u64, from_chars_u64-lt, from_chars_u64-to_string}
use true_store.Store.Types.{StreamId}
use true_store.Streams.{
  both, split_dash, parse_id, id_to_string, id_less, advance_id, parse_range_bound,
}
use true_store.Streams.Keys.{Fits}

split_at_dash :
    (s rest : Bytes)
    → All (λ c. is_digit c ≡ true) s
    → split_dash (s ++ b'-' ∷ rest) ≡ some (s, rest)
unfolding split_dash
split_at_dash [] rest h = refl
split_at_dash (c ∷ s) rest (x, h) = ground (arith, split_at_dash s rest h)

split_text :
    (id : StreamId)
    → split_dash (id_to_string id) ≡ some (to_string id.milliseconds, to_string id.sequence)
unfolding id_to_string
split_text id =
    split_at_dash (to_string id.milliseconds) (to_string id.sequence)
      (to_string-All id.milliseconds)

read_text : (id : StreamId) → Fits id → parse_id (id_to_string id) ≡ some id
unfolding parse_id
read_text id h = rw (
  split_text id,
  parse_id,
  from_chars_u64-to_string id.milliseconds h.ms,
  from_chars_u64-to_string id.sequence h.seq,
)

-- The text of an ID, whose parts are below 2^64, is read back as that ID, by XADD and as a bound of a
-- range.
pub parse-id_to_string :
    (id : StreamId) (default : ℕ)
    → Fits id
    → (parse_id (id_to_string id) ≡ some id)
      × (parse_range_bound (id_to_string id) default ≡ some id)
unfolding parse_range_bound
parse-id_to_string id default h =
    (read_text id h, rw (split_text id, parse_range_bound) (read_text id h))

advance-Fits : (id : StreamId) {next : StreamId} → Fits id → advance_id id ≡ some next → Fits next
unfolding advance_id
advance-Fits id h e = ground arith

-- XREAD starts at the least ID behind the last one that was read: where there is a next ID, another
-- is before it exactly if it is not behind the given one, and the next ID fits in 64 bits.
pub advance_id_least :
    (id x next : StreamId)
    → Fits id
    → Fits x
    → advance_id id ≡ some next
    → Fits next × (id_less x next ≡ not (id_less id x))
unfolding advance_id id_less
advance_id_least id x next h k e = (advance-Fits id h e, ground arith)

-- Only the greatest ID has no next: nothing is behind it.
pub advance_id_last :
    (id x : StreamId) → Fits id → Fits x → advance_id id ≡ none → id_less id x ≡ false
unfolding advance_id id_less
advance_id_last id x h k e = ground arith

-- A parsed ID fits in 64 bits.
pub parse_id-Fits : (text : Bytes) (id : StreamId) → parse_id text ≡ some id → Fits id
unfolding parse_id
parse_id-Fits text id e = elim (Option-cases (split_dash text)) [
  | inl n ↦ absurd (not_none id (rw (n, parse_id) at e))
  | inr ((before, after), n) ↦ both_fit before after id (rw (n, parse_id) at e)
]
  where
    not_none : (i : StreamId) → ◌≡◌ {A = Option StreamId} none (some i) → ⊥
    not_none i e = cc

    both_fit :
        (before after : Bytes) (i : StreamId)
        → both
            (from_chars_u64 before)
            (from_chars_u64 after)
            (λ ms seq. record { milliseconds = ms; sequence = seq })
          ≡ some i
        → Fits i
    both_fit before after i e =
        ground (arith, from_chars_u64-lt before i.milliseconds, from_chars_u64-lt after i.sequence)
