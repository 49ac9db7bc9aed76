-- ===== src/Bitmaps/Commands.antt =====
-- SETBIT and then GETBIT of the same key.
use true_store.Base.{
  ℕ, ◌^◌, ◌<◌, ◌≡◌, refl, ap, ◌∙◌, Bool, true, false, some, [], ◌∷◌, arith, ◌==◌, if◌then◌else◌,
  lt→ltb, pos,
}
use true_store.Text.{Bytes, codes}
use true_store.Text.Decimal.{to_string}
use true_store.Text.Equality.{eq_iff, eq_refl}
use true_store.Dict.{Dict, find, insert, find-insert_self, find-erase_self}
use true_store.Resp.{integer, to_bytes}
use true_store.Platform.{Platform, Now}
use true_store.Text.Parse.{from_chars_u64-to_string}
use true_store.Store.Types.{Store}
use true_store.Store.{is_expired, key_type, live_type}
use true_store.Strings.{wrong_string_type}
use true_store.Bitmaps.{
  parse_offset, set_bit, get_bit, bit_number, setbit_parsed, handle_setbit, getbit_parsed,
  handle_getbit, or_empty_string,
}
use true_store.Bitmaps.Bits.{AreBytes, bit_at, set_bit_lem, get_bit-bit_at}

parse-to_string : (offset : ℕ) → offset < 2 ^ 32 → parse_offset (to_string offset) ≡ some offset
unfolding parse_offset
parse-to_string offset h =
    rw
      (
        parse_offset,
        from_chars_u64-to_string offset (omega arith),
        eq_refl (to_string offset),
        lt→ltb _ _ h,
      )
      refl

-- The string that the bit commands work on.
abbrev pub current : {P : Platform} → Now → Bytes → Store P → Bytes
current now key s = or_empty_string (find key (wrong_string_type now key s).1.storage)

-- A key that has been looked at does not expire at the same time again.
settled :
    {P : Platform} (now : Now) (key : Bytes) (s : Store P) (strings : Dict Bytes)
    → let t = record (is_expired now key s).1 { storage = strings } in
      is_expired now key t ≡ (false, t)
unfolding is_expired
settled now key s strings = ground (arith, find-erase_self key s.expirations)

setbit_stored :
    {P : Platform} (now : Now) (key : Bytes) (offset : ℕ) (on : Bool) (s : Store P)
    → (wrong_string_type now key s).0 ≡ false
    → let (previous, value) = set_bit offset on (current now key s) in
      let s' = (is_expired now key s).1 in
      setbit_parsed now key (some offset) (codes (if on then "1" else "0")) s ≡ (
        to_bytes (integer (pos (bit_number previous))),
        record s' { storage = insert key value s'.storage },
      )
unfolding setbit_parsed wrong_string_type key_type
setbit_stored now key offset true s string =
    ground (arith, string, eq_refl (codes "1"), eq_iff (codes "1") (codes "0"))
setbit_stored now key offset false s string =
    ground (arith, string, eq_refl (codes "0"), eq_iff (codes "0") (codes "1"))

getbit_stored :
    {P : Platform} (now : Now) (key : Bytes) (j : ℕ) (value : Bytes) (s : Store P)
    → let s' = (is_expired now key s).1 in
      (getbit_parsed now key (some j) (record s' { storage = insert key value s'.storage })).0
      ≡ to_bytes (integer (pos (get_bit j value)))
unfolding getbit_parsed wrong_string_type key_type live_type
getbit_stored now key j value s =
    let s' = (is_expired now key s).1 in
    ground (
      arith,
      settled now key s (insert key value s'.storage),
      find-insert_self key value s'.storage,
    )

-- SETBIT of an offset below 2^32, of a key that holds a string or nothing, replies with the bit
-- that was there; GETBIT of the key at any offset below 2^32 at the same time then replies with the
-- new bit at the offset, and with the bit that was there before at all others.
pub setbit_getbit :
    {P : Platform} (now : Now) (c d key : Bytes) (offset j : ℕ) (on : Bool) (s : Store P)
    → offset < 2 ^ 32
    → j < 2 ^ 32
    → (wrong_string_type now key s).0 ≡ false
    → AreBytes (current now key s)
    → let bit = codes (if on then "1" else "0") in
      let (reply, t) = handle_setbit now (c ∷ key ∷ to_string offset ∷ bit ∷ []) s in
      let old = current now key s in
      (reply ≡ to_bytes (integer (pos (bit_at old offset))))
      × ((handle_getbit now (d ∷ key ∷ to_string j ∷ []) t).0
          ≡ to_bytes (integer (pos (if offset == j then bit_number on else bit_at old j))))
unfolding handle_setbit handle_getbit
setbit_getbit now c d key offset j on s ho hj string bytes =
    let (kept, previous, written) = set_bit_lem (current now key s) offset on bytes in
    let value = (set_bit offset on (current now key s)).1 in
    rw (parse-to_string offset ho, parse-to_string j hj, setbit_stored now key offset on s string)
      (
        ap (λ (n : ℕ). to_bytes (integer (pos n))) previous,
        getbit_stored now key j value s
            ∙ ap (λ (n : ℕ). to_bytes (integer (pos n))) (get_bit-bit_at value j kept ∙ written j),
      )
