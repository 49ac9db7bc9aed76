-- ===== src/Strings/Incr.antt =====
-- INCR on 32-bit integers.
use true_store.Base.{◌-◌, ◌^◌, ◌≡◌, refl, none, some, [], ◌∷◌, arith, ℤ, pos, negsuc, ◌+ℤ◌, ◌≤ℤ◌}
use true_store.Text.{Bytes, codes}
use true_store.Dict.{find, find-insert_self}
use true_store.Resp.{integer, to_bytes}
use true_store.Platform.{Platform}
use true_store.Store.Types.{Store, not_integer}
use true_store.Text.Parse.{negate, stoi, stoi-to_string}
use true_store.Text.Decimal.{to_string_ℤ}
use true_store.Strings.{handle_incr, incr_value, succ_i32}

below_top : (z : ℤ) → z +ℤ pos 1 ≤ℤ pos (2 ^ 31 - 1) → z ≤ℤ pos (2 ^ 31 - 1)
below_top z h = ground arith

succ_i32_fits : (z : ℤ) → z +ℤ pos 1 ≤ℤ pos (2 ^ 31 - 1) → succ_i32 z ≡ z +ℤ pos 1
unfolding succ_i32
succ_i32_fits z h = ground arith

-- On a key that holds the decimal text of an `int` below the greatest, INCR replies with the next
-- integer and stores its text.
pub incr_adds_one :
    {P : Platform} (c key : Bytes) (z : ℤ) (s : Store P)
    → negate (2 ^ 31) ≤ℤ z
    → z +ℤ pos 1 ≤ℤ pos (2 ^ 31 - 1)
    → find key s.storage ≡ some (to_string_ℤ z)
    → ((handle_incr (c ∷ key ∷ []) s).0 ≡ to_bytes (integer (z +ℤ pos 1)))
      × (find key (handle_incr (c ∷ key ∷ []) s).1.storage ≡ some (to_string_ℤ (z +ℤ pos 1)))
unfolding handle_incr incr_value
incr_adds_one c key z s lo hi e =
    rw (e, handle_incr, stoi-to_string z lo (below_top z hi), incr_value, succ_i32_fits z hi)
      (refl, find-insert_self key _ s.storage)

-- A value that `std::stoi` refuses is left as it is.
pub incr_refuses :
    {P : Platform} (c key value : Bytes) (s : Store P)
    → find key s.storage ≡ some value
    → stoi value ≡ none
    → handle_incr (c ∷ key ∷ []) s ≡ (not_integer, s)
unfolding handle_incr incr_value
incr_refuses c key value s e f = rw (e, handle_incr, f)

-- At the greatest `int` the sum wraps around: INCR stores the least `int`.
incr_wraps :
    {P : Platform} (c key : Bytes) (s : Store P)
    → find key s.storage ≡ some (codes "2147483647")
    → (handle_incr (c ∷ key ∷ []) s).0 ≡ to_bytes (integer (negsuc 2147483647))
unfolding handle_incr incr_value succ_i32 stoi
incr_wraps c key s e = rw (e, handle_incr)
