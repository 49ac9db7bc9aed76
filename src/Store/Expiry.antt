-- ===== src/Store/Expiry.antt =====
-- Lazy expiry: an access that finds a deadline passed drops the string, and no client can tell.
use true_store.Base.{◌≡◌, Option, arith, ◌≤ℤ◌}
use true_store.Text.{Bytes}
use true_store.Text.Equality.{eq_iff}
use true_store.Dict.{find-erase}
use true_store.Platform.{Platform, Now}
use true_store.Store.Types.{Store}
use true_store.Store.{is_expired, peek}

-- What a GET of the key finds at that time.
abbrev pub visible : {P : Platform} → Now → Store P → Bytes → Option Bytes
visible now s key = (peek now key s).0

-- An access at an earlier time changes no string that is visible then or later, of any key.
pub visible-is_expired :
    {P : Platform} (now later : Now) (k j : Bytes) (s : Store P)
    → now.steady ≤ℤ later.steady
    → visible later (is_expired now k s).1 j ≡ visible later s j
unfolding is_expired peek
visible-is_expired now later k j s h =
    ground (arith, eq_iff k j, find-erase j k s.storage, find-erase j k s.expirations)

-- What an access may change: the strings and the deadlines.
pub record SameElsewhere {P : Platform} (s t : Store P) : Type 0 where
  pub lists : t.dynamic_vector ≡ s.dynamic_vector
  pub streams : t.streams ≡ s.streams
  pub sorted_sets : t.sorted_sets ≡ s.sorted_sets
  pub propagations : t.pending_propagations ≡ s.pending_propagations

pub is_expired-SameElsewhere :
    {P : Platform} (now : Now) (k : Bytes) (s : Store P) → SameElsewhere s (is_expired now k s).1
unfolding is_expired
is_expired-SameElsewhere now k s = ground arith
