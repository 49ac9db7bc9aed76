-- ===== src/Sound.antt =====
-- What every command keeps true of the store of store/store.hpp, all its parts together: each part
-- has its own invariant in the component that changes it.
pub mod Frames
pub mod Reads
pub mod Writes
pub mod Added
pub mod Structures
pub mod Commands
pub mod Served
use mathlib.Core.Path.{subst}
use true_store.Base.{ℕ, ◌≡◌, sym, some, false, Bool, List, arith}
use true_store.Text.{Bytes}
use true_store.Dict.{Dict, find}
use true_store.Platform.{Platform, Now, Rax}
use true_store.Store.Types.{Stream, Store}
use true_store.Store.{is_expired}
use true_store.Auth.{credentials}
use true_store.Auth.Passwords.{AreHashes, DigestLaw}
use true_store.Lists.Shape.{NoEmpty}
use true_store.SortedSets.Stored.{AllAgree}
use true_store.Streams.Insert.{RaxLaws, Increasing}
use true_store.SortedSets.Order.{DoubleLaws}

-- What is relied on of the code that the repository calls; a whole number is not a NaN.
pub record StoreLaws (P : Platform) : Type 0 where
  pub doubles : DoubleLaws P.doubles
  pub rax : RaxLaws P.rax
  pub digest : DigestLaw P
  pub number : (n : ℕ) → P.is_nan (P.of_u64 n) ≡ false

-- The IDs of every stored stream do not exceed the greatest one that it has recorded.
abbrev pub AllIncreasing : (R : Rax) → Dict (Stream R.Tree) → Type 0
AllIncreasing R m =
    (j : Bytes) (stream : Stream R.Tree) → find j m ≡ some stream → Increasing R stream

pub record IsSound {P : Platform} (s : Store P) : Type 0 where
  -- The two indexes of every sorted set agree.
  pub sets : AllAgree P.doubles s.sorted_sets
  -- No key holds an empty list.
  pub lists : NoEmpty s.dynamic_vector
  pub streams : AllIncreasing P.rax s.streams
  -- Every password is a hash of 64 digits, and there is none while no password is asked for.
  pub hashes : AreHashes (credentials s)

-- Nothing that the invariant speaks of has changed.
pub record SameParts {P : Platform} (s t : Store P) : Type 0 where
  pub sets : t.sorted_sets ≡ s.sorted_sets
  pub lists : t.dynamic_vector ≡ s.dynamic_vector
  pub streams : t.streams ≡ s.streams
  pub enabled : t.default_user_enabled ≡ s.default_user_enabled
  pub nopass : t.default_user_nopass ≡ s.default_user_nopass
  pub passwords : t.default_user_passwords ≡ s.default_user_passwords

credentials_same : {P : Platform} (s t : Store P) → SameParts s t → credentials s ≡ credentials t
credentials_same s t same = λ i. record {
  enabled = sym same.enabled i;
  nopass = sym same.nopass i;
  passwords = sym same.passwords i;
}

pub SameParts-IsSound : {P : Platform} (s t : Store P) → SameParts s t → IsSound s → IsSound t
SameParts-IsSound s t same sound = record {
  sets = rw same.sets sound.sets;
  lists = rw same.lists sound.lists;
  streams = rw same.streams sound.streams;
  hashes = subst AreHashes (credentials_same s t same) sound.hashes;
}
