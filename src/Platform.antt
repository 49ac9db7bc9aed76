-- ===== src/Platform.antt =====
-- Code that the repository calls and does not implement, as parameters: the arithmetic of
-- `double` with its readers and printers, the vendored radix tree (third_party/rax), `fnmatch`,
-- SHA-256, and the iteration order of hash tables. The laws that theorems rely on are records of
-- their own, in the modules that state those theorems.
use true_store.Base.{ℕ, String, Bool, Option, List, ℤ}
use true_store.Text.{Bytes}

-- `StreamEntryData` of stream/stream.hpp.
abbrev pub StreamEntryData : Type 0
StreamEntryData = List (Bytes × Bytes)

-- `double`, without its not-a-number values where a reader refuses those.
pub record Doubles : Type 1 where
  pub Double : Type 0
  pub lt : Double → Double → Bool
  pub zero_double : Double
  pub is_nan : Double → Bool
  pub is_inf : Double → Bool
  -- `std::stod`: the value and the number of bytes read; `none` is an exception.
  pub stod : Bytes → Option (Double × ℕ)
  -- The shortest text of `std::to_chars`; `none` is an error code.
  pub to_chars : Double → Option Bytes
  -- A number of milliseconds divided by 1000.0.
  pub seconds_of_ms : ℤ → Double

-- What store/geospatial.cpp does with `double` beside that.
pub record Geometry (Double : Type 0) : Type 0 where
  -- The value of a literal, and of `std::numbers::pi`.
  pub literal : String → Double
  pub pi : Double
  pub plus : Double → Double → Double
  pub minus : Double → Double → Double
  pub times : Double → Double → Double
  pub divided_by : Double → Double → Double
  pub sin : Double → Double
  pub cos : Double → Double
  pub asin : Double → Double
  pub sqrt : Double → Double
  -- `static_cast` from and to a 64-bit integer that is not negative.
  pub of_u64 : ℕ → Double
  pub to_u64 : Double → ℕ
  -- `std::to_chars` with a fixed number of digits behind the point; `none` is an error code.
  pub to_chars_fixed : ℕ → Double → Option Bytes
  -- `std::to_string`.
  pub to_text : Double → Bytes

-- The radix tree: `raxNew`, `raxTryInsert` (`none`: the key is there), and the entries that
-- `raxSeek` with ">=" and then `raxNext` visit.
pub record Rax : Type 1 where
  pub Tree : Type 0
  pub rax_new : Tree
  pub rax_try_insert : Bytes → StreamEntryData → Tree → Option Tree
  pub rax_find : Bytes → Tree → Option StreamEntryData
  pub rax_from : Bytes → Tree → List (Bytes × StreamEntryData)

pub record Platform : Type 1 where
  pub doubles : Doubles
  pub open doubles use *
  pub geometry : Geometry doubles.Double
  pub open geometry use *
  pub rax : Rax
  pub open rax use *
  -- `fnmatch(pattern, text, 0) == 0`.
  pub fnmatch : Bytes → Bytes → Bool
  -- The order in which a hash table with these keys is walked.
  pub hash_order : List Bytes → List Bytes
  -- The digest of `EVP_Digest` with `EVP_sha256`; `none` is a failure.
  pub sha256 : Bytes → Option Bytes

-- The clock readings of one command: `steady_clock` in nanoseconds, `system_clock` in milliseconds.
pub record Now : Type 0 where
  pub steady : ℤ
  pub system_ms : ℕ
