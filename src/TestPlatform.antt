-- ===== src/TestPlatform.antt =====
-- A concrete platform for the examples: natural numbers for `double`, and a radix tree kept as a list
-- of entries in key order.
use true_store.Base.{
  replicate, ◌++◌, take, ℕ, ◌+◌, ◌-◌, ◌*◌, ◌/◌, ◌≡◌, refl, true, false, Option, none, some, [], ◌∷◌,
  arith, ltb, if◌then◌else◌, length, All, pos, pos_part,
}
use true_store.Text.{Bytes, codes, ◌=ᵇ◌, less}
use true_store.Text.Equality.{eq_iff}
use true_store.Dict.{Dict, find, insert, find-insert}
use true_store.Platform.{Platform, Doubles, Geometry, Rax, StreamEntryData}
use true_store.Dict.Size.{KeysSorted, insert-KeysSorted}
use true_store.Text.Decimal.{to_string}
use true_store.Text.Parse.{from_chars_u64}
use true_store.Store.Types.{Store}
use true_store.SortedSets.Order.{DoubleLaws}
use true_store.Streams.Insert.{RaxLaws}

abbrev read_number : Bytes → Option (ℕ × ℕ)
read_number text = elim (from_chars_u64 text) [ none ↦ none | some n ↦ some (n, length text) ]

abbrev pub naturals : Doubles
naturals = record {
  Double = ℕ;
  lt = ltb;
  zero_double = 0;
  is_nan = λ n. false;
  is_inf = λ n. false;
  stod = read_number;
  to_chars = λ n. some (to_string n);
  seconds_of_ms = λ ms. pos_part ms / 1000;
}

pub naturals_laws : DoubleLaws naturals
naturals_laws = record {
  lt_irrefl = λ a. ground arith;
  lt_trans = λ a b c h k. ground arith;
  lt_split = λ a b c x h k. ground arith;
}

-- Whole degrees, with the distance along the equator; a literal is the number of its digits.
abbrev whole_degrees : Geometry ℕ
whole_degrees = record {
  literal = λ text. length (codes text);
  pi = 3;
  plus = λ a b. a + b;
  minus = λ a b. a - b;
  times = λ a b. a * b;
  divided_by = λ a b. a / b;
  sin = λ a. a;
  cos = λ a. 1;
  asin = λ a. a;
  sqrt = λ a. a;
  of_u64 = λ n. n;
  to_u64 = λ n. n;
  to_chars_fixed = λ digits n. some (to_string n);
  to_text = to_string;
}

-- An ordered list of entries.
abbrev Entries : Type 0
Entries = (m : Dict StreamEntryData) × KeysSorted m

-- The entries that do not stand before a key.
unfoldable pub entries_from : Bytes → Dict StreamEntryData → Dict StreamEntryData
entries_from k [] = []
entries_from k ((j, e) ∷ m) =
    let rest = entries_from k m in if less j k then rest else (j, e) ∷ rest

All-entries_from :
    (j k : Bytes) (m : Dict StreamEntryData)
    → All (λ e. less j e.0 ≡ true) m
    → All (λ e. less j e.0 ≡ true) (entries_from k m)
unfolding entries_from
All-entries_from j k [] h = tt
All-entries_from j k ((i, e) ∷ m) (x, h) = ground (arith, All-entries_from j k m h)

entries_from-KeysSorted :
    (k : Bytes) (m : Dict StreamEntryData) → KeysSorted m → KeysSorted (entries_from k m)
unfolding entries_from
entries_from-KeysSorted k [] h = tt
entries_from-KeysSorted k ((j, e) ∷ m) (a, h) =
    ground (arith, entries_from-KeysSorted k m h, All-entries_from j k m a)

find-entries_from :
    (j k : Bytes) (m : Dict StreamEntryData)
    → find j (entries_from k m) ≡ (if less j k then none else find j m)
unfolding entries_from find
find-entries_from j k [] = ground arith
find-entries_from j k ((i, e) ∷ m) = ground (arith, eq_iff i j, find-entries_from j k m)

abbrev try_insert : Bytes → StreamEntryData → Entries → Option Entries
try_insert k e (m, h) = elim (find k m) [
  | some d ↦ none
  | none ↦ some (insert k e m, insert-KeysSorted k e m h)
]

try_insert_absent :
    (k : Bytes) (e : StreamEntryData) (t : Entries)
    → find k t.0 ≡ none
    → try_insert k e t ≡ some (insert k e t.0, insert-KeysSorted k e t.0 t.1)
try_insert_absent k e (m, p) h = rw (h, try_insert) refl

abbrev pub entry_list : Rax
entry_list = record {
  Tree = Entries;
  rax_new = ([], tt);
  rax_try_insert = try_insert;
  rax_find = λ k t. find k t.0;
  rax_from = λ k t. entries_from k t.0;
}

pub entry_list_laws : RaxLaws entry_list
unfolding find
entry_list_laws = record {
  find_new = λ k. refl;
  insert_absent = λ k v t h. (
    (insert k v t.0, insert-KeysSorted k v t.0 t.1),
    try_insert_absent k v t h,
    λ j. find-insert j k v t.0,
  );
  from_sorted = λ k t. entries_from-KeysSorted k t.0 t.1;
  from_entries = λ j k t. find-entries_from j k t.0;
}

abbrev pub test_platform : Platform
test_platform = record {
  doubles = naturals;
  geometry = whole_degrees;
  rax = entry_list;
  fnmatch = λ pattern text. pattern =ᵇ text;
  hash_order = λ ks. ks;
  sha256 = λ text. some (take 32 (text ++ replicate 32 0));
}

-- The state of `Store` before `init`.
abbrev pub empty_store : Store test_platform
empty_store = record {
  storage = [];
  expirations = [];
  dynamic_vector = [];
  pending_block = none;
  pending_propagations = [];
  streams = [];
  sorted_sets = [];
  subscribers = [];
  pending_messages = [];
  default_user_enabled = true;
  default_user_nopass = true;
  default_user_passwords = [];
  is_replica = false;
  master_host = [];
  master_port = pos 0;
  master_replid = [];
  master_repl_offset = pos 0;
  dir = [];
  dbfilename = [];
  appendonly = [];
  appenddirname = [];
  appendfilename = [];
  appendfsync = [];
}
