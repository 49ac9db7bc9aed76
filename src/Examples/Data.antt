-- ===== src/Examples/Data.antt =====
-- The theorems on bitmaps, snapshots and options at concrete inputs.
use true_store.Base.{
  ◌+◌, ◌≤◌, ◌<◌, ◌≡◌, refl, ◌≢◌, true, false, none, some, List, [], ◌∷◌, ◌++◌, arith, length, pos,
  negsuc,
}
use true_store.Text.{Bytes, codes, ◌=ᵇ◌}
use true_store.Text.Equality.{eq_iff}
use true_store.Dict.{find}
use true_store.Resp.{integer, to_bytes}
use true_store.Text.Decimal.{to_string}
use true_store.Store.Types.{Store}
use true_store.TestPlatform.{test_platform, empty_store}
use true_store.Platform.{Now}
use true_store.Store.Expiry.{visible}
use true_store.Store.{is_expired, key_type, live_type}
use true_store.Strings.{wrong_string_type}
use true_store.Bitmaps.{
  handle_setbit, handle_getbit, bit_bounds, cut_range, count_in, combined, longest, or_bits,
}
use true_store.Bitmaps.Bits.{bit_at}
use true_store.Bitmaps.Count.{ones_to, bitcount_ones}
use true_store.Bitmaps.Operations.{bitop_bits, bits_combined}
use true_store.Bitmaps.Commands.{setbit_getbit}
use true_store.Rdb.{RdbEntry, load_rdb, ok}
use true_store.Rdb.Consumed.{load_rdb_ends}
use true_store.Rdb.Snapshot.{snapshot, load_rdb-snapshot}
use true_store.Config.{parse_args, default_config, split_space}
use true_store.Config.Options.{
  Setting, port_of, replica, replica_pair, written_all, apply_all, parse_args_sets,
}
use true_store.Setup.{load_entries}
use true_store.Setup.Loaded.{loaded_visible}

abbrev key : Bytes
key = codes "k"

abbrev other : Bytes
other = codes "o"

abbrev now : Now
now = record { steady = pos 100; system_ms = 5 }

-- The letter `a` is 01100001.
abbrev letters : Store test_platform
letters = record empty_store { storage = (key, codes "a") ∷ [] }

abbrev setbit : Bytes × Store test_platform
setbit = handle_setbit now (codes "setbit" ∷ key ∷ to_string 6 ∷ codes "1" ∷ []) letters

setbit_getbit_example :
    (setbit.0 ≡ to_bytes (integer (pos 0)))
    × ((handle_getbit now (codes "getbit" ∷ key ∷ to_string 6 ∷ []) setbit.1).0
        ≡ to_bytes (integer (pos 1)))
unfolding wrong_string_type key_type is_expired live_type find ◌=ᵇ◌ bit_at
setbit_getbit_example =
    setbit_getbit now (codes "setbit") (codes "getbit") key 6 6 true letters (omega arith)
      (omega arith) refl (omega arith, tt)

bitcount_ones_example :
    (count_in (some (codes "ab")) (pos 0) (negsuc 0) false + ones_to (codes "ab") 0
      ≡ ones_to (codes "ab") 16)
    × (0 ≤ 15)
    × (15 < 16)
unfolding bit_bounds cut_range
bitcount_ones_example =
    bitcount_ones (codes "ab") (pos 0) (negsuc 0) false 0 15 (omega arith, (omega arith, tt)) refl

abbrev sources : List Bytes
sources = codes "a" ∷ codes "bc" ∷ []

bitop_bits_example :
    (bit_at (combined or_bits sources (longest sources) 0) 9 ≡ bits_combined or_bits sources 9 0)
    × (length (combined or_bits sources (longest sources) 0) ≡ longest sources)
unfolding longest
bitop_bits_example =
    bitop_bits or_bits sources 9 ((omega arith, tt), ((omega arith, (omega arith, tt)), tt))
      (omega arith)

load_rdb_ends_example : load_rdb (some (codes "REDIS0011")) ≢ none
load_rdb_ends_example = load_rdb_ends (some (codes "REDIS0011"))

abbrev entry : RdbEntry
entry = record { key = key; value = codes "v"; expire_at_ms = some 3 }

abbrev lasting : RdbEntry
lasting = record { key = other; value = codes "w"; expire_at_ms = none }

load_rdb-snapshot_example :
    load_rdb
      (some (snapshot (codes "0011") ((key, other) ∷ []) 0 2 1 (entry ∷ lasting ∷ []) (other)))
    ≡ some (ok (entry ∷ lasting ∷ []))
load_rdb-snapshot_example =
    load_rdb-snapshot (codes "0011") ((key, other) ∷ []) 0 2 1 (entry ∷ lasting ∷ []) other refl
      ((omega arith, omega arith), tt) (omega arith) (omega arith) (omega arith)
      ((omega arith, omega arith, omega arith), ((omega arith, omega arith, tt), tt))

abbrev settings : List Setting
settings =
    port_of (codes "6380")
    ∷ replica (codes "h") (codes "1")
    ∷ replica_pair (codes "g") (codes "2")
    ∷ []

parse_args_sets_example :
    (parse_args key (written_all settings) ≡ apply_all settings (default_config key))
    × (parse_args key (written_all settings ++ codes "--dir" ∷ [])
        ≡ apply_all settings (default_config key))
unfolding split_space
parse_args_sets_example = parse_args_sets key settings (codes "--dir") (tt, (refl, (refl, tt)))

loaded_visible_example :
    visible now
      (load_entries {P = test_platform} (pos 1) (pos 0) (lasting ∷ entry ∷ []) empty_store)
      key
    ≡ some (codes "v")
unfolding find
loaded_visible_example =
    loaded_visible 1 0 100 now (lasting ∷ []) entry [] empty_store refl refl
      ((λ e. ground (arith, eq_iff other key, e)), tt) tt (omega arith) (omega arith) refl
