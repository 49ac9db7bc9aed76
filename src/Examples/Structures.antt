-- ===== src/Examples/Structures.antt =====
-- The theorems on lists, sorted sets and streams at concrete inputs.
use true_store.Base.{◌∙◌, false, ℕ, ◌≡◌, refl, true, some, List, [], ◌∷◌, arith, ltb→lt, pos}
use true_store.Text.{Bytes, codes, ◌=ᵇ◌}
use true_store.Text.Equality.{eq_iff, eq_refl}
use true_store.Dict.{find, insert}
use true_store.Resp.{bulk_string, to_bytes}
use true_store.Store.Types.{StreamId, Stream, SortedSet, Store}
use true_store.TestPlatform.{
  test_platform, empty_store, naturals, naturals_laws, entry_list, entry_list_laws,
}
use true_store.Lists.{handle_lpop, try_blpop}
use true_store.Lists.Blocking.{Pops, try_blpop-Pops, blpop_replicates}
use true_store.SortedSets.{empty_set, add_all, distance, position, add}
use true_store.SortedSets.Agree.{Agrees, loops-Agrees}
use true_store.SortedSets.Commands.{handle_zadd}
use true_store.SortedSets.Stored.{AllAgree, handlers-AllAgree}
use true_store.Platform.{Now}
use true_store.SortedSets.Rank.{count_before, rank_counts}
use true_store.Streams.{
  parse_id, id_to_string, parse_range_bound, get_range, encode_id, id_less, id_to_string,
  empty_stream, insert_entry, resolve_id, added, next_sequence,
}
use true_store.Streams.Range.{range_finds}
use true_store.Streams.Keys.{Fits}
use true_store.Streams.Ids.{parse-id_to_string}
use true_store.Streams.Insert.{Increasing, insert_increases, empty-Increasing}

abbrev one : Bytes
one = codes "1"

abbrev two : Bytes
two = codes "2"

abbrev three : Bytes
three = codes "3"

abbrev numbers : List Bytes
numbers = one ∷ two ∷ three ∷ []

abbrev key : Bytes
key = codes "k"

abbrev other : Bytes
other = codes "o"

abbrev lists : Store test_platform
lists = record empty_store { dynamic_vector = (key, numbers) ∷ [] }

try_blpop-Pops_example : Pops lists (other ∷ key ∷ []) (try_blpop (other ∷ key ∷ []) lists)
try_blpop-Pops_example = try_blpop-Pops (other ∷ key ∷ []) lists

blpop_replicates_example :
    (handle_lpop (codes "LPOP" ∷ key ∷ []) lists).0 ≡ to_bytes (bulk_string one)
unfolding try_blpop find
blpop_replicates_example =
    (blpop_replicates (other ∷ key ∷ []) key one lists (try_blpop (other ∷ key ∷ []) lists).1
      refl).1

abbrev scored : List (ℕ × Bytes)
scored = (7, key) ∷ (3, other) ∷ (5, one) ∷ []

empty-Agrees : Agrees naturals (empty_set naturals)
unfolding find
empty-Agrees = record {
  sorted = tt;
  distinct = tt;
  no_nan = tt;
  same = λ m. refl;
  keys_sorted = tt;
  sizes = refl;
}

abbrev board : SortedSet ℕ
board = (add_all naturals scored (empty_set naturals)).1

board-Agrees : Agrees naturals board
board-Agrees =
    (loops-Agrees naturals_laws scored [] (empty_set naturals) (refl, (refl, (refl, tt)))
      empty-Agrees).0

rank_counts_example :
    distance naturals (position naturals (7, key) board.ordered) board.ordered
    ≡ count_before naturals (7, key) board.ordered
unfolding find add_all add insert
rank_counts_example = rank_counts naturals_laws key 7 board board-Agrees refl

abbrev small : StreamId
small = record { milliseconds = 255; sequence = 7 }

abbrev large : StreamId
large = record { milliseconds = 256; sequence = 0 }

small-Fits : Fits small
small-Fits = record { ms = ltb→lt _ _ refl; seq = ltb→lt _ _ refl }

large-Fits : Fits large
large-Fits = record { ms = ltb→lt _ _ refl; seq = ltb→lt _ _ refl }

parse-id_to_string_example :
    (parse_id (id_to_string small) ≡ some small)
    × (parse_range_bound (id_to_string small) 0 ≡ some small)
parse-id_to_string_example = parse-id_to_string small 0 small-Fits

abbrev after_small : StreamId
after_small = record { milliseconds = 255; sequence = 8 }

insert_increases_example :
    (t : Stream entry_list.Tree) × (insert_entry entry_list 255
        (codes "*")
        []
        (empty_stream entry_list)
      ≡ (added (record { milliseconds = 255; sequence = 0 }), t))
unfolding resolve_id ◌=ᵇ◌ next_sequence empty_stream
insert_increases_example =
    let r =
      insert_increases entry_list entry_list_laws 255 (codes "*") [] (empty_stream entry_list)
        (record { milliseconds = 255; sequence = 0 }) (ltb→lt _ _ refl)
        (empty-Increasing entry_list entry_list_laws) refl in
    (r.0, r.1)

-- A stream with one entry.
abbrev log : Stream entry_list.Tree
log = record {
  tree = ((encode_id small, (key, one) ∷ []) ∷ [], (tt, tt));
  has_max_id = true;
  max_id = small;
}

log-Increasing : Increasing entry_list log
unfolding find id_less
log-Increasing = record {
  max_fits = small-Fits;
  bounded =
      λ j e h. (small, small-Fits, ground (arith, eq_iff (encode_id small) j, h), refl, small_last);
}
  where
    small_last : id_less small small ≡ false
    small_last = ground arith

range_finds_example :
    find (id_to_string small) (get_range entry_list small large 0 log) ≡ some ((key, one) ∷ [])
unfolding id_less find
range_finds_example =
    range_finds entry_list entry_list_laws small large small log log-Increasing small-Fits
      large-Fits small-Fits
    ∙ rw (eq_refl (encode_id small)) refl

abbrev zadd : List Bytes
zadd = codes "ZADD" ∷ key ∷ codes "7" ∷ one ∷ []

abbrev midnight : Now
midnight = record { steady = pos 0; system_ms = 0 }

empty-AllAgree : AllAgree naturals empty_store.sorted_sets
unfolding find
empty-AllAgree j zset e = cc

-- A store with one sorted set.
abbrev boards : Store test_platform
boards = (handle_zadd midnight zadd empty_store).1

boards-AllAgree : AllAgree naturals boards.sorted_sets
boards-AllAgree = (handlers-AllAgree naturals_laws midnight zadd empty_store empty-AllAgree).0

handlers-AllAgree_example : AllAgree naturals (handle_zadd midnight zadd boards).1.sorted_sets
handlers-AllAgree_example = (handlers-AllAgree naturals_laws midnight zadd boards boards-AllAgree).0
