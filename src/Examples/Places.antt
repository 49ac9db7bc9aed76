-- ===== src/Examples/Places.antt =====
-- The theorems on positions and on the whole store at concrete inputs.
use true_store.Base.{ℕ, ◌≡◌, refl, true, false, some, List, [], ◌∷◌, ltb→lt}
use true_store.Text.{Bytes, codes}
use true_store.Dict.{find}
use true_store.Store.Types.{SortedSet}
use true_store.TestPlatform.{test_platform, empty_store, naturals_laws, entry_list_laws}
use true_store.Sound.{StoreLaws, IsSound}
use true_store.Sound.Served.{start, next, command, closed, reached-IsSound}
use true_store.Examples.Sessions.{now, client, platform_digests, no_passwords, push}
use true_store.PubSub.{remove_subscriber}
use true_store.Geospatial.{
  decode_coordinates, distance_in_meters, middle, deinterleave, Coordinates, cell, cell_parts,
  Flags,
}
use true_store.Geospatial.Cells.{cell_parts-cell}
use true_store.Geospatial.Queries.{Match, Query, no_query, search_around}
use true_store.Geospatial.Queries.Near.{placed, in_radius, first_of_all}
use true_store.Geospatial.Queries.Ranked.{search_around_ranks}
use true_store.Command.{handle_command}
use true_store.Command.Handlers.{dispatch_command}

cell_parts-cell_example : cell_parts (cell 40265318 90000000) ≡ (40265318, 90000000)
cell_parts-cell_example = (cell_parts-cell 40265318 90000000 (ltb→lt _ _ refl) (ltb→lt _ _ refl)).0

abbrev rome : Bytes
rome = codes "Rome"

abbrev oslo : Bytes
oslo = codes "Oslo"

-- Rome has a score, and NX keeps it.
abbrev capitals : SortedSet ℕ
capitals = record { ordered = (7, rome) ∷ []; scores = (rome, 7) ∷ [] }

abbrev only_new : Flags
only_new = record { nx = true; xx = false; ch = false }

abbrev points : List (ℕ × Bytes)
points = (9, rome) ∷ (5, oslo) ∷ []

laws : StoreLaws test_platform
laws = record {
  doubles = naturals_laws;
  rax = entry_list_laws;
  digest = platform_digests;
  number = λ n. refl;
}

empty-IsSound : IsSound empty_store
unfolding find
empty-IsSound = record {
  sets = λ j zset e. cc;
  lists = λ j e. cc;
  streams = λ j stream e. cc;
  hashes = no_passwords;
}

-- A client pushes to a list and leaves.
reached-IsSound_example : IsSound (
    remove_subscriber client.fd
      (handle_command now (dispatch_command now) push client empty_store).1.1)
reached-IsSound_example =
    reached-IsSound laws
      (next (next start (command now push client empty_store (ltb→lt _ _ refl)))
        (closed client.fd _))
      empty-IsSound

abbrev origin : Coordinates ℕ
origin = record { longitude = 1; latitude = 1 }

-- The nearest of two cells.
abbrev nearest : Query ℕ
nearest = record (no_query test_platform) { center = some origin; count = 1 }

search_around_ranks_example :
    (all : List (Match ℕ)) × (search_around test_platform nearest 100000 origin
        ((3, rome) ∷ (9, oslo) ∷ [])
      ≡ first_of_all test_platform 1 all)
unfolding placed in_radius decode_coordinates distance_in_meters middle cell_parts deinterleave
search_around_ranks_example =
    let r =
      search_around_ranks test_platform naturals_laws nearest 100000 origin
        ((3, rome) ∷ (9, oslo) ∷ []) (λ e. cc) (refl, (refl, tt)) in
    (r.0, r.5)
