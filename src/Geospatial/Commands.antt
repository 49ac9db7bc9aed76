-- ===== src/Geospatial/Commands.antt =====
-- GEOADD, GEOPOS and GEODIST of store/geospatial.cpp.
use true_store.Base.{
  ◌%◌, ◌⊎◌, inl, inr, false, not, ◌&&◌, ◌||◌, Option, none, some, List, [], ◌∷◌, ◌==◌,
  if◌then◌else◌, length, pos,
}
use true_store.Text.{Bytes}
use true_store.Dict.{contains, find, insert}
use true_store.Resp.{
  RespType, bulk_string, null_bulk_string, integer, array, nested_array, null_array, nested,
  to_bytes,
}
use true_store.Platform.{Platform, Now}
use true_store.Store.Types.{SortedSet, Store, error_reply, arity_error, wrong_type, syntax_error}
use true_store.SortedSets.{set_or_empty}
use true_store.SortedSets.Commands.{Outcome, reply, thrown, wrong_sorted_set_type}
use true_store.Geospatial.{
  Coordinates, Flags, read_flags, add_points, read_points, decode_coordinates, unit_in_meters,
  distance_in_meters,
}

unfoldable pub unit_error : Bytes
unfolding error_reply
unit_error = error_reply "ERR unsupported unit provided. please use M, KM, FT, MI"

abbrev pub no_flags : Flags
no_flags = record { nx = false; xx = false; ch = false }

module _ (P : Platform) where
  -- `coordinates_reply`; `none` is the exception of `format_number`.
  unfoldable pub coordinates_reply : Coordinates P.Double → Option RespType
  coordinates_reply point = elim (P.to_chars point.longitude) [
    | none ↦ none
    | some longitude ↦ elim (P.to_chars point.latitude) [
      | none ↦ none
      | some latitude ↦ some (array (longitude ∷ latitude ∷ []))
    ]
  ]

  -- The position of a member that has this score.
  unfoldable pub position_reply : Option P.Double → Option RespType
  position_reply none = some null_array
  position_reply (some score) = elim (decode_coordinates P score) [
    | none ↦ some null_array
    | some point ↦ coordinates_reply point
  ]

  -- The loop of GEOPOS.
  unfoldable pub positions : SortedSet P.Double → List Bytes → Option (List RespType)
  positions zset [] = some []
  positions zset (member ∷ rest) =
      let others = positions zset rest in
      elim (position_reply (find member zset.scores)) [
        | none ↦ none
        | some position ↦ elim others [ none ↦ none | some ps ↦ some (position ∷ ps) ]
      ]

  unfoldable pub nested_reply : Option (List RespType) → Outcome
  nested_reply none = thrown
  nested_reply (some rs) = reply (to_bytes (nested_array (nested rs)))

  -- The distance of two scores in a unit; null if there is none.
  unfoldable pub distance_reply : P.Double → Option P.Double → Option P.Double → Outcome
  distance_reply unit (some first) (some second) = elim (decode_coordinates P first) [
    | none ↦ reply (to_bytes null_bulk_string)
    | some from ↦ elim (decode_coordinates P second) [
      | none ↦ reply (to_bytes null_bulk_string)
      | some to ↦ elim (P.to_chars_fixed 4 (P.divided_by (distance_in_meters P from to) unit)) [
        | none ↦ thrown
        | some text ↦ reply (to_bytes (bulk_string text))
      ]
    ]
  ]
  distance_reply unit _ _ = reply (to_bytes null_bulk_string)

module _ {P : Platform} (now : Now) where
  -- GEOADD with its flags and points read.
  unfoldable pub geoadd_entries :
      Flags → Bytes → Bytes ⊎ List (P.Double × Bytes) → Store P → Bytes × Store P
  geoadd_entries f key (inl failure) s = (failure, s)
  geoadd_entries f key (inr entries) s =
      let (wrong, s') = wrong_sorted_set_type now key s in
      let (added, changed, zset) =
        add_points P.doubles f entries (set_or_empty P.doubles (find key s'.sorted_sets)) in
      if wrong
      then (wrong_type, s')
      else if f.xx && not (contains key s'.sorted_sets)
      then (to_bytes (integer (pos 0)), s')
      else (
        to_bytes (integer (pos (if f.ch then changed else added))),
        record s' { sorted_sets = insert key zset s'.sorted_sets },
      )

  unfoldable pub geoadd_words : Bytes → Flags × List Bytes → Store P → Bytes × Store P
  geoadd_words key (f, words) s =
      if (f.nx && f.xx) || ((length words == 0) || not (length words % 3 == 0))
      then (syntax_error, s)
      else geoadd_entries f key (read_points P words) s

  unfoldable pub handle_geoadd : List Bytes → Store P → Bytes × Store P
  handle_geoadd (_ ∷ key ∷ a ∷ b ∷ c ∷ rest) s =
      geoadd_words key (read_flags (a ∷ b ∷ c ∷ rest) no_flags) s
  handle_geoadd _ s = (arity_error "geoadd", s)

  unfoldable pub handle_geopos : List Bytes → Store P → Outcome × Store P
  handle_geopos (_ ∷ key ∷ members) s =
      let (wrong, s') = wrong_sorted_set_type now key s in
      let zset = set_or_empty P.doubles (find key s'.sorted_sets) in
      if wrong then (reply wrong_type, s') else (nested_reply P (positions P zset members), s')
  handle_geopos _ s = (reply (arity_error "geopos"), s)

  -- GEODIST with its unit read.
  unfoldable pub geodist_in : Option P.Double → Bytes → Bytes → Bytes → Store P → Outcome × Store P
  geodist_in none key first second s = (reply unit_error, s)
  geodist_in (some unit) key first second s =
      let (wrong, s') = wrong_sorted_set_type now key s in
      let scores = (set_or_empty P.doubles (find key s'.sorted_sets)).scores in
      if wrong
      then (reply wrong_type, s')
      else (distance_reply P unit (find first scores) (find second scores), s')

  unfoldable pub handle_geodist : List Bytes → Store P → Outcome × Store P
  handle_geodist (_ ∷ key ∷ first ∷ second ∷ []) s =
      geodist_in (some (P.literal "1")) key first second s
  handle_geodist (_ ∷ key ∷ first ∷ second ∷ unit ∷ []) s =
      geodist_in (unit_in_meters P unit) key first second s
  handle_geodist _ s = (reply (arity_error "geodist"), s)
