-- ===== src/Geospatial/Queries.antt =====
-- GEOSEARCH of store/geospatial.cpp: its options, the search and the order of the results.
pub mod Near
pub mod Ranked
use true_store.Base.{
  ℕ, zero, suc, ◌≤◌, String, ◌⊎◌, inl, inr, Bool, true, false, not, ◌&&◌, ◌||◌, Option, none, some,
  List, [], ◌∷◌, ltb, leb, ◌==◌, if◌then◌else◌, length, get_or, take, ℤ, pos, negsuc,
}
use true_store.Text.{Bytes, codes, ◌=ᵇ◌, to_upper}
use true_store.Text.Parse.{from_chars_i64}
use true_store.Dict.{is_some, find}
use true_store.Resp.{RespType, bulk_string, integer, array, nested_array, nested, to_bytes}
use true_store.Platform.{Platform, Now}
use true_store.Store.Types.{
  SortedSet, Store, error_reply, arity_error, wrong_type, not_integer, syntax_error,
}
use true_store.SortedSets.Commands.{Outcome, reply, wrong_sorted_set_type}
use true_store.Geospatial.{
  Coordinates, parse_number, parse_coordinates, decode_coordinates, unit_in_meters,
  distance_in_meters,
}
use true_store.Geospatial.Commands.{unit_error, coordinates_reply, nested_reply}

-- The variable `sort`: 0, 1 and -1.
pub data Sorting : Type 0 where
  unsorted ascending descending : Sorting

-- The variables that the options of GEOSEARCH set; `count` is 0 without COUNT.
pub record Query (Double : Type 0) : Type 0 where
  pub center : Option (Coordinates Double)
  pub from_member : Option Bytes
  pub radius : Option Double
  pub unit : Double
  pub sort : Sorting
  pub count : ℕ
  pub any : Bool
  pub with_dist : Bool
  pub with_hash : Bool
  pub with_coord : Bool

-- What an option did: it failed, or took so many of the words behind it.
pub data Taken (Double : Type 0) : Type 0 where
  failed : Bytes → Taken Double
  took : ℕ → Query Double → Taken Double

pub record Match (Double : Type 0) : Type 0 where
  pub member : Bytes
  pub score : Double
  pub point : Coordinates Double
  pub distance : Double

module _ (P : Platform) where
  abbrev pub no_query : Query P.Double
  no_query = record {
    center = none;
    from_member = none;
    radius = none;
    unit = P.literal "1";
    sort = unsorted;
    count = 0;
    any = false;
    with_dist = false;
    with_hash = false;
    with_coord = false;
  }

  unfoldable pub take_center : Bytes ⊎ Coordinates P.Double → Query P.Double → Taken P.Double
  take_center (inl failure) q = failed failure
  take_center (inr point) q = took 2 (record q { center = some point })

  unfoldable pub take_radius : Option P.Double → Option P.Double → Query P.Double → Taken P.Double
  take_radius none unit q = failed (error_reply "ERR need numeric radius")
  take_radius (some value) unit q =
      if P.is_nan value || P.is_inf value
      then failed (error_reply "ERR need numeric radius")
      else if P.lt value P.zero_double
      then failed (error_reply "ERR radius cannot be negative")
      else elim unit [
        | none ↦ failed unit_error
        | some u ↦ took 2 (record q { radius = some value; unit = u })
      ]

  unfoldable pub take_count : Option ℤ → Query P.Double → Taken P.Double
  take_count none q = failed not_integer
  take_count (some (pos (suc n))) q = took 1 (record q { count = suc n })
  take_count (some (pos zero)) q = failed (error_reply "ERR COUNT must be > 0")
  take_count (some (negsuc n)) q = failed (error_reply "ERR COUNT must be > 0")

  -- One round of the loop over the options, with the words behind the option.
  unfoldable pub take_option : Bytes → List Bytes → Query P.Double → Taken P.Double
  unfolding take_center take_radius take_count
  take_option word rest q =
      let option = to_upper word in
      let first = get_or rest 0 [] in
      let second = get_or rest 1 [] in
      if option =ᵇ codes "FROMLONLAT" && (ltb 1 (length rest) && not (is_some q.from_member))
      then take_center (parse_coordinates P first second) q
      else if option =ᵇ codes "FROMMEMBER" && (ltb 0 (length rest) && not (is_some q.center))
      then took 1 (record q { from_member = some first })
      else if option =ᵇ codes "BYRADIUS" && ltb 1 (length rest)
      then take_radius (parse_number P first) (unit_in_meters P second) q
      else if option =ᵇ codes "ASC"
      then took 0 (record q { sort = ascending })
      else if option =ᵇ codes "DESC"
      then took 0 (record q { sort = descending })
      else if option =ᵇ codes "COUNT" && ltb 0 (length rest)
      then take_count (from_chars_i64 first) q
      else if option =ᵇ codes "ANY"
      then took 0 (record q { any = true })
      else if option =ᵇ codes "WITHDIST"
      then took 0 (record q { with_dist = true })
      else if option =ᵇ codes "WITHHASH"
      then took 0 (record q { with_hash = true })
      else if option =ᵇ codes "WITHCOORD"
      then took 0 (record q { with_coord = true })
      else failed syntax_error

  -- The loop over the options; `skip` words have been taken by the option in front.
  unfoldable pub read_query : ℕ → List Bytes → Query P.Double → Bytes ⊎ Query P.Double
  unfolding take_option
  read_query skip [] q = inr q
  read_query (suc skip) (word ∷ rest) q = read_query skip rest q
  read_query zero (word ∷ rest) q = elim (take_option word rest q) [
    | failed failure ↦ inl failure
    | took n next ↦ read_query n rest next
  ]

  -- The match that a pair of the set is; `none` if it is too far or has no position.
  unfoldable pub match_of :
      Coordinates P.Double → P.Double → P.Double → P.Double × Bytes → Option (Match P.Double)
  match_of center radius unit (score, member) = elim (decode_coordinates P score) [
    | none ↦ none
    | some point ↦
        let distance = P.divided_by (distance_in_meters P center point) unit in
        if P.lt radius distance
        then none
        else some (record { member = member; score = score; point = point; distance = distance })
  ]

  -- The loop over the pairs; with ANY it stops at the `limit`-th match.
  unfoldable pub collect :
      (P.Double × Bytes → Option (Match P.Double))
      → Bool
      → ℕ
      → ℕ
      → List (P.Double × Bytes)
      → List (Match P.Double)
  collect test any limit found [] = []
  collect test any limit found (pair ∷ rest) = elim (test pair) [
    | none ↦ collect test any limit found rest
    | some m ↦ elim (any && suc found == limit) [
      | true ↦ m ∷ []
      | false ↦ m ∷ collect test any limit (suc found) rest
    ]
  ]

  -- The comparison that `std::stable_sort` is given.
  unfoldable pub before : Sorting → Match P.Double → Match P.Double → Bool
  before unsorted a b = false
  before ascending a b = P.lt a.distance b.distance
  before descending a b = P.lt b.distance a.distance

  -- `std::stable_sort`, as an insertion sort.
  unfoldable pub insert_match :
      Sorting → Match P.Double → List (Match P.Double) → List (Match P.Double)
  insert_match order m [] = m ∷ []
  insert_match order m (n ∷ rest) =
      let later = n ∷ insert_match order m rest in if before order n m then later else m ∷ n ∷ rest

  unfoldable pub sorted : Sorting → List (Match P.Double) → List (Match P.Double)
  unfolding insert_match
  sorted order [] = []
  sorted order (m ∷ rest) = insert_match order m (sorted order rest)

  -- COUNT without ANY sorts in any case.
  unfoldable pub order_of : Query P.Double → Sorting
  order_of q = elim q.sort [
    | unsorted ↦ if not (q.count == 0) && not q.any then ascending else unsorted
    | ascending ↦ ascending
    | descending ↦ descending
  ]

  -- `matches.resize`, which only shortens.
  unfoldable pub shortened : ℕ → List (Match P.Double) → List (Match P.Double)
  shortened limit matches =
      if not (limit == 0) && ltb limit (length matches) then take limit matches else matches

  -- The matches in their order, at most `count` of them; without an order they stay as they are.
  unfoldable pub ranked : Query P.Double → List (Match P.Double) → List (Match P.Double)
  ranked q matches = elim (order_of q) [
    | unsorted ↦ shortened q.count matches
    | ascending ↦ shortened q.count (sorted ascending matches)
    | descending ↦ shortened q.count (sorted descending matches)
  ]

  -- One result; `none` is the exception of `format_number`.
  abbrev optional : Bool → Option RespType → Option (List RespType) → Option (List RespType)
  optional false item rest = rest
  optional true none rest = none
  optional true (some item) none = none
  optional true (some item) (some rest) = some (item ∷ rest)

  abbrev bulk : Option Bytes → Option RespType
  bulk none = none
  bulk (some text) = some (bulk_string text)

  unfoldable pub details : Query P.Double → Match P.Double → Option (List RespType)
  details q m = optional q.with_dist (bulk (P.to_chars_fixed 4 m.distance)) (
      optional q.with_hash (some (integer (pos (P.to_u64 m.score))))
        (optional q.with_coord (coordinates_reply P m.point) (some [])))

  unfoldable pub result_of : Query P.Double → Match P.Double → Option RespType
  result_of q m =
      if not q.with_dist && (not q.with_hash && not q.with_coord)
      then some (bulk_string m.member)
      else elim (details q m) [
        | none ↦ none
        | some items ↦ some (nested_array (nested (bulk_string m.member ∷ items)))
      ]

  unfoldable pub results : Query P.Double → List (Match P.Double) → Option (List RespType)
  unfolding result_of
  results q [] = some []
  results q (m ∷ rest) =
      let others = results q rest in
      elim (result_of q m) [
        | none ↦ none
        | some r ↦ elim others [ none ↦ none | some rs ↦ some (r ∷ rs) ]
      ]

  -- The search around a center, over the pairs of a set.
  unfoldable pub search_around :
      Query P.Double
      → P.Double
      → Coordinates P.Double
      → List (P.Double × Bytes)
      → List (Match P.Double)
  search_around q radius center ordered =
      ranked q (collect (match_of center radius q.unit) q.any q.count 0 ordered)

  -- The center: given, or the position of the member.
  unfoldable pub center_of : Query P.Double → SortedSet P.Double → Option (Coordinates P.Double)
  center_of q zset = elim q.from_member [
    | none ↦ q.center
    | some member ↦ elim (find member zset.scores) [
      | none ↦ q.center
      | some score ↦ decode_coordinates P score
    ]
  ]

  -- GEOSEARCH in the set that the key has.
  unfoldable pub search_set : Query P.Double → P.Double → Option (SortedSet P.Double) → Outcome
  search_set q radius none = reply (to_bytes (array []))
  search_set q radius (some zset) = elim (center_of q zset) [
    | none ↦ reply (error_reply "ERR could not decode requested zset member")
    | some center ↦ nested_reply P (results q (search_around q radius center zset.ordered))
  ]

module _ {P : Platform} (now : Now) where
  -- GEOSEARCH with its options read.
  unfoldable pub search_query : Bytes → Bytes ⊎ Query P.Double → Store P → Outcome × Store P
  search_query key (inl failure) s = (reply failure, s)
  search_query key (inr q) s =
      if not (is_some q.center) && not (is_some q.from_member)
      then (
        reply (
            error_reply
              "ERR exactly one of FROMMEMBER or FROMLONLAT can be specified for GEOSEARCH"),
        s,
      )
      else elim q.radius [
        | none ↦ (reply (error_reply "ERR BYRADIUS is required for GEOSEARCH"), s)
        | some radius ↦
            if q.any && q.count == 0
            then (reply (error_reply "ERR the ANY argument requires COUNT argument"), s)
            else (search_set P q radius (find key s.sorted_sets), s)
      ]

  unfoldable pub handle_geosearch : List Bytes → Store P → Outcome × Store P
  handle_geosearch (_ ∷ key ∷ a ∷ b ∷ c ∷ d ∷ e ∷ rest) s =
      let (wrong, s') = wrong_sorted_set_type now key s in
      if wrong
      then (reply wrong_type, s')
      else search_query key (read_query P 0 (a ∷ b ∷ c ∷ d ∷ e ∷ rest) (no_query P)) s'
  handle_geosearch _ s = (reply (arity_error "geosearch"), s)
