-- ===== src/Geospatial.antt =====
-- store/geospatial.cpp: positions on the earth, the cells that stand for them, and how members with
-- such scores are added to a sorted set. The handlers are in the module Commands.
pub mod Cells
pub mod Scores
pub mod Commands
pub mod Queries
use Prim.Native.Nat.{bit_or}
use true_store.Base.{
  ℕ, zero, suc, ◌+◌, ◌*◌, ◌/◌, ◌%◌, ◌^◌, String, ◌⊎◌, inl, inr, Bool, true, false, not, ◌&&◌, ◌||◌,
  Option, none, some, List, [], ◌∷◌, ◌++◌, if◌then◌else◌,
}
use true_store.Text.{Bytes, codes, ◌=ᵇ◌, to_upper}
use true_store.Dict.{is_some, find}
use true_store.Resp.{simple_error, to_bytes}
use true_store.Platform.{Platform, Doubles}
use true_store.Store.Types.{SortedSet, error_reply}
use true_store.SortedSets.{add, parse_score}

pub record Coordinates (Double : Type 0) : Type 0 where
  pub longitude : Double
  pub latitude : Double

-- The loop of `encode_coordinates`, for the rounds that are left.
unfoldable pub interleave : ℕ → ℕ → ℕ → ℕ → ℕ → ℕ
interleave zero bit longitude latitude score = score
interleave (suc rounds) bit longitude latitude score =
    interleave rounds (suc bit) longitude latitude (
      bit_or (bit_or score (longitude / 2 ^ bit % 2 * 2 ^ (2 * bit + 1)))
        (latitude / 2 ^ bit % 2 * 2 ^ (2 * bit)))

-- The loop of `decode_coordinates`: the longitude and the latitude.
unfoldable pub deinterleave : ℕ → ℕ → ℕ → ℕ → ℕ → ℕ × ℕ
deinterleave zero bit hash longitude latitude = (longitude, latitude)
deinterleave (suc rounds) bit hash longitude latitude =
    deinterleave rounds (suc bit) hash (bit_or longitude (hash / 2 ^ (2 * bit + 1) % 2 * 2 ^ bit))
      (bit_or latitude (hash / 2 ^ (2 * bit) % 2 * 2 ^ bit))

-- `score |= …` for the bits 0 to 26.
unfoldable pub cell : ℕ → ℕ → ℕ
cell longitude latitude = interleave 27 0 longitude latitude 0

unfoldable pub cell_parts : ℕ → ℕ × ℕ
cell_parts hash = deinterleave 32 0 hash 0 0

-- The options of GEOADD.
pub record Flags : Type 0 where
  pub nx : Bool
  pub xx : Bool
  pub ch : Bool

-- The flag that a word sets; `none` for any other word.
unfoldable pub set_flag : Bytes → Flags → Option Flags
set_flag option f =
    if option =ᵇ codes "NX"
    then some (record f { nx = true })
    else if option =ᵇ codes "XX"
    then some (record f { xx = true })
    else if option =ᵇ codes "CH"
    then some (record f { ch = true })
    else none

-- The flags in front, and the words behind them.
unfoldable pub read_flags : List Bytes → Flags → Flags × List Bytes
read_flags [] f = (f, [])
read_flags (word ∷ rest) f = elim (set_flag (to_upper word) f) [
  | none ↦ (f, word ∷ rest)
  | some g ↦ read_flags rest g
]

module _ (D : Doubles) where
  -- `==` of numbers that are not NaN, as scores are.
  abbrev pub equal_score : D.Double → D.Double → Bool
  equal_score a b = not (D.lt a b || D.lt b a)

  -- Whether the loop of GEOADD goes on without adding, by the score that is there.
  unfoldable pub passes : Flags → D.Double → Option D.Double → Bool
  passes f score none = f.xx
  passes f score (some old) = f.nx || equal_score old score

  -- The loop of GEOADD: how many members were added, how many changed, and the set.
  unfoldable pub add_points :
      Flags → List (D.Double × Bytes) → SortedSet D.Double → ℕ × ℕ × SortedSet D.Double
  add_points f [] zset = (0, 0, zset)
  add_points f ((score, member) ∷ rest) zset =
      let skip = passes f score (find member zset.scores) in
      let (inserted, zset') = add D score member zset in
      let (added, changed, last) = add_points f rest (if skip then zset else zset') in
      (
        (if not skip && inserted then suc added else added),
        (if skip then changed else suc changed),
        last,
      )

module _ (P : Platform) where
  abbrev pub max_latitude : P.Double
  max_latitude = P.literal "85.05112878"

  abbrev pub coordinate_scale : P.Double
  coordinate_scale = P.literal "67108864"

  abbrev pub earth_radius : P.Double
  earth_radius = P.literal "6372797.560856"

  abbrev pub negated : P.Double → P.Double
  negated a = P.minus P.zero_double a

  -- `parse_number` is written as `parse_score` of sorted_sets.cpp is.
  unfoldable pub parse_number : Bytes → Option P.Double
  unfolding parse_score
  parse_number text = parse_score P.doubles text

  unfoldable pub out_of_map : Coordinates P.Double → Bool
  out_of_map point =
      (P.lt point.longitude (negated (P.literal "180")) || P.lt (P.literal "180") point.longitude)
      || (P.lt point.latitude (negated max_latitude) || P.lt max_latitude point.latitude)

  -- `parse_coordinates`: a failure, or the point.
  unfoldable pub on_map : Option P.Double → Option P.Double → Bytes ⊎ Coordinates P.Double
  on_map (some longitude) (some latitude) =
      let point : Coordinates P.Double = record { longitude = longitude; latitude = latitude } in
      if out_of_map point
      then inl (
          to_bytes (
            simple_error (
              codes "ERR invalid longitude,latitude pair "
              ++ (P.to_text longitude ++ (codes "," ++ P.to_text latitude)))))
      else inr point
  on_map _ _ = inl (error_reply "ERR value is not a valid float")

  unfoldable pub parse_coordinates : Bytes → Bytes → Bytes ⊎ Coordinates P.Double
  unfolding on_map
  parse_coordinates longitude latitude = on_map (parse_number longitude) (parse_number latitude)

  unfoldable pub encode_coordinates : Coordinates P.Double → ℕ
  encode_coordinates point =
      cell
        (P.to_u64 (
          P.times (P.divided_by (P.plus point.longitude (P.literal "180")) (P.literal "360"))
            coordinate_scale))
        (P.to_u64 (
          P.times
            (P.divided_by (P.plus point.latitude max_latitude)
              (P.times (P.literal "2") max_latitude))
            coordinate_scale))

  -- `std::clamp` of a number.
  unfoldable pub clamp : P.Double → P.Double → P.Double → P.Double
  clamp value low high = if P.lt value low then low else if P.lt high value then high else value

  -- The middle of a cell in one direction, of the cell number and from `-bound` to `bound`.
  unfoldable pub middle : ℕ → P.Double → P.Double → P.Double
  unfolding clamp
  middle n bound width =
      let low =
        P.plus (negated bound) (P.times (P.divided_by (P.of_u64 n) coordinate_scale) width) in
      let high =
        P.plus (negated bound) (P.times (P.divided_by (P.of_u64 (n + 1)) coordinate_scale) width) in
      clamp (P.divided_by (P.plus low high) (P.literal "2")) (negated bound) bound

  -- `none` for a score that is no cell.
  unfoldable pub decode_coordinates : P.Double → Option (Coordinates P.Double)
  decode_coordinates score =
      if (P.is_nan score || P.is_inf score)
        || (P.lt score P.zero_double || not (P.lt score (P.of_u64 (2 ^ 63))))
      then none
      else (let (longitude, latitude) = cell_parts (P.to_u64 score) in
          some (record {
            longitude = middle longitude (P.literal "180") (P.literal "360");
            latitude = middle latitude max_latitude (P.times (P.literal "2") max_latitude);
          }))

  -- `none` stands for the 0 of a unit that is not supported.
  unfoldable pub unit_in_meters : Bytes → Option P.Double
  unit_in_meters unit =
      let name = to_upper unit in
      if name =ᵇ codes "M"
      then some (P.literal "1")
      else if name =ᵇ codes "KM"
      then some (P.literal "1000")
      else if name =ᵇ codes "MI"
      then some (P.literal "1609.34")
      else if name =ᵇ codes "FT"
      then some (P.literal "0.3048")
      else none

  unfoldable pub distance_in_meters : Coordinates P.Double → Coordinates P.Double → P.Double
  unfolding clamp
  distance_in_meters first second =
      let radians = P.divided_by P.pi (P.literal "180") in
      let lat1 = P.times first.latitude radians in
      let lat2 = P.times second.latitude radians in
      let sin_lat =
        P.sin (
          P.divided_by (P.times (P.minus second.latitude first.latitude) radians)
            (P.literal "2")) in
      let sin_lon = P.sin (
        P.divided_by (P.times (P.minus second.longitude first.longitude) radians)
          (P.literal "2")) in
      let haversine =
        P.plus (P.times sin_lat sin_lat)
          (P.times (P.times (P.times (P.cos lat1) (P.cos lat2)) sin_lon) sin_lon) in
      P.times (P.times (P.literal "2") earth_radius)
        (P.asin (P.sqrt (clamp haversine P.zero_double (P.literal "1"))))

  -- The entries of GEOADD: longitude, latitude, member, …; or the first failure.
  unfoldable pub read_points : List Bytes → Bytes ⊎ List (P.Double × Bytes)
  read_points (longitude ∷ latitude ∷ member ∷ rest) =
      let others = read_points rest in
      elim (parse_coordinates longitude latitude) [
        | inl failure ↦ inl failure
        | inr point ↦ elim others [
          | inl failure ↦ inl failure
          | inr entries ↦ inr ((P.of_u64 (encode_coordinates point), member) ∷ entries)
        ]
      ]
  read_points _ = inr []
