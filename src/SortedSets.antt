-- ===== src/SortedSets.antt =====
-- store/sorted_sets.cpp: the two indexes of a sorted set, and ZADD, ZRANK, ZRANGE, ZCARD, ZSCORE
-- and ZREM.
pub mod Order
pub mod Index
pub mod Agree
pub mod Rank
pub mod Commands
pub mod Stored
use true_store.Base.{
  ℕ, zero, suc, ◌+◌, ◌-◌, ◌*◌, ◌/◌, ◌%◌, ◌^◌, ◌≤◌, ◌<◌, String, ◌≡◌, refl, sym, ap, ◌∙◌, ◌≢◌, ◌↔◌,
  ◌⊎◌, inl, inr, Bool, true, false, not, ◌&&◌, ◌||◌, Option, none, some, List, [], ◌∷◌, ◌++◌, map,
  append_assoc, append-nil, arith, ltb, leb, ◌==◌, if◌then◌else◌, ltb→lt, lt→ltb, leb→le, le→leb,
  ltb-false, leb-false, ==_iff, tests, Bool-cases, Option-cases, List-cases, if_both, length,
  get_elem?, take, drop, get_or, set, replicate, All, length-append, drop-append, take-append,
  take-append-drop, length-take, length-drop, length-set, length-replicate, ℤ, pos, negsuc,
  pos_part, neg_part, sub_ℕ, ◌+ℤ◌, ◌-ℤ◌, ◌≤ℤ◌, ltb_ℤ, leb_ℤ, is_negative, of_bits, wrap_i64,
  wrap_i64_fits,
}
use true_store.Text.{
  Bytes, codes, ◌=ᵇ◌, less, toupper, tolower, to_upper, to_lower, to_upper_idem, crlf,
}
use true_store.Dict.{
  Dict, is_some, find, insert, erase, contains, keys, find-insert, find-erase, find-insert_self,
  find-erase_self, dict_laws,
}
use true_store.Resp.{
  RespType, simple_string, bulk_string, simple_error, null_bulk_string, integer, array,
  nested_array, null_array, RespTypes, nested, bulk_bytes, bulks_bytes, to_bytes, all_bytes,
  command_bytes,
}
use true_store.Platform.{Platform, Doubles, Rax, Now, StreamEntryData}
use true_store.Store.Types.{
  StreamId, Stream, SortedSet, BlockKind, list_block, stream_block, wait_block, BlockRequest, Store,
  KeyType, type_none, type_string, type_list, type_stream, type_zset, type_name, error_reply,
  arity_error, wrong_type, not_integer, syntax_error,
}
use mathlib.Core.Option
use true_store.Text.Parse.{is_space, from_chars_i64}
use true_store.Store.{key_type}

-- The order of `std::set<std::pair<double, std::string>>`: by score, then by member.
unfoldable pub pair_less : (D : Doubles) → D.Double × Bytes → D.Double × Bytes → Bool
pair_less D (a, m) (b, n) = if D.lt a b then true else if D.lt b a then false else less m n

module _ (D : Doubles) where
  -- `ordered.emplace(score, member)`: nothing happens if an equal pair is there.
  unfoldable pub emplace : D.Double × Bytes → List (D.Double × Bytes) → List (D.Double × Bytes)
  emplace p [] = p ∷ []
  emplace p (q ∷ rest) =
      let later = q ∷ emplace p rest in
      if pair_less D p q then p ∷ q ∷ rest else if pair_less D q p then later else q ∷ rest

  -- `ordered.erase(pair)`: the element that is neither before nor behind the pair.
  unfoldable pub erase_pair : D.Double × Bytes → List (D.Double × Bytes) → List (D.Double × Bytes)
  erase_pair p [] = []
  erase_pair p (q ∷ rest) =
      let later = q ∷ erase_pair p rest in
      if pair_less D p q then q ∷ rest else if pair_less D q p then later else rest

  -- `SortedSet::add`, and whether the member is new.
  unfoldable pub add : D.Double → Bytes → SortedSet D.Double → Bool × SortedSet D.Double
  add score member zset = elim (find member zset.scores) [
    | none ↦ (
      true,
      record {
        scores = insert member score zset.scores;
        ordered = emplace (score, member) zset.ordered;
      },
    )
    | some old ↦ (
      false,
      record {
        scores = insert member score zset.scores;
        ordered = emplace (score, member) (erase_pair (old, member) zset.ordered);
      },
    )
  ]

  -- One round of the loop of ZREM.
  unfoldable pub remove : Bytes → SortedSet D.Double → Bool × SortedSet D.Double
  remove member zset = elim (find member zset.scores) [
    | none ↦ (false, zset)
    | some score ↦ (
      true,
      record {
        scores = erase member zset.scores;
        ordered = erase_pair (score, member) zset.ordered;
      },
    )
  ]

  abbrev pub empty_set : SortedSet D.Double
  empty_set = record { scores = []; ordered = [] }

  abbrev pub set_or_empty : Option (SortedSet D.Double) → SortedSet D.Double
  set_or_empty none = empty_set
  set_or_empty (some zset) = zset

  -- The position of `ordered.find(pair)`; `none` is its end.
  unfoldable pub position : D.Double × Bytes → List (D.Double × Bytes) → Option ℕ
  position p [] = none
  position p (q ∷ rest) =
      let later = Option.map suc (position p rest) in
      if pair_less D p q then none else if pair_less D q p then later else some 0

  -- `std::distance(ordered.begin(), position)`.
  abbrev pub distance : Option ℕ → List (D.Double × Bytes) → ℕ
  distance none ordered = length ordered
  distance (some n) ordered = n

  -- The loop of ZADD: the set and how many members were added.
  unfoldable pub add_all : List (D.Double × Bytes) → SortedSet D.Double → ℕ × SortedSet D.Double
  add_all [] zset = (0, zset)
  add_all ((score, member) ∷ rest) zset =
      let (inserted, zset') = add score member zset in
      let (n, zset'') = add_all rest zset' in ((if inserted then suc n else n), zset'')

  unfoldable pub remove_all : List Bytes → SortedSet D.Double → ℕ × SortedSet D.Double
  remove_all [] zset = (0, zset)
  remove_all (member ∷ rest) zset =
      let (removed, zset') = remove member zset in
      let (n, zset'') = remove_all rest zset' in ((if removed then suc n else n), zset'')

  -- `parse_score`: no white space in front, all read, and no NaN.
  unfoldable pub parse_score : Bytes → Option D.Double
  parse_score [] = none
  parse_score (c ∷ s) = if is_space c then none else elim (D.stod (c ∷ s)) [
    | none ↦ none
    | some (score, consumed) ↦
        if consumed == length (c ∷ s) && not (D.is_nan score) then some score else none
  ]

  -- The pairs of ZADD: score, member, score, member, …
  unfoldable pub read_entries : List Bytes → Option (List (D.Double × Bytes))
  unfolding parse_score
  read_entries [] = some []
  read_entries (score ∷ []) = none
  read_entries (score ∷ member ∷ rest) =
      let others = read_entries rest in
      elim (parse_score score) [
        | none ↦ none
        | some value ↦ Option.map (λ es. (value, member) ∷ es) others
      ]

  -- `format_score`; `none` is the exception that it throws.
  unfoldable pub format_score : D.Double → Option Bytes
  format_score score =
      if not (D.lt score D.zero_double || D.lt D.zero_double score)
      then some (codes "0")
      else if D.is_inf score
      then (if D.lt score D.zero_double then some (codes "-inf") else some (codes "inf"))
      else D.to_chars score
