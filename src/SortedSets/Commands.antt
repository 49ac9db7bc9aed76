-- ===== src/SortedSets/Commands.antt =====
-- The handlers of store/sorted_sets.cpp over the operations of the parent module.
use mathlib.Core.Option
use true_store.Base.{
  ◌+◌, ◌-◌, ◌%◌, Bool, true, false, ◌||◌, Option, none, some, List, [], ◌∷◌, ◌==◌, if◌then◌else◌,
  length, take, drop, ℤ, pos, pos_part, ◌+ℤ◌, ◌-ℤ◌, ltb_ℤ, leb_ℤ, is_negative,
}
use true_store.Text.{Bytes, codes, ◌=ᵇ◌, to_upper}
use true_store.Dict.{Dict, find, insert, erase}
use true_store.Resp.{bulk_string, null_bulk_string, integer, array, to_bytes}
use true_store.Platform.{Platform, Doubles, Now}
use true_store.Store.Types.{
  SortedSet, Store, type_none, type_zset, error_reply, arity_error, wrong_type, not_integer,
  syntax_error,
}
use true_store.Text.Parse.{from_chars_i64}
use true_store.Store.{key_type}
use true_store.SortedSets.{
  add_all, remove_all, read_entries, set_or_empty, position, distance, format_score,
}

-- What a handler replies, or the exception that it throws after its changes.
pub data Outcome : Type 0 where
  reply : Bytes → Outcome
  thrown : Outcome

module _ (D : Doubles) where
  unfoldable pub rank_of : Bytes → SortedSet D.Double → Bytes
  rank_of member zset = elim (find member zset.scores) [
    | none ↦ to_bytes null_bulk_string
    | some score ↦
        to_bytes (integer (pos (distance D (position D (score, member) zset.ordered) zset.ordered)))
  ]

  unfoldable pub score_reply : Option D.Double → Outcome
  score_reply none = reply (to_bytes null_bulk_string)
  score_reply (some score) = elim (format_score D score) [
    | none ↦ thrown
    | some text ↦ reply (to_bytes (bulk_string text))
  ]

  -- The set that ZREM leaves, which is erased if it is empty.
  unfoldable pub store_set :
      Bytes → SortedSet D.Double → Dict (SortedSet D.Double) → Dict (SortedSet D.Double)
  store_set key zset m = elim zset.scores [ [] ↦ erase key m | _ ↦ insert key zset m ]

  -- The members, or members and scores, of the pairs of a range; `none` is an exception.
  unfoldable pub range_members : Bool → List (D.Double × Bytes) → Option (List Bytes)
  range_members with_scores [] = some []
  range_members with_scores ((score, member) ∷ rest) =
      let others = range_members with_scores rest in
      if with_scores
      then elim (format_score D score) [
        | none ↦ none
        | some text ↦ Option.map (λ ms. member ∷ text ∷ ms) others
      ]
      else Option.map (λ ms. member ∷ ms) others

  -- The pairs at the ranks from `start` to `stop`, both counted from the end if negative.
  unfoldable pub rank_range : ℤ → ℤ → List (D.Double × Bytes) → List (D.Double × Bytes)
  rank_range start stop ordered =
      let size = pos (length ordered) in
      let first = if is_negative start then start +ℤ size else start in
      let last = if is_negative stop then stop +ℤ size else stop in
      let first' = if is_negative first then pos 0 else first in
      let last' = if ltb_ℤ last (size -ℤ pos 1) then last else size -ℤ pos 1 in
      if ltb_ℤ last' first' || leb_ℤ size first'
      then []
      else take (pos_part last' + 1 - pos_part first') (drop (pos_part first') ordered)

  unfoldable pub range_reply : Option (List Bytes) → Outcome
  range_reply none = thrown
  range_reply (some members) = reply (to_bytes (array members))

module _ {P : Platform} (now : Now) where
  unfoldable pub wrong_sorted_set_type : Bytes → Store P → Bool × Store P
  wrong_sorted_set_type key s =
      let (t, s') = key_type now key s in
      (elim t [ type_none ↦ false | type_zset ↦ false | _ ↦ true ], s')

  -- ZADD with its pairs read.
  unfoldable pub zadd_entries : Bytes → Option (List (P.Double × Bytes)) → Store P → Bytes × Store P
  zadd_entries key none s = (error_reply "ERR value is not a valid float", s)
  zadd_entries key (some entries) s =
      let (wrong, s') = wrong_sorted_set_type key s in
      let zset = set_or_empty P.doubles (find key s'.sorted_sets) in
      let (added, zset') = add_all P.doubles entries zset in
      if wrong then (wrong_type, s') else (
        to_bytes (integer (pos added)),
        record s' { sorted_sets = insert key zset' s'.sorted_sets },
      )

  unfoldable pub handle_zadd : List Bytes → Store P → Bytes × Store P
  handle_zadd (_ ∷ key ∷ score ∷ member ∷ rest) s =
      if length rest % 2 == 0
      then zadd_entries key (read_entries P.doubles (score ∷ member ∷ rest)) s
      else (arity_error "zadd", s)
  handle_zadd _ s = (arity_error "zadd", s)

  unfoldable pub handle_zrank : List Bytes → Store P → Bytes × Store P
  handle_zrank (_ ∷ key ∷ member ∷ []) s =
      let (wrong, s') = wrong_sorted_set_type key s in
      if wrong then (wrong_type, s') else (
        elim (find key s'.sorted_sets) [
          | none ↦ to_bytes null_bulk_string
          | some zset ↦ rank_of P.doubles member zset
        ],
        s',
      )
  handle_zrank _ s = (arity_error "zrank", s)

  unfoldable pub handle_zcard : List Bytes → Store P → Bytes × Store P
  handle_zcard (_ ∷ key ∷ []) s =
      let (wrong, s') = wrong_sorted_set_type key s in
      let n = length (set_or_empty P.doubles (find key s'.sorted_sets)).scores in
      if wrong then (wrong_type, s') else (to_bytes (integer (pos n)), s')
  handle_zcard _ s = (arity_error "zcard", s)

  unfoldable pub handle_zscore : List Bytes → Store P → Outcome × Store P
  handle_zscore (_ ∷ key ∷ member ∷ []) s =
      let (wrong, s') = wrong_sorted_set_type key s in
      let score = find member (set_or_empty P.doubles (find key s'.sorted_sets)).scores in
      if wrong then (reply wrong_type, s') else (score_reply P.doubles score, s')
  handle_zscore _ s = (reply (arity_error "zscore"), s)

  unfoldable pub zrem_members : Bytes → List Bytes → Store P → Bytes × Store P
  zrem_members key members s = elim (find key s.sorted_sets) [
    | none ↦ (to_bytes (integer (pos 0)), s)
    | some zset ↦
        let (removed, zset') = remove_all P.doubles members zset in
        (
          to_bytes (integer (pos removed)),
          record s { sorted_sets = store_set P.doubles key zset' s.sorted_sets },
        )
  ]

  unfoldable pub handle_zrem : List Bytes → Store P → Bytes × Store P
  handle_zrem (_ ∷ key ∷ member ∷ rest) s =
      let (wrong, s') = wrong_sorted_set_type key s in
      if wrong then (wrong_type, s') else zrem_members key (member ∷ rest) s'
  handle_zrem _ s = (arity_error "zrem", s)

  unfoldable pub zrange_parsed : Bytes → Option ℤ → Option ℤ → Bool → Store P → Outcome × Store P
  zrange_parsed key none stop with_scores s = (reply not_integer, s)
  zrange_parsed key (some start) none with_scores s = (reply not_integer, s)
  zrange_parsed key (some start) (some stop) with_scores s =
      let (wrong, s') = wrong_sorted_set_type key s in
      let ordered = (set_or_empty P.doubles (find key s'.sorted_sets)).ordered in
      if wrong then (reply wrong_type, s') else (
        range_reply P.doubles
            (range_members P.doubles with_scores (rank_range P.doubles start stop ordered)),
        s',
      )

  unfoldable pub handle_zrange : List Bytes → Store P → Outcome × Store P
  handle_zrange (_ ∷ key ∷ start ∷ stop ∷ []) s =
      zrange_parsed key (from_chars_i64 start) (from_chars_i64 stop) false s
  handle_zrange (_ ∷ key ∷ start ∷ stop ∷ option ∷ []) s =
      if to_upper option =ᵇ codes "WITHSCORES"
      then zrange_parsed key (from_chars_i64 start) (from_chars_i64 stop) true s
      else (reply syntax_error, s)
  handle_zrange _ s = (reply (arity_error "zrange"), s)
