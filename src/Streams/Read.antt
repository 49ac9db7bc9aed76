-- ===== src/Streams/Read.antt =====
-- XREAD: the options in front of STREAMS, the keys and IDs behind it, and blocking.
use true_store.Base.{
  ℕ, ◌/◌, ◌%◌, ◌⊎◌, inl, inr, Bool, not, ◌||◌, Option, none, some, List, [], ◌∷◌, ◌==◌,
  if◌then◌else◌, length, take, drop, ℤ, pos, negsuc,
}
use true_store.Text.{Bytes, codes, ◌=ᵇ◌, to_upper}
use true_store.Dict.{find, contains}
use true_store.Resp.{null_array, to_bytes}
use true_store.Platform.{Platform, Doubles}
use true_store.Store.Types.{
  StreamId, stream_block, Store, error_reply, wrong_type, not_integer, syntax_error,
}
use true_store.Text.Parse.{stoll}
use true_store.Streams.{parse_read_id}
use true_store.Streams.Commands.{try_xread, invalid_stream_id}

-- What the options say: how many entries, and how long to wait.
pub record ReadOptions (Double : Type 0) : Type 0 where
  pub count : ℕ
  pub blocking : Option Double

-- The options up to STREAMS and the arguments behind it, or the reply of an error.
pub data OptionsResult (Double : Type 0) : Type 0 where
  options_read : ReadOptions Double → List Bytes → OptionsResult Double
  options_error : Bytes → OptionsResult Double

unfoldable pub negative_timeout : Bytes
unfolding error_reply
negative_timeout = error_reply "ERR timeout is negative"

unfoldable pub bad_timeout : Bytes
unfolding error_reply
bad_timeout = error_reply "ERR timeout is not an integer or out of range"

unfoldable pub unbalanced : Bytes
unfolding error_reply
unbalanced =
    error_reply
      "ERR Unbalanced XREAD list of streams: for each stream key an ID or '$' must be specified."

module _ (D : Doubles) where
  -- One option with its number; `none` is an exception of `std::stoll`.
  unfoldable pub read_option : Bool → Option ℤ → ReadOptions D.Double → ReadOptions D.Double ⊎ Bytes
  read_option is_count (some (pos n)) o =
      if is_count
      then inl (record o { count = n })
      else inl (record o { blocking = some (D.seconds_of_ms (pos n)) })
  read_option is_count (some (negsuc n)) o =
      if is_count then inl (record o { count = 0 }) else inr negative_timeout
  read_option is_count none o = inr (if is_count then not_integer else bad_timeout)

  -- The `while` loop over the options.
  unfoldable pub read_options : List Bytes → ReadOptions D.Double → OptionsResult D.Double
  read_options [] o = options_error syntax_error
  read_options (word ∷ []) o =
      if to_upper word =ᵇ codes "STREAMS" then options_read o [] else options_error syntax_error
  read_options (word ∷ number ∷ rest) o =
      let after = λ (p : ReadOptions D.Double). read_options rest p in
      let is_count = to_upper word =ᵇ codes "COUNT" in
      if to_upper word =ᵇ codes "STREAMS"
      then options_read o (number ∷ rest)
      else if is_count || (to_upper word =ᵇ codes "BLOCK")
      then (elim (read_option is_count (stoll number) o) [
        | inl p ↦ after p
        | inr error ↦ options_error error
      ])
      else options_error syntax_error

module _ {P : Platform} where
  -- The ID behind which to read: `$` is the greatest of the stream, 0-0 where there is none.
  unfoldable pub start_id : Bytes → Bytes → Store P → Option StreamId
  start_id key text s =
      let zero_id : StreamId = record { milliseconds = 0; sequence = 0 } in
      if text =ᵇ codes "$"
      then some (elim (find key s.streams) [
        | none ↦ zero_id
        | some stream ↦ if stream.has_max_id then stream.max_id else zero_id
      ])
      else parse_read_id text

  -- The loop over the keys and their IDs; the first of a wrong type or a bad ID ends it.
  unfoldable pub start_ids : List Bytes → List Bytes → Store P → List StreamId ⊎ Bytes
  start_ids (key ∷ ks) (text ∷ texts) s =
      let others = start_ids ks texts s in
      if contains key s.sorted_sets then inr wrong_type else (elim (start_id key text s) [
        | none ↦ inr invalid_stream_id
        | some id ↦ elim others [ inl ids ↦ inl (id ∷ ids) | inr error ↦ inr error ]
      ])
  start_ids _ _ s = inl []

  -- XREAD of the streams with their start IDs; an empty reply leaves the client waiting.
  unfoldable pub xread_from :
      ReadOptions P.Double → List Bytes → List StreamId → Store P → Bytes × Store P
  xread_from o ks ids s = elim (try_xread ks ids o.count s) [
    | some reply ↦ (reply, s)
    | none ↦ elim o.blocking [
      | none ↦ (to_bytes null_array, s)
      | some timeout ↦ (
        [],
        record s {
          pending_block = some (record {
            kind = stream_block;
            keys = ks;
            ids = ids;
            count = o.count;
            timeout = timeout;
          });
        },
      )
    ]
  ]

  unfoldable pub xread_streams : ReadOptions P.Double → List Bytes → Store P → Bytes × Store P
  xread_streams o words s =
      let total = length words / 2 in
      if (length words == 0) || not (length words % 2 == 0)
      then (unbalanced, s)
      else (elim (start_ids (take total words) (drop total words) s) [
        | inl ids ↦ xread_from o (take total words) ids s
        | inr error ↦ (error, s)
      ])

  unfoldable pub handle_xread : List Bytes → Store P → Bytes × Store P
  handle_xread args s =
      let t = record s { pending_block = none } in
      elim (read_options P.doubles (drop 1 args) (record { count = 0; blocking = none })) [
        | options_read o words ↦ xread_streams o words t
        | options_error error ↦ (error, t)
      ]
