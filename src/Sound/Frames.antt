-- ===== src/Sound/Frames.antt =====
-- The handlers that leave sorted sets, lists, streams and passwords as they are.
use true_store.Base.{◌⊎◌, inl, inr, Bool, true, Option, none, some, List, [], ◌∷◌, arith, ℤ}
use true_store.Text.{Bytes}
use true_store.Platform.{Platform, Now}
use true_store.Store.Types.{Store}
use true_store.Sound.{SameParts}
use true_store.Store.{is_expired, key_type, handle_type, match_keys, handle_keys, peek}
use true_store.Text.Parse.{from_chars_i64}
use true_store.Bitmaps.{
  handle_setbit, setbit_parsed, handle_getbit, getbit_parsed, count_reply, bitcount_parsed,
  handle_bitcount, read_sources,
}
use true_store.SortedSets.Commands.{
  wrong_sorted_set_type, handle_zrank, handle_zcard, handle_zscore, zrange_parsed, handle_zrange,
}
use true_store.Geospatial.Commands.{handle_geopos, geodist_in, handle_geodist}
use true_store.Geospatial.Queries.{Query, no_query, read_query, search_query, handle_geosearch}
use true_store.Strings.{wrong_string_type, handle_get, handle_strlen, handle_incr, incr_value}

module _ {P : Platform} where
  pub same : (s : Store P) → SameParts s s
  same s = ground arith

  pub then_same : (s t u : Store P) → SameParts s t → SameParts t u → SameParts s u
  then_same s t u p q = ground arith

module _ {P : Platform} (now : Now) where
  pub is_expired-Same : (key : Bytes) (s : Store P) → SameParts s (is_expired now key s).1
  unfolding is_expired
  is_expired-Same key s = ground arith

  pub peek-Same : (key : Bytes) (s : Store P) → SameParts s (peek now key s).1
  unfolding peek
  peek-Same key s = ground (arith, is_expired-Same key s)

  pub key_type-Same : (key : Bytes) (s : Store P) → SameParts s (key_type now key s).1
  unfolding key_type
  key_type-Same key s = ground (arith, is_expired-Same key s)

  pub string_type-Same : (key : Bytes) (s : Store P) → SameParts s (wrong_string_type now key s).1
  unfolding wrong_string_type
  string_type-Same key s = key_type-Same key s

  pub type-Same : (args : List Bytes) (s : Store P) → SameParts s (handle_type now args s).1
  unfolding handle_type
  type-Same (w ∷ key ∷ []) s = key_type-Same key s
  type-Same _ s = same s

  match_keys-Same :
      (pattern : Bytes) (ks : List Bytes) (s : Store P)
      → SameParts s (match_keys now pattern ks s).1
  unfolding match_keys
  match_keys-Same pattern [] s = same s
  match_keys-Same pattern (key ∷ ks) s =
      let t = (is_expired now key s).1 in
      then_same s t (match_keys now pattern ks t).1 (is_expired-Same key s)
        (match_keys-Same pattern ks t)

  pub keys-Same : (args : List Bytes) (s : Store P) → SameParts s (handle_keys now args s).1
  unfolding handle_keys
  keys-Same (w ∷ pattern ∷ []) s = match_keys-Same pattern _ s
  keys-Same _ s = same s

  pub get-Same : (args : List Bytes) (s : Store P) → SameParts s (handle_get now args s).1
  unfolding handle_get
  get-Same (w ∷ key ∷ []) s = ground (arith, is_expired-Same key s)
  get-Same _ s = same s

  pub strlen-Same : (args : List Bytes) (s : Store P) → SameParts s (handle_strlen now args s).1
  unfolding handle_strlen
  strlen-Same (w ∷ key ∷ []) s = ground (arith, string_type-Same key s)
  strlen-Same _ s = same s

pub incr-Same :
    {P : Platform} (args : List Bytes) (s : Store P) → SameParts s (handle_incr args s).1
unfolding handle_incr incr_value
incr-Same (w ∷ key ∷ []) s = ground arith
incr-Same _ s = same s

module _ {P : Platform} (now : Now) where
  pub setbit-Same : (args : List Bytes) (s : Store P) → SameParts s (handle_setbit now args s).1
  unfolding handle_setbit setbit_parsed
  setbit-Same (w ∷ key ∷ offset ∷ bit ∷ []) s = ground (arith, string_type-Same now key s)
  setbit-Same _ s = same s

  pub getbit-Same : (args : List Bytes) (s : Store P) → SameParts s (handle_getbit now args s).1
  unfolding handle_getbit getbit_parsed
  getbit-Same (w ∷ key ∷ offset ∷ []) s = ground (arith, string_type-Same now key s)
  getbit-Same _ s = same s

  count_reply-Same :
      (key : Bytes) (start end : ℤ) (bits : Bool) (s : Store P)
      → SameParts s (count_reply now key start end bits s).1
  unfolding count_reply
  count_reply-Same key start end bits s = ground (arith, string_type-Same now key s)

  bitcount_parsed-Same :
      (key : Bytes) (start end : Option ℤ) (unit : Option Bool) (s : Store P)
      → SameParts s (bitcount_parsed now key start end unit s).1
  unfolding bitcount_parsed
  bitcount_parsed-Same key (some start) (some end) (some bits) s =
      count_reply-Same key start end bits s
  bitcount_parsed-Same key (some start) (some end) none s = same s
  bitcount_parsed-Same key (some start) none unit s = same s
  bitcount_parsed-Same key none end unit s = same s

  pub bitcount-Same : (args : List Bytes) (s : Store P) → SameParts s (handle_bitcount now args s).1
  unfolding handle_bitcount
  bitcount-Same (w ∷ key ∷ []) s = count_reply-Same key _ _ _ s
  bitcount-Same (w ∷ key ∷ start ∷ end ∷ []) s = bitcount_parsed-Same key _ _ _ s
  bitcount-Same (w ∷ key ∷ start ∷ end ∷ unit ∷ []) s = bitcount_parsed-Same key _ _ _ s
  bitcount-Same _ s = same s

  pub sources-Same : (ks : List Bytes) (s : Store P) → SameParts s (read_sources now ks s).1
  unfolding read_sources
  sources-Same [] s = same s
  sources-Same (key ∷ ks) s =
      ground (arith, string_type-Same now key s, sources-Same ks (wrong_string_type now key s).1)

  pub set_type-Same : (key : Bytes) (s : Store P) → SameParts s (wrong_sorted_set_type now key s).1
  unfolding wrong_sorted_set_type
  set_type-Same key s = key_type-Same now key s

  pub zrank-Same : (args : List Bytes) (s : Store P) → SameParts s (handle_zrank now args s).1
  unfolding handle_zrank
  zrank-Same (w ∷ key ∷ member ∷ []) s = ground (arith, set_type-Same key s)
  zrank-Same _ s = same s

  pub zcard-Same : (args : List Bytes) (s : Store P) → SameParts s (handle_zcard now args s).1
  unfolding handle_zcard
  zcard-Same (w ∷ key ∷ []) s = ground (arith, set_type-Same key s)
  zcard-Same _ s = same s

  pub zscore-Same : (args : List Bytes) (s : Store P) → SameParts s (handle_zscore now args s).1
  unfolding handle_zscore
  zscore-Same (w ∷ key ∷ member ∷ []) s = ground (arith, set_type-Same key s)
  zscore-Same _ s = same s

  zrange_parsed-Same :
      (key : Bytes) (start stop : Option ℤ) (scores : Bool) (s : Store P)
      → SameParts s (zrange_parsed now key start stop scores s).1
  unfolding zrange_parsed
  zrange_parsed-Same key none stop scores s = same s
  zrange_parsed-Same key (some start) none scores s = same s
  zrange_parsed-Same key (some start) (some stop) scores s = ground (arith, set_type-Same key s)

  pub zrange-Same : (args : List Bytes) (s : Store P) → SameParts s (handle_zrange now args s).1
  unfolding handle_zrange
  zrange-Same (w ∷ key ∷ start ∷ stop ∷ []) s = zrange_parsed-Same key _ _ _ s
  zrange-Same (w ∷ key ∷ start ∷ stop ∷ option ∷ []) s =
      ground (arith, zrange_parsed-Same key (from_chars_i64 start) (from_chars_i64 stop) true s)
  zrange-Same _ s = same s

  pub geopos-Same : (args : List Bytes) (s : Store P) → SameParts s (handle_geopos now args s).1
  unfolding handle_geopos
  geopos-Same (w ∷ key ∷ members) s = ground (arith, set_type-Same key s)
  geopos-Same _ s = same s

  geodist_in-Same :
      (unit : Option P.Double) (key first second : Bytes) (s : Store P)
      → SameParts s (geodist_in now unit key first second s).1
  unfolding geodist_in
  geodist_in-Same none key first second s = same s
  geodist_in-Same (some unit) key first second s = ground (arith, set_type-Same key s)

  pub geodist-Same : (args : List Bytes) (s : Store P) → SameParts s (handle_geodist now args s).1
  unfolding handle_geodist
  geodist-Same (w ∷ key ∷ first ∷ second ∷ []) s = geodist_in-Same _ key first second s
  geodist-Same (w ∷ key ∷ first ∷ second ∷ unit ∷ []) s = geodist_in-Same _ key first second s
  geodist-Same _ s = same s

  search_query-Same :
      (key : Bytes) (q : Bytes ⊎ Query P.Double) (s : Store P)
      → SameParts s (search_query now key q s).1
  unfolding search_query
  search_query-Same key (inl failure) s = same s
  search_query-Same key (inr q) s = ground arith

  pub geosearch-Same :
      (args : List Bytes) (s : Store P) → SameParts s (handle_geosearch now args s).1
  unfolding handle_geosearch
  geosearch-Same (w ∷ key ∷ a ∷ b ∷ c ∷ d ∷ e ∷ rest) s =
      let t = (wrong_sorted_set_type now key s).1 in
      let query = read_query P 0 (a ∷ b ∷ c ∷ d ∷ e ∷ rest) (no_query P) in
      ground (arith, set_type-Same key s, search_query-Same key query t)
  geosearch-Same _ s = same s
