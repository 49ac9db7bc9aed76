-- ===== src/Sound/Reads.antt =====
-- The remaining handlers that leave sorted sets, lists, streams and passwords as they are: reads of
-- lists and streams, replication, subscriptions.
use true_store.Base.{
  ◌⊎◌, inl, inr, zero, suc, Option, none, some, List, [], ◌∷◌, arith, ℤ, pos, negsuc, if_both,
}
use true_store.Text.{Bytes}
use true_store.Text.Parse.{stoll}
use true_store.Dict.{keys, find, insert, erase}
use true_store.Platform.{Platform}
use true_store.Store.Types.{Store, StreamId}
use true_store.Client.{ClientState}
use true_store.Sound.{SameParts}
use true_store.Sound.Frames.{same, then_same}
use true_store.Lists.{handle_llen, range_parsed, handle_lrange}
use true_store.Streams.Commands.{with_bounds, xrange_counted, handle_xrange}
use true_store.Streams.{parse_range_start, parse_range_end}
use true_store.Streams.Read.{
  ReadOptions, OptionsResult, xread_from, xread_streams, handle_xread, options_read, options_error,
}
use true_store.Replication.{handle_info, handle_replconf, handle_psync, wait_parsed, handle_wait}
use true_store.Setup.{handle_config_get}
use true_store.PubSub.{
  subscribe_all, handle_subscribe, unsubscribe_all, leave_channels, handle_unsubscribe,
  handle_publish, remove_subscriber, fd_insert, fds_of, leave,
}

module _ {P : Platform} where
  pub llen-Same : (args : List Bytes) (s : Store P) → SameParts s (handle_llen args s).1
  unfolding handle_llen
  llen-Same (w ∷ key ∷ []) s = same s
  llen-Same _ s = same s

  range_parsed-Same :
      (key : Bytes) (start stop : Option ℤ) (s : Store P)
      → SameParts s (range_parsed key start stop s).1
  unfolding range_parsed
  range_parsed-Same key none stop s = same s
  range_parsed-Same key (some start) none s = same s
  range_parsed-Same key (some start) (some stop) s = same s

  pub lrange-Same : (args : List Bytes) (s : Store P) → SameParts s (handle_lrange args s).1
  unfolding handle_lrange
  lrange-Same (w ∷ key ∷ start ∷ stop ∷ []) s = range_parsed-Same key _ _ s
  lrange-Same _ s = same s

  bounds-Same :
      (start end : Option StreamId) (k : StreamId → StreamId → Bytes × Store P) (s : Store P)
      → ((a b : StreamId) → SameParts s (k a b).1)
      → SameParts s (with_bounds start end k s).1
  bounds-Same (some start) (some end) k s h = h start end
  bounds-Same (some start) none k s h = same s
  bounds-Same none end k s h = same s

  counted-Same :
      (key : Bytes) (start end : StreamId) (count : Option ℤ) (s : Store P)
      → SameParts s (xrange_counted key start end count s).1
  unfolding xrange_counted
  counted-Same key start end none s = same s
  counted-Same key start end (some (negsuc n)) s = same s
  counted-Same key start end (some (pos zero)) s = same s
  counted-Same key start end (some (pos (suc n))) s = same s

  pub xrange-Same : (args : List Bytes) (s : Store P) → SameParts s (handle_xrange args s).1
  unfolding handle_xrange
  xrange-Same (w ∷ key ∷ start ∷ end ∷ []) s =
      bounds-Same (parse_range_start start) (parse_range_end end) _ s (λ a b. same s)
  xrange-Same (w ∷ key ∷ start ∷ end ∷ option ∷ count ∷ []) s =
      bounds-Same (parse_range_start start) (parse_range_end end) _ s
        (λ a b. ground (arith, counted-Same key a b (stoll count) s))
  xrange-Same _ s = same s

  xread_from-Same :
      (o : ReadOptions P.Double) (ks : List Bytes) (ids : List StreamId) (s : Store P)
      → SameParts s (xread_from o ks ids s).1
  unfolding xread_from
  xread_from-Same o ks ids s = ground arith

  started-Same :
      (o : ReadOptions P.Double) (ks : List Bytes) (ids : List StreamId ⊎ Bytes) (s : Store P)
      → SameParts s
          (elim ids as (λ x. Bytes × Store P) [
            | inl started ↦ xread_from o ks started s
            | inr error ↦ (error, s)
          ]).1
  started-Same o ks (inl ids) s = xread_from-Same o ks ids s
  started-Same o ks (inr error) s = same s

  xread_streams-Same :
      (o : ReadOptions P.Double) (words : List Bytes) (s : Store P)
      → SameParts s (xread_streams o words s).1
  unfolding xread_streams
  xread_streams-Same o words s =
      if_both (λ (r : Bytes × Store P). SameParts s r.1) _ (same s) (started-Same o _ _ s)

  options-Same :
      (options : OptionsResult P.Double) (s t : Store P)
      → SameParts s t
      → SameParts s
          (elim options as (λ x. Bytes × Store P) [
            | options_read o words ↦ xread_streams o words t
            | options_error error ↦ (error, t)
          ]).1
  options-Same (options_read o words) s t h =
      then_same s t (xread_streams o words t).1 h (xread_streams-Same o words t)
  options-Same (options_error error) s t h = h

  pub xread-Same : (args : List Bytes) (s : Store P) → SameParts s (handle_xread args s).1
  unfolding handle_xread
  xread-Same args s = options-Same _ s (record s { pending_block = none }) (ground arith)

  pub info-Same : (args : List Bytes) (s : Store P) → SameParts s (handle_info args s).1
  unfolding handle_info
  info-Same args s = same s

  pub replconf-Same : (args : List Bytes) (s : Store P) → SameParts s (handle_replconf args s).1
  unfolding handle_replconf
  replconf-Same args s = same s

  pub psync-Same : (args : List Bytes) (s : Store P) → SameParts s (handle_psync args s).1
  unfolding handle_psync
  psync-Same args s = same s

  wait_parsed-Same :
      (replicas timeout : Option ℤ) (s : Store P) → SameParts s (wait_parsed replicas timeout s).1
  unfolding wait_parsed
  wait_parsed-Same (some n) (some t) s = ground arith
  wait_parsed-Same _ _ s = same s

  pub wait-Same : (args : List Bytes) (s : Store P) → SameParts s (handle_wait args s).1
  unfolding handle_wait
  wait-Same (w ∷ replicas ∷ timeout ∷ []) s = wait_parsed-Same (stoll replicas) (stoll timeout) s
  wait-Same _ s = same s

  pub config-Same : (args : List Bytes) (s : Store P) → SameParts s (handle_config_get args s).1
  unfolding handle_config_get
  config-Same (w ∷ get ∷ param ∷ []) s = ground arith
  config-Same _ s = same s

  subscribe_all-Same :
      (channels : List Bytes) (c : ClientState) (s : Store P)
      → SameParts s (subscribe_all channels c s).1.1
  unfolding subscribe_all
  subscribe_all-Same [] c s = same s
  subscribe_all-Same (channel ∷ rest) c s =
      let joined : ClientState = record c { subscriptions = insert channel tt c.subscriptions } in
      let added : Store P = record s {
        subscribers =
            insert channel (fd_insert c.fd (fds_of (find channel s.subscribers))) s.subscribers;
      } in
      then_same s added (subscribe_all rest joined added).1.1 (ground arith)
        (subscribe_all-Same rest joined added)

  pub subscribe-Same :
      (args : List Bytes) (c : ClientState) (s : Store P)
      → SameParts s (handle_subscribe args c s).1.1
  unfolding handle_subscribe
  subscribe-Same (w ∷ channel ∷ rest) c s = subscribe_all-Same (channel ∷ rest) c s
  subscribe-Same _ c s = same s

  unsubscribe_all-Same :
      (channels : List Bytes) (c : ClientState) (s : Store P)
      → SameParts s (unsubscribe_all channels c s).1.1
  unfolding unsubscribe_all
  unsubscribe_all-Same [] c s = same s
  unsubscribe_all-Same (channel ∷ rest) c s =
      let left : ClientState = record c { subscriptions = erase channel c.subscriptions } in
      let kept : Store P = record s { subscribers = leave c.fd channel s.subscribers } in
      then_same s kept (unsubscribe_all rest left kept).1.1 (ground arith)
        (unsubscribe_all-Same rest left kept)

  leave-Same :
      (channels : List Bytes) (c : ClientState) (s : Store P)
      → SameParts s (leave_channels channels c s).1.1
  unfolding leave_channels
  leave-Same [] c s = same s
  leave-Same (channel ∷ rest) c s = unsubscribe_all-Same (channel ∷ rest) c s

  pub unsubscribe-Same :
      (args : List Bytes) (c : ClientState) (s : Store P)
      → SameParts s (handle_unsubscribe args c s).1.1
  unfolding handle_unsubscribe
  unsubscribe-Same (w ∷ channel ∷ rest) c s = leave-Same (channel ∷ rest) c s
  unsubscribe-Same [] c s = leave-Same (keys c.subscriptions) c s
  unsubscribe-Same (w ∷ []) c s = leave-Same (keys c.subscriptions) c s

  pub publish-Same : (args : List Bytes) (s : Store P) → SameParts s (handle_publish args s).1
  unfolding handle_publish
  publish-Same (w ∷ channel ∷ text ∷ []) s = ground arith
  publish-Same _ s = same s

  pub removed-Same : (fd : ℤ) (s : Store P) → SameParts s (remove_subscriber fd s)
  unfolding remove_subscriber
  removed-Same fd s = ground arith
