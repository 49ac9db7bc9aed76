-- ===== src/PubSub.antt =====
-- pubsub/pubsub.cpp: channels, and the messages that the server sends after a command.
pub mod Subscribers
pub mod Delivered
use true_store.Base.{
  ℕ, zero, suc, ◌+◌, ◌-◌, ◌*◌, ◌/◌, ◌%◌, ◌^◌, ◌≤◌, ◌<◌, String, ◌≡◌, refl, sym, ap, ◌∙◌, ◌≢◌, ◌↔◌,
  ◌⊎◌, inl, inr, Bool, true, false, not, ◌&&◌, ◌||◌, Option, none, some, List, [], ◌∷◌, ◌++◌, map,
  append_assoc, append-nil, arith, ltb, leb, ◌==◌, if◌then◌else◌, ltb→lt, lt→ltb, leb→le, le→leb,
  ltb-false, leb-false, ==_iff, tests, Bool-cases, Option-cases, List-cases, if_both, length,
  get_elem?, take, drop, get_or, set, replicate, All, length-append, drop-append, take-append,
  take-append-drop, length-take, length-drop, length-set, length-replicate, ℤ, pos, negsuc,
  pos_part, neg_part, sub_ℕ, ◌+ℤ◌, ◌-ℤ◌, ◌≤ℤ◌, ltb_ℤ, leb_ℤ, is_negative, of_bits, wrap_i64,
  wrap_i64_fits,
}
use true_store.Text.{
  Bytes, codes, ◌=ᵇ◌, less, toupper, tolower, to_upper, to_lower, to_upper_idem, crlf,
}
use true_store.Dict.{
  Dict, is_some, find, insert, erase, contains, keys, find-insert, find-erase, find-insert_self,
  find-erase_self, dict_laws,
}
use true_store.Resp.{
  RespType, simple_string, bulk_string, simple_error, null_bulk_string, integer, array,
  nested_array, null_array, RespTypes, nested, bulk_bytes, bulks_bytes, to_bytes, all_bytes,
  command_bytes,
}
use true_store.Platform.{Platform, Doubles, Rax, Now, StreamEntryData}
use true_store.Store.Types.{
  StreamId, Stream, SortedSet, BlockKind, list_block, stream_block, wait_block, BlockRequest, Store,
  KeyType, type_none, type_string, type_list, type_stream, type_zset, type_name, error_reply,
  arity_error, wrong_type, not_integer, syntax_error,
}
use true_store.Client.{ClientState}

-- `std::set<int>`: a list in order.
unfoldable pub fd_insert : ℤ → List ℤ → List ℤ
fd_insert d [] = d ∷ []
fd_insert d (e ∷ l) =
    let rest = fd_insert d l in
    if ltb_ℤ d e then d ∷ e ∷ l else if ltb_ℤ e d then e ∷ rest else e ∷ l

unfoldable pub same_fd : ℤ → ℤ → Bool
same_fd d e = not (ltb_ℤ d e) && not (ltb_ℤ e d)

unfoldable pub fd_erase : ℤ → List ℤ → List ℤ
fd_erase d [] = []
fd_erase d (e ∷ l) = let rest = fd_erase d l in if same_fd d e then rest else e ∷ rest

unfoldable pub subscription_reply : String → RespType → ℕ → Bytes
subscription_reply kind channel count =
    to_bytes (nested_array (nested (bulk_string (codes kind) ∷ channel ∷ integer (pos count) ∷ [])))

-- The set that `subscribers_[channel]` makes or finds.
abbrev pub fds_of : Option (List ℤ) → List ℤ
fds_of none = []
fds_of (some fds) = fds

-- An empty set is erased with its key.
unfoldable pub store_fds : Bytes → List ℤ → Dict (List ℤ) → Dict (List ℤ)
store_fds channel [] m = erase channel m
store_fds channel (d ∷ fds) m = insert channel (d ∷ fds) m

-- One subscriber leaves a channel.
unfoldable pub leave : ℤ → Bytes → Dict (List ℤ) → Dict (List ℤ)
leave d channel m = elim (find channel m) [
  | none ↦ m
  | some fds ↦ store_fds channel (fd_erase d fds) m
]

module _ {P : Platform} where
  -- The loop of `handle_subscribe`: the reply, the client and the store.
  unfoldable pub subscribe_all :
      List Bytes → ClientState → Store P → Bytes × (ClientState × Store P)
  subscribe_all [] c s = ([], (c, s))
  subscribe_all (channel ∷ rest) c s =
      let joined : ClientState = record c { subscriptions = insert channel tt c.subscriptions } in
      let added : Store P = record s {
        subscribers =
            insert channel (fd_insert c.fd (fds_of (find channel s.subscribers))) s.subscribers;
      } in
      let (reply, after) = subscribe_all rest joined added in
      (
        subscription_reply "subscribe" (bulk_string channel) (length joined.subscriptions) ++ reply,
        after,
      )

  unfoldable pub handle_subscribe :
      List Bytes → ClientState → Store P → Bytes × (ClientState × Store P)
  handle_subscribe (_ ∷ channel ∷ rest) c s = subscribe_all (channel ∷ rest) c s
  handle_subscribe _ c s = (arity_error "subscribe", (c, s))

  -- The loop of `handle_unsubscribe`.
  unfoldable pub unsubscribe_all :
      List Bytes → ClientState → Store P → Bytes × (ClientState × Store P)
  unsubscribe_all [] c s = ([], (c, s))
  unsubscribe_all (channel ∷ rest) c s =
      let left : ClientState = record c { subscriptions = erase channel c.subscriptions } in
      let (reply, after) =
        unsubscribe_all rest left (record s { subscribers = leave c.fd channel s.subscribers }) in
      (
        subscription_reply "unsubscribe" (bulk_string channel) (length left.subscriptions) ++ reply,
        after,
      )

  -- The channels to leave: those named, or all that the client has.
  unfoldable pub leave_channels :
      List Bytes → ClientState → Store P → Bytes × (ClientState × Store P)
  leave_channels [] c s = (subscription_reply "unsubscribe" null_bulk_string 0, (c, s))
  leave_channels (channel ∷ rest) c s = unsubscribe_all (channel ∷ rest) c s

  unfoldable pub handle_unsubscribe :
      List Bytes → ClientState → Store P → Bytes × (ClientState × Store P)
  handle_unsubscribe (_ ∷ channel ∷ rest) c s = leave_channels (channel ∷ rest) c s
  handle_unsubscribe _ c s = leave_channels (keys c.subscriptions) c s

  unfoldable pub handle_publish : List Bytes → Store P → Bytes × Store P
  handle_publish (_ ∷ channel ∷ text ∷ []) s = elim (find channel s.subscribers) [
    | none ↦ (to_bytes (integer (pos 0)), s)
    | some fds ↦
        let message = to_bytes (array (codes "message" ∷ channel ∷ text ∷ [])) in
        (
          to_bytes (integer (pos (length fds))),
          record s { pending_messages = s.pending_messages ++ map (λ fd. (fd, message)) fds },
        )
  ]
  handle_publish _ s = (arity_error "publish", s)

-- The loop of `remove_subscriber` over the table.
unfoldable pub remove_from : ℤ → Dict (List ℤ) → Dict (List ℤ)
remove_from d [] = []
remove_from d ((channel, fds) ∷ m) =
    let rest = remove_from d m in
    elim (fd_erase d fds) [ [] ↦ rest | e ∷ es ↦ (channel, e ∷ es) ∷ rest ]

module _ {P : Platform} where
  unfoldable pub remove_subscriber : ℤ → Store P → Store P
  remove_subscriber d s = record s { subscribers = remove_from d s.subscribers }
