-- ===== src/PubSub/Delivered.antt =====
-- PUBLISH of pubsub/pubsub.cpp: the messages that each descriptor gets.
use true_store.Base.{
  ℕ, ◌+◌, ◌≡◌, refl, sym, ap, ◌∙◌, inl, inr, Bool, true, false, List, [], ◌∷◌, ◌++◌, map,
  append-nil, arith, All, if◌then◌else◌, Bool-cases, Option-cases, if_both, length, length-append,
  ℤ, pos, ltb_ℤ,
}
use true_store.Text.{Bytes, codes, ◌=ᵇ◌}
use true_store.Dict.{Dict, contains, find, insert, find-insert}
use true_store.Resp.{integer, array, to_bytes}
use true_store.Platform.{Platform}
use true_store.Store.Types.{Store}
use true_store.Client.{ClientState}
use true_store.PubSub.{
  same_fd, fd_insert, fd_erase, fds_of, leave, subscribe_all, unsubscribe_all, leave_channels,
  handle_subscribe, handle_unsubscribe, handle_publish,
}
use true_store.PubSub.Subscribers.{has_fd, subscribed, Linked, same_eq, find-store_fds}

-- The messages for one descriptor, in the order in which they are sent.
unfoldable pub inbox : ℤ → List (ℤ × Bytes) → List Bytes
inbox d [] = []
inbox d ((fd, message) ∷ messages) =
    let rest = inbox d messages in if same_fd d fd then message ∷ rest else rest

-- Descriptors as a `std::set` has them: in order, each once.
unfoldable pub Ascending : List ℤ → Type 0
Ascending [] = Unit
Ascending (e ∷ l) = All (λ x. ltb_ℤ e x ≡ true) l × Ascending l

-- So it is with every channel of the table.
abbrev pub AllAscending : Dict (List ℤ) → Type 0
AllAscending m = (j : Bytes) → Ascending (fds_of (find j m))

inbox-append : (d : ℤ) (a b : List (ℤ × Bytes)) → inbox d (a ++ b) ≡ inbox d a ++ inbox d b
unfolding inbox
inbox-append d [] b = refl
inbox-append d ((fd, message) ∷ a) b = elim (Bool-cases (same_fd d fd)) [
  | inl e ↦ rw e (ap (◌∷◌ message) (inbox-append d a b))
  | inr e ↦ rw e (inbox-append d a b)
]

above_absent : (d : ℤ) (l : List ℤ) → All (λ x. ltb_ℤ d x ≡ true) l → has_fd d l ≡ false
unfolding has_fd same_fd
above_absent d [] h = refl
above_absent d (e ∷ l) (x, h) = ground (arith, x, above_absent d l h)

inbox-map :
    (d : ℤ) (message : Bytes) (fds : List ℤ)
    → Ascending fds
    → inbox d (map (λ fd. (fd, message)) fds) ≡ (if has_fd d fds then message ∷ [] else [])
unfolding inbox Ascending has_fd
inbox-map d message [] h = refl
inbox-map d message (e ∷ l) (above, h) = elim (Bool-cases (same_fd d e)) [
  | inl same ↦
      let absent : has_fd d l ≡ false =
        ap (λ x. has_fd x l) (same_eq d e same) ∙ above_absent e l above in
      rw same (ap (◌∷◌ message) (inbox-map d message l h ∙ rw absent refl))
  | inr other ↦ rw other (inbox-map d message l h)
]

insert-above :
    (e d : ℤ) (l : List ℤ)
    → ltb_ℤ e d ≡ true
    → All (λ x. ltb_ℤ e x ≡ true) l
    → All (λ x. ltb_ℤ e x ≡ true) (fd_insert d l)
unfolding fd_insert
insert-above e d [] a h = (a, tt)
insert-above e d (x ∷ l) a (b, h) = ground (arith, a, b, h, insert-above e d l a h)

below-All :
    (d e : ℤ) (l : List ℤ)
    → ltb_ℤ d e ≡ true
    → All (λ x. ltb_ℤ e x ≡ true) l
    → All (λ x. ltb_ℤ d x ≡ true) l
below-All d e [] a h = tt
below-All d e (x ∷ l) a (b, h) = (ground (arith, a, b), below-All d e l a h)

insert-Ascending : (d : ℤ) (l : List ℤ) → Ascending l → Ascending (fd_insert d l)
unfolding Ascending fd_insert
insert-Ascending d [] h = (tt, tt)
insert-Ascending d (e ∷ l) (above, h) = elim (Bool-cases (ltb_ℤ d e)) [
  | inl front ↦ rw front ((front, below-All d e l front above), (above, h))
  | inr behind ↦ elim (Bool-cases (ltb_ℤ e d)) [
    | inl later ↦ rw (behind, later) (insert-above e d l later above, insert-Ascending d l h)
    | inr same ↦ rw (behind, same) (above, h)
  ]
]

erase-above :
    (e d : ℤ) (l : List ℤ)
    → All (λ x. ltb_ℤ e x ≡ true) l
    → All (λ x. ltb_ℤ e x ≡ true) (fd_erase d l)
unfolding fd_erase
erase-above e d [] h = tt
erase-above e d (x ∷ l) (b, h) =
    if_both (All (λ x. ltb_ℤ e x ≡ true)) (same_fd d x) (erase-above e d l h)
      (b, erase-above e d l h)

erase-Ascending : (d : ℤ) (l : List ℤ) → Ascending l → Ascending (fd_erase d l)
unfolding Ascending fd_erase
erase-Ascending d [] h = tt
erase-Ascending d (e ∷ l) (above, h) =
    if_both Ascending (same_fd d e) (erase-Ascending d l h)
      (erase-above e d l above, erase-Ascending d l h)

insert-AllAscending :
    (k : Bytes) (fds : List ℤ) (m : Dict (List ℤ))
    → Ascending fds
    → AllAscending m
    → AllAscending (insert k fds m)
insert-AllAscending k fds m a h j =
    rw (find-insert j k fds m) (elim (Bool-cases (k =ᵇ j)) [ inl e ↦ rw e a | inr e ↦ rw e (h j) ])

leave-AllAscending :
    (d : ℤ) (k : Bytes) (m : Dict (List ℤ)) → AllAscending m → AllAscending (leave d k m)
unfolding leave
leave-AllAscending d k m h j = elim (Option-cases (find k m)) [
  | inl e ↦ rw (e, leave) (h j)
  | inr (fds, e) ↦
      let held : Ascending (fds_of (find k m)) = h k in
      rw (e, leave, find-store_fds j k (fd_erase d fds) m)
        (elim (Bool-cases (k =ᵇ j)) [
          | inl same ↦ rw same (erase-Ascending d fds (rw e at held))
          | inr other ↦ rw other (h j)
        ])
]

length-addressed :
    (message : Bytes) (fds : List ℤ)
    → length {A = ℤ × Bytes} (map (λ fd. (fd, message)) fds) ≡ length fds
length-addressed message [] = refl
length-addressed message (fd ∷ fds) = omega (arith, length-addressed message fds)

module _ {P : Platform} where
  subscribe_all-AllAscending :
      (channels : List Bytes) (c : ClientState) (s : Store P)
      → AllAscending s.subscribers
      → AllAscending (subscribe_all channels c s).1.1.subscribers
  unfolding subscribe_all
  subscribe_all-AllAscending [] c s h = h
  subscribe_all-AllAscending (k ∷ rest) c s h =
      subscribe_all-AllAscending rest _ _
        (insert-AllAscending k _ s.subscribers (insert-Ascending c.fd _ (h k)) h)

  unsubscribe_all-AllAscending :
      (channels : List Bytes) (c : ClientState) (s : Store P)
      → AllAscending s.subscribers
      → AllAscending (unsubscribe_all channels c s).1.1.subscribers
  unfolding unsubscribe_all
  unsubscribe_all-AllAscending [] c s h = h
  unsubscribe_all-AllAscending (k ∷ rest) c s h =
      unsubscribe_all-AllAscending rest _ _ (leave-AllAscending c.fd k s.subscribers h)

  left-AllAscending :
      (channels : List Bytes) (c : ClientState) (s : Store P)
      → AllAscending s.subscribers
      → AllAscending (leave_channels channels c s).1.1.subscribers
  unfolding leave_channels
  left-AllAscending [] c s h = h
  left-AllAscending (k ∷ rest) c s h = unsubscribe_all-AllAscending (k ∷ rest) c s h

  -- SUBSCRIBE and UNSUBSCRIBE, with any arguments, keep each channel's descriptors in order, each
  -- once.
  pub handlers-AllAscending :
      (args : List Bytes) (c : ClientState) (s : Store P)
      → AllAscending s.subscribers
      → AllAscending (handle_subscribe args c s).1.1.subscribers
        × AllAscending (handle_unsubscribe args c s).1.1.subscribers
  unfolding handle_subscribe handle_unsubscribe
  handlers-AllAscending [] c s h = (h, left-AllAscending _ c s h)
  handlers-AllAscending (w ∷ []) c s h = (h, left-AllAscending _ c s h)
  handlers-AllAscending (w ∷ k ∷ rest) c s h =
      (subscribe_all-AllAscending (k ∷ rest) c s h, left-AllAscending (k ∷ rest) c s h)

  -- PUBLISH leaves for every descriptor what was queued for it, and behind that the message once if
  -- the descriptor is a subscriber of the channel, and nothing if it is not; a client whose channels
  -- agree with the table gets it exactly if it has the channel. The reply is the number of messages
  -- that have been queued. Each channel's descriptors are in order, each once.
  pub publish_delivers :
      (word channel text : Bytes) (c : ClientState) (s : Store P)
      → Linked c s
      → AllAscending s.subscribers
      → let r = handle_publish (word ∷ channel ∷ text ∷ []) s in
        let message = to_bytes (array (codes "message" ∷ channel ∷ text ∷ [])) in
        ((d : ℤ)
          → inbox d r.1.pending_messages
            ≡ inbox d s.pending_messages
              ++ (if subscribed d channel s.subscribers then message ∷ [] else []))
        × (inbox c.fd r.1.pending_messages
            ≡ inbox c.fd s.pending_messages
              ++ (if contains channel c.subscriptions then message ∷ [] else []))
        × ((n : ℕ) × (r.0 ≡ to_bytes (integer (pos n)))
            × (length r.1.pending_messages ≡ length s.pending_messages + n))
  unfolding handle_publish
  publish_delivers word channel text c s linked sorted =
      let fds = fds_of (find channel s.subscribers) in
      let message = to_bytes (array (codes "message" ∷ channel ∷ text ∷ [])) in
      let addressed : List (ℤ × Bytes) = map (λ fd. (fd, message)) fds in
      let r = handle_publish (word ∷ channel ∷ text ∷ []) s in
      let queued : r.1.pending_messages ≡ s.pending_messages ++ addressed =
        ground (arith, append-nil s.pending_messages) in
      let one = λ (d : ℤ).
        ap (inbox d) queued
        ∙ inbox-append d s.pending_messages addressed
        ∙ ap (◌++◌ (inbox d s.pending_messages)) (inbox-map d message fds (sorted channel)) in
      (
        one,
        one c.fd
            ∙ ap (λ (b : Bool). inbox c.fd s.pending_messages ++ (if b then message ∷ [] else []))
                (sym (linked channel)),
        (
          length fds,
          ground arith,
          omega (
            arith,
            ap (length {A = ℤ × Bytes}) queued,
            length-append s.pending_messages addressed,
            length-addressed message fds,
          ),
        ),
      )
