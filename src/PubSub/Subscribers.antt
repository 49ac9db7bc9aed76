-- ===== src/PubSub/Subscribers.antt =====
-- The client's own set of channels and the store's table of subscribers agree.
use true_store.Base.{
  ◌∙◌, ◌≡◌, refl, ap, inl, inr, Bool, true, false, not, ◌&&◌, List, [], ◌∷◌, arith, if◌then◌else◌,
  Option-cases, ℤ, pos, negsuc, ltb_ℤ,
}
use true_store.Text.{Bytes, ◌=ᵇ◌}
use true_store.Text.Equality.{eq_iff}
use true_store.Dict.{contains, Dict, find, insert, find-insert, find-erase}
use true_store.PubSub.{
  handle_unsubscribe, Store, unsubscribe_all, handle_subscribe, leave_channels, ClientState,
  subscribe_all, Platform, fd_insert, same_fd, fd_erase, fds_of, store_fds, leave,
}

-- Whether a set of descriptors has one.
unfoldable pub has_fd : ℤ → List ℤ → Bool
has_fd d [] = false
has_fd d (e ∷ l) = let rest = has_fd d l in if same_fd d e then true else rest

pub same_refl : (d : ℤ) → same_fd d d ≡ true
unfolding same_fd
same_refl d = ground arith

pub same_eq : (d e : ℤ) → same_fd d e ≡ true → d ≡ e
unfolding same_fd
same_eq (pos m) (pos n) h = ap pos (ground arith)
same_eq (pos m) (negsuc n) h = absurd (ground arith)
same_eq (negsuc m) (pos n) h = absurd (ground arith)
same_eq (negsuc m) (negsuc n) h = ap negsuc (ground arith)

pub same_sym : (d e : ℤ) → same_fd d e ≡ same_fd e d
unfolding same_fd
same_sym d e = ground arith

below_other : (d e : ℤ) → same_fd d e ≡ (not (ltb_ℤ d e) && not (ltb_ℤ e d))
unfolding same_fd
below_other d e = refl

has-fd_insert :
    (x d : ℤ) (l : List ℤ) → has_fd x (fd_insert d l) ≡ (if same_fd d x then true else has_fd x l)
unfolding has_fd fd_insert
has-fd_insert x d [] = ground (arith, same_sym d x)
has-fd_insert x d (e ∷ l) =
    ground (arith, has-fd_insert x d l, same_sym d x, below_other d e, same_eq d e)

pub has-fd_erase :
    (x d : ℤ) (l : List ℤ) → has_fd x (fd_erase d l) ≡ (if same_fd d x then false else has_fd x l)
unfolding has_fd fd_erase
has-fd_erase x d [] = ground arith
has-fd_erase x d (e ∷ l) =
    ground (arith, has-fd_erase x d l, same_sym d x, same_eq d e, same_eq x e, same_eq d x)

-- Whether a descriptor is a subscriber of a channel.
abbrev pub subscribed : ℤ → Bytes → Dict (List ℤ) → Bool
subscribed d channel m = has_fd d (fds_of (find channel m))

joined_table :
    (x d : ℤ) (j k : Bytes) (m : Dict (List ℤ))
    → subscribed x j (insert k (fd_insert d (fds_of (find k m))) m)
      ≡ (if k =ᵇ j then if same_fd d x then true else subscribed x j m else subscribed x j m)
joined_table x d j k m = ground (
  arith,
  find-insert j k (fd_insert d (fds_of (find k m))) m,
  has-fd_insert x d (fds_of (find k m)),
  eq_iff k j,
)

pub find-store_fds :
    (j k : Bytes) (fds : List ℤ) (m : Dict (List ℤ))
    → fds_of (find j (store_fds k fds m)) ≡ (if k =ᵇ j then fds else fds_of (find j m))
unfolding store_fds
find-store_fds j k [] m = ground (arith, find-erase j k m)
find-store_fds j k (d ∷ fds) m = ground (arith, find-insert j k (d ∷ fds) m)

left_table :
    (x d : ℤ) (j k : Bytes) (m : Dict (List ℤ))
    → subscribed x j (leave d k m)
      ≡ (if k =ᵇ j then if same_fd d x then false else subscribed x j m else subscribed x j m)
unfolding leave has_fd
left_table x d j k m = elim (Option-cases (find k m)) [
  | inl e ↦ ground (arith, e, eq_iff k j)
  | inr (fds, e) ↦
      ground (arith, e, find-store_fds j k (fd_erase d fds) m, has-fd_erase x d fds, eq_iff k j)
]

-- The client is a subscriber of exactly the channels that it has.
abbrev pub Linked : {P : Platform} → ClientState → Store P → Type 0
Linked c s =
    (channel : Bytes) → contains channel c.subscriptions ≡ subscribed c.fd channel s.subscribers

-- The later state of a client and the store: its own view still agrees, its descriptor is the same,
-- and no other descriptor has gained or lost a channel.
abbrev pub KeepsLinked : {P : Platform} → ClientState → Store P → ClientState × Store P → Type 0
KeepsLinked c s (d, t) =
    Linked d t
    × (d.fd ≡ c.fd)
    × ((x : ℤ) (channel : Bytes)
        → same_fd c.fd x ≡ false
        → subscribed x channel t.subscribers ≡ subscribed x channel s.subscribers)

module _ {P : Platform} where
  subscribe_all-Linked :
      (channels : List Bytes) (c : ClientState) (s : Store P)
      → Linked c s
      → KeepsLinked c s (subscribe_all channels c s).1
  unfolding subscribe_all
  subscribe_all-Linked [] c s h = (h, refl, λ x j o. refl)
  subscribe_all-Linked (k ∷ rest) c s h =
      let (l, f, others) = subscribe_all-Linked rest _ _ (λ j. ground (
        arith,
        h j,
        find-insert j k tt c.subscriptions,
        joined_table c.fd c.fd j k s.subscribers,
        same_refl c.fd,
      )) in
      (l, f, λ x j o. others x j o ∙ ground (arith, o, joined_table x c.fd j k s.subscribers))

  unsubscribe_all-Linked :
      (channels : List Bytes) (c : ClientState) (s : Store P)
      → Linked c s
      → KeepsLinked c s (unsubscribe_all channels c s).1
  unfolding unsubscribe_all
  unsubscribe_all-Linked [] c s h = (h, refl, λ x j o. refl)
  unsubscribe_all-Linked (k ∷ rest) c s h =
      let (l, f, others) = unsubscribe_all-Linked rest _ _ (λ j. ground (
        arith,
        h j,
        find-erase j k c.subscriptions,
        left_table c.fd c.fd j k s.subscribers,
        same_refl c.fd,
      )) in
      (l, f, λ x j o. others x j o ∙ ground (arith, o, left_table x c.fd j k s.subscribers))

  leave_channels-Linked :
      (channels : List Bytes) (c : ClientState) (s : Store P)
      → Linked c s
      → KeepsLinked c s (leave_channels channels c s).1
  unfolding leave_channels
  leave_channels-Linked [] c s h = (h, refl, λ x j o. refl)
  leave_channels-Linked (k ∷ rest) c s h = unsubscribe_all-Linked (k ∷ rest) c s h

  -- SUBSCRIBE and UNSUBSCRIBE, with any arguments, keep the client's own set of channels and the
  -- table of subscribers in agreement, and change the channels of no other client.
  pub handlers-Linked :
      (args : List Bytes) (c : ClientState) (s : Store P)
      → Linked c s
      → KeepsLinked c s (handle_subscribe args c s).1
        × KeepsLinked c s (handle_unsubscribe args c s).1
  unfolding handle_subscribe handle_unsubscribe
  handlers-Linked [] c s h = ((h, refl, λ x j o. refl), leave_channels-Linked _ c s h)
  handlers-Linked (w ∷ []) c s h = ((h, refl, λ x j o. refl), leave_channels-Linked _ c s h)
  handlers-Linked (w ∷ k ∷ rest) c s h =
      (subscribe_all-Linked (k ∷ rest) c s h, leave_channels-Linked (k ∷ rest) c s h)
