-- ===== src/Command/Sessions.antt =====
-- The ends of a session: QUIT and RESET.
use true_store.Base.{◌≡◌, refl, inl, inr, true, false, List, [], ◌∷◌, arith, List-cases, ℤ}
use true_store.Text.{◌=ᵇ◌, codes, Bytes, codes, ◌=ᵇ◌, to_upper}
use true_store.Text.Equality.{eq_iff}
use true_store.Dict.{Dict, find}
use true_store.Platform.{Platform, Now}
use true_store.Store.Types.{Store}
use true_store.Dict.Size.{KeysSorted, absent_below}
use true_store.Client.{ClientState}
use true_store.PubSub.{fd_erase, same_fd, fds_of, remove_from, remove_subscriber}
use true_store.PubSub.Subscribers.{has_fd, has-fd_erase, same_refl, subscribed, Linked}
use true_store.Command.{Dispatch, one_of, cleared, end_session, run_command, handle_command}

find-remove_from :
    (d : ℤ) (j : Bytes) (m : Dict (List ℤ))
    → KeysSorted m
    → fds_of (find j (remove_from d m)) ≡ fd_erase d (fds_of (find j m))
unfolding find remove_from fd_erase
find-remove_from d j [] h = refl
find-remove_from d j ((k, fds) ∷ m) (a, h) = elim (List-cases (fd_erase d fds)) [
  | inl e ↦ ground (arith, e, find-remove_from d j m h, absent_below k m a, eq_iff k j)
  | inr (x, xs, e) ↦ ground (arith, e, find-remove_from d j m h)
]

reset_command :
    {P : Platform} (now : Now) (dispatch : Dispatch P) (word : Bytes) (c : ClientState)
    (s : Store P)
    → one_of (to_upper word) ("QUIT" ∷ "RESET" ∷ []) ≡ true
    → handle_command now dispatch (word ∷ []) c s
      ≡ end_session (to_upper word =ᵇ codes "QUIT") [] c s
unfolding handle_command run_command
reset_command now dispatch word c s q = ground (arith, q)

-- RESET or QUIT, in any letter case, of a client, authenticated or not and inside a transaction or
-- not, leaves it with no channel, no queued command and no watched key, and subscribed nowhere, as
-- its empty set of channels says; other subscribers stay. The table's keys are in order.
pub reset_leaves :
    {P : Platform} (now : Now) (dispatch : Dispatch P) (word : Bytes) (c : ClientState)
    (s : Store P)
    → one_of (to_upper word) ("QUIT" ∷ "RESET" ∷ []) ≡ true
    → KeysSorted s.subscribers
    → let (d, t) = (handle_command now dispatch (word ∷ []) c s).1 in
      Linked d t
      × (d.subscriptions ≡ [])
      × (d.in_multi ≡ false)
      × (d.queued ≡ [])
      × (d.watched ≡ [])
      × ((x : ℤ) (channel : Bytes)
          → same_fd c.fd x ≡ false
          → subscribed x channel t.subscribers ≡ subscribed x channel s.subscribers)
unfolding end_session cleared remove_subscriber find has_fd
reset_leaves now dispatch word c s q h = rw (reset_command now dispatch word c s q) (
  (λ j. ground (
    arith,
    find-remove_from c.fd j s.subscribers h,
    has-fd_erase c.fd c.fd (fds_of (find j s.subscribers)),
    same_refl c.fd,
  )),
  refl,
  refl,
  refl,
  refl,
  (λ x j o. ground (
    arith,
    o,
    find-remove_from c.fd j s.subscribers h,
    has-fd_erase x c.fd (fds_of (find j s.subscribers)),
  )),
)
