-- ===== src/Server/Timeout.antt =====
-- The timeout of `poll`: no waiter and no sync is overslept.
use true_store.Base.{
  ℕ, ◌-◌, ◌^◌, ◌≤◌, ◌<◌, ◌≡◌, refl, false, Option, none, some, List, [], ◌∷◌, arith, All, ℤ, pos,
  negsuc, pos_part, is_negative,
}
use true_store.Aof.{Syncing, sync_timeout_ms}
use true_store.Server.{Waiter, remaining_ms, as_int, nearer, least_timeout, next_timeout}

-- The time to a deadline, in milliseconds, fits into an `int`.
abbrev pub Near : ℤ → Option ℤ → Type 0
Near now none = Unit
Near now (some deadline) = remaining_ms now deadline < 2 ^ 31

-- The timeout is not "forever", and it ends in time for the deadline.
abbrev pub InTime : ℤ → ℤ → Option ℤ → Type 0
InTime now timeout none = Unit
InTime now timeout (some deadline) =
    (is_negative timeout ≡ false) × (pos_part timeout ≤ remaining_ms now deadline)

-- A timeout that has been shortened.
abbrev Sooner : ℤ → ℤ → Type 0
Sooner new old = is_negative old ≡ false → (is_negative new ≡ false) × (pos_part new ≤ pos_part old)

as_int-small : (n : ℕ) → n < 2 ^ 31 → as_int n ≡ pos n
unfolding as_int
as_int-small n h = ground arith

nearer_lem :
    (now : ℤ) (deadline : Option ℤ) (timeout : ℤ)
    → Near now deadline
    → InTime now (nearer now deadline timeout) deadline
      × Sooner (nearer now deadline timeout) timeout
unfolding nearer
nearer_lem now none timeout h = (tt, λ e. (e, omega arith))
nearer_lem now (some deadline) (pos m) h =
    ground (arith, h, as_int-small (remaining_ms now deadline) h)
nearer_lem now (some deadline) (negsuc m) h =
    ground (arith, h, as_int-small (remaining_ms now deadline) h)

least-Sooner :
    (now : ℤ) (waiters : List Waiter) (timeout : ℤ)
    → All (λ w. Near now w.deadline) waiters
    → Sooner (least_timeout now waiters timeout) timeout
unfolding least_timeout
least-Sooner now [] timeout h e = (e, omega arith)
least-Sooner now (waiter ∷ waiters) timeout (near, h) e =
    let (kept, le) = (nearer_lem now waiter.deadline timeout near).1 e in
    let (sign, le') = least-Sooner now waiters (nearer now waiter.deadline timeout) h kept in
    (sign, omega (arith, le, le'))

later_InTime :
    (now new old : ℤ) (deadline : Option ℤ)
    → Sooner new old
    → InTime now old deadline
    → InTime now new deadline
later_InTime now new old none h k = tt
later_InTime now new old (some deadline) h (sign, le) =
    let (sign', le') = h sign in (sign', omega (arith, le, le'))

least-InTime :
    (now : ℤ) (waiters : List Waiter) (timeout : ℤ)
    → All (λ w. Near now w.deadline) waiters
    → All (λ w. InTime now (least_timeout now waiters timeout) w.deadline) waiters
unfolding least_timeout
least-InTime now [] timeout h = tt
least-InTime now (waiter ∷ waiters) timeout (near, h) = (
  later_InTime now _ (nearer now waiter.deadline timeout) waiter.deadline
      (least-Sooner now waiters (nearer now waiter.deadline timeout) h)
      (nearer_lem now waiter.deadline timeout near).0,
  least-InTime now waiters (nearer now waiter.deadline timeout) h,
)

-- The timeout ends no later than another, if that ends at all.
abbrev pub NotAfter : ℤ → ℤ → Type 0
NotAfter timeout (negsuc n) = Unit
NotAfter timeout (pos n) = (is_negative timeout ≡ false) × (pos_part timeout ≤ n)

Sooner-NotAfter : (new old : ℤ) → Sooner new old → NotAfter new old
Sooner-NotAfter new (negsuc n) h = tt
Sooner-NotAfter new (pos n) h = h (ground arith)

-- The timeout of the next `poll` ends in time for every waiter with a deadline, and for the sync of
-- the log if that waits for one, and is never without end while there is one of these; the
-- milliseconds to each deadline fit into an `int`.
pub next_timeout-InTime :
    (now : ℤ) (syncing : Syncing) (waiters : List Waiter)
    → All (λ w. Near now w.deadline) waiters
    → All (λ w. InTime now (next_timeout now syncing waiters) w.deadline) waiters
      × NotAfter (next_timeout now syncing waiters) (sync_timeout_ms now syncing)
unfolding next_timeout
next_timeout-InTime now syncing waiters h = (
  least-InTime now waiters (sync_timeout_ms now syncing) h,
  Sooner-NotAfter (next_timeout now syncing waiters) (sync_timeout_ms now syncing)
      (least-Sooner now waiters (sync_timeout_ms now syncing) h),
)

-- A wait of 2^31 milliseconds becomes a timeout without end.
long_wait : as_int (2 ^ 31) ≡ negsuc (2 ^ 31 - 1)
unfolding as_int
long_wait = refl
