-- ===== src/Aof/Writing.antt =====
-- Writes are completed, and are synced in time.
use true_store.Base.{
  ℕ, zero, suc, ◌+◌, ◌-◌, ◌*◌, ◌/◌, ◌^◌, ◌≤◌, ◌<◌, ◌≡◌, refl, sym, ap, ◌∙◌, true, false, some, List,
  [], ◌∷◌, ◌++◌, append_assoc, append-nil, arith, length, take, drop, All, take-append-drop,
  length-drop, pos, pos_part, ◌-ℤ◌, ltb_ℤ,
}
use true_store.Text.{Bytes, codes, ◌=ᵇ◌}
use true_store.Text.Equality.{eq_refl}
use true_store.Aof.{
  Written, took, interrupted, write_failed, write_loop, Syncing, sync_if_due, ceil_ms,
  sync_timeout_ms,
}

-- The bytes that the calls take, if none of them fails.
unfoldable pub taken : List Written → ℕ
taken [] = 0
taken (took n ∷ calls) = n + taken calls
taken (interrupted ∷ calls) = taken calls
taken (write_failed ∷ calls) = taken calls

-- A call that takes nothing or fails is an error.
abbrev pub Succeeds : Written → Type 0
Succeeds (took n) = 0 < n
Succeeds interrupted = Unit
Succeeds write_failed = ⊥

-- However the calls of `::write` cut the bytes, and however often they are interrupted, the file
-- gets all bytes once and in their order, as soon as the calls have taken that many.
pub write_complete :
    (calls : List Written) (file bytes : Bytes)
    → All Succeeds calls
    → length bytes ≤ taken calls
    → write_loop calls file bytes ≡ some (false, file ++ bytes)
unfolding write_loop taken
write_complete calls file [] h le = ap (λ (s : Bytes). some (false, s)) (sym (append-nil file))
write_complete [] file (c ∷ bytes) h le = absurd (omega arith)
write_complete (interrupted ∷ calls) file (c ∷ bytes) h le =
    write_complete calls file (c ∷ bytes) h.1 le
write_complete (write_failed ∷ calls) file (c ∷ bytes) h le = absurd h.0
write_complete (took zero ∷ calls) file (c ∷ bytes) h le = absurd (omega (arith, h.0))
write_complete (took (suc n) ∷ calls) file (c ∷ bytes) h le =
    write_complete calls (file ++ take (suc n) (c ∷ bytes)) (drop (suc n) (c ∷ bytes)) h.1
      (omega (arith, length-drop (suc n) (c ∷ bytes), le))
    ∙ ap (λ (s : Bytes). some (false, s))
        (append_assoc file (take (suc n) (c ∷ bytes)) (drop (suc n) (c ∷ bytes))
          ∙ ap (◌++◌ file) (take-append-drop (suc n) (c ∷ bytes)))

-- A log that is synced every second: the timeout is at most a second, and when it has passed, the
-- sync is due and the file is clean after it. The clock has not gone back since the last sync.
pub sync_in_time :
    (now later last synced : ℕ) (s : Syncing)
    → s.fsync ≡ codes "everysec"
    → s.dirty ≡ true
    → s.last_sync ≡ pos last
    → last ≤ now
    → now + pos_part (sync_timeout_ms (pos now) s) * 10 ^ 6 ≤ later
    → (pos_part (sync_timeout_ms (pos now) s) ≤ 1000)
      × (sync_if_due (pos later) (some (pos synced)) s
          ≡ some (record s { dirty = false; last_sync = pos synced }))
unfolding sync_if_due
sync_in_time now later last synced s e d l le due =
    (ground (arith, timeout), rw (d, e, l, words.0, words.1, passed) refl)
  where
    timeout : sync_timeout_ms (pos now) s ≡ pos ((last + 10 ^ 9 - now + (10 ^ 6 - 1)) / 10 ^ 6)
    timeout =
        unfold sync_timeout_ms in
        unfold ceil_ms in ground (arith, d, l, e, eq_refl (codes "everysec"))

    over : last + 10 ^ 9 ≤ later
    over = ground (arith, timeout, due)

    passed : ltb_ℤ (pos later -ℤ pos last) (pos (10 ^ 9)) ≡ false
    passed = ground (arith, over)

    words :
        ((codes "everysec" =ᵇ codes "no") ≡ false) × ((codes "everysec" =ᵇ codes "everysec") ≡ true)
    words = unfold ◌=ᵇ◌ in (refl, refl)
