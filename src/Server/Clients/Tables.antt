-- ===== src/Server/Clients/Tables.antt =====
-- The tables of `Server::run` and what is true of the descriptors in them.
use true_store.Base.{
  ◌≡◌, refl, inl, inr, Bool, true, false, Option, none, some, List, [], ◌∷◌, arith, All, ℤ,
  Bool-cases, if_both,
}
use true_store.Text.{Bytes}
use true_store.Server.{Waiter, same_fd, set_offset, emplace_replica, kept_replicas, expire_all, due}
use true_store.Server.Clients.{connected, without, put, other_waiters, acknowledge}

-- What is true of one descriptor is true of those of all waiters and replicas.
abbrev pub Waiting : (ℤ → Type 0) → List Waiter → Type 0
Waiting Q = All (λ w. Q w.fd)

abbrev pub Replicas : (ℤ → Type 0) → List (ℤ × ℤ) → Type 0
Replicas Q = All (λ r. Q r.0)

module _ (Q : ℤ → Type 0) where
  pub kept-Replicas :
      (reaches : ℤ → Bytes → Bool) (encoded : Bytes) (replicas : List (ℤ × ℤ))
      → Replicas Q replicas
      → Replicas Q (kept_replicas reaches encoded replicas)
  unfolding kept_replicas
  kept-Replicas reaches encoded [] h = tt
  kept-Replicas reaches encoded ((fd, offset) ∷ replicas) (q, h) =
      if_both (Replicas Q) (reaches fd encoded) (q, kept-Replicas reaches encoded replicas h)
        (kept-Replicas reaches encoded replicas h)

  pub emplace-Replicas :
      (fd offset : ℤ) (replicas : List (ℤ × ℤ))
      → Q fd
      → Replicas Q replicas
      → Replicas Q (emplace_replica fd offset replicas)
  unfolding emplace_replica
  emplace-Replicas fd offset [] a h = (a, tt)
  emplace-Replicas fd offset ((other, acked) ∷ replicas) a (q, h) =
      if_both (Replicas Q) (same_fd fd other) (q, h) (q, emplace-Replicas fd offset replicas a h)

  set_offset-Replicas :
      (fd offset : ℤ) (replicas : List (ℤ × ℤ))
      → connected fd replicas ≡ true
      → Replicas Q replicas
      → Replicas Q (set_offset fd offset replicas)
  unfolding set_offset connected
  set_offset-Replicas fd offset [] c h = absurd (ground (arith, c))
  set_offset-Replicas fd offset ((other, old) ∷ replicas) c (q, h) =
      elim (Bool-cases (same_fd fd other)) [
        | inl e ↦ rw e (q, h)
        | inr e ↦ rw e (q, set_offset-Replicas fd offset replicas (rw e at c) h)
      ]

  pub acknowledge-Replicas :
      (fd : ℤ) (offset : Option ℤ) (replicas : List (ℤ × ℤ))
      → Replicas Q replicas
      → Replicas Q (acknowledge fd offset replicas)
  unfolding acknowledge
  acknowledge-Replicas fd none replicas h = h
  acknowledge-Replicas fd (some offset) replicas h = elim (Bool-cases (connected fd replicas)) [
    | inl e ↦ rw e (set_offset-Replicas fd offset replicas e h)
    | inr e ↦ rw e h
  ]

  pub expire_all-Waiting :
      (now : ℤ) (replicas : List (ℤ × ℤ)) (waiters : List Waiter)
      → Waiting Q waiters
      → Waiting Q (expire_all now replicas waiters).0
  unfolding expire_all
  expire_all-Waiting now replicas [] h = tt
  expire_all-Waiting now replicas (waiter ∷ waiters) (q, h) =
      let rest = expire_all-Waiting now replicas waiters h in
      elim (Bool-cases (due now waiter)) [ inl e ↦ rw e rest | inr e ↦ rw e (q, rest) ]

-- From one fact on descriptors to another.
module _ (Q R : ℤ → Type 0) where
  pub Waiting-map :
      (waiters : List Waiter) → ((x : ℤ) → Q x → R x) → Waiting Q waiters → Waiting R waiters
  Waiting-map [] f h = tt
  Waiting-map (waiter ∷ waiters) f (q, h) = (f waiter.fd q, Waiting-map waiters f h)

  pub Replicas-map :
      (replicas : List (ℤ × ℤ)) → ((x : ℤ) → Q x → R x) → Replicas Q replicas → Replicas R replicas
  Replicas-map [] f h = tt
  Replicas-map ((fd, offset) ∷ replicas) f (q, h) = (f fd q, Replicas-map replicas f h)

  pub other-Waiting :
      (fd : ℤ) (waiters : List Waiter)
      → ((x : ℤ) → same_fd x fd ≡ false → Q x → R x)
      → Waiting Q waiters
      → Waiting R (other_waiters fd waiters)
  unfolding other_waiters
  other-Waiting fd [] f h = tt
  other-Waiting fd (waiter ∷ waiters) f (q, h) =
      let rest = other-Waiting fd waiters f h in
      elim (Bool-cases (same_fd waiter.fd fd)) [
        | inl e ↦ rw e rest
        | inr e ↦ rw e (f waiter.fd e q, rest)
      ]

  pub without-Replicas :
      (fd : ℤ) (replicas : List (ℤ × ℤ))
      → ((x : ℤ) → same_fd x fd ≡ false → Q x → R x)
      → Replicas Q replicas
      → Replicas R (without fd replicas)
  unfolding without
  without-Replicas fd [] f h = tt
  without-Replicas fd ((other, offset) ∷ replicas) f (q, h) =
      let rest = without-Replicas fd replicas f h in
      elim (Bool-cases (same_fd fd other)) [
        | inl e ↦ rw e rest
        | inr e ↦ rw e (f other (ground (arith, e)) q, rest)
      ]

module _ {ℓ} {A : Type ℓ} where
  pub connected-put :
      (x fd : ℤ) (a : A) (table : List (ℤ × A))
      → connected x table ≡ true
      → connected x (put fd a table) ≡ true
  unfolding connected put
  connected-put x fd a [] h = absurd (ground (arith, h))
  connected-put x fd a ((other, b) ∷ table) h = ground (arith, h, connected-put x fd a table)

  pub connected-put_self :
      (fd : ℤ) (a : A) (table : List (ℤ × A)) → connected fd (put fd a table) ≡ true
  unfolding connected put
  connected-put_self fd a [] = ground arith
  connected-put_self fd a ((other, b) ∷ table) = ground (arith, connected-put_self fd a table)

  pub connected-without :
      (x fd : ℤ) (table : List (ℤ × A))
      → same_fd x fd ≡ false
      → connected x (without fd table) ≡ connected x table
  unfolding connected without
  connected-without x fd [] h = refl
  connected-without x fd ((other, b) ∷ table) h = ground (arith, h, connected-without x fd table h)
