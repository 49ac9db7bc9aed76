-- ===== src/Strings/Expire.antt =====
-- SET with EX or PX.
use true_store.Text.Equality.{eq_iff}
use true_store.Store.Expiry.{visible}
use true_store.Strings.Reads.{assign_elsewhere}
use true_store.Text.Parse.{stoll-to_string_nat}
use true_store.Base.{
  ℕ, zero, suc, ◌+◌, ◌*◌, ◌^◌, ◌<◌, ◌≡◌, refl, ap, ◌∙◌, ◌≢◌, ◌⊎◌, inl, inr, Option, none, some,
  List, [], ◌∷◌, arith, leb, if◌then◌else◌, Option-cases, ℤ, pos, negsuc, leb_ℤ, wrap_i64,
  wrap_i64_fits,
}
use true_store.Text.{Bytes}
use true_store.Text.Equality.{eq_iff}
use true_store.Dict.{insert, find-insert, find-erase, find-insert_self}
use true_store.Resp.{bulk_string, null_bulk_string, to_bytes}
use true_store.Platform.{Platform, Now}
use true_store.Store.Types.{Store}
use true_store.Text.Parse.{stoll}
use true_store.Text.Decimal.{to_string}
use true_store.Store.{is_expired}
use true_store.Strings.{
  assign, set_expiring, handle_set, bulk_or_null, handle_get, unit_of, deadline_after,
}

-- The two outcomes of a SET with an expire option.
pub set_expiring_cases :
    {P : Platform} (now : Now) (key value option : Bytes) (n : Option ℤ) (s : Store P)
    → ((set_expiring now key value option n s).1 ≡ s)
      ⊎ ((deadline : ℤ) × ((set_expiring now key value option n s).1
            ≡ assign key value (record s { expirations = insert key deadline s.expirations })))
unfolding set_expiring
set_expiring_cases now key value option none s = inl refl
set_expiring_cases now key value option (some (negsuc n)) s = inl refl
set_expiring_cases now key value option (some (pos zero)) s = inl refl
set_expiring_cases now key value option (some (pos (suc n))) s =
    elim (Option-cases (unit_of option)) [
      | inl e ↦ inl (rw (e, set_expiring))
      | inr (unit, e) ↦ inr (deadline_after now.steady (suc n) unit, rw (e, set_expiring))
    ]

deadline_exact :
    (now n unit : ℕ)
    → now + n * unit < 2 ^ 63
    → deadline_after (pos now) n unit ≡ pos (now + n * unit)
unfolding deadline_after
deadline_exact now n unit h =
    rw (wrap_i64_fits (n * unit) (omega arith))
      (ap wrap_i64 (ground arith) ∙ wrap_i64_fits (now + n * unit) (omega arith))

-- A GET after a SET with an expire option whose deadline is known.
get_deadline :
    {P : Platform} (later : Now) (c key value : Bytes) (deadline : ℤ) (s : Store P)
    → (handle_get later
        (c ∷ key ∷ [])
        (assign key value (record s { expirations = insert key deadline s.expirations }))).0
      ≡ (if leb_ℤ deadline later.steady
          then to_bytes null_bulk_string
          else to_bytes (bulk_string value))
unfolding handle_get assign is_expired bulk_or_null
get_deadline later c key value deadline s =
    ground
      (arith, find-insert_self key deadline s.expirations, find-insert_self key value s.storage)

-- After SET key value OPTION n with a positive number of seconds (EX) or milliseconds (PX), GET
-- finds the value exactly at the times before the deadline, if the number and the deadline fit in
-- 64 bits.
pub expiry_exact :
    {P : Platform} (c d key value option : Bytes) (now later n unit ms : ℕ) (s : Store P)
    → unit_of option ≡ some unit
    → 0 < n
    → n < 2 ^ 63
    → now + n * unit < 2 ^ 63
    → let t =
        (handle_set
          (record { steady = pos now; system_ms = ms })
          (c ∷ key ∷ value ∷ option ∷ to_string n ∷ [])
          s).1 in
      (handle_get (record { steady = pos later; system_ms = ms }) (d ∷ key ∷ []) t).0 ≡ (
        if leb (now + n * unit) later
        then to_bytes null_bulk_string
        else to_bytes (bulk_string value))
unfolding handle_set set_expiring
expiry_exact c d key value option now later zero unit ms s u p h fits = absurd (omega arith)
expiry_exact {P} c d key value option now later (suc n) unit ms s u p h fits =
    rw (stoll-to_string_nat (suc n) h, u, deadline_exact now (suc n) unit fits, set_expiring)
      (get_deadline (record { steady = pos later; system_ms = ms }) d key value
          (pos (now + suc n * unit)) s
        ∙ ground arith)

-- SET of one key, with or without an expire option and also when it fails, leaves what is visible
-- under any other key as it was, at every time.
pub set_elsewhere :
    {P : Platform} (now later : Now) (args : List Bytes) (c key j : Bytes) (s : Store P)
    → key ≢ j
    → visible later (handle_set now (c ∷ key ∷ args) s).1 j ≡ visible later s j
unfolding handle_set assign
set_elsewhere now later [] c key j s h = refl
set_elsewhere now later (value ∷ []) c key j s h =
    assign_elsewhere later key value j s _ h refl
      (ground (arith, eq_iff key j, find-erase j key s.expirations))
set_elsewhere now later (value ∷ option ∷ []) c key j s h = refl
set_elsewhere {P} now later (value ∷ option ∷ time ∷ []) c key j s h =
    elim (set_expiring_cases now key value option (stoll time) s) [
      | inl e ↦ ap (λ (t : Store P). visible later t j) e
      | inr (deadline, e) ↦
          ap (λ (t : Store P). visible later t j) e
          ∙ assign_elsewhere later key value j s _ h refl
              (ground (arith, eq_iff key j, find-insert j key deadline s.expirations))
    ]
set_elsewhere now later (value ∷ option ∷ time ∷ more ∷ rest) c key j s h = refl
