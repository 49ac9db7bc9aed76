-- ===== src/Setup/Loaded.antt =====
-- What GET sees of the entries of a snapshot.
use true_store.Base.{
  ℕ, ◌+◌, ◌-◌, ◌*◌, ◌^◌, ◌≤◌, ◌<◌, ◌≡◌, refl, ap, ◌∙◌, ◌≢◌, inl, inr, Bool, true, false, Option,
  none, some, List, [], ◌∷◌, ◌++◌, arith, ltb, if◌then◌else◌, Bool-cases, All, ℤ, pos, ◌+ℤ◌, ◌-ℤ◌,
  leb_ℤ, wrap_i64, wrap_i64_fits,
}
use true_store.Text.{Bytes, ◌=ᵇ◌}
use true_store.Text.Equality.{eq_iff}
use true_store.Dict.{Dict, find, insert, find-insert, find-insert_self}
use true_store.Platform.{Platform, Now}
use true_store.Store.Types.{Store}
use true_store.Store.{is_expired, peek}
use mathlib.Core.Path.{subst}
use true_store.Store.Expiry.{visible}
use true_store.Rdb.{RdbEntry}
use true_store.Setup.{time_of_ms, load_entry, load_entries}

-- The time of an entry's end has not come, in nanoseconds of the system clock.
abbrev pub alive : ℕ → Option ℕ → Bool
alive time none = true
alive time (some ms) = ltb time (ms * 10 ^ 6)

-- The numbers are small enough for 64 bits.
abbrev pub TimeFits : Option ℕ → Type 0
TimeFits none = Unit
TimeFits (some ms) = ms * 10 ^ 6 < 2 ^ 62

time_of_ms-fits : (ms : ℕ) → ms * 10 ^ 6 < 2 ^ 62 → time_of_ms ms ≡ pos (ms * 10 ^ 6)
unfolding time_of_ms
time_of_ms-fits ms h =
    rw (wrap_i64_fits ms (omega arith))
      (ap wrap_i64 (product (ms * 10 ^ 6)) ∙ wrap_i64_fits (ms * 10 ^ 6) (omega arith))
  where
    product : (n : ℕ) → pos n -ℤ pos 0 ≡ pos n
    product n = ground arith

different : (j k : Bytes) → j ≢ k → (j =ᵇ k) ≡ false
different j k ne = ground (arith, eq_iff j k, ne)

module _ {P : Platform} (system_now steady_now : ℤ) where
  -- Both tables at one key.
  abbrev SameAt : Bytes → Store P → Store P → Type 0
  SameAt key s t =
      (find key t.storage ≡ find key s.storage) × (find key t.expirations ≡ find key s.expirations)

  load_elsewhere :
      (key : Bytes) (entry : RdbEntry) (s : Store P)
      → entry.key ≢ key
      → SameAt key s (load_entry system_now steady_now entry s)
  unfolding load_entry
  load_elsewhere key entry s ne = at entry.expire_at_ms
    where
      other : {V : Type 0} (v : V) (m : Dict V) → find key (insert entry.key v m) ≡ find key m
      other v m = rw (find-insert key entry.key v m, different entry.key key ne) refl

      at :
          (expire : Option ℕ)
          → SameAt key s (
              load_entry system_now steady_now
                (record { key = entry.key; value = entry.value; expire_at_ms = expire })
                s)
      at none = (other entry.value s.storage, refl)
      at (some ms) = elim (Bool-cases (leb_ℤ (time_of_ms ms) system_now)) [
        | inl e ↦ rw e (refl, refl)
        | inr e ↦ rw e (other entry.value s.storage, other _ s.expirations)
      ]

  loads_elsewhere :
      (key : Bytes) (entries : List RdbEntry) (s : Store P)
      → All (λ e. e.key ≢ key) entries
      → SameAt key s (load_entries system_now steady_now entries s)
  unfolding load_entries
  loads_elsewhere key [] s h = (refl, refl)
  loads_elsewhere key (entry ∷ entries) s (ne, h) =
      let (a, b) = load_elsewhere key entry s ne in
      let (c, d) = loads_elsewhere key entries (load_entry system_now steady_now entry s) h in
      (c ∙ a, d ∙ b)

  load_entries-append :
      (before after : List RdbEntry) (s : Store P)
      → load_entries system_now steady_now (before ++ after) s
        ≡ load_entries system_now steady_now after (load_entries system_now steady_now before s)
  unfolding load_entries
  load_entries-append [] after s = refl
  load_entries-append (entry ∷ before) after s =
      load_entries-append before after (load_entry system_now steady_now entry s)

-- What is visible of a key whose places in the tables are known.
visible_at :
    {P : Platform} (later : Now) (key : Bytes) (t : Store P) (string : Option Bytes)
    (deadline : Option ℤ)
    → find key t.storage ≡ string
    → find key t.expirations ≡ deadline
    → visible later t key ≡ (elim deadline [
      | none ↦ string
      | some time ↦ if leb_ℤ time later.steady then none else string
    ])
unfolding peek is_expired
visible_at later key t string none e f = ground (arith, e, f)
visible_at later key t string (some time) e f = ground (arith, e, f)

deadline_fits :
    (st m sys : ℕ)
    → sys < m
    → m < 2 ^ 62
    → st < 2 ^ 62
    → wrap_i64 (pos st +ℤ wrap_i64 (pos m -ℤ pos sys)) ≡ pos (st + (m - sys))
deadline_fits st m sys lt hm hs =
    ap (λ (x : ℤ). wrap_i64 (pos st +ℤ x))
      (ap wrap_i64 difference ∙ wrap_i64_fits (m - sys) (omega arith))
    ∙ ap wrap_i64 total
    ∙ wrap_i64_fits (st + (m - sys)) (omega arith)
  where
    difference : pos m -ℤ pos sys ≡ pos (m - sys)
    difference = ground arith

    total : pos st +ℤ pos (m - sys) ≡ pos (st + (m - sys))
    total = ground arith

-- What is visible of one new entry, whatever is done to other keys afterwards.
loaded_one :
    {P : Platform} (sys st d : ℕ) (later : Now) (key value : Bytes) (expire : Option ℕ)
    (s u : Store P)
    → find key s.storage ≡ none
    → find key s.expirations ≡ none
    → TimeFits expire
    → st < 2 ^ 62
    → later.steady ≡ pos (st + d)
    → SameAt
        (pos sys)
        (pos st)
        key
        (load_entry
          (pos sys)
          (pos st)
          (record { key = key; value = value; expire_at_ms = expire })
          s)
        u
    → visible later u key ≡ (if alive (sys + d) expire then some value else none)
unfolding load_entry
loaded_one sys st d later key value none s u hs he fits hst time (a, b) =
    visible_at later key u (some value) none (a ∙ find-insert_self key value s.storage) (b ∙ he)
loaded_one sys st d later key value (some ms) s u hs he fits hst time same =
    elim (Bool-cases (leb_ℤ (time_of_ms ms) (pos sys))) [
      | inl e ↦
          let (a, b) = subst (λ x. SameAt (pos sys) (pos st) key x u) (ended e) same in
          visible_at later key u none none (a ∙ hs) (b ∙ he) ∙ past (before e)
      | inr e ↦
          let (a, b) = subst (λ x. SameAt (pos sys) (pos st) key x u) (kept e) same in
          visible_at later key u (some value) (some (pos (st + (m - sys))))
            (a ∙ find-insert_self key value s.storage)
            (b ∙ find-insert_self key deadline s.expirations ∙ ap some (exact (after e)))
          ∙ ground (arith, time, after e)
    ]
  where
    m : ℕ
    m = ms * 10 ^ 6

    deadline : ℤ
    deadline = wrap_i64 (pos st +ℤ wrap_i64 (time_of_ms ms -ℤ pos sys))

    before : leb_ℤ (time_of_ms ms) (pos sys) ≡ true → m ≤ sys
    before e = ground (arith, e, time_of_ms-fits ms fits)

    after : leb_ℤ (time_of_ms ms) (pos sys) ≡ false → sys < m
    after e = ground (arith, e, time_of_ms-fits ms fits)

    exact : sys < m → deadline ≡ pos (st + (m - sys))
    exact lt =
        ap (λ (x : ℤ). wrap_i64 (pos st +ℤ wrap_i64 (x -ℤ pos sys))) (time_of_ms-fits ms fits)
        ∙ deadline_fits st m sys lt fits hst

    past : m ≤ sys → none ≡ (if alive (sys + d) (some ms) then some value else none)
    past le = ground (arith, le)

    ended :
        leb_ℤ (time_of_ms ms) (pos sys) ≡ true
        → load_entry
            (pos sys)
            (pos st)
            (record { key = key; value = value; expire_at_ms = some ms })
            s
          ≡ s
    ended e = rw e refl

    kept :
        leb_ℤ (time_of_ms ms) (pos sys) ≡ false
        → load_entry
            (pos sys)
            (pos st)
            (record { key = key; value = value; expire_at_ms = some ms })
            s
          ≡ record s {
            expirations = insert key deadline s.expirations;
            storage = insert key value s.storage;
          }
    kept e = rw e refl

-- Of a snapshot that is loaded when the clocks show `sys` and `st`, an entry whose key no other
-- entry has, and no string of the store and no deadline before, is visible at any later time exactly
-- while the system clock is in front of the entry's own deadline (always, without one): the steady
-- clock, by which keys expire, has advanced by the same `d`. The deadline in nanoseconds and `st`
-- are below 2^62.
pub loaded_visible :
    {P : Platform} (sys st d : ℕ) (later : Now) (front : List RdbEntry) (entry : RdbEntry)
    (back : List RdbEntry) (s : Store P)
    → find entry.key s.storage ≡ none
    → find entry.key s.expirations ≡ none
    → All (λ e. e.key ≢ entry.key) front
    → All (λ e. e.key ≢ entry.key) back
    → TimeFits entry.expire_at_ms
    → st < 2 ^ 62
    → later.steady ≡ pos (st + d)
    → visible later (load_entries (pos sys) (pos st) (front ++ entry ∷ back) s) entry.key
      ≡ (if alive (sys + d) entry.expire_at_ms then some entry.value else none)
unfolding load_entries
loaded_visible sys st d later front entry back s hs he hf hb fits hst time =
    let s' = load_entries (pos sys) (pos st) front s in
    let (a, b) = loads_elsewhere (pos sys) (pos st) entry.key front s hf in
    ap (λ t. visible later t entry.key)
      (load_entries-append (pos sys) (pos st) front (entry ∷ back) s)
    ∙ loaded_one sys st d later entry.key entry.value entry.expire_at_ms s' _ (a ∙ hs) (b ∙ he) fits
        hst time
        (loads_elsewhere (pos sys) (pos st) entry.key back (load_entry (pos sys) (pos st) entry s')
          hb)
