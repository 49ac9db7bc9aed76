-- ===== src/Lists/Queue.antt =====
-- The two ends of a list.
use mathlib.Core.List.{reverse, reverse-cons}
use true_store.Base.{
  ℕ, zero, suc, ◌^◌, ◌<◌, ◌≡◌, refl, sym, ap, ◌∙◌, ◌≢◌, List, [], ◌∷◌, ◌++◌, append_assoc, arith,
  if◌then◌else◌, length, take, drop, pos,
}
use true_store.Text.{Bytes, ◌=ᵇ◌}
use true_store.Dict.{Dict, find, find-insert, find-erase, find-insert_self}
use true_store.Resp.{bulk_string, integer, array, to_bytes}
use true_store.Text.Equality.{eq_refl}
use true_store.Platform.{Platform}
use true_store.Store.Types.{Store}
use true_store.Text.Decimal.{to_string}
use true_store.Text.Parse.{stoll-to_string_nat}
use true_store.Lists.{
  or_empty, push_front, store_rest, handle_rpush, handle_lpush, pop_one, pop_count, pop_parsed,
  handle_lpop,
}

-- The elements under a key.
abbrev pub elements : {P : Platform} → Store P → Bytes → List Bytes
elements s key = or_empty (find key s.dynamic_vector)

pub find-store_rest :
    (j key : Bytes) (rest : List Bytes) (m : Dict (List Bytes))
    → or_empty (find j (store_rest key rest m)) ≡ (if key =ᵇ j then rest else or_empty (find j m))
unfolding store_rest
find-store_rest j key [] m = ground (arith, find-erase j key m)
find-store_rest j key (v ∷ rest) m = ground (arith, find-insert j key (v ∷ rest) m)

push_front-reverse : (vs list : List Bytes) → push_front vs list ≡ reverse vs ++ list
unfolding push_front
push_front-reverse [] list = refl
push_front-reverse (v ∷ vs) list =
    push_front-reverse vs (v ∷ list)
    ∙ sym (append_assoc (reverse vs) (v ∷ []) list)
    ∙ ap (λ (l : List Bytes). l ++ list) (sym (reverse-cons v vs))

-- RPUSH of one or more values appends them in order under its key, and LPUSH puts them in front in
-- reverse order; each replies with the new length and leaves the other keys as they were.
pub push_elements :
    {P : Platform} (c key j value : Bytes) (rest : List Bytes) (s : Store P)
    → let r = handle_rpush (c ∷ key ∷ value ∷ rest) s in
      let l = handle_lpush (c ∷ key ∷ value ∷ rest) s in
      let back = elements s key ++ value ∷ rest in
      let front = reverse (value ∷ rest) ++ elements s key in
      (r.0 ≡ to_bytes (integer (pos (length back))))
      × (elements r.1 j ≡ (if key =ᵇ j then back else elements s j))
      × (l.0 ≡ to_bytes (integer (pos (length front))))
      × (elements l.1 j ≡ (if key =ᵇ j then front else elements s j))
unfolding handle_rpush handle_lpush
push_elements c key j value rest s =
    let list = elements s key in
    (
      refl,
      ground (arith, find-insert j key (list ++ value ∷ rest) s.dynamic_vector),
      ap (λ (l : List Bytes). to_bytes (integer (pos (length l)))) (push_front-reverse _ list),
      ground (
        arith,
        find-insert j key (push_front (value ∷ rest) list) s.dynamic_vector,
        push_front-reverse (value ∷ rest) list,
      ),
    )

pop_count_lem :
    {P : Platform} (key j : Bytes) (n : ℕ) (list : List Bytes) (s : Store P)
    → list ≢ []
    → 0 < n
    → ((pop_count key n list s).0 ≡ to_bytes (array (take n list)))
      × (elements (pop_count key n list s).1 j ≡ (if key =ᵇ j then drop n list else elements s j))
unfolding pop_count
pop_count_lem key j n [] s h p = absurd (h refl)
pop_count_lem key j zero (v ∷ rest) s h p = absurd (omega arith)
pop_count_lem key j (suc n) (v ∷ rest) s h p =
    (refl, find-store_rest j key (drop n rest) s.dynamic_vector)

-- LPOP of a positive number n from a list that has elements replies with the first n, or with all
-- of a shorter list; what is left under the key is the rest, and the other keys are as they were.
lpop_count :
    {P : Platform} (c key j : Bytes) (n : ℕ) (s : Store P)
    → elements s key ≢ []
    → 0 < n
    → n < 2 ^ 63
    → let r = handle_lpop (c ∷ key ∷ to_string n ∷ []) s in
      (r.0 ≡ to_bytes (array (take n (elements s key))))
      × (elements r.1 j ≡ (if key =ᵇ j then drop n (elements s key) else elements s j))
unfolding handle_lpop pop_parsed
lpop_count c key j n s h p small =
    rw (stoll-to_string_nat n small, pop_parsed) (pop_count_lem key j n (elements s key) s h p)

pop_one_lem :
    {P : Platform} (key v : Bytes) (rest : List Bytes) (s : Store P)
    → elements s key ≡ v ∷ rest
    → ((pop_one key (elements s key) s).0 ≡ to_bytes (bulk_string v))
      × (elements (pop_one key (elements s key) s).1 key ≡ rest)
unfolding pop_one
pop_one_lem key v rest s e =
    rw (e, pop_one) (refl, find-store_rest key key rest s.dynamic_vector ∙ rw (eq_refl key))

-- RPUSH and LPOP make a first-in, first-out queue: with values already under the key, LPOP after
-- RPUSH replies with the oldest, and what is left is the other old values and then the new ones.
pub rpush_lpop_fifo :
    {P : Platform} (c d key oldest value : Bytes) (old rest : List Bytes) (s : Store P)
    → elements s key ≡ oldest ∷ old
    → let r = handle_lpop (d ∷ key ∷ []) (handle_rpush (c ∷ key ∷ value ∷ rest) s).1 in
      (r.0 ≡ to_bytes (bulk_string oldest)) × (elements r.1 key ≡ old ++ value ∷ rest)
unfolding handle_lpop handle_rpush
rpush_lpop_fifo c d key oldest value old rest s e =
    pop_one_lem key oldest (old ++ value ∷ rest) (handle_rpush (c ∷ key ∷ value ∷ rest) s).1 (
      ap or_empty (find-insert_self key (elements s key ++ value ∷ rest) s.dynamic_vector)
      ∙ ap (λ (l : List Bytes). l ++ value ∷ rest) e)
