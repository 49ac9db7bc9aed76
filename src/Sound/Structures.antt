-- ===== src/Sound/Structures.antt =====
-- The handlers of sorted sets, lists, streams and passwords, and the parts of the store that they
-- change.
use true_store.Base.{ℕ, zero, suc, Option, none, some, List, [], ◌∷◌, arith, ℤ, pos, negsuc}
use true_store.Text.{Bytes}
use true_store.Text.Parse.{stoll}
use true_store.Platform.{Platform, Now}
use true_store.Store.{queue_propagation}
use true_store.Store.Types.{Store}
use true_store.Sound.{IsSound, SameParts}
use true_store.Sound.Frames.{same, set_type-Same}
use true_store.Sound.Writes.{sets-IsSound, lists-IsSound}
use true_store.SortedSets.{read_entries}
use true_store.SortedSets.Commands.{zadd_entries, handle_zadd, zrem_members, handle_zrem}
use true_store.SortedSets.Order.{DoubleLaws}
use true_store.SortedSets.Stored.{handlers-AllAgree}
use true_store.Lists.{
  pop_one, pop_count, pop_parsed, handle_rpush, handle_lpush, handle_lpop, try_blpop, blpop_keys,
  blpop_parsed, handle_blpop, split_last, whole_double,
}
use true_store.Lists.Shape.{lists-NoEmpty}

-- Only the sorted sets, or only the lists, may have changed.
abbrev pub SetsOnly : {P : Platform} → Store P → Store P → Type 0
SetsOnly s t = SameParts (record s { sorted_sets = t.sorted_sets }) t

abbrev ListsOnly : {P : Platform} → Store P → Store P → Type 0
ListsOnly s t = SameParts (record s { dynamic_vector = t.dynamic_vector }) t

module _ {P : Platform} (now : Now) where
  zadd_entries-SetsOnly :
      (key : Bytes) (entries : Option (List (P.Double × Bytes))) (s : Store P)
      → SetsOnly s (zadd_entries now key entries s).1
  unfolding zadd_entries
  zadd_entries-SetsOnly key none s = same s
  zadd_entries-SetsOnly key (some entries) s = ground (arith, set_type-Same now key s)

  zadd-SetsOnly : (args : List Bytes) (s : Store P) → SetsOnly s (handle_zadd now args s).1
  unfolding handle_zadd
  zadd-SetsOnly (w ∷ key ∷ score ∷ member ∷ rest) s =
      ground (arith, zadd_entries-SetsOnly key (read_entries P.doubles (score ∷ member ∷ rest)) s)
  zadd-SetsOnly _ s = same s

  zrem-SetsOnly : (args : List Bytes) (s : Store P) → SetsOnly s (handle_zrem now args s).1
  unfolding handle_zrem zrem_members
  zrem-SetsOnly (w ∷ key ∷ member ∷ rest) s = ground (arith, set_type-Same now key s)
  zrem-SetsOnly _ s = same s

module _ {P : Platform} where
  rpush-ListsOnly : (args : List Bytes) (s : Store P) → ListsOnly s (handle_rpush args s).1
  unfolding handle_rpush
  rpush-ListsOnly (w ∷ key ∷ value ∷ rest) s = ground arith
  rpush-ListsOnly _ s = same s

  lpush-ListsOnly : (args : List Bytes) (s : Store P) → ListsOnly s (handle_lpush args s).1
  unfolding handle_lpush
  lpush-ListsOnly (w ∷ key ∷ value ∷ rest) s = ground arith
  lpush-ListsOnly _ s = same s

  pop_one-ListsOnly :
      (key : Bytes) (list : List Bytes) (s : Store P) → ListsOnly s (pop_one key list s).1
  unfolding pop_one
  pop_one-ListsOnly key [] s = same s
  pop_one-ListsOnly key (first ∷ rest) s = ground arith

  pop_count-ListsOnly :
      (key : Bytes) (n : ℕ) (list : List Bytes) (s : Store P)
      → ListsOnly s (pop_count key n list s).1
  unfolding pop_count
  pop_count-ListsOnly key n [] s = same s
  pop_count-ListsOnly key zero (first ∷ rest) s = same s
  pop_count-ListsOnly key (suc n) (first ∷ rest) s = ground arith

  pop_parsed-ListsOnly :
      (key : Bytes) (n : Option ℤ) (s : Store P) → ListsOnly s (pop_parsed key n s).1
  unfolding pop_parsed
  pop_parsed-ListsOnly key none s = same s
  pop_parsed-ListsOnly key (some (negsuc n)) s = same s
  pop_parsed-ListsOnly key (some (pos n)) s = pop_count-ListsOnly key n _ s

  lpop-ListsOnly : (args : List Bytes) (s : Store P) → ListsOnly s (handle_lpop args s).1
  unfolding handle_lpop
  lpop-ListsOnly (w ∷ key ∷ []) s = pop_one-ListsOnly key _ s
  lpop-ListsOnly (w ∷ key ∷ n ∷ []) s = pop_parsed-ListsOnly key (stoll n) s
  lpop-ListsOnly _ s = same s

  pub try_blpop-ListsOnly : (ks : List Bytes) (s : Store P) → ListsOnly s (try_blpop ks s).1
  unfolding try_blpop queue_propagation
  try_blpop-ListsOnly [] s = same s
  try_blpop-ListsOnly (key ∷ ks) s = ground (arith, try_blpop-ListsOnly ks s)

  blpop_parsed-ListsOnly :
      (ks : List Bytes) (timeout : Option P.Double) (s : Store P)
      → ListsOnly s (blpop_parsed ks timeout s).1
  unfolding blpop_parsed blpop_keys
  blpop_parsed-ListsOnly ks none s = same s
  blpop_parsed-ListsOnly ks (some t) s = ground (arith, try_blpop-ListsOnly ks s)

  blpop-ListsOnly : (args : List Bytes) (s : Store P) → ListsOnly s (handle_blpop args s).1
  unfolding handle_blpop
  blpop-ListsOnly (w ∷ key ∷ next ∷ rest) s =
      let t : Store P = record s { pending_block = none } in
      let (ks, last) = split_last key (next ∷ rest) in
      ground (arith, blpop_parsed-ListsOnly ks (whole_double P last) t)
  blpop-ListsOnly _ s = ground arith

module _ {P : Platform} (laws : DoubleLaws P.doubles) (now : Now) where
  pub zadd-IsSound :
      (args : List Bytes) (s : Store P) → IsSound s → IsSound (handle_zadd now args s).1
  zadd-IsSound args s sound =
      sets-IsSound s _ sound (zadd-SetsOnly now args s)
        (handlers-AllAgree laws now args s sound.sets).0

  pub zrem-IsSound :
      (args : List Bytes) (s : Store P) → IsSound s → IsSound (handle_zrem now args s).1
  zrem-IsSound args s sound =
      sets-IsSound s _ sound (zrem-SetsOnly now args s)
        (handlers-AllAgree laws now args s sound.sets).1

module _ {P : Platform} (args : List Bytes) (s : Store P) (sound : IsSound s) where
  pub rpush-IsSound : IsSound (handle_rpush args s).1
  rpush-IsSound =
      lists-IsSound s _ sound (rpush-ListsOnly args s) (lists-NoEmpty args s sound.lists).0

  pub lpush-IsSound : IsSound (handle_lpush args s).1
  lpush-IsSound =
      lists-IsSound s _ sound (lpush-ListsOnly args s) (lists-NoEmpty args s sound.lists).1

  pub lpop-IsSound : IsSound (handle_lpop args s).1
  lpop-IsSound =
      lists-IsSound s _ sound (lpop-ListsOnly args s) (lists-NoEmpty args s sound.lists).2

  pub blpop-IsSound : IsSound (handle_blpop args s).1
  blpop-IsSound =
      lists-IsSound s _ sound (blpop-ListsOnly args s) (lists-NoEmpty args s sound.lists).3

  pub try_blpop-IsSound : IsSound (try_blpop args s).1
  try_blpop-IsSound =
      lists-IsSound s _ sound (try_blpop-ListsOnly args s) (lists-NoEmpty args s sound.lists).4
