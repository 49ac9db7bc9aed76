-- ===== src/Store.antt =====
-- store/store.hpp and store/store.cpp: the state that all commands share, lazy expiry and types.
-- A handler takes the clock readings, the arguments and the store, and returns the bytes of its
-- reply with the new store. The handlers of each command family are in the modules below.
pub mod Types
pub mod Expiry
use true_store.Base.{
  ℕ, zero, suc, ◌+◌, ◌-◌, ◌*◌, ◌/◌, ◌%◌, ◌^◌, ◌≤◌, ◌<◌, String, ◌≡◌, refl, sym, ap, ◌∙◌, ◌≢◌, ◌↔◌,
  ◌⊎◌, inl, inr, Bool, true, false, not, ◌&&◌, ◌||◌, Option, none, some, List, [], ◌∷◌, ◌++◌, map,
  append_assoc, append-nil, arith, ltb, leb, ◌==◌, if◌then◌else◌, ltb→lt, lt→ltb, leb→le, le→leb,
  ltb-false, leb-false, ==_iff, tests, Bool-cases, Option-cases, if_both, length, get_elem?, take,
  drop, get_or, set, replicate, All, length-append, drop-append, take-append, take-append-drop,
  length-take, length-drop, length-set, length-replicate, ℤ, pos, negsuc, pos_part, neg_part, sub_ℕ,
  ◌+ℤ◌, ◌-ℤ◌, ◌≤ℤ◌, ltb_ℤ, leb_ℤ, is_negative, of_bits, wrap_i64, wrap_i64_fits,
}
use true_store.Text.{Bytes, codes}
use true_store.Dict.{Dict, find, insert, erase, contains, keys}
use true_store.Resp.{RespType, simple_string, simple_error, array, to_bytes}
use true_store.Platform.{Platform, Now}
use Types.{
  Store, KeyType, type_none, type_string, type_list, type_stream, type_zset, type_name,
  BlockRequest, arity_error,
}

-- The clocks are read once for a command; a deadline that has come ends the string.
module _ {P : Platform} (now : Now) where
  unfoldable pub is_expired : Bytes → Store P → Bool × Store P
  is_expired key s = elim (find key s.expirations) [
    | none ↦ (false, s)
    | some deadline ↦
        if leb_ℤ deadline now.steady
        then (
          true,
          record s { expirations = erase key s.expirations; storage = erase key s.storage },
        )
        else (false, s)
  ]

  -- The type of a key that has not expired.
  unfoldable pub live_type : Bytes → Store P → KeyType
  live_type key s =
      if contains key s.storage
      then type_string
      else if contains key s.dynamic_vector
      then type_list
      else if contains key s.streams
      then type_stream
      else if contains key s.sorted_sets
      then type_zset
      else type_none

  unfoldable pub key_type : Bytes → Store P → KeyType × Store P
  key_type key s =
      let (expired, s') = is_expired key s in
      if expired then (type_none, s') else (live_type key s', s')

  unfoldable pub peek : Bytes → Store P → Option Bytes × Store P
  peek key s =
      let (expired, s') = is_expired key s in
      if expired then (none, s') else (find key s'.storage, s')

  unfoldable pub handle_type : List Bytes → Store P → Bytes × Store P
  handle_type (_ ∷ key ∷ []) s =
      let (t, s') = key_type key s in (to_bytes (simple_string (type_name t)), s')
  handle_type _ s = (arity_error "type", s)

  -- The loop of `handle_keys` over the candidates.
  unfoldable pub match_keys : Bytes → List Bytes → Store P → List Bytes × Store P
  match_keys pattern [] s = ([], s)
  match_keys pattern (key ∷ rest) s =
      let (expired, s') = is_expired key s in
      let (matched, s'') = match_keys pattern rest s' in
      (if expired then matched else if P.fnmatch pattern key then key ∷ matched else matched, s'')

  unfoldable pub handle_keys : List Bytes → Store P → Bytes × Store P
  handle_keys (_ ∷ pattern ∷ []) s =
      let (matched, s') =
        match_keys pattern
          (keys s.storage
            ++ (P.hash_order (keys s.dynamic_vector)
                ++ (P.hash_order (keys s.streams) ++ P.hash_order (keys s.sorted_sets))))
          s in
      (to_bytes (array matched), s')
  handle_keys _ s = (arity_error "keys", s)

module _ {P : Platform} where
  unfoldable pub bump_repl_offset : ℕ → Store P → Store P
  bump_repl_offset bytes s = record s {
    master_repl_offset = wrap_i64 (s.master_repl_offset +ℤ pos bytes);
  }

  unfoldable pub set_repl_offset : ℤ → Store P → Store P
  set_repl_offset value s = record s { master_repl_offset = value }

  unfoldable pub take_pending_block : Store P → Option (BlockRequest P.Double) × Store P
  take_pending_block s = (s.pending_block, record s { pending_block = none })

  unfoldable pub queue_propagation : List Bytes → Store P → Store P
  queue_propagation args s = record s { pending_propagations = s.pending_propagations ++ args ∷ [] }

  unfoldable pub take_pending_propagations : Store P → List (List Bytes) × Store P
  take_pending_propagations s = (s.pending_propagations, record s { pending_propagations = [] })

  unfoldable pub take_pending_messages : Store P → List (ℤ × Bytes) × Store P
  take_pending_messages s = (s.pending_messages, record s { pending_messages = [] })
