-- ===== src/Lists/Shape.antt =====
-- No key holds an empty list.
use true_store.Base.{
  ℕ, zero, suc, ◌≢◌, inl, inr, Option, none, some, List, [], ◌∷◌, ◌++◌, arith, Bool-cases,
  Option-cases, List-cases, if_both, drop, ℤ, pos, negsuc,
}
use true_store.Text.{Bytes}
use true_store.Dict.{Dict, find, insert, find-insert, find-erase}
use true_store.Platform.{Platform}
use true_store.Store.Types.{Store}
use true_store.Text.Parse.{stoll}
use true_store.Store.{queue_propagation}
use true_store.Lists.{
  or_empty, push_front, store_rest, handle_rpush, handle_lpush, pop_one, pop_count, pop_parsed,
  handle_lpop, try_blpop, blpop_keys, blpop_parsed, any_contains, handle_blpop,
}

abbrev pub NoEmpty : Dict (List Bytes) → Type 0
NoEmpty m = (j : Bytes) → find j m ≢ some []

insert-NoEmpty :
    (key : Bytes) (list : List Bytes) (m : Dict (List Bytes))
    → list ≢ []
    → NoEmpty m
    → NoEmpty (insert key list m)
insert-NoEmpty key list m ne h j = ground (arith, find-insert j key list m, h j)

store_rest-NoEmpty :
    (key : Bytes) (rest : List Bytes) (m : Dict (List Bytes))
    → NoEmpty m
    → NoEmpty (store_rest key rest m)
unfolding store_rest
store_rest-NoEmpty key [] m h = λ j. ground (arith, find-erase j key m, h j)
store_rest-NoEmpty key (v ∷ rest) m h = insert-NoEmpty key (v ∷ rest) m (λ p. cc) h

push_front-ne-nil : (vs list : List Bytes) → list ≢ [] → push_front vs list ≢ []
unfolding push_front
push_front-ne-nil [] list h = h
push_front-ne-nil (v ∷ vs) list h = push_front-ne-nil vs (v ∷ list) (λ p. cc)

append-ne-nil : (xs : List Bytes) (v : Bytes) (vs : List Bytes) → xs ++ v ∷ vs ≢ []
append-ne-nil [] v vs = λ p. cc
append-ne-nil (x ∷ xs) v vs = λ p. cc

module _ {P : Platform} where
  rpush-NoEmpty :
      (args : List Bytes) (s : Store P)
      → NoEmpty s.dynamic_vector
      → NoEmpty (handle_rpush args s).1.dynamic_vector
  unfolding handle_rpush
  rpush-NoEmpty (c ∷ key ∷ v ∷ vs) s h = insert-NoEmpty key _ _ (append-ne-nil _ v vs) h
  rpush-NoEmpty _ s h = h

  lpush-NoEmpty :
      (args : List Bytes) (s : Store P)
      → NoEmpty s.dynamic_vector
      → NoEmpty (handle_lpush args s).1.dynamic_vector
  unfolding handle_lpush
  lpush-NoEmpty (c ∷ key ∷ v ∷ vs) s h =
      insert-NoEmpty key (push_front (v ∷ vs) (or_empty (find key s.dynamic_vector))) _
        (unfold push_front in
          push_front-ne-nil vs (v ∷ or_empty (find key s.dynamic_vector)) (λ p. cc))
        h
  lpush-NoEmpty _ s h = h

  pop_one-NoEmpty :
      (key : Bytes) (list : List Bytes) (s : Store P)
      → NoEmpty s.dynamic_vector
      → NoEmpty (pop_one key list s).1.dynamic_vector
  unfolding pop_one
  pop_one-NoEmpty key [] s h = h
  pop_one-NoEmpty key (v ∷ rest) s h = store_rest-NoEmpty key rest _ h

  pop_count-NoEmpty :
      (key : Bytes) (n : ℕ) (list : List Bytes) (s : Store P)
      → NoEmpty s.dynamic_vector
      → NoEmpty (pop_count key n list s).1.dynamic_vector
  unfolding pop_count
  pop_count-NoEmpty key n [] s h = h
  pop_count-NoEmpty key zero (v ∷ rest) s h = h
  pop_count-NoEmpty key (suc n) (v ∷ rest) s h = store_rest-NoEmpty key (drop n rest) _ h

  pop_parsed-NoEmpty :
      (key : Bytes) (n : Option ℤ) (s : Store P)
      → NoEmpty s.dynamic_vector
      → NoEmpty (pop_parsed key n s).1.dynamic_vector
  unfolding pop_parsed
  pop_parsed-NoEmpty key none s h = h
  pop_parsed-NoEmpty key (some (negsuc n)) s h = h
  pop_parsed-NoEmpty key (some (pos n)) s h = pop_count-NoEmpty key n _ s h

  lpop-NoEmpty :
      (args : List Bytes) (s : Store P)
      → NoEmpty s.dynamic_vector
      → NoEmpty (handle_lpop args s).1.dynamic_vector
  unfolding handle_lpop
  lpop-NoEmpty (c ∷ key ∷ []) s h = pop_one-NoEmpty key _ s h
  lpop-NoEmpty (c ∷ key ∷ n ∷ []) s h = pop_parsed-NoEmpty key (stoll n) s h
  lpop-NoEmpty _ s h = h

  pub try_blpop-NoEmpty :
      (ks : List Bytes) (s : Store P)
      → NoEmpty s.dynamic_vector
      → NoEmpty (try_blpop ks s).1.dynamic_vector
  unfolding try_blpop queue_propagation
  try_blpop-NoEmpty [] s h = h
  try_blpop-NoEmpty (key ∷ ks) s h = elim (List-cases (or_empty (find key s.dynamic_vector))) [
    | inl e ↦ rw (e, try_blpop) (try_blpop-NoEmpty ks s h)
    | inr (v, rest, e) ↦ rw (e, try_blpop) (store_rest-NoEmpty key rest s.dynamic_vector h)
  ]

  blpop_keys-NoEmpty :
      (ks : List Bytes) (timeout : P.Double) (s : Store P)
      → NoEmpty s.dynamic_vector
      → NoEmpty (blpop_keys ks timeout s).1.dynamic_vector
  unfolding blpop_keys
  blpop_keys-NoEmpty ks timeout s h = elim (Bool-cases (any_contains ks s.sorted_sets)) [
    | inl e ↦ rw e h
    | inr e ↦ rw e (elim (Option-cases (try_blpop ks s).0) [
      | inl n ↦ rw n (try_blpop-NoEmpty ks s h)
      | inr ((k, v), n) ↦ rw n (try_blpop-NoEmpty ks s h)
    ])
  ]

  blpop_parsed-NoEmpty :
      (ks : List Bytes) (timeout : Option P.Double) (s : Store P)
      → NoEmpty s.dynamic_vector
      → NoEmpty (blpop_parsed ks timeout s).1.dynamic_vector
  unfolding blpop_parsed
  blpop_parsed-NoEmpty ks none s h = h
  blpop_parsed-NoEmpty ks (some t) s h =
      if_both (λ (r : Bytes × Store P). NoEmpty r.1.dynamic_vector) _ h
        (blpop_keys-NoEmpty ks t s h)

  blpop-NoEmpty :
      (args : List Bytes) (s : Store P)
      → NoEmpty s.dynamic_vector
      → NoEmpty (handle_blpop args s).1.dynamic_vector
  unfolding handle_blpop
  blpop-NoEmpty (c ∷ key ∷ next ∷ rest) s h =
      blpop_parsed-NoEmpty _ _ (record s { pending_block = none }) h
  blpop-NoEmpty _ s h = h

  -- Whatever the arguments, RPUSH, LPUSH, LPOP, BLPOP and the retry of a blocked BLPOP leave no
  -- empty list behind, if there was none.
  pub lists-NoEmpty :
      (args : List Bytes) (s : Store P)
      → NoEmpty s.dynamic_vector
      → NoEmpty (handle_rpush args s).1.dynamic_vector
        × NoEmpty (handle_lpush args s).1.dynamic_vector
        × NoEmpty (handle_lpop args s).1.dynamic_vector
        × NoEmpty (handle_blpop args s).1.dynamic_vector
        × NoEmpty (try_blpop args s).1.dynamic_vector
  lists-NoEmpty args s h = (
    rpush-NoEmpty args s h,
    lpush-NoEmpty args s h,
    lpop-NoEmpty args s h,
    blpop-NoEmpty args s h,
    try_blpop-NoEmpty args s h,
  )
