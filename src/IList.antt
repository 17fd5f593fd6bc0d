-- ===== src/IList.antt =====
-- kernel/include/lib/v.h, v_ilist: the ordered insertion, on the sequence that a list holds.
-- (`v_ilist_prepend` at a head is `prepend` of `Base`, and a removal is written at its use.)
use minima.Base.{ℕ, suc, Option, none, some, List, [], ◌∷◌, ◌++◌, take, drop, prepend}

-- what a comparison returns: -1, 0 or 1
pub data Sign : Type 0 where
  minus nought plus : Sign

module _ {ℓ} {A : Type ℓ} where
  -- Where the loop of `v_ilist_insert` stops, and the value of `res` there. A comparison that
  -- leaves its result undetermined is `none`.
  unfoldable pub insert_walk :
      (A → A → Option Sign) → A → List A → ℕ → Sign → Sign → Option (ℕ × Sign)
  insert_walk compare node [] i res prev = some (i, res)
  insert_walk compare node (pos ∷ rest) i res prev = elim (compare node pos) [
    | none ↦ none
    | some minus ↦ elim prev [
      | minus ↦ insert_walk compare node rest (suc i) minus minus
      | _ ↦ some (i, nought)
    ]
    | some nought ↦ some (i, (elim prev [ nought ↦ plus | _ ↦ nought ]))
    | some plus ↦ elim prev [
      | plus ↦ insert_walk compare node rest (suc i) plus plus
      | _ ↦ some (i, nought)
    ]
  ]

  -- The three ways in which `v_ilist_insert` links the node.
  unfoldable pub insert_at : A → List A → ℕ × Sign → List A
  insert_at node xs (i, minus) = node ∷ xs
  insert_at node xs (i, nought) = take i xs ++ (node ∷ drop i xs)
  insert_at node xs (i, plus) = prepend node xs

  -- `v_ilist_insert`
  unfoldable pub insert : (A → A → Option Sign) → A → List A → Option (List A)
  unfolding insert_walk insert_at
  insert compare node xs = elim (insert_walk compare node xs 0 nought plus) [
    | none ↦ none
    | some stop ↦ some (insert_at node xs stop)
  ]
