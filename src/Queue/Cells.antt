-- ===== src/Queue/Cells.antt =====
-- What a queue on the heap stands for: its nodes in order, each an address and a task.
use making_chat_on_c.Base.{
  ◌==◌, ◌≡◌, ◌≢◌, refl, Bool, false, ◌||◌, List, [], ◌∷◌, ◌++◌, Option, none, some, arith,
}
use making_chat_on_c.Queue.{Ptr, Node, node, Heap, write, Queue}

abbrev pub Cells : Type 0
Cells = List (Ptr × Ptr)

abbrev pub has : Ptr → Cells → Bool
has a [] = false
has a ((p, _) ∷ xs) = (a == p) || has a xs

abbrev pub first_of_cells : Cells → Ptr
first_of_cells [] = 0
first_of_cells ((p, _) ∷ xs) = p

abbrev pub last_of_cells : Cells → Ptr
last_of_cells [] = 0
last_of_cells ((p, _) ∷ []) = p
last_of_cells (c ∷ d ∷ xs) = last_of_cells (d ∷ xs)

-- Distinct allocated nodes, each linked to the one behind it and the last to `NULL`.
abbrev pub Linked : Heap → Cells → Type 0
Linked h [] = Unit {0}
Linked h ((p, task) ∷ xs) =
    (p ≢ 0) × (h p ≡ some (node (first_of_cells xs) task)) × (has p xs ≡ false) × Linked h xs

pub record IsQueue (h : Heap) (q : Queue) (xs : Cells) : Type 0 where
  pub head : q.head ≡ first_of_cells xs
  pub tail : q.tail ≡ last_of_cells xs
  pub linked : Linked h xs

has-append : (a : Ptr) (xs ys : Cells) → has a (xs ++ ys) ≡ (has a xs || has a ys)
has-append a [] ys = refl
has-append a ((p, task) ∷ xs) ys = ground (arith, has-append a xs ys)

has-last :
    (p : Ptr) (d : Ptr × Ptr) (xs : Cells)
    → has p (d ∷ xs) ≡ false
    → (p == last_of_cells (d ∷ xs)) ≡ false
has-last p d [] e = ground arith
has-last p d (c ∷ xs) e = has-last p c xs (ground arith)

-- An address outside a list is not its first, and is outside the rest.
pub ne_of_has :
    (a p task : Ptr) (xs : Cells) → has a ((p, task) ∷ xs) ≡ false → (a ≢ p) × (has a xs ≡ false)
ne_of_has a p task xs out = (ground arith, ground arith)

pub last-append :
    (c : Ptr × Ptr) (xs : Cells) (block task : Ptr)
    → last_of_cells ((c ∷ xs) ++ (block, task) ∷ []) ≡ block
last-append c [] block task = refl
last-append c (d ∷ xs) block task = last-append d xs block task

module _ (h : Heap) where
  -- A write to another address leaves a list as it is.
  pub Linked-write :
      (a : Ptr) (c : Option Node) (xs : Cells)
      → Linked h xs
      → has a xs ≡ false
      → Linked (write h a c) xs
  unfolding write
  Linked-write a c [] l out = tt
  Linked-write a c ((p, task) ∷ xs) l out =
      (l.0, ground arith, l.2, Linked-write a c xs l.3 (ground arith))

  -- An address where nothing is allocated is not in the list.
  pub has_of_none : (a : Ptr) (xs : Cells) → Linked h xs → h a ≡ none → has a xs ≡ false
  has_of_none a [] l e = refl
  has_of_none a ((p, task) ∷ xs) l e = ground (arith, has_of_none a xs l.3)

  -- The last node ends the list.
  pub last-node :
      (c : Ptr × Ptr) (xs : Cells)
      → Linked h (c ∷ xs)
      → (task : Ptr) × (h (last_of_cells (c ∷ xs)) ≡ some (node 0 task))
        × (last_of_cells (c ∷ xs) ≢ 0)
  last-node (p, task) [] l = (task, l.1, l.0)
  last-node (p, task) (d ∷ xs) l = last-node d xs l.3

  -- Linking a new node behind the last.
  pub Linked-snoc :
      (block task last_task : Ptr) (c : Ptr × Ptr) (xs : Cells)
      → Linked h (c ∷ xs)
      → has block (c ∷ xs) ≡ false
      → block ≢ 0
      → h block ≡ some (node 0 task)
      → h (last_of_cells (c ∷ xs)) ≡ some (node 0 last_task)
      → Linked
          (write h (last_of_cells (c ∷ xs)) (some (node block last_task)))
          ((c ∷ xs) ++ (block, task) ∷ [])
  unfolding write
  Linked-snoc block task last_task (p, t) [] l out ne stored ends =
      (l.0, ground arith, ground arith, (ne, ground arith, refl, tt))
  Linked-snoc block task last_task (p, t) ((d, u) ∷ xs) l out ne stored ends = (
    l.0,
    ground (arith, has-last p (d, u) xs),
    ground (arith, has-append p ((d, u) ∷ xs) ((block, task) ∷ [])),
    Linked-snoc block task last_task (d, u) xs l.3 (ground arith) ne stored ends,
  )
