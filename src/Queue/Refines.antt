-- ===== src/Queue/Refines.antt =====
-- task5_designPattren/queue.c next to a plain list of tasks, over any sequence of operations.
use making_chat_on_c.Base.{
  ◌==◌, ◌≡◌, ◌≢◌, ◌⊎◌, inl, inr, ◌∙◌, ap, sym, refl, true, false, List, [], ◌∷◌, ◌++◌, Option, some,
  none, map, arith, if◌then◌else◌,
}
use mathlib.Core.Path.{subst}
use making_chat_on_c.Queue.{
  Ptr, Heap, write, Queue, Step, ok, exited, waiting, fault, out_of_fuel, enqueue, dequeue,
}
use making_chat_on_c.Queue.Cells.{Cells, IsQueue}
use making_chat_on_c.Queue.Fifo.{
  Succeeds, succeeds, enqueue-IsQueue, dequeue-IsQueue, dequeue_waits_iff,
}

-- `put` is `enqueue` with what its `malloc` returns, `get` is `dequeue`.
pub data Operation : Type 0 where
  put : Ptr → Ptr → Operation
  get : Operation

-- How a sequence of operations ends: `asleep` is a `dequeue` that waits, `failed` the exit when
-- there is no memory, and `broken` an access outside of the nodes.
pub data Fate : Type 0 where
  finished asleep failed broken : Fate

abbrev pub noting : Ptr → List Ptr × Fate → List Ptr × Fate
noting task (tasks, fate) = (task ∷ tasks, fate)

-- The operations on the heap: the tasks that `dequeue` has returned, and the end.
abbrev pub operate : List Operation → Queue → Heap → List Ptr × Fate
operate [] q h = ([], finished)
operate (put block task ∷ operations) q h = elim (enqueue block q task h) [
  | ok q' g ↦ operate operations q' g
  | exited n ↦ ([], failed)
  | waiting ↦ ([], asleep)
  | fault ↦ ([], broken)
  | out_of_fuel ↦ ([], broken)
]
operate (get ∷ operations) q h = elim (dequeue (some q) h) [
  | ok (task, some q') g ↦ noting task (operate operations q' g)
  | ok (task, none) g ↦ ([], broken)
  | exited n ↦ ([], failed)
  | waiting ↦ ([], asleep)
  | fault ↦ ([], broken)
  | out_of_fuel ↦ ([], broken)
]

-- The same on a list: nothing is written here of nodes.
abbrev pub fifo : List Operation → List Ptr → List Ptr × Fate
fifo [] tasks = ([], finished)
fifo (put block task ∷ operations) tasks =
    if block == 0 then ([], failed) else fifo operations (tasks ++ task ∷ [])
fifo (get ∷ operations) [] = ([], asleep)
fifo (get ∷ operations) (task ∷ tasks) = noting task (fifo operations tasks)

abbrev pub AfterIt : {A : Type 0} → (A → Heap → Type 0) → Step A → Type 0
AfterIt P (ok a g) = P a g
AfterIt P (exited n) = Unit {0}
AfterIt P waiting = Unit {0}
AfterIt P fault = Unit {0}
AfterIt P out_of_fuel = Unit {0}

abbrev pub AfterGet : (Queue → Heap → Type 0) → Ptr × Option Queue → Heap → Type 0
AfterGet P (task, some q) g = P q g
AfterGet P (task, none) g = Unit {0}

-- Each `malloc` fails or returns an address where no node is allocated then.
abbrev pub Allocates : List Operation → Queue → Heap → Type 0
Allocates [] q h = Unit {0}
Allocates (put block task ∷ operations) q h =
    ((block ≡ 0) ⊎ ((block ≢ 0) × (h block ≡ none)))
    × AfterIt (Allocates operations) (enqueue block q task h)
Allocates (get ∷ operations) q h = AfterIt (AfterGet (Allocates operations)) (dequeue (some q) h)

abbrev tasks_of : Cells → List Ptr
tasks_of cells = map (λ (cell : Ptr × Ptr). cell.1) cells

tasks_of-append :
    (cells : Cells) (block task : Ptr)
    → tasks_of (cells ++ (block, task) ∷ []) ≡ tasks_of cells ++ task ∷ []
tasks_of-append [] block task = refl
tasks_of-append ((p, t) ∷ cells) block task = ap (λ l. t ∷ l) (tasks_of-append cells block task)

-- What the two do alike from a queue with these nodes.
Alike : List Operation → Type 0
Alike operations =
    (q : Queue) (h : Heap) (cells : Cells)
    → IsQueue h q cells
    → Allocates operations q h
    → operate operations q h ≡ fifo operations (tasks_of cells)

put-Alike :
    (operations : List Operation) (cells : Cells) (m : Step Queue)
    → Alike operations
    → Succeeds (λ q g. IsQueue g q cells) m
    → AfterIt (Allocates operations) m
    → elim m [
      | ok q g ↦ operate operations q g
      | exited n ↦ ([], failed)
      | waiting ↦ ([], asleep)
      | fault ↦ ([], broken)
      | out_of_fuel ↦ ([], broken)
    ]
      ≡ fifo operations (tasks_of cells)
unfolding Alike
put-Alike operations cells (ok q g) alike (succeeds is) allocates = alike q g cells is allocates
put-Alike operations cells (exited n) alike s allocates = elim s [ ]
put-Alike operations cells waiting alike s allocates = elim s [ ]
put-Alike operations cells fault alike s allocates = elim s [ ]
put-Alike operations cells out_of_fuel alike s allocates = elim s [ ]

get-Alike :
    (operations : List Operation) (block task : Ptr) (cells : Cells) (h : Heap)
    (m : Step (Ptr × Option Queue))
    → Alike operations
    → Succeeds
        (λ (got, rest) g.
          (got ≡ task)
          × (g ≡ write h block none)
          × ((q' : Queue) × (rest ≡ some q') × IsQueue g q' cells))
        m
    → AfterIt (AfterGet (Allocates operations)) m
    → elim m [
      | ok (task, some q') g ↦ noting task (operate operations q' g)
      | ok (task, none) g ↦ ([], broken)
      | exited n ↦ ([], failed)
      | waiting ↦ ([], asleep)
      | fault ↦ ([], broken)
      | out_of_fuel ↦ ([], broken)
    ]
      ≡ noting task (fifo operations (tasks_of cells))
unfolding Alike
get-Alike operations block task cells h (ok (got, some q) g) alike
      (succeeds (e, written, (q', f, is))) allocates =
    let same : q ≡ q' = ap (λ o. elim o [ none ↦ q | some x ↦ x ]) f in
    rw (e, alike q g cells (subst (λ x. IsQueue g x cells) (sym same) is) allocates) refl
get-Alike operations block task cells h (ok (got, none) g) alike
      (succeeds (e, written, (q', f, is))) allocates =
    absurd cc
get-Alike operations block task cells h (exited n) alike s allocates = elim s [ ]
get-Alike operations block task cells h waiting alike s allocates = elim s [ ]
get-Alike operations block task cells h fault alike s allocates = elim s [ ]
get-Alike operations block task cells h out_of_fuel alike s allocates = elim s [ ]

enqueue_no_memory :
    (block task : Ptr) (q : Queue) (h : Heap)
    → (block == 0) ≡ true
    → enqueue block q task h ≡ exited 1
unfolding enqueue
enqueue_no_memory block task q h fails = rw fails refl

operate-Alike : (operations : List Operation) → Alike operations
unfolding Alike
operate-Alike [] q h cells is allocates = refl
operate-Alike (put block task ∷ operations) q h cells is (inl failing, after) =
    let fails : (block == 0) ≡ true = ground arith in
    rw (operate, enqueue_no_memory block task q h fails, fails) refl
operate-Alike (put block task ∷ operations) q h cells is (inr (real, unused), after) =
    let real_test : (block == 0) ≡ false = ground arith in
    rw real_test (
      put-Alike operations (cells ++ (block, task) ∷ []) (enqueue block q task h)
        (operate-Alike operations) (enqueue-IsQueue block task cells is real unused) after
      ∙ ap (fifo operations) (tasks_of-append cells block task))
operate-Alike (get ∷ operations) q h [] is after =
    let sleeps : dequeue (some q) h ≡ waiting = (dequeue_waits_iff [] is).0.1 refl in
    rw (operate, sleeps) refl
operate-Alike (get ∷ operations) q h ((block, task) ∷ cells) is after =
    get-Alike operations block task cells h (dequeue (some q) h) (operate-Alike operations)
      (dequeue-IsQueue block task cells is) after

-- Over any sequence of operations, from any heap on which the queue is well-formed with these
-- nodes, the queue does what a plain list does: `dequeue` returns the same tasks in the same order,
-- and the sequence ends the same way, after all operations, in a `dequeue` of an empty queue, which
-- waits, or at the first `enqueue` without memory, which exits. No node is accessed that is not
-- allocated. Conditions: each `malloc` fails or returns an address where no node is allocated then.
pub operate-fifo :
    (operations : List Operation) (q : Queue) (h : Heap) (cells : Cells)
    → IsQueue h q cells
    → Allocates operations q h
    → operate operations q h ≡ fifo operations (map (λ (cell : Ptr × Ptr). cell.1) cells)
unfolding Alike
operate-fifo operations q h cells is allocates = operate-Alike operations q h cells is allocates
