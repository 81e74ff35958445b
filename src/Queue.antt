-- ===== src/Queue.antt =====
-- The blocking queue of task5_designPattren/queue.c on an explicit heap of nodes. The mutex makes
-- each operation one step, so an operation is a function of the queue and the heap that it meets.
pub mod Cells
pub mod Fifo
pub mod Delete
pub mod Refines
mod Tests
use making_chat_on_c.Base.{
  ℕ, zero, suc, ◌==◌, ◌≡◌, Bool, true, false, Option, none, some, if◌then◌else◌,
}

-- Addresses; `NULL` is 0. A task is a `void *`.
abbrev pub Ptr : Type 0
Ptr = ℕ

pub record Node : Type 0 where
  pub next : Ptr
  pub task : Ptr

abbrev pub node : Ptr → Ptr → Node
node next task = record { next = next; task = task }

-- The nodes that are allocated.
abbrev pub Heap : Type 0
Heap = Ptr → Option Node

unfoldable pub write : Heap → Ptr → Option Node → Heap
write h p c a = if a == p then c else h a

pub record Queue : Type 0 where
  pub head : Ptr
  pub tail : Ptr

abbrev pub queue : Ptr → Ptr → Queue
queue head tail = record { head = head; tail = tail }

-- `waiting` is a thread that sleeps in `pthread_cond_wait`, and `fault` an access through `NULL` or
-- to a node that is not allocated. `out_of_fuel` ends a loop that goes on.
pub data Step (A : Type 0) : Type 0 where
  ok : A → Heap → Step A
  exited : ℕ → Step A
  waiting fault out_of_fuel : Step A

infixl 5 ◌>>=◌ ◌>>◌
abbrev pub ◌>>=◌ : {A B : Type 0} → (Heap → Step A) → (A → Heap → Step B) → Heap → Step B
◌>>=◌ m f h = elim (m h) [
  | ok a g ↦ f a g
  | exited n ↦ exited n
  | waiting ↦ waiting
  | fault ↦ fault
  | out_of_fuel ↦ out_of_fuel
]

abbrev pub ◌>>◌ : {A B : Type 0} → (Heap → Step A) → (Heap → Step B) → Heap → Step B
m >> k = m >>= λ _. k

abbrev pub pure : {A : Type 0} → A → Heap → Step A
pure a h = ok a h

unfoldable pub load : Ptr → Heap → Step Node
load p h = if p == 0 then fault else elim (h p) [ none ↦ fault | some n ↦ ok n h ]

unfoldable pub store : Ptr → Node → Heap → Step (Unit {0})
store p n h = ok tt (write h p (some n))

unfoldable pub free : Ptr → Heap → Step (Unit {0})
free p h = elim (h p) [ none ↦ fault | some n ↦ ok tt (write h p none) ]

-- `malloc` gives `block`, 0 on failure; the mutex and the condition variable are ready or not.
unfoldable pub create_queue : Ptr → Bool → Bool → Heap → Step Queue
create_queue block mutex_ready cond_ready =
    if block == 0
    then (λ h. exited 1)
    else if mutex_ready
    then (if cond_ready then pure (queue 0 0) else λ h. exited 1)
    else λ h. exited 1

-- `block` is what `malloc` returns for the new node.
unfoldable pub enqueue : Ptr → Queue → Ptr → Heap → Step Queue
unfolding load store
enqueue block q task = if block == 0 then (λ h. exited 1) else do
  store block (node 0 task)
  if q.head == 0 then pure (queue block block) else do
    last ← load q.tail
    store q.tail (record last { next = block })
    pure (record q { tail = block })

-- `none` is a null `queue`. The result is the task and the queue.
unfoldable pub dequeue : Option Queue → Heap → Step (Ptr × Option Queue)
unfolding load free
dequeue none = pure (0, none)
dequeue (some q) = if q.head == 0 then (λ h. waiting) else do
  first ← load q.head
  free q.head
  pure (first.task, some (queue first.next (if first.next == 0 then 0 else q.tail)))

unfoldable pub is_empty : Option Queue → ℕ
is_empty none = 1
is_empty (some q) = if q.head == 0 then 1 else 0

-- The loop of `deleteQueue`. Its body frees `current` and moves on to `next`, and then the `for`
-- moves on once more, from there.
unfoldable pub delete_loop : ℕ → Ptr → Heap → Step (Unit {0})
unfolding load free
delete_loop zero current = λ h. out_of_fuel
delete_loop (suc fuel) current =
    if current == 0
    then pure tt
    else do n ← load current; free current; m ← load n.next; delete_loop fuel m.next

-- The nodes are released; the queue itself, its mutex and its condition are not in the heap, and
-- their release at the end is left out.
unfoldable pub delete_queue : ℕ → Option Queue → Heap → Step (Unit {0})
unfolding delete_loop
delete_queue fuel none = pure tt
delete_queue fuel (some q) = delete_loop fuel q.head
