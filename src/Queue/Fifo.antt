-- ===== src/Queue/Fifo.antt =====
-- The operations of task5_designPattren/queue.c on the sequence of tasks.
use making_chat_on_c.Base.{
  ◌==◌, ◌≡◌, ◌≢◌, ◌↔◌, refl, Bool, true, false, ◌&&◌, ◌⊎◌, sym, [], ◌∷◌, ◌++◌, none, some, arith,
  if◌then◌else◌,
}
use mathlib.Core.Path.{subst}
use making_chat_on_c.Queue.{
  Ptr, node, Heap, write, Queue, queue, Step, ok, exited, waiting, create_queue, enqueue, dequeue,
  is_empty,
}
use making_chat_on_c.Queue.Cells.{
  Cells, IsQueue, first_of_cells, last_of_cells, Linked, Linked-write, has_of_none, last-node,
  Linked-snoc, last-append,
}

-- An operation that succeeds, and what it leaves.
pub data Succeeds {A : Type 0} (P : A → Heap → Type 0) : Step A → Type 0 where
  succeeds : {a : A} {g : Heap} → P a g → Succeeds P (ok a g)

-- `createQueue` gives the empty queue exactly when the memory, the mutex and the condition
-- variable are there, and exits with 1 otherwise.
pub create_queue-IsQueue :
    (block : Ptr) (mutex_ready cond_ready : Bool) (h : Heap)
    → ((create_queue block mutex_ready cond_ready h ≡ exited 1)
        × ((block ≡ 0) ⊎ ((mutex_ready && cond_ready) ≡ false)))
      ⊎ ((create_queue block mutex_ready cond_ready h ≡ ok (queue 0 0) h)
          × IsQueue h (queue 0 0) []
          × (block ≢ 0)
          × ((mutex_ready && cond_ready) ≡ true))
unfolding create_queue
create_queue-IsQueue block mutex_ready cond_ready h = ground arith

module _ (h : Heap) (q : Queue) (block task : Ptr) (ne : block ≢ 0) where
  enqueue-nil :
      q.head ≡ 0
      → enqueue block q task h ≡ ok (queue block block) (write h block (some (node 0 task)))
  unfolding enqueue
  enqueue-nil e = ground arith

  enqueue-cons :
      (last_task : Ptr)
      → q.head ≢ 0
      → q.tail ≢ 0
      → block ≢ q.tail
      → h q.tail ≡ some (node 0 last_task)
      → enqueue block q task h
        ≡ ok
            (queue q.head block)
            (write (write h block (some (node 0 task))) q.tail (some (node block last_task)))
  unfolding enqueue write
  enqueue-cons last_task some_head some_tail apart ends = ground arith

-- Given an unused address, `enqueue` puts the task behind all others, and the queue is well-formed
-- again.
pub enqueue-IsQueue :
    {h : Heap} {q : Queue} (block task : Ptr) (xs : Cells)
    → IsQueue h q xs
    → block ≢ 0
    → h block ≡ none
    → Succeeds (λ q' g. IsQueue g q' (xs ++ (block, task) ∷ [])) (enqueue block q task h)
unfolding write
enqueue-IsQueue {h} {q} block task [] is ne unused =
    rw (enqueue-nil h q block task ne is.head)
      (succeeds (record { head = refl; tail = refl; linked = (ne, ground arith, refl, tt) }))
enqueue-IsQueue {h} {q} block task (c ∷ xs) is ne unused =
    let (last_task, ends, some_last) = last-node h c xs is.linked in
    let out = has_of_none h block (c ∷ xs) is.linked unused in
    let apart : block ≢ q.tail = ground arith in
    let stored = write h block (some (node 0 task)) in
    let ends' : stored (last_of_cells (c ∷ xs)) ≡ some (node 0 last_task) =
      ground (arith, is.tail) in
    rw
      (enqueue-cons h q block task ne last_task (ground (arith, is.head, is.linked))
        (ground (arith, is.tail)) apart (ground (arith, is.tail)))
      (succeeds (record {
        head = is.head;
        tail = sym (last-append c xs block task);
        linked =
            subst
              (λ a.
                Linked (write stored a (some (node block last_task)))
                  ((c ∷ xs) ++ (block, task) ∷ []))
              (sym is.tail)
              (Linked-snoc stored block task last_task c xs
                (Linked-write h block (some (node 0 task)) (c ∷ xs) is.linked out) out ne
                (ground arith) ends');
      }))

module _ (h : Heap) (q : Queue) (p next task : Ptr) where
  dequeue-node :
      q.head ≡ p
      → p ≢ 0
      → h p ≡ some (node next task)
      → dequeue (some q) h
        ≡ ok (task, some (queue next (if next == 0 then 0 else q.tail))) (write h p none)
  unfolding dequeue
  dequeue-node at some_head e = ground arith

-- The queue behind its first node.
rest-IsQueue :
    (h : Heap) (q : Queue) (block task : Ptr) (xs : Cells)
    → IsQueue h q ((block, task) ∷ xs)
    → IsQueue
        (write h block none)
        (queue (first_of_cells xs) (if first_of_cells xs == 0 then 0 else q.tail))
        xs
rest-IsQueue h q block task [] is = record { head = refl; tail = refl; linked = tt }
rest-IsQueue h q block task ((p, t) ∷ xs) is = record {
  head = refl;
  tail = ground (arith, is.tail);
  linked = Linked-write h block none ((p, t) ∷ xs) is.linked.3 is.linked.2;
}

-- `dequeue` takes the first task, frees its node, and leaves the rest of the queue well-formed.
pub dequeue-IsQueue :
    {h : Heap} {q : Queue} (block task : Ptr) (xs : Cells)
    → IsQueue h q ((block, task) ∷ xs)
    → Succeeds
        (λ (got, rest) g.
          (got ≡ task)
          × (g ≡ write h block none)
          × ((q' : Queue) × (rest ≡ some q') × IsQueue g q' xs))
        (dequeue (some q) h)
dequeue-IsQueue {h} {q} block task xs is =
    rw (dequeue-node h q block (first_of_cells xs) task is.head is.linked.0 is.linked.1)
      (succeeds (refl, refl, (_, refl, rest-IsQueue h q block task xs is)))

-- `dequeue` waits, and `isEmpty` is 1, exactly when the queue holds nothing.
pub dequeue_waits_iff :
    {h : Heap} {q : Queue} (xs : Cells)
    → IsQueue h q xs
    → ((dequeue (some q) h ≡ waiting) ↔ (xs ≡ [])) × ((is_empty (some q) ≡ 1) ↔ (xs ≡ []))
unfolding dequeue is_empty
dequeue_waits_iff [] is = ground arith
dequeue_waits_iff (c ∷ xs) is = ground arith
