-- ===== src/Queue/Tests.antt =====
-- The queue theorems at a heap with a queue of two tasks.
use making_chat_on_c.Base.{◌≡◌, ◌≢◌, ℕ, List, inr, refl, [], ◌∷◌, some, none, arith, if◌then◌else◌}
use making_chat_on_c.Queue.{node, Heap, write, queue, ok, fault, enqueue, dequeue, delete_queue}
use making_chat_on_c.Queue.Cells.{Cells, IsQueue}
use making_chat_on_c.Queue.Refines.{
  Operation, put, get, asleep, operate, fifo, Allocates, operate-fifo,
}
use making_chat_on_c.Queue.Delete.{even_length, free_every_second, delete_queue-cells}

abbrev two_nodes : Heap
two_nodes = write (write (λ _. none) 1 (some (node 2 70))) 2 (some (node 0 80))

abbrev two_tasks : Cells
two_tasks = (1, 70) ∷ (2, 80) ∷ []

two_tasks-IsQueue : IsQueue two_nodes (queue 1 2) two_tasks
unfolding write
two_tasks-IsQueue = record {
  head = refl;
  tail = refl;
  linked = (omega arith, refl, refl, (omega arith, refl, refl, tt));
}

-- The freed node 1 is given out again.
abbrev reuse : List Operation
reuse = put 3 90 ∷ get ∷ put 1 60 ∷ get ∷ get ∷ get ∷ get ∷ []

three_real : ◌≢◌ {A = ℕ} 3 0
three_real e = absurd (omega arith)

one_real : ◌≢◌ {A = ℕ} 1 0
one_real e = absurd (omega arith)

reuse-Allocates : Allocates reuse (queue 1 2) two_nodes
unfolding enqueue dequeue write
reuse-Allocates = (inr (three_real, refl), (inr (one_real, refl), tt))

operate-fifo_example : operate reuse (queue 1 2) two_nodes ≡ fifo reuse (70 ∷ 80 ∷ [])
operate-fifo_example =
    operate-fifo reuse (queue 1 2) two_nodes two_tasks two_tasks-IsQueue reuse-Allocates

reuse_lem : fifo reuse (70 ∷ 80 ∷ []) ≡ (70 ∷ 80 ∷ 90 ∷ 60 ∷ [], asleep)
reuse_lem = refl

delete_queue-cells_example :
    delete_queue 3 (some (queue 1 2)) two_nodes
    ≡ (if even_length two_tasks then ok tt (free_every_second two_nodes two_tasks) else fault)
delete_queue-cells_example = delete_queue-cells 3 two_tasks two_tasks-IsQueue (omega arith)

delete_one_task : delete_queue 9 (some (queue 1 1)) (write (λ _. none) 1 (some (node 0 70))) ≡ fault
unfolding delete_queue write
delete_one_task = refl
