-- ===== src/Queue/Delete.antt =====
-- `deleteQueue` of task5_designPattren/queue.c on a queue that still holds tasks.
use making_chat_on_c.Base.{
  ℕ, zero, suc, ◌+◌, ◌<◌, ◌≡◌, ◌≢◌, ◌∙◌, refl, Bool, true, false, [], ◌∷◌, none, some, arith,
  length, if◌then◌else◌,
}
use making_chat_on_c.Queue.{Ptr, node, Heap, write, Queue, ok, fault, delete_loop, delete_queue}
use making_chat_on_c.Queue.Cells.{
  Cells, IsQueue, has, first_of_cells, Linked, Linked-write, ne_of_has,
}

-- The heap after the loop has freed the first node of each pair.
unfoldable pub free_every_second : Heap → Cells → Heap
free_every_second h [] = h
free_every_second h (c ∷ []) = h
free_every_second h (c ∷ d ∷ xs) = free_every_second (write h c.0 none) xs

unfoldable pub even_length : Cells → Bool
even_length [] = true
even_length (c ∷ []) = false
even_length (c ∷ d ∷ xs) = even_length xs

delete_one :
    (fuel : ℕ) (h : Heap) (p task : Ptr)
    → p ≢ 0
    → h p ≡ some (node 0 task)
    → delete_loop (suc fuel) p h ≡ fault
unfolding delete_loop
delete_one fuel h p task ne e = ground arith

delete_two :
    (fuel : ℕ) (h : Heap) (p q next task task' : Ptr)
    → p ≢ 0
    → q ≢ 0
    → p ≢ q
    → h p ≡ some (node q task)
    → h q ≡ some (node next task')
    → delete_loop (suc fuel) p h ≡ delete_loop fuel next (write h p none)
unfolding delete_loop write
delete_two fuel h p q next task task' np nq apart e e' = ground arith

delete_loop-cells :
    (fuel : ℕ) (h : Heap) (xs : Cells)
    → Linked h xs
    → length xs < fuel
    → delete_loop fuel (first_of_cells xs) h
      ≡ (if even_length xs then ok tt (free_every_second h xs) else fault)
unfolding free_every_second even_length delete_loop
delete_loop-cells zero h xs l enough = absurd (omega arith)
delete_loop-cells (suc fuel) h [] l enough = refl
delete_loop-cells (suc fuel) h ((p, task) ∷ []) l enough = delete_one fuel h p task l.0 l.1
delete_loop-cells (suc fuel) h ((p, task) ∷ (q, task') ∷ xs) l enough =
    delete_two fuel h p q (first_of_cells xs) task task' l.0 l.3.0 (ne_of_has p q task' xs l.2).0
      l.1 l.3.1
    ∙ delete_loop-cells fuel (write h p none) xs
        (Linked-write h p none xs l.3.3 (ne_of_has p q task' xs l.2).1) (omega arith)

-- On a queue of `length xs` tasks `deleteQueue` reads through `NULL` if their number is odd; if it
-- is even it returns, having freed only the first node of each pair. The loop needs no more
-- rounds than there are tasks.
pub delete_queue-cells :
    {h : Heap} {q : Queue} (fuel : ℕ) (xs : Cells)
    → IsQueue h q xs
    → length xs < fuel
    → delete_queue fuel (some q) h
      ≡ (if even_length xs then ok tt (free_every_second h xs) else fault)
unfolding delete_queue
delete_queue-cells {h} fuel xs is enough = rw is.head (delete_loop-cells fuel h xs is.linked enough)

-- The second node of each pair stays allocated.
kept_second : (h : Heap) (a : Ptr) (xs : Cells) → has a xs ≡ false → free_every_second h xs a ≡ h a
unfolding free_every_second write
kept_second h a [] out = refl
kept_second h a (c ∷ []) out = refl
kept_second h a ((p, t) ∷ (q, u) ∷ xs) out = ground (arith, kept_second (write h p none) a xs)

-- `deleteQueue` on a queue of at least two tasks, even in number, leaks: the second node is still
-- allocated when it returns.
pub delete_queue_leaks :
    {h : Heap} {q : Queue} (fuel : ℕ) (c d : Ptr × Ptr) (xs : Cells)
    → IsQueue h q (c ∷ d ∷ xs)
    → even_length xs ≡ true
    → length xs + 2 < fuel
    → (g : Heap) × (delete_queue fuel (some q) h ≡ ok tt g) × (g d.0 ≡ h d.0) × (g c.0 ≡ none)
unfolding even_length free_every_second write
delete_queue_leaks {h} fuel c d xs is even enough =
    let freed = write h c.0 none in
    (
      free_every_second freed xs,
      delete_queue-cells fuel (c ∷ d ∷ xs) is (omega arith) ∙ rw even,
      ground (arith, kept_second freed d.0 xs, is.linked),
      ground (arith, kept_second freed c.0 xs, is.linked),
    )
