-- ===== src/Active/Stop.antt =====
-- `createActiveObject`, `getQueue` and `stop` of task5_designPattren/activeobject.c for one object.
use making_chat_on_c.Base.{
  ℕ, suc, ◌≡◌, refl, Bool, true, false, List, [], Option, none, some, if◌then◌else◌,
}
use making_chat_on_c.Active.{Object, created}
use making_chat_on_c.Queue.{Queue, Heap, Step, ok, fault, pure, delete_queue, delete_loop}
use making_chat_on_c.Queue.Cells.{IsQueue}

-- Whether `malloc` has given memory; `createQueue` exits when it fails, and is in Queue.
unfoldable pub create_active_object : Bool → Option Object
create_active_object false = none
create_active_object true = some created

-- `none` is `NULL`.
unfoldable pub get_queue : Option Object → Option (List ℕ)
get_queue none = none
get_queue (some o) = some o.queue

-- The thread has returned, and `joined` is whether it was joined before, which makes another join
-- undefined. The nodes are those of the queue; the `free` of the object is not among them.
unfoldable pub stop : ℕ → Bool → Option Queue → Heap → Step (Unit {0})
stop fuel joined none = pure tt
stop fuel joined (some q) = if joined then (λ h. fault) else delete_queue fuel (some q)

-- After a thread that has taken all tasks, and was not joined, nothing is read and nothing freed.
stop_lem :
    {h : Heap} {q : Queue} (fuel : ℕ) → IsQueue h q [] → stop (suc fuel) false (some q) h ≡ ok tt h
unfolding stop delete_queue delete_loop
stop_lem fuel is = rw is.head refl
