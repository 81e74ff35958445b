-- ===== src/Active.antt =====
-- task5_designPattren/activeobject.c: a line of active objects, each with a thread that runs
-- `run`, a queue, and the next object. A task is a pointer, and 0 is `NULL`.
pub mod Order
pub mod Progress
pub mod Arrival
pub mod Main
pub mod Steps
pub mod Phases
pub mod Joined
pub mod Ends
pub mod Stop
mod Tests
use making_chat_on_c.Base.{
  ℕ, suc, ◌==◌, ◌<◌, ◌≡◌, ◌≢◌, ◌⊎◌, Bool, true, false, List, [], ◌∷◌, ◌++◌, if◌then◌else◌, Option,
  none, some,
}

-- Where the thread of an object is in `run`: in `dequeue`, with a task that it has taken out, with
-- `NULL` taken out, or past its return.
pub data Place : Type 0 where
  waiting : Place
  busy : ℕ → Place
  leaving : Place
  left : Place

-- `taken` and `sent` record what the thread took from its queue and what it put into the next.
pub record Object : Type 0 where
  pub queue : List ℕ
  pub place : Place
  pub taken : List ℕ
  pub sent : List ℕ

-- Object `i` is the `next` of object `i - 1`. `submitted` records what was put into the first queue.
pub record Line : Type 0 where
  pub object : ℕ → Object
  pub submitted : List ℕ

unfoldable pub put : List ℕ → Object → Object
put tasks o = record o { queue = o.queue ++ tasks }

-- Object `i` becomes `o`, and `tasks` are enqueued at the next.
unfoldable pub deliver : Line → ℕ → Object → List ℕ → Line
unfolding put
deliver s i o tasks = record s {
  object = λ j. if i == j then o else if suc i == j then put tasks (s.object j) else s.object j;
}

-- A step of one of the `n` threads, or an `enqueue` at the first object. `forwards i` is
-- `this->flag != 1`. The function of an object that does not forward may itself enqueue at the
-- next one, as `partD_a` does.
pub data Step (n : ℕ) (forwards : ℕ → Bool) (s : Line) : Line → Type 0 where
  submit :
      (task : ℕ)
      → Step n forwards s (record {
        object = λ j. if 0 == j then put (task ∷ []) (s.object j) else s.object j;
        submitted = s.submitted ++ task ∷ [];
      })
  take :
      (i task : ℕ) (rest : List ℕ)
      → i < n
      → (s.object i).place ≡ waiting
      → (s.object i).queue ≡ task ∷ rest
      → task ≢ 0
      → Step n forwards s (
          deliver s i
            (record (s.object i) {
              queue = rest;
              place = busy task;
              taken = (s.object i).taken ++ task ∷ [];
            })
            [])
  take_null :
      (i : ℕ) (rest : List ℕ)
      → i < n
      → (s.object i).place ≡ waiting
      → (s.object i).queue ≡ 0 ∷ rest
      → Step n forwards s (
          deliver s i
            (record (s.object i) {
              queue = rest;
              place = leaving;
              taken = (s.object i).taken ++ 0 ∷ [];
            })
            [])
  emit :
      (i task new : ℕ)
      → suc i < n
      → (s.object i).place ≡ busy task
      → forwards i ≡ false
      → Step n forwards s
          (deliver s i (record (s.object i) { sent = (s.object i).sent ++ new ∷ [] }) (new ∷ []))
  pass :
      (i task : ℕ)
      → suc i < n
      → (s.object i).place ≡ busy task
      → forwards i ≡ true
      → Step n forwards s (
          deliver s i
            (record (s.object i) { place = waiting; sent = (s.object i).sent ++ task ∷ [] })
            (task ∷ []))
  keep :
      (i task : ℕ)
      → i < n
      → (s.object i).place ≡ busy task
      → (forwards i ≡ false) ⊎ (suc i ≡ n)
      → Step n forwards s (deliver s i (record (s.object i) { place = waiting }) [])
  leave :
      (i : ℕ)
      → suc i < n
      → (s.object i).place ≡ leaving
      → Step n forwards s (
          deliver s i
            (record (s.object i) { place = left; sent = (s.object i).sent ++ 0 ∷ [] })
            (0 ∷ []))
  leave_last :
      (i : ℕ)
      → suc i ≡ n
      → (s.object i).place ≡ leaving
      → Step n forwards s (deliver s i (record (s.object i) { place = left }) [])

-- The object whose thread takes the step, none for an `enqueue` from outside.
abbrev pub runner : {n : ℕ} {forwards : ℕ → Bool} {s t : Line} → Step n forwards s t → Option ℕ
runner (submit task) = none
runner (take i task rest below place queue real) = some i
runner (take_null i rest below place queue) = some i
runner (emit i task new below place does) = some i
runner (pass i task below place does) = some i
runner (keep i task below place does) = some i
runner (leave i below place) = some i
runner (leave_last i last place) = some i

-- `createActiveObject` for every object.
abbrev pub created : Object
created = record { queue = []; place = waiting; taken = []; sent = [] }

abbrev pub start : Line
start = record { object = λ j. created; submitted = [] }

pub data Reach (n : ℕ) (forwards : ℕ → Bool) : Line → Type 0 where
  here : Reach n forwards start
  later : {s t : Line} → Reach n forwards s → Step n forwards s t → Reach n forwards t
