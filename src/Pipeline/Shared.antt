-- ===== src/Pipeline/Shared.antt =====
-- The pipeline of task5_designPattren/st_pipeline.c as `partD_a` feeds it: each number is passed on
-- by the address of one local, which the three objects behind the first read and change in place.
-- The function of an object is one step, as are a `dequeue` and an `enqueue`. The `NULL` at the end
-- is in Active.Main.
use making_chat_on_c.Base.{
  ℕ, suc, ◌+◌, ◌<◌, ◌≡◌, ◌⊎◌, Bool, true, false, List, [], ◌∷◌, ◌++◌, Option, none, some, length,
  if◌then◌else◌,
}
use making_chat_on_c.Base.Int.{ℤ, pos}
use making_chat_on_c.Pipeline.{Shown, generate, part_d_b, part_d_c, part_d_d}

-- The objects behind the first, by their functions.
pub data Follower : Type 0 where
  part_b : Follower
  part_c : Follower
  part_d : Follower

-- The pointers to the local in the queue of an object, with its thread before its function, and
-- past the function with the pointer still to be handed on.
pub record Worker : Type 0 where
  pub queue : ℕ
  pub taken : ℕ
  pub changed : ℕ

-- The local `num` of `partD_a`: without a number, with one, or gone with the return of `partD_a`.
pub data Cell : Type 0 where
  unset : Cell
  holds : ℤ → Cell
  gone : Cell

-- `drawn` are the results of `rand`, newest first, and `broken` is past undefined behaviour.
pub record Shared : Type 0 where
  pub cell : Cell
  pub drawn : List ℕ
  pub second : Worker
  pub third : Worker
  pub fourth : Worker
  pub shown : List Shown
  pub broken : Bool

abbrev pub at_rest : Worker
at_rest = record { queue = 0; taken = 0; changed = 0 }

abbrev pub unfed : Shared
unfed = record {
  cell = unset;
  drawn = [];
  second = at_rest;
  third = at_rest;
  fourth = at_rest;
  shown = [];
  broken = false;
}

abbrev pub worker : Follower → Shared → Worker
worker part_b s = s.second
worker part_c s = s.third
worker part_d s = s.fourth

abbrev pub set_worker : Follower → Worker → Shared → Shared
set_worker part_b w s = record s { second = w }
set_worker part_c w s = record s { third = w }
set_worker part_d w s = record s { fourth = w }

abbrev pub queued : Worker → Worker
queued w = record w { queue = suc w.queue }

-- The `if` at the end of a round of `run`: `forwards` is `this->flag != 1`, and the last object has
-- no next one.
abbrev pub hand_on : Bool → Follower → Shared → Shared
hand_on forwards part_b s = if forwards then record s { third = queued s.third } else s
hand_on forwards part_c s = if forwards then record s { fourth = queued s.fourth } else s
hand_on forwards part_d s = s

-- The pointers on the way to the function of each object, and the states with none.
abbrev pub before_b : Shared → ℕ
before_b s = s.second.queue + s.second.taken

abbrev pub before_c : Shared → ℕ
before_c s = s.second.changed + s.third.queue + s.third.taken

abbrev pub before_d : Shared → ℕ
before_d s = s.third.changed + s.fourth.queue + s.fourth.taken

abbrev pub IsThrough : Shared → Type 0
IsThrough s = before_b s + before_c s + before_d s ≡ 0

module _ (at_most_sqrt : ℕ → ℕ → Bool) (fuel : ℕ) where
  abbrev pub function : Follower → ℤ → Option (ℤ × List Shown)
  function part_b = part_d_b at_most_sqrt fuel
  function part_c = part_d_c at_most_sqrt fuel
  function part_d = part_d_d at_most_sqrt fuel

-- `forwards` is `this->flag != 1` of the objects behind the first, whose flag nothing sets.
-- `wakes` is what holds of the state when `sleep(1)` returns, before a round of the loop or its end;
-- before the first there is no sleep.
module _ (at_most_sqrt : ℕ → ℕ → Bool) (fuel size : ℕ) (forwards : Follower → Bool)
    (wakes : Shared → Type 0) where
  pub data SharedStep (s : Shared) : Shared → Type 0 where
    feed :
        (r : ℕ)
        → (s.drawn ≡ []) ⊎ wakes s
        → length s.drawn < size
        → SharedStep s (record s {
          cell = holds (pos (generate r));
          drawn = r ∷ s.drawn;
          second = queued s.second;
        })
    finish :
        (s.drawn ≡ []) ⊎ wakes s → length s.drawn ≡ size → SharedStep s (record s { cell = gone })
    take :
        (p : Follower) (n : ℕ)
        → (worker p s).queue ≡ suc n
        → (worker p s).taken ≡ 0
        → (worker p s).changed ≡ 0
        → SharedStep s (set_worker p (record (worker p s) { queue = n; taken = 1 }) s)
    run :
        (p : Follower) (v new : ℤ) (out : List Shown)
        → (worker p s).taken ≡ 1
        → (worker p s).changed ≡ 0
        → s.cell ≡ holds v
        → function at_most_sqrt fuel p v ≡ some (new, out)
        → SharedStep s (
            set_worker p
              (record (worker p s) { taken = 0; changed = 1 })
              (record s { cell = holds new; shown = s.shown ++ out }))
    run_gone :
        (p : Follower)
        → (worker p s).taken ≡ 1
        → (s.cell ≡ gone) ⊎ (s.cell ≡ unset)
        → SharedStep s (record s { broken = true })
    run_overflow :
        (p : Follower) (v : ℤ)
        → (worker p s).taken ≡ 1
        → s.cell ≡ holds v
        → function at_most_sqrt fuel p v ≡ none
        → SharedStep s (record s { broken = true })
    pass :
        (p : Follower)
        → (worker p s).changed ≡ 1
        → SharedStep s
            (hand_on (forwards p) p (set_worker p (record (worker p s) { changed = 0 }) s))

  pub data SharedReach : Shared → Type 0 where
    begin : SharedReach unfed
    further : {s t : Shared} → SharedReach s → SharedStep s t → SharedReach t
