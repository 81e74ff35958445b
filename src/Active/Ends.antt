-- ===== src/Active/Ends.antt =====
-- That `main` of task5_designPattren/st_pipeline.c comes to its end.
use making_chat_on_c.Base.{
  ℕ, zero, suc, ◌+◌, ◌-◌, ◌*◌, ◌<◌, ◌≤◌, ◌≡◌, ◌⊎◌, Bool, true, false, List, [], ◌∷◌, ◌++◌, refl,
  arith, length, length-append,
}
use making_chat_on_c.Active.{
  Place, waiting, busy, leaving, left, Object, Line, put, deliver, Step, submit, take, take_null,
  emit, pass, keep, leave, leave_last,
}
use making_chat_on_c.Active.Main.{
  PipelinePlace, reading, allocating, ready, joining, returned, undefined, PipelineState, give,
  allowed, PartStep, PipelineStep, refuse_arguments, read_arguments, no_memory, create_objects,
  give_arguments, join, join_again, generate, close_line, part_d_a, thread, PipelineReach, initial,
  after,
}
use making_chat_on_c.Active.Joined.{IsOver, pipeline_main_joins_twice}

-- The steps that a task in the queue of object `i` still causes.
abbrev weight : ℕ → ℕ
weight i = 8 - 2 * i

abbrev place_weight : ℕ → Place → ℕ
place_weight i waiting = 0
place_weight i (busy task) = weight i - 1
place_weight i leaving = weight i - 1
place_weight i left = 0

abbrev object_weight : ℕ → Object → ℕ
object_weight i o = weight i * length o.queue + place_weight i o.place

abbrev line_weight : Line → ℕ
line_weight s =
    object_weight 0 (s.object 0)
    + (object_weight 1 (s.object 1) + (object_weight 2 (s.object 2) + object_weight 3 (s.object 3)))

weight-deliver :
    (s : Line) (i : ℕ) (o : Object) (tasks : List ℕ)
    → i < 4
    → line_weight (deliver s i o tasks) + object_weight i (s.object i)
      ≡ line_weight s + (object_weight i o + weight (suc i) * length tasks)
unfolding deliver put
weight-deliver s zero o tasks below = omega (arith, length-append (s.object 1).queue tasks)
weight-deliver s (suc zero) o tasks below = omega (arith, length-append (s.object 2).queue tasks)
weight-deliver s (suc (suc zero)) o tasks below =
    omega (arith, length-append (s.object 3).queue tasks)
weight-deliver s (suc (suc (suc zero))) o tasks below = omega arith
weight-deliver s (suc (suc (suc (suc i)))) o tasks below = absurd (omega arith)

-- What a step makes of the weight of its object.
pop_weight : (i n : ℕ) → i < 4 → weight i * n + (weight i - 1) < weight i * suc n + 0
pop_weight zero n below = omega arith
pop_weight (suc zero) n below = omega arith
pop_weight (suc (suc zero)) n below = omega arith
pop_weight (suc (suc (suc zero))) n below = omega arith
pop_weight (suc (suc (suc (suc i)))) n below = absurd (omega arith)

pass_weight :
    (i n : ℕ) → i < 4 → (weight i * n + 0) + weight (suc i) * 1 < weight i * n + (weight i - 1)
pass_weight zero n below = omega arith
pass_weight (suc zero) n below = omega arith
pass_weight (suc (suc zero)) n below = omega arith
pass_weight (suc (suc (suc zero))) n below = omega arith
pass_weight (suc (suc (suc (suc i)))) n below = absurd (omega arith)

queue_weight :
    (i : ℕ) (o : Object) (task : ℕ) (rest : List ℕ)
    → o.place ≡ waiting
    → o.queue ≡ task ∷ rest
    → object_weight i o ≡ weight i * suc (length rest) + 0
queue_weight i o task rest place queue = rw (place, queue) refl

busy_weight :
    (i : ℕ) (o : Object) (task : ℕ)
    → o.place ≡ busy task
    → object_weight i o ≡ weight i * length o.queue + (weight i - 1)
busy_weight i o task place = rw place refl

leaving_weight :
    (i : ℕ) (o : Object)
    → o.place ≡ leaving
    → object_weight i o ≡ weight i * length o.queue + (weight i - 1)
leaving_weight i o place = rw place refl

-- A step lowers the weight if its object and the tasks that it passes on weigh less than before.
lower :
    (s : Line) (i : ℕ) (o : Object) (tasks : List ℕ)
    → i < 4
    → object_weight i o + weight (suc i) * length tasks < object_weight i (s.object i)
    → line_weight (deliver s i o tasks) < line_weight s
lower s i o tasks below less = omega (arith, weight-deliver s i o tasks below)

module _ {forwards : ℕ → Bool} where
  Step-lower :
      {s t : Line} (closing : Bool) (step : Step 4 forwards s t)
      → allowed closing step ≡ true
      → line_weight t < line_weight s
  Step-lower closing (submit task) may = absurd cc
  Step-lower {s} closing (take i task rest below place queue real) may = lower s i _ [] below (
      omega (
        arith,
        queue_weight i (s.object i) task rest place queue,
        pop_weight i (length rest) below,
      ))
  Step-lower {s} closing (take_null i rest below place queue) may = lower s i _ [] below (
      omega
        (arith, queue_weight i (s.object i) 0 rest place queue, pop_weight i (length rest) below))
  Step-lower closing (emit i task new below place does) may = absurd cc
  Step-lower {s} closing (pass i task below place does) may =
      lower s i _ (task ∷ []) (omega arith) (
        omega (
          arith,
          busy_weight i (s.object i) task place,
          pass_weight i (length (s.object i).queue) (omega arith),
        ))
  Step-lower {s} closing (keep i task below place does) may = lower s i _ [] below (
      omega (
        arith,
        busy_weight i (s.object i) task place,
        pass_weight i (length (s.object i).queue) below,
      ))
  Step-lower {s} closing (leave i below place) may = lower s i _ (0 ∷ []) (omega arith) (
      omega (
        arith,
        leaving_weight i (s.object i) place,
        pass_weight i (length (s.object i).queue) (omega arith),
      ))
  Step-lower {s} closing (leave_last i last place) may = lower s i _ [] (omega arith) (
      omega (
        arith,
        leaving_weight i (s.object i) place,
        pass_weight i (length (s.object i).queue) (omega arith),
      ))

-- What `main` still has to do, with the weight of the arguments that it gives to the first object.
abbrev main_weight : PipelinePlace → ℕ
main_weight reading = 16
main_weight allocating = 15
main_weight ready = 14
main_weight (joining i) = 5 - i
main_weight (returned n) = 0
main_weight undefined = 0

-- What `partD_a` still has to enqueue.
abbrev part_weight : ℕ → ℕ → Bool → ℕ
part_weight size generated true = 0
part_weight size generated false = 7 * (size - generated) + 9

abbrev pub pipeline_weight : ℕ → PipelineState → ℕ
pipeline_weight size m =
    main_weight m.place + (part_weight size m.generated m.closing + line_weight m.line)

weight-give : (s : Line) (task : ℕ) → line_weight (give s task) ≡ line_weight s + 8
unfolding give put
weight-give s task = omega (arith, length-append (s.object 0).queue (task ∷ []))

emit_weight :
    (s : Line) (num : ℕ)
    → line_weight
        (deliver s 0 (record (s.object 0) { sent = (s.object 0).sent ++ num ∷ [] }) (num ∷ []))
      ≡ line_weight s + 6
emit_weight s num = omega (
  arith,
  weight-deliver s 0 (record (s.object 0) { sent = (s.object 0).sent ++ num ∷ [] }) (num ∷ [])
      (omega arith),
)

PartStep-lower :
    (size : ℕ) {m q : PipelineState}
    → PartStep size m q
    → pipeline_weight size q < pipeline_weight size m
PartStep-lower size {m} (generate task num real place unclosed more) =
    let weighs = emit_weight m.line num in rw unclosed (omega (arith, weighs))
PartStep-lower size {m} (close_line task place unclosed all) =
    let weighs = weight-give m.line 0 in rw unclosed (omega (arith, weighs))

PipelineStep-lower :
    (size : ℕ) {forwards : ℕ → Bool} {m q : PipelineState}
    → PipelineStep size forwards m q
    → pipeline_weight size q < pipeline_weight size m
PipelineStep-lower size (refuse_arguments e) = rw e (omega arith)
PipelineStep-lower size (read_arguments e) = rw e (omega arith)
PipelineStep-lower size (no_memory e) = rw e (omega arith)
PipelineStep-lower size (create_objects e) = rw e (omega arith)
PipelineStep-lower size {m = m} (give_arguments arr e real) =
    let weighs = weight-give m.line arr in rw e (omega (arith, weighs))
PipelineStep-lower size (join i e below at_left) = rw e (omega arith)
PipelineStep-lower size (join_again e) = rw e (omega arith)
PipelineStep-lower size (part_d_a step) = PartStep-lower size step
PipelineStep-lower size {m = m} (thread step may) = omega (arith, Step-lower m.closing step may)

bounded :
    (size : ℕ) {forwards : ℕ → Bool} {m : PipelineState}
    → PipelineReach size forwards m
    → pipeline_weight size m ≤ 7 * size + 25
bounded size initial = omega arith
bounded size (after r step) = omega (arith, PipelineStep-lower size step, bounded size r)

-- `main` of the pipeline comes to its end in whatever order the threads run, and the end is an
-- error. In every state that `main`, `partD_a` and the threads reach: `main` has returned 1, or is
-- in the join of a thread that was joined before, with all four threads gone, or else the program
-- can take a step; each step lowers the steps to go; and these are at most 25 and 7 for each number
-- to generate. Conditions: the first object does not forward, as `main` sets its flag.
pub pipeline_main_ends :
    (forwards : ℕ → Bool)
    → forwards 0 ≡ false
    → (size : ℕ) {m : PipelineState} → PipelineReach size forwards m
    → (IsOver m ⊎ ((q : PipelineState) × PipelineStep size forwards m q))
      × ((q : PipelineState)
          → PipelineStep size forwards m q
          → pipeline_weight size q < pipeline_weight size m)
      × (pipeline_weight size m ≤ 7 * size + 25)
pipeline_main_ends forwards first size r = (
  pipeline_main_joins_twice forwards first r,
  (λ q step. PipelineStep-lower size step),
  bounded size r,
)
