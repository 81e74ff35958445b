-- ===== src/Active/Main.antt =====
-- `main` and `partD_a` of task5_designPattren/st_pipeline.c over its line of four active objects,
-- while their threads run. That an allocation of an object or of a node fails is left out.
use making_chat_on_c.Base.{
  ℕ, suc, ◌==◌, ◌<◌, ◌≡◌, ◌≢◌, Bool, true, false, [], ◌∷◌, ◌++◌, if◌then◌else◌, not, ◌||◌,
}
use making_chat_on_c.Active.{
  busy, left, Line, put, deliver, start, Step, submit, take, take_null, emit, pass, keep, leave,
  leave_last,
}

-- `undefined` is past a second join of a thread.
pub data PipelinePlace : Type 0 where
  reading : PipelinePlace
  allocating : PipelinePlace
  ready : PipelinePlace
  joining : ℕ → PipelinePlace
  returned : ℕ → PipelinePlace
  undefined : PipelinePlace

-- `generated` counts the numbers of `partD_a`, and `closing` is set once it has enqueued `NULL`.
pub record PipelineState : Type 0 where
  pub line : Line
  pub generated : ℕ
  pub closing : Bool
  pub place : PipelinePlace

abbrev pub placed : PipelineState → PipelinePlace → PipelineState
placed m p = record m { place = p }

-- An `enqueue` at the first object.
unfoldable pub give : Line → ℕ → Line
unfolding put
give s task = record s {
  object = λ j. if 0 == j then put (task ∷ []) (s.object j) else s.object j;
  submitted = s.submitted ++ task ∷ [];
}

-- What the threads do on their own: what the first object enqueues is up to `partD_a`, which has
-- not returned before it has enqueued `NULL`.
abbrev pub allowed : {n : ℕ} {forwards : ℕ → Bool} {s t : Line} → Bool → Step n forwards s t → Bool
allowed closing (submit task) = false
allowed closing (take i task rest below place queue real) = true
allowed closing (take_null i rest below place queue) = true
allowed closing (emit i task new below place does) = false
allowed closing (pass i task below place does) = true
allowed closing (keep i task below place does) = not (i == 0) || closing
allowed closing (leave i below place) = true
allowed closing (leave_last i last place) = true

-- A round of the loop of `partD_a` in the first thread, and its end. `size` is the number in the
-- first argument, or 0 for one below 0. The source passes a number on by the address of a local,
-- which stands for any `num` here but `NULL`.
pub data PartStep (size : ℕ) (m : PipelineState) : PipelineState → Type 0 where
  generate :
      (task num : ℕ)
      → num ≢ 0
      → (m.line.object 0).place ≡ busy task
      → m.closing ≡ false
      → m.generated < size
      → PartStep size m (record m {
        line =
            deliver m.line 0
              (record (m.line.object 0) { sent = (m.line.object 0).sent ++ num ∷ [] })
              (num ∷ []);
        generated = suc m.generated;
      })
  close_line :
      (task : ℕ)
      → (m.line.object 0).place ≡ busy task
      → m.closing ≡ false
      → m.generated ≡ size
      → PartStep size m (record m { line = give m.line 0; closing = true })

-- A step of `main`, of `partD_a`, or of a thread.
pub data PipelineStep (size : ℕ) (forwards : ℕ → Bool) (m : PipelineState)
    : PipelineState → Type 0 where
  refuse_arguments : m.place ≡ reading → PipelineStep size forwards m (placed m (returned 1))
  read_arguments : m.place ≡ reading → PipelineStep size forwards m (placed m allocating)
  no_memory : m.place ≡ allocating → PipelineStep size forwards m (placed m (returned 1))
  create_objects : m.place ≡ allocating → PipelineStep size forwards m (placed m ready)
  give_arguments :
      (arr : ℕ)
      → m.place ≡ ready
      → arr ≢ 0
      → PipelineStep size forwards m (record m { line = give m.line arr; place = joining 0 })
  join :
      (i : ℕ)
      → m.place ≡ joining i
      → i < 4
      → (m.line.object i).place ≡ left
      → PipelineStep size forwards m (placed m (joining (suc i)))
  join_again : m.place ≡ joining 4 → PipelineStep size forwards m (placed m undefined)
  part_d_a : {q : PipelineState} → PartStep size m q → PipelineStep size forwards m q
  thread :
      {t : Line} (step : Step 4 forwards m.line t)
      → allowed m.closing step ≡ true
      → PipelineStep size forwards m (record m { line = t })

pub data PipelineReach (size : ℕ) (forwards : ℕ → Bool) : PipelineState → Type 0 where
  initial :
      PipelineReach size forwards
        (record { line = start; generated = 0; closing = false; place = reading })
  after :
      {m q : PipelineState}
      → PipelineReach size forwards m
      → PipelineStep size forwards m q
      → PipelineReach size forwards q
