-- ===== src/Active/Tests.antt =====
-- The theorems on active objects at a line of two, to which a task and `NULL` were submitted.
use making_chat_on_c.Base.{
  ℕ, ◌+◌, ◌*◌, ◌≤◌, ◌≡◌, ◌≢◌, ◌==◌, ◌<◌, if◌then◌else◌, refl, Bool, true, false, not, ◌⊎◌, List, [],
  ◌∷◌, ◌++◌, some, arith,
}
use making_chat_on_c.Active.Progress.{no_deadlock}
use making_chat_on_c.Active.{
  Step, runner, Line, start, deliver, put, submit, take, pass, Reach, here, later, waiting, busy,
  left, take_null, leave, leave_last,
}
use making_chat_on_c.Active.Order.{in_hand, taken-queue-in_hand, taken_in_order}
use making_chat_on_c.Active.Main.{
  PipelineState, PipelineStep, PipelineReach, give, ready, joining, initial, after, read_arguments,
  create_objects, give_arguments, close_line, part_d_a, thread,
}
use making_chat_on_c.Active.Joined.{IsOver}
use making_chat_on_c.Active.Ends.{pipeline_weight, pipeline_main_ends}
use making_chat_on_c.Active.Arrival.{all_taken}

abbrev all : ℕ → Bool
all j = true

abbrev after_submit : Line
after_submit = record {
  object = λ j. if 0 == j then put (7 ∷ []) (start.object j) else start.object j;
  submitted = 7 ∷ [];
}

abbrev after_take : Line
after_take =
    deliver after_submit 0
      (record (after_submit.object 0) { queue = []; place = busy 7; taken = 7 ∷ [] }) []

abbrev after_pass : Line
after_pass =
    deliver after_take 0 (record (after_take.object 0) { place = waiting; sent = 7 ∷ [] }) (7 ∷ [])

passed : Reach 2 all after_pass
unfolding deliver put
passed =
    later (later (later here (submit 7)) (take 0 7 [] (omega arith) refl refl (omega arith)))
      (pass 0 7 (omega arith) refl refl)

taken-queue-in_hand_example :
    ((after_pass.object 1).taken ++ (after_pass.object 1).queue)
      ++ in_hand (after_pass.object 0).place
    ≡ (after_pass.object 0).taken
taken-queue-in_hand_example = taken-queue-in_hand 0 passed (omega arith) refl

taken_in_order_example :
    (rest : List ℕ) × ((after_pass.object (1 + 0)).taken ++ rest ≡ (after_pass.object 0).taken)
taken_in_order_example = taken_in_order 1 0 passed (omega arith) (λ j above. refl)

abbrev after_null : Line
after_null = record {
  object = λ j. if 0 == j then put (0 ∷ []) (start.object j) else start.object j;
  submitted = 0 ∷ [];
}

null_submitted : Reach 2 all after_null
null_submitted = later here (submit 0)

waiting-ne-left : waiting ≢ left
waiting-ne-left e = cc

no_deadlock_example : (t : Line) × (step : Step 2 all after_null t) × (runner step ≡ some 0)
unfolding put
no_deadlock_example =
    no_deadlock 0 null_submitted refl (omega arith) (λ j below. absurd (omega arith))
      waiting-ne-left

zero_two : 0 < 2
zero_two = omega arith

one_two : 1 < 2
one_two = omega arith

-- Both threads take the `NULL` and return.
both_left : (s : Line) × Reach 2 all s × ((s.object (1 + 0)).place ≡ left)
unfolding deliver put
both_left =
    let a =
      later (later null_submitted (take_null 0 [] zero_two refl refl)) (leave 0 one_two refl) in
    (_, later (later a (take_null 1 [] one_two refl refl)) (leave_last 1 refl refl), refl)

all_taken_example : (both_left.0.object (1 + 0)).taken ≡ (both_left.0.object 0).taken
all_taken_example = all_taken 1 0 both_left.1 (omega arith) (λ j above. refl) both_left.2

abbrev all_but_first : ℕ → Bool
all_but_first j = not (j == 0)

-- The arguments are given and taken, and `partD_a` has no number to generate.
abbrev waiting_main : PipelineState
waiting_main = record { line = start; generated = 0; closing = false; place = ready }

abbrev given_main : PipelineState
given_main = record waiting_main { line = give start 9; place = joining 0 }

nine_real : ◌≢◌ {A = ℕ} 9 0
nine_real e = absurd (omega arith)

given_main-Reach : PipelineReach 0 all_but_first given_main
given_main-Reach =
    after (after (after initial (read_arguments refl)) (create_objects refl))
      (give_arguments 9 refl nine_real)

taken_main-Reach : PipelineReach 0 all_but_first (record given_main {
  line =
      deliver
        (give start 9)
        0
        (record ((give start 9).object 0) { queue = []; place = busy 9; taken = 9 ∷ [] })
        [];
})
unfolding give put
taken_main-Reach =
    after given_main-Reach (thread (take 0 9 [] (omega arith) refl refl nine_real) refl)

abbrev closed_main : PipelineState
closed_main = record given_main {
  line =
      give
        (deliver (give start 9) 0
          (record ((give start 9).object 0) { queue = []; place = busy 9; taken = 9 ∷ [] }) [])
        0;
  closing = true;
}

closed_main-Reach : PipelineReach 0 all_but_first closed_main
unfolding give put deliver
closed_main-Reach = after taken_main-Reach (part_d_a (close_line 9 refl refl refl))

pipeline_main_ends_example :
    (IsOver closed_main ⊎ ((q : PipelineState) × PipelineStep 0 all_but_first closed_main q))
    × ((q : PipelineState)
        → PipelineStep 0 all_but_first closed_main q
        → pipeline_weight 0 q < pipeline_weight 0 closed_main)
    × (pipeline_weight 0 closed_main ≤ 7 * 0 + 25)
pipeline_main_ends_example = pipeline_main_ends all_but_first refl 0 closed_main-Reach
