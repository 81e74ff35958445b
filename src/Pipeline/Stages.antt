-- ===== src/Pipeline/Stages.antt =====
-- Where a number of the pipeline of task5_designPattren/st_pipeline.c is, one at a time.
use making_chat_on_c.Base.{
  ℕ, suc, ◌+◌, ◌-◌, ◌≡◌, ◌↔◌, ◌⊎◌, inl, inr, Bool, true, false, List, [], ◌∷◌, ◌++◌, arith, refl,
  sym,
}
use making_chat_on_c.Base.Int.{pos}
use making_chat_on_c.Pipeline.{Shown, number, truth, generate}
use making_chat_on_c.Pipeline.Prime.{IsPrime}
use making_chat_on_c.Pipeline.Numbers.{printed}
use making_chat_on_c.Pipeline.Shared.{
  Follower, part_b, part_c, part_d, Cell, holds, Shared, worker, set_worker, hand_on, before_b,
  before_c, before_d, IsThrough,
}

-- For each number drawn, oldest first, what is printed for a number alone.
abbrev pub Prints : List ℕ → List Shown → Type 0
Prints [] shown = shown ≡ []
Prints (r ∷ drawn) shown =
    (before : List Shown) × (v w : Bool) × Prints drawn before
    × (shown ≡ before ++ printed (generate r) v w)
    × ((v ≡ true) ↔ IsPrime (generate r + 11))
    × ((w ≡ true) ↔ IsPrime (generate r - 2))

-- What is printed of `n` before the last object.
abbrev pub first_two : ℕ → Bool → Bool → List Shown
first_two n v w = number (pos (n + 11)) ∷ truth v ∷ number (pos (n - 2)) ∷ truth w ∷ []

-- Where the newest number is, by how many pointers are before each function.
pub data Stage (drawn : List ℕ) (cell : Cell) (shown : List Shown) (b c d : ℕ) : Type 0 where
  all_out : b + c + d ≡ 0 → Prints drawn shown → Stage drawn cell shown b c d
  at_b :
      (r : ℕ) (rest : List ℕ)
      → b ≡ 1
      → c + d ≡ 0
      → drawn ≡ r ∷ rest
      → cell ≡ holds (pos (generate r))
      → Prints rest shown
      → Stage drawn cell shown b c d
  at_c :
      (r : ℕ) (rest : List ℕ) (before : List Shown) (v : Bool)
      → c ≡ 1
      → b + d ≡ 0
      → drawn ≡ r ∷ rest
      → cell ≡ holds (pos (generate r + 11))
      → Prints rest before
      → ((v ≡ true) ↔ IsPrime (generate r + 11))
      → shown ≡ before ++ number (pos (generate r + 11)) ∷ truth v ∷ []
      → Stage drawn cell shown b c d
  at_d :
      (r : ℕ) (rest : List ℕ) (before : List Shown) (v w : Bool)
      → d ≡ 1
      → b + c ≡ 0
      → drawn ≡ r ∷ rest
      → cell ≡ holds (pos (generate r - 2))
      → Prints rest before
      → ((v ≡ true) ↔ IsPrime (generate r + 11))
      → ((w ≡ true) ↔ IsPrime (generate r - 2))
      → shown ≡ before ++ first_two (generate r) v w
      → Stage drawn cell shown b c d

abbrev pub StageOf : Shared → Type 0
StageOf s = Stage s.drawn s.cell s.shown (before_b s) (before_c s) (before_d s)

pub moved :
    {drawn : List ℕ} {cell : Cell} {shown : List Shown} {b c d b' c' d' : ℕ}
    → b ≡ b'
    → c ≡ c'
    → d ≡ d'
    → Stage drawn cell shown b c d
    → Stage drawn cell shown b' c' d'
moved e f g h = rw (sym e, sym f, sym g) h

-- No undefined behaviour, and the numbers are where they should be.
abbrev pub IsOrderly : Shared → Type 0
IsOrderly s = (s.broken ≡ false) × StageOf s

-- A `dequeue` and the handing on of a pointer leave the numbers where they are.
pub take_keeps :
    (p : Follower) (s : Shared) (n : ℕ)
    → (worker p s).queue ≡ suc n
    → (worker p s).taken ≡ 0
    → IsOrderly s
    → IsOrderly (set_worker p (record (worker p s) { queue = n; taken = 1 }) s)
take_keeps part_b s n e f (whole, stage) = (whole, moved (omega arith) refl refl stage)
take_keeps part_c s n e f (whole, stage) = (whole, moved refl (omega arith) refl stage)
take_keeps part_d s n e f (whole, stage) = (whole, moved refl refl (omega arith) stage)

pub pass_keeps :
    (forwards : Follower → Bool)
    → forwards part_b ≡ true
    → forwards part_c ≡ true
    → (p : Follower) (s : Shared) → (worker p s).changed ≡ 1
    → IsOrderly s
    → IsOrderly (hand_on (forwards p) p (set_worker p (record (worker p s) { changed = 0 }) s))
pass_keeps forwards of_b of_c part_b s e (whole, stage) =
    rw of_b (whole, moved refl (omega arith) refl stage)
pass_keeps forwards of_b of_c part_c s e (whole, stage) =
    rw of_c (whole, moved refl refl (omega arith) stage)
pass_keeps forwards of_b of_c part_d s e (whole, stage) = (whole, moved refl refl refl stage)

-- With every number out, all is printed.
pub drained : (s : Shared) → IsThrough s → StageOf s → Prints s.drawn s.shown
drained s through (all_out none_left prints) = prints
drained s through (at_b r rest one others drawn cell prints) = absurd (omega arith)
drained s through (at_c r rest before v one others drawn cell prints v_iff shown) =
    absurd (omega arith)
drained s through (at_d r rest before v w one others drawn cell prints v_iff w_iff shown) =
    absurd (omega arith)

-- Before the first number, none is on its way.
pub awake-IsThrough : (s : Shared) → (s.drawn ≡ []) ⊎ IsThrough s → StageOf s → IsThrough s
awake-IsThrough s (inr through) stage = through
awake-IsThrough s (inl fresh) (all_out none_left prints) = none_left
awake-IsThrough s (inl fresh) (at_b r rest one others drawn cell prints) = absurd cc
awake-IsThrough s (inl fresh) (at_c r rest before v one others drawn cell prints v_iff shown) =
    absurd cc
awake-IsThrough s (inl fresh)
      (at_d r rest before v w one others drawn cell prints v_iff w_iff shown) =
    absurd cc
