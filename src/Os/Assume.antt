-- ===== src/Os/Assume.antt =====
-- What holds of a program as long as the environment keeps to an assumption about its answers,
-- which can depend on what it answered before.
use making_chat_on_c.Base.{ℕ, Option, none, some, Bool, true, false, ◌≡◌, refl, if◌then◌else◌}
use making_chat_on_c.Os.{Call, Answer, Prog, ret, exit, fault, spin, call, ◌>>=◌}
use making_chat_on_c.Os.Guarantee.{Legal}

-- How a run ends.
pub data Outcome (A : Type 0) : Type 0 where
  returned : A → Outcome A
  exited : ℕ → Outcome A
  faulted : Outcome A
  out_of_fuel : Outcome A

module _ {A S : Type 0} (P : A → S → Type 0) (E : Option ℕ → S → Type 0) where
  -- The same of one end; no run faults.
  abbrev pub EndsAs : Outcome A → S → Type 0
  EndsAs (returned a) t = P a t
  EndsAs (exited n) t = E (some n) t
  EndsAs faulted t = ⊥
  EndsAs out_of_fuel t = E none t

module _ {S : Type 0} (step : (c : Call) → Answer c → S → S)
    (assume : S → (c : Call) → Answer c → Type 0) where
  -- From the state `s`, every run on answers that keep to the assumption meets no fault, and what
  -- it returns or how it ends is as stated of the state then; the status `none` is out of fuel.
  abbrev pub EnsuresIf :
      {A : Type 0} → (A → S → Type 0) → (Option ℕ → S → Type 0) → S → Prog A → Type 0
  EnsuresIf P E s (ret a) = P a s
  EnsuresIf P E s (exit n) = E (some n) s
  EnsuresIf P E s fault = ⊥
  EnsuresIf P E s spin = E none s
  EnsuresIf P E s (call c k) =
      (r : Answer c) → Legal c r → assume s c r → EnsuresIf P E (step c r s) (k r)

  module _ {A B : Type 0} (P : A → S → Type 0) (E : Option ℕ → S → Type 0) (Q : B → S → Type 0)
      (f : A → Prog B) (next : (a : A) (t : S) → P a t → EnsuresIf Q E t (f a)) where
    pub EnsuresIf-bind : (s : S) (m : Prog A) → EnsuresIf P E s m → EnsuresIf Q E s (m >>= f)
    EnsuresIf-bind s (ret a) h = next a s h
    EnsuresIf-bind s (exit n) h = h
    EnsuresIf-bind s fault h = h
    EnsuresIf-bind s spin h = h
    EnsuresIf-bind s (call c k) h =
        λ r legal kept. EnsuresIf-bind (step c r s) (k r) (h r legal kept)

  module _ {A : Type 0} (P : A → S → Type 0) (E : Option ℕ → S → Type 0) (s : S)
      (m k : Prog A) where
    pub EnsuresIf-if :
        (b : Bool)
        → (b ≡ true → EnsuresIf P E s m)
        → (b ≡ false → EnsuresIf P E s k)
        → EnsuresIf P E s (if b then m else k)
    EnsuresIf-if true holds fails = holds refl
    EnsuresIf-if false holds fails = fails refl

  -- A run of the program from the state `s` to that end and the state `t`, on answers that keep to
  -- the assumption.
  abbrev pub Run : {A : Type 0} → Prog A → S → Outcome A → S → Type 0
  Run (ret a) s o t = (o ≡ returned a) × (t ≡ s)
  Run (exit n) s o t = (o ≡ exited n) × (t ≡ s)
  Run fault s o t = (o ≡ faulted) × (t ≡ s)
  Run spin s o t = (o ≡ out_of_fuel) × (t ≡ s)
  Run (call c k) s o t = (r : Answer c) × Legal c r × assume s c r × Run (k r) (step c r s) o t

  module _ {A : Type 0} (P : A → S → Type 0) (E : Option ℕ → S → Type 0) where
    pub Run-EndsAs :
        (m : Prog A) (s : S) (o : Outcome A) (t : S)
        → EnsuresIf P E s m
        → Run m s o t
        → EndsAs P E o t
    Run-EndsAs (ret a) s o t h (e, f) = rw (e, f) h
    Run-EndsAs (exit n) s o t h (e, f) = rw (e, f) h
    Run-EndsAs fault s o t h run = absurd h
    Run-EndsAs spin s o t h (e, f) = rw (e, f) h
    Run-EndsAs (call c k) s o t h (r, legal, kept, run) =
        Run-EndsAs (k r) (step c r s) o t (h r legal kept) run
