-- ===== src/Base/Places.antt =====
-- The places and the length of a list under `set`, `take`, `drop` and `map`.
use Prim.Native.Nat.{ℕ, zero, suc, ◌+◌, ◌<◌, ◌≤◌}
use mathlib.Core.Path.{◌≡◌, refl, ap}
use mathlib.Core.List.{List, [], ◌∷◌, ◌++◌, map}
use mathlib.Core.Option.{some}
use native.Mathlib.Omega.{arith}
use making_chat_on_c.Base.Lists.{length, get_elem?, set, take, drop}

module _ {ℓ} {A : Type ℓ} where
  pub take-set : (es : List A) (n i : ℕ) (v : A) → take n (set es i v) ≡ set (take n es) i v
  take-set [] zero i v = refl
  take-set [] (suc n) i v = refl
  take-set (d ∷ es) zero i v = refl
  take-set (d ∷ es) (suc n) zero v = refl
  take-set (d ∷ es) (suc n) (suc i) v = ap (λ l. d ∷ l) (take-set es n i v)

  pub get_elem?-take : (es : List A) (n i : ℕ) → i < n → get_elem? (take n es) i ≡ get_elem? es i
  get_elem?-take [] zero i h = absurd (omega arith)
  get_elem?-take [] (suc n) i h = refl
  get_elem?-take (d ∷ es) zero i h = absurd (omega arith)
  get_elem?-take (d ∷ es) (suc n) zero h = refl
  get_elem?-take (d ∷ es) (suc n) (suc i) h = get_elem?-take es n i (omega arith)

  pub set-take_ge : (es : List A) (n i : ℕ) (v : A) → n ≤ i → set (take n es) i v ≡ take n es
  set-take_ge [] zero i v h = refl
  set-take_ge [] (suc n) i v h = refl
  set-take_ge (d ∷ es) zero i v h = refl
  set-take_ge (d ∷ es) (suc n) zero v h = absurd (omega arith)
  set-take_ge (d ∷ es) (suc n) (suc i) v h = ap (λ l. d ∷ l) (set-take_ge es n i v (omega arith))

  pub length-set : (es : List A) (i : ℕ) (v : A) → length (set es i v) ≡ length es
  length-set [] i v = refl
  length-set (d ∷ es) zero v = refl
  length-set (d ∷ es) (suc i) v = ap suc (length-set es i v)

  pub lt-length : (es : List A) (i : ℕ) (e : A) → get_elem? es i ≡ some e → i < length es
  lt-length [] i e h = absurd (ground arith)
  lt-length (d ∷ es) zero e h = omega arith
  lt-length (d ∷ es) (suc i) e h = omega (arith, lt-length es i e h)

  pub get_elem?_of_lt : (es : List A) (i : ℕ) → i < length es → (e : A) × (get_elem? es i ≡ some e)
  get_elem?_of_lt [] i h = absurd (omega arith)
  get_elem?_of_lt (d ∷ es) zero h = (d, refl)
  get_elem?_of_lt (d ∷ es) (suc i) h = get_elem?_of_lt es i (omega arith)

  pub get_elem?-set_ne :
      (es : List A) (i j : ℕ) (v : A) → i < j → get_elem? (set es i v) j ≡ get_elem? es j
  get_elem?-set_ne [] i j v h = refl
  get_elem?-set_ne (d ∷ es) i zero v h = absurd (omega arith)
  get_elem?-set_ne (d ∷ es) zero (suc j) v h = refl
  get_elem?-set_ne (d ∷ es) (suc i) (suc j) v h = get_elem?-set_ne es i j v (omega arith)

  pub get_elem?-set_gt :
      (es : List A) (i j : ℕ) (v : A) → j < i → get_elem? (set es i v) j ≡ get_elem? es j
  get_elem?-set_gt [] i j v h = refl
  get_elem?-set_gt (d ∷ es) zero j v h = absurd (omega arith)
  get_elem?-set_gt (d ∷ es) (suc i) zero v h = refl
  get_elem?-set_gt (d ∷ es) (suc i) (suc j) v h = get_elem?-set_gt es i j v (omega arith)

  pub get_elem?-set_self :
      (es : List A) (i : ℕ) (v : A) → i < length es → get_elem? (set es i v) i ≡ some v
  get_elem?-set_self [] i v h = absurd (omega arith)
  get_elem?-set_self (d ∷ es) zero v h = refl
  get_elem?-set_self (d ∷ es) (suc i) v h = get_elem?-set_self es i v (omega arith)

  pub length-take_le : (n : ℕ) (bytes : List A) → n ≤ length bytes → length (take n bytes) ≡ n
  length-take_le zero bytes h = refl
  length-take_le (suc n) [] h = absurd (omega arith)
  length-take_le (suc n) (b ∷ bytes) h = ap suc (length-take_le n bytes (omega arith))

  pub length-drop :
      (n : ℕ) (bytes : List A) → n ≤ length bytes → length (drop n bytes) + n ≡ length bytes
  length-drop zero bytes h = omega arith
  length-drop (suc n) [] h = absurd (omega arith)
  length-drop (suc n) (b ∷ bytes) h = omega (arith, length-drop n bytes (omega arith))

  pub take-drop : (n : ℕ) (bytes : List A) → take n bytes ++ drop n bytes ≡ bytes
  take-drop zero bytes = refl
  take-drop (suc n) [] = refl
  take-drop (suc n) (b ∷ bytes) = ap (λ l. b ∷ l) (take-drop n bytes)

pub length-map {ℓ κ} :
    {A : Type ℓ} {B : Type κ} (f : A → B) (xs : List A) → length (map f xs) ≡ length xs
length-map f [] = refl
length-map f (x ∷ xs) = ap suc (length-map f xs)
