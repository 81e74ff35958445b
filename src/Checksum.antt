-- ===== src/Checksum.antt =====
-- The 16-bit Internet checksum: `compute_checksum` of task3_making-chat-on-c/server.c and
-- `calculate_checksum` of task3_making-chat-on-c/prartb_2.c. Both read the buffer as
-- little-endian 16-bit words.
pub mod Sum
pub mod Fold
pub mod Laws
mod Tests
use making_chat_on_c.Base.{
  ℕ, zero, suc, ◌+◌, ◌-◌, ◌*◌, ◌/◌, ◌%◌, ◌^◌, ◌≤◌, ◌≡◌, arith, List, [], ◌∷◌, Option, none, some,
  ltb, ◌==◌, if◌then◌else◌,
}

-- The first loop of `compute_checksum`, with the byte that an odd length leaves. `sum` is an
-- `unsigned long` of 64 bits.
pub add_words : ℕ → List ℕ → ℕ
add_words sum [] = sum
add_words sum (b ∷ []) = (sum + b) % 2 ^ 64
add_words sum (lo ∷ hi ∷ rest) = add_words ((sum + (lo + 256 * hi)) % 2 ^ 64) rest

-- `while (sum >> 16) sum = (sum & 0xFFFF) + (sum >> 16);` on fuel; `none` is out of fuel.
pub fold_carries : ℕ → ℕ → Option ℕ
fold_carries zero sum = none
fold_carries (suc fuel) sum =
    let rest = fold_carries fuel ((sum % 2 ^ 16 + sum / 2 ^ 16) % 2 ^ 64) in
    if sum / 2 ^ 16 == 0 then some sum else rest

-- `(unsigned short)~sum`
pub complement16 : ℕ → ℕ
complement16 sum = 65535 - sum % 2 ^ 16

-- Six rounds are enough for 64 bits.
abbrev pub fold_fuel : ℕ
fold_fuel = 6

pub complement_of : Option ℕ → Option ℕ
complement_of none = none
complement_of (some sum) = some (complement16 sum)

pub compute_checksum : List ℕ → Option ℕ
unfolding add_words fold_carries complement_of complement16
compute_checksum buffer = complement_of (fold_carries fold_fuel (add_words 0 buffer))

abbrev pub int_max : ℕ
int_max = 2 ^ 31 - 1

-- `sum += x` on an `int`; `none` is an overflow, which C leaves undefined.
pub add_int : ℕ → ℕ → Option ℕ
add_int sum x = if ltb int_max (sum + x) then none else some (sum + x)

infixl 5 ◌>>=◌
abbrev pub ◌>>=◌ : Option ℕ → (ℕ → Option ℕ) → Option ℕ
none >>= k = none
some x >>= k = k x

-- The loop of `calculate_checksum`, with its odd byte.
pub add_words_int : ℕ → List ℕ → Option ℕ
unfolding add_int
add_words_int sum [] = some sum
add_words_int sum (b ∷ []) = add_int sum b
add_words_int sum (lo ∷ hi ∷ rest) = add_int sum (lo + 256 * hi) >>= λ sum'. add_words_int sum' rest

-- The two carry additions and the truncated complement.
pub fold_twice : ℕ → ℕ
fold_twice sum =
    let folded = sum / 2 ^ 16 + sum % 2 ^ 16 in (65535 - (folded + folded / 2 ^ 16) % 2 ^ 16)

pub calculate_checksum : List ℕ → Option ℕ
unfolding add_words_int fold_twice
calculate_checksum data' = do sum ← add_words_int 0 data'; some (fold_twice sum)

-- An `int` sum within the bound does not overflow.
pub add_int-le : (sum x : ℕ) → sum + x ≤ int_max → add_int sum x ≡ some (sum + x)
unfolding add_int
add_int-le sum x fits = ground arith
