-- ===== src/Checksum/Sum.antt =====
-- The sum of the words of a buffer, which both loops of task3_making-chat-on-c compute.
use making_chat_on_c.Base.{
  ℕ, zero, suc, ◌+◌, ◌*◌, ◌%◌, ◌^◌, ◌≤◌, ◌<◌, ◌≡◌, refl, ◌∙◌, List, [], ◌∷◌, ◌++◌, none, some,
  arith, ltb, if◌then◌else◌, length, take, ap,
}
use making_chat_on_c.Checksum.{add_words, add_words_int, int_max}

abbrev pub AllBytes : List ℕ → Type 0
AllBytes [] = Unit {0}
AllBytes (b ∷ bs) = (b < 256) × AllBytes bs

-- The words added up, with no bound.
unfoldable pub word_sum : List ℕ → ℕ
word_sum [] = 0
word_sum (b ∷ []) = b
word_sum (lo ∷ hi ∷ rest) = lo + 256 * hi + word_sum rest

pub word_sum-le :
    (buffer : List ℕ) → AllBytes buffer → 2 * word_sum buffer ≤ 65535 * (length buffer + 1)
unfolding word_sum
word_sum-le [] h = omega arith
word_sum-le (b ∷ []) h = omega arith
word_sum-le (lo ∷ hi ∷ rest) h = omega (arith, word_sum-le rest h.1.1)

pub add_words-eq-word_sum :
    (sum : ℕ) (buffer : List ℕ)
    → sum + word_sum buffer < 2 ^ 64
    → add_words sum buffer ≡ sum + word_sum buffer
unfolding add_words word_sum
add_words-eq-word_sum sum [] h = omega arith
add_words-eq-word_sum sum (b ∷ []) h = omega arith
add_words-eq-word_sum sum (lo ∷ hi ∷ rest) h =
    add_words-eq-word_sum ((sum + (lo + 256 * hi)) % 2 ^ 64) rest (omega arith) ∙ omega arith

pub add_words_int-word_sum :
    (sum : ℕ) (buffer : List ℕ)
    → sum ≤ int_max
    → add_words_int sum buffer
      ≡ (if ltb int_max (sum + word_sum buffer) then none else some (sum + word_sum buffer))
unfolding add_words_int word_sum
add_words_int-word_sum sum [] h = ground arith
add_words_int-word_sum sum (b ∷ []) h = refl
add_words_int-word_sum sum (lo ∷ hi ∷ rest) h =
    ground (arith, add_words_int-word_sum (sum + (lo + 256 * hi)) rest)

-- `memset(data, value, 2 * n)`
pub filled_pairs : ℕ → ℕ → List ℕ
filled_pairs zero value = []
filled_pairs (suc n) value = value ∷ value ∷ filled_pairs n value

pub word_sum-filled_pairs : (n value : ℕ) → word_sum (filled_pairs n value) ≡ n * (value * 257)
unfolding word_sum filled_pairs
word_sum-filled_pairs zero value = omega arith
word_sum-filled_pairs (suc n) value = omega (arith, word_sum-filled_pairs n value)

pub length-filled_pairs : (n value : ℕ) → length (filled_pairs n value) ≡ 2 * n
unfolding filled_pairs
length-filled_pairs zero value = omega arith
length-filled_pairs (suc n) value = omega (arith, length-filled_pairs n value)

-- The first half of the data.
pub take-filled_pairs :
    (n m value : ℕ) → take (n + n) (filled_pairs (n + m) value) ≡ filled_pairs n value
unfolding filled_pairs
take-filled_pairs zero m value = refl
take-filled_pairs (suc n) m value =
    let e : suc n + suc n ≡ suc (suc (n + n)) = omega arith in
    let f : suc n + m ≡ suc (n + m) = omega arith in
    rw (e, f) (ap (λ l. value ∷ value ∷ l) (take-filled_pairs n m value))

-- A buffer of an even number of bytes.
abbrev pub IsEven : List ℕ → Type 0
IsEven [] = Unit {0}
IsEven (b ∷ []) = ⊥
IsEven (lo ∷ hi ∷ rest) = IsEven rest

pub word_sum-append : (xs ys : List ℕ) → IsEven xs → word_sum (xs ++ ys) ≡ word_sum xs + word_sum ys
unfolding word_sum
word_sum-append [] ys h = omega arith
word_sum-append (b ∷ []) ys h = absurd h
word_sum-append (lo ∷ hi ∷ rest) ys h = omega (arith, word_sum-append rest ys h)

pub AllBytes-append : (xs ys : List ℕ) → AllBytes xs → AllBytes ys → AllBytes (xs ++ ys)
AllBytes-append [] ys h k = k
AllBytes-append (x ∷ xs) ys h k = (h.0, AllBytes-append xs ys h.1 k)
