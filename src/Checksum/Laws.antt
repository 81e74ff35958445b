-- ===== src/Checksum/Laws.antt =====
-- What `compute_checksum` and `calculate_checksum` of task3_making-chat-on-c return.
use making_chat_on_c.Base.{
  ℕ, ◌+◌, ◌-◌, ◌*◌, ◌/◌, ◌%◌, ◌^◌, ◌≤◌, ◌<◌, ◌≡◌, ◌∙◌, ap, List, [], ◌∷◌, ◌++◌, none, some, arith,
  ltb, if◌then◌else◌, length, length-append, ◌↔◌,
}
use making_chat_on_c.Checksum.{compute_checksum, calculate_checksum, add_words, int_max}
use making_chat_on_c.Checksum.Sum.{
  AllBytes, word_sum, word_sum-le, add_words-eq-word_sum, add_words_int-word_sum, filled_pairs,
  word_sum-filled_pairs, IsEven, word_sum-append, AllBytes-append,
}
use making_chat_on_c.Checksum.Fold.{
  ones_sum, ones_sum-lt, fold_carries-ones_sum, fold_twice-ones_sum,
}

-- On a buffer of fewer than 2 ^ 48 bytes `compute_checksum` ends its loops and returns the
-- complement of the 16-bit ones' complement sum of the buffer's words.
pub compute_checksum-ones_sum :
    (buffer : List ℕ)
    → AllBytes buffer
    → length buffer < 2 ^ 48
    → compute_checksum buffer ≡ some (65535 - ones_sum (word_sum buffer))
unfolding compute_checksum
compute_checksum-ones_sum buffer bytes short =
    let fits : word_sum buffer < 2 ^ 64 = omega (arith, word_sum-le buffer bytes) in
    let added : add_words 0 buffer ≡ word_sum buffer =
      add_words-eq-word_sum 0 buffer (omega arith) ∙ omega arith in
    rw (added, fold_carries-ones_sum (word_sum buffer) fits)
      (ap some (omega (arith, ones_sum-lt (word_sum buffer))))

-- `calculate_checksum` returns the complement of the ones' complement sum of the data's words
-- if the sum of the words fits an `int`, and overflows that `int` otherwise.
pub calculate_checksum-ones_sum :
    (buffer : List ℕ)
    → calculate_checksum buffer
      ≡ (if ltb int_max (word_sum buffer) then none else some (65535 - ones_sum (word_sum buffer)))
unfolding calculate_checksum
calculate_checksum-ones_sum buffer =
    ground (arith, add_words_int-word_sum 0 buffer, fold_twice-ones_sum (word_sum buffer))

-- Where `calculate_checksum` does not overflow, the server's `compute_checksum` and
-- the `calculate_checksum` of the performance tests return the same checksum. Conditions: a buffer of bytes, shorter
-- than 2 ^ 48.
pub calculate_checksum-compute_checksum :
    (buffer : List ℕ)
    → AllBytes buffer
    → length buffer < 2 ^ 48
    → word_sum buffer ≤ int_max
    → calculate_checksum buffer ≡ compute_checksum buffer
calculate_checksum-compute_checksum buffer bytes short fits =
    ground (arith, calculate_checksum-ones_sum buffer, compute_checksum-ones_sum buffer bytes short)

-- The two bytes of a checksum as they lie in memory.
abbrev pub checksum_bytes : ℕ → List ℕ
checksum_bytes c = c % 256 ∷ c / 256 ∷ []

ones_sum-complement : (n : ℕ) → ones_sum (n + (65535 - ones_sum n)) ≡ 65535
unfolding ones_sum
ones_sum-complement n = ground arith

-- The receiver's test: over an even number of bytes followed by their checksum,
-- `compute_checksum` is 0. The buffer is shorter than 2 ^ 47.
pub compute_checksum_verifies :
    (buffer : List ℕ) (c : ℕ)
    → AllBytes buffer
    → IsEven buffer
    → length buffer < 2 ^ 47
    → compute_checksum buffer ≡ some c
    → compute_checksum (buffer ++ checksum_bytes c) ≡ some 0
unfolding word_sum
compute_checksum_verifies buffer c bytes even short sent =
    let is : c ≡ 65535 - ones_sum (word_sum buffer) =
      ground (arith, compute_checksum-ones_sum buffer bytes) in
    let total : word_sum (buffer ++ checksum_bytes c)
        ≡ word_sum buffer + (65535 - ones_sum (word_sum buffer)) =
      omega (arith, word_sum-append buffer (checksum_bytes c) even) in
    compute_checksum-ones_sum (buffer ++ checksum_bytes c)
      (AllBytes-append buffer (checksum_bytes c) bytes
        (omega (arith, ones_sum-lt (word_sum buffer))))
      (omega (arith, length-append buffer (checksum_bytes c)))
    ∙ ap some (rw (total, ones_sum-complement (word_sum buffer)))

-- On a block of `2 * n` bytes `value` the `int` sum of `calculate_checksum` overflows exactly
-- when `n * value * 257` is above 2 ^ 31 - 1.
pub calculate_checksum_overflows :
    (n value : ℕ)
    → (calculate_checksum (filled_pairs n value) ≡ none) ↔ (int_max < n * (value * 257))
calculate_checksum_overflows n value =
    ground
      (arith, calculate_checksum-ones_sum (filled_pairs n value), word_sum-filled_pairs n value)
