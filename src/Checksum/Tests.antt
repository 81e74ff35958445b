-- ===== src/Checksum/Tests.antt =====
-- Runs of the checksums, and their theorems at concrete buffers.
use making_chat_on_c.Base.{ℕ, ◌≡◌, refl, List, [], ◌∷◌, some, arith, ◌++◌, ◌-◌}
use making_chat_on_c.Checksum.{compute_checksum, calculate_checksum}
use making_chat_on_c.Checksum.Sum.{word_sum}
use making_chat_on_c.Checksum.Fold.{ones_sum}
use making_chat_on_c.Checksum.Laws.{
  compute_checksum-ones_sum, calculate_checksum-ones_sum, compute_checksum_verifies, checksum_bytes,
}

abbrev sample : List ℕ
sample = 0xff ∷ 0xff ∷ 0x34 ∷ 0x12 ∷ 0xf0 ∷ []

abbrev even_sample : List ℕ
even_sample = 0xff ∷ 0xff ∷ 0x34 ∷ 0x12 ∷ []

sample_checksum : compute_checksum sample ≡ some 60635
unfolding compute_checksum
sample_checksum = refl

compute_checksum-ones_sum_example :
    compute_checksum sample ≡ some (65535 - ones_sum (word_sum sample))
compute_checksum-ones_sum_example = compute_checksum-ones_sum sample (omega arith) (omega arith)

calculate_checksum-ones_sum_example :
    calculate_checksum sample ≡ some (65535 - ones_sum (word_sum sample))
unfolding word_sum
calculate_checksum-ones_sum_example = calculate_checksum-ones_sum sample

even_checksum : compute_checksum even_sample ≡ some 60875
unfolding compute_checksum
even_checksum = refl

compute_checksum_verifies_example : compute_checksum (even_sample ++ checksum_bytes 60875) ≡ some 0
compute_checksum_verifies_example =
    compute_checksum_verifies even_sample 60875 (omega arith) (omega arith) (omega arith)
      even_checksum
