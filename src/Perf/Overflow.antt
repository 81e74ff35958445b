-- ===== src/Perf/Overflow.antt =====
-- The checksum that the tests of task3_making-chat-on-c/prartb_2.c take of their data.
use making_chat_on_c.Base.{ℕ, ◌+◌, ◌*◌, ◌<◌, ◌≡◌, ◌∙◌, refl, ap, Bool, none, take, arith}
use making_chat_on_c.Checksum.{calculate_checksum, int_max}
use making_chat_on_c.Checksum.Sum.{filled_pairs, take-filled_pairs}
use making_chat_on_c.Checksum.Laws.{calculate_checksum_overflows}
use making_chat_on_c.Os.{fault, call, gettimeofday, Text}
use making_chat_on_c.Perf.Inet.{transmit_ipv4_udp, transmit_ipv6_tcp, transmit_ipv6_udp}
use making_chat_on_c.Perf.Local.{
  transmit_uds_dgram, transmit_uds_stream, transmit_mmap, transmit_pipe,
}
use making_chat_on_c.Perf.Server.{transmit_server}

module _ (quarter : ℕ) (large : int_max < quarter * (65 * 257)) where
  whole_overflows : calculate_checksum (filled_pairs (quarter + quarter) 65) ≡ none
  whole_overflows = (calculate_checksum_overflows (quarter + quarter) 65).1 (omega arith)

  half_overflows :
      calculate_checksum (take (quarter + quarter) (filled_pairs (quarter + quarter) 65)) ≡ none
  half_overflows =
      ap calculate_checksum (take-filled_pairs quarter quarter 65)
      ∙ (calculate_checksum_overflows quarter 65).1 large

  -- With `4 * quarter` bytes of the letter A, of which a quarter's words do not fit an `int`, every
  -- test that fills its data itself overflows the `int` of its checksum before it sends a byte: so
  -- do all eight that are not `ipv4_tcp` of a file, the server's included, with the 100 megabytes
  -- of the program.
  pub transmits_overflow :
      (fd sock block : ℕ) (ip port : Text) (quiet : Bool)
      → (transmit_ipv4_udp (quarter + quarter) sock ip port quiet ≡ fault)
        × (transmit_ipv6_tcp (quarter + quarter) sock block quiet ≡ call gettimeofday (λ t. fault))
        × (transmit_ipv6_udp (quarter + quarter) sock block ip port quiet ≡ fault)
        × (transmit_uds_dgram (quarter + quarter) sock block ip quiet ≡ fault)
        × (transmit_uds_stream (quarter + quarter) sock block quiet ≡ fault)
        × (transmit_mmap (quarter + quarter) fd sock quiet ≡ fault)
        × (transmit_pipe (quarter + quarter) block ip quiet ≡ fault)
        × (transmit_server (quarter + quarter) fd sock block quiet ≡ fault)
  unfolding transmit_ipv4_udp transmit_ipv6_tcp transmit_ipv6_udp transmit_uds_dgram
      transmit_uds_stream transmit_mmap transmit_pipe transmit_server
  transmits_overflow fd sock block ip port quiet = (
    rw whole_overflows refl,
    rw whole_overflows refl,
    rw whole_overflows refl,
    rw whole_overflows refl,
    rw whole_overflows refl,
    rw half_overflows refl,
    rw half_overflows refl,
    rw half_overflows refl,
  )
