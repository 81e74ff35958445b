-- ===== src/Early.antt =====
-- task3_making-chat-on-c/partb.c, an earlier form of the performance tests: its `main`.
pub mod Checksums
pub mod Runs
pub mod Chat
pub mod Typed
mod Tests
use making_chat_on_c.Base.{
  ℕ, Bool, true, false, List, [], ◌∷◌, Option, none, some, String, ◌&&◌, bytes_eq, codes, drop,
  if◌then◌else◌,
}
use making_chat_on_c.Os.{
  Text, Prog, ret, fault, ◌>>=◌, ◌>>◌, sys, perror, print, malloc, open_path, close, file_size,
  map_file, munmap, fstat,
}

pub record Options : Type 0 where
  pub port : Option Text
  pub perform_test : Bool
  pub quiet_mode : Bool

-- The loop over `argv`; `none` is a `-s` without a port.
unfoldable pub read_options : List Text → Options → Option Options
read_options [] o = some o
read_options (arg ∷ []) o =
    if bytes_eq arg (codes "-s")
    then none
    else if bytes_eq arg (codes "-p")
    then some (record o { perform_test = true })
    else if bytes_eq arg (codes "-q")
    then some (record o { quiet_mode = true })
    else some o
read_options (arg ∷ value ∷ args) o =
    let after_port = read_options args (record o { port = some value }) in
    let after_test = read_options (value ∷ args) (record o { perform_test = true }) in
    let after_quiet = read_options (value ∷ args) (record o { quiet_mode = true }) in
    let rest = read_options (value ∷ args) o in
    if bytes_eq arg (codes "-s")
    then after_port
    else if bytes_eq arg (codes "-p")
    then after_test
    else if bytes_eq arg (codes "-q")
    then after_quiet
    else rest

-- The number that is printed is left out.
unfoldable pub print_test_result : String → Bool → Prog (Unit {0})
print_test_result name quiet = if quiet then ret tt else sys (print name [])

-- A string that is read; `none` is `NULL`.
abbrev pub text : {B : Type 0} → Option Text → (Text → Prog B) → Prog B
text none k = fault
text (some bytes) k = k bytes

-- The two words that a protocol is told by. The functions of the tests are declared in the
-- branches and not called.
unfoldable pub report_protocol : Text → Text → String → Text → String → Bool → Prog ℕ
unfolding print_test_result
report_protocol param first first_name second second_name quiet =
    if bytes_eq param first
    then (do print_test_result first_name quiet; ret 0)
    else if bytes_eq param second
    then (do print_test_result second_name quiet; ret 0)
    else ret 0

unfoldable pub test_mmap : Text → Bool → Prog ℕ
unfolding print_test_result
test_mmap param quiet = do
  opened ← sys (open_path param "r")
  elim opened [
    | none ↦ do sys (print "Error: could not open file" param); ret 1
    | some fd ↦ do
      regular ← sys (fstat fd)
      elim regular [
        | none ↦ do sys (print "Error: could not stat file" param); sys (close fd); ret 1
        | some false ↦ do sys (print "Error: not a regular file" param); sys (close fd); ret 1
        | some true ↦ do
          size ← sys (file_size fd)
          mapped ← sys (map_file fd size)
          elim mapped [
            | false ↦ do sys (print "Error: could not map file" param); sys (close fd); ret 1
            | true ↦ do print_test_result "mmap" quiet; sys (munmap size); sys (close fd); ret 0
          ]
      ]
  ]

unfoldable pub test_pipe_end : Text → Text → String → String → Bool → Prog ℕ
unfolding print_test_result
test_pipe_end type param mode name quiet = do
  opened ← sys (open_path type mode)
  elim opened [
    | none ↦ do sys (print "Error: could not open pipe" param); ret 1
    | some fd ↦ do print_test_result name quiet; sys (close fd); ret 0
  ]

unfoldable pub test_pipe : Text → Text → Bool → Prog ℕ
unfolding test_pipe_end
test_pipe type param quiet =
    if bytes_eq param (codes "r")
    then test_pipe_end type param "r" "pipe_r" quiet
    else if bytes_eq param (codes "w")
    then test_pipe_end type param "w" "pipe_w" quiet
    else (do sys (print "Error: invalid parameter for pipe" param); ret 1)

-- From the first `strcmp` of `type` on.
unfoldable pub run_type : Option Text → Option Text → Bool → Prog ℕ
unfolding report_protocol test_mmap test_pipe
run_type none param quiet = fault
run_type (some type) param quiet =
    if bytes_eq type (codes "ipv4")
    then text param
        (λ param. report_protocol param (codes "tcp") "ipv4_tcp" (codes "udp") "ipv4_udp" quiet)
    else if bytes_eq type (codes "ipv6")
    then text param
        (λ param. report_protocol param (codes "tcp") "ipv6_tcp" (codes "udp") "ipv6_udp" quiet)
    else if bytes_eq type (codes "uds")
    then text param (λ param.
      report_protocol param (codes "dgram") "uds_dgram" (codes "stream") "uds_stream" quiet)
    else if bytes_eq type (codes "mmap")
    then text param (λ param. test_mmap param quiet)
    else if bytes_eq type (codes "pipe")
    then text param (λ param. test_pipe type param quiet)
    else (do sys (print "Error: invalid type" type); ret 1)

-- `type` and `param` are set to `NULL` at the start, and nowhere else. `size` is `CHUNK_SIZE`.
unfoldable pub early_main : ℕ → List Text → Prog ℕ
unfolding read_options run_type
early_main size argv =
    elim (read_options (drop 1 argv)
      (record { port = none; perform_test = false; quiet_mode = false })) [
        | none ↦ do sys (print "Error: port not specified." []); ret 1
        | some options ↦ elim options.port [
          | none ↦ do sys (print "Error: port not specified." []); ret 1
          | some port ↦
              if options.perform_test
              then (do
                data' ← sys (malloc size)
                elim data' [
                  | none ↦ do sys (perror "malloc"); ret 1
                  | some block ↦ run_type none none options.quiet_mode
                ])
              else (do sys (print "Error: -p option not specified." []); ret 1)
        ]
      ]
