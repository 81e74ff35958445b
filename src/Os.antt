-- ===== src/Os.antt =====
-- The operating system and the C library as the programs of task3_making-chat-on-c and
-- task4_DesignPattern_Reactor see them: the calls that they make, the answers that a call can
-- have, and a program as the tree of its calls. What a call answers is chosen by the environment.
pub mod Guarantee
pub mod Ledger
pub mod Feed
pub mod Assume
use making_chat_on_c.Base.{
  ℕ, zero, ◌+◌, ◌*◌, ◌==◌, String, Bool, true, false, List, [], ◌∷◌, Option, none, some,
  if◌then◌else◌,
}
use making_chat_on_c.Base.Int.{ℤ, sub_ℕ}

-- A C string: its bytes before the zero.
abbrev pub Text : Type 0
Text = List ℕ

pub data Domain : Type 0 where
  inet inet6 unix_local : Domain

pub data Kind : Type 0 where
  stream dgram : Kind

-- `htons(8000)`, or `htons(atoi(text))`
pub data Port : Type 0 where
  literal : ℕ → Port
  parsed : Text → Port

-- What a `struct sockaddr` is filled with.
pub data Address : Type 0 where
  any_host : Port → Address
  host : Text → Port → Address
  socket_path : String → Address
  named_socket : Text → Address
  resolved : Text → Text → Address

-- What `destroyReactor` frees. These pieces move when they grow, so they have no address here.
pub data Part : Type 0 where
  event_table poll_array reactor_record : Part

-- Descriptors and `FILE *` are numbers.
pub data Call : Type 0 where
  socket : Domain → Kind → Call
  setsockopt : ℕ → Call
  bind : ℕ → Address → Call
  listen : ℕ → ℕ → Call
  accept : ℕ → Call
  connect : ℕ → Address → Call
  recv : ℕ → ℕ → Call
  recvfrom : ℕ → ℕ → Call
  read : ℕ → ℕ → Call
  send : ℕ → List ℕ → Call
  sendto : ℕ → List ℕ → Address → Call
  write : ℕ → List ℕ → Call
  poll : List ℕ → Option ℕ → Call
  gettimeofday : Call
  close : ℕ → Call
  unlink : String → Call
  mkfifo : String → Call
  open_file : String → String → Call
  fopen : String → String → Call
  fclose : ℕ → Call
  fgets : ℕ → ℕ → Call
  fread : ℕ → ℕ → Call
  fwrite : ℕ → List ℕ → Call
  feof : ℕ → Call
  usleep : ℕ → Call
  fcntl : ℕ → Call
  realloc : ℕ → Call
  invoke : ℕ → Call
  would_block : Call
  perror : String → Call
  print : String → List ℕ → Call
  report : String → ℤ → Call
  inet_pton : Text → Call
  malloc : ℕ → Call
  free : ℕ → Call
  file_size : ℕ → Call
  clock : Call
  ftruncate : ℕ → ℕ → Call
  map_file : ℕ → ℕ → Call
  munmap : ℕ → Call
  fwrite_whole : ℕ → List ℕ → Call
  fputs : ℕ → String → Call
  open_path : Text → String → Call
  fopen_path : Text → String → Call
  fork : Call
  shutdown : ℕ → Call
  getaddrinfo : String → Call
  resolve : Text → Text → Call
  fstat : ℕ → Call
  freeaddrinfo : Call
  free_part : Part → Call

-- `none` is the -1 or the `NULL` of a call that failed, and `false` that of a call with no other
-- result; a result that the programs drop is left out. A read answers the bytes that it stored,
-- `fgets` the line or `none` at the end, and `poll` the `revents` of each descriptor. `realloc`
-- answers what the new memory happens to hold, `would_block` whether `errno` is `EWOULDBLOCK` or
-- `EAGAIN`, `fwrite_whole` whether all was written, and `fork` whether this is the child. `invoke`
-- calls a handler. `getaddrinfo` answers the families of the addresses, and as `resolve`
-- whether there is one. `fstat` answers whether a file is a regular one. `file_size` is `fseek` to the end, `ftell` and `fseek` back, and is taken not
-- to fail.
abbrev pub Answer : Call → Type 0
Answer (socket d k) = Option ℕ
Answer (setsockopt fd) = Bool
Answer (bind fd a) = Bool
Answer (listen fd n) = Bool
Answer (accept fd) = Option ℕ
Answer (connect fd a) = Bool
Answer (recv fd n) = Option (List ℕ)
Answer (recvfrom fd n) = Option (List ℕ)
Answer (read fd n) = Option (List ℕ)
Answer (send fd bs) = Option ℕ
Answer (sendto fd bs a) = Option ℕ
Answer (write fd bs) = Option ℕ
Answer (poll fds timeout) = Option (List ℕ)
Answer gettimeofday = ℕ × ℕ
Answer (close fd) = Unit {0}
Answer (unlink p) = Unit {0}
Answer (mkfifo p) = Unit {0}
Answer (open_file p mode) = Option ℕ
Answer (fopen p mode) = Option ℕ
Answer (fclose f) = Unit {0}
Answer (fgets f n) = Option (List ℕ)
Answer (fread f n) = List ℕ
Answer (fwrite f bs) = Unit {0}
Answer (feof f) = Bool
Answer (usleep n) = Unit {0}
Answer (fcntl fd) = Bool
Answer (realloc n) = Option (List ℕ)
Answer (invoke h) = Unit {0}
Answer would_block = Bool
Answer (perror s) = Unit {0}
Answer (print s bs) = Unit {0}
Answer (report s n) = Unit {0}
Answer (inet_pton a) = Bool
Answer (malloc n) = Option ℕ
Answer (free p) = Unit {0}
Answer (file_size f) = ℕ
Answer clock = ℕ
Answer (ftruncate fd n) = Bool
Answer (map_file fd n) = Bool
Answer (munmap n) = Unit {0}
Answer (fwrite_whole f bs) = Bool
Answer (fputs f t) = Unit {0}
Answer (open_path p m) = Option ℕ
Answer (fopen_path p m) = Option ℕ
Answer fork = Bool
Answer (shutdown fd) = Unit {0}
Answer (getaddrinfo service) = Option (List Domain)
Answer (resolve name service) = Bool
Answer (fstat fd) = Option Bool
Answer freeaddrinfo = Unit {0}
Answer (free_part part) = Unit {0}

-- `fault` is behaviour that C leaves undefined, `spin` a loop that ran out of fuel.
pub data Prog (A : Type 0) : Type 0 where
  ret : A → Prog A
  exit : ℕ → Prog A
  fault : Prog A
  spin : Prog A
  call : (c : Call) → (Answer c → Prog A) → Prog A

infixl 5 ◌>>=◌ ◌>>◌
abbrev pub ◌>>=◌ : {A B : Type 0} → Prog A → (A → Prog B) → Prog B
ret a >>= f = f a
exit n >>= f = exit n
fault >>= f = fault
spin >>= f = spin
call c k >>= f = call c (λ r. k r >>= f)

abbrev pub ◌>>◌ : {A B : Type 0} → Prog A → Prog B → Prog B
m >> k = m >>= λ _. k

abbrev pub sys : (c : Call) → Prog (Answer c)
sys c = call c (λ r. ret r)

-- `perror(text); exit(1);`
abbrev pub die : {A : Type 0} → String → Prog A
die text = call (perror text) (λ _. exit 1)

-- A test that runs a handler when a call has failed.
abbrev pub require : Bool → Prog (Unit {0}) → Prog (Unit {0})
require true handler = ret tt
require false handler = handler

abbrev pub unwrap : {A : Type 0} → Option A → Prog A → Prog A
unwrap none handler = handler
unwrap (some a) handler = ret a

-- Goes on with the value of a C operation; `none` is one that C leaves undefined.
abbrev pub defined : {A B : Type 0} → Option A → (A → Prog B) → Prog B
defined none k = fault
defined (some a) k = k a

-- `end - start` in microseconds, of two `struct timeval`
abbrev pub micros : ℕ × ℕ → ℕ
micros t = t.0 * 1000000 + t.1

abbrev pub elapsed : ℕ × ℕ → ℕ × ℕ → ℤ
elapsed start finish = sub_ℕ (micros finish) (micros start)

-- The number of descriptors with events: what `poll` returns.
abbrev pub ready_count : List ℕ → ℕ
ready_count [] = 0
ready_count (r ∷ rs) = (if r == 0 then 0 else 1) + ready_count rs

abbrev pub head_or_zero : List ℕ → ℕ
head_or_zero [] = 0
head_or_zero (r ∷ rs) = r
