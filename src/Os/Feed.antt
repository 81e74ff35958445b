-- ===== src/Os/Feed.antt =====
-- A program on a network that brings it the given datagrams, in order, each once.
use making_chat_on_c.Base.{ℕ, true, List, [], ◌∷◌, Option, none, some, take}
use making_chat_on_c.Os.{
  getaddrinfo, resolve, fstat, freeaddrinfo, free_part, Call, Answer, Prog, ret, exit, fault, spin,
  call, socket, setsockopt, bind, listen, accept, connect, recv, recvfrom, read, send, sendto,
  write, poll, gettimeofday, close, unlink, mkfifo, open_file, fopen, fclose, fgets, fread, fwrite,
  feof, usleep, fcntl, realloc, invoke, would_block, perror, print, report, inet_pton, malloc, free,
  file_size, clock, ftruncate, map_file, munmap, fwrite_whole, fputs, open_path, fopen_path, fork,
  shutdown,
}

-- The answer to a call. A `recvfrom` takes the first datagram, of which it keeps what there is
-- room for, and waits when there is none, which is `none`; `answer` answers all other calls.
abbrev pub reply :
    ((c : Call) → Answer c) → (c : Call) → List (List ℕ) → Option (Answer c × List (List ℕ))
reply answer (recvfrom fd room) [] = none
reply answer (recvfrom fd room) (d ∷ queue) = some (some (take room d), queue)
reply answer c queue = some (answer c, queue)

-- What the program returns, and the datagrams that it left; `none` is anything but a return.
abbrev pub feed :
    {A : Type 0} → ((c : Call) → Answer c) → List (List ℕ) → Prog A → Option (A × List (List ℕ))
feed answer queue (ret a) = some (a, queue)
feed answer queue (exit n) = none
feed answer queue fault = none
feed answer queue spin = none
feed answer queue (call c k) = elim (reply answer c queue) [
  | none ↦ none
  | some (r, left) ↦ feed answer left (k r)
]

-- Every call succeeds, at time 0, but those that read bring nothing.
abbrev pub all_succeed : (c : Call) → Answer c
all_succeed (socket d k) = some 3
all_succeed (setsockopt fd) = true
all_succeed (bind fd a) = true
all_succeed (listen fd n) = true
all_succeed (accept fd) = some 3
all_succeed (connect fd a) = true
all_succeed (recv fd n) = none
all_succeed (recvfrom fd n) = none
all_succeed (read fd n) = none
all_succeed (send fd bs) = some 3
all_succeed (sendto fd bs a) = some 3
all_succeed (write fd bs) = some 3
all_succeed (poll fds timeout) = none
all_succeed gettimeofday = (0, 0)
all_succeed (close fd) = tt
all_succeed (unlink p) = tt
all_succeed (mkfifo p) = tt
all_succeed (open_file p mode) = some 3
all_succeed (fopen p mode) = some 3
all_succeed (fclose f) = tt
all_succeed (fgets f n) = none
all_succeed (fread f n) = []
all_succeed (fwrite f bs) = tt
all_succeed (feof f) = true
all_succeed (usleep n) = tt
all_succeed (fcntl fd) = true
all_succeed (realloc n) = none
all_succeed (invoke h) = tt
all_succeed would_block = true
all_succeed (perror s) = tt
all_succeed (print s bs) = tt
all_succeed (report s n) = tt
all_succeed (inet_pton a) = true
all_succeed (malloc n) = some 3
all_succeed (free p) = tt
all_succeed (file_size f) = 0
all_succeed clock = 0
all_succeed (ftruncate fd n) = true
all_succeed (map_file fd n) = true
all_succeed (munmap n) = tt
all_succeed (fwrite_whole f bs) = true
all_succeed (fputs f t) = tt
all_succeed (open_path p m) = some 3
all_succeed (fopen_path p m) = some 3
all_succeed fork = true
all_succeed (shutdown fd) = tt
all_succeed (getaddrinfo service) = some []
all_succeed (resolve name service) = true
all_succeed (fstat fd) = some true
all_succeed freeaddrinfo = tt
all_succeed (free_part part) = tt
