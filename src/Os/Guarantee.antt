-- ===== src/Os/Guarantee.antt =====
-- What holds of a program whatever the environment answers, as long as the answers are those
-- that the calls document. A ledger follows the calls.
use making_chat_on_c.Base.{
  ℕ, ◌≤◌, ◌<◌, Bool, true, false, List, [], ◌∷◌, Option, none, some, length, if◌then◌else◌, ◌≡◌,
}
use making_chat_on_c.Os.{
  Call, Answer, Prog, ret, exit, fault, spin, call, defined, ◌>>=◌, socket, setsockopt, bind,
  listen, accept, connect, recv, recvfrom, read, send, sendto, write, poll, gettimeofday, close,
  unlink, mkfifo, open_file, fopen, fclose, fgets, fread, fwrite, feof, usleep, fcntl, realloc,
  inet_pton, malloc, free, file_size, clock, ftruncate, map_file, munmap, fwrite_whole, fputs,
  open_path, fopen_path, fork, shutdown, getaddrinfo, resolve, fstat, freeaddrinfo, free_part,
  Domain, invoke, would_block, perror, print, report,
}

-- A read stores no more bytes than it is given room for.
abbrev pub Fits : ℕ → Option (List ℕ) → Type 0
Fits room none = Unit {0}
Fits room (some bytes) = length bytes ≤ room

-- A line that `fgets` stores is not empty, and leaves room for the zero.
abbrev pub IsLine : ℕ → Option (List ℕ) → Type 0
IsLine room none = Unit {0}
IsLine room (some []) = ⊥
IsLine room (some (b ∷ bs)) = length (b ∷ bs) < room

-- `write` and `send` take no more than they are given, and something of what is not empty.
abbrev pub Takes : List ℕ → Option ℕ → Type 0
Takes bytes none = Unit {0}
Takes bytes (some n) = (n ≤ length bytes) × (0 < length bytes → 0 < n)

abbrev pub Legal : (c : Call) → Answer c → Type 0
Legal (recv fd n) r = Fits n r
Legal (recvfrom fd n) r = Fits n r
Legal (read fd n) r = Fits n r
Legal (fgets f n) r = IsLine n r
Legal (fread f n) r = length r ≤ n
Legal (send fd bs) r = Takes bs r
Legal (write fd bs) r = Takes bs r
Legal c r = Unit {0}

-- The answers to a call, one case for each shape that the programs tell apart.
abbrev CasesBool : (Bool → Type 0) → Type 0
CasesBool P = P true × P false

abbrev CasesNumber : (Option ℕ → Type 0) → Type 0
CasesNumber P = P none × ((n : ℕ) → P (some n))

abbrev CasesTaken : List ℕ → (Option ℕ → Type 0) → Type 0
CasesTaken bytes P = P none × ((n : ℕ) → n ≤ length bytes → (0 < length bytes → 0 < n) → P (some n))

abbrev CasesBytes : ℕ → (Option (List ℕ) → Type 0) → Type 0
CasesBytes room P =
    P none × P (some []) × ((b : ℕ) (bs : List ℕ) → length (b ∷ bs) ≤ room → P (some (b ∷ bs)))

abbrev CasesLine : (Option (List ℕ) → Type 0) → Type 0
CasesLine P = P none × P (some []) × ((b : ℕ) (bs : List ℕ) → P (some (b ∷ bs)))

abbrev pub Cases : (c : Call) → (Answer c → Type 0) → Type 0
Cases (socket d k) P = CasesNumber P
Cases (setsockopt fd) P = CasesBool P
Cases (bind fd a) P = CasesBool P
Cases (listen fd n) P = CasesBool P
Cases (accept fd) P = CasesNumber P
Cases (connect fd a) P = CasesBool P
Cases (recv fd n) P = CasesBytes n P
Cases (recvfrom fd n) P = CasesBytes n P
Cases (read fd n) P = CasesBytes n P
Cases (send fd bs) P = CasesTaken bs P
Cases (sendto fd bs a) P = CasesNumber P
Cases (write fd bs) P = CasesTaken bs P
Cases (open_file p m) P = CasesNumber P
Cases (fopen p m) P = CasesNumber P
Cases (feof f) P = CasesBool P
Cases (perror s) P = P tt
Cases (usleep n) P = P tt
Cases (print s bs) P = P tt
Cases (report s n) P = P tt
Cases (close fd) P = P tt
Cases (fclose fd) P = P tt
Cases (unlink p) P = P tt
Cases (mkfifo p) P = P tt
Cases (fwrite f bs) P = P tt
Cases (fcntl fd) P = CasesBool P
Cases (realloc n) P = CasesLine P
Cases (invoke h) P = P tt
Cases would_block P = CasesBool P
Cases (fgets f n) P = P none × ((b : ℕ) (bs : List ℕ) → length (b ∷ bs) < n → P (some (b ∷ bs)))
Cases (fread f n) P = P [] × ((b : ℕ) (bs : List ℕ) → length (b ∷ bs) ≤ n → P (b ∷ bs))
Cases (poll fds timeout) P = CasesLine P
Cases gettimeofday P = (t : ℕ × ℕ) → P t
Cases (inet_pton a) P = CasesBool P
Cases (malloc m) P = CasesNumber P
Cases (free p) P = P tt
Cases (file_size f) P = (n : ℕ) → P n
Cases clock P = (n : ℕ) → P n
Cases (ftruncate fd m) P = CasesBool P
Cases (map_file fd m) P = CasesBool P
Cases (munmap m) P = P tt
Cases (fwrite_whole f bs) P = CasesBool P
Cases (fputs f t) P = P tt
Cases (open_path p m) P = CasesNumber P
Cases (fopen_path p m) P = CasesNumber P
Cases fork P = CasesBool P
Cases (shutdown fd) P = P tt
Cases (getaddrinfo service) P = P none × ((families : List Domain) → P (some families))
Cases (resolve name service) P = CasesBool P
Cases (fstat fd) P = P none × P (some true) × P (some false)
Cases freeaddrinfo P = P tt
Cases (free_part part) P = P tt

CasesBool-all : (P : Bool → Type 0) → CasesBool P → (r : Bool) → P r
CasesBool-all P h true = h.0
CasesBool-all P h false = h.1

CasesNumber-all : (P : Option ℕ → Type 0) → CasesNumber P → (r : Option ℕ) → P r
CasesNumber-all P h none = h.0
CasesNumber-all P h (some n) = h.1 n

CasesBytes-all :
    (room : ℕ) (P : Option (List ℕ) → Type 0)
    → CasesBytes room P
    → (r : Option (List ℕ)) → Fits room r
    → P r
CasesBytes-all room P h none fits = h.0
CasesBytes-all room P h (some []) fits = h.1
CasesBytes-all room P h (some (b ∷ bs)) fits = h.2 b bs fits

CasesLine-all : (P : Option (List ℕ) → Type 0) → CasesLine P → (r : Option (List ℕ)) → P r
CasesLine-all P h none = h.0
CasesLine-all P h (some []) = h.1
CasesLine-all P h (some (b ∷ bs)) = h.2 b bs

CasesBlock-all :
    (room : ℕ) (P : List ℕ → Type 0)
    → P [] × ((b : ℕ) (bs : List ℕ) → length (b ∷ bs) ≤ room → P (b ∷ bs))
    → (r : List ℕ) → length r ≤ room
    → P r
CasesBlock-all room P h [] fits = h.0
CasesBlock-all room P h (b ∷ bs) fits = h.1 b bs fits

Cases-all : (c : Call) (P : Answer c → Type 0) → Cases c P → (r : Answer c) → Legal c r → P r
Cases-all (socket d k) P h r legal = CasesNumber-all P h r
Cases-all (setsockopt fd) P h r legal = CasesBool-all P h r
Cases-all (bind fd a) P h r legal = CasesBool-all P h r
Cases-all (listen fd n) P h r legal = CasesBool-all P h r
Cases-all (accept fd) P h r legal = CasesNumber-all P h r
Cases-all (connect fd a) P h r legal = CasesBool-all P h r
Cases-all (recv fd n) P h r legal = CasesBytes-all n P h r legal
Cases-all (recvfrom fd n) P h r legal = CasesBytes-all n P h r legal
Cases-all (read fd n) P h r legal = CasesBytes-all n P h r legal
Cases-all (send fd bs) P h none legal = h.0
Cases-all (send fd bs) P h (some n) (le, some_taken) = h.1 n le some_taken
Cases-all (sendto fd bs a) P h r legal = CasesNumber-all P h r
Cases-all (write fd bs) P h none legal = h.0
Cases-all (write fd bs) P h (some n) (le, some_taken) = h.1 n le some_taken
Cases-all (open_file p m) P h r legal = CasesNumber-all P h r
Cases-all (fopen p m) P h r legal = CasesNumber-all P h r
Cases-all (feof f) P h r legal = CasesBool-all P h r
Cases-all (perror s) P h r legal = h
Cases-all (usleep n) P h r legal = h
Cases-all (print s bs) P h r legal = h
Cases-all (report s n) P h r legal = h
Cases-all (close fd) P h r legal = h
Cases-all (fclose fd) P h r legal = h
Cases-all (unlink p) P h r legal = h
Cases-all (mkfifo p) P h r legal = h
Cases-all (fwrite f bs) P h r legal = h
Cases-all (fcntl fd) P h r legal = CasesBool-all P h r
Cases-all (realloc n) P h r legal = CasesLine-all P h r
Cases-all (invoke f) P h r legal = h
Cases-all would_block P h r legal = CasesBool-all P h r
Cases-all (fgets f n) P h none legal = h.0
Cases-all (fgets f n) P h (some []) legal = absurd legal
Cases-all (fgets f n) P h (some (b ∷ bs)) legal = h.1 b bs legal
Cases-all (fread f n) P h r legal = CasesBlock-all n P h r legal
Cases-all (poll fds timeout) P h r legal = CasesLine-all P h r
Cases-all gettimeofday P h r legal = h r
Cases-all (inet_pton a) P h r legal = CasesBool-all P h r
Cases-all (malloc m) P h r legal = CasesNumber-all P h r
Cases-all (free p) P h r legal = h
Cases-all (file_size f) P h r legal = h r
Cases-all clock P h r legal = h r
Cases-all (ftruncate fd m) P h r legal = CasesBool-all P h r
Cases-all (map_file fd m) P h r legal = CasesBool-all P h r
Cases-all (munmap m) P h r legal = h
Cases-all (fwrite_whole f bs) P h r legal = CasesBool-all P h r
Cases-all (fputs f t) P h r legal = h
Cases-all (open_path p m) P h r legal = CasesNumber-all P h r
Cases-all (fopen_path p m) P h r legal = CasesNumber-all P h r
Cases-all fork P h r legal = CasesBool-all P h r
Cases-all (shutdown fd) P h r legal = h
Cases-all (getaddrinfo service) P h none legal = h.0
Cases-all (getaddrinfo service) P h (some families) legal = h.1 families
Cases-all (resolve name service) P h r legal = CasesBool-all P h r
Cases-all (fstat fd) P h none legal = h.0
Cases-all (fstat fd) P h (some true) legal = h.1
Cases-all (fstat fd) P h (some false) legal = h.2
Cases-all freeaddrinfo P h r legal = h
Cases-all (free_part part) P h r legal = h

Cases-map :
    (c : Call) (P Q : Answer c → Type 0) → ((r : Answer c) → P r → Q r) → Cases c P → Cases c Q
Cases-map (socket d k) P Q g h = (g none h.0, λ n. g (some n) (h.1 n))
Cases-map (setsockopt fd) P Q g h = (g true h.0, g false h.1)
Cases-map (bind fd a) P Q g h = (g true h.0, g false h.1)
Cases-map (listen fd n) P Q g h = (g true h.0, g false h.1)
Cases-map (accept fd) P Q g h = (g none h.0, λ n. g (some n) (h.1 n))
Cases-map (connect fd a) P Q g h = (g true h.0, g false h.1)
Cases-map (recv fd n) P Q g h =
    (g none h.0, g (some []) h.1, λ b bs le. g (some (b ∷ bs)) (h.2 b bs le))
Cases-map (recvfrom fd n) P Q g h =
    (g none h.0, g (some []) h.1, λ b bs le. g (some (b ∷ bs)) (h.2 b bs le))
Cases-map (read fd n) P Q g h =
    (g none h.0, g (some []) h.1, λ b bs le. g (some (b ∷ bs)) (h.2 b bs le))
Cases-map (send fd bs) P Q g h = (g none h.0, λ n le least. g (some n) (h.1 n le least))
Cases-map (sendto fd bs a) P Q g h = (g none h.0, λ n. g (some n) (h.1 n))
Cases-map (write fd bs) P Q g h = (g none h.0, λ n le least. g (some n) (h.1 n le least))
Cases-map (open_file p m) P Q g h = (g none h.0, λ n. g (some n) (h.1 n))
Cases-map (fopen p m) P Q g h = (g none h.0, λ n. g (some n) (h.1 n))
Cases-map (feof f) P Q g h = (g true h.0, g false h.1)
Cases-map (perror s) P Q g h = g tt h
Cases-map (usleep n) P Q g h = g tt h
Cases-map (print s bs) P Q g h = g tt h
Cases-map (report s n) P Q g h = g tt h
Cases-map (close fd) P Q g h = g tt h
Cases-map (fclose fd) P Q g h = g tt h
Cases-map (unlink p) P Q g h = g tt h
Cases-map (mkfifo p) P Q g h = g tt h
Cases-map (fwrite f bs) P Q g h = g tt h
Cases-map (realloc n) P Q g h = (g none h.0, g (some []) h.1, λ b bs. g (some (b ∷ bs)) (h.2 b bs))
Cases-map (invoke f) P Q g h = g tt h
Cases-map would_block P Q g h = (g true h.0, g false h.1)
Cases-map (fcntl fd) P Q g h = (g true h.0, g false h.1)
Cases-map (fgets f n) P Q g h = (g none h.0, λ b bs le. g (some (b ∷ bs)) (h.1 b bs le))
Cases-map (fread f n) P Q g h = (g [] h.0, λ b bs le. g (b ∷ bs) (h.1 b bs le))
Cases-map (poll fds timeout) P Q g h =
    (g none h.0, g (some []) h.1, λ b bs. g (some (b ∷ bs)) (h.2 b bs))
Cases-map gettimeofday P Q g h = λ t. g t (h t)
Cases-map (inet_pton a) P Q g h = (g true h.0, g false h.1)
Cases-map (malloc m) P Q g h = (g none h.0, λ n. g (some n) (h.1 n))
Cases-map (free p) P Q g h = g tt h
Cases-map (file_size f) P Q g h = λ n. g n (h n)
Cases-map clock P Q g h = λ n. g n (h n)
Cases-map (ftruncate fd m) P Q g h = (g true h.0, g false h.1)
Cases-map (map_file fd m) P Q g h = (g true h.0, g false h.1)
Cases-map (munmap m) P Q g h = g tt h
Cases-map (fwrite_whole f bs) P Q g h = (g true h.0, g false h.1)
Cases-map (fputs f t) P Q g h = g tt h
Cases-map (open_path p m) P Q g h = (g none h.0, λ n. g (some n) (h.1 n))
Cases-map (fopen_path p m) P Q g h = (g none h.0, λ n. g (some n) (h.1 n))
Cases-map fork P Q g h = (g true h.0, g false h.1)
Cases-map (shutdown fd) P Q g h = g tt h
Cases-map (getaddrinfo service) P Q g h = (g none h.0, λ families. g (some families) (h.1 families))
Cases-map (resolve name service) P Q g h = (g true h.0, g false h.1)
Cases-map (fstat fd) P Q g h = (g none h.0, g (some true) h.1, g (some false) h.2)
Cases-map freeaddrinfo P Q g h = g tt h
Cases-map (free_part part) P Q g h = g tt h

module _ {S : Type 0} (step : (c : Call) → Answer c → S → S) where
  -- From the ledger `s`, every run meets no fault, and what it returns or the status with which
  -- it exits is as stated of the ledger at its end; the status `none` is that of a run that is out
  -- of fuel.
  abbrev pub Ensures :
      {A : Type 0} → (A → S → Type 0) → (Option ℕ → S → Type 0) → S → Prog A → Type 0
  Ensures P E s (ret a) = P a s
  Ensures P E s (exit n) = E (some n) s
  Ensures P E s fault = ⊥
  Ensures P E s spin = E none s
  Ensures P E s (call c k) = (r : Answer c) → Legal c r → Ensures P E (step c r s) (k r)

  -- The same with the answers taken apart, which is how it is proved.
  abbrev pub Checks :
      {A : Type 0} → (A → S → Type 0) → (Option ℕ → S → Type 0) → S → Prog A → Type 0
  Checks P E s (ret a) = P a s
  Checks P E s (exit n) = E (some n) s
  Checks P E s fault = ⊥
  Checks P E s spin = E none s
  Checks P E s (call c k) = Cases c (λ r. Checks P E (step c r s) (k r))

  module _ {A B : Type 0} (P : B → S → Type 0) (E : Option ℕ → S → Type 0) (f : A → Prog B)
      (s : S) where
    pub if-Checks :
        (b : Bool) (m k : Prog A)
        → Checks P E s (m >>= f)
        → Checks P E s (k >>= f)
        → Checks P E s ((if b then m else k) >>= f)
    if-Checks true m k h g = h
    if-Checks false m k h g = g

    pub defined-Checks :
        {C : Type 0} (o : Option C) (c : C) (k : C → Prog A)
        → o ≡ some c
        → Checks P E s (k c >>= f)
        → Checks P E s (defined o k >>= f)
    defined-Checks o c k e h = rw e h

  module _ {A : Type 0} (P : A → S → Type 0) (E : Option ℕ → S → Type 0) where
    pub Ensures-of_Checks : (s : S) (m : Prog A) → Checks P E s m → Ensures P E s m
    Ensures-of_Checks s (ret a) h = h
    Ensures-of_Checks s (exit n) h = h
    Ensures-of_Checks s fault h = h
    Ensures-of_Checks s spin h = h
    Ensures-of_Checks s (call c k) h = λ r legal.
        Ensures-of_Checks (step c r s) (k r)
          (Cases-all c (λ r. Checks P E (step c r s) (k r)) h r legal)

  module _ {A B : Type 0} (P : A → S → Type 0) (E : Option ℕ → S → Type 0) (Q : B → S → Type 0)
      (f : A → Prog B) (next : (a : A) (t : S) → P a t → Ensures Q E t (f a)) where
    -- A guarantee of a program carries over to what follows it.
    pub Ensures-bind : (s : S) (m : Prog A) → Ensures P E s m → Ensures Q E s (m >>= f)
    Ensures-bind s (ret a) h = next a s h
    Ensures-bind s (exit n) h = h
    Ensures-bind s fault h = h
    Ensures-bind s spin h = h
    Ensures-bind s (call c k) h = λ r legal. Ensures-bind (step c r s) (k r) (h r legal)

  module _ {A B : Type 0} (P : A → S → Type 0) (E : Option ℕ → S → Type 0) (Q : B → S → Type 0)
      (f : A → Prog B) (next : (a : A) (t : S) → P a t → Checks Q E t (f a)) where
    pub Checks-bind : (s : S) (m : Prog A) → Checks P E s m → Checks Q E s (m >>= f)
    Checks-bind s (ret a) h = next a s h
    Checks-bind s (exit n) h = h
    Checks-bind s fault h = h
    Checks-bind s spin h = h
    Checks-bind s (call c k) h =
        Cases-map c (λ r. Checks P E (step c r s) (k r)) (λ r. Checks Q E (step c r s) (k r >>= f))
          (λ r. Checks-bind (step c r s) (k r)) h
