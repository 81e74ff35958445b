-- ===== src/Examples.antt =====
-- The example programs of LIBS_GDB/examples: a library that greets, a program that is linked to it
-- and one that loads it, and a program to be run under a debugger.
use making_chat_on_c.Base.{ℕ, zero, suc, ◌+◌, List, [], Option, none, some, get_elem?, ◌≡◌, refl}
use making_chat_on_c.Base.Int.{ℤ, pos}
use making_chat_on_c.Os.{Text, Prog, ret, fault, ◌>>◌, sys, print, report, usleep}

-- A string argument; `none` is `NULL`, which `%s` must not be given.
unfoldable pub hello_message : Option Text → Prog (Unit {0})
hello_message none = fault
hello_message (some name) = sys (print "Hello " name)

-- main1_1.c
unfoldable pub linked_main : List Text → Prog ℕ
linked_main argv = do hello_message (get_elem? argv 1); ret 0

-- What `dlopen` and `dlsym` answer in main1_3.c: `none` where they give `NULL`.
abbrev pub Library : Type 0
Library = Option (Option (Option Text → Prog (Unit {0})))

unfoldable pub init_library : Library → Option (Option Text → Prog (Unit {0}))
init_library none = none
init_library (some none) = none
init_library (some (some function)) = some function

unfoldable pub loading_main : Library → List Text → Prog ℕ
unfolding init_library
loading_main library argv = elim (init_library library) [
  | none ↦ do sys (print "Library was not loaded " []); ret 0
  | some hello ↦ do hello (get_elem? argv 1); ret 0
]

-- With the library in place the two programs do the same.
loading_main-linked_main :
    (argv : List Text) → loading_main (some (some hello_message)) argv ≡ linked_main argv
unfolding loading_main linked_main
loading_main-linked_main argv = refl

-- simplePrint.c; `memory` is the `int` at an address, `none` where a process must not read.
unfoldable pub get_num : ℕ
get_num = 22

module _ (memory : ℕ → Option ℤ) where
  unfoldable pub print_value : ℕ → Prog (Unit {0})
  print_value val = elim (memory val) [ none ↦ fault | some n ↦ sys (report "val =  " n) ]

  -- The numbers of the processes that are printed are left out.
  unfoldable pub simple_main : Prog ℕ
  unfolding get_num print_value
  simple_main = do sys (print "pid: " []); print_value get_num; ret 0

-- The loop of `printLong` from `i` on, with `left` rounds to go.
unfoldable pub print_long_from : ℕ → ℕ → Prog (Unit {0})
print_long_from zero i = ret tt
print_long_from (suc left) i = do
  sys (report "Hello number " (pos i))
  sys (usleep 1000000)
  print_long_from left (i + 1)

unfoldable pub print_long : Prog (Unit {0})
unfolding print_long_from
print_long = print_long_from 200 0
