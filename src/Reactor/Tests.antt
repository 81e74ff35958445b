-- ===== src/Reactor/Tests.antt =====
-- The reactor theorems at a reactor with the listener and three clients.
use making_chat_on_c.Base.{ℕ, ◌+◌, ◌≡◌, refl, true, false, [], ◌∷◌, none, some, get_elem?, arith}
use making_chat_on_c.Os.{Domain, event_table, poll_array, reactor_record}
use making_chat_on_c.Os.Guarantee.{Ensures}
use making_chat_on_c.Os.Ledger.{Ledger, ledger_step, OnlyExitsWithOne}
use making_chat_on_c.Reactor.{
  Reactor, PollFd, create_reactor, find_event, add_event, kept_events, remove_entry, stop_reactor,
  add_fd, del_from_pfds, handle_event,
}
use making_chat_on_c.Reactor.Entries.{
  IsReactor, used, hit, tally, del_from_pfds-tally, remove_all_keeps_last,
}
use making_chat_on_c.Reactor.Listener.{
  bind_first, listen_bound, get_listener_socket, OpensAtMostOne, get_listener_socket_opens_one,
}
use making_chat_on_c.Os.Assume.{EndsAs, Run, returned}
use making_chat_on_c.Reactor.Loop.{broadcast, remove_all, start_reactor}
use making_chat_on_c.Reactor.Serving.{Watch, watch_step, IsQuiet, Ends}
use making_chat_on_c.Reactor.Polls.{Stopped}
use making_chat_on_c.Reactor.Serves.{first_entries, fresh_reactor, unwatched, start_reactor_serves}
use making_chat_on_c.Reactor.Main.{
  reactor_main, run_reactor, destroy_reactor, free_table, free_array,
}
use making_chat_on_c.Reactor.Finishes.{Finished, reactor_main_finishes}
use making_chat_on_c.Reactor.AddFd.{Added, add_fd-Added}
use making_chat_on_c.Reactor.Broadcast.{send_step, broadcast-to_others}

abbrev entry : ℕ → PollFd
entry n = record { fd = n; revents = 0 }

abbrev four : Reactor
four = record {
  events = record { id = 3; handler = none } ∷ record { id = 5; handler = none } ∷ [];
  event_count = 2;
  running = true;
  pfds = entry 3 ∷ entry 5 ∷ entry 6 ∷ entry 7 ∷ entry 0 ∷ [];
  fd_count = 4;
  fd_size = 5;
}

four-IsReactor : IsReactor four
four-IsReactor = record { allocated = refl; within = omega arith; room = omega arith }

del_from_pfds-tally_example :
    (r' : Reactor) × (del_from_pfds four 1 ≡ some r')
    × (r'.fd_count ≡ 3)
    × IsReactor r'
    × (r'.running ≡ true)
    × ((x : ℕ) → tally x (used r') + hit x (entry 5) ≡ tally x (used four))
del_from_pfds-tally_example =
    del_from_pfds-tally four 3 1 (entry 5) four-IsReactor refl (omega arith) refl

remove_all_keeps_last_example :
    (r' : Reactor) × (remove_all (1 ∷ 3 ∷ []) four ≡ some r')
    × (r'.fd_count ≡ 2)
    × (get_elem? (used r') 1 ≡ some (entry 7))
    × ((x : ℕ) → tally x (used r') + hit x (entry 5) + hit x (entry 6) ≡ tally x (used four))
remove_all_keeps_last_example =
    remove_all_keeps_last four 2 1 (entry 5) (entry 6) (entry 7) refl (omega arith) refl refl refl

empty_ledger : Ledger
empty_ledger = record { held = []; taken = []; handed = []; reads = 0 }

add_fd-Added_example :
    Ensures ledger_step (λ r' t. Added four 8 r') OnlyExitsWithOne empty_ledger (add_fd four 8 none)
add_fd-Added_example = add_fd-Added four 8 empty_ledger four-IsReactor (refl, (refl, tt)) refl

broadcast-to_others_example :
    Ensures send_step
      (λ u t. t ≡ (5, 104 ∷ []) ∷ (7, 104 ∷ []) ∷ [])
      OnlyExitsWithOne
      []
      (broadcast (used four) 3 6 (104 ∷ []))
broadcast-to_others_example = broadcast-to_others (used four) 3 6 (104 ∷ [])

get_listener_socket_opens_one_example :
    Ensures ledger_step
      (OpensAtMostOne (record { held = []; taken = []; handed = []; reads = 0 }))
      OnlyExitsWithOne
      (record { held = []; taken = []; handed = []; reads = 0 })
      get_listener_socket
get_listener_socket_opens_one_example =
    get_listener_socket_opens_one (record { held = []; taken = []; handed = []; reads = 0 })

-- One connection is accepted and read to its end, on the listener 3.
abbrev one_client : Watch
one_client = record { polls = 2; ids = 4 ∷ []; closed = []; freed = [] }

abbrev stopped : Reactor
stopped = record {
  events = record { id = 4; handler = none } ∷ [];
  event_count = 1;
  running = false;
  pfds =
      record { fd = 3; revents = 0 }
      ∷ record { fd = 4; revents = 1 }
      ∷ entry 0
      ∷ entry 0
      ∷ entry 0
      ∷ [];
  fd_count = 1;
  fd_size = 5;
}

one_client-Run :
    Run watch_step
      (IsQuiet 3)
      (start_reactor 6 (fresh_reactor 3))
      (unwatched [])
      (returned stopped)
      one_client
unfolding start_reactor first_entries add_fd handle_event find_event add_event kept_events
    del_from_pfds remove_entry stop_reactor
one_client-Run = (
  true,
  tt,
  tt,
  (
    true,
    tt,
    tt,
    (
      some (1 ∷ []),
      tt,
      (refl, tt),
      (
        some 4,
        tt,
        (tt, refl),
        (
          tt,
          tt,
          tt,
          (
            some [],
            tt,
            tt,
            (
              some (0 ∷ 1 ∷ []),
              tt,
              (refl, (refl, tt)),
              (some [], omega arith, tt, (tt, tt, tt, (refl, refl))),
            ),
          ),
        ),
      ),
    ),
  ),
)

start_reactor_serves_example : EndsAs (Stopped 3) (Ends 6) (returned stopped) one_client
start_reactor_serves_example =
    start_reactor_serves 6 3 [] (returned stopped) one_client refl tt one_client-Run

-- The same run behind the start and before the end of `main`.
abbrev all_done : Watch
all_done = record one_client {
  closed = 3 ∷ [];
  freed = reactor_record ∷ poll_array ∷ event_table ∷ [];
}

main-Run : Run watch_step (IsQuiet 3) (reactor_main 6) (unwatched []) (returned 0) all_done
unfolding reactor_main run_reactor destroy_reactor free_table free_array create_reactor
    get_listener_socket bind_first listen_bound start_reactor first_entries add_fd handle_event
    find_event add_event kept_events del_from_pfds remove_entry stop_reactor
main-Run = (
  some (Domain.inet ∷ []),
  tt,
  tt,
  (
    some 3,
    tt,
    refl,
    (
      true,
      tt,
      tt,
      (
        true,
        tt,
        tt,
        (
          tt,
          tt,
          tt,
          (
            true,
            tt,
            tt,
            (
              some 100,
              tt,
              tt,
              (
                some 200,
                tt,
                tt,
                (
                  true,
                  tt,
                  tt,
                  (
                    true,
                    tt,
                    tt,
                    (
                      some (1 ∷ []),
                      tt,
                      (refl, tt),
                      (
                        some 4,
                        tt,
                        (tt, refl),
                        (
                          tt,
                          tt,
                          tt,
                          (
                            some [],
                            tt,
                            tt,
                            (
                              some (0 ∷ 1 ∷ []),
                              tt,
                              (refl, (refl, tt)),
                              (
                                some [],
                                omega arith,
                                tt,
                                (
                                  tt,
                                  tt,
                                  tt,
                                  (
                                    tt,
                                    tt,
                                    tt,
                                    (tt, tt, tt, (tt, tt, tt, (tt, tt, tt, (refl, refl)))),
                                  ),
                                ),
                              ),
                            ),
                          ),
                        ),
                      ),
                    ),
                  ),
                ),
              ),
            ),
          ),
        ),
      ),
    ),
  ),
)

reactor_main_finishes_example : EndsAs (Finished 3) (Ends 6) (returned 0) all_done
reactor_main_finishes_example = reactor_main_finishes 6 3 (returned 0) all_done refl main-Run
