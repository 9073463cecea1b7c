-- ===== src/Client/Receiver/Tests.antt =====
-- A receiver with one connection, as descriptor 7.
use mathlib.Core.Option
use coflow_sim_online.Common.Epoll.{epoll_add, epoll_del, close, set_nonblocking}
use coflow_sim_online.Base.{[], arith, negsuc, pos, refl, some, suc, true, ◌∷◌, ◌≡◌, ◌≤◌, ◌⊎◌}
use coflow_sim_online.Text.{codes, Bytes}
use coflow_sim_online.Client.Receiver.{
  RecvManager, run_file, on_event, run, Answers, Event, put_file, forget, close_fd, ready,
  wait_failed, interrupted, new_recv_manager,
}
use coflow_sim_online.Client.Receiver.Connections.{
  World, Step, Steps, count, disarmed, put_stage, watched, connection_mask,
}
use coflow_sim_online.Client.Receiver.Exclusive.{at_start, steps-once}
use coflow_sim_online.Client.Receiver.Discard.{run_file-closes, tail, tail_line}
use coflow_sim_online.Client.Receiver.Stranded.{IsStranded, hang_up-IsStranded, reused-forgotten}

abbrev first : World
first = at_start (pos 4) 3

abbrev connection : Event
connection = record { fd = pos 3; events = 1 }

abbrev seven : Answers
seven = record { connfd = pos 7; has_room = true }

-- The listening socket, then a connection with data.
run_runs :
    Option.map
      (λ m. m.tasks)
      (run
        (ready ((connection, seven) ∷ [])
          ∷ interrupted
          ∷ ready ((record { fd = pos 7; events = 1 }, seven) ∷ [])
          ∷ [])
        first.manager)
    ≡ some (7 ∷ [])
unfolding run
run_runs = refl

run_stops :
    Option.map (λ m. m.calls) (run (wait_failed ∷ []) (new_recv_manager (pos 4) (pos 3)))
    ≡ some (
        epoll_add (pos 4) (pos 3) 0x8000_2001
        ∷ set_nonblocking (pos 3)
        ∷ epoll_del (pos 4) (pos 3)
        ∷ close (pos 3)
        ∷ [])
unfolding run
run_stops = refl

one_open : (m : RecvManager) × (on_event connection seven first.manager ≡ some m)
unfolding on_event
one_open = (_, refl)

abbrev connected : World
connected = record first {
  manager = one_open.0;
  stage = put_stage 7 (watched connection_mask) first.stage;
}

connected_steps : Steps first connected
unfolding one_open
connected_steps = Steps.next Steps.start (Step.accepts 7 1 true one_open.0 refl one_open.1)

handed :
    (m : RecvManager) × (on_event (record { fd = pos 7; events = 1 }) seven one_open.0 ≡ some m)
unfolding on_event one_open
handed = (_, refl)

abbrev working : World
working = record connected { manager = handed.0; stage = put_stage 7 disarmed connected.stage }

steps-once_example :
    (count 7 working.manager.tasks ≤ 1)
    × ((working.stage 7 ≡ disarmed) ⊎ (count 7 working.manager.tasks ≡ 0))
steps-once_example =
    steps-once (pos 4) 3
      (Steps.next connected_steps (Step.reports 7 1 connection_mask seven handed.0 refl handed.1)) 7

-- Data and the hang-up in one event.
hang_up-IsStranded_example :
    (on_event (record { fd = pos 7; events = 0x2001 }) seven connected.manager
      ≡ some connected.manager)
    × IsStranded 7 (record connected { stage = put_stage 7 disarmed connected.stage })
hang_up-IsStranded_example =
    hang_up-IsStranded (pos 4) 3 7 0x2001 connection_mask seven connected_steps refl refl
      Steps.start

-- The worker of descriptor 7 is between its two steps.
abbrev half_closed : World
half_closed = record first { closing = 7 ∷ [] }

reused-forgotten_example :
    (v : World) × Steps half_closed v
    × (v.stage 7 ≡ watched connection_mask)
    × (v.manager.rece_files 7 ≡ some (negsuc 0))
reused-forgotten_example = reused-forgotten [] [] 7 1 true half_closed refl refl (omega arith)

run_file-closes_example :
    (k' : Bytes) × (run_file tail (suc 5) 7 (put_file 7 (pos 7) first.manager) (codes "hello")
      ≡ some (forget 7 (close_fd (pos 7) (put_file 7 (pos 7) first.manager)), k'))
    × (k' ≡ [])
run_file-closes_example =
    run_file-closes tail tail_line 7 7 (put_file 7 (pos 7) first.manager) (codes "hello") refl
