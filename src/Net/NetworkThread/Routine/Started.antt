-- ===== src/Net/NetworkThread/Routine/Started.antt =====
-- How the network thread starts, and that it ends.
use net_det.Prelude.{
  ℕ, ◌≡◌, ◌≢◌, refl, sym, inl, inr, ◌⊎◌, true, Option, none, some, List, arith, length-replicate,
  replicate, ok, returned, exited, Option-cases,
}
use net_det.Core.Device.{Heap}
use net_det.Core.HashMap.{HashEntry, zero_entry}
use net_det.Core.HashMap.Resize.{zeros-IsProbed, scan-zeros, used-zeros}
use net_det.App.Process.{Process, app_err_calloc}
use net_det.Common.Error.{network_error}
use net_det.Ui.Screen.{IfEntry}
use net_det.Net.RawSocket.{Sockets, Bound}
use net_det.Net.NetworkThread.{Network}
use net_det.Net.NetworkThread.Tick.{IsSound}
use net_det.Net.NetworkThread.Routine.{
  NetworkThread, InitAnswers, Initialised, first_interest, init_map, network_init, Round, Routine,
  waiting, gave_up, network_routine,
}
use net_det.Net.NetworkThread.Routine.Events.{IsRunning}
use net_det.Net.NetworkThread.Routine.Rounds.{AllRounds, told, network_loop-Left}
use net_det.Net.RawSocket.Opening.{
  IsReported, network_error-IsReported, raw_socket_create-cases, IsStarted, socket_init-Ends,
}

-- The empty map of 128 slots.
abbrev pub empty_network : Heap → Process → Network
empty_network heap p = record {
  map = record { table = replicate 128 zero_entry; size = 128; count = 0 };
  heap = heap;
  process = p;
}

-- It is valid, and leads to no device.
pub zeroed-IsSound : (heap : Heap) (p : Process) → IsSound (empty_network heap p)
zeroed-IsSound heap p = record {
  valid = record {
    width = sym (length-replicate 128 zero_entry);
    counted = sym (used-zeros 128);
    load = omega arith;
    positive = omega arith;
    fits = omega arith;
    probed = zeros-IsProbed 128;
  };
  linked = λ q r bound. absurd (cc (bound, scan-zeros 128 q));
}

-- How `network_init` ends: with a thread that runs, its map empty and its socket bound as the program's argument says, or
-- with an error that has been reported.
abbrev pub Starts : InitAnswers → Option (List ℕ) → Heap → Process → Initialised → Type 0
Starts answers initial heap p i =
    ((t : NetworkThread) × (i.flow ≡ returned t)
      × IsRunning t
      × (t.network ≡ empty_network heap p)
      × IsStarted answers.socket initial t.sockets)
    ⊎ ((i.flow ≡ exited) × IsReported p i.process)

init_map-Starts :
    (answers : InitAnswers) (initial : Option (List ℕ)) (heap : Heap) (p : Process) (b : Bound)
    → ((table : List HashEntry)
        → answers.calloc 128 ≡ some table
        → table ≡ replicate 128 zero_entry)
    → b.process ≡ p
    → IsStarted answers.socket initial b.sockets
    → (i : Initialised) × (init_map answers heap b ≡ i) × Starts answers initial heap p i
unfolding init_map
init_map-Starts answers initial heap p b zeroed same (watched, bound) =
    elim (Option-cases (answers.calloc 128)) [
      | inl refused ↦ (
        record {
          process = network_error app_err_calloc answers.socket.errno b.sockets.socket_fd b.process;
          binded_interface = b.binded_interface;
          flow = exited;
        },
        rw (refused, init_map),
        inr (
          refl,
          rw (← same) (
              network_error-IsReported app_err_calloc answers.socket.errno b.sockets.socket_fd
                b.process),
        ),
      )
      | inr (table, given) ↦
          let t : NetworkThread = record {
            network = record {
              map = record { table = table; size = 128; count = 0 };
              heap = heap;
              process = b.process;
            };
            sockets = b.sockets;
            epoll_fd = answers.epoll_fd;
            timer_fd = answers.timer_fd;
            shutdown_network_fd = answers.shutdown_network_fd;
            bind_update_fd = answers.bind_update_fd;
            binded_interface = b.binded_interface;
          } in
          let sound : IsSound t.network = rw (zeroed table given) (zeroed-IsSound heap b.process) in
          (
            record {
              process = b.process;
              binded_interface = b.binded_interface;
              flow = returned t;
            },
            rw (given, init_map),
            inl (
              t,
              refl,
              record { sound = sound; watched = watched },
              rw (zeroed table given, same),
              (watched, bound),
            ),
          )
    ]

-- Where the memory that `calloc` gives is zeroed: whatever the kernel answers and whatever interface the
-- program is started with, `network_init` ends with a thread that runs, whose map is empty and whose socket is
-- watched and is bound to that interface, or with an error that has been reported.
pub network_init-Starts :
    (answers : InitAnswers) (initial : Option (List ℕ)) (entry : IfEntry) (heap : Heap)
    (p : Process)
    → ((table : List HashEntry)
        → answers.calloc 128 ≡ some table
        → table ≡ replicate 128 zero_entry)
    → Starts answers initial heap p (network_init answers initial entry heap p)
unfolding network_init
network_init-Starts answers initial entry heap p zeroed =
    elim (raw_socket_create-cases answers.socket p) [
      | inr (q, fails, reported) ↦ rw (fails, network_init, fails) (inr (refl, reported))
      | inl opens ↦
          let s : Sockets = record {
            socket_fd = answers.socket.socket;
            interest = first_interest answers;
            bound_to = none;
          } in
          let (b, inits, ends) =
            socket_init-Ends answers.socket answers.bind_update_fd initial s p refl in
          elim ends [
            | inr (stops, reported) ↦
                rw (opens, network_init, opens, inits, stops, opens, inits) (inr (refl, reported))
            | inl (goes_on, same, started) ↦
                let (i, maps, starts) =
                  init_map-Starts answers initial heap p b zeroed same started in
                rw (opens, network_init, opens, inits, goes_on, opens, inits, maps) starts
          ]
    ]

-- Where `calloc` gives zeroed memory and the handlers meet the answers that they need: if the thread is told
-- to end in one of the rounds, `network_routine` meets no fault and ends, whatever it is started with.
pub network_routine-ne-waiting :
    (answers : InitAnswers) (initial : Option (List ℕ)) (entry : IfEntry) (heap : Heap)
    (p : Process) (rounds : List Round)
    → ((table : List HashEntry)
        → answers.calloc 128 ≡ some table
        → table ≡ replicate 128 zero_entry)
    → ((t : NetworkThread)
        → (network_init answers initial entry heap p).flow ≡ returned t
        → AllRounds rounds t)
    → told rounds ≡ true
    → (r : Routine) × (network_routine answers initial entry heap p rounds ≡ ok r)
      × (r.standing ≢ waiting)
unfolding network_routine
network_routine-ne-waiting answers initial entry heap p rounds zeroed fair asked =
    elim (network_init-Starts answers initial entry heap p zeroed) [
      | inr (stops, reported) ↦ (
        record {
          process = (network_init answers initial entry heap p).process;
          heap = heap;
          standing = gave_up;
        },
        rw (stops, network_routine),
        λ same. cc same,
      )
      | inl (t, starts, running, _, _) ↦
          let (u, standing, loops, left, ends) =
            network_loop-Left rounds t running (fair t starts) in
          (
            record { process = u.network.process; heap = u.network.heap; standing = standing },
            rw (starts, network_routine, loops),
            ends asked,
          )
    ]
