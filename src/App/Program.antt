-- ===== src/App/Program.antt =====
-- The whole program, from `main` of src/app/main.c: `main_init`, the first drawing and the start of the network
-- thread, what the threads do in some order, and `main_clean_up`.
pub mod Begun
pub mod Ended
use Prim.Native.String.{String}
use net_det.Prelude.{
  ℕ, Bool, true, false, Option, none, List, [], Run, ok, ◌>>=◌, returned, exited, replicate,
}
use net_det.Prelude.Int.{ℤ, negsuc}
use net_det.Core.HashMap.{zero_entry}
use net_det.Net.RawSocket.{Sockets}
use net_det.Net.NetworkThread.{Network}
use net_det.Net.NetworkThread.Routine.{InitAnswers, Initialised, network_init}
use net_det.App.Main.{Main, main_process, with_process, MainAnswers, draw_main, main_clean_up}
use net_det.App.Main.Start.{StartAnswers, main_init}
use net_det.App.System.{System, Action, shared, perform_all}

-- What the kernel and the library answer at the start, and the program's argument.
pub record ProgramAnswers : Type 0 where
  pub start : StartAnswers
  pub first_draw : MainAnswers
  pub network : InitAnswers
  pub initial_interface : Option (List ℕ)

-- A network thread that has ended has no socket and no map, for which an empty one stands.
abbrev pub no_socket : Sockets
no_socket = record { socket_fd = negsuc 0; interest = []; bound_to = none }

abbrev pub no_network : Main → Initialised → Network
no_network m i = record {
  map = record { table = replicate 128 zero_entry; size = 128; count = 0 };
  heap = m.heap;
  process = i.process;
}

-- The main thread, with the statics as `network_init` has left them.
abbrev pub with_network : Main → Initialised → Main
with_network m i =
    with_process i.process
      (record m { context = record m.context { binded_interface = i.binded_interface } })

-- The network thread has started, or ended with an error.
unfoldable pub join_network : Main → Initialised → System
join_network m i = elim i.flow [
  | returned t ↦ record {
    network = t.network;
    sockets = t.sockets;
    main = with_network m i;
    listening = true;
  }
  | exited ↦ record {
    network = no_network m i;
    sockets = no_socket;
    main = with_network m i;
    listening = false;
  }
]

-- `m` is the program before, with its zeroed context and statics.
unfoldable pub program_init : ProgramAnswers → Main → Run System
unfolding join_network
program_init answers m = do
  begun ← main_init answers.start m
  m' ← draw_main answers.first_draw begun
  ok (
      join_network m' (
        network_init answers.network answers.initial_interface m'.context.binded_interface m'.heap
          (main_process m')))

-- The state before `main_clean_up`, the state after it, and what `get_error` prints.
unfoldable pub run_program :
    ProgramAnswers → List Action → Main → Run (System × Main × Option (ℤ × String))
unfolding program_init
run_program answers actions m = do
  s ← program_init answers m
  s' ← perform_all actions s
  r ← main_clean_up (shared s')
  ok (s', r.0, r.1)
