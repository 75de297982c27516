-- ===== src/Tests/Routines.antt =====
-- The routine of src/net/network_thread.c, from its start to its end.
use net_det.Prelude.{◌≡◌, ◌≢◌, refl, sym, true, false, none, some, List, [], ◌∷◌, replicate, ok}
use net_det.Prelude.Int.{pos}
use net_det.Core.Device.{Heap}
use net_det.Core.HashMap.{HashEntry, zero_entry}
use net_det.App.Process.{initial}
use net_det.Net.NetworkThread.Routine.{InitAnswers, Round, Routine, waiting, network_routine}
use net_det.Net.NetworkThread.Routine.Started.{network_routine-ne-waiting}
use net_det.Tests.Maps.{calloc_zeroed}
use net_det.Tests.Sockets.{socket_answers, lo}

abbrev pub init_answers : InitAnswers
init_answers = record {
  shutdown_network_fd = pos 6;
  bind_update_fd = pos 7;
  timer_fd = pos 8;
  epoll_fd = pos 5;
  calloc = calloc_zeroed;
  socket = socket_answers;
}

abbrev no_memory : Heap
no_memory p = none

pub init_zeroed :
    (table : List HashEntry)
    → init_answers.calloc 128 ≡ some table
    → table ≡ replicate 128 zero_entry
init_zeroed table given = sym (some-injective given)
  where
    some-injective : {a b : List HashEntry} → some a ≡ some b → a ≡ b
    some-injective e = cc e

-- A round without an event, and one in which the thread is told to end.
abbrev rounds : List Round
rounds =
    record { shutdown = false; chosen = none; events = [] }
    ∷ record { shutdown = true; chosen = some lo; events = [] }
    ∷ []

network_routine-ne-waiting_example :
    (r : Routine) × (network_routine init_answers none lo no_memory initial rounds ≡ ok r)
    × (r.standing ≢ waiting)
network_routine-ne-waiting_example =
    network_routine-ne-waiting init_answers none lo no_memory initial rounds init_zeroed
      (λ t starts. (tt, λ u runs. (tt, λ v ends. tt))) refl
