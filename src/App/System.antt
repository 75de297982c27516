-- ===== src/App/System.antt =====
-- The threads together: the network thread of src/net/network_thread.c, which handles frames and ticks
-- and binds its socket anew, the signal thread of src/platform/signal_handler.c, and the main thread of
-- src/app/main.c, which reads the event bus and the keyboard. One action of one thread is one step.
pub mod Occurs
pub mod InStep
pub mod Consistent
pub mod Reading
pub mod MainSteps
pub mod NetworkSteps
pub mod Steps
use net_det.Prelude.{
  Bool, true, false, Option, none, some, List, [], ◌∷◌, Run, ok, ◌>>=◌, Flow, returned, exited,
  if◌then◌else◌,
}
use net_det.Prelude.Int.{ℤ}
use net_det.Core.Device.{UiMessage}
use net_det.App.Process.{Process}
use net_det.Platform.SignalHandler.{Sigwait, signal_routine}
use net_det.Net.RawSocket.{Sockets, SocketAnswers, Bound, change_bind}
use net_det.Net.NetworkThread.{
  Network, FrameAnswers, Step, handle_incoming_frame, handle_timer_tick,
}
use net_det.App.Main.{Main, MainAnswers, main_process, with_process, handle_key, handle_message}
use net_det.Ui.Tui.{Input}

-- The messages written to the pipe and not yet read are `event_bus` of the network's statics, newest
-- first. `listening` says that the network thread has not ended. The static `binded_interface` is that of
-- the main thread's context.
pub record System : Type 0 where
  pub network : Network
  pub sockets : Sockets
  pub main : Main
  pub listening : Bool

pub data Action : Type 0 where
  frame : FrameAnswers → Action
  tick : Bool → ℤ → Action
  rebind : SocketAnswers → Action
  signal : Sigwait → Action
  key : MainAnswers → Input → Action
  message : MainAnswers → Action

-- The main thread on the devices and the statics, which it shares with the network thread.
abbrev pub shared : System → Main
shared s = with_process s.network.process (record s.main { heap = s.network.heap })

abbrev pub is_returned : Flow (Unit {0}) → Bool
is_returned (returned u) = true
is_returned exited = false

-- A step of the network thread, while it has not ended.
abbrev pub by_network : System → Step → Run System
by_network s step =
    if s.listening
    then (step >>= λ r. ok (record s { network = r.0; listening = is_returned r.1 }))
    else ok s

-- The socket is bound anew, while the network thread has not ended.
abbrev pub by_socket : System → Run Bound → Run System
by_socket s step =
    if s.listening
    then (step >>= λ b. ok (record s {
      network = record s.network { process = b.process };
      sockets = b.sockets;
      listening = is_returned b.flow;
    }))
    else ok s

-- The oldest message, and the others.
unfoldable pub oldest : List UiMessage → Option (List UiMessage × UiMessage)
oldest [] = none
oldest (x ∷ xs) = elim (oldest xs) [ none ↦ some ([], x) | some r ↦ some (x ∷ r.0, r.1) ]

-- A step of the main thread, after which the other threads see its memory and its statics.
abbrev pub by_main : System → Run Main → Run System
by_main s step = step >>= λ m.
    ok (record s {
      main = m;
      network = record s.network { heap = m.heap; process = main_process m };
    })

-- The message is read from the pipe, and handled.
unfoldable pub read_message : MainAnswers → List UiMessage → UiMessage → System → Run System
read_message answers rest msg s =
    let p : Process = record s.network.process { event_bus = rest } in
    by_main s (handle_message answers msg (with_process p (shared s)))

unfoldable pub perform : Action → System → Run System
unfolding oldest read_message
perform (frame answers) s =
    by_network s (handle_incoming_frame answers s.sockets.socket_fd s.network)
perform (tick read_all errno) s =
    by_network s (handle_timer_tick read_all errno s.sockets.socket_fd s.network)
perform (rebind answers) s =
    by_socket s (change_bind answers s.main.context.binded_interface s.sockets s.network.process)
perform (signal w) s = ok (record s {
  network = record s.network { process = signal_routine (w ∷ []) s.network.process };
})
perform (key answers input) s = by_main s (handle_key answers input (shared s))
perform (message answers) s = elim (oldest s.network.process.event_bus) [
  | none ↦ ok s
  | some r ↦ read_message answers r.0 r.1 s
]

unfoldable pub perform_all : List Action → System → Run System
unfolding perform
perform_all [] s = ok s
perform_all (a ∷ actions) s = perform a s >>= λ s'. perform_all actions s'
