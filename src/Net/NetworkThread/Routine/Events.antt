-- ===== src/Net/NetworkThread/Routine/Events.antt =====
-- One event, and the events of one round: no fault, and a sound network.
use net_det.Prelude.{
  ℕ, ◌*◌, ◌^◌, ◌≤◌, ◌<◌, ◌≡◌, refl, inl, inr, ◌⊎◌, true, false, none, some, List, [], ◌∷◌, length,
  replicate, ok, Flow, returned, exited, Bool, Bool-cases,
}
use net_det.Prelude.Int.{ℤ, eq_ℤ}
use net_det.Core.Device.{Device, rate_history_size}
use net_det.Core.HashMap.{zero_entry}
use net_det.App.Process.{app_err_timer}
use net_det.Common.Error.{network_error}
use net_det.Platform.Epoll.{watches, epoll_unregister}
use net_det.Net.RawSocket.{SocketAnswers}
use net_det.Net.RawSocket.Rebind.{change_bind-IsRebound}
use net_det.Net.NetworkThread.{Network, FrameAnswers, handle_timer_tick}
use net_det.Net.NetworkThread.Tick.{IsSound, handle_timer_tick-Ticked}
use net_det.Net.NetworkThread.Unbound.{KeepsSound}
use net_det.Net.NetworkThread.Receive.{handle_incoming_frame-IsSound}
use net_det.Net.NetworkThread.Routine.{
  NetworkThread, Event, ThreadStep, handle_event, handle_events,
}

-- The answers while a frame is handled: `malloc` gives a device of 60 cells at an address not in use,
-- `calloc` gives zeroed memory, and `recvmsg` at most 2040 bytes.
pub record IsAnswered (a : FrameAnswers) (n : Network) : Type 0 where
  pub pointer : ℕ
  pub garbage : Device
  pub memory : a.malloc ≡ some (pointer, garbage)
  pub cells : length garbage.graph.values ≡ rate_history_size
  pub fresh : n.heap pointer ≡ none
  pub small : n.map.size < 2 ^ 31
  pub zeroed : a.calloc (2 * n.map.size) ≡ some (replicate (2 * n.map.size) zero_entry)
  pub short : (bytes : List ℕ) → a.received ≡ some bytes → length bytes ≤ 2040

-- The answers while the socket is bound anew: a descriptor that is not watched; and the interface that has
-- been chosen has a name.
pub record IsNamed (a : SocketAnswers) (t : NetworkThread) : Type 0 where
  pub name : List ℕ
  pub named : t.binded_interface.if_name ≡ some name
  pub fresh : watches (epoll_unregister t.sockets.interest t.sockets.socket_fd) a.socket ≡ false

-- What a running thread works on: a sound network, and a socket that is watched.
pub record IsRunning (t : NetworkThread) : Type 0 where
  pub sound : IsSound t.network
  pub watched : watches t.sockets.interest t.sockets.socket_fd ≡ true

-- The answers that the handler of this event needs.
abbrev pub IsFair : Event → NetworkThread → Type 0
IsFair e t =
    (eq_ℤ e.fd t.sockets.socket_fd ≡ true → IsAnswered e.frame t.network)
    × (eq_ℤ e.fd t.bind_update_fd ≡ true → IsNamed e.socket t)

-- The step meets no fault, and the thread still runs or has ended with a sound network.
abbrev pub Runs : ThreadStep → Type 0
Runs step =
    (u : NetworkThread) × (flow : Flow (Unit {0})) × (step ≡ ok (u, flow))
    × IsSound u.network
    × (flow ≡ returned tt → IsRunning u)

-- A tick keeps a sound state, also where the timer cannot be read and the thread ends.
handle_timer_tick-KeepsSound :
    (read_all : Bool) (errno socket_fd : ℤ) (n : Network)
    → IsSound n
    → KeepsSound (handle_timer_tick read_all errno socket_fd n)
handle_timer_tick-KeepsSound true errno socket_fd n sound =
    let (n', runs, sound', _, _, _) = handle_timer_tick-Ticked errno socket_fd n sound in
    (n', returned tt, runs, sound')
handle_timer_tick-KeepsSound false errno socket_fd n sound = (
  record n { process = network_error app_err_timer errno socket_fd n.process },
  exited,
  unfold handle_timer_tick in refl,
  record { valid = sound.valid; linked = sound.linked },
)

module _ (e : Event) (t : NetworkThread) (running : IsRunning t) where
  frame_event :
      eq_ℤ e.fd t.sockets.socket_fd ≡ true → IsAnswered e.frame t.network → Runs (handle_event e t)
  unfolding handle_event
  frame_event hit a =
      let (n, flow, runs, sound) =
        handle_incoming_frame-IsSound e.frame t.sockets.socket_fd t.network a.pointer a.garbage
          running.sound a.small a.zeroed a.memory a.cells a.fresh a.short in
      (
        record t { network = n },
        flow,
        rw (hit, runs),
        sound,
        λ on. record { sound = sound; watched = running.watched },
      )

  bind_event :
      eq_ℤ e.fd t.sockets.socket_fd ≡ false
      → eq_ℤ e.fd t.bind_update_fd ≡ true
      → IsNamed e.socket t
      → Runs (handle_event e t)
  unfolding handle_event
  bind_event miss hit n =
      let (b, runs, settled) =
        change_bind-IsRebound e.socket t.binded_interface n.name t.sockets t.network.process n.named
          n.fresh in
      let sound : IsSound (record t.network { process = b.process }) = record {
        valid = running.sound.valid;
        linked = running.sound.linked;
      } in
      (
        record t { network = record t.network { process = b.process }; sockets = b.sockets },
        b.flow,
        rw (miss, hit, runs),
        sound,
        λ on. elim settled [
          | inl r ↦ record { sound = sound; watched = rw r.opened r.watched }
          | inr g ↦ absurd (cc (on, g.ends))
        ],
      )

  timer_event :
      eq_ℤ e.fd t.sockets.socket_fd ≡ false
      → eq_ℤ e.fd t.bind_update_fd ≡ false
      → eq_ℤ e.fd t.timer_fd ≡ true
      → Runs (handle_event e t)
  unfolding handle_event
  timer_event no_frame no_bind hit =
      let (n, flow, runs, sound) =
        handle_timer_tick-KeepsSound e.read_all e.errno t.sockets.socket_fd t.network
          running.sound in
      (
        record t { network = n },
        flow,
        rw (no_frame, no_bind, hit, runs),
        sound,
        λ on. record { sound = sound; watched = running.watched },
      )

  other_event :
      eq_ℤ e.fd t.sockets.socket_fd ≡ false
      → eq_ℤ e.fd t.bind_update_fd ≡ false
      → eq_ℤ e.fd t.timer_fd ≡ false
      → Runs (handle_event e t)
  unfolding handle_event
  other_event no_frame no_bind no_timer =
      (t, returned tt, rw (no_frame, no_bind, no_timer), running.sound, λ on. running)

  handle_event-Runs : IsFair e t → Runs (handle_event e t)
  handle_event-Runs (frame, bind) = elim (Bool-cases (eq_ℤ e.fd t.sockets.socket_fd)) [
    | inl hit ↦ frame_event hit (frame hit)
    | inr no_frame ↦ elim (Bool-cases (eq_ℤ e.fd t.bind_update_fd)) [
      | inl hit ↦ bind_event no_frame hit (bind hit)
      | inr no_bind ↦ elim (Bool-cases (eq_ℤ e.fd t.timer_fd)) [
        | inl hit ↦ timer_event no_frame no_bind hit
        | inr no_timer ↦ other_event no_frame no_bind no_timer
      ]
    ]
  ]

-- The answers that the handlers of these events need, each in the state that it meets.
abbrev pub AllFair : List Event → NetworkThread → Type 0
AllFair [] t = Unit
AllFair (e ∷ es) t =
    IsFair e t × ((u : NetworkThread) → handle_event e t ≡ ok (u, returned tt) → AllFair es u)

-- A step ends the thread, or lets it run on.
pub Runs-cases :
    (step : ThreadStep)
    → Runs step
    → ((u : NetworkThread) × (step ≡ ok (u, exited)) × IsSound u.network)
      ⊎ ((u : NetworkThread) × (step ≡ ok (u, returned tt)) × IsRunning u)
Runs-cases step (u, exited, runs, sound, on) = inl (u, runs, sound)
Runs-cases step (u, returned tt, runs, sound, on) = inr (u, runs, on refl)

pub handle_events-Runs :
    (es : List Event) (t : NetworkThread) → IsRunning t → AllFair es t → Runs (handle_events es t)
unfolding handle_events
handle_events-Runs [] t running fair = (t, returned tt, refl, running.sound, λ on. running)
handle_events-Runs (e ∷ es) t running (first, rest) =
    elim (Runs-cases (handle_event e t) (handle_event-Runs e t running first)) [
      | inl (u, runs, sound) ↦ (u, exited, rw runs, sound, λ h. absurd (cc h))
      | inr (u, runs, on) ↦
          let (v, flow, more, sound, v_on) = handle_events-Runs es u on (rest u runs) in
          (v, flow, rw runs more, sound, v_on)
    ]
