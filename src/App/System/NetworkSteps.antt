-- ===== src/App/System/NetworkSteps.antt =====
-- A step of the network thread or the signal thread keeps the program consistent.
use mathlib.Core.Path.{subst}
use net_det.Prelude.{
  ◌≡◌, refl, ap, some, ℕ, sym, inl, inr, true, false, Bool, Bool-cases, none, List, [], ◌∷◌, exited,
}
use net_det.Prelude.Int.{ℤ}
use net_det.Core.Device.{UiMessage, ui_timer_tick}
use net_det.Core.DeviceBuffer.{contents}
use net_det.App.Process.{sigint, sigwinch, sigusr1, Process, app_err_timer}
use net_det.Common.Error.{network_error, network_error-event_bus}
use net_det.Net.NetworkThread.{Network, Step, handle_timer_tick}
use net_det.Net.NetworkThread.Tick.{IsSound, handle_timer_tick-Ticked}
use net_det.Net.NetworkThread.Unbound.{Announces, quiet}
use net_det.App.Main.Messages.{entries}
use net_det.App.System.{System, tick, rebind, signal, is_returned, by_network, perform}
use net_det.Platform.SignalHandler.{Sigwait, failed, got, signal_routine, resize_message}
use net_det.Platform.Epoll.{watches, epoll_unregister}
use net_det.Net.RawSocket.{Sockets, SocketAnswers}
use net_det.Net.RawSocket.Rebind.{change_bind-IsRebound}
use net_det.App.System.InStep.{Brings, IsInStep, Announced-IsInStep, published-IsInStep}
use net_det.App.System.Consistent.{IsConsistent, KeepsConsistent, networked-IsConsistent}

-- The bound interface has a name, and `socket` gives a descriptor that is not watched.
pub record IsNew (answers : SocketAnswers) (s : System) : Type 0 where
  pub name : List ℕ
  pub named : s.main.context.binded_interface.if_name ≡ some name
  pub fresh :
      watches (epoll_unregister s.sockets.interest s.sockets.socket_fd) answers.socket ≡ false

module _ (s : System) (c : IsConsistent s) where
  pub frame-KeepsConsistent :
      (step : Step) → Announces s.network step → KeepsConsistent (by_network s step)
  frame-KeepsConsistent step (n, flow, runs, sound, tells) = elim (Bool-cases s.listening) [
    | inl on ↦ (
      record s { network = n; listening = is_returned flow },
      rw (on, runs),
      networked-IsConsistent s n s.sockets (is_returned flow) c sound (
          Announced-IsInStep (contents s.main.context.buffer.buffer) s.network.map n.map
            s.network.process.event_bus n.process.event_bus tells c.in_step),
    )
    | inr off ↦ (s, rw off, c)
  ]

  -- A message from outside the network thread, or about no device.
  published-IsConsistent :
      (n : Network) (msg : UiMessage) (listening : Bool)
      → IsSound n
      → n.map ≡ s.network.map
      → n.process.event_bus ≡ msg ∷ s.network.process.event_bus
      → Brings s.network.map msg.msg_type msg.device
      → entries msg.msg_type msg.device ≡ []
      → IsConsistent (record s { network = n; listening = listening })
  published-IsConsistent n msg listening sound same sends brings nothing =
      let table = contents s.main.context.buffer.buffer in
      networked-IsConsistent s n s.sockets listening c sound (
        subst (λ k. IsInStep k n.process.event_bus table) (sym same)
          (subst (λ b. IsInStep s.network.map b table) (sym sends)
            (published-IsInStep s.network.map s.network.process.event_bus table msg brings nothing
              c.in_step)))

  -- A timer that cannot be read ends the network thread.
  handle_timer_tick-Announces :
      (errno socket_fd : ℤ)
      → Announces s.network (handle_timer_tick false errno socket_fd s.network)
  unfolding handle_timer_tick
  handle_timer_tick-Announces errno socket_fd =
      let p : Process = network_error app_err_timer errno socket_fd s.network.process in
      (
        record s.network { process = p },
        exited,
        refl,
        record { valid = c.sound.valid; linked = c.sound.linked },
        quiet s.network.map s.network.process.event_bus p.event_bus
            (network_error-event_bus app_err_timer errno socket_fd s.network.process),
      )

  pub tick-KeepsConsistent :
      (read_all : Bool) (errno : ℤ) → KeepsConsistent (perform (tick read_all errno) s)
  unfolding perform Brings
  tick-KeepsConsistent false errno =
      frame-KeepsConsistent (handle_timer_tick false errno s.sockets.socket_fd s.network)
        (handle_timer_tick-Announces errno s.sockets.socket_fd)
  tick-KeepsConsistent true errno =
      let (n, runs, sound, same, _, sends) =
        handle_timer_tick-Ticked errno s.sockets.socket_fd s.network c.sound in
      elim (Bool-cases s.listening) [
        | inl on ↦ (
          record s { network = n; listening = true },
          rw (on, runs),
          published-IsConsistent n (record { msg_type = ui_timer_tick; device = none }) true sound
              same sends tt refl,
        )
        | inr off ↦ (s, rw off, c)
      ]

  -- The statics have changed, but for the messages.
  quiet-IsConsistent :
      (p : Process) (sockets : Sockets) (listening : Bool)
      → p.event_bus ≡ s.network.process.event_bus
      → IsConsistent (record s {
        network = record s.network { process = p };
        sockets = sockets;
        listening = listening;
      })
  quiet-IsConsistent p sockets listening same =
      networked-IsConsistent s (record s.network { process = p }) sockets listening c
        (record { valid = c.sound.valid; linked = c.sound.linked })
        (subst (λ b. IsInStep s.network.map b (contents s.main.context.buffer.buffer)) (sym same)
          c.in_step)

  pub rebind-KeepsConsistent :
      (answers : SocketAnswers) → IsNew answers s → KeepsConsistent (perform (rebind answers) s)
  unfolding perform
  rebind-KeepsConsistent answers a = elim (Bool-cases s.listening) [
    | inr off ↦ (s, rw off, c)
    | inl on ↦
        let (b, binds, settled) =
          change_bind-IsRebound answers s.main.context.binded_interface a.name s.sockets
            s.network.process a.named a.fresh in
        let same : b.process.event_bus ≡ s.network.process.event_bus = elim settled [
          | inl r ↦ ap (λ p. p.event_bus) r.closed
          | inr g ↦ g.published
        ] in
        (
          record s {
            network = record s.network { process = b.process };
            sockets = b.sockets;
            listening = is_returned b.flow;
          },
          rw (on, binds),
          quiet-IsConsistent b.process b.sockets (is_returned b.flow) same,
        )
  ]

  pub signal-KeepsConsistent : (w : Sigwait) → KeepsConsistent (perform (signal w) s)
  unfolding perform signal_routine Brings
  signal-KeepsConsistent failed =
      (_, refl, quiet-IsConsistent s.network.process s.sockets s.listening refl)
  signal-KeepsConsistent (got sigint) = (
    _,
    refl,
    quiet-IsConsistent (signal_routine (got sigint ∷ []) s.network.process) s.sockets s.listening
        refl,
  )
  signal-KeepsConsistent (got sigusr1) = (
    _,
    refl,
    quiet-IsConsistent (signal_routine (got sigusr1 ∷ []) s.network.process) s.sockets s.listening
        refl,
  )
  signal-KeepsConsistent (got sigwinch) =
      let n : Network = record s.network {
        process = signal_routine (got sigwinch ∷ []) s.network.process;
      } in
      (
        record s { network = n },
        refl,
        published-IsConsistent n resize_message s.listening
            (record { valid = c.sound.valid; linked = c.sound.linked }) refl refl tt refl,
      )
