-- ===== src/App/System/Steps.antt =====
-- Any interleaving of the threads' actions keeps the program consistent.
use net_det.Prelude.{◌+◌, ◌*◌, ◌≤◌, ◌≡◌, refl, inl, inr, List, [], ◌∷◌, ok}
use net_det.Net.NetworkThread.{handle_incoming_frame}
use net_det.Net.NetworkThread.Receive.{handle_incoming_frame-Announces}
use net_det.Net.NetworkThread.Routine.Events.{IsAnswered}
use net_det.App.Main.{MainAnswers}
use net_det.App.System.{
  System, Action, frame, tick, rebind, signal, message, key, perform, perform_all,
}
use net_det.App.System.Consistent.{IsConsistent, KeepsConsistent}
use net_det.App.System.Reading.{oldest-cases}
use net_det.Ui.Tui.Pressed.{IsPressed}
use net_det.App.System.NetworkSteps.{
  IsNew, frame-KeepsConsistent, tick-KeepsConsistent, rebind-KeepsConsistent,
  signal-KeepsConsistent,
}
use net_det.App.System.MainSteps.{read_message-KeepsConsistent, handle_key-KeepsConsistent}

-- What an action needs: the documented answers of `malloc`, `calloc` and `recvmsg` for a frame and of `socket` for
-- a new binding, those that the list of interfaces needs for its key, and for a message a table that is less
-- than four fifths full.
unfoldable pub IsFair : Action → System → Type 0
IsFair (frame answers) s = IsAnswered answers s.network
IsFair (tick read_all errno) s = Unit
IsFair (rebind answers) s = IsNew answers s
IsFair (signal w) s = Unit
IsFair (key answers input) s = IsPressed input answers.popup
IsFair (message answers) s =
    5 * (s.main.context.buffer.buffer.count + 1) ≤ 4 * s.main.context.buffer.buffer.size

unfoldable pub AllFair : List Action → System → Type 0
unfolding IsFair
AllFair [] s = Unit
AllFair (a ∷ actions) s = IsFair a s × ((s' : System) → perform a s ≡ ok s' → AllFair actions s')

module _ (s : System) (c : IsConsistent s) where
  message-KeepsConsistent :
      (answers : MainAnswers)
      → 5 * (s.main.context.buffer.buffer.count + 1) ≤ 4 * s.main.context.buffer.buffer.size
      → KeepsConsistent (perform (message answers) s)
  unfolding perform
  message-KeepsConsistent answers room = elim (oldest-cases s.network.process.event_bus) [
    | inl (empty, is) ↦ (s, rw (perform, empty), c)
    | inr (rest, msg, reads, is) ↦
        let (s', runs, c') = read_message-KeepsConsistent s c answers rest msg is room in
        (s', rw (perform, reads) runs, c')
  ]

  perform-KeepsConsistent : (a : Action) → IsFair a s → KeepsConsistent (perform a s)
  unfolding perform IsFair
  perform-KeepsConsistent (frame answers) a =
      frame-KeepsConsistent s c (handle_incoming_frame answers s.sockets.socket_fd s.network) (
        handle_incoming_frame-Announces answers s.sockets.socket_fd s.network a.pointer a.garbage
          c.sound a.small a.zeroed a.memory a.cells a.fresh a.short)
  perform-KeepsConsistent (tick read_all errno) given = tick-KeepsConsistent s c read_all errno
  perform-KeepsConsistent (rebind answers) a = rebind-KeepsConsistent s c answers a
  perform-KeepsConsistent (signal w) given = signal-KeepsConsistent s c w
  perform-KeepsConsistent (key answers input) still =
      handle_key-KeepsConsistent s c answers input still
  perform-KeepsConsistent (message answers) room = message-KeepsConsistent answers room

-- In a consistent program, after any sequence of frames, ticks, new bindings of the socket, signals, keys but
-- that of a device's popup, and messages read while the table is less than four fifths full, in any order,
-- each with the answers that it needs: no action has met a fault, the map leads to devices in memory, the
-- table holds devices in memory and counts them, no popup or the list of interfaces is open, and the devices
-- of the map are those of the table and of the first messages on their way, each once.
pub perform_all-IsConsistent :
    (actions : List Action) (s : System)
    → IsConsistent s
    → AllFair actions s
    → (s' : System) × (perform_all actions s ≡ ok s') × IsConsistent s'
unfolding perform_all AllFair
perform_all-IsConsistent [] s c fair = (s, refl, c)
perform_all-IsConsistent (a ∷ actions) s c (now, later) =
    let (s1, runs, c1) = perform-KeepsConsistent s c a now in
    let (s2, rest, c2) = perform_all-IsConsistent actions s1 c1 (later s1 runs) in
    (s2, rw runs rest, c2)
