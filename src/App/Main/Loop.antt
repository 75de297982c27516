-- ===== src/App/Main/Loop.antt =====
-- The main loop of src/app/main.c: every event is handled, and the loop ends when it is told to.
use mathlib.Core.List.{Memᴰ}
use net_det.Prelude.{
  ℕ, ◌≡◌, refl, inl, inr, ◌⊎◌, Bool, true, false, Bool-cases, Option-cases, none, some, List, [],
  ◌∷◌, Run, ok,
}
use net_det.Prelude.Int.{eq_ℤ}
use net_det.Core.Device.{Device}
use net_det.Core.DeviceBuffer.{contents}
use net_det.App.Lifecycle.{
  get_event_bus_fd, get_shutdown_main_fd, get_end_main_loop, lifecycle_request_shutdown,
}
use net_det.Ui.Tui.Pressed.{IsPressed}
use net_det.App.Main.{
  Main, MainEvent, MainRound, main_process, stdin_fileno, handle_main_event, handle_main_events,
  main_others, main_loop,
}
use net_det.App.Main.Table.{IsTable}
use net_det.App.Main.Messages.{IsCarried, handle_message-IsTable}
use net_det.App.Main.Keys.{handle_key-IsTable}
use net_det.App.Main.Moved.{moved-IsTable}

-- What an event must bring: a message of a new entry its device, to a table that has room, and a key the answers
-- that it needs. The key of a device's popup is left out.
abbrev pub IsFair : MainEvent → Main → Type 0
IsFair e m =
    (eq_ℤ e.fd (get_event_bus_fd m.fds) ≡ true → IsCarried e.msg.msg_type e.msg.device m)
    × (eq_ℤ e.fd stdin_fileno ≡ true → IsPressed e.input e.answers.popup)

unfoldable pub AllFair : List MainEvent → Main → Type 0
AllFair [] m = Unit
AllFair (e ∷ es) m = IsFair e m × ((m' : Main) → handle_main_event e m ≡ ok m' → AllFair es m')

-- The memory that the other threads leave has the devices of the table.
abbrev pub Has : MainRound → Main → Type 0
Has r m =
    (p : ℕ) → Memᴰ (some p) (contents m.context.buffer.buffer) → (d : Device) × (r.heap p ≡ some d)

-- What a round must bring: fair events, and a memory that has the devices of the table.
unfoldable pub AllRounds : List MainRound → Main → Type 0
AllRounds [] m = Unit
AllRounds (r ∷ rs) m =
    Has r m
    × AllFair r.events (main_others r m)
    × ((m' : Main) → handle_main_events r.events (main_others r m) ≡ ok m' → AllRounds rs m')

-- The end is requested in one of the rounds.
abbrev pub told : List MainRound → Bool
told [] = false
told (r ∷ rs) = elim r.end [ none ↦ told rs | some reason ↦ true ]

-- The step meets no fault and leaves a table of devices in memory.
abbrev pub KeepsTable : Run Main → Type 0
KeepsTable run = (m : Main) × (run ≡ ok m) × IsTable m

handle_main_event-KeepsTable :
    (e : MainEvent) (m : Main) → IsTable m → IsFair e m → KeepsTable (handle_main_event e m)
unfolding handle_main_event
handle_main_event-KeepsTable e m t (carried, pressed) =
    elim (Bool-cases (eq_ℤ e.fd (get_event_bus_fd m.fds))) [
      | inl bus ↦
          let (m', runs, t', _, _, _) =
            handle_message-IsTable e.answers e.msg.msg_type e.msg.device m t (carried bus) in
          (m', rw bus runs, t')
      | inr other ↦ elim (Bool-cases (eq_ℤ e.fd stdin_fileno)) [
        | inl keyboard ↦
            let (m', runs, t', _, _, _) =
              handle_key-IsTable e.answers m t e.input (pressed keyboard) in
            (m', rw (other, keyboard) runs, t')
        | inr ignored ↦ elim (Bool-cases (eq_ℤ e.fd (get_shutdown_main_fd m.fds))) [
          | inl shutdown ↦ (m, rw (other, ignored, shutdown), t)
          | inr unknown ↦ (m, rw (other, ignored, unknown), t)
        ]
      ]
    ]

handle_main_events-KeepsTable :
    (es : List MainEvent) (m : Main)
    → IsTable m
    → AllFair es m
    → KeepsTable (handle_main_events es m)
unfolding handle_main_events AllFair
handle_main_events-KeepsTable [] m t fair = (m, refl, t)
handle_main_events-KeepsTable (e ∷ es) m t (now, later) =
    let (m1, runs, t1) = handle_main_event-KeepsTable e m t now in
    let (m2, rest, t2) = handle_main_events-KeepsTable es m1 t1 (later m1 runs) in
    (m2, rw runs rest, t2)

told-later :
    (r : MainRound) (rs : List MainRound) → r.end ≡ none → told (r ∷ rs) ≡ true → told rs ≡ true
told-later r rs quiet says = rw quiet at says

-- The table is carried over, and the end is requested where the round says so.
main_others-IsTable :
    (r : MainRound) (m : Main)
    → IsTable m
    → Has r m
    → IsTable (main_others r m)
      × ((r.end ≡ none) ⊎ (get_end_main_loop (main_process (main_others r m)) ≡ true))
unfolding main_others lifecycle_request_shutdown get_end_main_loop
main_others-IsTable r m t still = elim (Option-cases r.end) [
  | inl quiet ↦ (rw quiet (moved-IsTable m r.heap (main_process m) t still), inl quiet)
  | inr (reason, says) ↦ (
    rw says (moved-IsTable m r.heap (lifecycle_request_shutdown reason (main_process m)) t still),
    inr (rw says),
  )
]

-- In a table of devices with no popup or the list of interfaces open: if no key is that of a device's popup, each
-- message of a new entry brings a device in memory to a table that is less than four fifths full, each key has the
-- answers that it needs, memory keeps the table's devices, and the end is requested in one of the rounds, then the
-- main loop handles its events without a fault, ends, and leaves a table of devices.
pub main_loop-IsTable :
    (rounds : List MainRound) (m : Main)
    → IsTable m
    → AllRounds rounds m
    → told rounds ≡ true
    → (m' : Main) × (main_loop rounds m ≡ ok (m', true)) × IsTable m'
unfolding main_loop AllRounds
main_loop-IsTable [] m t fair says = absurd (cc (says))
main_loop-IsTable (r ∷ rs) m t (still, fair, later) says =
    let (t1, asks) = main_others-IsTable r m t still in
    elim (Bool-cases (get_end_main_loop (main_process (main_others r m)))) [
      | inl ended ↦ (main_others r m, rw ended, t1)
      | inr runs ↦
          let (m1, handles, t2) =
            handle_main_events-KeepsTable r.events (main_others r m) t1 fair in
          let quiet : r.end ≡ none = elim asks [ inl q ↦ q | inr e ↦ absurd (cc (e, runs)) ] in
          let (m2, loops, t3) =
            main_loop-IsTable rs m1 t2 (later m1 handles) (told-later r rs quiet says) in
          (m2, rw (runs, handles, loops), t3)
    ]
