-- ===== src/Tests/Systems.antt =====
-- The threads together.
use mathlib.Core.Path.{subst}
use mathlib.Core.List.Memᴰ
use net_det.Prelude.{
  ℕ, zero, suc, ◌<◌, get_or, some, ◌≡◌, refl, sym, ap, ◌∙◌, inl, inr, true, Bool-cases, none, List,
  [], ◌∷◌, ok, fault, arith, ◌+◌, ◌*◌, ◌≤◌, Run,
}
use net_det.Prelude.Int.{pos}
use net_det.Net.NetworkThread.{Step, handle_incoming_frame, handle_timer_tick}
use net_det.Net.NetworkThread.Routine.Events.{IsAnswered}
use net_det.App.Main.{Main, draw_main}
use net_det.Ui.Tui.{key_down, key_b, key_enter, viewport_rows}
use net_det.Ui.Tui.Pressed.{IsPressed}
use net_det.Ui.Popup.Settled.{HasName, no_entry}
use net_det.Ui.Popup.Listing.{CanList}
use net_det.Tests.Popups.{listing}
use net_det.App.System.{
  System, Action, frame, tick, rebind, signal, key, message, by_network, by_socket, perform,
  perform_all,
}
use net_det.App.System.Consistent.{IsConsistent}
use net_det.App.System.NetworkSteps.{IsNew}
use net_det.App.System.Steps.{IsFair, AllFair, perform_all-IsConsistent}
use net_det.App.System.Occurs.{occurs, firsts}
use net_det.Platform.SignalHandler.{got}
use net_det.Platform.Epoll.{watches, epoll_unregister, epoll_register}
use net_det.App.Process.{sigwinch}
use net_det.Net.RawSocket.{Bound, change_bind, raw_socket_create, socket_init}
use net_det.App.Main.Start.{main_init, init_main_window}
use net_det.Ui.Drawing.{draw}
use net_det.Ui.Table.{print_network_data}
use net_det.Net.NetworkThread.Routine.{network_init}
use net_det.Common.Error.{get_error}
use net_det.App.Program.{ProgramAnswers, program_init, run_program}
use net_det.App.Program.Ended.{IsEnded, run_program-IsEnded}
use net_det.Tests.Sockets.{socket_answers, sockets}
use net_det.Tests.Routines.{init_answers, init_zeroed}
use net_det.Core.HashMap.Slots.{scan}
use net_det.Tests.Devices.{no_device, no_device-IsSound, answers, device_a, short_frame}
use net_det.Tests.Mains.{two, start_answers, main_answers, main_of, main_of-IsTable}

-- No device yet, and an empty table.
abbrev first : System
first = record {
  network = no_device;
  sockets = sockets;
  main = main_of no_device.heap (none ∷ none ∷ none ∷ none ∷ none ∷ []) 0;
  listening = true;
}

first-IsConsistent : IsConsistent first
unfolding scan occurs firsts
first-IsConsistent = record {
  sound = no_device-IsSound;
  table =
      main_of-IsTable no_device.heap (none ∷ none ∷ none ∷ none ∷ none ∷ []) 0 refl (omega arith)
        (λ j below. absurd (omega arith));
  in_step = record {
    listed = λ p shown. absurd (Memᴰ.not-nil shown);
    brought = λ msg sent. absurd (Memᴰ.not-nil sent);
    told = λ q p bound. absurd (cc bound);
    once = λ p. omega arith;
    counted = refl;
  };
}

answers-IsAnswered : IsAnswered answers no_device
answers-IsAnswered = record {
  pointer = 20;
  garbage = device_a;
  memory = refl;
  cells = refl;
  fresh = refl;
  small = omega arith;
  zeroed = refl;
  short = short_frame;
}

ok-injective : {a b : System} → ok a ≡ ok b → a ≡ b
ok-injective same = cc same

-- What the other threads leave alone.
abbrev SameMain : System → System → Type 0
SameMain s s' = s'.main ≡ s.main

-- The network thread leaves the main thread's part alone, and its own sockets while it reads.
by_network_same :
    (s s' : System) (step : Step)
    → by_network s step ≡ ok s'
    → SameMain s s' × (s'.sockets ≡ s.sockets)
by_network_same s s' (ok r) e = elim (Bool-cases s.listening) [
  | inl on ↦
      let is = ok-injective (rw on at e) in
      (ap (λ s. s.main) (sym is), ap (λ s. s.sockets) (sym is))
  | inr off ↦
      let is = ok-injective (rw off at e) in
      (ap (λ s. s.main) (sym is), ap (λ s. s.sockets) (sym is))
]
by_network_same s s' (fault f) e = elim (Bool-cases s.listening) [
  | inl on ↦ absurd (cc (rw on at e))
  | inr off ↦
      let is = ok-injective (rw off at e) in
      (ap (λ s. s.main) (sym is), ap (λ s. s.sockets) (sym is))
]

by_socket_same : (s s' : System) (step : Run Bound) → by_socket s step ≡ ok s' → SameMain s s'
by_socket_same s s' (ok b) e = elim (Bool-cases s.listening) [
  | inl on ↦ ap (λ s. s.main) (sym (ok-injective (rw on at e)))
  | inr off ↦ ap (λ s. s.main) (sym (ok-injective (rw off at e)))
]
by_socket_same s s' (fault f) e = elim (Bool-cases s.listening) [
  | inl on ↦ absurd (cc (rw on at e))
  | inr off ↦ ap (λ s. s.main) (sym (ok-injective (rw off at e)))
]

-- A frame of a new device, a tick, another interface, a new size of the window, the first message read,
-- and the keys that open the list of interfaces and choose the second.
abbrev actions : List Action
actions =
    frame answers
    ∷ tick true (pos 0)
    ∷ rebind socket_answers
    ∷ signal (got sigwinch)
    ∷ message main_answers
    ∷ key main_answers key_b
    ∷ key main_answers key_down
    ∷ key main_answers key_enter
    ∷ []

named :
    (i : ℕ)
    → i < 1
    → HasName
        (get_or (record { if_index = 2; if_name = some (108 ∷ 111 ∷ []) } ∷ []) i no_entry).if_name
named zero below = (108 ∷ 111 ∷ [], refl)
named (suc i) below = absurd (omega arith)

listing-CanList : CanList listing
listing-CanList = record {
  entries = record { if_index = 2; if_name = some (108 ∷ 111 ∷ []) } ∷ [];
  found = refl;
  memory = refl;
  few = omega arith;
  named = named;
  all_named = (97 ∷ 108 ∷ 108 ∷ [], refl);
}

abbrev HasRoom : Main → Type 0
HasRoom m = 5 * (m.context.buffer.buffer.count + 1) ≤ 4 * m.context.buffer.buffer.size

abbrev IsFirst : System → Type 0
IsFirst s = IsAnswered answers s.network × HasRoom s.main × IsNew socket_answers s

actions-AllFair : (s : System) → IsFirst s → AllFair actions s
unfolding AllFair IsFair IsPressed perform
actions-AllFair s (answered, room, new) = (
  answered,
  λ s1 one.
      let (main1, sockets1) =
        by_network_same s s1 (handle_incoming_frame answers s.sockets.socket_fd s.network) one in
      (
        tt,
        λ s2 two.
            let (main2, sockets2) =
              by_network_same s1 s2 (handle_timer_tick true (pos 0) s1.sockets.socket_fd s1.network)
                two in
            let interface = ap (λ m. m.context.binded_interface.if_name) (main2 ∙ main1) in
            let watched =
              ap (λ k. watches (epoll_unregister k.interest k.socket_fd) socket_answers.socket)
                (sockets2 ∙ sockets1) in
            (
              record {
                name = new.name;
                named = interface ∙ new.named;
                fresh = watched ∙ new.fresh;
              },
              λ s3 three. (
                tt,
                λ s4 four.
                    let main3 =
                      by_socket_same s2 s3
                        (change_bind socket_answers s2.main.context.binded_interface s2.sockets
                          s2.network.process)
                        three in
                    let main4 : SameMain s3 s4 = ap (λ s. s.main) (sym (ok-injective four)) in
                    (
                      subst HasRoom (sym (main4 ∙ main3 ∙ main2 ∙ main1)) room,
                      λ s5 five.
                          (listing-CanList, λ s6 six. (tt, λ s7 seven. (tt, λ s8 eight. tt))),
                    ),
              ),
            ),
      ),
)

first-IsFirst : IsFirst first
unfolding epoll_unregister
first-IsFirst =
    (answers-IsAnswered, omega arith, record { name = 108 ∷ 111 ∷ []; named = refl; fresh = refl })

perform_all-IsConsistent_example :
    (s' : System) × (perform_all actions first ≡ ok s') × IsConsistent s'
perform_all-IsConsistent_example =
    perform_all-IsConsistent actions first first-IsConsistent (actions-AllFair first first-IsFirst)

abbrev program_answers : ProgramAnswers
program_answers = record {
  start = start_answers;
  first_draw = main_answers;
  network = init_answers;
  initial_interface = none;
}

begun : (s : System) → program_init program_answers two ≡ ok s → IsFirst s
unfolding program_init main_init network_init raw_socket_create socket_init epoll_unregister
    epoll_register draw_main draw init_main_window print_network_data viewport_rows
begun s e = subst IsFirst (ok-injective e) (
  record {
    pointer = 20;
    garbage = device_a;
    memory = refl;
    cells = refl;
    fresh = refl;
    small = omega arith;
    zeroed = refl;
    short = short_frame;
  },
  omega arith,
  record { name = 97 ∷ 108 ∷ 108 ∷ []; named = refl; fresh = refl },
)

run_program-IsEnded_example :
    (s : System) × (m' : Main) × (run_program program_answers actions two
      ≡ ok (s, m', get_error s.network.process))
    × IsConsistent s
    × IsEnded s m'
run_program-IsEnded_example =
    run_program-IsEnded program_answers actions two refl refl refl init_zeroed refl
      (λ s e. actions-AllFair s (begun s e))
