-- ===== src/Tests/Mains.antt =====
-- The main thread of src/app/main.c.
use net_det.Prelude.{
  ℕ, zero, suc, length, ◌≤◌, ◌<◌, ◌≡◌, refl, sym, ◌∙◌, inl, Option, none, some, false, true, List,
  [], ◌∷◌, arith, replicate, fault, null_dereference, ok, true, ◌==◌, if◌then◌else◌,
}
use net_det.Prelude.Int.{pos}
use net_det.App.Process.{sigint_end}
use net_det.Core.Device.{Heap, ui_new_entry, ui_timer_tick}
use net_det.Ui.Table.Rows.{IsLive}
use net_det.Ui.Drawing.{is_too_small}
use net_det.App.Main.{
  Main, MainAnswers, MainRound, main_others, main_loop, handle_message, handle_new_entry,
}
use net_det.App.Main.Start.{StartAnswers}
use net_det.App.Main.Loop.{AllFair, AllRounds, main_loop-IsTable}
use net_det.Ui.Tui.{key_down}
use net_det.Ui.Tui.Pressed.{IsPressed}
use net_det.App.Main.Table.{IsTable, Adds}
use net_det.App.Main.Messages.{IsCarried, handle_message-IsTable}
use net_det.App.Main.CleanUp.{IsDistinct}
use net_det.App.Main.Lost.{handle_new_entry-null}
use net_det.Tests.Devices.{device_a}
use net_det.Tests.Popups.{start, listing}
use net_det.Tests.Sockets.{lo}

abbrev realloc_fails : List (Option ℕ) → ℕ → Option (List (Option ℕ))
realloc_fails items n = none

abbrev pub main_answers : MainAnswers
main_answers = record {
  scale = λ v max. 0;
  realloc = realloc_fails;
  popup = listing;
  lines = pos 30;
  cols = pos 90;
  errno = pos 12;
}

-- A window of 20 lines over a table of `count` devices.
abbrev pub main_of : Heap → List (Option ℕ) → ℕ → Main
main_of heap items count = record {
  context = record {
    buffer = record {
      buffer = record { items = items; size = 5; count = count };
      view = record {
        count = count;
        head = 0;
        visible = 5;
        viewport_capacity = 17;
        cursor = pos 0;
      };
    };
    screen = start;
    current_layout = record { col_width = pos 19; col_width_remainder = pos 0 };
    binded_interface = lo;
    bind_updates = 0;
  };
  heap = heap;
  epoll_fd = pos 3;
  interest = [];
  fds = record { pipe_read = pos 10; pipe_write = pos 11; shutdown_main_fd = pos 12 };
  shown = [];
}

-- Devices at the addresses 7 to 10.
abbrev pub four_devices : Heap
four_devices p =
    if p == 7
    then some device_a
    else if p == 8
    then some device_a
    else if p == 9
    then some device_a
    else if p == 10
    then some device_a
    else none

abbrev pub two : Main
two = main_of four_devices (some 7 ∷ some 8 ∷ none ∷ none ∷ none ∷ []) 2

abbrev full : Main
full = main_of four_devices (some 7 ∷ some 8 ∷ some 9 ∷ some 10 ∷ none ∷ []) 4

pub main_of-IsTable :
    (heap : Heap) (items : List (Option ℕ)) (count : ℕ)
    → length items ≡ 5
    → count ≤ 4
    → ((j : ℕ) → j < count → IsLive heap (main_of heap items count).context.buffer j)
    → IsTable (main_of heap items count)
main_of-IsTable heap items count wide few live = record {
  backed = record {
    inside = omega arith;
    stored = omega arith;
    fits = omega arith;
    size_fits = omega arith;
    live = live;
  };
  valid = record { allocated = omega arith; load = omega arith; fits = omega arith };
  narrow = omega arith;
  some_slots = omega arith;
  counted = refl;
  popup = inl (record { inactive = refl; visible = refl });
}

two-IsLive : (j : ℕ) → j < 2 → IsLive four_devices two.context.buffer j
two-IsLive zero below = record { pointer = 7; dev = device_a; stored = refl; there = refl }
two-IsLive (suc zero) below = record { pointer = 8; dev = device_a; stored = refl; there = refl }
two-IsLive (suc (suc j)) below = absurd (omega arith)

full-IsLive : (j : ℕ) → j < 4 → IsLive four_devices full.context.buffer j
full-IsLive zero below = record { pointer = 7; dev = device_a; stored = refl; there = refl }
full-IsLive (suc zero) below = record { pointer = 8; dev = device_a; stored = refl; there = refl }
full-IsLive (suc (suc zero)) below = record {
  pointer = 9;
  dev = device_a;
  stored = refl;
  there = refl;
}
full-IsLive (suc (suc (suc zero))) below = record {
  pointer = 10;
  dev = device_a;
  stored = refl;
  there = refl;
}
full-IsLive (suc (suc (suc (suc j)))) below = absurd (omega arith)

two-IsTable : IsTable two
two-IsTable =
    main_of-IsTable four_devices two.context.buffer.buffer.items 2 refl (omega arith) two-IsLive

full-IsTable : IsTable full
full-IsTable =
    main_of-IsTable four_devices full.context.buffer.buffer.items 4 refl (omega arith) full-IsLive

brings_9 : IsCarried ui_new_entry (some 9) two
unfolding IsCarried
brings_9 = (9, device_a, refl, refl, omega arith)

handle_message-IsTable_example :
    Adds
      (some 9 ∷ [])
      two
      (handle_message main_answers (record { msg_type = ui_new_entry; device = some 9 }) two)
handle_message-IsTable_example =
    handle_message-IsTable main_answers ui_new_entry (some 9) two two-IsTable brings_9

tall : is_too_small full.context.screen.main_window ≡ false
unfolding is_too_small
tall = refl

handle_new_entry-null_example :
    handle_new_entry main_answers (some 11) full ≡ fault null_dereference
handle_new_entry-null_example =
    handle_new_entry-null main_answers full (some 11) full-IsTable (omega arith) refl refl tall
      (omega arith) (omega arith)

some-injective : {a b : ℕ} → some a ≡ some b → a ≡ b
some-injective e = cc e

seven_eight : (a b : ℕ) → a ≡ b → ¬ a < b
seven_eight a b same below = absurd (omega arith)

two-IsDistinct : IsDistinct two.context.buffer.buffer.items 2
two-IsDistinct zero zero p order below first second = absurd (omega arith)
two-IsDistinct zero (suc zero) p order below first second =
    seven_eight 7 8 (some-injective (first ∙ sym second)) (omega arith)
two-IsDistinct zero (suc (suc j)) p order below first second = absurd (omega arith)
two-IsDistinct (suc i) zero p order below first second = absurd (omega arith)
two-IsDistinct (suc i) (suc j) p order below first second = absurd (omega arith)

abbrev pub start_answers : StartAnswers
start_answers = record {
  epoll_fd = pos 3;
  fds = two.fds;
  newwin = some 1;
  new_panel = some 2;
  lines = pos 30;
  cols = pos 90;
  record_found = true;
  calloc = λ n. some (replicate n none);
  errno = pos 0;
}

-- A device at every address.
abbrev all_devices : Heap
all_devices p = some device_a

-- A message with a new device and a key, and then the end.
abbrev two_rounds : List MainRound
two_rounds =
    record {
      end = none;
      heap = all_devices;
      events =
          record {
            fd = pos 10;
            msg = record { msg_type = ui_new_entry; device = some 9 };
            input = key_down;
            answers = main_answers;
          }
          ∷ record {
            fd = pos 0;
            msg = record { msg_type = ui_timer_tick; device = none };
            input = key_down;
            answers = main_answers;
          }
          ∷ [];
    }
    ∷ record { end = some sigint_end; heap = all_devices; events = [] }
    ∷ []

two_rounds-AllRounds : AllRounds two_rounds two
unfolding AllRounds AllFair IsCarried IsPressed main_others
two_rounds-AllRounds = (
  λ p there. (device_a, refl),
  (
    (λ bus. (9, device_a, refl, refl, omega arith), λ keyboard. tt),
    λ m1 runs. ((λ bus. tt, λ keyboard. tt), λ m2 presses. tt),
  ),
  λ m3 handles. (λ p there. (device_a, refl), tt, λ m4 ends. tt),
)

main_loop-IsTable_example : (m : Main) × (main_loop two_rounds two ≡ ok (m, true)) × IsTable m
main_loop-IsTable_example = main_loop-IsTable two_rounds two two-IsTable two_rounds-AllRounds refl
