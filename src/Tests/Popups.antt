-- ===== src/Tests/Popups.antt =====
-- The popup of src/ui/tui_popup.c.
use net_det.Prelude.{
  ℕ, ◌<◌, ◌⊎◌, arith, ◌==◌, if◌then◌else◌, ◌≡◌, refl, true, false, none, some, [], ◌∷◌, ok, fault,
  null_dereference,
}
use net_det.Prelude.Int.{pos, ◌≤ℤ◌}
use net_det.App.Process.{initial, app_err_if_nameindex}
use net_det.Common.Error.{main_error}
use net_det.Ui.ScrollView.{ScrollView}
use net_det.Ui.Screen.{WindowData, IfEntry, Screen, PopupAnswers, interfaces_list, inspect_list}
use net_det.Core.Device.{Heap}
use net_det.Tests.Devices.{device_a}
use net_det.Ui.ScrollView.Moves.{rows}
use net_det.Ui.Popup.{place_popup, set_up_popup, popup_window_action}
use net_det.Ui.Popup.Opened.{IsClosed, IsOpen}
use net_det.Ui.Popup.Toggle.{popup_window_action-toggle, popup_window_action-null}
use net_det.Ui.Popup.Geometry.{IsWithin, place_popup-IsWithin}

abbrev pub no_view : ScrollView
no_view = record { count = 0; head = 0; visible = 0; viewport_capacity = 0; cursor = pos 0 }

abbrev pub no_popup : WindowData
no_popup = record {
  is_active = false;
  width = pos 0;
  height = pos 0;
  start_x = pos 0;
  start_y = pos 0;
  window = none;
  panel = none;
}

abbrev pub start : Screen
start = record {
  main_window = record {
    is_active = true;
    width = pos 80;
    height = pos 20;
    start_x = pos 5;
    start_y = pos 5;
    window = some 1;
    panel = some 2;
  };
  popup_window = no_popup;
  popup_type = interfaces_list;
  interfaces = record { data_count = pos 0; args = none; view = no_view };
  inspect = record { data_count = pos 6; args = none; view = no_view };
  popup_list = none;
  inspected = none;
  is_visible = true;
  process = initial;
}

start-IsClosed : IsClosed start
start-IsClosed = record {
  main = refl;
  popup = refl;
  window = refl;
  panel = refl;
  no_list = refl;
  visible = refl;
}

-- One interface, number 2 with the name "lo".
abbrev pub listing : PopupAnswers
listing = record {
  newwin = some 3;
  new_panel = some 4;
  if_nameindex = some (record { if_index = 2; if_name = some (108 ∷ 111 ∷ []) } ∷ []);
  calloc = true;
  strdup = λ name. name;
  errno = pos 0;
}

abbrev refusing : PopupAnswers
refusing = record listing { if_nameindex = none; errno = pos 12 }

abbrev no_blocks : ℕ → ℕ → ℕ
no_blocks v max = 0

abbrev device_7 : Heap
device_7 p = if p == 7 then some device_a else none

abbrev all : IfEntry
all = record { if_index = 0; if_name = none }

-- The popup of a device, and then the keys on another memory.
popup_window_action-toggle_example :
    (opened : Screen) × (popup_window_action no_blocks device_7 all listing inspect_list
        (some 7)
        start
      ≡ ok opened)
    × IsOpen inspect_list opened
    × (popup_window_action no_blocks (λ p. none) all listing interfaces_list none opened
        ≡ ok opened)
    × ((closed : Screen) × (popup_window_action no_blocks
            (λ p. none)
            all
            listing
            inspect_list
            none
            opened
          ≡ ok closed)
        × IsClosed closed)
popup_window_action-toggle_example =
    popup_window_action-toggle no_blocks device_7 (λ p. none) all all listing listing inspect_list
      interfaces_list (some 7) none start (λ v max small positive. omega arith) start-IsClosed
      (
        record {
          pointer = 7;
          d = device_a;
          given = refl;
          there = refl;
          cells = refl;
          behind = omega arith;
          inside = omega arith;
        },
        refl,
      )
      refl

-- An earlier list had two entries.
abbrev listed_before : Screen
listed_before = record start { interfaces = record start.interfaces { data_count = pos 2 } }

listed_before-IsClosed : IsClosed listed_before
listed_before-IsClosed = record {
  main = refl;
  popup = refl;
  window = refl;
  panel = refl;
  no_list = refl;
  visible = refl;
}

popup_window_action-null_example :
    ((0 < rows (set_up_popup refusing interfaces_list none listed_before).interfaces.view)
      × (popup_window_action no_blocks device_7 all refusing interfaces_list none listed_before
          ≡ fault null_dereference))
    ⊎ ((rows (set_up_popup refusing interfaces_list none listed_before).interfaces.view ≡ 0)
        × ((opened : Screen) × (popup_window_action no_blocks device_7 all refusing interfaces_list
                none listed_before
              ≡ ok opened)
            × (opened.process ≡ main_error app_err_if_nameindex (pos 12) initial)
            × (popup_window_action no_blocks device_7 all refusing interfaces_list none opened
                ≡ fault null_dereference)))
popup_window_action-null_example =
    popup_window_action-null no_blocks device_7 device_7 all all refusing refusing none none
      listed_before listed_before-IsClosed refl

place_popup-IsWithin_example :
    IsWithin start.main_window (place_popup start.main_window no_popup)
    × (pos 3 ≤ℤ pos 20 → pos 3 ≤ℤ (place_popup start.main_window no_popup).height)
place_popup-IsWithin_example = place_popup-IsWithin start.main_window no_popup
