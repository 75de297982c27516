-- ===== src/Ui/Popup.antt =====
-- src/ui/tui_popup.c: where the popup window stands, and how a key opens and closes it.
pub mod Opened
pub mod Toggle
pub mod Geometry
pub mod Settled
pub mod Listing
use net_det.Prelude.{
  ℕ, ◌+◌, ◌-◌, ◌^◌, Bool, true, false, not, ◌&&◌, Option, none, some, List, [], ◌∷◌, ◌++◌, map,
  length, Run, ok, fault, null_dereference, out_of_bounds, ◌>>=◌, at, not_null, if◌then◌else◌,
}
use net_det.Prelude.Int.{ℤ, pos, ◌+ℤ◌, ◌-ℤ◌, ltb_ℤ}
use net_det.App.Process.{Process, app_err_if_nameindex, app_err_calloc}
use net_det.Common.Error.{main_error}
use net_det.Core.Device.{Heap}
use net_det.Ui.Templates.{draw_popup}
use net_det.Ui.ScrollView.{ScrollView, scroll_view_configure}
use net_det.Ui.Screen.{
  WindowData, PopupType, interfaces_list, inspect_list, same_type, PopupDescriptor, IfEntry, Screen,
  PopupAnswers, get_popup_descriptor, set_popup_descriptor,
}
use net_det.Ui.Interfaces.{
  copied_list, prepare_interface_list, free_names, interfaces_list_clean_up, get_interface,
}

-- The statics of src/ui/popup_inspect.c then point into this device.
abbrev pub prepare_inspect_data : Option ℕ → Screen → Screen
prepare_inspect_data action_device s = record s { inspected = action_device }

-- `descriptor->data_init(action_device)` and `descriptor->data_cleanup(descriptor->args)`
unfoldable pub data_init : PopupType → PopupAnswers → Option ℕ → Screen → Screen
unfolding prepare_interface_list
data_init interfaces_list answers action_device s = prepare_interface_list answers s
data_init inspect_list answers action_device s = prepare_inspect_data action_device s

unfoldable pub data_cleanup : PopupType → Screen → Run Screen
unfolding interfaces_list_clean_up
data_cleanup interfaces_list s = interfaces_list_clean_up s
data_cleanup inspect_list s = ok s

-- The place of the popup in the main window, in `popup_init` and again in `resize_handler`.
unfoldable pub place_popup : WindowData → WindowData → WindowData
unfolding ◌+ℤ◌ ◌-ℤ◌
place_popup main popup =
    if not (ltb_ℤ (main.height -ℤ pos 10) (pos 3))
    then record popup {
      start_x = main.start_x +ℤ pos 5;
      start_y = main.start_y +ℤ pos 5;
      width = main.width -ℤ pos 10;
      height = main.height -ℤ pos 10;
    }
    else record popup {
      start_x = main.start_x;
      start_y = main.start_y;
      width = main.width;
      height = main.height;
    }

unfoldable pub popup_init : PopupAnswers → PopupType → Screen → Screen
unfolding place_popup
popup_init answers window_type s = record s {
  popup_type = window_type;
  popup_window = record (place_popup s.main_window s.popup_window) {
    is_active = true;
    window = answers.newwin;
    panel = answers.new_panel;
  };
}

unfoldable pub popup_clean_up : Screen → Screen
popup_clean_up s = record s {
  popup_window = record {
    is_active = false;
    width = pos 0;
    height = pos 0;
    start_x = pos 0;
    start_y = pos 0;
    window = none;
    panel = none;
  };
}

-- The branch that opens the popup, up to its view.
unfoldable pub set_up_popup : PopupAnswers → PopupType → Option ℕ → Screen → Screen
unfolding popup_init data_init scroll_view_configure
set_up_popup answers window_type action_device s =
    let a : Screen =
      popup_init answers window_type
        (record s { main_window = record s.main_window { is_active = false } }) in
    let b : Screen =
      set_popup_descriptor window_type
        (record (get_popup_descriptor window_type a) { args = action_device }) a in
    let c : Screen = data_init window_type answers action_device b in
    let d : PopupDescriptor = get_popup_descriptor window_type c in
    set_popup_descriptor window_type
      (record d {
        view = record (scroll_view_configure d.view d.data_count c.popup_window.height) {
          head = 0;
          cursor = pos 0;
        };
      })
      c

-- The branch that closes it.
unfoldable pub close_popup : Screen → Run Screen
unfolding popup_clean_up data_cleanup
close_popup s = do
  cleaned ←
      data_cleanup s.popup_type
        (popup_clean_up (record s { main_window = record s.main_window { is_active = true } }))
  ok (record cleaned { is_visible = true })

module _ (scale : ℕ → ℕ → ℕ) (heap : Heap) (bound : IfEntry) where
  -- All of the branch: the popup is drawn, where the drawing of its lines may meet a fault. What is drawn is not
  -- kept, since `draw` draws the frame and the lines of an open popup again.
  unfoldable pub open_popup : PopupAnswers → PopupType → Option ℕ → Screen → Run Screen
  unfolding set_up_popup draw_popup
  open_popup answers window_type action_device s =
      let opened = set_up_popup answers window_type action_device s in
      draw_popup scale heap bound opened >>= λ lines. ok (record opened { is_visible = false })

  unfoldable pub popup_window_action : PopupAnswers → PopupType → Option ℕ → Screen → Run Screen
  unfolding open_popup close_popup
  popup_window_action answers window_type action_device s =
      if s.is_visible
      then open_popup answers window_type action_device s
      else (if s.popup_window.is_active && not (same_type s.popup_type window_type)
          then ok s
          else close_popup s)
