-- ===== src/Ui/Tui.antt =====
-- src/ui/tui.c: what a key and a new size of the terminal do. ncurses' own state is left out.
-- Of src/net/raw_socket.c, `set_bound_interface` and `bind_update_notify`.
pub mod Keys
pub mod Resized
pub mod Settled
pub mod Pressed
use net_det.Prelude.{
  ℕ, ◌+◌, ◌%◌, ◌^◌, Bool, not, ◌&&◌, Option, none, some, List, Run, ok, ◌>>=◌, at, not_null, ltb,
  ◌==◌, if◌then◌else◌,
}
use net_det.Prelude.Int.{ℤ, pos, negsuc, ◌-ℤ◌, ltb_ℤ, to_uint32}
use net_det.Core.Device.{Heap}
use net_det.Ui.ScrollView.{ScrollView, scroll_move, scroll_view_configure}
use net_det.Ui.Table.{TableLayout, DeviceTableView, set_column_width}
use net_det.Ui.Screen.{
  PopupType, interfaces_list, inspect_list, same_type, PopupDescriptor, IfEntry, Screen,
  PopupAnswers, get_popup_descriptor, set_popup_descriptor, get_popup_descriptor_scroll_view,
}
use net_det.Ui.Interfaces.{get_interface}
use net_det.Ui.Popup.{place_popup, popup_window_action}

-- `app_context` with the statics: `current_layout` of src/ui/tui_app.c, and `binded_interface` and the
-- number of writes to `bind_update_fd` of src/net/raw_socket.c.
pub record AppContext : Type 0 where
  pub buffer : DeviceTableView
  pub screen : Screen
  pub current_layout : TableLayout
  pub binded_interface : IfEntry
  pub bind_updates : ℕ

pub data Input : Type 0 where
  key_down key_up key_b key_i key_enter other_key : Input

-- A step in the view of the window that has the keys.
unfoldable pub scroll_active : ℤ → AppContext → AppContext
scroll_active direction c =
    let t = c.screen.popup_type in
    let d = get_popup_descriptor t c.screen in
    if c.screen.main_window.is_active
    then record c { buffer = record c.buffer { view = scroll_move c.buffer.view direction } }
    else record c {
      screen =
          set_popup_descriptor t
            (record d {
              view = scroll_move (get_popup_descriptor_scroll_view t c.screen) direction;
            })
            c.screen;
    }

abbrev popup_action :
    (ℕ → ℕ → ℕ) → Heap → PopupAnswers → PopupType → Option ℕ → AppContext → Run AppContext
popup_action scale heap answers t dev c = do
  s ← popup_window_action scale heap c.binded_interface answers t dev c.screen
  ok (record c { screen = s })

-- `view->head + view->cursor`, which C computes on 32-bit words
abbrev pub selected_index : ScrollView → ℕ
selected_index view = (view.head + to_uint32 view.cursor) % 2 ^ 32

-- `strdup` of a null pointer is undefined.
unfoldable pub set_bound_interface : PopupAnswers → IfEntry → AppContext → Run AppContext
set_bound_interface answers entry c = do
  name ← not_null entry.if_name
  ok (record c {
    binded_interface = record { if_index = entry.if_index; if_name = answers.strdup (some name) };
  })

unfoldable pub bind_update_notify : AppContext → AppContext
bind_update_notify c = record c { bind_updates = c.bind_updates + 1 }

-- The new line with the list of interfaces open, once the selected place is in the view's list.
unfoldable pub bind_selected :
    (ℕ → ℕ → ℕ) → Heap → PopupAnswers → IfEntry → AppContext → Run AppContext
unfolding set_bound_interface bind_update_notify
bind_selected scale heap answers entry c =
    if entry.if_index == 0
    then ok c
    else (set_bound_interface answers entry c >>= λ bound.
        popup_action scale heap answers interfaces_list none (bind_update_notify bound))

unfoldable pub input_handler :
    (ℕ → ℕ → ℕ) → Heap → PopupAnswers → Input → AppContext → Run AppContext
unfolding scroll_active bind_selected
input_handler scale heap answers key_down c = ok (scroll_active (pos 1) c)
input_handler scale heap answers key_up c = ok (scroll_active (negsuc 0) c)
input_handler scale heap answers key_b c = popup_action scale heap answers interfaces_list none c
input_handler scale heap answers key_i c = do
  item ← at c.buffer.buffer.items (selected_index c.buffer.view)
  elim item [ none ↦ ok c | some p ↦ popup_action scale heap answers inspect_list (some p) c ]
input_handler scale heap answers key_enter c =
    let view = c.screen.interfaces.view in
    if not (c.screen.popup_window.is_active && same_type c.screen.popup_type interfaces_list)
    then ok c
    else (if not (ltb (selected_index view) view.count)
        then ok c
        else (get_interface (selected_index view) c.screen >>= λ entry.
            bind_selected scale heap answers entry c))
input_handler scale heap answers other_key c = ok c

-- The `uint32_t` number of rows for a window of this height.
unfoldable pub viewport_rows : ℤ → ℕ
unfolding ◌-ℤ◌
viewport_rows height =
    if ltb_ℤ (height -ℤ pos 2) (pos 0) then 0 else to_uint32 (height -ℤ pos 2 -ℤ pos 1)

-- The end of `resize_handler`, where a popup is open.
unfoldable pub resize_popup : Screen → Screen
unfolding place_popup scroll_view_configure
resize_popup s =
    let placed : Screen = record s { popup_window = place_popup s.main_window s.popup_window } in
    let d = get_popup_descriptor s.popup_type placed in
    set_popup_descriptor s.popup_type
      (record d { view = scroll_view_configure d.view d.data_count placed.popup_window.height })
      placed

-- `LINES` and `COLS` are the size of the terminal after `resizeterm`.
unfoldable pub resize_handler : ℤ → ℤ → AppContext → AppContext
unfolding viewport_rows resize_popup ◌-ℤ◌
resize_handler lines cols c =
    let s : Screen = record c.screen {
      main_window = record c.screen.main_window {
        height = lines -ℤ pos 10;
        width = cols -ℤ pos 10;
      };
    } in
    record c {
      screen = if s.popup_window.is_active then resize_popup s else s;
      current_layout = set_column_width (cols -ℤ pos 10);
      buffer = record c.buffer {
        view = record c.buffer.view { viewport_capacity = viewport_rows (lines -ℤ pos 10) };
      };
    }
