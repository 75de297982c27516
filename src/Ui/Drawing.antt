-- ===== src/Ui/Drawing.antt =====
-- What `draw` of src/ui/tui.c and `draw_table_header` of src/ui/tui_app.c put on the screen, as values.
pub mod Lines
pub mod Inspected
pub mod Unlisted
use net_det.Prelude.{
  ℕ, Bool, ◌||◌, Option, none, some, List, [], ◌∷◌, Run, ok, ◌>>=◌, if◌then◌else◌,
}
use net_det.Prelude.Int.{ℤ, pos, ◌+ℤ◌, ltb_ℤ}
use net_det.Core.Device.{Heap}
use net_det.Ui.Table.{TableLayout, Row, quot, print_network_data}
use net_det.Ui.Screen.{WindowData}
use net_det.Ui.Templates.{
  Mark, net_det_title, get_popup_descriptor_title, draw_window_frame, PopupLine, draw_popup,
}
use net_det.Ui.Tui.{AppContext}

abbrev pub min_width : ℤ
min_width = pos 76

abbrev pub min_height : ℤ
min_height = pos 4

pub data Heading : Type 0 where
  mac_heading ip_heading qinq_heading dot1q_heading last_seen_heading : Heading

-- The five headings with their widths; all but the last stand at the left.
unfoldable pub draw_table_header : TableLayout → List (Heading × ℤ)
unfolding ◌+ℤ◌
draw_table_header layout =
    (mac_heading, layout.col_width)
    ∷ (ip_heading, layout.col_width)
    ∷ (qinq_heading, layout.col_width)
    ∷ (dot1q_heading, quot layout.col_width 2)
    ∷ (last_seen_heading, quot layout.col_width 2 +ℤ layout.col_width_remainder)
    ∷ []

-- What stands on the screen: the message that the window is too small, or the table with its frame and
-- headings, and the popup's frame and lines where one is open.
pub record Contents : Type 0 where
  pub frame : List Mark
  pub headings : List (Heading × ℤ)
  pub rows : List Row
  pub popup : Option (List Mark × List PopupLine)

pub data Picture : Type 0 where
  too_small : Picture
  contents : Contents → Picture

unfoldable pub is_too_small : WindowData → Bool
is_too_small w = ltb_ℤ w.height min_height || ltb_ℤ w.width min_width

unfoldable pub draw_open_popup :
    (ℕ → ℕ → ℕ) → Heap → AppContext → Run (Option (List Mark × List PopupLine))
unfolding draw_window_frame draw_popup
draw_open_popup scale heap c =
    if c.screen.popup_window.is_active
    then (draw_popup scale heap c.binded_interface c.screen >>= λ lines. ok (
        some (
          draw_window_frame c.screen.popup_window (get_popup_descriptor_title c.screen.popup_type),
          lines,
        )))
    else ok none

-- `print_network_data` also sets the number of visible rows.
unfoldable pub draw : (ℕ → ℕ → ℕ) → Heap → AppContext → Run (AppContext × Picture)
unfolding is_too_small draw_window_frame draw_table_header draw_open_popup
draw scale heap c =
    if is_too_small c.screen.main_window
    then ok (c, too_small)
    else (print_network_data c.current_layout heap c.buffer >>= λ t.
        draw_open_popup scale heap (record c { buffer = t.0 }) >>= λ popup. ok (
          record c { buffer = t.0 },
          contents (record {
            frame = draw_window_frame c.screen.main_window net_det_title;
            headings = draw_table_header c.current_layout;
            rows = t.1;
            popup = popup;
          }),
        ))
