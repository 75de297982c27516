-- ===== src/Ui/Templates.antt =====
-- `draw_window_frame` of src/ui/tui.c and `draw_popup` of src/ui/popup_templates.c, with the items of its popups,
-- as values.
use Prim.Native.String.{String}
use net_det.Prelude.{
  ℕ, zero, suc, ◌+◌, ◌%◌, ◌^◌, Bool, not, Option, List, [], ◌∷◌, ◌++◌, Run, ok, ◌>>=◌, at, not_null,
  ltb, ◌==◌, if◌then◌else◌,
}
use net_det.Prelude.Int.{ℤ, pos, pos_part, ◌-ℤ◌, ltb_ℤ, to_uint32}
use net_det.Core.Device.{Heap}
use net_det.Ui.ScrollView.{ScrollView}
use net_det.Ui.Screen.{
  WindowData, PopupType, interfaces_list, inspect_list, IfEntry, Screen, get_popup_descriptor,
}
use net_det.Ui.Inspect.{Field, render_inspect_item}

-- The titles " NetDet ", " Available interfaces " and " Inspect ".
pub data Title : Type 0 where
  net_det_title available_interfaces_title inspect_title : Title

abbrev pub title_length : Title → ℤ
title_length net_det_title = pos 8
title_length available_interfaces_title = pos 22
title_length inspect_title = pos 9

abbrev pub get_popup_descriptor_title : PopupType → Title
get_popup_descriptor_title interfaces_list = available_interfaces_title
get_popup_descriptor_title inspect_list = inspect_title

pub data Glyph : Type 0 where
  top_left top_right bottom_left bottom_right horizontal vertical : Glyph
  title : Title → Glyph

pub record Mark : Type 0 where
  pub y : ℤ
  pub x : ℤ
  pub glyph : Glyph

abbrev pub mark : ℤ → ℤ → Glyph → Mark
mark y x glyph = record { y = y; x = x; glyph = glyph }

-- The loop that connects the corners horizontally, from column `x` on.
unfoldable pub horizontals : ℤ → ℕ → ℕ → List Mark
horizontals last_usable_row zero x = []
horizontals last_usable_row (suc rounds) x =
    mark (pos 0) (pos x) horizontal
    ∷ mark last_usable_row (pos x) horizontal
    ∷ horizontals last_usable_row rounds (x + 1)

-- The loop that connects them vertically, from row `y` on.
unfoldable pub verticals : ℤ → ℕ → ℕ → List Mark
verticals last_usable_column zero y = []
verticals last_usable_column (suc rounds) y =
    mark (pos y) (pos 0) vertical
    ∷ mark (pos y) last_usable_column vertical
    ∷ verticals last_usable_column rounds (y + 1)

-- The title is left out where it would touch the corners.
unfoldable pub title_marks : Title → ℤ → List Mark
title_marks t minimum_title_area =
    if ltb_ℤ (title_length t) minimum_title_area then mark (pos 0) (pos 2) (title t) ∷ [] else []

-- `for (x = 1; x < last; x++)` goes through `last - 1` rounds, or none.
unfoldable pub draw_window_frame : WindowData → Title → List Mark
unfolding horizontals verticals title_marks ◌-ℤ◌
draw_window_frame w t =
    let last_usable_column = w.width -ℤ pos 1 in
    let last_usable_row = w.height -ℤ pos 1 in
    mark (pos 0) (pos 0) top_left
    ∷ mark (pos 0) last_usable_column top_right
    ∷ mark last_usable_row (pos 0) bottom_left
    ∷ mark last_usable_row last_usable_column bottom_right
    ∷ (horizontals last_usable_row (pos_part (last_usable_column -ℤ pos 1)) 1
        ++ title_marks t (last_usable_column -ℤ pos 2)
        ++ verticals last_usable_column (pos_part (last_usable_row -ℤ pos 1)) 1)

-- A line of a popup: an interface, with a star where it is the bound one, or a field of a device.
pub data PopupItem : Type 0 where
  interface_item : Bool → Option (List ℕ) → PopupItem
  inspect_item : String → Field → PopupItem

pub record PopupLine : Type 0 where
  pub y : ℕ
  pub highlighted : Bool
  pub item : PopupItem

-- The statics `binded_interface` of src/net/raw_socket.c are an argument.
abbrev pub get_bound_interface : IfEntry → ℕ
get_bound_interface bound = bound.if_index

unfoldable pub render_interface_item : IfEntry → Screen → ℕ → Run PopupItem
render_interface_item bound s index = do
  items ← not_null s.popup_list
  entry ← at items index
  ok (interface_item (get_bound_interface bound == entry.if_index) entry.if_name)

module _ (scale : ℕ → ℕ → ℕ) (heap : Heap) (bound : IfEntry) where
  -- `descriptor->render_item`
  unfoldable pub render_item : PopupType → Screen → ℕ → Run PopupItem
  unfolding render_interface_item
  render_item interfaces_list s index = render_interface_item bound s index
  render_item inspect_list s index =
      render_inspect_item scale heap s.inspected index >>= λ item. ok (inspect_item item.0 item.1)

  -- The loop of `draw_popup`, from line `i` on.
  unfoldable pub draw_lines : Screen → ScrollView → ℕ → ℕ → Run (List PopupLine)
  unfolding render_item
  draw_lines s view zero i = ok []
  draw_lines s view (suc rounds) i =
      let index = (view.head + i) % 2 ^ 32 in
      if not (ltb index view.count)
      then ok []
      else (render_item s.popup_type s index >>= λ item.
          draw_lines s view rounds (i + 1) >>= λ rest.
          ok (record { y = i + 1; highlighted = to_uint32 view.cursor == i; item = item } ∷ rest))

  unfoldable pub draw_popup : Screen → Run (List PopupLine)
  unfolding draw_lines
  draw_popup s =
      let view = (get_popup_descriptor s.popup_type s).view in draw_lines s view view.visible 0
