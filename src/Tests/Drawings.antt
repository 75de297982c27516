-- ===== src/Tests/Drawings.antt =====
-- The drawing of the popups of src/ui/popup_templates.c.
use net_det.Prelude.{
  ℕ, ◌<◌, ◌≡◌, refl, some, none, List, arith, length, get_or, ok, fault, out_of_bounds, ◌==◌,
  if◌then◌else◌,
}
use net_det.Core.Device.{Device, Heap}
use net_det.Ui.ScrollView.Moves.{rows}
use net_det.Ui.Screen.{Screen, inspect_list}
use net_det.Ui.Templates.{PopupLine, draw_popup}
use net_det.Ui.Drawing.Lines.{
  interface_line, no_line, draw_popup-interface_line, draw_popup_out_of_bounds,
}
use net_det.Tests.Popups.{no_view}
use net_det.Tests.Keys.{choosing, context, entries}
use net_det.Tests.Devices.{device_a}

abbrev scale : ℕ → ℕ → ℕ
scale v max = 0

-- A device whose ring of rates has gone around.
abbrev wrapped : Device
wrapped = record device_a { graph = record device_a.graph { head = 0 } }

abbrev heap : Heap
heap p = if p == 7 then some wrapped else none

draw_popup-interface_line_example :
    (lines : List PopupLine) × (draw_popup scale heap context.binded_interface choosing ≡ ok lines)
    × (length lines ≡ rows choosing.interfaces.view)
    × ((k : ℕ)
        → k < rows choosing.interfaces.view
        → get_or lines k no_line
          ≡ interface_line context.binded_interface choosing.interfaces.view entries k)
draw_popup-interface_line_example =
    draw_popup-interface_line scale heap context.binded_interface choosing entries refl refl
      (omega arith) (omega arith)

abbrev inspecting : Screen
inspecting = record choosing {
  popup_type = inspect_list;
  inspect = record choosing.inspect { view = record no_view { count = 6; visible = 6 } };
  inspected = some 7;
}

draw_popup_out_of_bounds_example :
    draw_popup scale heap context.binded_interface inspecting ≡ fault out_of_bounds
draw_popup_out_of_bounds_example =
    draw_popup_out_of_bounds scale heap context.binded_interface inspecting 7 1 wrapped refl refl
      refl refl refl refl refl
