-- ===== src/Tests/Keys.antt =====
-- The keys and the resize of src/ui/tui.c.
use net_det.Core.Device.{Heap}
use net_det.Prelude.{ℕ, ◌≡◌, ◌≢◌, refl, true, false, none, some, List, [], ◌∷◌, ok, arith}
use net_det.Prelude.Int.{pos}
use net_det.Ui.Screen.{Screen, IfEntry, interfaces_list}
use net_det.Ui.Interfaces.{free_names}
use net_det.Ui.Popup.Opened.{IsUp, closed_popup}
use net_det.Ui.Tui.{AppContext, key_enter, input_handler, resize_handler}
use net_det.Ui.Tui.Keys.{input_handler-closed_popup}
use net_det.Ui.Tui.Resized.{resize_handler-viewport_rows}
use net_det.Tests.Popups.{start, listing, no_view}

abbrev lo : IfEntry
lo = record { if_index = 2; if_name = some (108 ∷ 111 ∷ []) }

abbrev eth : IfEntry
eth = record { if_index = 3; if_name = some (101 ∷ []) }

abbrev pub entries : List IfEntry
entries = lo ∷ lo ∷ eth ∷ lo ∷ record { if_index = 0; if_name = none } ∷ []

-- The list of interfaces, scrolled by one, with the cursor on its second row.
abbrev pub choosing : Screen
choosing = record start {
  main_window = record start.main_window { is_active = false };
  popup_window = record start.popup_window { is_active = true };
  interfaces = record start.interfaces {
    view = record no_view { count = 4; visible = 3; head = 1; cursor = pos 1 };
  };
  popup_list = some entries;
  is_visible = false;
}

choosing-IsUp : IsUp interfaces_list choosing
choosing-IsUp = record { main = refl; popup = refl; kind = refl; hidden = refl }

abbrev pub context : AppContext
context = record {
  buffer = record { buffer = record { items = []; size = 0; count = 0 }; view = no_view };
  screen = choosing;
  current_layout = record { col_width = pos 0; col_width_remainder = pos 0 };
  binded_interface = record { if_index = 0; if_name = none };
  bind_updates = 0;
}

entries_end : free_names entries ≡ ok tt
unfolding free_names
entries_end = refl

some_index : eth.if_index ≢ 0
some_index = ground arith

abbrev no_scale : ℕ → ℕ → ℕ
no_scale v max = 0

abbrev no_heap : Heap
no_heap p = none

input_handler-closed_popup_example :
    input_handler no_scale no_heap listing key_enter context
    ≡ ok (record context {
      screen = closed_popup choosing;
      binded_interface = eth;
      bind_updates = 1;
    })
input_handler-closed_popup_example =
    input_handler-closed_popup no_scale no_heap listing context entries eth (101 ∷ []) 1
      choosing-IsUp refl entries_end refl (omega arith) (omega arith) refl some_index refl

resize_handler-viewport_rows_example :
    (resize_handler (pos 12) (pos 80) context).buffer.view.viewport_capacity ≡ 4_294_967_295
resize_handler-viewport_rows_example =
    resize_handler-viewport_rows 12 (pos 80) context (omega arith)
