-- ===== src/Ui/Tui/Keys.antt =====
-- What the new line does in the list of interfaces.
use net_det.Prelude.{ℕ, ◌+◌, ◌<◌, ◌^◌, ◌≡◌, ◌≢◌, ◌∙◌, false, none, some, List, arith, ok, at, ◌==◌}
use net_det.Prelude.Int.{pos}
use net_det.Core.Device.{Heap}
use net_det.Ui.ScrollView.{ScrollView}
use net_det.Ui.Screen.{IfEntry, PopupAnswers, interfaces_list}
use net_det.Ui.Interfaces.{free_names, get_interface}
use net_det.Ui.Popup.Opened.{IsUp, closed_popup, close_popup-closed_popup}
use net_det.Ui.Popup.Toggle.{popup_window_action-close_popup}
use net_det.Ui.Tui.{
  AppContext, key_enter, selected_index, input_handler, bind_selected, set_bound_interface,
  bind_update_notify,
}

module _ (scale : ℕ → ℕ → ℕ) (heap : Heap) (answers : PopupAnswers) (c : AppContext)
    (entries : List IfEntry) (e : IfEntry) (name : List ℕ) (up : IsUp interfaces_list c.screen)
    (listed : c.screen.popup_list ≡ some entries) (ends : free_names entries ≡ ok tt)
    (real : e.if_index ≢ 0) (named : e.if_name ≡ some name) where
  abbrev bound_entry : IfEntry
  bound_entry = record { if_index = e.if_index; if_name = answers.strdup (some name) }

  bind_selected_lem :
      bind_selected scale heap answers e c
      ≡ ok (record c {
        screen = closed_popup c.screen;
        binded_interface = bound_entry;
        bind_updates = c.bind_updates + 1;
      })
  unfolding bind_selected set_bound_interface bind_update_notify
  bind_selected_lem =
      let test : (e.if_index == 0) ≡ false = ground arith in
      let closes =
        popup_window_action-close_popup scale heap bound_entry answers interfaces_list none c.screen
          up
        ∙ close_popup-closed_popup c.screen entries up.kind listed ends in
      rw (test, named, closes)

  -- The tests and reads before that.
  key_enter-bind_selected :
      (place : ℕ)
      → selected_index c.screen.interfaces.view ≡ place
      → place < c.screen.interfaces.view.count
      → at entries place ≡ ok e
      → input_handler scale heap answers key_enter c ≡ bind_selected scale heap answers e c
  unfolding input_handler get_interface
  key_enter-bind_selected place chosen inside here =
      let active = up.popup in let kind = up.kind in ground arith

selected_index_lem :
    (v : ScrollView) (row : ℕ)
    → v.cursor ≡ pos row
    → v.head + row < 2 ^ 32
    → selected_index v ≡ v.head + row
selected_index_lem v row cursor fits = rw cursor (omega arith)

-- With the list of interfaces open, scrolled to any entry, its names ended by a null one, and the cursor on the row
-- of a named entry of the list that has an index: the new line makes that entry the bound interface, under a copy
-- of its name, notifies the network thread once, and closes the popup, which frees the list and gives the main
-- window the keys, and nothing else changes.
pub input_handler-closed_popup :
    (scale : ℕ → ℕ → ℕ) (heap : Heap) (answers : PopupAnswers) (c : AppContext)
    (entries : List IfEntry) (e : IfEntry) (name : List ℕ) (row : ℕ)
    → IsUp interfaces_list c.screen
    → c.screen.popup_list ≡ some entries
    → free_names entries ≡ ok tt
    → c.screen.interfaces.view.cursor ≡ pos row
    → c.screen.interfaces.view.head + row < c.screen.interfaces.view.count
    → c.screen.interfaces.view.count < 2 ^ 32
    → at entries (c.screen.interfaces.view.head + row) ≡ ok e
    → e.if_index ≢ 0
    → e.if_name ≡ some name
    → input_handler scale heap answers key_enter c
      ≡ ok (record c {
        screen = closed_popup c.screen;
        binded_interface = record { if_index = e.if_index; if_name = answers.strdup (some name) };
        bind_updates = c.bind_updates + 1;
      })
input_handler-closed_popup scale heap answers c entries e name row up listed ends cursor inside fits
      here real named =
    let view = c.screen.interfaces.view in
    key_enter-bind_selected scale heap answers c entries e name up listed ends real named
      (view.head + row) (selected_index_lem view row cursor (omega arith)) inside here
    ∙ bind_selected_lem scale heap answers c entries e name up listed ends real named
