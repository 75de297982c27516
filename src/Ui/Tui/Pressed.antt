-- ===== src/Ui/Tui/Pressed.antt =====
-- What the keys do to the popup and to the bound interface.
use net_det.Prelude.{
  ℕ, ◌+◌, ◌<◌, ◌≡◌, refl, ◌∙◌, inl, inr, true, false, Bool-cases, none, some, arith, get_or, List,
  Run, ok, at-get_or, ltb, ◌==◌,
}
use net_det.Core.Device.{Heap}
use net_det.Ui.Screen.{IfEntry, PopupAnswers}
use net_det.Ui.Interfaces.{get_interface}
use net_det.Ui.Popup.Settled.{
  no_entry, IsListOpen, IsSettled, close_popup-IsShut, popup_window_action-close,
}
use net_det.Ui.Popup.Listing.{CanList, popup_window_action-IsSettled}
use net_det.Ui.Tui.{
  AppContext, Input, key_down, key_up, key_b, key_i, key_enter, other_key, selected_index,
  input_handler, bind_selected, set_bound_interface, bind_update_notify,
}

-- What the keys that open the list of interfaces, and choose from it, need: that the interfaces can be listed
-- and named. The key for the device's popup is left out.
unfoldable pub IsPressed : Input → PopupAnswers → Type 0
IsPressed key_down answers = Unit
IsPressed key_up answers = Unit
IsPressed key_b answers = CanList answers
IsPressed key_i answers = ⊥
IsPressed key_enter answers = Unit
IsPressed other_key answers = Unit

-- The key meets no fault, and changes the popup and the bound interface alone.
abbrev pub KeepsSettled : AppContext → Run AppContext → Type 0
KeepsSettled c run =
    (c' : AppContext) × (run ≡ ok c')
    × IsSettled c'.screen
    × (c'.screen.process ≡ c.screen.process)
    × (c'.buffer ≡ c.buffer)

pub key_b-KeepsSettled :
    (scale : ℕ → ℕ → ℕ) (heap : Heap) (answers : PopupAnswers) (c : AppContext)
    → IsSettled c.screen
    → CanList answers
    → KeepsSettled c (input_handler scale heap answers key_b c)
unfolding input_handler
key_b-KeepsSettled scale heap answers c x can =
    let (s', acts, x', same) =
      popup_window_action-IsSettled scale heap c.binded_interface answers none c.screen x can in
    (record c { screen = s' }, rw acts, x', same, refl)

module _ (scale : ℕ → ℕ → ℕ) (heap : Heap) (answers : PopupAnswers) (c : AppContext)
    (o : IsListOpen c.screen) where
  -- An entry of the list becomes the bound interface, and the list is closed, if the entry has an index.
  bind_selected-KeepsSettled :
      (e : IfEntry) (name : List ℕ)
      → e.if_name ≡ some name
      → KeepsSettled c (bind_selected scale heap answers e c)
  unfolding bind_selected set_bound_interface bind_update_notify
  bind_selected-KeepsSettled e name named = elim (Bool-cases (e.if_index == 0)) [
    | inl nothing ↦ (c, rw nothing, inr o, refl, refl)
    | inr real ↦
        let (s', closes, shut, same) = close_popup-IsShut c.screen o in
        let named_entry : IfEntry = record {
          if_index = e.if_index;
          if_name = answers.strdup (some name);
        } in
        let acts =
          popup_window_action-close scale heap named_entry answers none c.screen o ∙ closes in
        (
          record c {
            screen = s';
            binded_interface = record {
              if_index = e.if_index;
              if_name = answers.strdup (some name);
            };
            bind_updates = c.bind_updates + 1;
          },
          rw (real, named, acts),
          inl shut,
          same,
          refl,
        )
  ]

  abbrev selected : ℕ
  selected = selected_index c.screen.interfaces.view

  abbrev entry : IfEntry
  entry = get_or o.entries selected no_entry

  key_enter-bind_selected :
      selected < c.screen.interfaces.view.count
      → input_handler scale heap answers key_enter c ≡ bind_selected scale heap answers entry c
  unfolding input_handler get_interface
  key_enter-bind_selected below =
      let test : ltb selected c.screen.interfaces.view.count ≡ true = ground arith in
      let here = at-get_or o.entries selected no_entry (omega (arith, o.view, o.inside)) in
      simp (o.active, o.kind, test, o.listed, here)

  key_enter-past :
      ltb selected c.screen.interfaces.view.count ≡ false
      → input_handler scale heap answers key_enter c ≡ ok c
  unfolding input_handler
  key_enter-past past = simp (o.active, o.kind, past)

  key_enter_listed : KeepsSettled c (input_handler scale heap answers key_enter c)
  key_enter_listed = elim (Bool-cases (ltb selected c.screen.interfaces.view.count)) [
    | inr past ↦ (c, key_enter-past past, inr o, refl, refl)
    | inl test ↦
        let below : selected < c.screen.interfaces.view.count = ground arith in
        let (name, named) = o.named selected (omega (arith, o.view)) in
        let (c', binds, x, process, table) = bind_selected-KeepsSettled entry name named in
        (c', key_enter-bind_selected below ∙ binds, x, process, table)
  ]

pub key_enter-KeepsSettled :
    (scale : ℕ → ℕ → ℕ) (heap : Heap) (answers : PopupAnswers) (c : AppContext)
    → IsSettled c.screen
    → KeepsSettled c (input_handler scale heap answers key_enter c)
unfolding input_handler
key_enter-KeepsSettled scale heap answers c (inl shut) =
    (c, simp shut.inactive, inl shut, refl, refl)
key_enter-KeepsSettled scale heap answers c (inr o) = key_enter_listed scale heap answers c o
