-- ===== src/Ui/Popup/Listing.antt =====
-- The key of the list of interfaces, where they can be listed.
use mathlib.Core.Path.{subst}
use net_det.Prelude.{
  ℕ, zero, suc, ◌+◌, ◌^◌, ◌≤◌, ◌<◌, ◌≡◌, refl, sym, ap, ◌∙◌, inl, inr, true, false, Option, some,
  List, [], ◌∷◌, arith, length, get_or, ok,
}
use net_det.Core.Device.{Heap}
use net_det.Ui.Drawing.Lines.{draw_popup-listed}
use net_det.Prelude.Int.{pos}
use net_det.Ui.ScrollView.{scroll_view_configure}
use net_det.Ui.Screen.{all_name, interfaces_list, IfEntry, Screen, PopupAnswers}
use net_det.Ui.Interfaces.{copied_list, prepare_interface_list}
use net_det.Ui.Popup.{popup_init, data_init, set_up_popup, popup_window_action}
use net_det.Ui.Templates.{draw_popup}
use net_det.Ui.Popup.Opened.{
  free_names-copied_list, opened_popup, popup_window_action-open_popup, open_popup-opened_popup,
}
use net_det.Ui.Popup.Settled.{
  no_entry, HasName, IsListOpen, IsSettled, close_popup-IsShut, popup_window_action-close,
}

-- What opening the list needs: `if_nameindex`, `calloc` and `strdup` find what they are asked for.
pub record CanList (answers : PopupAnswers) : Type 0 where
  pub entries : List IfEntry
  pub found : answers.if_nameindex ≡ some entries
  pub memory : answers.calloc ≡ true
  pub few : length entries + 1 < 2 ^ 31
  pub named :
      (i : ℕ) → i < length entries → HasName (answers.strdup (get_or entries i no_entry).if_name)
  pub all_named : HasName (answers.strdup all_name)

-- The names of the copied list.
copied_list-length :
    (strdup : Option (List ℕ) → Option (List ℕ)) (entries : List IfEntry)
    → length (copied_list strdup entries) ≡ length entries + 2
unfolding copied_list
copied_list-length strdup [] = omega arith
copied_list-length strdup (e ∷ es) = omega (arith, copied_list-length strdup es)

copied_list-HasName :
    (strdup : Option (List ℕ) → Option (List ℕ)) (entries : List IfEntry)
    → ((i : ℕ) → i < length entries → HasName (strdup (get_or entries i no_entry).if_name))
    → HasName (strdup all_name)
    → (i : ℕ) → i < length entries + 1
    → HasName (get_or (copied_list strdup entries) i no_entry).if_name
unfolding copied_list
copied_list-HasName strdup [] each last zero below = last
copied_list-HasName strdup [] each last (suc i) below = absurd (omega arith)
copied_list-HasName strdup (e ∷ es) each last zero below = each 0 (omega arith)
copied_list-HasName strdup (e ∷ es) each last (suc i) below =
    copied_list-HasName strdup es (λ j inside. each (suc j) (omega arith)) last i (omega arith)

module _ (answers : PopupAnswers) (dev : Option ℕ) (s : Screen) (entries : List IfEntry)
    (found : answers.if_nameindex ≡ some entries) (memory : answers.calloc ≡ true) where
  -- The screen before the interfaces are listed, and after.
  abbrev begun : Screen
  begun =
      record (popup_init answers interfaces_list
        (record s { main_window = record s.main_window { is_active = false } })) {
          interfaces = record s.interfaces { args = dev };
        }

  abbrev entries_copied : List IfEntry
  entries_copied = copied_list answers.strdup entries

  abbrev listed : Screen
  listed = record begun {
    popup_list = some entries_copied;
    interfaces = record s.interfaces { args = dev; data_count = pos (length entries + 1) };
  }

  prepare_interface_list-listed : prepare_interface_list answers begun ≡ listed
  unfolding prepare_interface_list popup_init
  prepare_interface_list-listed = rw (found, memory)

  abbrev viewed : Screen → Screen
  viewed c = record c {
    interfaces = record c.interfaces {
      view =
          record (scroll_view_configure c.interfaces.view c.interfaces.data_count
            c.popup_window.height) { head = 0; cursor = pos 0 };
    };
  }

  set_up_popup-viewed : set_up_popup answers interfaces_list dev s ≡ viewed listed
  unfolding set_up_popup popup_init data_init
  set_up_popup-viewed = ap viewed prepare_interface_list-listed

  viewed_inside : (viewed listed).interfaces.view.count ≤ length entries_copied
  unfolding scroll_view_configure
  viewed_inside = omega (arith, copied_list-length answers.strdup entries)

  pub popup_window_action-opened_popup :
      (scale : ℕ → ℕ → ℕ) (heap : Heap) (bound : IfEntry)
      → s.is_visible ≡ true
      → popup_window_action scale heap bound answers interfaces_list dev s
        ≡ ok (opened_popup answers interfaces_list dev s)
  unfolding popup_init
  popup_window_action-opened_popup scale heap bound visible =
      let (lines, draws) =
        draw_popup-listed scale heap bound (viewed listed) entries_copied refl refl viewed_inside in
      popup_window_action-open_popup scale heap bound answers interfaces_list dev s visible
      ∙ open_popup-opened_popup scale heap bound answers interfaces_list dev s lines
          (ap (draw_popup scale heap bound) set_up_popup-viewed ∙ draws)

module _ (answers : PopupAnswers) (dev : Option ℕ) (s : Screen) (can : CanList answers) where
  abbrev list_viewed : Screen
  list_viewed =
      viewed answers dev s can.entries can.found can.memory
        (listed answers dev s can.entries can.found can.memory)

  viewed-IsListOpen : IsListOpen (record list_viewed { is_visible = false })
  unfolding popup_init scroll_view_configure
  viewed-IsListOpen = record {
    entries = copied_list answers.strdup can.entries;
    size = length can.entries + 1;
    active = refl;
    kind = refl;
    hidden = refl;
    listed = refl;
    counted = refl;
    inside = omega (arith, copied_list-length answers.strdup can.entries);
    view = omega arith;
    ended = free_names-copied_list answers.strdup can.entries;
    named = copied_list-HasName answers.strdup can.entries can.named can.all_named;
  }

  opened_popup-IsListOpen :
      IsListOpen (opened_popup answers interfaces_list dev s)
      × ((opened_popup answers interfaces_list dev s).process ≡ s.process)
  unfolding popup_init
  opened_popup-IsListOpen =
      subst (λ x. IsListOpen (record x { is_visible = false }) × (x.process ≡ s.process))
        (sym (set_up_popup-viewed answers dev s can.entries can.found can.memory))
        (viewed-IsListOpen, refl)

-- The key of the list opens it, or closes it.
pub popup_window_action-IsSettled :
    (scale : ℕ → ℕ → ℕ) (heap : Heap) (bound : IfEntry) (answers : PopupAnswers) (dev : Option ℕ)
    (s : Screen)
    → IsSettled s
    → CanList answers
    → (s' : Screen) × (popup_window_action scale heap bound answers interfaces_list dev s ≡ ok s')
      × IsSettled s'
      × (s'.process ≡ s.process)
popup_window_action-IsSettled scale heap bound answers dev s (inl shut) can =
    let (is_open, same) = opened_popup-IsListOpen answers dev s can in
    (
      opened_popup answers interfaces_list dev s,
      popup_window_action-opened_popup answers dev s can.entries can.found can.memory scale heap
          bound shut.visible,
      inr is_open,
      same,
    )
popup_window_action-IsSettled scale heap bound answers dev s (inr o) can =
    let (s', closes, shut, same) = close_popup-IsShut s o in
    (s', popup_window_action-close scale heap bound answers dev s o ∙ closes, inl shut, same)
