-- ===== src/Ui/Popup/Settled.antt =====
-- The popup while the program runs: there is none, or the list of interfaces is open.
use net_det.Prelude.{
  ℕ, ◌≤◌, ◌<◌, ◌≡◌, refl, ◌⊎◌, inl, inr, true, false, Option, none, some, List, arith, length,
  get_or, ok,
}
use net_det.Core.Device.{Heap}
use net_det.Prelude.Int.{ℤ, pos}
use net_det.Ui.ScrollView.{ScrollView, scroll_move, scroll_up, scroll_down}
use net_det.App.Process.{Process}
use net_det.Ui.Screen.{
  PopupType, interfaces_list, inspect_list, IfEntry, Screen, PopupAnswers, get_popup_descriptor,
  set_popup_descriptor,
}
use net_det.Ui.Interfaces.{free_names, interfaces_list_clean_up}
use net_det.Ui.Popup.{popup_clean_up, data_cleanup, close_popup, popup_window_action}

abbrev pub no_entry : IfEntry
no_entry = record { if_index = 0; if_name = none }

abbrev pub HasName : Option (List ℕ) → Type 0
HasName name = (text : List ℕ) × (name ≡ some text)

-- The list of interfaces is open: its entries up to `size` have names and a null name ends it, and the view is not longer.
pub record IsListOpen (s : Screen) : Type 0 where
  pub entries : List IfEntry
  pub size : ℕ
  pub active : s.popup_window.is_active ≡ true
  pub kind : s.popup_type ≡ interfaces_list
  pub hidden : s.is_visible ≡ false
  pub listed : s.popup_list ≡ some entries
  pub counted : s.interfaces.data_count ≡ pos size
  pub inside : size ≤ length entries
  pub view : s.interfaces.view.count ≤ size
  pub ended : free_names entries ≡ ok tt
  pub named : (i : ℕ) → i < size → HasName (get_or entries i no_entry).if_name

pub record IsShut (s : Screen) : Type 0 where
  pub inactive : s.popup_window.is_active ≡ false
  pub visible : s.is_visible ≡ true

abbrev pub IsSettled : Screen → Type 0
IsSettled s = IsShut s ⊎ IsListOpen s

-- The same list with another view, which is not longer.
abbrev pub with_view : ScrollView → Screen → Screen
with_view v s = record s { interfaces = record s.interfaces { view = v } }

pub with_view-IsListOpen :
    (v : ScrollView) (s : Screen) (o : IsListOpen s) → v.count ≤ o.size → IsListOpen (with_view v s)
with_view-IsListOpen v s o short = record {
  entries = o.entries;
  size = o.size;
  active = o.active;
  kind = o.kind;
  hidden = o.hidden;
  listed = o.listed;
  counted = o.counted;
  inside = o.inside;
  view = short;
  ended = o.ended;
  named = o.named;
}

scroll_move-count : (v : ScrollView) (direction : ℤ) → (scroll_move v direction).count ≡ v.count
unfolding scroll_move scroll_up scroll_down
scroll_move-count v direction = ground arith

abbrev moved : PopupType → ℤ → Screen → Screen
moved t direction s =
    set_popup_descriptor t
      (record (get_popup_descriptor t s) {
        view = scroll_move (get_popup_descriptor t s).view direction;
      })
      s

moved-IsSettled :
    (t : PopupType) (direction : ℤ) (s : Screen)
    → s.popup_type ≡ t
    → IsSettled s
    → IsSettled (moved t direction s)
moved-IsSettled interfaces_list direction s kind (inl shut) =
    inl (record { inactive = shut.inactive; visible = shut.visible })
moved-IsSettled interfaces_list direction s kind (inr o) =
    let v = scroll_move s.interfaces.view direction in
    let short : v.count ≤ o.size =
      omega (arith, scroll_move-count s.interfaces.view direction, o.view) in
    inr (with_view-IsListOpen v s o short)
moved-IsSettled inspect_list direction s kind (inl shut) =
    inl (record { inactive = shut.inactive; visible = shut.visible })
moved-IsSettled inspect_list direction s kind (inr o) = absurd (cc (kind, o.kind))

-- A step in the view of the popup that is open, or was last.
pub scrolled-IsSettled :
    (s : Screen) (direction : ℤ) → IsSettled s → IsSettled (moved s.popup_type direction s)
scrolled-IsSettled s direction x = moved-IsSettled s.popup_type direction s refl x

-- The statics change, and the popup stays.
pub process-IsSettled :
    (p : Process) (s : Screen) → IsSettled s → IsSettled (record s { process = p })
process-IsSettled p s (inl shut) = inl (record { inactive = shut.inactive; visible = shut.visible })
process-IsSettled p s (inr o) = inr (record {
  entries = o.entries;
  size = o.size;
  active = o.active;
  kind = o.kind;
  hidden = o.hidden;
  listed = o.listed;
  counted = o.counted;
  inside = o.inside;
  view = o.view;
  ended = o.ended;
  named = o.named;
})

-- Closing the list.
pub close_popup-IsShut :
    (s : Screen)
    → IsListOpen s
    → (s' : Screen) × (close_popup s ≡ ok s') × IsShut s' × (s'.process ≡ s.process)
unfolding close_popup popup_clean_up data_cleanup interfaces_list_clean_up
close_popup-IsShut s o = (
  record (popup_clean_up (record s { main_window = record s.main_window { is_active = true } })) {
    popup_list = none;
    is_visible = true;
  },
  rw (o.kind, o.listed, o.ended),
  record { inactive = refl; visible = refl },
  refl,
)

pub popup_window_action-close :
    (scale : ℕ → ℕ → ℕ) (heap : Heap) (bound : IfEntry) (answers : PopupAnswers) (dev : Option ℕ)
    (s : Screen)
    → IsListOpen s
    → popup_window_action scale heap bound answers interfaces_list dev s ≡ close_popup s
unfolding popup_window_action
popup_window_action-close scale heap bound answers dev s o = rw (o.hidden, o.active, o.kind)
