-- ===== src/Ui/Popup/Opened.antt =====
-- What opening the popup and closing it leave behind.
use net_det.Prelude.{
  Fault, fault, arith, ◌>>=◌, not, ◌&&◌, if◌then◌else◌, ℕ, ◌≡◌, refl, ap, true, false, Option, none,
  some, List, [], ◌∷◌, ok,
}
use net_det.Core.Device.{Heap}
use net_det.Ui.Templates.{PopupLine, draw_popup}
use net_det.Prelude.Int.{pos}
use net_det.Common.Error.{main_error}
use net_det.App.Process.{app_err_if_nameindex}
use net_det.Ui.Screen.{
  all_name, PopupType, interfaces_list, inspect_list, Screen, IfEntry, PopupAnswers,
  get_popup_descriptor, set_popup_descriptor, same_type,
}
use net_det.Ui.Interfaces.{
  copied_list, free_names, interfaces_list_clean_up, prepare_interface_list,
}
use net_det.Ui.Popup.{
  data_init, data_cleanup, popup_init, popup_clean_up, set_up_popup, open_popup, close_popup,
  popup_window_action,
}

-- No popup: the main window has the keys, and no handle and no list of interfaces is kept.
pub record IsClosed (s : Screen) : Type 0 where
  pub main : s.main_window.is_active ≡ true
  pub popup : s.popup_window.is_active ≡ false
  pub window : s.popup_window.window ≡ none
  pub panel : s.popup_window.panel ≡ none
  pub no_list : s.popup_list ≡ none
  pub visible : s.is_visible ≡ true

-- A popup of this type that has the keys.
pub record IsUp (t : PopupType) (s : Screen) : Type 0 where
  pub main : s.main_window.is_active ≡ false
  pub popup : s.popup_window.is_active ≡ true
  pub kind : s.popup_type ≡ t
  pub hidden : s.is_visible ≡ false

-- Its view starts at its first entry.
pub record IsOpen (t : PopupType) (s : Screen) : Type 0 where
  pub up : IsUp t s
  pub head : (get_popup_descriptor t s).view.head ≡ 0
  pub cursor : (get_popup_descriptor t s).view.cursor ≡ pos 0

-- Freeing the list that opening the popup made meets its null name.
pub free_names-copied_list :
    (strdup : Option (List ℕ) → Option (List ℕ)) (entries : List IfEntry)
    → free_names (copied_list strdup entries) ≡ ok tt
unfolding free_names copied_list
free_names-copied_list strdup [] =
    elim (strdup all_name)
      as (λ o.
        free_names (
          record { if_index = 4_294_967_295; if_name = o }
          ∷ record { if_index = 0; if_name = none }
          ∷ [])
        ≡ ok tt) [ none ↦ refl | some name ↦ refl ]
free_names-copied_list strdup (e ∷ es) =
    elim (strdup e.if_name)
      as (λ o.
        free_names (record { if_index = e.if_index; if_name = o } ∷ copied_list strdup es)
        ≡ ok tt) [ none ↦ refl | some name ↦ free_names-copied_list strdup es ]

-- Listing the interfaces leaves the windows alone.
prepare_interface_list-windows :
    (answers : PopupAnswers) (s : Screen)
    → ((prepare_interface_list answers s).main_window ≡ s.main_window)
      × ((prepare_interface_list answers s).popup_window ≡ s.popup_window)
      × ((prepare_interface_list answers s).popup_type ≡ s.popup_type)
unfolding prepare_interface_list
prepare_interface_list-windows answers s = ground arith

-- The popup that opening leaves, where it is drawn without a fault.
abbrev pub opened_popup : PopupAnswers → PopupType → Option ℕ → Screen → Screen
opened_popup answers t dev s = record (set_up_popup answers t dev s) { is_visible = false }

module _ (scale : ℕ → ℕ → ℕ) (heap : Heap) (bound : IfEntry) (answers : PopupAnswers)
    (t : PopupType) (dev : Option ℕ) (s : Screen) where
  pub popup_window_action-open_popup :
      s.is_visible ≡ true
      → popup_window_action scale heap bound answers t dev s
        ≡ open_popup scale heap bound answers t dev s
  unfolding popup_window_action
  popup_window_action-open_popup visible =
      ap
        (λ v.
          if v
          then open_popup scale heap bound answers t dev s
          else (if s.popup_window.is_active && not (same_type s.popup_type t)
              then ok s
              else close_popup s))
        visible

  pub open_popup-opened_popup :
      (lines : List PopupLine)
      → draw_popup scale heap bound (set_up_popup answers t dev s) ≡ ok lines
      → open_popup scale heap bound answers t dev s ≡ ok (opened_popup answers t dev s)
  unfolding open_popup
  open_popup-opened_popup lines draws =
      ap (λ r. r >>= λ lines. ok (opened_popup answers t dev s)) draws

  pub open_popup_faults :
      (e : Fault)
      → draw_popup scale heap bound (set_up_popup answers t dev s) ≡ fault e
      → open_popup scale heap bound answers t dev s ≡ fault e
  unfolding open_popup
  open_popup_faults e faults = ap (λ r. r >>= λ lines. ok (opened_popup answers t dev s)) faults

pub opened_popup-IsOpen :
    (answers : PopupAnswers) (t : PopupType) (dev : Option ℕ) (s : Screen)
    → IsOpen t (opened_popup answers t dev s)
unfolding set_up_popup popup_init data_init
opened_popup-IsOpen answers interfaces_list dev s =
    let (main, popup, kind) = prepare_interface_list-windows answers (
      set_popup_descriptor interfaces_list
        (record (get_popup_descriptor interfaces_list s) { args = dev })
        (popup_init answers interfaces_list
          (record s { main_window = record s.main_window { is_active = false } }))) in
    record {
      up = record {
        main = ap (λ w. w.is_active) main;
        popup = ap (λ w. w.is_active) popup;
        kind = kind;
        hidden = refl;
      };
      head = refl;
      cursor = refl;
    }
opened_popup-IsOpen answers inspect_list dev s = record {
  up = record { main = refl; popup = refl; kind = refl; hidden = refl };
  head = refl;
  cursor = refl;
}

-- The screen without the popup and the list of interfaces, with the keys at the main window.
abbrev pub closed_popup : Screen → Screen
closed_popup s = record s {
  main_window = record s.main_window { is_active = true };
  popup_window = record {
    is_active = false;
    width = pos 0;
    height = pos 0;
    start_x = pos 0;
    start_y = pos 0;
    window = none;
    panel = none;
  };
  popup_list = none;
  is_visible = true;
}

pub close_popup-closed_popup :
    (s : Screen) (entries : List IfEntry)
    → s.popup_type ≡ interfaces_list
    → s.popup_list ≡ some entries
    → free_names entries ≡ ok tt
    → close_popup s ≡ ok (closed_popup s)
unfolding close_popup popup_clean_up data_cleanup interfaces_list_clean_up
close_popup-closed_popup s entries kind listed ends = rw (kind, listed, ends)

-- What closing a popup needs of the list of interfaces: a popup of interfaces has one that ends.
abbrev pub CanClose : PopupType → Screen → Type 0
CanClose interfaces_list s =
    (entries : List IfEntry) × (s.popup_list ≡ some entries) × (free_names entries ≡ ok tt)
CanClose inspect_list s = s.popup_list ≡ none

pub close_popup-IsClosed :
    (t : PopupType) (s : Screen)
    → s.popup_type ≡ t
    → CanClose t s
    → (s' : Screen) × (close_popup s ≡ ok s') × IsClosed s'
unfolding close_popup popup_clean_up data_cleanup interfaces_list_clean_up
close_popup-IsClosed interfaces_list s kind (entries, listed, ends) = (
  record (popup_clean_up (record s { main_window = record s.main_window { is_active = true } })) {
    popup_list = none;
    is_visible = true;
  },
  rw (kind, listed, ends),
  record { main = refl; popup = refl; window = refl; panel = refl; no_list = refl; visible = refl },
)
close_popup-IsClosed inspect_list s kind no_list = (
  record (popup_clean_up (record s { main_window = record s.main_window { is_active = true } })) {
    is_visible = true;
  },
  rw kind,
  record {
    main = refl;
    popup = refl;
    window = refl;
    panel = refl;
    no_list = no_list;
    visible = refl;
  },
)

pub same_type_refl : (t : PopupType) → same_type t t ≡ true
same_type_refl interfaces_list = refl
same_type_refl inspect_list = refl

pub opened_popup_refused :
    (answers : PopupAnswers) (dev : Option ℕ) (s : Screen)
    → s.popup_list ≡ none
    → answers.if_nameindex ≡ none
    → ((opened_popup answers interfaces_list dev s).popup_list ≡ none)
      × ((opened_popup answers interfaces_list dev s).process
          ≡ main_error app_err_if_nameindex answers.errno s.process)
unfolding set_up_popup popup_init data_init prepare_interface_list
opened_popup_refused answers dev s no_list refused = rw refused (no_list, refl)
