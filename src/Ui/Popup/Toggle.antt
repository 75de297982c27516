-- ===== src/Ui/Popup/Toggle.antt =====
-- The key that opens the popup closes it.
use net_det.Prelude.{
  ℕ, ◌<◌, ◌≡◌, refl, ◌∙◌, ◌⊎◌, inl, inr, true, false, Option, none, some, List, [], arith, ok,
  fault, null_dereference,
}
use net_det.Prelude.Int.{pos}
use net_det.Core.Device.{Heap}
use net_det.Common.Error.{main_error}
use net_det.App.Process.{app_err_if_nameindex}
use net_det.Ui.ScrollView.{scroll_view_configure}
use net_det.Ui.ScrollView.Moves.{rows}
use net_det.Ui.Screen.{
  PopupType, interfaces_list, inspect_list, Screen, IfEntry, PopupAnswers, same_type,
}
use net_det.Ui.Interfaces.{copied_list, prepare_interface_list, interfaces_list_clean_up}
use net_det.Ui.Templates.{PopupLine, draw_popup}
use net_det.Ui.Drawing.Unlisted.{draw_popup-unlisted}
use net_det.Ui.Drawing.Inspected.{IsInspectable, HasBlocks, draw_popup-inspected}
use net_det.Ui.Popup.{
  data_init, data_cleanup, popup_init, popup_clean_up, set_up_popup, close_popup,
  popup_window_action,
}
use net_det.Ui.Popup.Opened.{
  IsClosed, IsUp, IsOpen, CanClose, opened_popup, opened_popup-IsOpen, close_popup-IsClosed,
  free_names-copied_list, open_popup_faults, same_type_refl, opened_popup_refused,
  popup_window_action-open_popup, open_popup-opened_popup,
}
use net_det.Ui.Popup.Listing.{popup_window_action-opened_popup}

module _ (scale : ℕ → ℕ → ℕ) (heap : Heap) (bound : IfEntry) (answers : PopupAnswers)
    (t : PopupType) (dev : Option ℕ) (s : Screen) where
  pub popup_window_action-close_popup :
      IsUp t s → popup_window_action scale heap bound answers t dev s ≡ close_popup s
  unfolding popup_window_action
  popup_window_action-close_popup o = rw (o.hidden, o.popup, o.kind, same_type_refl t)

  popup_window_action_other :
      (other : PopupType)
      → IsUp t s
      → same_type t other ≡ false
      → popup_window_action scale heap bound answers other dev s ≡ ok s
  unfolding popup_window_action
  popup_window_action_other other o differs = rw (o.hidden, o.popup, o.kind, differs)

close_popup_null :
    (s : Screen)
    → s.popup_type ≡ interfaces_list
    → s.popup_list ≡ none
    → close_popup s ≡ fault null_dereference
unfolding close_popup data_cleanup interfaces_list_clean_up popup_clean_up
close_popup_null s kind no_list = rw (kind, no_list)

-- What opening the popup needs: the interfaces can be listed, or the device can be drawn, in six lines.
abbrev pub CanOpen : PopupType → PopupAnswers → Heap → Option ℕ → Screen → Type 0
CanOpen interfaces_list answers heap dev s =
    (entries : List IfEntry) × (answers.if_nameindex ≡ some entries) × (answers.calloc ≡ true)
CanOpen inspect_list answers heap dev s = IsInspectable heap dev × (s.inspect.data_count ≡ pos 6)

module _ (scale : ℕ → ℕ → ℕ) (heap : Heap) (bound : IfEntry) (answers : PopupAnswers)
    (dev : Option ℕ) (s : Screen) (blocks : HasBlocks scale) where
  set_up_inspected :
      IsInspectable heap dev
      → s.inspect.data_count ≡ pos 6
      → (lines : List PopupLine) × (draw_popup scale heap bound
            (set_up_popup answers inspect_list dev s)
          ≡ ok lines)
  unfolding set_up_popup popup_init data_init scroll_view_configure
  set_up_inspected x six =
      draw_popup-inspected scale heap bound (set_up_popup answers inspect_list dev s) x blocks refl
        (rw six (omega arith))

  popup_window_action_opens :
      (t : PopupType)
      → s.is_visible ≡ true
      → CanOpen t answers heap dev s
      → popup_window_action scale heap bound answers t dev s ≡ ok (opened_popup answers t dev s)
  popup_window_action_opens interfaces_list visible (entries, found, memory) =
      popup_window_action-opened_popup answers dev s entries found memory scale heap bound visible
  popup_window_action_opens inspect_list visible (x, six) =
      let (lines, draws) = set_up_inspected x six in
      popup_window_action-open_popup scale heap bound answers inspect_list dev s visible
      ∙ open_popup-opened_popup scale heap bound answers inspect_list dev s lines draws

opened_popup-CanClose :
    (t : PopupType) (answers : PopupAnswers) (heap : Heap) (dev : Option ℕ) (s : Screen)
    → s.popup_list ≡ none
    → CanOpen t answers heap dev s
    → CanClose t (opened_popup answers t dev s)
unfolding set_up_popup popup_init data_init prepare_interface_list
opened_popup-CanClose interfaces_list answers heap dev s no_list (entries, listed, memory) =
    rw (listed, memory)
      (copied_list answers.strdup entries, refl, free_names-copied_list answers.strdup entries)
opened_popup-CanClose inspect_list answers heap dev s no_list can = no_list

-- With no popup, where a rate has one of the eight blocks, and the interfaces can be listed, or the device is in
-- memory with 60 rates and a ring that does not stand at place 0, and six lines: the key opens the popup, with the
-- keys and its view at its first entry; then the key of the other popup does nothing, and the same key meets no
-- fault and closes it, which frees the list and gives the main window the keys.
pub popup_window_action-toggle :
    (scale : ℕ → ℕ → ℕ) (heap heap' : Heap) (bound bound' : IfEntry) (answers later : PopupAnswers)
    (t other : PopupType) (dev any : Option ℕ) (s : Screen)
    → HasBlocks scale
    → IsClosed s
    → CanOpen t answers heap dev s
    → same_type t other ≡ false
    → (opened : Screen) × (popup_window_action scale heap bound answers t dev s ≡ ok opened)
      × IsOpen t opened
      × (popup_window_action scale heap' bound' later other any opened ≡ ok opened)
      × ((closed : Screen) × (popup_window_action scale heap' bound' later t any opened ≡ ok closed)
          × IsClosed closed)
popup_window_action-toggle scale heap heap' bound bound' answers later t other dev any s blocks
      closed can differs =
    let opened = opened_popup answers t dev s in
    let is_open = opened_popup-IsOpen answers t dev s in
    let (after, closes, is_closed) =
      close_popup-IsClosed t opened is_open.up.kind
        (opened_popup-CanClose t answers heap dev s closed.no_list can) in
    (
      opened,
      popup_window_action_opens scale heap bound answers dev s blocks t closed.visible can,
      is_open,
      popup_window_action_other scale heap' bound' later t any opened other is_open.up differs,
      (
        after,
        popup_window_action-close_popup scale heap' bound' later t any opened is_open.up ∙ closes,
        is_closed,
      ),
    )

-- With no popup, where if_nameindex fails: the key for the interfaces reads the list through a null pointer, if an
-- earlier list has left the view of the popup a row that shows an entry; if the view has no such row, the key
-- opens a popup without a list, the error is kept, and pressing the key again reads the list through a null
-- pointer.
pub popup_window_action-null :
    (scale : ℕ → ℕ → ℕ) (heap heap' : Heap) (bound bound' : IfEntry) (answers later : PopupAnswers)
    (dev any : Option ℕ) (s : Screen)
    → IsClosed s
    → answers.if_nameindex ≡ none
    → ((0 < rows (set_up_popup answers interfaces_list dev s).interfaces.view)
        × (popup_window_action scale heap bound answers interfaces_list dev s
            ≡ fault null_dereference))
      ⊎ ((rows (set_up_popup answers interfaces_list dev s).interfaces.view ≡ 0)
          × ((opened : Screen) × (popup_window_action scale heap bound answers interfaces_list dev s
                ≡ ok opened)
              × (opened.process ≡ main_error app_err_if_nameindex answers.errno s.process)
              × (popup_window_action scale heap' bound' later interfaces_list any opened
                  ≡ fault null_dereference)))
popup_window_action-null scale heap heap' bound bound' answers later dev any s closed refused =
    let is_open = opened_popup-IsOpen answers interfaces_list dev s in
    let opened = opened_popup answers interfaces_list dev s in
    let (no_list, told) = opened_popup_refused answers dev s closed.no_list refused in
    let opens =
      popup_window_action-open_popup scale heap bound answers interfaces_list dev s
        closed.visible in
    elim (draw_popup-unlisted scale heap bound (set_up_popup answers interfaces_list dev s)
      is_open.up.kind no_list is_open.head) [
        | inl (some_row, faults) ↦ inl (
          some_row,
          opens
              ∙ open_popup_faults scale heap bound answers interfaces_list dev s null_dereference
                  faults,
        )
        | inr (no_row, draws) ↦ inr (
          no_row,
          (
            opened,
            opens ∙ open_popup-opened_popup scale heap bound answers interfaces_list dev s [] draws,
            told,
            popup_window_action-close_popup scale heap' bound' later interfaces_list any opened
                  is_open.up
                ∙ close_popup_null opened is_open.up.kind no_list,
          ),
        )
      ]
