-- ===== src/Ui/Tui/Settled.antt =====
-- The popup on a terminal of another size.
use mathlib.Core.Path.{subst}
use net_det.Prelude.{ℕ, ◌≤◌, ◌≡◌, refl, sym, ap, ◌∙◌, inl, inr, arith, if◌then◌else◌}
use net_det.Prelude.Int.{ℤ, pos, ◌-ℤ◌, to_uint32}
use net_det.Ui.ScrollView.{ScrollView, scroll_view_configure}
use net_det.Ui.Screen.{
  interfaces_list, Screen, WindowData, get_popup_descriptor, set_popup_descriptor,
}
use net_det.Ui.Popup.{place_popup}
use net_det.Ui.Popup.Settled.{IsListOpen, IsSettled, with_view}
use net_det.Ui.Tui.{AppContext, resize_popup, resize_handler}

place_popup_active :
    (main popup : WindowData) → (place_popup main popup).is_active ≡ popup.is_active
unfolding place_popup
place_popup_active main popup = ground arith

configure_short :
    (v : ScrollView) (data_count height : ℤ) (n : ℕ)
    → data_count ≡ pos n
    → (scroll_view_configure v data_count height).count ≤ n
unfolding scroll_view_configure
configure_short v data_count height n counted =
    subst (λ k. to_uint32 k ≤ n) (sym counted) (omega arith)

-- The list in a window of another size.
abbrev resized : Screen → Screen
resized s =
    let placed : Screen = record s { popup_window = place_popup s.main_window s.popup_window } in
    with_view
      (scroll_view_configure s.interfaces.view s.interfaces.data_count placed.popup_window.height)
      placed

resize_popup-resized : (s : Screen) → s.popup_type ≡ interfaces_list → resize_popup s ≡ resized s
unfolding resize_popup
resize_popup-resized s kind =
    let placed : Screen = record s { popup_window = place_popup s.main_window s.popup_window } in
    ap
      (λ t.
        let d = get_popup_descriptor t placed in
        set_popup_descriptor t
          (record d { view = scroll_view_configure d.view d.data_count placed.popup_window.height })
          placed)
      kind

-- The popup takes its place in a window of another size.
pub resize_popup-IsListOpen :
    (s : Screen)
    → IsListOpen s
    → IsListOpen (resize_popup s) × ((resize_popup s).process ≡ s.process)
resize_popup-IsListOpen s o =
    let is_open : IsListOpen (resized s) = record {
      entries = o.entries;
      size = o.size;
      active = place_popup_active s.main_window s.popup_window ∙ o.active;
      kind = o.kind;
      hidden = o.hidden;
      listed = o.listed;
      counted = o.counted;
      inside = o.inside;
      view =
          configure_short s.interfaces.view s.interfaces.data_count
            (place_popup s.main_window s.popup_window).height o.size o.counted;
      ended = o.ended;
      named = o.named;
    } in
    subst (λ x. IsListOpen x × (x.process ≡ s.process)) (sym (resize_popup-resized s o.kind))
      (is_open, refl)

main_window-IsListOpen :
    (w : WindowData) (s : Screen) → IsListOpen s → IsListOpen (record s { main_window = w })
main_window-IsListOpen w s o = record {
  entries = o.entries;
  size = o.size;
  active = o.active;
  kind = o.kind;
  hidden = o.hidden;
  listed = o.listed;
  counted = o.counted;
  inside = o.inside;
  view = o.view;
  ended = o.ended;
  named = o.named;
}

abbrev popup_resized : Screen → Screen
popup_resized s = if s.popup_window.is_active then resize_popup s else s

popup_resized-IsSettled :
    (s : Screen)
    → IsSettled s
    → IsSettled (popup_resized s) × ((popup_resized s).process ≡ s.process)
popup_resized-IsSettled s (inl shut) =
    let same : popup_resized s ≡ s = rw (popup_resized, shut.inactive) in
    subst (λ x. IsSettled x × (x.process ≡ s.process)) (sym same) (inl shut, refl)
popup_resized-IsSettled s (inr o) =
    let same : popup_resized s ≡ resize_popup s = rw (popup_resized, o.active) in
    let (is_open, process) = resize_popup-IsListOpen s o in
    subst (λ x. IsSettled x × (x.process ≡ s.process)) (sym same) (inr is_open, process)

-- The screen with its main window in the terminal's new size.
abbrev widened : ℤ → ℤ → Screen → Screen
widened lines cols s = record s {
  main_window = record s.main_window { height = lines -ℤ pos 10; width = cols -ℤ pos 10 };
}

resize_handler-screen :
    (lines cols : ℤ) (c : AppContext)
    → (resize_handler lines cols c).screen ≡ popup_resized (widened lines cols c.screen)
unfolding resize_handler
resize_handler-screen lines cols c = refl

widened-IsSettled : (lines cols : ℤ) (s : Screen) → IsSettled s → IsSettled (widened lines cols s)
widened-IsSettled lines cols s (inl shut) =
    inl (record { inactive = shut.inactive; visible = shut.visible })
widened-IsSettled lines cols s (inr o) =
    inr (main_window-IsListOpen (widened lines cols s).main_window s o)

-- The popup, or its absence, outlasts a new size of the terminal.
pub resize_handler-IsSettled :
    (lines cols : ℤ) (c : AppContext)
    → IsSettled c.screen
    → IsSettled (resize_handler lines cols c).screen
      × ((resize_handler lines cols c).screen.process ≡ c.screen.process)
resize_handler-IsSettled lines cols c x =
    subst (λ s. IsSettled s × (s.process ≡ c.screen.process))
      (sym (resize_handler-screen lines cols c))
      (popup_resized-IsSettled (widened lines cols c.screen)
        (widened-IsSettled lines cols c.screen x))
