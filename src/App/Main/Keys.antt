-- ===== src/App/Main/Keys.antt =====
-- The keys, and the table of devices.
use mathlib.Core.List.{append-nil}
use mathlib.Core.Path.{subst}
use net_det.Prelude.{◌>>=◌, ℕ, ◌≤◌, ◌≡◌, refl, sym, ap, ◌∙◌, inl, inr, Bool-cases, []}
use net_det.Prelude.Int.{ℤ, pos, negsuc}
use net_det.Core.DeviceBuffer.{contents}
use net_det.Ui.ScrollView.{scroll_move}
use net_det.Ui.ScrollView.Within.{scroll_move_within}
use net_det.Ui.Screen.{
  PopupType, interfaces_list, inspect_list, Screen, PopupDescriptor, get_popup_descriptor,
  set_popup_descriptor,
}
use net_det.Ui.Tui.{
  AppContext, Input, key_down, key_up, key_b, key_i, key_enter, other_key, scroll_active,
  input_handler,
}
use net_det.Ui.Popup.Settled.{IsSettled, scrolled-IsSettled}
use net_det.Ui.Tui.Pressed.{IsPressed, KeepsSettled, key_b-KeepsSettled, key_enter-KeepsSettled}
use net_det.App.Main.{Main, MainAnswers, main_process, draw_main, handle_key}
use net_det.App.Main.Table.{IsTable, Adds, draw_main-IsTable}

-- A table of which the head and the cursor have moved.
abbrev moved : ℕ → ℤ → Main → Main
moved head cursor m = record m {
  context = record m.context {
    buffer = record m.context.buffer {
      view = record m.context.buffer.view { head = head; cursor = cursor };
    };
  };
}

moved-IsTable :
    (head : ℕ) (cursor : ℤ) (m : Main)
    → IsTable m
    → head ≤ m.context.buffer.view.count
    → IsTable (moved head cursor m)
moved-IsTable head cursor m t inside = record {
  backed = record {
    inside = inside;
    stored = t.backed.stored;
    fits = t.backed.fits;
    size_fits = t.backed.size_fits;
    live = λ j below.
        let x = t.backed.live j below in
        record { pointer = x.pointer; dev = x.dev; stored = x.stored; there = x.there };
  };
  valid = t.valid;
  narrow = t.narrow;
  some_slots = t.some_slots;
  counted = t.counted;
  popup = t.popup;
}

-- The screen changes, and the table stays.
abbrev screened : Screen → Main → Main
screened s m = record m { context = record m.context { screen = s } }

screened-IsTable : (s : Screen) (m : Main) → IsTable m → IsSettled s → IsTable (screened s m)
screened-IsTable s m t settled = record {
  backed = t.backed;
  valid = t.valid;
  narrow = t.narrow;
  some_slots = t.some_slots;
  counted = t.counted;
  popup = settled;
}

set_popup_descriptor_kept :
    (t : PopupType) (d : PopupDescriptor) (s : Screen)
    → (set_popup_descriptor t d s).process ≡ s.process
set_popup_descriptor_kept interfaces_list d s = refl
set_popup_descriptor_kept inspect_list d s = refl

module _ (answers : MainAnswers) (m : Main) (t : IsTable m) where
  -- The table is drawn, from a state that has the same devices.
  redrawn :
      (n : Main)
      → IsTable n
      → contents n.context.buffer.buffer ≡ contents m.context.buffer.buffer
      → n.heap ≡ m.heap
      → main_process n ≡ main_process m
      → Adds [] m (draw_main answers n)
  redrawn n u holds heap process =
      let (m', runs, t', same, same_heap, same_process) = draw_main-IsTable answers n u in
      (
        m',
        runs,
        t',
        same ∙ holds ∙ sym (append-nil (contents m.context.buffer.buffer)),
        same_heap ∙ heap,
        same_process ∙ process,
      )

  scroll-IsTable :
      (direction : ℤ)
      → Adds [] m (draw_main answers (record m { context = scroll_active direction m.context }))
  unfolding scroll_active
  scroll-IsTable direction =
      let view = m.context.buffer.view in
      let (head, cursor, moves, inside) =
        scroll_move_within view direction t.backed.inside t.backed.fits t.narrow in
      let s = m.context.screen in
      let d : PopupDescriptor = record (get_popup_descriptor s.popup_type s) {
        view = scroll_move (get_popup_descriptor s.popup_type s).view direction;
      } in
      let process = set_popup_descriptor_kept s.popup_type d s in
      elim (Bool-cases m.context.screen.main_window.is_active) [
        | inl main ↦
            let goes : record m { context = scroll_active direction m.context }
                ≡ moved head cursor m =
              simp (main, moves) in
            subst (λ n. Adds [] m (draw_main answers n)) (sym goes)
              (redrawn (moved head cursor m) (moved-IsTable head cursor m t inside) refl refl refl)
        | inr popup ↦
            let other = set_popup_descriptor s.popup_type d s in
            let goes : record m { context = scroll_active direction m.context } ≡ screened other m =
              simp popup in
            subst (λ n. Adds [] m (draw_main answers n)) (sym goes)
              (redrawn (screened other m)
                (screened-IsTable other m t (scrolled-IsSettled s direction t.popup)) refl refl
                process)
      ]

  -- The table stays, whatever the context's other parts are.
  recontext-IsTable :
      (c : AppContext)
      → IsSettled c.screen
      → c.screen.process ≡ m.context.screen.process
      → c.buffer ≡ m.context.buffer
      → Adds [] m (draw_main answers (record m { context = c }))
  recontext-IsTable c settled process same =
      let kept : IsTable (record m { context = record c { buffer = m.context.buffer } }) = record {
        backed = t.backed;
        valid = t.valid;
        narrow = t.narrow;
        some_slots = t.some_slots;
        counted = t.counted;
        popup = settled;
      } in
      let as_given : IsTable (record m { context = c }) =
        subst (λ b. IsTable (record m { context = record c { buffer = b } })) (sym same) kept in
      redrawn (record m { context = c }) as_given (ap (λ b. contents b.buffer) same) refl process

  key-IsTable :
      (input : Input)
      → KeepsSettled m.context (input_handler answers.scale m.heap answers.popup input m.context)
      → Adds [] m (handle_key answers input m)
  unfolding handle_key
  key-IsTable input (c, runs, settled, process, same) =
      subst (λ r. Adds [] m (r >>= λ c. draw_main answers (record m { context = c }))) (sym runs)
        (recontext-IsTable c settled process same)

  -- A key, but that of a device's popup, meets no fault, and the table has the devices of before.
  pub handle_key-IsTable :
      (input : Input) → IsPressed input answers.popup → Adds [] m (handle_key answers input m)
  unfolding handle_key input_handler IsPressed
  handle_key-IsTable key_down given = scroll-IsTable (pos 1)
  handle_key-IsTable key_up given = scroll-IsTable (negsuc 0)
  handle_key-IsTable key_b can =
      key-IsTable key_b
        (key_b-KeepsSettled answers.scale m.heap answers.popup m.context t.popup can)
  handle_key-IsTable key_i given = absurd given
  handle_key-IsTable key_enter given =
      key-IsTable key_enter
        (key_enter-KeepsSettled answers.scale m.heap answers.popup m.context t.popup)
  handle_key-IsTable other_key given = redrawn m t refl refl refl
