-- ===== src/Ui/Drawing/Lines.antt =====
-- The lines of the two popups.
use net_det.Prelude.{
  ℕ, zero, suc, ◌+◌, ◌-◌, ◌%◌, ◌^◌, ◌≤◌, ◌<◌, ◌≡◌, refl, ap, ◌∙◌, true, false, inl, inr, Bool-cases,
  Option, none, some, List, [], ◌∷◌, arith, length, get_or, ok, fault, out_of_bounds, at-get_or,
  ltb, ◌==◌, if◌then◌else◌,
}
use net_det.Prelude.Int.{to_uint32}
use net_det.Core.Device.{Device, Heap}
use net_det.Ui.ScrollView.{ScrollView}
use net_det.Ui.ScrollView.Moves.{rows}
use net_det.Ui.Screen.{IfEntry, Screen, interfaces_list, inspect_list, get_popup_descriptor}
use net_det.Ui.Inspect.{render_inspect_item, popup_inspect, field_of, get_rate}
use net_det.Ui.Tui.{AppContext}
use net_det.Ui.Popup.Settled.{no_entry, IsSettled}
use net_det.Ui.Drawing.{draw_open_popup}
use net_det.Ui.Templates.{
  Mark, draw_window_frame, get_popup_descriptor_title, PopupLine, PopupItem, interface_item,
  get_bound_interface, render_interface_item, render_item, draw_lines, draw_popup,
}

-- What line `k` of the list of interfaces shows: the entry `k` places after the head, with a star where it is the bound
-- one, on the cursor's line highlighted.
abbrev pub interface_line : IfEntry → ScrollView → List IfEntry → ℕ → PopupLine
interface_line bound view entries k =
    let e = get_or entries (view.head + k) no_entry in
    record {
      y = k + 1;
      highlighted = to_uint32 view.cursor == k;
      item = interface_item (get_bound_interface bound == e.if_index) e.if_name;
    }

abbrev pub no_line : PopupLine
no_line = record { y = 0; highlighted = false; item = interface_item false none }

-- Where each entry of the view can be drawn, drawing meets no fault, wherever the head is.
pub draw_lines_ok :
    (scale : ℕ → ℕ → ℕ) (heap : Heap) (bound : IfEntry) (s : Screen) (view : ScrollView)
    → ((index : ℕ)
        → index < view.count
        → (item : PopupItem) × (render_item scale heap bound s.popup_type s index ≡ ok item))
    → (rounds i : ℕ)
    → (lines : List PopupLine) × (draw_lines scale heap bound s view rounds i ≡ ok lines)
unfolding draw_lines
draw_lines_ok scale heap bound s view each zero i = ([], refl)
draw_lines_ok scale heap bound s view each (suc rounds) i =
    let index = (view.head + i) % 2 ^ 32 in
    let (rest, runs) = draw_lines_ok scale heap bound s view each rounds (i + 1) in
    elim (Bool-cases (ltb index view.count)) [
      | inr past ↦ ([], rw past)
      | inl below ↦
          let (item, draws) = each index (ground arith) in
          (
            record { y = i + 1; highlighted = to_uint32 view.cursor == i; item = item } ∷ rest,
            rw (below, draws, runs),
          )
    ]

module _ (scale : ℕ → ℕ → ℕ) (heap : Heap) (bound : IfEntry) (s : Screen) (view : ScrollView)
    (entries : List IfEntry) (kind : s.popup_type ≡ interfaces_list)
    (listed : s.popup_list ≡ some entries) (inside : view.count ≤ length entries) where
  abbrev left : ℕ → ℕ → ℕ
  left rounds i =
      if ltb rounds (view.count - (view.head + i)) then rounds else view.count - (view.head + i)

  render_item_lem :
      (index : ℕ)
      → index < view.count
      → render_item scale heap bound s.popup_type s index
        ≡ ok (
            interface_item
              (get_bound_interface bound == (get_or entries index no_entry).if_index)
              (get_or entries index no_entry).if_name)
  unfolding render_item render_interface_item
  render_item_lem index below = rw (kind, listed, at-get_or entries index no_entry (omega arith))

  draw_lines_next :
      (rounds i : ℕ) (rest : List PopupLine)
      → view.head + i < 2 ^ 32
      → view.head + i < view.count
      → draw_lines scale heap bound s view rounds (i + 1) ≡ ok rest
      → draw_lines scale heap bound s view (suc rounds) i
        ≡ ok (interface_line bound view entries i ∷ rest)
  unfolding draw_lines
  draw_lines_next rounds i rest fits below runs =
      let place : (view.head + i) % 2 ^ 32 ≡ view.head + i = omega arith in
      let test : ltb (view.head + i) view.count ≡ true = ground arith in
      rw (place, test, render_item_lem (view.head + i) below, runs)

  -- A line more before the others.
  lines_next :
      (i n : ℕ) (rest : List PopupLine)
      → ((k : ℕ) → k < n → get_or rest k no_line ≡ interface_line bound view entries (i + 1 + k))
      → (k : ℕ) → k < suc n
      → get_or (interface_line bound view entries i ∷ rest) k no_line
        ≡ interface_line bound view entries (i + k)
  lines_next i n rest each zero below =
      let here : i ≡ i + 0 = omega arith in ap (interface_line bound view entries) here
  lines_next i n rest each (suc k) below =
      let later : i + 1 + k ≡ i + suc k = omega arith in
      each k (omega arith) ∙ ap (interface_line bound view entries) later

  draw_lines_lem :
      (rounds i : ℕ)
      → view.head + i + rounds < 2 ^ 32
      → (lines : List PopupLine) × (draw_lines scale heap bound s view rounds i ≡ ok lines)
        × (length lines ≡ left rounds i)
        × ((k : ℕ)
            → k < left rounds i
            → get_or lines k no_line ≡ interface_line bound view entries (i + k))
  unfolding draw_lines
  draw_lines_lem zero i fits = ([], refl, ground arith, λ k below. absurd (ground arith))
  draw_lines_lem (suc rounds) i fits =
      let place : (view.head + i) % 2 ^ 32 ≡ view.head + i = omega arith in
      elim (Bool-cases (ltb (view.head + i) view.count)) [
        | inr past ↦ ([], rw (place, past), ground arith, λ k below. absurd (ground arith))
        | inl below ↦
            let (rest, runs, wide, each) = draw_lines_lem rounds (i + 1) (omega arith) in
            (
              interface_line bound view entries i ∷ rest,
              draw_lines_next rounds i rest (omega arith) (ground arith) runs,
              ground (arith, wide),
              λ k inside. lines_next i (left rounds (i + 1)) rest each k (ground arith),
            )
      ]

pub draw_popup-interfaces :
    (scale : ℕ → ℕ → ℕ) (heap : Heap) (bound : IfEntry) (s : Screen)
    → s.popup_type ≡ interfaces_list
    → draw_popup scale heap bound s
      ≡ draw_lines scale heap bound s s.interfaces.view s.interfaces.view.visible 0
unfolding draw_popup
draw_popup-interfaces scale heap bound s kind =
    ap
      (λ t.
        let view = (get_popup_descriptor t s).view in
        draw_lines scale heap bound s view view.visible 0)
      kind

-- A list of interfaces that is not shorter than its view is drawn without a fault.
pub draw_popup-listed :
    (scale : ℕ → ℕ → ℕ) (heap : Heap) (bound : IfEntry) (s : Screen) (entries : List IfEntry)
    → s.popup_type ≡ interfaces_list
    → s.popup_list ≡ some entries
    → s.interfaces.view.count ≤ length entries
    → (lines : List PopupLine) × (draw_popup scale heap bound s ≡ ok lines)
draw_popup-listed scale heap bound s entries kind listed inside =
    let view = s.interfaces.view in
    let (lines, draws) =
      draw_lines_ok scale heap bound s view
        (λ index below. (
          interface_item (get_bound_interface bound == (get_or entries index no_entry).if_index)
              (get_or entries index no_entry).if_name,
          render_item_lem scale heap bound s view entries kind listed inside index below,
        ))
        view.visible 0 in
    (lines, draw_popup-interfaces scale heap bound s kind ∙ draws)

-- With no popup, or with the list of interfaces open, drawing the popup meets no fault.
pub draw_open_popup_ok :
    (scale : ℕ → ℕ → ℕ) (heap : Heap) (c : AppContext)
    → IsSettled c.screen
    → (popup : Option (List Mark × List PopupLine)) × (draw_open_popup scale heap c ≡ ok popup)
unfolding draw_open_popup
draw_open_popup_ok scale heap c (inl shut) = (none, rw shut.inactive)
draw_open_popup_ok scale heap c (inr o) =
    let (lines, draws) =
      draw_popup-listed scale heap c.binded_interface c.screen o.entries o.kind o.listed
        (omega (arith, o.view, o.inside)) in
    (
      some (
        draw_window_frame c.screen.popup_window (get_popup_descriptor_title c.screen.popup_type),
        lines,
      ),
      simp (o.active, draws),
    )

-- With the list of interfaces in the popup, and a view whose list is no longer than it and whose rows end below 2^32:
-- drawing the popup meets no fault and prints one line for each entry from the head on that fits, with a
-- star where it is the bound interface, and highlights the cursor's line and no other.
pub draw_popup-interface_line :
    (scale : ℕ → ℕ → ℕ) (heap : Heap) (bound : IfEntry) (s : Screen) (entries : List IfEntry)
    → s.popup_type ≡ interfaces_list
    → s.popup_list ≡ some entries
    → s.interfaces.view.count ≤ length entries
    → s.interfaces.view.head + s.interfaces.view.visible < 2 ^ 32
    → (lines : List PopupLine) × (draw_popup scale heap bound s ≡ ok lines)
      × (length lines ≡ rows s.interfaces.view)
      × ((k : ℕ)
          → k < rows s.interfaces.view
          → get_or lines k no_line ≡ interface_line bound s.interfaces.view entries k)
unfolding rows
draw_popup-interface_line scale heap bound s entries kind listed inside fits =
    let view = s.interfaces.view in
    let (lines, draws, wide, each) =
      draw_lines_lem scale heap bound s view entries kind listed inside view.visible 0
        (omega arith) in
    (
      lines,
      draw_popup-interfaces scale heap bound s kind ∙ draws,
      ground (arith, wide),
      λ k below. each k (ground arith) ∙ ap (interface_line bound view entries) (from_zero k),
    )
  where
    from_zero : (k : ℕ) → 0 + k ≡ k
    from_zero k = omega arith

-- With the popup of a device open, from its first line on and at least five lines high: while the ring of rates stands at
-- place 0, drawing the popup ends in a read before the first rate.
pub draw_popup_out_of_bounds :
    (scale : ℕ → ℕ → ℕ) (heap : Heap) (bound : IfEntry) (s : Screen) (p n : ℕ) (d : Device)
    → s.popup_type ≡ inspect_list
    → s.inspected ≡ some p
    → heap p ≡ some d
    → d.graph.head ≡ 0
    → s.inspect.view.head ≡ 0
    → s.inspect.view.count ≡ 6
    → s.inspect.view.visible ≡ 5 + n
    → draw_popup scale heap bound s ≡ fault out_of_bounds
unfolding draw_popup draw_lines render_item render_inspect_item popup_inspect field_of get_rate
draw_popup_out_of_bounds scale heap bound s p n d kind shown there wrapped top six tall =
    let five : 5 + n ≡ suc (suc (suc (suc (suc n)))) = omega arith in
    rw (kind, tall, five, top, six, shown, there, wrapped)
