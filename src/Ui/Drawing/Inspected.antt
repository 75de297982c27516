-- ===== src/Ui/Drawing/Inspected.antt =====
-- The popup of a device, where it is drawn without a fault.
use net_det.Prelude.{
  ℕ, zero, suc, ◌-◌, ◌≤◌, ◌<◌, ◌≡◌, refl, ◌∙◌, ap, Option, some, List, arith, length, get_or, ok,
  at, at-get_or, false, ◌==◌,
}
use net_det.Core.Device.{Device, Heap, rate_history_size}
use net_det.Ui.Screen.{IfEntry, Screen, inspect_list, get_popup_descriptor}
use net_det.Ui.Inspect.{
  Field, InspectField, number_line, graph_line, render_inspect_item, popup_inspect, field_of,
  get_rate,
}
use net_det.Ui.Inspect.Graph.{get_graph_lem}
use net_det.Ui.Templates.{PopupLine, PopupItem, inspect_item, render_item, draw_lines, draw_popup}
use net_det.Ui.Drawing.Lines.{draw_lines_ok}

-- The device is in memory, and its ring of 60 rates stands behind a cell.
pub record IsInspectable (heap : Heap) (dev : Option ℕ) : Type 0 where
  pub pointer : ℕ
  pub d : Device
  pub given : dev ≡ some pointer
  pub there : heap pointer ≡ some d
  pub cells : length d.graph.values ≡ rate_history_size
  pub behind : 0 < d.graph.head
  pub inside : d.graph.head ≤ rate_history_size

-- Each rate has one of the eight blocks.
abbrev pub HasBlocks : (ℕ → ℕ → ℕ) → Type 0
HasBlocks scale = (v max : ℕ) → v ≤ max → 0 < max → scale v max < 8

module _ (scale : ℕ → ℕ → ℕ) (heap : Heap) (bound : IfEntry) (s : Screen)
    (x : IsInspectable heap s.inspected) (blocks : HasBlocks scale) where
  field_of-drawn :
      (index : ℕ) (f : InspectField) (field : Field)
      → at popup_inspect index ≡ ok f
      → field_of scale f.getter x.d ≡ ok field
      → (item : PopupItem) × (render_item scale heap bound inspect_list s index ≡ ok item)
  unfolding render_item render_inspect_item
  field_of-drawn index f field listed shows =
      (inspect_item f.string field, simp (listed, x.given, x.there, shows))

  get_rate_ok : get_rate x.d.graph ≡ ok (get_or x.d.graph.values (x.d.graph.head - 1) 0)
  unfolding get_rate
  get_rate_ok =
      let test : (x.d.graph.head == 0) ≡ false = ground (arith, x.behind) in
      let read =
        at-get_or x.d.graph.values (x.d.graph.head - 1) 0
          (omega (arith, x.cells, x.inside, x.behind)) in
      rw (test, read)

  render_inspect_item_ok :
      (index : ℕ)
      → index < 6
      → (item : PopupItem) × (render_item scale heap bound inspect_list s index ≡ ok item)
  unfolding popup_inspect field_of
  render_inspect_item_ok zero below = field_of-drawn 0 _ _ refl refl
  render_inspect_item_ok (suc zero) below = field_of-drawn 1 _ _ refl refl
  render_inspect_item_ok (suc (suc zero)) below = field_of-drawn 2 _ _ refl refl
  render_inspect_item_ok (suc (suc (suc zero))) below = field_of-drawn 3 _ _ refl refl
  render_inspect_item_ok (suc (suc (suc (suc zero)))) below =
      field_of-drawn 4 _ (number_line (get_or x.d.graph.values (x.d.graph.head - 1) 0)) refl
        (rw get_rate_ok)
  render_inspect_item_ok (suc (suc (suc (suc (suc zero))))) below =
      let (_, shown, draws, _, _, _) = get_graph_lem scale x.d.graph x.cells blocks in
      field_of-drawn 5 _ (graph_line shown) refl (rw draws)
  render_inspect_item_ok (suc (suc (suc (suc (suc (suc i)))))) below = absurd (omega arith)

  -- The six lines of a device, as many as the view shows.
  pub draw_popup-inspected :
      s.popup_type ≡ inspect_list
      → s.inspect.view.count ≤ 6
      → (lines : List PopupLine) × (draw_popup scale heap bound s ≡ ok lines)
  unfolding draw_popup
  draw_popup-inspected kind six =
      let view = s.inspect.view in
      let (lines, draws) =
        draw_lines_ok scale heap bound s view
          (λ index below.
            let (item, shows) = render_inspect_item_ok index (omega (arith, six)) in
            (item, ap (λ t. render_item scale heap bound t s index) kind ∙ shows))
          view.visible 0 in
      (
        lines,
        ap
              (λ t.
                let view = (get_popup_descriptor t s).view in
                draw_lines scale heap bound s view view.visible 0)
              kind
            ∙ draws,
      )
