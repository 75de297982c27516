-- ===== src/Ui/Drawing/Unlisted.antt =====
-- The popup of interfaces without a list.
use net_det.Prelude.{
  ℕ, zero, suc, ◌<◌, ◌≡◌, refl, ◌∙◌, inl, inr, Bool-cases, none, [], arith, ok, fault,
  null_dereference, ◌⊎◌, ltb,
}
use net_det.Core.Device.{Heap}
use net_det.Ui.ScrollView.{ScrollView}
use net_det.Ui.ScrollView.Moves.{rows}
use net_det.Ui.Screen.{IfEntry, Screen, interfaces_list}
use net_det.Ui.Templates.{render_interface_item, render_item, draw_lines, draw_popup}
use net_det.Ui.Drawing.Lines.{draw_popup-interfaces}

draw_lines_unlisted :
    (scale : ℕ → ℕ → ℕ) (heap : Heap) (bound : IfEntry) (s : Screen) (view : ScrollView)
    (rounds : ℕ)
    → s.popup_type ≡ interfaces_list
    → s.popup_list ≡ none
    → view.head ≡ 0
    → ((0 < rows (record view { visible = rounds }))
        × (draw_lines scale heap bound s view rounds 0 ≡ fault null_dereference))
      ⊎ ((rows (record view { visible = rounds }) ≡ 0)
          × (draw_lines scale heap bound s view rounds 0 ≡ ok []))
unfolding rows draw_lines render_item render_interface_item
draw_lines_unlisted scale heap bound s view zero kind unlisted top = inr (ground arith, refl)
draw_lines_unlisted scale heap bound s view (suc n) kind unlisted top =
    elim (Bool-cases (ltb 0 view.count)) [
      | inl some_entry ↦ inl (ground arith, rw (top, some_entry, kind, unlisted))
      | inr empty ↦ inr (ground arith, rw (top, empty))
    ]

-- With no list, the popup of interfaces is drawn as long as its view has no row, and is read through a null
-- pointer where it has one.
pub draw_popup-unlisted :
    (scale : ℕ → ℕ → ℕ) (heap : Heap) (bound : IfEntry) (s : Screen)
    → s.popup_type ≡ interfaces_list
    → s.popup_list ≡ none
    → s.interfaces.view.head ≡ 0
    → ((0 < rows s.interfaces.view) × (draw_popup scale heap bound s ≡ fault null_dereference))
      ⊎ ((rows s.interfaces.view ≡ 0) × (draw_popup scale heap bound s ≡ ok []))
draw_popup-unlisted scale heap bound s kind unlisted top =
    let view = s.interfaces.view in
    let draws = draw_popup-interfaces scale heap bound s kind in
    elim (draw_lines_unlisted scale heap bound s view view.visible kind unlisted top) [
      | inl (some_row, faults) ↦ inl (some_row, draws ∙ faults)
      | inr (no_row, empty) ↦ inr (no_row, draws ∙ empty)
    ]
