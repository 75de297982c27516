-- ===== src/Ui/ScrollView/Within.antt =====
-- A step in any view, also one without a row, stays within the list.
use net_det.Prelude.{ℕ, ◌^◌, ◌≤◌, ◌<◌, ◌≡◌, inl, inr, not, arith, ◌==◌, Bool-cases}
use net_det.Prelude.Int.{ℤ, pos, ltb_ℤ, ◌+ℤ◌, ◌-ℤ◌}
use net_det.Ui.ScrollView.{ScrollView, scroll_move, scroll_up, scroll_down}
use net_det.Ui.ScrollView.Moves.{rows, records_on_screen-rows}

down_head :
    (v : ScrollView)
    → v.head ≤ v.count
    → v.count < 2 ^ 31
    → v.visible < 2 ^ 31
    → (scroll_down v (pos (rows v))).head ≤ v.count
unfolding scroll_down rows
down_head v inside fits narrow = ground arith

-- Only the head and the cursor change, and the head stays within the list.
pub scroll_move_within :
    (v : ScrollView) (direction : ℤ)
    → v.head ≤ v.count
    → v.count < 2 ^ 31
    → v.visible < 2 ^ 31
    → (head : ℕ) × (cursor : ℤ) × (scroll_move v direction
        ≡ record v { head = head; cursor = cursor })
      × (head ≤ v.count)
unfolding scroll_move scroll_up scroll_down
scroll_move_within v direction inside fits narrow =
    let records = records_on_screen-rows v inside fits narrow in
    let new_position = v.cursor +ℤ direction in
    elim (Bool-cases (v.count == 0)) [
      | inl empty ↦ (v.head, v.cursor, simp empty, inside)
      | inr some_entries ↦ elim (Bool-cases (ltb_ℤ new_position (pos 0))) [
        | inl above ↦ ((scroll_up v).head, pos 0, simp (some_entries, above), ground arith)
        | inr on ↦ elim (Bool-cases (not (ltb_ℤ new_position (pos (rows v))))) [
          | inl below ↦ (
            (scroll_down v (pos (rows v))).head,
            pos (rows v) -ℤ pos 1,
            simp (some_entries, on, records, below),
            down_head v inside fits narrow,
          )
          | inr row ↦ (v.head, new_position, simp (some_entries, on, records, row), inside)
        ]
      ]
    ]
