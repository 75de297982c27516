-- ===== src/Ui/Table/Update.antt =====
-- The row that a known device's new frame draws again.
use net_det.Prelude.{
  ℕ, zero, suc, ◌+◌, ◌%◌, ◌^◌, ◌≤◌, ◌<◌, ◌≡◌, ◌≢◌, ap, ◌∙◌, inl, inr, true, false, ==_iff,
  Bool-cases, none, some, arith, length, get_or, ok, at-get_or, ltb, ◌==◌,
}
use net_det.Prelude.Int.{to_uint32}
use net_det.Core.Device.{Device, Heap}
use net_det.Ui.Table.{
  TableLayout, DeviceTableView, print_network_row, row_limit, address, find_row, update_row,
}
use net_det.Ui.Table.Rows.{IsBacked, row_limit_lem}

is_other : (a b : ℕ) → a ≢ b → (a == b) ≡ false
is_other a b apart = ground arith

module _ (layout : TableLayout) (heap : Heap) (b : DeviceTableView) (backed : IsBacked heap b) where
  -- What stands in the array at a place before the end of the view.
  at_row :
      (i : ℕ)
      → b.view.head + i < b.view.count
      → ((b.view.head + i) % 2 ^ 32 ≡ b.view.head + i) × (b.view.head + i < length b.buffer.items)
  at_row i below = (omega (arith, backed.fits), omega (arith, backed.stored))

  -- The loop passes over the rows of other devices.
  find_row_lem :
      (rounds i t p : ℕ) (d : Device)
      → b.view.head + i + rounds ≤ b.view.count
      → i ≤ t
      → t < i + rounds
      → get_or b.buffer.items (b.view.head + t) none ≡ some p
      → ((j : ℕ) → j < t → get_or b.buffer.items (b.view.head + j) none ≢ some p)
      → heap p ≡ some d
      → find_row layout heap b (some p) rounds i
        ≡ ok (some (print_network_row layout (2 + t) d (t == to_uint32 b.view.cursor)))
  unfolding find_row
  find_row_lem zero i t p d room late below here first there = absurd (omega arith)
  find_row_lem (suc rounds) i t p d room late below here first there =
      let (wraps, inside) = at_row i (omega arith) in
      let reads = at-get_or b.buffer.items (b.view.head + i) none inside in
      elim (Bool-cases (i == t)) [
        | inl same ↦
            let is : i ≡ t = (==_iff i t).0 same in
            let found : get_or b.buffer.items (b.view.head + i) none ≡ some p = rw is here in
            let hit : (p == p) ≡ true = ground arith in rw (wraps, reads, found, hit, there, is)
        | inr other ↦
            let live = backed.live (b.view.head + i) (omega arith) in
            let before : i < t = ground arith in
            let miss : (live.pointer == p) ≡ false =
              is_other live.pointer p (λ same. first i before (live.stored ∙ ap some same)) in
            let rest =
              find_row_lem rounds (i + 1) t p d (omega arith) (omega arith) (omega arith) here first
                there in
            rw (wraps, reads, live.stored, miss) rest
      ]

-- In a view of less than 2^31 rows over devices in memory, where the first row's device is not at a higher address: the
-- frame of a device that stands on row `t`, and on none before, draws that row again and no other.
pub update_row-print_network_row :
    (layout : TableLayout) (heap : Heap) (b : DeviceTableView) (t p : ℕ) (d : Device)
    → IsBacked heap b
    → b.view.visible < 2 ^ 31
    → t < b.view.visible
    → b.view.head + t < b.view.count
    → get_or b.buffer.items (b.view.head + t) none ≡ some p
    → ((j : ℕ) → j < t → get_or b.buffer.items (b.view.head + j) none ≢ some p)
    → heap p ≡ some d
    → address (get_or b.buffer.items b.view.head none) ≤ p
    → update_row layout heap b (some p)
      ≡ ok (some (print_network_row layout (2 + t) d (t == to_uint32 b.view.cursor)))
unfolding update_row row_limit
update_row-print_network_row layout heap b t p d backed narrow on_row on_entry here first there
      low =
    let reads =
      at-get_or b.buffer.items b.view.head none (omega (arith, backed.stored, backed.inside)) in
    let passes : ltb p (address (get_or b.buffer.items b.view.head none)) ≡ false = ground arith in
    let limit = row_limit_lem b.view backed.inside backed.fits narrow in
    rw (reads, passes)
      (find_row_lem layout heap b backed (row_limit b.view) 0 t p d
        (ground (arith, limit, backed.inside)) (omega arith) (ground (arith, limit)) here first
        there)
