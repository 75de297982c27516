-- ===== src/App/Main/Lost.antt =====
-- A new entry that the buffer could not take is counted by the view all the same.
use net_det.Prelude.{
  ℕ, zero, suc, ◌+◌, ◌-◌, ◌*◌, ◌%◌, ◌^◌, ◌<◌, ◌≡◌, ap, ◌∙◌, false, none, arith, length, get_or,
  fault, null_dereference, ok, at-get_or, Option,
}
use net_det.Core.Device.{Heap}
use net_det.Core.DeviceBuffer.{device_buffer_store_entry-failure}
use net_det.Ui.Table.{
  TableLayout, DeviceTableView, print_row, print_rows, row_limit, sync_display_limit,
  print_network_data,
}
use net_det.Ui.Table.Rows.{IsLive, row_limit_lem}
use net_det.Ui.Drawing.{is_too_small, draw}
use net_det.App.Main.{Main, MainAnswers, raise_count, draw_main, handle_new_entry}
use net_det.App.Main.Table.{IsTable}

module _ (layout : TableLayout) (heap : Heap) (b : DeviceTableView) (n : ℕ)
    (live : (j : ℕ) → j < n → IsLive heap b j) (fits : n < 2 ^ 31)
    (inside : n < length b.buffer.items) (lost : get_or b.buffer.items n none ≡ none) where
  print_row_null :
      (i : ℕ) → b.view.head + i ≡ n → print_row layout heap b i ≡ fault null_dereference
  unfolding print_row
  print_row_null i here =
      let place : (b.view.head + i) % 2 ^ 32 ≡ n = omega arith in
      rw (place, at-get_or b.buffer.items n none inside, lost)

  -- The rows of the devices, and then the one of the null pointer.
  print_rows_null :
      (rounds i : ℕ)
      → b.view.head + i + rounds ≡ n
      → print_rows layout heap b (suc rounds) i ≡ fault null_dereference
  unfolding print_rows print_row
  print_rows_null zero i here = rw (print_row_null i (omega arith))
  print_rows_null (suc rounds) i here =
      let x = live (b.view.head + i) (omega arith) in
      let place : (b.view.head + i) % 2 ^ 32 ≡ b.view.head + i = omega arith in
      let reads = at-get_or b.buffer.items (b.view.head + i) none (omega arith) ∙ ap ok x.stored in
      rw (place, reads, x.there, print_rows_null rounds (i + 1) (omega arith))

-- With a table of devices in memory that is four fifths full, no memory for `realloc`, a main window that is
-- not too small, and room on the screen for the row behind the last device, where the next slot is null: a
-- new entry ends in a read through the null pointer.
pub handle_new_entry-null :
    (answers : MainAnswers) (m : Main) (p : Option ℕ)
    → IsTable m
    → 4 * m.context.buffer.buffer.size < 5 * (m.context.buffer.buffer.count + 1)
    → answers.realloc m.context.buffer.buffer.items m.context.buffer.buffer.size ≡ none
    → get_or m.context.buffer.buffer.items m.context.buffer.view.count none ≡ none
    → is_too_small m.context.screen.main_window ≡ false
    → m.context.buffer.view.count
      < m.context.buffer.view.head + m.context.buffer.view.viewport_capacity
    → m.context.buffer.view.count < m.context.buffer.view.head + m.context.buffer.buffer.size
    → handle_new_entry answers p m ≡ fault null_dereference
unfolding handle_new_entry draw_main draw print_network_data sync_display_limit
handle_new_entry-null answers m p t full refused free high tall wide =
    let b : DeviceTableView = m.context.buffer in
    let fails =
      device_buffer_store_entry-failure answers.realloc b.buffer p full
        (omega (arith, t.counted, t.backed.fits)) refused in
    let c : DeviceTableView = sync_display_limit (raise_count m).context.buffer in
    let limit : row_limit c.view ≡ suc (b.view.count - b.view.head) =
      row_limit_lem c.view (omega (arith, t.backed.inside, t.backed.fits))
        (omega (arith, t.counted, t.valid.load, t.backed.size_fits))
        (ground (arith, t.backed.size_fits))
      ∙ ground (arith, t.backed.inside, t.backed.fits) in
    let live : (j : ℕ) → j < b.view.count → IsLive m.heap c j = λ j below.
      let x = t.backed.live j below in
      record { pointer = x.pointer; dev = x.dev; stored = x.stored; there = x.there } in
    let prints : print_rows m.context.current_layout m.heap c (row_limit c.view) 0
        ≡ fault null_dereference =
      rw limit (
        print_rows_null m.context.current_layout m.heap c b.view.count live t.backed.fits
          (omega (arith, t.counted, t.valid.load, t.valid.allocated, t.some_slots)) free
          (b.view.count - b.view.head) 0 (omega (arith, t.backed.inside))) in
    rw (fails, high, prints)
