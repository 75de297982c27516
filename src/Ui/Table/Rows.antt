-- ===== src/Ui/Table/Rows.antt =====
-- The rows that the table shows: the devices from the head of the view on, in the order of the array.
use net_det.Prelude.{
  ℕ, zero, suc, ◌+◌, ◌-◌, ◌%◌, ◌^◌, ◌≤◌, ◌<◌, ◌≡◌, refl, ap, ◌∙◌, none, some, List, ◌∷◌, [], arith,
  length, get_or, ok, at-get_or, ltb, ◌==◌, if◌then◌else◌,
}
use net_det.Prelude.Int.{to_uint32}
use net_det.Core.Device.{Device, Heap}
use net_det.Ui.ScrollView.{ScrollView}
use net_det.Ui.Table.{
  TableLayout, DeviceTableView, Row, print_network_row, row_limit, sync_display_limit, print_row,
  print_rows, print_network_data,
}

-- The array has a device that is in memory at this place.
pub record IsLive (heap : Heap) (b : DeviceTableView) (j : ℕ) : Type 0 where
  pub pointer : ℕ
  pub dev : Device
  pub stored : get_or b.buffer.items j none ≡ some pointer
  pub there : heap pointer ≡ some dev

-- The view counts the devices of the array, all of which are in memory, and starts among them.
pub record IsBacked (heap : Heap) (b : DeviceTableView) : Type 0 where
  pub inside : b.view.head ≤ b.view.count
  pub stored : b.view.count ≤ length b.buffer.items
  pub fits : b.view.count < 2 ^ 31
  pub size_fits : b.buffer.size < 2 ^ 31
  pub live : (j : ℕ) → j < b.view.count → IsLive heap b j

-- The row of device `head + i`, highlighted where the cursor stands.
pub record Shows (layout : TableLayout) (heap : Heap) (b : DeviceTableView) (i : ℕ) (row : Row)
    : Type 0 where
  pub live : IsLive heap b (b.view.head + i)
  pub drawn : row ≡ print_network_row layout (2 + i) live.dev (i == to_uint32 b.view.cursor)

abbrev pub no_row : Row
no_row = record { y = 0; cells = [] }

pub row_limit_lem :
    (v : ScrollView)
    → v.head ≤ v.count
    → v.count < 2 ^ 31
    → v.visible < 2 ^ 31
    → row_limit v ≡ (if ltb v.visible (v.count - v.head) then v.visible else v.count - v.head)
unfolding row_limit
row_limit_lem v inside fits narrow = ground arith

module _ (layout : TableLayout) (heap : Heap) (b : DeviceTableView) (backed : IsBacked heap b) where
  print_row-Shows :
      (i : ℕ)
      → b.view.head + i < b.view.count
      → (row : Row) × (print_row layout heap b i ≡ ok row) × Shows layout heap b i row
  unfolding print_row
  print_row-Shows i below =
      let live = backed.live (b.view.head + i) below in
      let here : (b.view.head + i) % 2 ^ 32 ≡ b.view.head + i = omega (arith, backed.fits) in
      (
        print_network_row layout (2 + i) live.dev (i == to_uint32 b.view.cursor),
        rw (
          here,
          at-get_or b.buffer.items (b.view.head + i) none (omega (arith, backed.stored)),
          live.stored,
          live.there,
        ),
        record { live = live; drawn = refl },
      )

  Shows-next :
      (rounds i : ℕ) (row : Row) (rows : List Row)
      → Shows layout heap b i row
      → ((k j : ℕ) → j ≡ i + 1 + k → k < rounds → Shows layout heap b j (get_or rows k no_row))
      → (k j : ℕ) → j ≡ i + k
      → k < suc rounds
      → Shows layout heap b j (get_or (row ∷ rows) k no_row)
  Shows-next rounds i row rows first others zero j at_row below =
      let here : j ≡ i = omega arith in rw here first
  Shows-next rounds i row rows first others (suc k) j at_row below =
      others k j (omega arith) (omega arith)

  print_rows-Shows :
      (rounds i : ℕ)
      → b.view.head + i + rounds ≤ b.view.count
      → (rows : List Row) × (print_rows layout heap b rounds i ≡ ok rows)
        × (length rows ≡ rounds)
        × ((k j : ℕ) → j ≡ i + k → k < rounds → Shows layout heap b j (get_or rows k no_row))
  unfolding print_rows
  print_rows-Shows zero i room = ([], refl, refl, λ k j at_row below. absurd (omega arith))
  print_rows-Shows (suc rounds) i room =
      let (row, prints, shows) = print_row-Shows i (omega arith) in
      let (rows, runs, many, others) = print_rows-Shows rounds (i + 1) (omega arith) in
      (row ∷ rows, rw (prints, runs), ap suc many, Shows-next rounds i row rows shows others)

-- In a view over devices in memory: drawing the table meets no fault, sets the number of visible rows
-- to the smaller of the window's rows and the array's slots, and prints a row for each device from the
-- head on that fits, in the order of the array, with the cursor's row and no other highlighted.
pub print_network_data-Shows :
    (layout : TableLayout) (heap : Heap) (b : DeviceTableView)
    → IsBacked heap b
    → (rows : List Row) × (print_network_data layout heap b ≡ ok (sync_display_limit b, rows))
      × (length rows ≡ (
          if ltb (sync_display_limit b).view.visible (b.view.count - b.view.head)
          then (sync_display_limit b).view.visible
          else b.view.count - b.view.head))
      × ((k : ℕ)
          → k < length rows
          → Shows layout heap (sync_display_limit b) k (get_or rows k no_row))
unfolding print_network_data sync_display_limit row_limit
print_network_data-Shows layout heap b backed =
    let synced : DeviceTableView = sync_display_limit b in
    let synced_backed : IsBacked heap synced = record {
      inside = backed.inside;
      stored = backed.stored;
      fits = backed.fits;
      size_fits = backed.size_fits;
      live = λ j below.
          let x = backed.live j below in
          record { pointer = x.pointer; dev = x.dev; stored = x.stored; there = x.there };
    } in
    let limit =
      row_limit_lem synced.view backed.inside backed.fits (ground (arith, backed.size_fits)) in
    let (rows, runs, many, shows) =
      print_rows-Shows layout heap synced synced_backed (row_limit synced.view) 0
        (ground (arith, limit, backed.inside)) in
    (rows, rw runs, many ∙ limit, λ k below. shows k k (omega arith) (omega (arith, many)))
