-- ===== src/App/Main/Messages.antt =====
-- What a message of the event bus does to the table of devices, while no popup or the list of interfaces is
-- open.
use mathlib.Core.List.{append-nil}
use net_det.Prelude.{
  ℕ, zero, suc, ◌+◌, ◌*◌, ◌%◌, ◌^◌, ◌≤◌, ◌<◌, ◌≡◌, refl, sym, ap, ◌∙◌, Option, none, some, List, [],
  ◌∷◌, arith, length, get_or, ok, at-get_or, ltb, ◌==◌, Bool-cases, inl, inr, ==_iff, ◌⊎◌, true,
  false,
}
use net_det.Prelude.Int.{to_uint32}
use net_det.Core.Device.{
  Device, Heap, UiMessageType, ui_new_entry, ui_update_table, ui_resize, ui_timer_tick,
}
use net_det.Core.DeviceBuffer.{contents}
use net_det.Ui.Table.{
  TableLayout, DeviceTableView, Row, print_network_row, find_row, update_row, is_pointer, address,
  row_limit,
}
use net_det.Ui.Table.Rows.{IsBacked, row_limit_lem}
use net_det.Ui.Tui.{resize_handler}
use net_det.Ui.Tui.Settled.{resize_handler-IsSettled}
use net_det.App.Main.{
  main_process, Main, MainAnswers, row_again, handle_update, handle_tick, handle_message,
}
use net_det.App.Main.NewEntry.{handle_new_entry-IsTable}
use net_det.App.Main.Table.{IsTable, Adds, draw_main-IsTable}

is_pointer-cases : (q : ℕ) (p : Option ℕ) → (p ≡ some q) ⊎ (is_pointer (some q) p ≡ false)
is_pointer-cases q none = inr refl
is_pointer-cases q (some p) = elim (Bool-cases (q == p)) [
  | inl same ↦ inl (ap some (sym ((==_iff q p).0 same)))
  | inr other ↦ inr other
]

self : (q : ℕ) → (q == q) ≡ true
self q = ground arith

module _ (layout : TableLayout) (heap : Heap) (b : DeviceTableView) (backed : IsBacked heap b) where
  -- The loop of `update_row` meets no fault.
  find_row_ok :
      (p : Option ℕ) (rounds i : ℕ)
      → b.view.head + i + rounds ≤ b.view.count
      → (row : Option Row) × (find_row layout heap b p rounds i ≡ ok row)
  unfolding find_row
  find_row_ok p zero i room = (none, refl)
  find_row_ok p (suc rounds) i room =
      let x = backed.live (b.view.head + i) (omega arith) in
      let here : (b.view.head + i) % 2 ^ 32 ≡ b.view.head + i = omega (arith, backed.fits) in
      let reads =
        at-get_or b.buffer.items (b.view.head + i) none (omega (arith, backed.stored))
        ∙ ap ok x.stored in
      let (row, rest) = find_row_ok p rounds (i + 1) (omega arith) in
      elim (is_pointer-cases x.pointer p) [
        | inl same ↦ (
          some (print_network_row layout (2 + i) x.dev (i == to_uint32 b.view.cursor)),
          rw (here, reads, same, self x.pointer, x.there),
        )
        | inr other ↦
            let step : find_row layout heap b p (suc rounds) i
                ≡ find_row layout heap b p rounds (i + 1) =
              rw (here, reads, other) in
            (row, step ∙ rest)
      ]

  update_row_ok :
      (p : Option ℕ)
      → b.view.head < length b.buffer.items
      → b.view.visible < 2 ^ 31
      → (row : Option Row) × (update_row layout heap b p ≡ ok row)
  unfolding update_row
  update_row_ok p inside narrow =
      let first = get_or b.buffer.items b.view.head none in
      let reads = at-get_or b.buffer.items b.view.head none inside in
      let limit = row_limit_lem b.view backed.inside backed.fits narrow in
      let (row, finds) =
        find_row_ok p (row_limit b.view) 0 (ground (arith, limit, backed.inside)) in
      elim (Bool-cases (ltb (address p) (address first))) [
        | inl lower ↦ (none, rw (reads, lower))
        | inr higher ↦ (row, rw (reads, higher) finds)
      ]

module _ (answers : MainAnswers) (m : Main) (t : IsTable m) where
  handle_update-IsTable :
      (p : Option ℕ)
      → (m' : Main) × (handle_update p m ≡ ok m')
        × IsTable m'
        × (contents m'.context.buffer.buffer ≡ contents m.context.buffer.buffer)
        × (m'.heap ≡ m.heap)
        × (main_process m' ≡ main_process m)
  unfolding handle_update
  handle_update-IsTable p =
      let inside : m.context.buffer.view.head < length m.context.buffer.buffer.items =
        omega (arith, t.backed.inside, t.counted, t.valid.load, t.valid.allocated, t.some_slots) in
      let (row, draws) =
        update_row_ok m.context.current_layout m.heap m.context.buffer t.backed p inside t.narrow in
      (
        record m { shown = row_again row ∷ m.shown },
        rw draws,
        record {
          backed = t.backed;
          valid = t.valid;
          narrow = t.narrow;
          some_slots = t.some_slots;
          counted = t.counted;
          popup = t.popup;
        },
        refl,
        refl,
        refl,
      )

  handle_tick_lem : handle_tick answers m ≡ ok m
  unfolding handle_tick
  handle_tick_lem = elim t.popup [ inl shut ↦ rw shut.inactive | inr o ↦ rw (o.active, o.kind) ]

  abbrev resized : Main
  resized = record m { context = resize_handler answers.lines answers.cols m.context }

  resized-IsTable : IsTable resized
  unfolding resize_handler
  resized-IsTable = record {
    backed = record {
      inside = t.backed.inside;
      stored = t.backed.stored;
      fits = t.backed.fits;
      size_fits = t.backed.size_fits;
      live = λ j below.
          let x = t.backed.live j below in
          record { pointer = x.pointer; dev = x.dev; stored = x.stored; there = x.there };
    };
    valid = t.valid;
    narrow = t.narrow;
    some_slots = t.some_slots;
    counted = t.counted;
    popup = (resize_handler-IsSettled answers.lines answers.cols m.context t.popup).0;
  }

  resized_same : contents resized.context.buffer.buffer ≡ contents m.context.buffer.buffer
  unfolding resize_handler
  resized_same = refl

  resized_process : main_process resized ≡ main_process m
  resized_process = (resize_handler-IsSettled answers.lines answers.cols m.context t.popup).1

-- What a message must bring for the table: a new entry a device in memory and a table that is less than
-- four fifths full.
unfoldable pub IsCarried : UiMessageType → Option ℕ → Main → Type 0
IsCarried ui_new_entry dev m =
    (p : ℕ) × (d : Device) × (dev ≡ some p)
    × (m.heap p ≡ some d)
    × (5 * (m.context.buffer.buffer.count + 1) ≤ 4 * m.context.buffer.buffer.size)
IsCarried ui_update_table dev m = Unit
IsCarried ui_resize dev m = Unit
IsCarried ui_timer_tick dev m = Unit

-- The devices that a message brings into the table.
abbrev pub entries : UiMessageType → Option ℕ → List (Option ℕ)
entries ui_new_entry dev = dev ∷ []
entries ui_update_table dev = []
entries ui_resize dev = []
entries ui_timer_tick dev = []

-- With no popup or the list of interfaces open and a table of devices in memory, whatever the message is and whatever size the
-- terminal has, where a new entry brings a device in memory to a table that is less than four fifths full:
-- the main thread handles the message without a fault and draws, the table
-- stays one of devices in memory, and its devices are those of before, in their order, with the new one
-- behind them if the message is a new entry.
pub handle_message-IsTable :
    (answers : MainAnswers) (kind : UiMessageType) (dev : Option ℕ) (m : Main)
    → IsTable m
    → IsCarried kind dev m
    → Adds
        (entries kind dev)
        m
        (handle_message answers (record { msg_type = kind; device = dev }) m)
unfolding handle_message IsCarried
handle_message-IsTable answers ui_new_entry dev m t (p, d, is, there, room) =
    let (m', runs, t', holds, heap, process) =
      handle_new_entry-IsTable answers m t p d there room in
    (m', rw is runs, t', rw is holds, heap, process)
handle_message-IsTable answers ui_update_table dev m t given =
    let (m', runs, t', same, heap, process) = handle_update-IsTable answers m t dev in
    (m', runs, t', same ∙ sym (append-nil (contents m.context.buffer.buffer)), heap, process)
handle_message-IsTable answers ui_resize dev m t given =
    let u : Main = resized answers m t in
    let (m', runs, t', same, heap, process) =
      draw_main-IsTable answers u (resized-IsTable answers m t) in
    (
      m',
      runs,
      t',
      same ∙ resized_same answers m t ∙ sym (append-nil (contents m.context.buffer.buffer)),
      heap,
      process ∙ resized_process answers m t,
    )
handle_message-IsTable answers ui_timer_tick dev m t given = (
  m,
  handle_tick_lem answers m t,
  t,
  sym (append-nil (contents m.context.buffer.buffer)),
  refl,
  refl,
)
