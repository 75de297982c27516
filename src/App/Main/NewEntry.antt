-- ===== src/App/Main/NewEntry.antt =====
-- A new entry in the table of devices.
use native.Mathlib.Numerals.{add-one}
use net_det.Prelude.{
  ℕ, ◌+◌, ◌*◌, ◌≤◌, ◌<◌, ◌≡◌, ap, ◌∙◌, none, some, [], ◌∷◌, arith, length, set, length-set, get_or,
  get_or-set, ◌==◌, Bool-cases, if◌then◌else◌, inl, inr,
}
use net_det.Core.Device.{Device}
use net_det.Core.DeviceBuffer.{DeviceBuffer, IsValid, device_buffer_store_entry-set, take-set}
use net_det.Ui.Table.Rows.{IsLive}
use net_det.App.Main.{Main, MainAnswers, raise_count, with_buffer, handle_new_entry}
use net_det.App.Main.Table.{IsTable, Adds, draw_main-IsTable}

-- The table with one device more.
abbrev appended : DeviceBuffer → ℕ → DeviceBuffer
appended b p = record b { items = set b.items b.count (some p); count = b.count + 1 }

module _ (answers : MainAnswers) (m : Main) (t : IsTable m) (p : ℕ) (d : Device)
    (there : m.heap p ≡ some d)
    (room : 5 * (m.context.buffer.buffer.count + 1) ≤ 4 * m.context.buffer.buffer.size) where
  abbrev new : DeviceBuffer
  new = appended m.context.buffer.buffer p

  appended-IsValid : IsValid new
  appended-IsValid = record {
    allocated = rw length-set t.valid.allocated;
    load = room;
    fits = t.valid.fits;
  }

  abbrev added : Main
  added = raise_count (with_buffer new m)

  wide : length new.items ≡ length m.context.buffer.buffer.items
  wide = length-set m.context.buffer.buffer.items m.context.buffer.buffer.count (some p)

  reads :
      (j : ℕ)
      → get_or new.items j none ≡ (
          if j == m.context.buffer.buffer.count
          then some p
          else get_or m.context.buffer.buffer.items j none)
  reads j =
      let inside : m.context.buffer.buffer.count < length m.context.buffer.buffer.items =
        omega (arith, t.valid.allocated) in
      let writes =
        get_or-set m.context.buffer.buffer.items m.context.buffer.buffer.count j (some p) none in
      ground (arith, writes)

  added_count : added.context.buffer.view.count ≡ m.context.buffer.view.count + 1
  added_count = omega (arith, t.backed.fits)

  added-IsLive :
      (j : ℕ) → j < m.context.buffer.view.count + 1 → IsLive m.heap added.context.buffer j
  added-IsLive j below = elim (Bool-cases (j == m.context.buffer.buffer.count)) [
    | inl last ↦ record { pointer = p; dev = d; stored = ground (arith, reads j); there = there }
    | inr before ↦
        let x = t.backed.live j (ground (arith, t.counted)) in
        record {
          pointer = x.pointer;
          dev = x.dev;
          stored = ground (arith, reads j, x.stored);
          there = x.there;
        }
  ]

  added-IsTable : IsTable added
  added-IsTable = record {
    backed = record {
      inside = omega (arith, added_count, t.backed.inside);
      stored = omega (arith, wide, added_count, t.counted, t.valid.allocated);
      fits = omega (arith, added_count, t.counted, t.backed.size_fits);
      size_fits = t.backed.size_fits;
      live = λ j below. added-IsLive j (omega (arith, added_count));
    };
    valid = appended-IsValid;
    narrow = t.narrow;
    some_slots = t.some_slots;
    counted = added_count ∙ ap (λ k. k + 1) t.counted;
    popup = t.popup;
  }

  pub handle_new_entry-IsTable : Adds (some p ∷ []) m (handle_new_entry answers (some p) m)
  unfolding handle_new_entry
  handle_new_entry-IsTable =
      let b = m.context.buffer.buffer in
      let inside : b.count < length b.items = omega (arith, t.valid.allocated) in
      let (m', draws, t', same, heap, process) = draw_main-IsTable answers added added-IsTable in
      (
        m',
        rw (device_buffer_store_entry-set answers.realloc b (some p) t.valid room) draws,
        t',
        same ∙ rw add-one (take-set b.items b.count (some p) inside),
        heap,
        process,
      )
