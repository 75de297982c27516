-- ===== src/App/Main/Moved.antt =====
-- The table on another memory.
use mathlib.Core.List.{Memᴰ}
use mathlib.Core.List.Memᴰ
use net_det.Prelude.{
  ℕ, zero, suc, ◌<◌, ◌≡◌, refl, sym, Option, none, some, List, [], ◌∷◌, arith, length, take, get_or,
}
use net_det.Core.Device.{Device, Heap}
use net_det.Core.DeviceBuffer.{contents}
use net_det.App.Process.{Process}
use net_det.App.Main.{Main, with_process}
use net_det.Ui.Popup.Settled.{process-IsSettled}
use net_det.App.Main.Table.{IsTable}

take-Memᴰ :
    (xs : List (Option ℕ)) (n j : ℕ) → j < n → j < length xs → Memᴰ (get_or xs j none) (take n xs)
take-Memᴰ xs zero j below inside = absurd (omega arith)
take-Memᴰ [] (suc n) j below inside = absurd (omega arith)
take-Memᴰ (x ∷ xs) (suc n) zero below inside = Memᴰ.head refl
take-Memᴰ (x ∷ xs) (suc n) (suc j) below inside =
    Memᴰ.tail (take-Memᴰ xs n j (omega arith) (omega arith))

-- The table on another memory, in which its devices are too.
pub moved-IsTable :
    (m : Main) (heap : Heap) (process : Process)
    → IsTable m
    → ((p : ℕ)
        → Memᴰ (some p) (contents m.context.buffer.buffer)
        → (d : Device) × (heap p ≡ some d))
    → IsTable (with_process process (record m { heap = heap }))
moved-IsTable m heap process t still = record {
  backed = record {
    inside = t.backed.inside;
    stored = t.backed.stored;
    fits = t.backed.fits;
    size_fits = t.backed.size_fits;
    live = λ j below.
        let x = t.backed.live j below in
        let (d, there) = still x.pointer (
          Memᴰ.cast (sym x.stored) (
            take-Memᴰ m.context.buffer.buffer.items m.context.buffer.buffer.count j
              (omega (arith, t.counted)) (omega (arith, t.backed.stored)))) in
        record { pointer = x.pointer; dev = d; stored = x.stored; there = there };
  };
  valid = t.valid;
  narrow = t.narrow;
  some_slots = t.some_slots;
  counted = t.counted;
  popup = process-IsSettled process m.context.screen t.popup;
}
