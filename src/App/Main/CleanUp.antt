-- ===== src/App/Main/CleanUp.antt =====
-- The end of the main thread: every device of the table is freed, once.
use net_det.Prelude.{
  ℕ, zero, suc, ◌+◌, ◌≤◌, ◌<◌, ◌≡◌, ◌≢◌, refl, sym, ap, ◌∙◌, Option, none, some, List, ◌∷◌, arith,
  Run, length, get_or, ok, if◌then◌else◌, at-get_or, ◌==◌, Bool-cases, inl, inr, ==_iff,
}
use net_det.Core.Device.{Device, Heap}
use net_det.App.Lifecycle.{lifecycle_cleanup}
use net_det.Common.Error.{get_error}
use net_det.Net.FrameParser.{release}
use net_det.Ui.Table.{DeviceTableView}
use net_det.Ui.Table.Rows.{IsBacked}
use net_det.App.Process.{Process}
use net_det.Ui.Screen.{Screen}
use net_det.Ui.Interfaces.{interfaces_list_clean_up}
use net_det.Ui.Popup.{data_cleanup}
use net_det.Ui.Popup.Settled.{IsSettled}
use net_det.App.Main.{Main, free_devices, main_clean_up, ended, closed_process, main_process}

-- No device stands twice in the first `n` slots.
abbrev pub IsDistinct : List (Option ℕ) → ℕ → Type 0
IsDistinct items n =
    (i j p : ℕ) → i < j → j < n → get_or items i none ≡ some p → get_or items j none ≢ some p

-- One of the slots from `i` up to `n` holds the device.
abbrev pub Holds : List (Option ℕ) → ℕ → ℕ → ℕ → Type 0
Holds items i n p = (j : ℕ) × (i ≤ j) × (j < n) × (get_or items j none ≡ some p)

-- The devices of the slots are gone, and no other.
pub record IsFreed (items : List (Option ℕ)) (i n : ℕ) (heap heap' : Heap) : Type 0 where
  pub gone : (p : ℕ) → Holds items i n p → heap' p ≡ none
  pub kept : (p : ℕ) → ((j : ℕ) → i ≤ j → j < n → get_or items j none ≢ some p) → heap' p ≡ heap p

abbrev Stored : List (Option ℕ) → Heap → ℕ → Type 0
Stored items heap j = (p : ℕ) × (d : Device) × (get_or items j none ≡ some p) × (heap p ≡ some d)

release_same : (heap : Heap) (p q : ℕ) → some q ≡ some p → release heap p q ≡ none
release_same heap p q same = ground arith

release_other : (heap : Heap) (p q : ℕ) → q ≢ p → release heap p q ≡ heap q
release_other heap p q apart = ground arith

free_devices-IsFreed :
    (items : List (Option ℕ)) (n rounds i : ℕ) (heap : Heap)
    → i + rounds ≡ n
    → n ≤ length items
    → IsDistinct items n
    → ((j : ℕ) → i ≤ j → j < n → Stored items heap j)
    → (heap' : Heap) × (free_devices rounds i items heap ≡ ok heap') × IsFreed items i n heap heap'
unfolding free_devices
free_devices-IsFreed items n zero i heap all inside distinct live = (
  heap,
  refl,
  record { gone = λ p (j, low, high, _). absurd (omega arith); kept = λ p apart. refl },
)
free_devices-IsFreed items n (suc rounds) i heap all inside distinct live =
    let (p, d, stored, there) = live i (omega arith) (omega arith) in
    let reads = at-get_or items i none (omega arith) ∙ ap ok stored in
    let others : (j : ℕ) → i + 1 ≤ j → j < n → Stored items (release heap p) j = λ j low high.
      let (q, e, holds, is_there) = live j (omega arith) high in
      let apart : q ≢ p = λ same. distinct i j p (omega arith) high stored (holds ∙ ap some same) in
      (q, e, holds, release_other heap p q apart ∙ is_there) in
    let (heap', runs, freed) =
      free_devices-IsFreed items n rounds (i + 1) (release heap p) (omega arith) inside distinct
        others in
    (
      heap',
      rw (reads, there) runs,
      record {
        gone = λ q (j, low, high, holds). elim (Bool-cases (j == i)) [
          | inl same ↦
              let at_i : j ≡ i = (==_iff j i).0 same in
              let here : some q ≡ some p =
                sym holds ∙ ap (λ k. get_or items k none) at_i ∙ stored in
              freed.kept q
                (λ k later below. λ again. distinct i k p (omega arith) below stored (again ∙ here))
              ∙ release_same heap p q here
          | inr other ↦ freed.gone q (j, ground arith, high, holds)
        ];
        kept = λ q apart.
            freed.kept q (λ j low high. apart j (omega arith) high)
            ∙ release_other heap p q
                (λ same. apart i (omega arith) (omega arith) (stored ∙ ap some (sym same)));
      },
    )

-- The end of an open list of interfaces.
abbrev cleaned : Screen → Run Screen
cleaned s = if s.popup_window.is_active then data_cleanup s.popup_type s else ok s

cleaned_ok :
    (s : Screen) (p : Process)
    → IsSettled s
    → (s' : Screen) × (cleaned (record s { process = p }) ≡ ok s') × (s'.process ≡ p)
unfolding data_cleanup interfaces_list_clean_up
cleaned_ok s p (inl shut) = (record s { process = p }, rw shut.inactive, refl)
cleaned_ok s p (inr o) =
    (record s { process = p; popup_list = none }, simp (o.active, o.kind, o.listed, o.ended), refl)

get_error_same :
    (m : Main) (p : Process) → p ≡ closed_process m → get_error p ≡ get_error (main_process m)
unfolding lifecycle_cleanup get_error
get_error_same m p same = rw same refl

-- In a table of devices in memory, none of which stands in it twice, and with no popup or the list of interfaces
-- open: `main_clean_up` frees every device of the table and no other, without a fault, closes `epoll_fd` after
-- the descriptors of the lifecycle, and gives the report of `get_error`.
pub main_clean_up-IsFreed :
    (m : Main)
    → IsBacked m.heap m.context.buffer
    → IsDistinct m.context.buffer.buffer.items m.context.buffer.view.count
    → IsSettled m.context.screen
    → (m' : Main) × (main_clean_up m ≡ ok (m', get_error (main_process m)))
      × IsFreed m.context.buffer.buffer.items 0 m.context.buffer.view.count m.heap m'.heap
      × ((main_process m').closed
          ≡ m.epoll_fd
            ∷ m.fds.shutdown_main_fd
            ∷ m.fds.pipe_write
            ∷ m.fds.pipe_read
            ∷ (main_process m).closed)
unfolding main_clean_up lifecycle_cleanup
main_clean_up-IsFreed m backed distinct settled =
    let table : DeviceTableView = m.context.buffer in
    let (heap', frees, freed) =
      free_devices-IsFreed table.buffer.items table.view.count table.view.count 0 m.heap
        (omega arith) backed.stored distinct
        (λ j low below. let x = backed.live j below in (x.pointer, x.dev, x.stored, x.there)) in
    let (s', cleans, same) = cleaned_ok m.context.screen (closed_process m) settled in
    (
      ended heap' s' m,
      simp (frees, cleans, get_error_same m s'.process same),
      freed,
      ap (λ p. p.closed) same,
    )
