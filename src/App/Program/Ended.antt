-- ===== src/App/Program/Ended.antt =====
-- How the program ends: what `main_clean_up` frees of all that the threads have made.
use mathlib.Core.Path.{subst}
use mathlib.Core.List.{Memᴰ}
use mathlib.Core.List.Memᴰ
use net_det.Prelude.{
  ℕ, zero, suc, ◌<◌, ◌≡◌, refl, sym, ◌∙◌, ◌⊎◌, inl, inr, true, Option, none, some, List, [], ◌∷◌,
  ◌++◌, arith, ok, get_or, take, replicate,
}
use net_det.Core.Device.{Mac, Device, UiMessage, buffer_initial_size}
use net_det.Core.DeviceBuffer.{contents}
use net_det.Core.HashMap.{HashEntry, zero_entry}
use net_det.Core.HashMap.Slots.{scan}
use net_det.Common.Error.{get_error}
use net_det.App.Main.{Main, main_process, main_clean_up}
use net_det.App.Main.CleanUp.{IsDistinct, main_clean_up-IsFreed}
use net_det.App.Main.Messages.{entries}
use net_det.App.System.{System, Action, shared}
use net_det.App.System.InStep.{new_entry}
use net_det.App.System.Occurs.{firsts, occurs-Memᴰ, at-Memᴰ, occurs-IsDistinct}
use net_det.App.System.Consistent.{IsConsistent}
use net_det.App.System.Steps.{AllFair, perform_all-IsConsistent}
use net_det.App.Program.{ProgramAnswers, program_init, run_program}
use net_det.App.Program.Begun.{program_init-IsConsistent}

-- The device is in the table.
abbrev pub IsListed : System → ℕ → Type 0
IsListed s p = Memᴰ (some p) (contents s.main.context.buffer.buffer)

-- What has become of the devices: those of the table are freed and nothing else is, and each device of the
-- map was in the table, or is still in memory, with its first message unread.
pub record IsEnded (s : System) (m : Main) : Type 0 where
  pub freed : (p : ℕ) → IsListed s p → m.heap p ≡ none
  pub kept : (p : ℕ) → ¬ IsListed s p → m.heap p ≡ s.network.heap p
  pub known :
      (q : Mac) (p : ℕ)
      → scan s.network.map.table q ≡ some p
      → IsListed s p
        ⊎ ((d : Device) × (m.heap p ≡ some d) × Memᴰ (new_entry p) s.network.process.event_bus)

taken-at :
    (xs : List (Option ℕ)) (n p : ℕ)
    → Memᴰ (some p) (take n xs)
    → (j : ℕ) × (j < n) × (get_or xs j none ≡ some p)
taken-at xs zero p at = absurd (Memᴰ.not-nil at)
taken-at [] (suc n) p at = absurd (Memᴰ.not-nil at)
taken-at (x ∷ xs) (suc n) p at = elim (Memᴰ.cases_cons at) [
  | inl here ↦ (0, omega arith, sym here)
  | inr later ↦ let (j, below, holds) = taken-at xs n p later in (suc j, omega arith, holds)
]

-- A first message on its way, as one of those that bring a device.
sent-firsts : (bus : List UiMessage) (p : ℕ) → Memᴰ (new_entry p) bus → Memᴰ (some p) (firsts bus)
unfolding firsts
sent-firsts [] p at = absurd (Memᴰ.not-nil at)
sent-firsts (msg ∷ bus) p at = elim (Memᴰ.cases_cons at) [
  | inl here ↦
      subst (λ msg. Memᴰ (some p) (entries msg.msg_type msg.device ++ firsts bus)) here
        (Memᴰ.head refl)
  | inr later ↦ Memᴰ.append_right (entries msg.msg_type msg.device) (sent-firsts bus p later)
]

module _ (s : System) (c : IsConsistent s) where
  abbrev listed : List (Option ℕ)
  listed = contents s.main.context.buffer.buffer

  listed-IsDistinct : IsDistinct s.main.context.buffer.buffer.items s.main.context.buffer.view.count
  listed-IsDistinct = subst (IsDistinct s.main.context.buffer.buffer.items) (sym c.table.counted) (
      occurs-IsDistinct s.main.context.buffer.buffer.items s.main.context.buffer.buffer.count
        (λ p. omega (arith, c.in_step.once p)))

  -- A device whose first message is unread is not in the table.
  unread-absent : (p : ℕ) → Memᴰ (new_entry p) s.network.process.event_bus → ¬ IsListed s p
  unread-absent p sent shown =
      let way =
        occurs-Memᴰ p (firsts s.network.process.event_bus)
          (sent-firsts s.network.process.event_bus p sent) in
      let here = occurs-Memᴰ p listed shown in omega (arith, c.in_step.once p, way, here)

  pub main_clean_up-IsEnded :
      (m : Main) × (main_clean_up (shared s) ≡ ok (m, get_error s.network.process)) × IsEnded s m
  main_clean_up-IsEnded =
      let (m, cleans, freed, _) =
        main_clean_up-IsFreed (shared s) c.table.backed listed-IsDistinct c.table.popup in
      let kept : (p : ℕ) → ¬ IsListed s p → m.heap p ≡ s.network.heap p = λ p absent.
        freed.kept p (λ j low below holds. absent (
          at-Memᴰ s.main.context.buffer.buffer.items s.main.context.buffer.buffer.count j p
            (omega (arith, c.table.counted)) holds)) in
      (
        m,
        cleans,
        record {
          freed = λ p shown.
              let (j, below, holds) =
                taken-at s.main.context.buffer.buffer.items s.main.context.buffer.buffer.count p
                  shown in
              freed.gone p (j, omega arith, omega (arith, c.table.counted), holds);
          kept = kept;
          known = λ q p bound. elim (c.in_step.told q p bound) [
            | inl shown ↦ inl shown
            | inr sent ↦
                let x = c.sound.linked q p bound in
                inr (x.dev, kept p (unread-absent p sent) ∙ x.there, sent)
          ];
        },
      )

-- Where `is_visible` is set, `calloc` gives zeroed memory, and no message is on its way: the program that
-- starts and does any sequence of frames, ticks, new bindings of the socket, signals, keys but that of a
-- device's popup, and messages read while the table is less than four fifths full, in any order, each with the
-- answers that it needs, and ends, meets no fault, is consistent before the end, gives the report of
-- `get_error`, and frees every device of the table and nothing else; each device of the map was in the table,
-- or it is still in memory and its first message has not been read.
pub run_program-IsEnded :
    (answers : ProgramAnswers) (actions : List Action) (m : Main)
    → m.context.screen.is_visible ≡ true
    → answers.start.record_found ≡ true
    → answers.start.calloc buffer_initial_size ≡ some (replicate buffer_initial_size none)
    → ((table : List HashEntry)
        → answers.network.calloc 128 ≡ some table
        → table ≡ replicate 128 zero_entry)
    → (main_process m).event_bus ≡ []
    → ((s : System) → program_init answers m ≡ ok s → AllFair actions s)
    → (s : System) × (m' : Main) × (run_program answers actions m
        ≡ ok (s, m', get_error s.network.process))
      × IsConsistent s
      × IsEnded s m'
unfolding run_program
run_program-IsEnded answers actions m visible found slots zeroed unsent fair =
    let (s, begins, c) = program_init-IsConsistent answers m visible found slots zeroed unsent in
    let (s', runs, c') = perform_all-IsConsistent actions s c (fair s begins) in
    let (m', cleans, ended) = main_clean_up-IsEnded s' c' in
    (s', m', rw (begins, runs, cleans), c', ended)
