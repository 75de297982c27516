-- ===== src/App/System/Occurs.antt =====
-- How often a device stands in a list of pointers, and the first messages about devices among those of the
-- event bus.
use mathlib.Core.List.{Memᴰ, append_assoc}
use mathlib.Core.List.Memᴰ
use net_det.Prelude.{
  ℕ, zero, suc, ◌+◌, ◌≤◌, ◌<◌, ◌≡◌, refl, sym, ap, ◌∙◌, ◌⊎◌, inl, inr, true, false, Bool-cases,
  ==_iff, Option, none, some, List, [], ◌∷◌, ◌++◌, arith, take, get_or, ◌==◌, if◌then◌else◌,
}
use net_det.Core.Device.{UiMessage}
use net_det.Ui.Table.{is_pointer}
use net_det.App.Main.CleanUp.{IsDistinct}
use net_det.App.Main.Messages.{entries}

unfoldable pub occurs : ℕ → List (Option ℕ) → ℕ
occurs p [] = 0
occurs p (x ∷ xs) = (if is_pointer x (some p) then 1 else 0) + occurs p xs

-- The devices that the messages bring into the table.
unfoldable pub firsts : List UiMessage → List (Option ℕ)
firsts [] = []
firsts (msg ∷ bus) = entries msg.msg_type msg.device ++ firsts bus

pub occurs-++ : (p : ℕ) (xs ys : List (Option ℕ)) → occurs p (xs ++ ys) ≡ occurs p xs + occurs p ys
unfolding occurs
occurs-++ p [] ys = omega arith
occurs-++ p (x ∷ xs) ys = omega (arith, occurs-++ p xs ys)

pub firsts-++ : (xs ys : List UiMessage) → firsts (xs ++ ys) ≡ firsts xs ++ firsts ys
unfolding firsts
firsts-++ [] ys = refl
firsts-++ (m ∷ xs) ys =
    ap (λ l. entries m.msg_type m.device ++ l) (firsts-++ xs ys)
    ∙ sym (append_assoc (entries m.msg_type m.device) (firsts xs) (firsts ys))

pointed : (x : Option ℕ) (p : ℕ) → (some p ≡ x) ⊎ (is_pointer x (some p) ≡ false)
pointed none p = inr refl
pointed (some q) p = elim (Bool-cases (q == p)) [
  | inl same ↦ inl (ap some (sym ((==_iff q p).0 same)))
  | inr other ↦ inr other
]

-- A device that stands in the list does so once at least, and one that does not, never.
pub occurs-Memᴰ : (p : ℕ) (xs : List (Option ℕ)) → Memᴰ (some p) xs → 1 ≤ occurs p xs
unfolding occurs
occurs-Memᴰ p [] at = absurd (Memᴰ.not-nil at)
occurs-Memᴰ p (x ∷ xs) at = elim (Memᴰ.cases_cons at) [
  | inl here ↦ let self : (p == p) ≡ true = ground arith in rw (← here, self) (omega arith)
  | inr later ↦ omega (arith, occurs-Memᴰ p xs later)
]

pub occurs-absent : (p : ℕ) (xs : List (Option ℕ)) → ¬ Memᴰ (some p) xs → occurs p xs ≡ 0
unfolding occurs
occurs-absent p [] absent = refl
occurs-absent p (x ∷ xs) absent = elim (pointed x p) [
  | inl here ↦ absurd (absent (Memᴰ.head here))
  | inr other ↦
      let rest = occurs-absent p xs (λ later. absent (Memᴰ.tail later)) in
      rw other (omega (arith, rest))
]

pub at-Memᴰ :
    (xs : List (Option ℕ)) (n j p : ℕ)
    → j < n
    → get_or xs j none ≡ some p
    → Memᴰ (some p) (take n xs)
at-Memᴰ xs zero j p below here = absurd (omega arith)
at-Memᴰ [] (suc n) j p below here = absurd (cc here)
at-Memᴰ (x ∷ xs) (suc n) zero p below here = Memᴰ.head (sym here)
at-Memᴰ (x ∷ xs) (suc n) (suc j) p below here = Memᴰ.tail (at-Memᴰ xs n j p (omega arith) here)

twice :
    (xs : List (Option ℕ)) (n i j p : ℕ)
    → i < j
    → j < n
    → get_or xs i none ≡ some p
    → get_or xs j none ≡ some p
    → 2 ≤ occurs p (take n xs)
unfolding occurs
twice xs zero i j p before below one two = absurd (omega arith)
twice [] (suc n) i j p before below one two = absurd (cc one)
twice (x ∷ xs) (suc n) i zero p before below one two = absurd (omega arith)
twice (x ∷ xs) (suc n) zero (suc j) p before below one two =
    let later = occurs-Memᴰ p (take n xs) (at-Memᴰ xs n j p (omega arith) two) in
    let self : (p == p) ≡ true = ground arith in rw (one, self) (omega (arith, later))
twice (x ∷ xs) (suc n) (suc i) (suc j) p before below one two =
    omega (arith, twice xs n i j p (omega arith) (omega arith) one two)

-- A list in which no device occurs more than once.
pub occurs-IsDistinct :
    (xs : List (Option ℕ)) (n : ℕ) → ((p : ℕ) → occurs p (take n xs) ≤ 1) → IsDistinct xs n
occurs-IsDistinct xs n once i j p before below one two =
    omega (arith, once p, twice xs n i j p before below one two)
