-- ===== src/Prelude/Exec.antt =====
-- What a run of C code does: it returns, or it meets a fault (undefined behaviour of C, or a loop
-- that has used up its fuel).
use mathlib.Core.Path.{◌≡◌, refl, ◌∙◌}
use mathlib.Core.Logic.{inl, inr}
use mathlib.Core.Bool.{◌&&◌}
use mathlib.Core.List.{List, [], ◌∷◌}
use mathlib.Core.Option.{Option, none, some}
use native.Mathlib.Omega.{arith}
use Prim.Native.Nat.{ℕ, zero, suc, ◌+◌, ◌-◌, ◌≤◌, ◌<◌, ◌%◌}
use net_det.Prelude.Lists.{length, get_or, set, length-set, get_or-set}
use net_det.Prelude.Tests.{ltb, leb, ◌==◌, if◌then◌else◌, Bool-cases, ltb→lt}

pub data Fault : Type 0 where
  out_of_bounds null_dereference division_by_zero out_of_fuel : Fault

pub data Run {ℓ} (A : Type ℓ) : Type ℓ where
  ok : A → Run A
  fault : Fault → Run A

infixl 5 ◌>>=◌ ◌>>◌
abbrev pub ◌>>=◌ {ℓ κ} : {A : Type ℓ} {B : Type κ} → Run A → (A → Run B) → Run B
ok a >>= f = f a
fault e >>= f = fault e

abbrev pub ◌>>◌ {ℓ} : {B : Type ℓ} → Run (Unit {0}) → Run B → Run B
m >> k = m >>= λ _. k

-- `a % n` of C, which is undefined at 0.
abbrev pub modulo : ℕ → ℕ → Run ℕ
modulo a zero = fault division_by_zero
modulo a (suc n) = ok (a % suc n)

module _ {ℓ} {A : Type ℓ} where
  -- `xs[i]` as a value
  abbrev pub at : List A → ℕ → Run A
  at [] i = fault out_of_bounds
  at (x ∷ xs) zero = ok x
  at (x ∷ xs) (suc i) = at xs i

  -- `xs[i] = v`
  abbrev pub store : List A → ℕ → A → Run (List A)
  store [] i v = fault out_of_bounds
  store (x ∷ xs) zero v = ok (v ∷ xs)
  store (x ∷ xs) (suc i) v = store xs i v >>= λ ys. ok (x ∷ ys)

  -- A read through a pointer that may be null.
  abbrev pub not_null : Option A → Run A
  not_null none = fault null_dereference
  not_null (some a) = ok a

module _ {ℓ} {A : Type ℓ} where
  pub at-get_or : (xs : List A) (i : ℕ) (d : A) → i < length xs → at xs i ≡ ok (get_or xs i d)
  at-get_or [] i d h = absurd (omega arith)
  at-get_or (x ∷ xs) zero d h = refl
  at-get_or (x ∷ xs) (suc i) d h = at-get_or xs i d (omega arith)

  pub store-set : (xs : List A) (i : ℕ) (v : A) → i < length xs → store xs i v ≡ ok (set xs i v)
  store-set [] i v h = absurd (omega arith)
  store-set (x ∷ xs) zero v h = refl
  store-set (x ∷ xs) (suc i) v h = rw (store-set xs i v (omega arith))

pub modulo-pos : (a n : ℕ) → 0 < n → modulo a n ≡ ok (a % n)
modulo-pos a zero h = absurd (omega arith)
modulo-pos a (suc n) h = refl

-- How a function of a thread ends: it returns, or it ends the thread by `pthread_exit`.
pub data Flow {ℓ} (A : Type ℓ) : Type ℓ where
  returned : A → Flow A
  exited : Flow A

module _ {ℓ} {A : Type ℓ} where
  -- `for (k = i; k < i + n; k++) xs[k] = v;`, which `memset` is too
  unfoldable pub fill : A → ℕ → ℕ → List A → Run (List A)
  fill v zero i xs = ok xs
  fill v (suc n) i xs = store xs i v >>= λ ys. fill v n (i + 1) ys

  pub store_outside :
      (xs : List A) (i : ℕ) (v : A) → length xs ≤ i → store xs i v ≡ fault out_of_bounds
  store_outside [] i v h = refl
  store_outside (x ∷ xs) zero v h = absurd (omega arith)
  store_outside (x ∷ xs) (suc i) v h = rw (store_outside xs i v (omega arith))

module _ {ℓ} {A : Type ℓ} where
  pub fill-get_or :
      (v : A) (n i : ℕ) (xs : List A)
      → i + n ≤ length xs
      → (ys : List A) × (fill v n i xs ≡ ok ys)
        × (length ys ≡ length xs)
        × ((j : ℕ) (d : A)
            → get_or ys j d ≡ (if leb i j && ltb j (i + n) then v else get_or xs j d))
  unfolding fill
  fill-get_or v zero i xs h = (xs, refl, refl, λ j d. ground arith)
  fill-get_or v (suc n) i xs h =
      let (ys, runs, width, reads) =
        fill-get_or v n (i + 1) (set xs i v) (rw length-set (omega arith)) in
      (
        ys,
        rw (store-set xs i v (omega arith)) runs,
        width ∙ length-set xs i v,
        λ j d. ground (arith, reads j d, get_or-set xs i j v d),
      )

  -- A fill that reaches past the end is undefined.
  pub fill_outside :
      (v : A) (n i : ℕ) (xs : List A)
      → 0 < n
      → length xs < i + n
      → fill v n i xs ≡ fault out_of_bounds
  unfolding fill
  fill_outside v zero i xs pos h = absurd (omega arith)
  fill_outside v (suc n) i xs pos h = elim (Bool-cases (ltb i (length xs))) [
    | inr out ↦ rw (store_outside xs i v (ground arith))
    | inl inside ↦
        rw (store-set xs i v (ltb→lt _ _ inside))
          (fill_outside v n (i + 1) (set xs i v) (ground arith) (rw length-set (omega arith)))
  ]

-- `memcpy(&dst[i], &src[j], n)`
unfoldable pub copy : ℕ → ℕ → ℕ → List ℕ → List ℕ → Run (List ℕ)
copy zero i j dst src = ok dst
copy (suc n) i j dst src = do v ← at src j; dst' ← store dst i v; copy n (i + 1) (j + 1) dst' src

copied_cell :
    (n i j k : ℕ) (dst src : List ℕ) (y : ℕ)
    → i < length dst
    → y ≡ (
        if leb (i + 1) k && ltb k (i + 1 + n)
        then get_or src (k - (i + 1) + (j + 1)) 0
        else get_or (set dst i (get_or src j 0)) k 0)
    → y ≡ (if leb i k && ltb k (i + suc n) then get_or src (k - i + j) 0 else get_or dst k 0)
copied_cell n i j k dst src y below e = elim (Bool-cases (i == k)) [
  | inl same ↦
      let here : k - i + j ≡ j = ground arith in
      ground (arith, get_or-set dst i k (get_or src j 0) 0)
  | inr other ↦ elim (Bool-cases (ltb i k)) [
    | inl later ↦
        let there : k - (i + 1) + (j + 1) ≡ k - i + j = ground arith in
        ground (arith, get_or-set dst i k (get_or src j 0) 0)
    | inr before ↦ ground (arith, get_or-set dst i k (get_or src j 0) 0)
  ]
]

pub copy-get_or :
    (n i j : ℕ) (dst src : List ℕ)
    → i + n ≤ length dst
    → j + n ≤ length src
    → (ys : List ℕ) × (copy n i j dst src ≡ ok ys)
      × (length ys ≡ length dst)
      × ((k : ℕ)
          → get_or ys k 0
            ≡ (if leb i k && ltb k (i + n) then get_or src (k - i + j) 0 else get_or dst k 0))
unfolding copy
copy-get_or zero i j dst src h g = (dst, refl, refl, λ k. ground arith)
copy-get_or (suc n) i j dst src h g =
    let v = get_or src j 0 in
    let (ys, runs, width, reads) =
      copy-get_or n (i + 1) (j + 1) (set dst i v) src (rw length-set (omega arith)) (omega arith) in
    (
      ys,
      rw (at-get_or src j 0 (omega arith), store-set dst i v (omega arith)) runs,
      width ∙ length-set dst i v,
      λ k. copied_cell n i j k dst src (get_or ys k 0) (omega arith) (reads k),
    )

-- A copy within the source that reaches past the end of the destination is undefined.
pub copy_outside :
    (n i j : ℕ) (dst src : List ℕ)
    → 0 < n
    → j + n ≤ length src
    → length dst < i + n
    → copy n i j dst src ≡ fault out_of_bounds
unfolding copy
copy_outside zero i j dst src pos g h = absurd (omega arith)
copy_outside (suc n) i j dst src pos g h = elim (Bool-cases (ltb i (length dst))) [
  | inr out ↦
      rw (at-get_or src j 0 (omega arith), store_outside dst i (get_or src j 0) (ground arith))
  | inl inside ↦
      rw (at-get_or src j 0 (omega arith), store-set dst i (get_or src j 0) (ltb→lt _ _ inside))
        (copy_outside n (i + 1) (j + 1) (set dst i (get_or src j 0)) src (ground arith)
          (omega arith) (rw length-set (omega arith)))
]
