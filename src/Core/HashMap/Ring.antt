-- ===== src/Core/HashMap/Ring.antt =====
-- The slots as a ring: how many steps of `index = (index + 1) % size` lead from one to another.
use native.Mathlib.Nat.{mod-eq_of_lt, mod_self}
use net_det.Prelude.{
  ℕ, ◌+◌, ◌-◌, ◌%◌, ◌<◌, ◌≡◌, ◌≢◌, ok, arith, modulo, modulo-pos, leb, ◌==◌, if◌then◌else◌, ap,
  Bool-cases, inl, inr, ==_iff,
}

abbrev pub distance : ℕ → ℕ → ℕ → ℕ
distance n home i = if leb home i then i - home else i + n - home

abbrev pub next : ℕ → ℕ → ℕ
next n i = if i + 1 == n then 0 else i + 1

-- The index of the code, in a word of `w` values, takes that step.
pub modulo-next : (w i n : ℕ) → i < n → n < w → modulo ((i + 1) % w) n ≡ ok (next n i)
modulo-next w i n h b =
    rw (mod-eq_of_lt {n = i + 1} {m = w} (omega arith), modulo-pos (i + 1) n (omega arith))
      (elim (Bool-cases (i + 1 == n)) [
        | inl wraps ↦ rw wraps (ap ok (wrapped ((==_iff (i + 1) n).0 wraps)))
        | inr inside ↦ rw inside (ap ok (mod-eq_of_lt (ground arith)))
      ])
  where
    wrapped : i + 1 ≡ n → (i + 1) % n ≡ 0
    wrapped e = rw e (mod_self n)

module _ (n h i : ℕ) (home_in : h < n) (here_in : i < n) where
  pub distance-lt : distance n h i < n
  distance-lt = ground arith

  pub next-lt : next n i < n
  next-lt = ground arith

  pub distance-next : next n i ≢ h → distance n h (next n i) ≡ distance n h i + 1
  distance-next away = ground arith

  pub distance-eq_last : next n i ≡ h → distance n h i + 1 ≡ n
  distance-eq_last back = ground arith

  pub distance-injective : (j : ℕ) → j < n → distance n h i ≡ distance n h j → i ≡ j
  distance-injective j there e = ground arith

pub distance-home : (n h : ℕ) → distance n h h ≡ 0
distance-home n h = ground arith
