-- ===== src/Ui/Popup/Geometry.antt =====
-- Where the popup window stands.
use net_det.Prelude.{◌+◌, ◌≡◌, arith, inl, inr, Bool-cases}
use net_det.Prelude.Int.{ℤ, pos, pos_part, neg_part, ltb_ℤ, ◌+ℤ◌, ◌-ℤ◌, ◌≤ℤ◌, +ℤ_parts}
use net_det.Ui.Screen.{WindowData}
use net_det.Ui.Popup.{place_popup}

-- The inner window is a rectangle of the outer one.
pub record IsWithin (outer inner : WindowData) : Type 0 where
  pub left : outer.start_x ≤ℤ inner.start_x
  pub top : outer.start_y ≤ℤ inner.start_y
  pub right : inner.start_x +ℤ inner.width ≤ℤ outer.start_x +ℤ outer.width
  pub bottom : inner.start_y +ℤ inner.height ≤ℤ outer.start_y +ℤ outer.height

-ℤ_parts :
    (a b : ℤ)
    → pos_part (a -ℤ b) + neg_part a + pos_part b ≡ neg_part (a -ℤ b) + pos_part a + neg_part b
unfolding ◌-ℤ◌
-ℤ_parts a b = ground arith

inset_start : (x : ℤ) → x ≤ℤ x +ℤ pos 5
inset_start x = omega (arith, +ℤ_parts x (pos 5))

inset_end : (x w : ℤ) → (x +ℤ pos 5) +ℤ (w -ℤ pos 10) ≤ℤ x +ℤ w
inset_end x w = omega (
  arith,
  +ℤ_parts x (pos 5),
  -ℤ_parts w (pos 10),
  +ℤ_parts (x +ℤ pos 5) (w -ℤ pos 10),
  +ℤ_parts x w,
)

-- In every main window, whatever its size, the popup's rectangle lies within the window's; and where the
-- window has three lines or more, the popup has too.
pub place_popup-IsWithin :
    (main popup : WindowData)
    → IsWithin main (place_popup main popup)
      × (pos 3 ≤ℤ main.height → pos 3 ≤ℤ (place_popup main popup).height)
unfolding place_popup
place_popup-IsWithin main popup = elim (Bool-cases (ltb_ℤ (main.height -ℤ pos 10) (pos 3))) [
  | inl low ↦ rw low (
    record { left = omega arith; top = omega arith; right = omega arith; bottom = omega arith },
    λ tall. tall,
  )
  | inr high ↦ rw high (
    record {
      left = inset_start main.start_x;
      top = inset_start main.start_y;
      right = inset_end main.start_x main.width;
      bottom = inset_end main.start_y main.height;
    },
    λ tall. ground arith,
  )
]
