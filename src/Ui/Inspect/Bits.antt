-- ===== src/Ui/Inspect/Bits.antt =====
-- The masks that take a tag apart, as remainders and quotients. `Masks m f` says that the mask `m` gives
-- `f a`, for as many digits as there may be.
use Prim.Native.Nat.{min, digits, bit_and-bitwise}
use net_det.Prelude.{ℕ, zero, suc, ◌+◌, ◌*◌, ◌/◌, ◌%◌, ◌^◌, ◌≤◌, ◌≡◌, refl, ap, ◌∙◌, bit_and, arith}

abbrev masked : ℕ → ℕ → ℕ → ℕ
masked rounds a m = digits (λ x. zero) min rounds a m

abbrev Masks : ℕ → (ℕ → ℕ) → Type 0
Masks m f = (rounds a : ℕ) → a ≤ rounds → masked rounds a m ≡ f a

nothing-Masks : Masks 0 (λ a. 0)
nothing-Masks zero zero enough = refl
nothing-Masks zero (suc a) enough = absurd (omega arith)
nothing-Masks (suc rounds) zero enough = refl
nothing-Masks (suc rounds) (suc a) enough =
    omega (arith, nothing-Masks rounds (suc a / 2) (omega arith))

module _ (m : ℕ) (f : ℕ → ℕ) (masks : Masks m f) where
  -- A digit 0 behind the mask, and a digit 1.
  even-Masks : Masks (m * 2) (λ a. f (a / 2) * 2)
  even-Masks zero zero enough = omega (arith, masks 0 0 (omega arith))
  even-Masks zero (suc a) enough = absurd (omega arith)
  even-Masks (suc rounds) zero enough = omega (arith, masks 0 0 (omega arith))
  even-Masks (suc rounds) (suc a) enough =
      let half : m * 2 / 2 ≡ m = omega arith in
      let last : m * 2 % 2 ≡ 0 = omega arith in
      rw (half, last) (omega (arith, masks rounds (suc a / 2) (omega arith)))

  odd-Masks : Masks (m * 2 + 1) (λ a. f (a / 2) * 2 + a % 2)
  odd-Masks zero zero enough = omega (arith, masks 0 0 (omega arith))
  odd-Masks zero (suc a) enough = absurd (omega arith)
  odd-Masks (suc rounds) zero enough = omega (arith, masks 0 0 (omega arith))
  odd-Masks (suc rounds) (suc a) enough =
      let half : (m * 2 + 1) / 2 ≡ m = omega arith in
      let last : (m * 2 + 1) % 2 ≡ 1 = omega arith in
      rw (half, last) (omega (arith, masks rounds (suc a / 2) (omega arith)))

module _ (m : ℕ) (f : ℕ → ℕ) (masks : Masks m f) where
  -- Four digits 1, and four digits 0.
  ones-Masks : Masks (m * 16 + 15) (λ a. f (a / 16) * 16 + a % 16)
  ones-Masks rounds a enough =
      let mask : m * 16 + 15 ≡ (((m * 2 + 1) * 2 + 1) * 2 + 1) * 2 + 1 = omega arith in
      let deep : a / 2 / 2 / 2 / 2 ≡ a / 16 = omega arith in
      let one = odd-Masks m f masks in
      let two = odd-Masks (m * 2 + 1) (λ a. f (a / 2) * 2 + a % 2) one in
      let three =
        odd-Masks ((m * 2 + 1) * 2 + 1) (λ a. (f (a / 2 / 2) * 2 + a / 2 % 2) * 2 + a % 2) two in
      let four =
        odd-Masks (((m * 2 + 1) * 2 + 1) * 2 + 1)
          (λ a. ((f (a / 2 / 2 / 2) * 2 + a / 2 / 2 % 2) * 2 + a / 2 % 2) * 2 + a % 2) three in
      ap (λ m. masked rounds a m) mask ∙ four rounds a enough ∙ rw deep (omega arith)

  zeros-Masks : Masks (m * 16) (λ a. f (a / 16) * 16)
  zeros-Masks rounds a enough =
      let mask : m * 16 ≡ m * 2 * 2 * 2 * 2 = omega arith in
      let deep : a / 2 / 2 / 2 / 2 ≡ a / 16 = omega arith in
      let one = even-Masks m f masks in
      let two = even-Masks (m * 2) (λ a. f (a / 2) * 2) one in
      let three = even-Masks (m * 2 * 2) (λ a. f (a / 2 / 2) * 2 * 2) two in
      let four = even-Masks (m * 2 * 2 * 2) (λ a. f (a / 2 / 2 / 2) * 2 * 2 * 2) three in
      ap (λ m. masked rounds a m) mask ∙ four rounds a enough ∙ rw deep (omega arith)

-- The twelve lowest bits, the three highest of sixteen, and the one between.
pub bit_and_id : (a : ℕ) → bit_and a 0xfff ≡ a % 4096
bit_and_id a =
    let one = ones-Masks 0 (λ a. 0) nothing-Masks in
    let two = ones-Masks 0xf (λ a. 0 * 16 + a % 16) one in
    let three = ones-Masks 0xff (λ a. (0 * 16 + a / 16 % 16) * 16 + a % 16) two a a (omega arith) in
    bit_and-bitwise a 0xfff ∙ three ∙ omega arith

pub bit_and_cos : (a : ℕ) → bit_and a 0xe000 / 2 ^ 13 ≡ a / 8192 % 8
bit_and_cos a =
    let one = odd-Masks 0 (λ a. 0) nothing-Masks in
    let two = odd-Masks 1 (λ a. 0 * 2 + a % 2) one in
    let three = odd-Masks 3 (λ a. (0 * 2 + a / 2 % 2) * 2 + a % 2) two in
    let four = even-Masks 7 (λ a. ((0 * 2 + a / 2 / 2 % 2) * 2 + a / 2 % 2) * 2 + a % 2) three in
    let high : ℕ → ℕ =
      λ a. (((0 * 2 + a / 2 / 2 / 2 % 2) * 2 + a / 2 / 2 % 2) * 2 + a / 2 % 2) * 2 in
    let five = zeros-Masks 0xe high four in
    let six = zeros-Masks 0xe0 (λ a. high (a / 16) * 16) five in
    let seven = zeros-Masks 0xe00 (λ a. high (a / 16 / 16) * 16 * 16) six a a (omega arith) in
    ap (λ x. x / 2 ^ 13) (bit_and-bitwise a 0xe000 ∙ seven) ∙ omega arith

pub bit_and_dei : (a : ℕ) → bit_and a 0x1000 / 2 ^ 12 ≡ a / 4096 % 2
bit_and_dei a =
    let one = odd-Masks 0 (λ a. 0) nothing-Masks in
    let two = zeros-Masks 1 (λ a. 0 * 2 + a % 2) one in
    let three = zeros-Masks 0x10 (λ a. (0 * 2 + a / 16 % 2) * 16) two in
    let four =
      zeros-Masks 0x100 (λ a. (0 * 2 + a / 16 / 16 % 2) * 16 * 16) three a a (omega arith) in
    ap (λ x. x / 2 ^ 12) (bit_and-bitwise a 0x1000 ∙ four) ∙ omega arith
