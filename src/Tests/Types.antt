-- ===== src/Tests/Types.antt =====
-- A device whose fields fit their C types.
use net_det.Prelude.{
  ℕ, ◌<◌, ◌≡◌, refl, inl, inr, Bool-cases, some, none, arith, length-replicate, get_or,
  get_or-replicate, replicate, ok, ◌==◌, if◌then◌else◌,
}
use mathlib.Core.Path.{subst}
use net_det.Prelude.Int.{pos}
use net_det.App.Process.{initial}
use net_det.Core.Device.{Device, Heap}
use net_det.Net.NetworkThread.Typed.{IsTyped, AllTyped}
use net_det.Net.NetworkThread.DeviceSteps.{DeviceStep, read_from, apply, Suits, apply-AllTyped}
use net_det.Tests.Devices.{device_a}

abbrev fresh : Device
fresh = record device_a { graph = record { values = replicate 60 0; head = 59; count = 0 } }

zeros_fit : (n k m : ℕ) → 0 < m → get_or (replicate n 0) k 0 < m
zeros_fit n k m some_room = rw get_or-replicate some_room

fresh-IsTyped : IsTyped fresh
fresh-IsTyped = record {
  mac = (omega arith, omega arith, omega arith, omega arith, omega arith, omega arith);
  ip = (omega arith, omega arith, omega arith, omega arith);
  qinq_tag = omega arith;
  dot1q_tag = omega arith;
  previous_frames = omega arith;
  total_frames = omega arith;
  last_seen = (omega arith, omega arith, omega arith);
  cells = refl;
  rates = λ k. zeros_fit 60 k 4_294_967_296 (omega arith);
  head = omega arith;
}

abbrev one : Heap
one p = if p == 7 then some fresh else none

some-injective : {a b : Device} → some a ≡ some b → a ≡ b
some-injective e = cc e

one-AllTyped : AllTyped one
one-AllTyped p d there = elim (Bool-cases (p == 7)) [
  | inl here ↦ subst IsTyped (some-injective (rw here at there)) fresh-IsTyped
  | inr other ↦ absurd (cc (rw other at there))
]

-- A frame of zeros, whose time is not known.
abbrev step : DeviceStep
step = read_from (replicate 2048 0) (pos 75) (pos 4) none initial

step-Suits : Suits step
unfolding Suits
step-Suits = (length-replicate {A = ℕ} 2048 0, λ k. zeros_fit 2048 k 256 (omega arith))

apply-AllTyped_example : (heap : Heap) × (apply step one 7 ≡ ok heap) × AllTyped heap
apply-AllTyped_example = apply-AllTyped step one 7 fresh one-AllTyped refl step-Suits
