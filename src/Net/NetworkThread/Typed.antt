-- ===== src/Net/NetworkThread/Typed.antt =====
-- The fields of a device stay within their C types, whatever the program does with it.
use mathlib.Core.Path.{subst}
use net_det.Prelude.{
  ℕ, ◌+◌, ◌-◌, ltb, ◌&&◌, ◌%◌, ◌^◌, ◌<◌, ◌≡◌, ◌∙◌, inl, inr, Bool, true, false, Bool-cases, some,
  arith, length, set, length-set, get_or, get_or-set, Run, ok, store-set, fill-get_or, ◌==◌,
  if◌then◌else◌,
}
use net_det.Core.Device.{Device, Heap, update, device_raise_frame_count, rate_history_size}
use net_det.Core.Registry.{first_frame, seen_again}
use net_det.Net.FrameParser.{release}
use net_det.Net.NetworkThread.{tick_device}

-- `uint8_t`
abbrev pub IsByte : ℕ → Type 0
IsByte n = n < 256

pub record IsTyped (d : Device) : Type 0 where
  pub mac :
      IsByte d.mac.m0
      × IsByte d.mac.m1
      × IsByte d.mac.m2
      × IsByte d.mac.m3
      × IsByte d.mac.m4
      × IsByte d.mac.m5
  pub ip : IsByte d.ip.i0 × IsByte d.ip.i1 × IsByte d.ip.i2 × IsByte d.ip.i3
  pub qinq_tag : d.qinq_tag < 2 ^ 32
  pub dot1q_tag : d.dot1q_tag < 2 ^ 32
  pub previous_frames : d.previous_frames < 2 ^ 64
  pub total_frames : d.total_frames < 2 ^ 64
  pub last_seen : IsByte d.last_seen.hour × IsByte d.last_seen.minutes × IsByte d.last_seen.seconds
  pub cells : length d.graph.values ≡ rate_history_size
  pub rates : (k : ℕ) → get_or d.graph.values k 0 < 2 ^ 32
  pub head : d.graph.head < rate_history_size

-- Every device in memory.
abbrev pub AllTyped : Heap → Type 0
AllTyped heap = (p : ℕ) (d : Device) → heap p ≡ some d → IsTyped d

-- The operation meets no fault and leaves typed devices.
abbrev pub KeepsTyped : Run Heap → Type 0
KeepsTyped run = (heap : Heap) × (run ≡ ok heap) × AllTyped heap

some-injective : {a b : Device} → some a ≡ some b → a ≡ b
some-injective e = cc e

rate_fits :
    (x after before : ℕ) (b : Bool)
    → after ≡ (if b then x % 2 ^ 64 % 2 ^ 32 else before)
    → before < 2 ^ 32
    → after < 2 ^ 32
rate_fits x after before true is fits = omega (arith, is)
rate_fits x after before false is fits = omega (arith, is)

pub release-AllTyped : (heap : Heap) (p : ℕ) → AllTyped heap → AllTyped (release heap p)
release-AllTyped heap p typed q e there = elim (Bool-cases (q == p)) [
  | inl same ↦ absurd (cc (rw same at there))
  | inr other ↦ typed q e (rw other at there)
]

module _ (heap : Heap) (typed : AllTyped heap) (p : ℕ) where
  pub update-AllTyped : (d : Device) → IsTyped d → AllTyped (update heap p d)
  update-AllTyped d t q e there = elim (Bool-cases (q == p)) [
    | inl same ↦ subst IsTyped (some-injective (rw same at there)) t
    | inr other ↦ typed q e (rw other at there)
  ]

  module _ (d : Device) (there : heap p ≡ some d) where
    abbrev t : IsTyped d
    t = typed p d there

    pub raise-KeepsTyped : KeepsTyped (device_raise_frame_count heap (some p))
    unfolding device_raise_frame_count
    raise-KeepsTyped =
        let d' : Device = record d { total_frames = (d.total_frames + 1) % 2 ^ 64 } in
        (
          update heap p d',
          rw there,
          update-AllTyped d' (record {
            mac = t.mac;
            ip = t.ip;
            qinq_tag = t.qinq_tag;
            dot1q_tag = t.dot1q_tag;
            previous_frames = t.previous_frames;
            total_frames = omega arith;
            last_seen = t.last_seen;
            cells = t.cells;
            rates = t.rates;
            head = t.head;
          }),
        )

    pub tick_device-KeepsTyped : KeepsTyped (tick_device heap p)
    unfolding tick_device
    tick_device-KeepsTyped =
        let rate = (d.total_frames + 2 ^ 64 - d.previous_frames) % 2 ^ 64 % 2 ^ 32 in
        let values = set d.graph.values d.graph.head rate in
        let d' : Device = record d {
          previous_frames = d.total_frames;
          graph = record {
            values = values;
            head = (d.graph.head + 1) % rate_history_size;
            count = d.graph.count;
          };
        } in
        let inside : d.graph.head < length d.graph.values = omega (arith, t.cells, t.head) in
        (
          update heap p d',
          rw (there, store-set d.graph.values d.graph.head rate inside),
          update-AllTyped d' (record {
            mac = t.mac;
            ip = t.ip;
            qinq_tag = t.qinq_tag;
            dot1q_tag = t.dot1q_tag;
            previous_frames = t.total_frames;
            total_frames = t.total_frames;
            last_seen = t.last_seen;
            cells = length-set d.graph.values d.graph.head rate ∙ t.cells;
            rates = λ k.
                let before = t.rates k in
                let writes = get_or-set d.graph.values d.graph.head k rate 0 in
                rate_fits (d.total_frames + 2 ^ 64 - d.previous_frames) (get_or values k 0)
                  (get_or d.graph.values k 0)
                  (d.graph.head == k && ltb d.graph.head (length d.graph.values)) writes before;
            head = omega arith;
          }),
        )

    pub seen_again-KeepsTyped :
        (incoming : Device) → IsTyped incoming → KeepsTyped (seen_again heap p incoming)
    unfolding seen_again
    seen_again-KeepsTyped incoming i =
        let d' : Device = record d { last_seen = incoming.last_seen } in
        (
          update heap p d',
          rw there,
          update-AllTyped d' (record {
            mac = t.mac;
            ip = t.ip;
            qinq_tag = t.qinq_tag;
            dot1q_tag = t.dot1q_tag;
            previous_frames = t.previous_frames;
            total_frames = t.total_frames;
            last_seen = i.last_seen;
            cells = t.cells;
            rates = t.rates;
            head = t.head;
          }),
        )

    pub first_frame-KeepsTyped : KeepsTyped (first_frame heap p)
    unfolding first_frame
    first_frame-KeepsTyped =
        let (zeros, fills, width, reads) =
          fill-get_or 0 rate_history_size 0 d.graph.values (omega (arith, t.cells)) in
        let d' : Device = record d {
          previous_frames = 0;
          total_frames = 1;
          graph = record { values = zeros; head = 0; count = 0 };
        } in
        (
          update heap p d',
          rw (there, fills),
          update-AllTyped d' (record {
            mac = t.mac;
            ip = t.ip;
            qinq_tag = t.qinq_tag;
            dot1q_tag = t.dot1q_tag;
            previous_frames = omega arith;
            total_frames = omega arith;
            last_seen = t.last_seen;
            cells = width ∙ t.cells;
            rates = λ k. ground (arith, reads k 0, t.rates k);
            head = omega arith;
          }),
        )
