-- ===== src/Net/NetworkThread/Unbound.antt =====
-- Memory that the map does not lead to, as the device that `malloc` gives for a frame.
use net_det.Prelude.{
  ℕ, ◌+◌, ◌^◌, ◌%◌, ◌≡◌, refl, ◌∙◌, inl, inr, ◌⊎◌, false, none, some, List, ◌∷◌, arith, ok, Flow,
  returned, exited, ◌==◌, ==_iff, Bool-cases, Option-cases,
}
use net_det.Core.Device.{
  Mac, Device, Heap, update, device_raise_frame_count, UiMessage, ui_new_entry, ui_update_table,
}
use net_det.Core.HashMap.{HashMap}
use net_det.Core.HashMap.Insert.{Inserted}
use net_det.Core.HashMap.Slots.{scan}
use net_det.Core.Registry.Linked.{IsLinked, update-IsLinked}
use net_det.App.Process.{Process}
use net_det.Net.NetworkThread.{Network, Step}
use net_det.Net.NetworkThread.Tick.{IsSound}

-- No binding of the map leads to this address.
abbrev pub IsUnbound : HashMap → ℕ → Type 0
IsUnbound map p = (q : Mac) (r : ℕ) → scan map.table q ≡ some r → (r == p) ≡ false

-- Memory that no binding leads to may change.
pub unbound-IsLinked :
    (map : HashMap) (heap heap' : Heap) (p : ℕ)
    → IsUnbound map p
    → ((r : ℕ) → (r == p) ≡ false → heap' r ≡ heap r)
    → IsLinked map heap
    → IsLinked map heap'
unbound-IsLinked map heap heap' p unbound same linked q r bound =
    let x = linked q r bound in
    record {
      dev = x.dev;
      there = same r (unbound q r bound) ∙ x.there;
      named = x.named;
      cells = x.cells;
      inside = x.inside;
    }

-- An address not in use is one that no binding leads to.
pub fresh-IsUnbound : (n : Network) → IsSound n → (p : ℕ) → n.heap p ≡ none → IsUnbound n.map p
fresh-IsUnbound n sound p fresh q r bound = elim (Bool-cases (r == p)) [
  | inl same ↦
      let clash : ¬ r ≡ p = λ e. cc ((sound.linked q r bound).there, fresh, e) in
      absurd (clash ((==_iff r p).0 same))
  | inr other ↦ other
]

-- The step meets no fault and leaves a sound state.
abbrev pub KeepsSound : Step → Type 0
KeepsSound step = (n : Network) × (flow : Flow (Unit {0})) × (step ≡ ok (n, flow)) × IsSound n

-- What a step of the network thread does to the map and writes to the event bus, newest first: nothing,
-- a message about a device of the map, or a new device that it binds, and a message about it.
pub data Announced : HashMap → List UiMessage → HashMap → List UiMessage → Type 0 where
  quiet : (map : HashMap) (bus bus' : List UiMessage) → bus' ≡ bus → Announced map bus map bus'
  known :
      (map : HashMap) (bus bus' : List UiMessage) (q : Mac) (p : ℕ)
      → scan map.table q ≡ some p
      → bus' ≡ record { msg_type = ui_update_table; device = some p } ∷ bus
      → Announced map bus map bus'
  first_seen :
      (map map' : HashMap) (bus bus' : List UiMessage) (q : Mac) (p : ℕ)
      → IsUnbound map p
      → scan map.table q ≡ none
      → Inserted map q p map'
      → bus' ≡ record { msg_type = ui_new_entry; device = some p } ∷ bus
      → Announced map bus map' bus'

-- The step meets no fault, leaves a sound state, and announces what it does.
abbrev pub Announces : Network → Step → Type 0
Announces n step =
    (n' : Network) × (flow : Flow (Unit {0})) × (step ≡ ok (n', flow))
    × IsSound n'
    × Announced n.map n.process.event_bus n'.map n'.process.event_bus

pub Flow-cases : (f : Flow (Unit {0})) → ((u : Unit {0}) × (f ≡ returned u)) ⊎ (f ≡ exited)
Flow-cases (returned u) = inl (u, refl)
Flow-cases exited = inr refl

pub raise_frame_count-IsLinked :
    (map : HashMap) (heap : Heap) (p : ℕ) (g : Device) (q : Mac)
    → IsLinked map heap
    → IsUnbound map p
    → heap p ≡ some g
    → (heap' : Heap) × (device_raise_frame_count heap (scan map.table q) ≡ ok heap')
      × IsLinked map heap'
      × (heap' p ≡ some g)
unfolding device_raise_frame_count
raise_frame_count-IsLinked map heap p g q linked unbound there =
    elim (Option-cases (scan map.table q)) [
      | inl unknown ↦ (heap, rw unknown, linked, there)
      | inr (r, bound) ↦
          let x = linked q r bound in
          let raised : Device = record x.dev { total_frames = (x.dev.total_frames + 1) % 2 ^ 64 } in
          let apart : (p == r) ≡ false = ground (arith, unbound q r bound) in
          (
            update heap r raised,
            rw (bound, x.there),
            update-IsLinked map heap r x.dev raised linked x.there refl x.cells x.inside,
            rw apart there,
          )
    ]

-- The memory at an address may change as long as no binding leads there.
pub write-IsSound :
    (n : Network)
    → IsSound n
    → (p : ℕ) → IsUnbound n.map p
    → (heap : Heap) → ((r : ℕ) → (r == p) ≡ false → heap r ≡ n.heap r)
    → (q : Process) → IsSound (record n { heap = heap; process = q })
write-IsSound n sound p unbound heap same q = record {
  valid = sound.valid;
  linked = unbound-IsLinked n.map n.heap heap p unbound same sound.linked;
}
