-- ===== src/Net/NetworkThread/Tick.antt =====
-- A tick of the timer: every device of the map is updated once, and the map and the devices stay sound.
use net_det.Prelude.{
  ℕ, zero, suc, ◌+◌, ◌-◌, ◌%◌, ◌^◌, ◌≤◌, ◌<◌, ◌≡◌, refl, sym, ap, ◌∙◌, ◌≢◌, inl, inr, true, false,
  none, some, List, ◌∷◌, arith, length, set, length-set, ok, at-get_or, store-set, returned, ◌==◌,
  ==_iff, Bool-cases, Option-cases,
}
use net_det.Prelude.Int.{ℤ}
use net_det.Core.Device.{Mac, Device, Heap, update, rate_history_size, ui_timer_tick}
use net_det.Core.HashMap.{HashEntry, HashMap, zero_entry}
use net_det.Core.HashMap.Slots.{slot, taken-some, IsTaken, scan, scan-taken, mac_eq_iff}
use net_det.Core.HashMap.Probed.{IsValid, scan-slot}
use net_det.Core.Registry.Linked.{IsLinked, update-IsLinked}
use net_det.App.Lifecycle.{event_bus_publish}
use net_det.Net.NetworkThread.{Network, tick_device, tick_slots, handle_timer_tick}

-- The map is valid and each of its bindings leads to the device that has the address.
pub record IsSound (n : Network) : Type 0 where
  pub valid : IsValid n.map
  pub linked : IsLinked n.map n.heap

-- A device after a tick: the frames since the last one stand in the cell at the old head.
abbrev pub ticked : Device → Device
ticked d = record d {
  previous_frames = d.total_frames;
  graph = record {
    values =
        set d.graph.values d.graph.head
          ((d.total_frames + 2 ^ 64 - d.previous_frames) % 2 ^ 64 % 2 ^ 32);
    head = (d.graph.head + 1) % rate_history_size;
    count = d.graph.count;
  };
}

abbrev pub Ticked : Heap → Heap → ℕ → Type 0
Ticked before after p = (d : Device) × (before p ≡ some d) × (after p ≡ some (ticked d))

tick_device-ticked :
    (heap : Heap) (p : ℕ) (d : Device)
    → heap p ≡ some d
    → length d.graph.values ≡ rate_history_size
    → d.graph.head < rate_history_size
    → tick_device heap p ≡ ok (update heap p (ticked d))
unfolding tick_device
tick_device-ticked heap p d there cells inside =
    let stores =
      store-set d.graph.values d.graph.head
        ((d.total_frames + 2 ^ 64 - d.previous_frames) % 2 ^ 64 % 2 ^ 32) (omega arith) in
    ground arith

module _ (rounds i : ℕ) (t : List HashEntry) (heap heap' : Heap) (below : i < length t) where
  tick_slots_free :
      (slot t i).device ≡ none
      → tick_slots rounds (i + 1) t heap ≡ ok heap'
      → tick_slots (suc rounds) i t heap ≡ ok heap'
  unfolding tick_slots
  tick_slots_free free runs = rw (at-get_or t i zero_entry below) (ground arith)

  tick_slots_busy :
      (p : ℕ) (next : Heap)
      → (slot t i).device ≡ some p
      → tick_device heap p ≡ ok next
      → tick_slots rounds (i + 1) t next ≡ ok heap'
      → tick_slots (suc rounds) i t heap ≡ ok heap'
  unfolding tick_slots
  tick_slots_busy p next busy ticks runs = rw (at-get_or t i zero_entry below) (ground arith)

module _ (map : HashMap) (v : IsValid map) where
  -- Two slots in use lead to two devices.
  slots_apart :
      (heap : Heap)
      → IsLinked map heap
      → (i j p : ℕ) → i < length map.table
      → j < length map.table
      → (slot map.table i).device ≡ some p
      → (slot map.table j).device ≡ some p
      → i ≡ j
  slots_apart heap linked i j p i_below j_below pi pj =
      let i_busy : IsTaken map.table i = taken-some (slot map.table i) pi in
      let j_busy : IsTaken map.table j = taken-some (slot map.table j) pj in
      let x = linked (slot map.table i).mac p (scan-slot v.probed i i_below i_busy ∙ pi) in
      let y = linked (slot map.table j).mac p (scan-slot v.probed j j_below j_busy ∙ pj) in
      let same : x.dev ≡ y.dev = cc (x.there, y.there) in
      v.probed.unique i j i_below j_below i_busy j_busy
        ((mac_eq_iff _ _).1 (sym x.named ∙ ap (λ d. d.mac) same ∙ y.named))

  -- What the loop from slot `i` on does to the device of slot `x`.
  abbrev Reaches : ℕ → Heap → Heap → Type 0
  Reaches i before after =
      (x p : ℕ)
      → x < length map.table
      → (slot map.table x).device ≡ some p
      → (i ≤ x → Ticked before after p) × (x < i → after p ≡ before p)

  Reaches-free :
      (i : ℕ) (heap heap' : Heap)
      → (slot map.table i).device ≡ none
      → Reaches (i + 1) heap heap'
      → Reaches i heap heap'
  Reaches-free i heap heap' free reaches x q x_below qx =
      let apart : i ≢ x = λ same. cc (free, qx, same) in
      let r = reaches x q x_below qx in (λ late. r.0 (omega arith), λ early. r.1 (omega arith))

  Reaches-busy :
      (i p : ℕ) (heap heap' : Heap) (d : Device)
      → IsLinked map heap
      → i < length map.table
      → (slot map.table i).device ≡ some p
      → heap p ≡ some d
      → Reaches (i + 1) (update heap p (ticked d)) heap'
      → Reaches i heap heap'
  Reaches-busy i p heap heap' d linked i_below busy there reaches x q x_below qx =
      let r = reaches x q x_below qx in
      elim (Bool-cases (i == x)) [
        | inl same ↦
            let q_is : q ≡ p = cc (busy, qx, (==_iff i x).0 same) in
            let hit : (q == p) ≡ true = (==_iff q p).1 q_is in
            (
              λ late. (d, rw q_is there, r.1 (ground arith) ∙ rw hit),
              λ early. absurd (ground arith),
            )
        | inr other ↦
            let miss : (q == p) ≡ false =
              ground (arith, slots_apart heap linked i x p i_below x_below busy) in
            (
              λ late. let (e, before, after) = r.0 (ground arith) in (e, rw miss at before, after),
              λ early. r.1 (omega arith) ∙ rw miss,
            )
      ]

  tick_slots-Reaches :
      (rounds i : ℕ) (heap : Heap)
      → i + rounds ≡ length map.table
      → IsLinked map heap
      → (heap' : Heap) × (tick_slots rounds i map.table heap ≡ ok heap')
        × IsLinked map heap'
        × Reaches i heap heap'
  unfolding tick_slots
  tick_slots-Reaches zero i heap e linked =
      (heap, refl, linked, λ x p x_below px. (λ late. absurd (omega arith), λ early. refl))
  tick_slots-Reaches (suc rounds) i heap e linked = elim (Option-cases (slot map.table i).device) [
    | inl free ↦
        let (heap', runs, linked', reaches) =
          tick_slots-Reaches rounds (i + 1) heap (omega arith) linked in
        (
          heap',
          tick_slots_free rounds i map.table heap heap' (omega arith) free runs,
          linked',
          Reaches-free i heap heap' free reaches,
        )
    | inr (p, busy) ↦
        let x =
          linked (slot map.table i).mac p
            (scan-slot v.probed i (omega arith) (taken-some (slot map.table i) busy) ∙ busy) in
        let next = update heap p (ticked x.dev) in
        let next_linked : IsLinked map next =
          update-IsLinked map heap p x.dev (ticked x.dev) linked x.there refl
            (length-set _ _ _ ∙ x.cells) (omega arith) in
        let (heap', runs, linked', reaches) =
          tick_slots-Reaches rounds (i + 1) next (omega arith) next_linked in
        (
          heap',
          tick_slots_busy rounds i map.table heap heap' (omega arith) p next busy
              (tick_device-ticked heap p x.dev x.there x.cells x.inside) runs,
          linked',
          Reaches-busy i p heap heap' x.dev linked (omega arith) busy x.there reaches,
        )
  ]

-- In a sound state, with the timer's eight bytes read: the tick meets no fault, the state stays sound
-- and its map is as before; every device of the map is ticked exactly once, so that its history gets
-- the frames since the last tick and the count starts anew; and the UI is sent one UI_TIMER_TICK.
pub handle_timer_tick-Ticked :
    (errno socket_fd : ℤ) (n : Network)
    → IsSound n
    → (n' : Network) × (handle_timer_tick true errno socket_fd n ≡ ok (n', returned tt))
      × IsSound n'
      × (n'.map ≡ n.map)
      × ((q : Mac) (p : ℕ) → scan n.map.table q ≡ some p → Ticked n.heap n'.heap p)
      × (n'.process.event_bus
          ≡ record { msg_type = ui_timer_tick; device = none } ∷ n.process.event_bus)
unfolding handle_timer_tick event_bus_publish
handle_timer_tick-Ticked errno socket_fd n s =
    let (heap', runs, linked', reaches) =
      tick_slots-Reaches n.map s.valid n.map.size 0 n.heap (omega (arith, s.valid.width))
        s.linked in
    (
      record n {
        heap = heap';
        process = event_bus_publish (record { msg_type = ui_timer_tick; device = none }) n.process;
      },
      rw runs,
      record { valid = s.valid; linked = linked' },
      refl,
      λ q p bound.
          let (x, x_below, _, _, found) = scan-taken n.map.table q p bound in
          (reaches x p x_below found).0 (omega arith),
      refl,
    )
