-- ===== src/Core/Registry/Linked.antt =====
-- The map and the devices agree: each binding leads to the device that has the address.
use net_det.Prelude.{ℕ, ◌<◌, ◌≡◌, ap, ◌∙◌, inl, inr, some, arith, length, ◌==◌, ==_iff, Bool-cases}
use net_det.Core.Device.{Mac, mac_eq, Device, Heap, update, rate_history_size}
use net_det.Core.HashMap.{HashMap}
use net_det.Core.HashMap.Slots.{scan, mac_eq_iff}
use net_det.Core.HashMap.Insert.{Inserted}

-- A device with this MAC address stands at the address, with 60 cells and a head inside them.
pub record IsDevice (heap : Heap) (p : ℕ) (q : Mac) : Type 0 where
  pub dev : Device
  pub there : heap p ≡ some dev
  pub named : dev.mac ≡ q
  pub cells : length dev.graph.values ≡ rate_history_size
  pub inside : dev.graph.head < rate_history_size

-- Every binding of the map leads to the device that has the address.
abbrev pub IsLinked : HashMap → Heap → Type 0
IsLinked map heap = (q : Mac) (p : ℕ) → scan map.table q ≡ some p → IsDevice heap p q

-- A device written over with another of the same address and a sound history.
pub update-IsDevice :
    (heap : Heap) (p r : ℕ) (d e : Device) (q : Mac)
    → heap p ≡ some d
    → e.mac ≡ d.mac
    → length e.graph.values ≡ rate_history_size
    → e.graph.head < rate_history_size
    → IsDevice heap r q
    → IsDevice (update heap p e) r q
update-IsDevice heap p r d e q there named cells inside x = elim (Bool-cases (r == p)) [
  | inl same ↦
      let old : d ≡ x.dev = cc (there, x.there, (==_iff r p).0 same) in
      record {
        dev = e;
        there = rw same;
        named = named ∙ ap (λ v. v.mac) old ∙ x.named;
        cells = cells;
        inside = inside;
      }
  | inr other ↦ record {
    dev = x.dev;
    there = rw other x.there;
    named = x.named;
    cells = x.cells;
    inside = x.inside;
  }
]

pub update-IsLinked :
    (map : HashMap) (heap : Heap) (p : ℕ) (d e : Device)
    → IsLinked map heap
    → heap p ≡ some d
    → e.mac ≡ d.mac
    → length e.graph.values ≡ rate_history_size
    → e.graph.head < rate_history_size
    → IsLinked map (update heap p e)
update-IsLinked map heap p d e linked there named cells inside q r bound =
    update-IsDevice heap p r d e q there named cells inside (linked q r bound)

-- A new binding to a device of that address.
pub insert-IsLinked :
    (map map' : HashMap) (heap : Heap) (p : ℕ) (d e : Device)
    → IsLinked map heap
    → Inserted map d.mac p map'
    → heap p ≡ some d
    → e.mac ≡ d.mac
    → length e.graph.values ≡ rate_history_size
    → e.graph.head < rate_history_size
    → IsLinked map' (update heap p e)
insert-IsLinked map map' heap p d e linked i there named cells inside q r bound =
    elim (Bool-cases (mac_eq d.mac q)) [
      | inl same ↦
          let here : r ≡ p = ground (arith, i.binds q) in
          record {
            dev = e;
            there = rw ((==_iff r p).1 here);
            named = named ∙ (mac_eq_iff d.mac q).0 same;
            cells = cells;
            inside = inside;
          }
      | inr other ↦
          update-IsDevice heap p r d e q there named cells inside
            (linked q r (ground (arith, i.binds q)))
    ]
