-- ===== src/Core/HashMap/Probed.antt =====
-- The order that probing relies on.
use net_det.Prelude.{
  ℕ, ◌*◌, ◌%◌, ◌^◌, ◌≤◌, ◌<◌, ◌≡◌, refl, sym, ap, ◌∙◌, inl, inr, Option-cases, List, length, true,
}
use net_det.Core.Device.{Mac, mac_eq}
use net_det.Core.HashMap.{HashEntry, HashMap, hash_mac}
use net_det.Core.HashMap.Slots.{slot, IsTaken, used, scan, scan-taken, scan-none, mac_eq_iff}
use net_det.Core.HashMap.Ring.{distance}

-- Where the search for an address starts.
abbrev pub home : Mac → ℕ → ℕ
home mac n = hash_mac mac % n

-- All slots from the home of an entry up to the entry are in use, and no address stands twice.
pub record IsProbed (t : List HashEntry) : Type 0 where
  pub reach :
      (i j : ℕ)
      → i < length t
      → j < length t
      → IsTaken t i
      → distance (length t) (home (slot t i).mac (length t)) j
        < distance (length t) (home (slot t i).mac (length t)) i
      → IsTaken t j
  pub unique :
      (i j : ℕ)
      → i < length t
      → j < length t
      → IsTaken t i
      → IsTaken t j
      → mac_eq (slot t i).mac (slot t j).mac ≡ true
      → i ≡ j

-- The map's fields agree with its table, and at most four fifths of the slots are in use.
pub record IsValid (map : HashMap) : Type 0 where
  pub width : map.size ≡ length map.table
  pub counted : map.count ≡ used map.table
  pub load : 5 * map.count ≤ 4 * map.size
  pub positive : 0 < map.size
  pub fits : map.size < 2 ^ 32
  pub probed : IsProbed map.table

-- The scan for the address of a slot in use gives that slot's device.
pub scan-slot :
    {t : List HashEntry}
    → IsProbed t
    → (i : ℕ) → i < length t
    → IsTaken t i
    → scan t (slot t i).mac ≡ (slot t i).device
scan-slot {t} probed i below busy = elim (Option-cases (scan t (slot t i).mac)) [
  | inl missing ↦ absurd (
      cc (
        scan-none t (slot t i).mac i missing below busy,
        (mac_eq_iff (slot t i).mac (slot t i).mac).1 refl,
      ))
  | inr (d, e) ↦
      let (x, x_below, x_taken, same, found) = scan-taken t (slot t i).mac d e in
      let here = probed.unique x i x_below below x_taken busy same in
      e ∙ sym found ∙ ap (λ k. (slot t k).device) here
]
