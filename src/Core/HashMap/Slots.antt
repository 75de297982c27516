-- ===== src/Core/HashMap/Slots.antt =====
-- The slots of a table as a list: which are taken, how many, and what a scan of all of them finds.
use net_det.Prelude.{
  ℕ, zero, suc, ◌+◌, ◌≤◌, ◌<◌, Bool, true, false, ◌≡◌, ◌&&◌, Option, none, some, List, [], ◌∷◌,
  arith, length, get_or, set, if◌then◌else◌, ◌↔◌, Bool-cases, inl, inr,
}
use net_det.Core.Device.{Mac, mac_eq}
use net_det.Core.HashMap.{HashEntry, zero_entry}

pub mac_eq_iff : (a b : Mac) → (mac_eq a b ≡ true) ↔ (a ≡ b)
mac_eq_iff a b = ground arith

pub mac_eq_comm : (a b : Mac) → mac_eq a b ≡ mac_eq b a
mac_eq_comm a b = ground arith

abbrev pub slot : List HashEntry → ℕ → HashEntry
slot t i = get_or t i zero_entry

-- `device != NULL`
abbrev pub taken : HashEntry → Bool
taken e = elim e.device [ none ↦ false | some d ↦ true ]

pub taken-some : (e : HashEntry) {p : ℕ} → e.device ≡ some p → taken e ≡ true
taken-some e h = ground arith

abbrev pub IsTaken : List HashEntry → ℕ → Type 0
IsTaken t i = taken (slot t i) ≡ true

-- The number of slots in use.
abbrev pub used : List HashEntry → ℕ
used [] = 0
used (e ∷ t) = if taken e then suc (used t) else used t

-- The device under a MAC address, by a scan of all slots in order: no hash and no probing.
unfoldable pub scan : List HashEntry → Mac → Option ℕ
scan [] q = none
scan (e ∷ t) q = if taken e && mac_eq e.mac q then e.device else scan t q

pub used-le-length : (t : List HashEntry) → used t ≤ length t
used-le-length [] = omega arith
used-le-length (e ∷ t) = ground (arith, used-le-length t)

pub used-set :
    (t : List HashEntry) (i : ℕ) (e : HashEntry)
    → i < length t
    → taken (slot t i) ≡ false
    → taken e ≡ true
    → used (set t i e) ≡ used t + 1
used-set [] i e h f g = absurd (omega arith)
used-set (x ∷ t) zero e h f g = ground arith
used-set (x ∷ t) (suc i) e h f g = ground (arith, used-set t i e)

pub scan-set :
    (t : List HashEntry) (i : ℕ) (e : HashEntry) (q : Mac)
    → i < length t
    → taken (slot t i) ≡ false
    → taken e ≡ true
    → scan t e.mac ≡ none
    → scan (set t i e) q ≡ (if mac_eq e.mac q then e.device else scan t q)
unfolding scan
scan-set [] i e q h f g a = absurd (omega arith)
scan-set (x ∷ t) zero e q h f g a = ground arith
scan-set (x ∷ t) (suc i) e q h f g a =
    ground (arith, scan-set t i e q, mac_eq_iff e.mac q, mac_eq_iff x.mac q, mac_eq_iff x.mac e.mac)

-- A slot that is free, where not all are in use.
pub free_slot :
    (t : List HashEntry) → used t < length t → (i : ℕ) × (i < length t) × (taken (slot t i) ≡ false)
free_slot [] h = absurd (omega arith)
free_slot (e ∷ t) h = elim (Bool-cases (taken e)) [
  | inr free ↦ (0, omega arith, free)
  | inl busy ↦ let (i, below, free) = free_slot t (ground arith) in (suc i, omega arith, free)
]

pub scan-taken :
    (t : List HashEntry) (q : Mac) (d : ℕ)
    → scan t q ≡ some d
    → (i : ℕ) × (i < length t)
      × (taken (slot t i) ≡ true)
      × (mac_eq (slot t i).mac q ≡ true)
      × ((slot t i).device ≡ some d)
unfolding scan
scan-taken [] q d h = cc
scan-taken (e ∷ t) q d h = elim (Bool-cases (taken e && mac_eq e.mac q)) [
  | inl hit ↦ (0, omega arith, ground arith, ground arith, ground arith)
  | inr miss ↦
      let (i, below, here, same, found) = scan-taken t q d (ground arith) in
      (suc i, omega arith, here, same, found)
]

-- If the scan finds nothing, no slot in use has the address.
pub scan-none :
    (t : List HashEntry) (q : Mac) (i : ℕ)
    → scan t q ≡ none
    → i < length t
    → taken (slot t i) ≡ true
    → mac_eq (slot t i).mac q ≡ false
unfolding scan
scan-none [] q i h l f = absurd (omega arith)
scan-none (e ∷ t) q zero h l f = ground arith
scan-none (e ∷ t) q (suc i) h l f = ground (arith, scan-none t q i)
