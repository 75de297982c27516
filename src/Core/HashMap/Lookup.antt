-- ===== src/Core/HashMap/Lookup.antt =====
-- `hashmap_check_entry` finds what a scan of all the slots finds.
use native.Mathlib.Nat.{mod-lt}
use net_det.Prelude.{
  ℕ, zero, suc, ◌+◌, ◌^◌, ◌≤◌, ◌<◌, ◌≡◌, sym, ap, ◌∙◌, List, arith, length, true, false, none,
  ≢_of_==, ok, at-get_or, modulo-pos, Bool-cases, Option-cases, inl, inr, ==_iff, ◌==◌,
  if◌then◌else◌,
}
use net_det.Core.Device.{Mac, mac_eq}
use net_det.Core.HashMap.{HashEntry, HashMap, zero_entry, hash_mac, probe, hashmap_check_entry}
use net_det.Core.HashMap.Slots.{slot, taken, IsTaken, scan, scan-taken, mac_eq_iff}
use net_det.Core.HashMap.Ring.{
  distance, next, modulo-next, distance-lt, next-lt, distance-next, distance-eq_last,
  distance-injective, distance-home,
}
use net_det.Core.HashMap.Probed.{home, IsProbed, IsValid, scan-slot}

module _ (t : List HashEntry) (mac : Mac) where
  -- The slots before `i` on the way from the home of the address are in use by other addresses.
  abbrev Passed : ℕ → Type 0
  Passed i =
      (j : ℕ)
      → j < length t
      → distance (length t) (home mac (length t)) j < distance (length t) (home mac (length t)) i
      → IsTaken t j × (mac_eq (slot t j).mac mac ≡ false)

module _ (t : List HashEntry) (mac : Mac) (probed : IsProbed t) (small : length t < 2 ^ 32) where
  scan_free :
      (i : ℕ)
      → home mac (length t) < length t
      → i < length t
      → Passed t mac i
      → taken (slot t i) ≡ false
      → scan t mac ≡ none
  scan_free i home_in below passed free = elim (Option-cases (scan t mac)) [
    | inl e ↦ e
    | inr (d, e) ↦
        let (x, x_below, x_taken, same, _) = scan-taken t mac d e in
        let same_mac : (slot t x).mac ≡ mac = (mac_eq_iff _ mac).0 same in
        let before = rw same_mac at (probed.reach x i x_below below x_taken) in
        let apart = distance-injective (length t) (home mac (length t)) i home_in below x x_below in
        absurd (ground (arith, passed x x_below, before, apart))
  ]

  module _ (fuel i : ℕ) (below : i < length t) where
    probe_free :
        taken (slot t i) ≡ false
        → probe (suc fuel) t mac (home mac (length t)) i (length t) ≡ ok none
    unfolding probe
    probe_free free = rw (at-get_or t i zero_entry below) (ground arith)

    probe_hit :
        IsTaken t i
        → mac_eq (slot t i).mac mac ≡ true
        → probe (suc fuel) t mac (home mac (length t)) i (length t) ≡ ok (slot t i).device
    unfolding probe
    probe_hit busy same = rw (at-get_or t i zero_entry below) (ground arith)

    probe_miss :
        IsTaken t i
        → mac_eq (slot t i).mac mac ≡ false
        → probe (suc fuel) t mac (home mac (length t)) i (length t) ≡ (
            if next (length t) i == home mac (length t)
            then ok none
            else probe fuel t mac (home mac (length t)) (next (length t) i) (length t))
    unfolding probe
    probe_miss busy other =
        rw (at-get_or t i zero_entry below)
          (ground (arith, modulo-next (2 ^ 32) i (length t) below small))

  -- The slots passed after one step more.
  Passed-next :
      (i : ℕ)
      → home mac (length t) < length t
      → i < length t
      → Passed t mac i
      → IsTaken t i
      → mac_eq (slot t i).mac mac ≡ false
      → (j : ℕ) → j < length t
      → distance (length t) (home mac (length t)) j ≤ distance (length t) (home mac (length t)) i
      → IsTaken t j × (mac_eq (slot t j).mac mac ≡ false)
  Passed-next i home_in below passed busy other j j_below near = elim (Bool-cases (i == j)) [
    | inl same ↦ rw (← (==_iff i j).0 same) (busy, other)
    | inr away ↦ passed j j_below (
        ground
          (arith, distance-injective (length t) (home mac (length t)) i home_in below j j_below))
  ]

  -- Once round the ring and nothing found.
  scan_full :
      (i : ℕ)
      → home mac (length t) < length t
      → i < length t
      → Passed t mac i
      → IsTaken t i
      → mac_eq (slot t i).mac mac ≡ false
      → next (length t) i ≡ home mac (length t)
      → scan t mac ≡ none
  scan_full i home_in below passed busy other back = elim (Option-cases (scan t mac)) [
    | inl e ↦ e
    | inr (d, e) ↦
        let (x, x_below, x_taken, same, _) = scan-taken t mac d e in
        let near = distance-lt (length t) (home mac (length t)) x home_in x_below in
        let last = distance-eq_last (length t) (home mac (length t)) i home_in below back in
        let differs = Passed-next i home_in below passed busy other x x_below (omega arith) in
        cc (same, differs.1)
  ]

  probe-scan :
      (fuel i : ℕ)
      → home mac (length t) < length t
      → i < length t
      → length t ≤ fuel + distance (length t) (home mac (length t)) i
      → Passed t mac i
      → probe fuel t mac (home mac (length t)) i (length t) ≡ ok (scan t mac)
  unfolding probe
  probe-scan zero i home_in below enough passed =
      absurd (omega (arith, distance-lt (length t) (home mac (length t)) i home_in below))
  probe-scan (suc fuel) i home_in below enough passed =
      let further = distance-next (length t) (home mac (length t)) i home_in below in
      elim (Bool-cases (taken (slot t i))) [
        | inr free ↦
            probe_free fuel i below free ∙ ap ok (sym (scan_free i home_in below passed free))
        | inl busy ↦ elim (Bool-cases (mac_eq (slot t i).mac mac)) [
          | inl same ↦
              probe_hit fuel i below busy same
              ∙ ap ok (
                  sym (
                    rw ((mac_eq_iff (slot t i).mac mac).0 same) at (scan-slot probed i below busy)))
          | inr other ↦
              probe_miss fuel i below busy other
              ∙ elim (Bool-cases (next (length t) i == home mac (length t))) [
                | inl back ↦ rw back (
                    ap ok (sym (scan_full i home_in below passed busy other ((==_iff _ _).0 back))))
                | inr away ↦ rw away (
                    probe-scan fuel (next (length t) i) home_in
                      (next-lt (length t) (home mac (length t)) i home_in below)
                      (omega (arith, further ((≢_of_== away))))
                      (λ j j_below near.
                        Passed-next i home_in below passed busy other j j_below
                          (omega (arith, further (≢_of_== away)))))
              ]
        ]
      ]

-- Lookup in a valid map meets no fault, ends, and gives the device that a scan of the slots gives.
pub hashmap_check_entry-scan :
    (map : HashMap) (mac : Mac)
    → IsValid map
    → hashmap_check_entry map mac ≡ ok (scan map.table mac)
unfolding hashmap_check_entry
hashmap_check_entry-scan map mac v =
    let inside : home mac (length map.table) < length map.table =
      mod-lt _ (omega (arith, v.positive, v.width)) in
    rw (v.width, modulo-pos (hash_mac mac) (length map.table) (omega (arith, v.positive, v.width)))
      (probe-scan map.table mac v.probed (omega (arith, v.width, v.fits)) (length map.table)
        (home mac (length map.table)) inside inside (omega arith)
        (λ j j_below near.
          absurd (omega (arith, distance-home (length map.table) (home mac (length map.table))))))
