-- ===== src/Core/HashMap/Store.antt =====
-- `store_entry` puts an entry in the first free slot of its probe sequence, and keeps the order.
use native.Mathlib.Nat.{mod-lt}
use net_det.Prelude.{
  ℕ, zero, suc, ◌+◌, ◌^◌, ◌≤◌, ◌<◌, ◌≡◌, ◌∙◌, List, arith, length, set, true, false, none, ok,
  at-get_or, store-set, modulo-pos, Bool-cases, inl, inr, ==_iff, ◌==◌, get_or-set, length-set,
  ≢_of_==, if◌then◌else◌,
}
use net_det.Core.Device.{Mac, mac_eq}
use net_det.Core.HashMap.{HashEntry, zero_entry, hash_mac, find_free, store_entry}
use net_det.Core.HashMap.Slots.{
  slot, taken, IsTaken, used, free_slot, used-set, scan, scan-set, scan-none, mac_eq_comm,
}
use net_det.Core.HashMap.Ring.{
  distance, next, modulo-next, distance-lt, next-lt, distance-next, distance-eq_last,
  distance-injective, distance-home,
}
use net_det.Core.HashMap.Probed.{home, IsProbed}

-- All slots before `i` on the way from `h` are in use.
abbrev AllTaken : List HashEntry → ℕ → ℕ → Type 0
AllTaken t h i =
    (j : ℕ) → j < length t → distance (length t) h j < distance (length t) h i → IsTaken t j

module _ (t : List HashEntry) (h : ℕ) (home_in : h < length t) (small : length t < 2 ^ 32) where
  module _ (fuel i : ℕ) (below : i < length t) where
    find_free_here : taken (slot t i) ≡ false → find_free (suc fuel) t i (length t) ≡ ok i
    unfolding find_free
    find_free_here free = rw (at-get_or t i zero_entry below) (ground arith)

    find_free-next :
        IsTaken t i
        → find_free (suc fuel) t i (length t) ≡ find_free fuel t (next (length t) i) (length t)
    unfolding find_free
    find_free-next busy =
        rw (at-get_or t i zero_entry below)
          (ground (arith, modulo-next (2 ^ 64) i (length t) below (omega arith)))

  AllTaken-next :
      (i : ℕ)
      → i < length t
      → AllTaken t h i
      → IsTaken t i
      → (j : ℕ) → j < length t
      → distance (length t) h j ≤ distance (length t) h i
      → IsTaken t j
  AllTaken-next i below before busy j j_below near = elim (Bool-cases (i == j)) [
    | inl same ↦ rw (← (==_iff i j).0 same) busy
    | inr away ↦
        before j j_below (ground (arith, distance-injective (length t) h i home_in below j j_below))
  ]

  -- The loop ends at a free slot, if there is one, and passes only slots in use.
  find_free-first :
      (fuel i : ℕ)
      → i < length t
      → length t ≤ fuel + distance (length t) h i
      → AllTaken t h i
      → used t < length t
      → (r : ℕ) × (find_free fuel t i (length t) ≡ ok r)
        × (r < length t)
        × (taken (slot t r) ≡ false)
        × AllTaken t h r
  find_free-first zero i below enough before room =
      absurd (omega (arith, distance-lt (length t) h i home_in below))
  find_free-first (suc fuel) i below enough before room = elim (Bool-cases (taken (slot t i))) [
    | inr free ↦ (i, find_free_here fuel i below free, below, free, before)
    | inl busy ↦
        let further = distance-next (length t) h i home_in below in
        let passed = AllTaken-next i below before busy in
        elim (Bool-cases (next (length t) i == h)) [
          | inl back ↦
              let (x, x_below, free) = free_slot t room in
              let near = distance-lt (length t) h x home_in x_below in
              let last = distance-eq_last (length t) h i home_in below ((==_iff _ _).0 back) in
              let full : IsTaken t x = passed x x_below (omega arith) in absurd (cc (full, free))
          | inr away ↦
              let (r, runs, rest, free, first) =
                find_free-first fuel (next (length t) i) (next-lt (length t) h i home_in below)
                  (omega (arith, further (≢_of_== away)))
                  (λ j j_below near. passed j j_below (omega (arith, further (≢_of_== away))))
                  room in
              (r, find_free-next fuel i below busy ∙ runs, rest, free, first)
        ]
  ]

-- The state of a table after an entry has been stored.
pub record Stored (t : List HashEntry) (e : HashEntry) (t' : List HashEntry) : Type 0 where
  pub width : length t' ≡ length t
  pub one_more : used t' ≡ used t + 1
  pub probed : IsProbed t'
  pub scans : (q : Mac) → scan t' q ≡ (if mac_eq e.mac q then e.device else scan t q)

module _ (t : List HashEntry) (e : HashEntry) (r : ℕ) (probed : IsProbed t) (r_below : r < length t)
    (free : taken (slot t r) ≡ false) (e_taken : taken e ≡ true)
    (absent : scan t e.mac ≡ none) where
  slot-set : (j : ℕ) → slot (set t r e) j ≡ (if r == j then e else slot t j)
  slot-set j = get_or-set t r j e zero_entry ∙ ground arith

  slot-set_new : (i : ℕ) → (r == i) ≡ true → slot (set t r e) i ≡ e
  slot-set_new i new = rw (slot-set i, new)

  slot-set_old : (i : ℕ) → (r == i) ≡ false → slot (set t r e) i ≡ slot t i
  slot-set_old i old = rw (slot-set i, old)

  IsTaken-set : (j : ℕ) → IsTaken t j → IsTaken (set t r e) j
  IsTaken-set j h = rw (slot-set j) (ground arith)

  set-reach :
      AllTaken t (home e.mac (length t)) r
      → (i j : ℕ) → i < length t
      → j < length t
      → IsTaken (set t r e) i
      → distance (length t) (home (slot (set t r e) i).mac (length t)) j
        < distance (length t) (home (slot (set t r e) i).mac (length t)) i
      → IsTaken (set t r e) j
  set-reach before i j i_below j_below busy near = elim (Bool-cases (r == i)) [
    | inl new ↦
        let near' = rw (slot-set_new i new) at near in
        IsTaken-set j (before j j_below (rw ((==_iff r i).0 new) near'))
    | inr old ↦
        let near' = rw (slot-set_old i old) at near in
        let busy' = rw (slot-set_old i old) at busy in
        IsTaken-set j (probed.reach i j i_below j_below busy' near')
  ]

  -- No old slot has the new address.
  old_differs :
      (i : ℕ)
      → i < length t
      → (r == i) ≡ false
      → IsTaken (set t r e) i
      → mac_eq (slot t i).mac e.mac ≡ false
  old_differs i below old busy = scan-none t e.mac i absent below (rw (slot-set_old i old) at busy)

  set_unique :
      (i j : ℕ)
      → i < length t
      → j < length t
      → IsTaken (set t r e) i
      → IsTaken (set t r e) j
      → mac_eq (slot (set t r e) i).mac (slot (set t r e) j).mac ≡ true
      → i ≡ j
  set_unique i j i_below j_below i_busy j_busy same = elim (Bool-cases (r == i)) [
    | inl i_new ↦ elim (Bool-cases (r == j)) [
      | inl j_new ↦ omega (arith, (==_iff r i).0 i_new, (==_iff r j).0 j_new)
      | inr j_old ↦
          let clash = rw (slot-set_new i i_new, slot-set_old j j_old) at same in
          absurd (cc (clash, old_differs j j_below j_old j_busy, mac_eq_comm e.mac (slot t j).mac))
    ]
    | inr i_old ↦ elim (Bool-cases (r == j)) [
      | inl j_new ↦
          let clash = rw (slot-set_old i i_old, slot-set_new j j_new) at same in
          absurd (cc (clash, old_differs i i_below i_old i_busy))
      | inr j_old ↦
          probed.unique i j i_below j_below (rw (slot-set_old i i_old) at i_busy)
            (rw (slot-set_old j j_old) at j_busy)
            (rw (slot-set_old i i_old, slot-set_old j j_old) at same)
    ]
  ]

  set-Stored : AllTaken t (home e.mac (length t)) r → Stored t e (set t r e)
  set-Stored before = record {
    width = length-set t r e;
    one_more = used-set t r e r_below free e_taken;
    probed = record {
      reach = rw (length-set t r e) (set-reach before);
      unique = rw (length-set t r e) set_unique;
    };
    scans = λ q. scan-set t r e q r_below free e_taken absent;
  }

-- With a free slot, storing a new address meets no fault and ends, and the scan finds it afterwards.
pub store_entry-Stored :
    (t : List HashEntry) (e : HashEntry)
    → IsProbed t
    → length t < 2 ^ 32
    → used t < length t
    → taken e ≡ true
    → scan t e.mac ≡ none
    → (t' : List HashEntry) × (store_entry t e (length t) ≡ ok t') × Stored t e t'
unfolding store_entry
store_entry-Stored t e probed small room e_taken absent =
    let inside : home e.mac (length t) < length t = mod-lt _ (omega arith) in
    let (r, runs, below, free, first) =
      find_free-first t (home e.mac (length t)) inside small (length t) (home e.mac (length t))
        inside (omega arith)
        (λ j j_below near. absurd (omega (arith, distance-home (length t) (home e.mac (length t)))))
        room in
    (
      set t r e,
      rw (modulo-pos (hash_mac e.mac) (length t) (omega arith)) (rw runs (store-set t r e below)),
      set-Stored t e r probed below free e_taken absent first,
    )
