-- ===== src/Core/HashMap/Replay.antt =====
-- The map as a function from addresses to devices, whatever the order of its slots: what any sequence of first and
-- later sightings makes of it.
use net_det.Prelude.{
  ℕ, ◌+◌, ◌*◌, ◌≤◌, ◌<◌, ◌^◌, ◌≡◌, refl, sym, ap, ◌∙◌, inl, inr, List, [], ◌∷◌, arith, length,
  replicate, Option, none, some, Run, ok, ◌>>=◌, Option-cases, if◌then◌else◌,
}
use net_det.Core.Device.{Mac, mac_eq}
use net_det.Core.HashMap.{HashEntry, HashMap, zero_entry, hashmap_check_entry, hashmap_store_entry}
use net_det.Core.HashMap.Slots.{scan}
use net_det.Core.HashMap.Probed.{IsValid}
use net_det.Core.HashMap.Lookup.{hashmap_check_entry-scan}
use net_det.Core.HashMap.Insert.{hashmap_store_entry-Inserted}

-- A device at an address, stored unless the map has the address already.
unfoldable pub sight : (ℕ → Option (List HashEntry)) → Mac → ℕ → HashMap → Run HashMap
sight calloc mac dev map = do
  existing ← hashmap_check_entry map mac
  elim existing [ some p ↦ ok map | none ↦ hashmap_store_entry calloc map mac dev >>= λ r. ok r.1 ]

unfoldable pub sight_all : (ℕ → Option (List HashEntry)) → List (Mac × ℕ) → HashMap → Run HashMap
unfolding sight
sight_all calloc [] map = ok map
sight_all calloc (x ∷ xs) map = sight calloc x.0 x.1 map >>= λ map'. sight_all calloc xs map'

-- The same on a function.
abbrev pub first_sight : Mac → ℕ → (Mac → Option ℕ) → Mac → Option ℕ
first_sight mac dev f q = elim (f mac) [
  | some p ↦ f q
  | none ↦ if mac_eq mac q then some dev else f q
]

unfoldable pub replay : List (Mac × ℕ) → (Mac → Option ℕ) → Mac → Option ℕ
replay [] f = f
replay (x ∷ xs) f = replay xs (first_sight x.0 x.1 f)

first_sight_known :
    (mac : Mac) (dev : ℕ) (f : Mac → Option ℕ) (p : ℕ)
    → f mac ≡ some p
    → (q : Mac) → first_sight mac dev f q ≡ f q
first_sight_known mac dev f p known q = rw (first_sight, known)

first_sight_unknown :
    (mac : Mac) (dev : ℕ) (f : Mac → Option ℕ)
    → f mac ≡ none
    → (q : Mac) → first_sight mac dev f q ≡ (if mac_eq mac q then some dev else f q)
first_sight_unknown mac dev f unknown q = rw (first_sight, unknown)

-- The map reads as the function.
abbrev pub Reads : HashMap → (Mac → Option ℕ) → Type 0
Reads map f = (q : Mac) → hashmap_check_entry map q ≡ ok (f q)

module _ (calloc : ℕ → Option (List HashEntry))
    (zeroed : (n : ℕ) → calloc n ≡ some (replicate n zero_entry)) where
  -- One sighting, in a map that has room for `n` more.
  sight-Reads :
      (mac : Mac) (dev n : ℕ) (map : HashMap) (f : Mac → Option ℕ)
      → IsValid map
      → Reads map f
      → map.size < 2 ^ 31
      → 5 * (map.count + n + 1) ≤ 2 ^ 31
      → (map' : HashMap) × (sight calloc mac dev map ≡ ok map')
        × IsValid map'
        × Reads map' (first_sight mac dev f)
        × (map'.size < 2 ^ 31)
        × (5 * (map'.count + n) ≤ 2 ^ 31)
  unfolding sight
  sight-Reads mac dev n map f v reads small room = elim (Option-cases (f mac)) [
    | inr (p, known) ↦ (
      map,
      rw (reads mac, known),
      v,
      λ q. reads q ∙ ap ok (sym (first_sight_known mac dev f p known q)),
      small,
      omega arith,
    )
    | inl unknown ↦
        let absent : scan map.table mac ≡ none =
          cc (hashmap_check_entry-scan map mac v, reads mac, unknown) in
        let (map', runs, i) =
          hashmap_store_entry-Inserted calloc map mac dev v small (zeroed (2 * map.size)) absent in
        (
          map',
          rw (reads mac, unknown, runs),
          i.valid,
          λ q.
              let before : scan map.table q ≡ f q =
                cc (hashmap_check_entry-scan map q v, reads q) in
              hashmap_check_entry-scan map' q i.valid
              ∙ ap ok (
                  i.binds q
                  ∙ ap (λ o. if mac_eq mac q then some dev else o) before
                  ∙ sym (first_sight_unknown mac dev f unknown q)),
          elim i.sized [ inl same ↦ omega arith | inr (double, full) ↦ omega arith ],
          omega (arith, i.counts),
        )
  ]

  -- From a valid map of less than 2^31 slots with room for all sightings, where `calloc` always gives zeroed
  -- memory: any sequence of devices, each stored unless lookup finds its address, meets no fault, and the map
  -- is then valid, and lookup finds under every address what a replay on a function gives: the
  -- first device that was seen there.
  pub sight_all-replay :
      (xs : List (Mac × ℕ)) (map : HashMap) (f : Mac → Option ℕ)
      → IsValid map
      → Reads map f
      → map.size < 2 ^ 31
      → 5 * (map.count + length xs) ≤ 2 ^ 31
      → (map' : HashMap) × (sight_all calloc xs map ≡ ok map')
        × IsValid map'
        × Reads map' (replay xs f)
  unfolding sight_all replay
  sight_all-replay [] map f v reads small room = (map, refl, v, reads)
  sight_all-replay (x ∷ xs) map f v reads small room =
      let (map1, runs, v1, reads1, small1, room1) =
        sight-Reads x.0 x.1 (length xs) map f v reads small (omega arith) in
      let (map2, rest, v2, reads2) =
        sight_all-replay xs map1 (first_sight x.0 x.1 f) v1 reads1 small1 room1 in
      (map2, rw runs rest, v2, reads2)
