-- ===== src/Core/HashMap/Insert.antt =====
-- `hashmap_store_entry` as a whole: it adds one binding, growing the table when it is four fifths full.
use net_det.Prelude.{
  ℕ, ◌+◌, ◌*◌, ◌%◌, ◌^◌, ◌≤◌, ◌<◌, ◌≡◌, refl, sym, ap, ◌∙◌, inl, inr, List, arith, length,
  replicate, Option, none, some, ok, Bool-cases, Option-cases, ◌⊎◌, if◌then◌else◌,
}
use net_det.Core.Device.{Mac, mac_eq}
use net_det.Core.HashMap.{
  HashEntry, HashMap, success, failure, zero_entry, hashmap_realloc, hashmap_check_entry, over_load,
  insert_entry, hashmap_store_entry,
}
use net_det.Core.HashMap.Slots.{scan}
use net_det.Core.HashMap.Probed.{IsValid}
use net_det.Core.HashMap.Lookup.{hashmap_check_entry-scan}
use net_det.Core.HashMap.Store.{store_entry-Stored}
use net_det.Core.HashMap.Resize.{hashmap_realloc-Grown}

-- `map'` has the bindings of `map` and one more, from `mac` to `dev`; it has as many slots, or twice as many if
-- `map` was over its load.
pub record Inserted (map : HashMap) (mac : Mac) (dev : ℕ) (map' : HashMap) : Type 0 where
  pub counts : map'.count ≡ map.count + 1
  pub valid : IsValid map'
  pub binds : (q : Mac) → scan map'.table q ≡ (if mac_eq mac q then some dev else scan map.table q)
  pub sized :
      (map'.size ≡ map.size) ⊎ ((map'.size ≡ 2 * map.size) × (4 * map.size < 5 * (map.count + 1)))

insert_entry-Inserted :
    (map : HashMap) (mac : Mac) (dev : ℕ)
    → IsValid map
    → 5 * (map.count + 1) ≤ 4 * map.size
    → scan map.table mac ≡ none
    → (map' : HashMap) × (insert_entry map mac dev ≡ ok (success, map'))
      × (map'.size ≡ map.size)
      × Inserted map mac dev map'
unfolding insert_entry
insert_entry-Inserted map mac dev v room absent =
    let entry : HashEntry = record { mac = mac; device = some dev } in
    let (t, runs, s) =
      store_entry-Stored map.table entry v.probed (omega (arith, v.width, v.fits))
        (omega (arith, v.width, v.counted)) refl absent in
    (
      record map { table = t; count = map.count + 1 },
      rw (v.width, runs)
          (ap (λ c. ok (success, record { table = t; size = length map.table; count = c }))
            (omega (arith, v.fits))),
      refl,
      record {
        counts = refl;
        valid = record {
          width = v.width ∙ sym s.width;
          counted = omega (arith, v.counted, s.one_more);
          load = room;
          positive = v.positive;
          fits = v.fits;
          probed = s.probed;
        };
        binds = s.scans;
        sized = inl refl;
      },
    )

pub hashmap_store_entry-Inserted :
    (calloc : ℕ → Option (List HashEntry)) (map : HashMap) (mac : Mac) (dev : ℕ)
    → IsValid map
    → map.size < 2 ^ 31
    → calloc (2 * map.size) ≡ some (replicate (2 * map.size) zero_entry)
    → scan map.table mac ≡ none
    → (map' : HashMap) × (hashmap_store_entry calloc map mac dev ≡ ok (success, map'))
      × Inserted map mac dev map'
unfolding hashmap_store_entry over_load
hashmap_store_entry-Inserted calloc map mac dev v small zeroed absent =
    elim (Bool-cases (over_load map)) [
      | inr fits ↦
          let (map', runs, _, i) =
            insert_entry-Inserted map mac dev v (ground (arith, v.load, v.fits)) absent in
          (map', rw fits runs, i)
      | inl full ↦
          let (grown, grows, g) = hashmap_realloc-Grown calloc map v small zeroed in
          let (map', runs, same, i) =
            insert_entry-Inserted grown mac dev g.valid
              (omega (arith, g.doubled, g.counts, v.load, v.positive)) (g.keeps mac ∙ absent) in
          (
            map',
            rw (full, grows) runs,
            record {
              counts = i.counts ∙ ap (λ c. c + 1) g.counts;
              valid = i.valid;
              binds = λ q. i.binds q ∙ rw g.keeps;
              sized = inr (same ∙ g.doubled, ground (arith, v.load, v.fits));
            },
          )
    ]

-- In a valid map of less than 2^31 slots, where `calloc` gives zeroed memory: storing a device under an
-- address that lookup does not find meets no fault and succeeds, the new map is valid and counts one
-- device more, and lookup then finds the device under its address and under all others what it found.
pub hashmap_store_entry-hashmap_check_entry :
    (calloc : ℕ → Option (List HashEntry)) (map : HashMap) (mac : Mac) (dev : ℕ)
    → IsValid map
    → map.size < 2 ^ 31
    → calloc (2 * map.size) ≡ some (replicate (2 * map.size) zero_entry)
    → hashmap_check_entry map mac ≡ ok none
    → (map' : HashMap) × (hashmap_store_entry calloc map mac dev ≡ ok (success, map'))
      × IsValid map'
      × (map'.count ≡ map.count + 1)
      × ((q : Mac)
          → hashmap_check_entry map' q
            ≡ (if mac_eq mac q then ok (some dev) else hashmap_check_entry map q))
hashmap_store_entry-hashmap_check_entry calloc map mac dev v small zeroed missing =
    let absent : scan map.table mac ≡ none = cc (hashmap_check_entry-scan map mac v) in
    let (map', runs, i) = hashmap_store_entry-Inserted calloc map mac dev v small zeroed absent in
    (
      map',
      runs,
      i.valid,
      i.counts,
      λ q.
          rw (hashmap_check_entry-scan map' q i.valid, hashmap_check_entry-scan map q v, i.binds q)
            (ground arith),
    )

hashmap_realloc_refused :
    (calloc : ℕ → Option (List HashEntry)) (map : HashMap) (n : ℕ)
    → map.size * 2 % 2 ^ 32 ≡ n
    → calloc n ≡ none
    → hashmap_realloc calloc map ≡ ok (failure, map)
unfolding hashmap_realloc
hashmap_realloc_refused calloc map n e refused = rw (e, hashmap_realloc) (ground arith)

-- In a valid map of less than 2^31 slots, where `calloc` gives zeroed memory or none, an address that no entry has
-- is stored without a fault: storing fails only where the table is over its load and `calloc` refuses, and then
-- leaves the map as it was; otherwise it succeeds, and the new map is valid, counts one device more, and finds the
-- device under its address and under all others what was found before.
pub hashmap_store_entry-cases :
    (calloc : ℕ → Option (List HashEntry)) (map : HashMap) (mac : Mac) (dev : ℕ)
    → IsValid map
    → map.size < 2 ^ 31
    → ((table : List HashEntry)
        → calloc (2 * map.size) ≡ some table
        → table ≡ replicate (2 * map.size) zero_entry)
    → scan map.table mac ≡ none
    → ((4 * map.size < 5 * (map.count + 1))
        × (calloc (2 * map.size) ≡ none)
        × (hashmap_store_entry calloc map mac dev ≡ ok (failure, map)))
      ⊎ ((map' : HashMap) × (hashmap_store_entry calloc map mac dev ≡ ok (success, map'))
          × Inserted map mac dev map')
unfolding hashmap_store_entry over_load
hashmap_store_entry-cases calloc map mac dev v small zeroed absent =
    elim (Option-cases (calloc (2 * map.size))) [
      | inr (table, given) ↦ inr (
          hashmap_store_entry-Inserted calloc map mac dev v small
            (given ∙ ap some (zeroed table given)) absent)
      | inl refused ↦ elim (Bool-cases (over_load map)) [
        | inl full ↦
            let refuses = hashmap_realloc_refused calloc map (2 * map.size) (omega arith) refused in
            inl (ground (arith, v.load, v.fits), refused, rw (full, refuses))
        | inr fits ↦
            let (map', runs, _, i) =
              insert_entry-Inserted map mac dev v (ground (arith, v.load, v.fits)) absent in
            inr (map', rw fits runs, i)
      ]
    ]
