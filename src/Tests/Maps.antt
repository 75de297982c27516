-- ===== src/Tests/Maps.antt =====
-- The hash map of src/core/hash_map.c at small tables.
use net_det.Prelude.{
  ℕ, ◌<◌, ◌⊎◌, ◌≡◌, refl, ap, ◌∙◌, [], ◌∷◌, Option, none, some, List, arith, replicate, Run, ok,
  ◌>>=◌, if◌then◌else◌,
}
use net_det.Core.Device.{Mac, mac_eq}
use net_det.Core.HashMap.{
  HashEntry, HashMap, zero_entry, success, failure, mac_to_u64, hash_mac, find_free, store_entry,
  rehash, hashmap_realloc, probe, hashmap_check_entry, over_load, insert_entry, hashmap_store_entry,
}
use net_det.Core.HashMap.Slots.{scan}
use net_det.Core.HashMap.Probed.{IsValid}
use net_det.Core.HashMap.Resize.{Grown, zeros-IsProbed, scan-zeros, hashmap_realloc-Grown}
use net_det.Core.HashMap.Lookup.{hashmap_check_entry-scan}
use net_det.Core.HashMap.Replay.{sight_all, replay, sight_all-replay}
use net_det.Core.HashMap.Insert.{
  hashmap_store_entry-hashmap_check_entry, hashmap_store_entry-cases, Inserted,
}

abbrev pub calloc_zeroed : ℕ → Option (List HashEntry)
calloc_zeroed n = some (replicate n zero_entry)

abbrev calloc_fails : ℕ → Option (List HashEntry)
calloc_fails n = none

abbrev pub mac_a : Mac
mac_a = record { m0 = 0x02; m1 = 0x42; m2 = 0xac; m3 = 0x11; m4 = 0x00; m5 = 0x02 }

abbrev mac_b : Mac
mac_b = record { m0 = 0x02; m1 = 0x42; m2 = 0xac; m3 = 0x11; m4 = 0x00; m5 = 0x03 }

abbrev pub empty_map : HashMap
empty_map = record { table = replicate 4 zero_entry; size = 4; count = 0 }

program : Unit {0}
unfolding hash_mac find_free store_entry rehash hashmap_realloc probe hashmap_check_entry over_load
    insert_entry hashmap_store_entry
program = tt

mac_to_u64_run : mac_to_u64 mac_a ≡ 0x0242_ac11_0002
unfolding mac_to_u64
mac_to_u64_run = refl

-- Four devices in a table of four slots, which grows at the fourth.
abbrev session : Run (ℕ × Option ℕ × Option ℕ)
session = do
  let second : Mac = record mac_a { m5 = 0x09 }
  let third : Mac = record mac_a { m5 = 0x0a }
  (_, one) ← hashmap_store_entry calloc_zeroed empty_map mac_a 7
  (_, two) ← hashmap_store_entry calloc_zeroed one mac_b 8
  (_, three) ← hashmap_store_entry calloc_zeroed two second 9
  (_, four) ← hashmap_store_entry calloc_zeroed three third 10
  found ← hashmap_check_entry four mac_b
  missing ← hashmap_check_entry four (record mac_a { m5 = 0x0b })
  ok (four.size, found, missing)

session_run : session ≡ ok (8, some 8, none)
unfolding program
session_run = refl

pub empty_map-IsValid : IsValid empty_map
empty_map-IsValid = record {
  width = refl;
  counted = refl;
  load = omega arith;
  positive = omega arith;
  fits = omega arith;
  probed = zeros-IsProbed 4;
}

missing_a : hashmap_check_entry empty_map mac_a ≡ ok none
unfolding program
missing_a = refl

hashmap_store_entry-hashmap_check_entry_example :
    (map' : HashMap) × (hashmap_store_entry calloc_zeroed empty_map mac_a 7 ≡ ok (success, map'))
    × IsValid map'
    × (map'.count ≡ 1)
    × ((q : Mac)
        → hashmap_check_entry map' q
          ≡ (if mac_eq mac_a q then ok (some 7) else hashmap_check_entry empty_map q))
hashmap_store_entry-hashmap_check_entry_example =
    hashmap_store_entry-hashmap_check_entry calloc_zeroed empty_map mac_a 7 empty_map-IsValid
      (omega arith) refl missing_a

hashmap_check_entry-scan_example :
    hashmap_check_entry empty_map mac_b ≡ ok (scan empty_map.table mac_b)
hashmap_check_entry-scan_example = hashmap_check_entry-scan empty_map mac_b empty_map-IsValid

hashmap_realloc-Grown_example :
    (grown : HashMap) × (hashmap_realloc calloc_zeroed empty_map ≡ ok (success, grown))
    × Grown empty_map grown
hashmap_realloc-Grown_example =
    hashmap_realloc-Grown calloc_zeroed empty_map empty_map-IsValid (omega arith) refl

hashmap_store_entry-cases_example :
    ((16 < 5)
      × (calloc_fails 8 ≡ none)
      × (hashmap_store_entry calloc_fails empty_map mac_a 7 ≡ ok (failure, empty_map)))
    ⊎ ((map' : HashMap) × (hashmap_store_entry calloc_fails empty_map mac_a 7 ≡ ok (success, map'))
        × Inserted empty_map mac_a 7 map')
hashmap_store_entry-cases_example =
    hashmap_store_entry-cases calloc_fails empty_map mac_a 7 empty_map-IsValid (omega arith)
      (λ table given. absurd (cc given)) (unfold scan in refl)

empty_map_reads : (q : Mac) → hashmap_check_entry empty_map q ≡ ok none
empty_map_reads q = hashmap_check_entry-scan empty_map q empty_map-IsValid ∙ ap ok (scan-zeros 4 q)

-- The second device at an address is not stored.
abbrev sightings : List (Mac × ℕ)
sightings = (mac_a, 7) ∷ (mac_b, 8) ∷ (mac_a, 9) ∷ []

sight_all-replay_example :
    (map' : HashMap) × (sight_all calloc_zeroed sightings empty_map ≡ ok map')
    × IsValid map'
    × ((q : Mac) → hashmap_check_entry map' q ≡ ok (replay sightings (λ q. none) q))
sight_all-replay_example =
    sight_all-replay calloc_zeroed (λ n. refl) sightings empty_map (λ q. none) empty_map-IsValid
      empty_map_reads (omega arith) (omega arith)
