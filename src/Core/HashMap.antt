-- ===== src/Core/HashMap.antt =====
-- src/core/hash_map.c: an open-addressing table from MAC addresses to devices, with linear probing.
-- `calloc` is an argument, since it may fail. A loop recurs on fuel, one unit for each slot.
pub mod Slots
pub mod Ring
pub mod Probed
pub mod Lookup
pub mod Store
pub mod Rehash
pub mod Resize
pub mod Insert
pub mod Replay
use net_det.Prelude.{
  ℕ, zero, suc, ◌+◌, ◌*◌, ◌/◌, ◌%◌, ◌^◌, bit_or, bit_xor, Bool, Option, none, some, List, Run, ok,
  fault, out_of_fuel, ◌>>=◌, modulo, at, store, ltb, ◌==◌, if◌then◌else◌,
}
use net_det.Core.Device.{Mac, mac_eq}

pub record HashEntry : Type 0 where
  pub mac : Mac
  pub device : Option ℕ

pub record HashMap : Type 0 where
  pub table : List HashEntry
  pub size : ℕ
  pub count : ℕ

-- What `calloc` leaves in a slot.
abbrev pub zero_entry : HashEntry
zero_entry = record {
  mac = record { m0 = 0; m1 = 0; m2 = 0; m3 = 0; m4 = 0; m5 = 0 };
  device = none;
}

-- The `int32_t` that a function returns: 0 or -1.
pub data Status : Type 0 where
  success failure : Status

unfoldable pub mac_to_u64 : Mac → ℕ
mac_to_u64 m = bit_or (m.m0 * 2 ^ 40) (
    bit_or (m.m1 * 2 ^ 32)
      (bit_or (m.m2 * 2 ^ 24) (bit_or (m.m3 * 2 ^ 16) (bit_or (m.m4 * 2 ^ 8) m.m5))))

unfoldable pub hash_mac : Mac → ℕ
unfolding mac_to_u64
hash_mac m =
    let a = mac_to_u64 m in
    let b = bit_xor a (a / 2 ^ 33) in
    let c = b * 0xff51_afd7_ed55_8ccd % 2 ^ 64 in
    let d = bit_xor c (c / 2 ^ 33) in
    let e = d * 0xc4ce_b9fe_1a85_ec53 % 2 ^ 64 in bit_xor e (e / 2 ^ 33) % 2 ^ 32

-- The loop of `store_entry`; the index is a `size_t`.
unfoldable pub find_free : ℕ → List HashEntry → ℕ → ℕ → Run ℕ
find_free zero t i n = fault out_of_fuel
find_free (suc fuel) t i n = do
  e ← at t i
  elim e.device [ none ↦ ok i | some d ↦ modulo ((i + 1) % 2 ^ 64) n >>= λ j. find_free fuel t j n ]

unfoldable pub store_entry : List HashEntry → HashEntry → ℕ → Run (List HashEntry)
store_entry t entry_to_save map_size = do
  start ← modulo (hash_mac entry_to_save.mac) map_size
  i ← find_free map_size t start map_size
  store t i entry_to_save

-- The loop of `hashmap_realloc` over the slots of the old table, from slot `i` on.
unfoldable pub rehash : ℕ → ℕ → List HashEntry → List HashEntry → ℕ → Run (List HashEntry)
rehash zero i old tmp new_size = ok tmp
rehash (suc rounds) i old tmp new_size = do
  e ← at old i
  tmp' ← elim e.device [ none ↦ ok tmp | some d ↦ store_entry tmp e new_size ]
  rehash rounds (i + 1) old tmp' new_size

unfoldable pub hashmap_realloc : (ℕ → Option (List HashEntry)) → HashMap → Run (Status × HashMap)
hashmap_realloc calloc map =
    let new_size = map.size * 2 % 2 ^ 32 in
    elim (calloc new_size) [
      | none ↦ ok (failure, map)
      | some tmp ↦ rehash map.size 0 map.table tmp new_size >>= λ tmp'.
          ok (success, record map { table = tmp'; size = new_size })
    ]

-- The loop of `hashmap_check_entry`; the index is a `uint32_t`.
unfoldable pub probe : ℕ → List HashEntry → Mac → ℕ → ℕ → ℕ → Run (Option ℕ)
probe zero t mac start i n = fault out_of_fuel
probe (suc fuel) t mac start i n = do
  e ← at t i
  elim e.device [
    | none ↦ ok none
    | some d ↦
        let next = modulo ((i + 1) % 2 ^ 32) n >>= λ j.
        let rest = probe fuel t mac start j n in if j == start then ok none else rest in
        if mac_eq e.mac mac then ok (some d) else next
  ]

unfoldable pub hashmap_check_entry : HashMap → Mac → Run (Option ℕ)
hashmap_check_entry map mac = do
  start ← modulo (hash_mac mac) map.size
  probe map.size map.table mac start start map.size

-- `(map->count + 1) > (map->size * 0.8)`. The product is a double; since `5 * 0.8` rounds to 4 the
-- test is exact on 32-bit numbers, and it is the same test multiplied by 5.
unfoldable pub over_load : HashMap → Bool
over_load map = ltb (4 * map.size) (5 * ((map.count + 1) % 2 ^ 32))

-- The end of `hashmap_store_entry`, once the table has room.
unfoldable pub insert_entry : HashMap → Mac → ℕ → Run (Status × HashMap)
insert_entry map mac dev = do
  t ← store_entry map.table (record { mac = mac; device = some dev }) map.size
  ok (success, record map { table = t; count = (map.count + 1) % 2 ^ 32 })

-- `mac` is the MAC address of the device at `dev`.
unfoldable pub hashmap_store_entry :
    (ℕ → Option (List HashEntry)) → HashMap → Mac → ℕ → Run (Status × HashMap)
hashmap_store_entry calloc map mac dev =
    if over_load map
    then (hashmap_realloc calloc map >>= λ r. elim r.0 [
      | failure ↦ ok (failure, r.1)
      | success ↦ insert_entry r.1 mac dev
    ])
    else insert_entry map mac dev
