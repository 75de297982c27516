-- ===== src/Core/Registry/Upsert.antt =====
-- What `device_registry_upsert` does to the map and to the devices.
use net_det.Prelude.{
  ℕ, ◌*◌, ◌^◌, ◌<◌, ◌≡◌, refl, ◌∙◌, true, false, Option, none, some, List, arith, length, get_or,
  get_or_outside, replicate, ok, returned, fill-get_or,
}
use net_det.Prelude.Int.{ℤ}
use net_det.Core.Device.{Device, Heap, update, RateHistory, rate_history_size}
use net_det.Core.HashMap.{HashEntry, HashMap, zero_entry}
use net_det.Core.HashMap.Probed.{IsValid}
use net_det.Core.HashMap.Slots.{scan}
use net_det.Core.HashMap.Lookup.{hashmap_check_entry-scan}
use net_det.Core.HashMap.Insert.{Inserted, hashmap_store_entry-Inserted}
use net_det.Core.Registry.Linked.{IsLinked}
use net_det.Core.Registry.{device_registry_upsert, first_frame}
use net_det.App.Process.{Process}

-- The history of a device that has just been found.
abbrev pub IsCleared : RateHistory → Type 0
IsCleared g =
    (g.head ≡ 0)
    × (g.count ≡ 0)
    × (length g.values ≡ rate_history_size)
    × ((i : ℕ) → get_or g.values i 0 ≡ 0)

first_frame_lem :
    (heap : Heap) (incoming : ℕ) (inc : Device)
    → heap incoming ≡ some inc
    → length inc.graph.values ≡ rate_history_size
    → (g : RateHistory) × (first_frame heap incoming
        ≡ ok (
            update heap incoming (record inc { previous_frames = 0; total_frames = 1; graph = g })))
      × IsCleared g
unfolding first_frame
first_frame_lem heap incoming inc there cells =
    let (zeros, runs, width, reads) =
      fill-get_or 0 rate_history_size 0 inc.graph.values (omega arith) in
    (
      record { values = zeros; head = 0; count = 0 },
      ground arith,
      (
        refl,
        refl,
        width ∙ cells,
        λ i. reads i 0 ∙ ground (arith, get_or_outside inc.graph.values i 0),
      ),
    )

-- In a valid map with its devices, where the map has the incoming device's address: the known
-- device takes over the time of the frame, nothing else changes, and the function returns true.
pub device_registry_upsert-known :
    (calloc : ℕ → Option (List HashEntry)) (errno : ℤ) (map : HashMap) (heap : Heap) (incoming : ℕ)
    (inc : Device) (p : ℕ) (socket_fd : ℤ) (process : Process)
    → IsValid map
    → (linked : IsLinked map heap) → heap incoming ≡ some inc
    → (bound : scan map.table inc.mac ≡ some p)
    → device_registry_upsert calloc errno map heap incoming socket_fd process
      ≡ ok (record {
        map = map;
        heap = update heap p (record (linked inc.mac p bound).dev { last_seen = inc.last_seen });
        process = process;
        result = returned true;
      })
unfolding device_registry_upsert
device_registry_upsert-known calloc errno map heap incoming inc p socket_fd process v linked there
      bound =
    ground (arith, hashmap_check_entry-scan map inc.mac v, (linked inc.mac p bound).there)

-- In a valid map with its devices, where `calloc` gives zeroed memory and the map lacks the address:
-- the device is bound in the map, starts with one frame and a cleared history, and the function
-- returns false.
pub device_registry_upsert-new :
    (calloc : ℕ → Option (List HashEntry)) (errno : ℤ) (map : HashMap) (heap : Heap) (incoming : ℕ)
    (inc : Device) (socket_fd : ℤ) (process : Process)
    → IsValid map
    → map.size < 2 ^ 31
    → calloc (2 * map.size) ≡ some (replicate (2 * map.size) zero_entry)
    → heap incoming ≡ some inc
    → length inc.graph.values ≡ rate_history_size
    → scan map.table inc.mac ≡ none
    → (map' : HashMap) × (g : RateHistory) × (device_registry_upsert calloc errno map heap incoming
          socket_fd process
        ≡ ok (record {
          map = map';
          heap =
              update heap incoming
                (record inc { previous_frames = 0; total_frames = 1; graph = g });
          process = process;
          result = returned false;
        }))
      × Inserted map inc.mac incoming map'
      × IsCleared g
unfolding device_registry_upsert
device_registry_upsert-new calloc errno map heap incoming inc socket_fd process v small zeroed there
      cells absent =
    let (map', stores, i) =
      hashmap_store_entry-Inserted calloc map inc.mac incoming v small zeroed absent in
    let (g, runs, cleared) = first_frame_lem heap incoming inc there cells in
    (map', g, ground (arith, hashmap_check_entry-scan map inc.mac v), i, cleared)
