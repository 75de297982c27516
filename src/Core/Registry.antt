-- ===== src/Core/Registry.antt =====
-- `device_registry_upsert` of src/core/hash_map.c: a frame's device is new, or it is known and is seen again.
pub mod Linked
pub mod Upsert
use net_det.Prelude.{
  ℕ, ◌+◌, ◌*◌, ◌^◌, ◌≤◌, ◌<◌, ◌≡◌, refl, sym, ap, ◌∙◌, Bool, true, false, Option, none, some, List,
  arith, length, get_or, replicate, Run, ok, ◌>>=◌, Flow, returned, exited, fill, fill-get_or, ◌==◌,
  if◌then◌else◌, not_null,
}
use net_det.Prelude.Int.{ℤ}
use net_det.Core.Device.{Mac, mac_eq, Device, Heap, update, deref, rate_history_size}
use net_det.Core.HashMap.{
  HashEntry, HashMap, Status, success, failure, zero_entry, hashmap_check_entry,
  hashmap_store_entry,
}
use net_det.Core.HashMap.Probed.{IsValid}
use net_det.Core.HashMap.Slots.{scan}
use net_det.App.Process.{Process, app_err_hashmap_store_entry}
use net_det.Common.Error.{network_error}

pub record Upserted : Type 0 where
  pub map : HashMap
  pub heap : Heap
  pub process : Process
  pub result : Flow Bool

-- The stores that end the branch of a new device.
unfoldable pub first_frame : Heap → ℕ → Run Heap
first_frame heap incoming = do
  dev ← deref heap incoming
  zeros ← fill 0 rate_history_size 0 dev.graph.values
  ok (
      update heap incoming (record dev {
        previous_frames = 0;
        total_frames = 1;
        graph = record { values = zeros; head = 0; count = 0 };
      }))

-- The stores of the branch of a known device.
unfoldable pub seen_again : Heap → ℕ → Device → Run Heap
seen_again heap existing incoming = do
  dev ← deref heap existing
  ok (update heap existing (record dev { last_seen = incoming.last_seen }))

-- A device that is not in the map yet: it is stored, or the thread ends.
unfoldable pub add_device :
    (ℕ → Option (List HashEntry)) → ℤ → HashMap → Heap → ℕ → Mac → ℤ → Process → Run Upserted
unfolding first_frame
add_device calloc errno map heap incoming mac socket_fd process =
    hashmap_store_entry calloc map mac incoming >>= λ r. elim r.0 [
      | failure ↦ ok (record {
        map = r.1;
        heap = heap;
        process = network_error app_err_hashmap_store_entry errno socket_fd process;
        result = exited;
      })
      | success ↦ first_frame heap incoming >>= λ heap'.
          ok (record { map = r.1; heap = heap'; process = process; result = returned false })
    ]

-- `errno` is what the C library left, if `calloc` failed.
unfoldable pub device_registry_upsert :
    (ℕ → Option (List HashEntry)) → ℤ → HashMap → Heap → ℕ → ℤ → Process → Run Upserted
unfolding seen_again add_device
device_registry_upsert calloc errno map heap incoming socket_fd process = do
  inc ← deref heap incoming
  existing ← hashmap_check_entry map inc.mac
  elim existing [
    | some p ↦ seen_again heap p inc >>= λ heap'.
        ok (record { map = map; heap = heap'; process = process; result = returned true })
    | none ↦ add_device calloc errno map heap incoming inc.mac socket_fd process
  ]
