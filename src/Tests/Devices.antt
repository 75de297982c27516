-- ===== src/Tests/Devices.antt =====
-- The device buffer of src/core/device.c, the registry, and a tick of the timer.
use net_det.Prelude.{
  List, sym, ap, length, ◌≤◌, Flow, ℕ, ◌≡◌, refl, true, false, none, some, [], ◌∷◌, ◌++◌, arith,
  replicate, take, ok, fault, out_of_bounds, returned, ◌==◌, if◌then◌else◌,
}
use net_det.Prelude.Int.{pos}
use net_det.Core.Device.{Mac, Device, Heap, update, RateHistory, ui_timer_tick}
use net_det.Core.HashMap.{HashMap, success}
use net_det.Core.HashMap.Slots.{scan}
use net_det.Core.HashMap.Insert.{Inserted}
use net_det.Core.DeviceBuffer
use net_det.Core.DeviceBuffer.{
  DeviceBuffer, Realloc, contents, device_buffer_store_entry, device_buffer_store_entry-contents,
  device_buffer_store_entry-overflow, device_buffer_store_entry-failure,
}
use net_det.Core.Registry.{device_registry_upsert}
use net_det.Core.Registry.Linked.{IsLinked, insert-IsLinked}
use net_det.Core.Registry.Upsert.{
  IsCleared, device_registry_upsert-new, device_registry_upsert-known,
}
use net_det.App.Process.{initial}
use net_det.Net.NetworkThread.{Network, FrameAnswers, handle_incoming_frame, handle_timer_tick}
use net_det.Net.FrameParser.{auxdata}
use net_det.Net.NetworkThread.Receive.{handle_incoming_frame-IsSound}
use net_det.Net.NetworkThread.Tick.{IsSound, Ticked, handle_timer_tick-Ticked}
use net_det.Tests.Maps.{calloc_zeroed, mac_a, empty_map, empty_map-IsValid}

abbrev realloc_exact : Realloc
realloc_exact items n = some (take n (items ++ replicate n none))

abbrev small_buffer : DeviceBuffer
small_buffer = record { items = some 7 ∷ none ∷ none ∷ none ∷ none ∷ []; size = 5; count = 1 }

abbrev full_buffer : DeviceBuffer
full_buffer = record { items = some 7 ∷ some 8 ∷ some 9 ∷ some 10 ∷ none ∷ []; size = 5; count = 4 }

small_buffer-IsValid : DeviceBuffer.IsValid small_buffer
small_buffer-IsValid = record { allocated = omega arith; load = omega arith; fits = omega arith }

device_buffer_store_entry-contents_example :
    (buffer' : DeviceBuffer) × (device_buffer_store_entry realloc_exact small_buffer (some 8)
      ≡ ok (success, buffer'))
    × (contents buffer' ≡ some 7 ∷ some 8 ∷ [])
    × DeviceBuffer.IsValid buffer'
device_buffer_store_entry-contents_example =
    device_buffer_store_entry-contents realloc_exact small_buffer (some 8) small_buffer-IsValid
      (omega arith)

device_buffer_store_entry-overflow_example :
    device_buffer_store_entry realloc_exact full_buffer (some 11) ≡ fault out_of_bounds
device_buffer_store_entry-overflow_example =
    device_buffer_store_entry-overflow realloc_exact full_buffer (some 11) full_buffer.items
      (omega arith) (omega arith) (omega arith) (omega arith) refl refl

abbrev pub device_a : Device
device_a = record {
  mac = mac_a;
  ip = record { i0 = 172; i1 = 17; i2 = 0; i3 = 2 };
  qinq_tag = 0;
  dot1q_tag = 0;
  previous_frames = 99;
  total_frames = 99;
  last_seen = record { hour = 12; minutes = 30; seconds = 5 };
  graph = record { values = replicate 60 3; head = 9; count = 9 };
}

-- The same device twice in memory, as `malloc` gives a fresh one for every frame.
abbrev two_frames : Heap
two_frames p = if p == 7 then some device_a else (if p == 9 then some device_a else none)

device_registry_upsert-new_example :
    (map' : HashMap) × (g : RateHistory) × (device_registry_upsert calloc_zeroed
        (pos 0)
        empty_map
        two_frames
        7
        (pos 4)
        initial
      ≡ ok (record {
        map = map';
        heap =
            update two_frames 7
              (record device_a { previous_frames = 0; total_frames = 1; graph = g });
        process = initial;
        result = returned false;
      }))
    × Inserted empty_map mac_a 7 map'
    × IsCleared g
device_registry_upsert-new_example =
    device_registry_upsert-new calloc_zeroed (pos 0) empty_map two_frames 7 device_a (pos 4) initial
      empty_map-IsValid (omega arith) refl refl refl (unfold scan in refl)

abbrev one_map : HashMap
one_map = device_registry_upsert-new_example.0

abbrev one_heap : Heap
one_heap = update two_frames 7 (record device_a {
  previous_frames = 0;
  total_frames = 1;
  graph = device_registry_upsert-new_example.1;
})

empty_map-IsLinked : IsLinked empty_map two_frames
unfolding scan
empty_map-IsLinked q p bound = cc

one_map-IsLinked : IsLinked one_map one_heap
one_map-IsLinked =
    let cleared = device_registry_upsert-new_example.4 in
    insert-IsLinked empty_map one_map two_frames 7 device_a _ empty_map-IsLinked
      device_registry_upsert-new_example.3 refl refl cleared.2 (omega (arith, cleared.0))

bound_a : scan one_map.table mac_a ≡ some 7
bound_a = device_registry_upsert-new_example.3.binds mac_a

device_registry_upsert-known_example :
    device_registry_upsert calloc_zeroed (pos 0) one_map one_heap 9 (pos 4) initial
    ≡ ok (record {
      map = one_map;
      heap =
          update one_heap 7
            (record (one_map-IsLinked mac_a 7 bound_a).dev { last_seen = device_a.last_seen });
      process = initial;
      result = returned true;
    })
device_registry_upsert-known_example =
    device_registry_upsert-known calloc_zeroed (pos 0) one_map one_heap 9 device_a 7 (pos 4) initial
      device_registry_upsert-new_example.3.valid one_map-IsLinked refl bound_a

abbrev one_device : Network
one_device = record { map = one_map; heap = one_heap; process = initial }

one_device-IsSound : IsSound one_device
one_device-IsSound = record {
  valid = device_registry_upsert-new_example.3.valid;
  linked = one_map-IsLinked;
}

handle_timer_tick-Ticked_example :
    (n' : Network) × (handle_timer_tick true (pos 0) (pos 4) one_device ≡ ok (n', returned tt))
    × IsSound n'
    × (n'.map ≡ one_map)
    × ((q : Mac) (p : ℕ) → scan one_map.table q ≡ some p → Ticked one_heap n'.heap p)
    × (n'.process.event_bus ≡ record { msg_type = ui_timer_tick; device = none } ∷ [])
handle_timer_tick-Ticked_example =
    handle_timer_tick-Ticked (pos 0) (pos 4) one_device one_device-IsSound

abbrev pub no_device : Network
no_device = record { map = empty_map; heap = two_frames; process = initial }

pub no_device-IsSound : IsSound no_device
no_device-IsSound = record { valid = empty_map-IsValid; linked = empty_map-IsLinked }

-- An untagged ARP frame of 46 bytes.
abbrev arp_frame : List ℕ
arp_frame = replicate 12 0x02 ++ 0x08 ∷ 0x06 ∷ replicate 32 0

abbrev pub answers : FrameAnswers
answers = record {
  malloc = some (20, device_a);
  received = some arp_frame;
  control = auxdata true true 0x8100 100 ∷ [];
  local_time = some (record { hour = 1; minutes = 2; seconds = 3 });
  calloc = calloc_zeroed;
  errno = pos 0;
}

pub short_frame : (bytes : List ℕ) → answers.received ≡ some bytes → length bytes ≤ 2040
short_frame bytes received =
    let same : arp_frame ≡ bytes = cc received in
    let wide : length bytes ≡ 46 = ap length (sym same) in omega (arith, wide)

handle_incoming_frame-IsSound_example :
    (n' : Network) × (flow : Flow (Unit {0})) × (handle_incoming_frame answers (pos 4) no_device
      ≡ ok (n', flow))
    × IsSound n'
handle_incoming_frame-IsSound_example =
    handle_incoming_frame-IsSound answers (pos 4) no_device 20 device_a no_device-IsSound
      (omega arith) refl refl refl refl short_frame
