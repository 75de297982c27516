-- ===== src/Net/NetworkThread.antt =====
-- src/net/network_thread.c: what the network thread does with a frame and with a tick of its timer.
-- What the C library and the kernel answer during a call is a record of answers.
pub mod Typed
pub mod Filled
pub mod DeviceSteps
pub mod Tick
pub mod Unbound
pub mod Register
pub mod Receive
pub mod Routine
use net_det.Prelude.{
  ℕ, zero, suc, ◌+◌, ◌-◌, ◌*◌, ◌%◌, ◌^◌, Bool, true, false, not, Option, none, some, List, [], ◌∷◌,
  length, replicate, Run, ok, ◌>>=◌, at, store, fill, copy, not_null, Flow, returned, exited, ltb,
  ◌==◌, if◌then◌else◌,
}
use net_det.Prelude.Int.{ℤ}
use net_det.Core.Device.{
  Mac, TimeStruct, Device, Heap, update, deref, rate_history_size, device_raise_frame_count,
  UiMessage, ui_new_entry, ui_update_table, ui_timer_tick,
}
use net_det.Core.HashMap.{HashEntry, HashMap, hashmap_check_entry}
use net_det.Core.Registry.{device_registry_upsert}
use net_det.App.Process.{Process, app_err_timer}
use net_det.App.Lifecycle.{event_bus_publish}
use net_det.Common.Error.{network_error}
use net_det.Net.FrameParser.{
  ControlMessage, frame_buffer_size, eth_header_size, arp_header_size, process_raw_arp_frame,
  get_vlan_info, mac_at, set_device_data, release,
}

-- What the thread works on: its map, the devices, and the statics of the program.
pub record Network : Type 0 where
  pub map : HashMap
  pub heap : Heap
  pub process : Process

-- The answers while a frame is handled: `malloc` (an address and what stands there), `recvmsg` (the
-- bytes it wrote, or `none` for -1, and the control messages), `localtime_r`, `calloc`, and `errno`.
pub record FrameAnswers : Type 0 where
  pub malloc : Option (ℕ × Device)
  pub received : Option (List ℕ)
  pub control : List ControlMessage
  pub local_time : Option TimeStruct
  pub calloc : ℕ → Option (List HashEntry)
  pub errno : ℤ

abbrev pub Step : Type 0
Step = Run (Network × Flow (Unit {0}))

abbrev pub allocated : Heap → Option (ℕ × Device) → Heap
allocated heap none = heap
allocated heap (some (p, garbage)) = update heap p garbage

-- `free(device_data)`, which does nothing at a null pointer.
abbrev pub freed : Heap → Option (ℕ × Device) → Heap
freed heap none = heap
freed heap (some (p, _)) = release heap p

-- The end: the device is put in the map or found there, and the UI is told.
unfoldable pub register_device : FrameAnswers → ℤ → ℕ → Network → Step
register_device answers socket_fd p n = do
  u ← device_registry_upsert answers.calloc answers.errno n.map n.heap p socket_fd n.process
  elim u.result [
    | exited ↦ ok (record { map = u.map; heap = u.heap; process = u.process }, exited)
    | returned true ↦ deref u.heap p >>= λ dev. hashmap_check_entry u.map dev.mac >>= λ known. ok (
      record {
        map = u.map;
        heap = release u.heap p;
        process =
            event_bus_publish (record { msg_type = ui_update_table; device = known }) u.process;
      },
      returned tt,
    )
    | returned false ↦ ok (
      record {
        map = u.map;
        heap = u.heap;
        process = event_bus_publish (record { msg_type = ui_new_entry; device = some p }) u.process;
      },
      returned tt,
    )
  ]

-- From a processed frame that is long enough: its tags, its device, and the map.
unfoldable pub read_device : FrameAnswers → ℤ → List ℕ → Network → Step
unfolding register_device
read_device answers socket_fd frame n = do
  vlan ← get_vlan_info answers.control frame answers.errno socket_fd n.process
  elim vlan.flow [
    | exited ↦ ok (record n { process = vlan.process }, exited)
    | returned _ ↦ not_null answers.malloc >>= λ m.
        set_device_data n.heap m.0 vlan.frame answers.errno socket_fd answers.local_time
          vlan.process
        >>= λ data_set. elim data_set.flow [
          | exited ↦ ok (record n { heap = data_set.heap; process = data_set.process }, exited)
          | returned _ ↦
              register_device answers socket_fd m.0
                (record n { heap = data_set.heap; process = data_set.process })
        ]
  ]

-- From the bytes of a raw frame: the count of the sender's frames, and the processed frame.
unfoldable pub receive_frame : FrameAnswers → ℤ → List ℕ → Network → Step
unfolding read_device
receive_frame answers socket_fd bytes n = do
  raw ← copy (length bytes) 0 0 (replicate frame_buffer_size 0) bytes
  sender ← mac_at raw 6
  known ← hashmap_check_entry n.map sender
  heap ← device_raise_frame_count n.heap known
  parsed ← process_raw_arp_frame raw (replicate frame_buffer_size 0) (length bytes)
  if ltb parsed.1 (eth_header_size + arp_header_size)
      then ok (record n { heap = freed heap answers.malloc }, returned tt)
      else read_device answers socket_fd parsed.0 (record n { heap = heap })

unfoldable pub handle_incoming_frame : FrameAnswers → ℤ → Network → Step
unfolding receive_frame
handle_incoming_frame answers socket_fd n = elim answers.received [
  | none ↦
      ok (record n { heap = freed (allocated n.heap answers.malloc) answers.malloc }, returned tt)
  | some bytes ↦
      receive_frame answers socket_fd bytes (record n { heap = allocated n.heap answers.malloc })
]

-- The body of the loop for one device: the frames since the last tick go into its history.
unfoldable pub tick_device : Heap → ℕ → Run Heap
tick_device heap p = do
  d ← deref heap p
  let rate : ℕ = (d.total_frames + 2 ^ 64 - d.previous_frames) % 2 ^ 64 % 2 ^ 32
  values ← store d.graph.values d.graph.head rate
  ok (
      update heap p (record d {
        previous_frames = d.total_frames;
        graph = record {
          values = values;
          head = (d.graph.head + 1) % rate_history_size;
          count = d.graph.count;
        };
      }))

-- The loop over the slots of the map, from slot `i` on.
unfoldable pub tick_slots : ℕ → ℕ → List HashEntry → Heap → Run Heap
unfolding tick_device
tick_slots zero i table heap = ok heap
tick_slots (suc rounds) i table heap = do
  e ← at table i
  heap' ← elim e.device [ none ↦ ok heap | some p ↦ tick_device heap p ]
  tick_slots rounds (i + 1) table heap'

-- `read_all` says that `read` gave the eight bytes of the timer.
unfoldable pub handle_timer_tick : Bool → ℤ → ℤ → Network → Step
unfolding tick_slots
handle_timer_tick read_all errno socket_fd n =
    if not read_all
    then ok (record n { process = network_error app_err_timer errno socket_fd n.process }, exited)
    else (tick_slots n.map.size 0 n.map.table n.heap >>= λ heap. ok (
      record n {
        heap = heap;
        process = event_bus_publish (record { msg_type = ui_timer_tick; device = none }) n.process;
      },
      returned tt,
    ))
