-- ===== src/Net/NetworkThread/DeviceSteps.antt =====
-- Whatever the program does with a device, its fields fit their C types.
use net_det.Prelude.{ℕ, ◌≡◌, Option, some, List, length, get_or, Run, ok, ◌>>=◌}
use net_det.Prelude.Int.{ℤ}
use net_det.Core.Device.{TimeStruct, Device, Heap, device_raise_frame_count}
use net_det.Core.Registry.{first_frame, seen_again}
use net_det.App.Process.{Process}
use net_det.Net.FrameParser.{set_device_data, frame_buffer_size}
use net_det.Net.NetworkThread.{tick_device}
use net_det.Net.NetworkThread.Typed.{
  IsByte, IsTyped, AllTyped, raise-KeepsTyped, tick_device-KeepsTyped, seen_again-KeepsTyped,
  first_frame-KeepsTyped,
}
use net_det.Net.NetworkThread.Filled.{set_device_data-KeepsTyped}

-- What the program does with one device, at its address.
pub data DeviceStep : Type 0 where
  raised ticked started : DeviceStep
  seen : Device → DeviceStep
  read_from : List ℕ → ℤ → ℤ → Option TimeStruct → Process → DeviceStep

unfoldable pub apply : DeviceStep → Heap → ℕ → Run Heap
apply raised heap p = device_raise_frame_count heap (some p)
apply ticked heap p = tick_device heap p
apply started heap p = first_frame heap p
apply (seen incoming) heap p = seen_again heap p incoming
apply (read_from bytes errno socket local_time q) heap p =
    set_device_data heap p bytes errno socket local_time q >>= λ x. ok x.heap

-- The other device is typed, and the frame has the width of the buffer and holds bytes.
unfoldable pub Suits : DeviceStep → Type 0
Suits raised = Unit
Suits ticked = Unit
Suits started = Unit
Suits (seen incoming) = IsTyped incoming
Suits (read_from bytes errno socket local_time q) =
    (length bytes ≡ frame_buffer_size) × ((k : ℕ) → IsByte (get_or bytes k 0))

-- Where the fields of all devices in memory fit their C types, and their rings have 60 cells and a head within: a
-- device that is counted, ticked, started, seen again as a device that fits, or filled from a frame of
-- bytes, with or without a time, meets no fault, and all fields fit again.
pub apply-AllTyped :
    (step : DeviceStep) (heap : Heap) (p : ℕ) (d : Device)
    → AllTyped heap
    → heap p ≡ some d
    → Suits step
    → (heap' : Heap) × (apply step heap p ≡ ok heap') × AllTyped heap'
unfolding apply Suits
apply-AllTyped raised heap p d typed there given = raise-KeepsTyped heap typed p d there
apply-AllTyped ticked heap p d typed there given = tick_device-KeepsTyped heap typed p d there
apply-AllTyped started heap p d typed there given = first_frame-KeepsTyped heap typed p d there
apply-AllTyped (seen incoming) heap p d typed there given =
    seen_again-KeepsTyped heap typed p d there incoming given
apply-AllTyped (read_from bytes errno socket local_time q) heap p d typed there (wide, each) =
    set_device_data-KeepsTyped heap typed p d there bytes wide each errno socket local_time q
