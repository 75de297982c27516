-- ===== src/Core/Device.antt =====
-- include/core/device.h and src/core/device.c: a device, what is known of it, and the frame counter.
-- A `device *` is an address; the memory that holds the devices is a function from addresses.
use net_det.Prelude.{
  ℕ, ◌+◌, ◌%◌, ◌^◌, Bool, ◌&&◌, Option, none, some, List, Run, ok, ◌>>=◌, not_null, ◌==◌,
  if◌then◌else◌,
}

abbrev pub buffer_initial_size : ℕ
buffer_initial_size = 128

abbrev pub rate_history_size : ℕ
rate_history_size = 60

-- `uint8_t mac[6]`
pub record Mac : Type 0 where
  pub m0 : ℕ
  pub m1 : ℕ
  pub m2 : ℕ
  pub m3 : ℕ
  pub m4 : ℕ
  pub m5 : ℕ

-- `memcmp(a, b, 6) == 0`
abbrev pub mac_eq : Mac → Mac → Bool
mac_eq a b =
    a.m0 == b.m0
    && (a.m1 == b.m1 && (a.m2 == b.m2 && (a.m3 == b.m3 && (a.m4 == b.m4 && a.m5 == b.m5))))

-- `uint8_t ip[4]`
pub record Ip : Type 0 where
  pub i0 : ℕ
  pub i1 : ℕ
  pub i2 : ℕ
  pub i3 : ℕ

-- `head` and `count` are `int32_t` in the source and are only ever set to numbers from 0 on.
pub record RateHistory : Type 0 where
  pub values : List ℕ
  pub head : ℕ
  pub count : ℕ

pub record TimeStruct : Type 0 where
  pub hour : ℕ
  pub minutes : ℕ
  pub seconds : ℕ

pub record Device : Type 0 where
  pub mac : Mac
  pub ip : Ip
  pub qinq_tag : ℕ
  pub dot1q_tag : ℕ
  pub previous_frames : ℕ
  pub total_frames : ℕ
  pub last_seen : TimeStruct
  pub graph : RateHistory

-- The devices in memory: `none` is an address at which no device is allocated.
abbrev pub Heap : Type 0
Heap = ℕ → Option Device

abbrev pub update : Heap → ℕ → Device → Heap
update h p d q = if q == p then some d else h q

-- `*p` for a `device *p`
abbrev pub deref : Heap → ℕ → Run Device
deref h p = not_null (h p)

-- `enum ui_message_type` and `ui_message`
pub data UiMessageType : Type 0 where
  ui_new_entry ui_update_table ui_resize ui_timer_tick : UiMessageType

pub record UiMessage : Type 0 where
  pub msg_type : UiMessageType
  pub device : Option ℕ

-- A null pointer is passed over; the counter is a 64-bit word.
unfoldable pub device_raise_frame_count : Heap → Option ℕ → Run Heap
device_raise_frame_count h none = ok h
device_raise_frame_count h (some p) = do
  d ← deref h p
  ok (update h p (record d { total_frames = (d.total_frames + 1) % 2 ^ 64 }))
