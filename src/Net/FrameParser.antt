-- ===== src/Net/FrameParser.antt =====
-- include/net/frame_parser.h and src/net/frame_parser.c: every frame is brought to one layout, with room
-- for an 802.1ad and an 802.1Q tag, and its device is read out of that layout.
-- A buffer is a list of bytes; `recvmsg`'s control messages and the clock are arguments.
pub mod Gap
pub mod Layout
pub mod Bounds
pub mod Safe
pub mod Fields
use net_det.Prelude.{
  ℕ, ◌+◌, ◌-◌, ◌*◌, ◌/◌, ◌%◌, ◌^◌, Bool, ◌&&◌, not, Option, none, some, List, [], ◌∷◌, Run, ok,
  ◌>>=◌, at, store, fill, copy, Flow, returned, exited, ◌==◌, if◌then◌else◌,
}
use net_det.Prelude.Int.{ℤ}
use net_det.Core.Device.{Mac, Ip, TimeStruct, Device, Heap, update, deref}
use net_det.App.Process.{Process, app_err_ancillary_data, app_err_localtime_r}
use net_det.Common.Error.{network_error}

abbrev pub eth_mac_addrs_len : ℕ
eth_mac_addrs_len = 12

abbrev pub eth_qinq_tag_len : ℕ
eth_qinq_tag_len = 4

abbrev pub eth_qinq_dot1q_tags_len : ℕ
eth_qinq_dot1q_tags_len = 8

abbrev pub frame_buffer_size : ℕ
frame_buffer_size = 2048

abbrev pub eth_type_offset_untagged : ℕ
eth_type_offset_untagged = 12

abbrev pub eth_type_offset_single_tag : ℕ
eth_type_offset_single_tag = 16

abbrev pub eth_type_offset_double_tag : ℕ
eth_type_offset_double_tag = 20

-- `sizeof` of the packed `struct eth_header` and `struct arp_header`
abbrev pub eth_header_size : ℕ
eth_header_size = 22

abbrev pub arp_header_size : ℕ
arp_header_size = 28

-- `raw[offset] == a && raw[offset + 1] == b`
unfoldable pub has_type : List ℕ → ℕ → ℕ → ℕ → Run Bool
has_type raw offset a b = do x ← at raw offset; y ← at raw (offset + 1); ok (x == a && y == b)

-- `*frame_length - k` as the `size_t` that `memcpy` takes
abbrev pub minus_size : ℕ → ℕ → ℕ
minus_size frame_length k = (frame_length + 2 ^ 64 - k) % 2 ^ 64

-- The new `processed_frame` and `*frame_length`.
abbrev pub Parsed : Type 0
Parsed = List ℕ × ℕ

unfoldable pub parse_untagged : List ℕ → List ℕ → ℕ → Run Parsed
parse_untagged raw processed frame_length = do
  a ← copy eth_mac_addrs_len 0 0 processed raw
  b ← fill 0 eth_qinq_dot1q_tags_len eth_type_offset_untagged a
  c ←
      copy (minus_size frame_length eth_mac_addrs_len) eth_type_offset_double_tag
        eth_type_offset_untagged b raw
  ok (c, frame_length + eth_qinq_dot1q_tags_len)

unfoldable pub parse_dot1q : List ℕ → List ℕ → ℕ → Run Parsed
parse_dot1q raw processed frame_length = do
  a ← copy eth_mac_addrs_len 0 0 processed raw
  b ← fill 0 eth_qinq_tag_len eth_type_offset_untagged a
  c ←
      copy (minus_size frame_length eth_mac_addrs_len) eth_type_offset_single_tag
        eth_type_offset_untagged b raw
  ok (c, frame_length + eth_qinq_tag_len)

unfoldable pub parse_double : List ℕ → List ℕ → ℕ → Run Parsed
parse_double raw processed frame_length = do
  a ← copy frame_length 0 0 processed raw
  ok (a, frame_length)

unfoldable pub parse_qinq : List ℕ → List ℕ → ℕ → Run Parsed
parse_qinq raw processed frame_length = do
  a ← copy (eth_mac_addrs_len + eth_qinq_tag_len) 0 0 processed raw
  b ← fill 0 eth_qinq_tag_len eth_type_offset_single_tag a
  c ←
      copy (minus_size frame_length eth_type_offset_single_tag) eth_type_offset_double_tag
        eth_type_offset_single_tag b raw
  ok (c, frame_length + eth_qinq_tag_len)

unfoldable pub process_raw_arp_frame : List ℕ → List ℕ → ℕ → Run Parsed
process_raw_arp_frame raw processed frame_length = do
  arp ← has_type raw eth_type_offset_untagged 0x08 0x06
  dot1q ← has_type raw eth_type_offset_untagged 0x81 0x00
  qinq ← has_type raw eth_type_offset_untagged 0x88 0xa8
  inner_arp ← has_type raw eth_type_offset_single_tag 0x08 0x06
  inner_dot1q ← has_type raw eth_type_offset_single_tag 0x81 0x00
  innermost_arp ← has_type raw eth_type_offset_double_tag 0x08 0x06
  if arp
      then parse_untagged raw processed frame_length
      else (if dot1q
          then (if not inner_arp then ok (processed, 0) else parse_dot1q raw processed frame_length)
          else (if qinq
              then (if inner_dot1q && innermost_arp
                  then parse_double raw processed frame_length
                  else (if inner_arp
                      then parse_qinq raw processed frame_length
                      else ok (processed, 0)))
              else ok (processed, 0)))

-- A control message: `PACKET_AUXDATA` of level `SOL_PACKET`, with its two status flags, or another.
pub data ControlMessage : Type 0 where
  other : ControlMessage
  auxdata : (vlan_valid tpid_valid : Bool) (tp_vlan_tpid tp_vlan_tci : ℕ) → ControlMessage

-- `memcpy` of `htons(tpid)` and `htons(tci)`, the high byte first
unfoldable pub write_tag : ℕ → ℕ → ℕ → List ℕ → Run (List ℕ)
write_tag offset tpid tci frame = do
  a ← store frame offset (tpid / 256 % 256)
  b ← store a (offset + 1) (tpid % 256)
  c ← store b (offset + 2) (tci / 256 % 256)
  store c (offset + 3) (tci % 256)

pub record VlanInfo : Type 0 where
  pub frame : List ℕ
  pub process : Process
  pub flow : Flow (Unit {0})

-- Built with headers that define `TP_STATUS_VLAN_TPID_VALID`.
unfoldable pub get_vlan_info : List ControlMessage → List ℕ → ℤ → ℤ → Process → Run VlanInfo
get_vlan_info [] frame errno socket p =
    ok (record { frame = frame; process = p; flow = returned tt })
get_vlan_info (other ∷ cs) frame errno socket p = get_vlan_info cs frame errno socket p
get_vlan_info (auxdata vlan_valid tpid_valid tpid tci ∷ cs) frame errno socket p =
    let rest = λ (f : List ℕ). get_vlan_info cs f errno socket p in
    if not vlan_valid
    then rest frame
    else (if not tpid_valid
        then ok (record {
          frame = frame;
          process = network_error app_err_ancillary_data errno socket p;
          flow = exited;
        })
        else (if tpid == 0x88a8
            then write_tag 12 tpid tci frame >>= rest
            else (if tpid == 0x8100
                then write_tag 16 tpid tci frame >>= rest
                else ok (record { frame = frame; process = p; flow = returned tt }))))

-- Six bytes as a MAC address, and four as an IPv4 address or, by `ntohl`, as a number.
unfoldable pub mac_at : List ℕ → ℕ → Run Mac
mac_at bytes i = do
  a ← at bytes i
  b ← at bytes (i + 1)
  c ← at bytes (i + 2)
  d ← at bytes (i + 3)
  e ← at bytes (i + 4)
  f ← at bytes (i + 5)
  ok (record { m0 = a; m1 = b; m2 = c; m3 = d; m4 = e; m5 = f })

unfoldable pub ip_at : List ℕ → ℕ → Run Ip
ip_at bytes i = do
  a ← at bytes i
  b ← at bytes (i + 1)
  c ← at bytes (i + 2)
  d ← at bytes (i + 3)
  ok (record { i0 = a; i1 = b; i2 = c; i3 = d })

unfoldable pub ntohl_at : List ℕ → ℕ → Run ℕ
unfolding ip_at
ntohl_at bytes i = do w ← ip_at bytes i; ok (w.i0 * 2 ^ 24 + w.i1 * 2 ^ 16 + w.i2 * 2 ^ 8 + w.i3)

pub record DeviceData : Type 0 where
  pub heap : Heap
  pub process : Process
  pub flow : Flow (Unit {0})

-- `free(p)`
abbrev pub release : Heap → ℕ → Heap
release heap p q = if q == p then none else heap q

-- `local_time` is what `localtime_r` fills in, or `none` where it fails.
unfoldable pub set_device_data :
    Heap → ℕ → List ℕ → ℤ → ℤ → Option TimeStruct → Process → Run DeviceData
unfolding mac_at ip_at ntohl_at
set_device_data heap device_data frame errno socket local_time p = do
  dev ← deref heap device_data
  mac ← mac_at frame 6
  ip ← ip_at frame (eth_header_size + 14)
  qinq_tag ← ntohl_at frame 12
  dot1q_tag ← ntohl_at frame 16
  let filled : Device = record dev {
    mac = mac;
    ip = ip;
    qinq_tag = qinq_tag;
    dot1q_tag = dot1q_tag;
  }
  elim local_time [
    | none ↦ ok (record {
      heap = release (update heap device_data filled) device_data;
      process = network_error app_err_localtime_r errno socket p;
      flow = exited;
    })
    | some t ↦ ok (record {
      heap = update heap device_data (record filled {
        last_seen = record {
          hour = t.hour % 256;
          minutes = t.minutes % 256;
          seconds = t.seconds % 256;
        };
      });
      process = p;
      flow = returned tt;
    })
  ]
