-- ===== src/Net/FrameParser/Fields.antt =====
-- The tags and the device that are read out of a processed frame.
use net_det.Prelude.{
  ℕ, ◌+◌, ◌/◌, ◌%◌, ◌^◌, ◌≤◌, ◌≡◌, refl, ◌∙◌, true, false, inl, inr, none, some, List, [], ◌∷◌,
  arith, length, set, length-set, get_or, ok, at-get_or, store-set, returned, exited, ◌*◌,
  Bool-cases, ◌==◌,
}
use net_det.Prelude.Int.{ℤ}
use net_det.Core.Device.{Mac, Ip, Device, Heap, TimeStruct, update}
use net_det.App.Process.{Process, app_err_ancillary_data, app_err_localtime_r}
use net_det.Common.Error.{network_error, network_error-event_bus}
use net_det.Net.FrameParser.{
  frame_buffer_size, ControlMessage, other, auxdata, write_tag, VlanInfo, get_vlan_info, mac_at,
  ip_at, ntohl_at, set_device_data, release,
}

write_tag-width :
    (offset tpid tci : ℕ) (frame : List ℕ)
    → offset + 4 ≤ length frame
    → (out : List ℕ) × (write_tag offset tpid tci frame ≡ ok out) × (length out ≡ length frame)
unfolding write_tag
write_tag-width offset tpid tci frame room =
    let a = set frame offset (tpid / 256 % 256) in
    let b = set a (offset + 1) (tpid % 256) in
    let c = set b (offset + 2) (tci / 256 % 256) in
    let a_width : length a ≡ length frame = length-set _ _ _ in
    let b_width : length b ≡ length frame = length-set _ _ _ ∙ a_width in
    let c_width : length c ≡ length frame = length-set _ _ _ ∙ b_width in
    (
      set c (offset + 3) (tci % 256),
      rw (
        store-set frame offset (tpid / 256 % 256) (omega arith),
        store-set a (offset + 1) (tpid % 256) (omega arith),
        store-set b (offset + 2) (tci / 256 % 256) (omega arith),
        store-set c (offset + 3) (tci % 256) (omega arith),
      ),
      length-set _ _ _ ∙ c_width,
    )

-- On a buffer of the right width the tags are written without a fault, and the width stays.
pub get_vlan_info-width :
    (cs : List ControlMessage) (frame : List ℕ) (errno socket_fd : ℤ) (p : Process)
    → length frame ≡ frame_buffer_size
    → (v : VlanInfo) × (get_vlan_info cs frame errno socket_fd p ≡ ok v)
      × (length v.frame ≡ frame_buffer_size)
      × (v.process.event_bus ≡ p.event_bus)
unfolding get_vlan_info
get_vlan_info-width [] frame errno socket_fd p width =
    (record { frame = frame; process = p; flow = returned tt }, refl, width, refl)
get_vlan_info-width (other ∷ cs) frame errno socket_fd p width =
    get_vlan_info-width cs frame errno socket_fd p width
get_vlan_info-width (auxdata false tpid_valid tpid tci ∷ cs) frame errno socket_fd p width =
    get_vlan_info-width cs frame errno socket_fd p width
get_vlan_info-width (auxdata true false tpid tci ∷ cs) frame errno socket_fd p width =
    (_, refl, width, network_error-event_bus app_err_ancillary_data errno socket_fd p)
get_vlan_info-width (auxdata true true tpid tci ∷ cs) frame errno socket_fd p width =
    let (a, a_runs, a_width) = write_tag-width 12 tpid tci frame (omega arith) in
    let (b, b_runs, b_width) = write_tag-width 16 tpid tci frame (omega arith) in
    let (va, va_runs, va_width, va_bus) =
      get_vlan_info-width cs a errno socket_fd p (a_width ∙ width) in
    let (vb, vb_runs, vb_width, vb_bus) =
      get_vlan_info-width cs b errno socket_fd p (b_width ∙ width) in
    elim (Bool-cases (tpid == 0x88a8)) [
      | inl qinq ↦ (va, rw (qinq, a_runs) va_runs, va_width, va_bus)
      | inr not_qinq ↦ elim (Bool-cases (tpid == 0x8100)) [
        | inl dot1q ↦ (vb, rw (not_qinq, dot1q, b_runs) vb_runs, vb_width, vb_bus)
        | inr not_dot1q ↦ (
          record { frame = frame; process = p; flow = returned tt },
          rw (not_qinq, not_dot1q),
          width,
          refl,
        )
      ]
    ]

module _ (bytes : List ℕ) where
  pub mac_at-at : (i : ℕ) → i + 6 ≤ length bytes → (mac : Mac) × (mac_at bytes i ≡ ok mac)
  unfolding mac_at
  mac_at-at i room = (
    record {
      m0 = get_or bytes i 0;
      m1 = get_or bytes (i + 1) 0;
      m2 = get_or bytes (i + 2) 0;
      m3 = get_or bytes (i + 3) 0;
      m4 = get_or bytes (i + 4) 0;
      m5 = get_or bytes (i + 5) 0;
    },
    rw (
      at-get_or bytes i 0 (omega arith),
      at-get_or bytes (i + 1) 0 (omega arith),
      at-get_or bytes (i + 2) 0 (omega arith),
      at-get_or bytes (i + 3) 0 (omega arith),
      at-get_or bytes (i + 4) 0 (omega arith),
      at-get_or bytes (i + 5) 0 (omega arith),
    ),
  )

  ip_at-at : (i : ℕ) → i + 4 ≤ length bytes → (ip : Ip) × (ip_at bytes i ≡ ok ip)
  unfolding ip_at
  ip_at-at i room = (
    record {
      i0 = get_or bytes i 0;
      i1 = get_or bytes (i + 1) 0;
      i2 = get_or bytes (i + 2) 0;
      i3 = get_or bytes (i + 3) 0;
    },
    rw (
      at-get_or bytes i 0 (omega arith),
      at-get_or bytes (i + 1) 0 (omega arith),
      at-get_or bytes (i + 2) 0 (omega arith),
      at-get_or bytes (i + 3) 0 (omega arith),
    ),
  )

  ntohl_at-at : (i : ℕ) → i + 4 ≤ length bytes → (tag : ℕ) × (ntohl_at bytes i ≡ ok tag)
  unfolding ntohl_at
  ntohl_at-at i room =
      let (ip, reads) = ip_at-at i room in
      (ip.i0 * 2 ^ 24 + ip.i1 * 2 ^ 16 + ip.i2 * 2 ^ 8 + ip.i3, rw reads)

-- With a buffer of the right width and a device at the address, the fields of the device are set without a
-- fault and its history is kept; without the time the device is freed again and the thread ends.
pub set_device_data-graph :
    (heap : Heap) (p : ℕ) (d : Device) (frame : List ℕ) (errno socket_fd : ℤ) (process : Process)
    → heap p ≡ some d
    → length frame ≡ frame_buffer_size
    → ((e : Device) × (set_device_data heap p frame errno socket_fd none process
          ≡ ok (record {
            heap = release (update heap p e) p;
            process = network_error app_err_localtime_r errno socket_fd process;
            flow = exited;
          })))
      × ((t : TimeStruct)
          → (e : Device) × (e.graph ≡ d.graph)
            × (set_device_data heap p frame errno socket_fd (some t) process
                ≡ ok (record { heap = update heap p e; process = process; flow = returned tt })))
unfolding set_device_data
set_device_data-graph heap p d frame errno socket_fd process there width =
    let (mac, mac_reads) = mac_at-at frame 6 (omega arith) in
    let (ip, ip_reads) = ip_at-at frame 36 (omega arith) in
    let (qinq, qinq_reads) = ntohl_at-at frame 12 (omega arith) in
    let (dot1q, dot1q_reads) = ntohl_at-at frame 16 (omega arith) in
    let filled : Device = record d { mac = mac; ip = ip; qinq_tag = qinq; dot1q_tag = dot1q } in
    (
      (filled, rw (there, mac_reads, ip_reads, qinq_reads, dot1q_reads)),
      λ t. (
        record filled {
          last_seen = record {
            hour = t.hour % 256;
            minutes = t.minutes % 256;
            seconds = t.seconds % 256;
          };
        },
        refl,
        rw (there, mac_reads, ip_reads, qinq_reads, dot1q_reads),
      ),
    )
