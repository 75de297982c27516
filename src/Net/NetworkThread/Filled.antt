-- ===== src/Net/NetworkThread/Filled.antt =====
-- A device that is filled from a frame of bytes has fields that fit their C types.
use net_det.Prelude.{
  ℕ, ◌+◌, ◌*◌, at, ◌%◌, ◌^◌, ◌<◌, ◌≡◌, Option, none, some, List, arith, length, get_or, ok, ◌>>=◌,
  at-get_or,
}
use net_det.Prelude.Int.{ℤ}
use net_det.Core.Device.{TimeStruct, Device, Heap, update}
use net_det.App.Process.{Process}
use net_det.Net.FrameParser.{
  set_device_data, release, mac_at, ip_at, ntohl_at, frame_buffer_size, eth_header_size,
}
use net_det.Net.NetworkThread.Typed.{
  IsByte, IsTyped, AllTyped, KeepsTyped, update-AllTyped, release-AllTyped,
}

module _ (heap : Heap) (typed : AllTyped heap) (p : ℕ) (d : Device) (there : heap p ≡ some d)
    (bytes : List ℕ) (wide : length bytes ≡ frame_buffer_size)
    (each : (k : ℕ) → IsByte (get_or bytes k 0)) where
  abbrev t : IsTyped d
  t = typed p d there

  abbrev filled : Device
  filled = record d {
    mac = record {
      m0 = get_or bytes 6 0;
      m1 = get_or bytes 7 0;
      m2 = get_or bytes 8 0;
      m3 = get_or bytes 9 0;
      m4 = get_or bytes 10 0;
      m5 = get_or bytes 11 0;
    };
    ip = record {
      i0 = get_or bytes (eth_header_size + 14) 0;
      i1 = get_or bytes (eth_header_size + 14 + 1) 0;
      i2 = get_or bytes (eth_header_size + 14 + 2) 0;
      i3 = get_or bytes (eth_header_size + 14 + 3) 0;
    };
    qinq_tag =
        get_or bytes 12 0 * 2 ^ 24
        + get_or bytes 13 0 * 2 ^ 16
        + get_or bytes 14 0 * 2 ^ 8
        + get_or bytes 15 0;
    dot1q_tag =
        get_or bytes 16 0 * 2 ^ 24
        + get_or bytes 17 0 * 2 ^ 16
        + get_or bytes 18 0 * 2 ^ 8
        + get_or bytes 19 0;
  }

  filled-IsTyped :
      (time : TimeStruct)
      → IsByte time.hour × IsByte time.minutes × IsByte time.seconds
      → IsTyped (record filled { last_seen = time })
  filled-IsTyped time fits = record {
    mac = (each 6, each 7, each 8, each 9, each 10, each 11);
    ip = (
      each (eth_header_size + 14),
      each (eth_header_size + 14 + 1),
      each (eth_header_size + 14 + 2),
      each (eth_header_size + 14 + 3),
    );
    qinq_tag = omega (arith, each 12, each 13, each 14, each 15);
    dot1q_tag = omega (arith, each 16, each 17, each 18, each 19);
    previous_frames = t.previous_frames;
    total_frames = t.total_frames;
    last_seen = fits;
    cells = t.cells;
    rates = t.rates;
    head = t.head;
  }

  reads : (i : ℕ) → i < 2048 → at bytes i ≡ ok (get_or bytes i 0)
  reads i inside = at-get_or bytes i 0 (omega (arith, wide))

  mac_reads : mac_at bytes 6 ≡ ok filled.mac
  unfolding mac_at
  mac_reads = rw (
    reads 6 (omega arith),
    reads 7 (omega arith),
    reads 8 (omega arith),
    reads 9 (omega arith),
    reads 10 (omega arith),
    reads 11 (omega arith),
  )

  ip_reads :
      (i : ℕ)
      → i < 100
      → ip_at bytes i
        ≡ ok (record {
          i0 = get_or bytes i 0;
          i1 = get_or bytes (i + 1) 0;
          i2 = get_or bytes (i + 2) 0;
          i3 = get_or bytes (i + 3) 0;
        })
  unfolding ip_at
  ip_reads i low = rw (
    reads i (omega arith),
    reads (i + 1) (omega arith),
    reads (i + 2) (omega arith),
    reads (i + 3) (omega arith),
  )

  qinq_reads : ntohl_at bytes 12 ≡ ok filled.qinq_tag
  unfolding ntohl_at
  qinq_reads = rw (ip_reads 12 (omega arith))

  dot1q_reads : ntohl_at bytes 16 ≡ ok filled.dot1q_tag
  unfolding ntohl_at
  dot1q_reads = rw (ip_reads 16 (omega arith))

  pub set_device_data-KeepsTyped :
      (errno socket : ℤ) (local_time : Option TimeStruct) (q : Process)
      → KeepsTyped (set_device_data heap p bytes errno socket local_time q >>= λ x. ok x.heap)
  unfolding set_device_data
  set_device_data-KeepsTyped errno socket none q =
      let before : AllTyped (update heap p filled) =
        update-AllTyped heap typed p filled (filled-IsTyped d.last_seen t.last_seen) in
      (
        release (update heap p filled) p,
        rw (
          there,
          mac_reads,
          ip_reads (eth_header_size + 14) (omega arith),
          qinq_reads,
          dot1q_reads,
        ),
        release-AllTyped (update heap p filled) p before,
      )
  set_device_data-KeepsTyped errno socket (some time) q =
      let now : TimeStruct = record {
        hour = time.hour % 256;
        minutes = time.minutes % 256;
        seconds = time.seconds % 256;
      } in
      let d' : Device = record filled { last_seen = now } in
      (
        update heap p d',
        rw (
          there,
          mac_reads,
          ip_reads (eth_header_size + 14) (omega arith),
          qinq_reads,
          dot1q_reads,
        ),
        update-AllTyped heap typed p d'
            (filled-IsTyped now (omega arith, omega arith, omega arith)),
      )
