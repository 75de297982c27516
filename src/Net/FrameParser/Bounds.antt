-- ===== src/Net/FrameParser/Bounds.antt =====
-- Frames that `process_raw_arp_frame` drops, and frames that are too long for its buffer.
use net_det.Prelude.{
  ℕ, ◌+◌, ◌-◌, ◌≤◌, ◌<◌, ◌≡◌, ◌∙◌, true, false, List, arith, length, ok, fault, out_of_bounds,
  fill-get_or, copy-get_or, copy_outside,
}
use net_det.Net.FrameParser.{minus_size, frame_buffer_size, parse_untagged, process_raw_arp_frame}
use net_det.Net.FrameParser.Layout.{HasTags, choose, process_raw_arp_frame-choose}

-- A frame with none of the four sets of tags before an ARP EtherType is dropped: length 0, and the
-- buffer is as before.
pub process_raw_arp_frame-dropped :
    (raw processed : List ℕ) (n : ℕ)
    → length raw ≡ frame_buffer_size
    → ¬ HasTags false false raw
    → ¬ HasTags false true raw
    → ¬ HasTags true false raw
    → ¬ HasTags true true raw
    → process_raw_arp_frame raw processed n ≡ ok (processed, 0)
unfolding choose
process_raw_arp_frame-dropped raw processed n raw_width no_plain no_dot1q no_qinq no_double =
    process_raw_arp_frame-choose raw processed n (omega arith) ∙ ground arith

-- An untagged ARP frame longer than 2040 bytes: the copy behind the tags runs past the end of the
-- processed frame's buffer.
pub process_raw_arp_frame-overflow :
    (raw processed : List ℕ) (n : ℕ)
    → length raw ≡ frame_buffer_size
    → length processed ≡ frame_buffer_size
    → HasTags false false raw
    → frame_buffer_size < n + 8
    → n ≤ frame_buffer_size
    → process_raw_arp_frame raw processed n ≡ fault out_of_bounds
unfolding choose parse_untagged
process_raw_arp_frame-overflow raw processed n raw_width width (x, y) long fits =
    let (a, copies, a_width, _) = copy-get_or 12 0 0 processed raw (omega arith) (omega arith) in
    let (b, fills, b_width, _) = fill-get_or 0 8 12 a (omega arith) in
    let size : minus_size n 12 ≡ n - 12 = omega arith in
    let past = copy_outside (n - 12) 20 12 b raw (omega arith) (omega arith) (omega arith) in
    process_raw_arp_frame-choose raw processed n (omega arith)
    ∙ rw (x, y, copies, fills, size, past)
