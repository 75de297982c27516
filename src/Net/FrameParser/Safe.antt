-- ===== src/Net/FrameParser/Safe.antt =====
-- Which received frames the parser takes without a fault.
use net_det.Prelude.{
  ℕ, ◌+◌, ◌≤◌, ◌<◌, ◌≡◌, ◌≢◌, Bool, true, false, ◌&&◌, inl, inr, List, arith, length, get_or, ok,
  ltb, ltb→lt, Bool-cases, ◌⊎◌, refl,
}
use net_det.Net.FrameParser.{frame_buffer_size, process_raw_arp_frame}
use net_det.Net.FrameParser.Layout.{HasTags, tag_gap, type_test, process_raw_arp_frame-IsNormal}
use net_det.Net.FrameParser.Bounds.{process_raw_arp_frame-dropped}

-- `raw` holds a frame of `n` bytes, with zeros behind.
pub record IsReceived (raw : List ℕ) (n : ℕ) : Type 0 where
  pub width : length raw ≡ frame_buffer_size
  pub padded : (k : ℕ) → n ≤ k → get_or raw k 0 ≡ 0

filled : (raw : List ℕ) (n k : ℕ) → IsReceived raw n → get_or raw k 0 ≢ 0 → k < n
filled raw n k r some_byte = elim (Bool-cases (ltb k n)) [
  | inl inside ↦ ltb→lt k n inside
  | inr outside ↦ absurd (some_byte (r.padded k (ground arith)))
]

-- A frame has its EtherType, so that all the tags make 22 bytes.
HasTags-filled :
    (qinq dot1q : Bool) (raw : List ℕ) (n : ℕ)
    → IsReceived raw n
    → HasTags qinq dot1q raw
    → 22 ≤ n + (tag_gap qinq + tag_gap dot1q)
HasTags-filled false false raw n r (x, y) = omega (arith, filled raw n 13 r (ground arith))
HasTags-filled false true raw n r (a, (x, y)) = omega (arith, filled raw n 17 r (ground arith))
HasTags-filled true false raw n r (a, (x, y)) = omega (arith, filled raw n 17 r (ground arith))
HasTags-filled true true raw n r (a, b, (x, y)) = omega (arith, filled raw n 21 r (ground arith))

-- One of the four sets of tags, or none.
abbrev NoTags : List ℕ → Type 0
NoTags raw =
    ¬ HasTags false false raw
    × (¬ HasTags false true raw)
    × (¬ HasTags true false raw)
    × (¬ HasTags true true raw)

abbrev single : List ℕ → ℕ → ℕ → Bool
single raw a b = type_test raw 12 a b && type_test raw 16 0x08 0x06

HasTags-cases :
    (raw : List ℕ) → ((qinq : Bool) × (dot1q : Bool) × HasTags qinq dot1q raw) ⊎ NoTags raw
HasTags-cases raw = elim (Bool-cases (type_test raw 12 0x08 0x06)) [
  | inl matched ↦ inl (false, false, ground arith)
  | inr no_plain ↦ elim (Bool-cases (single raw 0x81 0x00)) [
    | inl matched ↦ inl (false, true, ground arith)
    | inr no_dot1q ↦ elim (Bool-cases (single raw 0x88 0xa8)) [
      | inl matched ↦ inl (true, false, ground arith)
      | inr no_qinq ↦
          elim (Bool-cases (
            type_test raw 12 0x88 0xa8
            && (type_test raw 16 0x81 0x00 && type_test raw 20 0x08 0x06))) [
              | inl matched ↦ inl (true, true, ground arith)
              | inr no_double ↦ inr (
                λ h. absurd (ground arith),
                λ h. absurd (ground arith),
                λ h. absurd (ground arith),
                λ h. absurd (ground arith),
              )
            ]
    ]
  ]
]

-- Every received frame of at most 2040 bytes, with zeros behind, whatever its bytes: the parser meets no
-- fault, keeps the width of the buffer, and gives length 0 or a length from 22 to 2048.
pub process_raw_arp_frame_safe :
    (raw processed : List ℕ) (n : ℕ)
    → IsReceived raw n
    → length processed ≡ frame_buffer_size
    → n ≤ 2040
    → (out : List ℕ) × (m : ℕ) × (process_raw_arp_frame raw processed n ≡ ok (out, m))
      × (length out ≡ frame_buffer_size)
      × ((m ≡ 0) ⊎ ((22 ≤ m) × (m ≤ frame_buffer_size)))
process_raw_arp_frame_safe raw processed n r width short = elim (HasTags-cases raw) [
  | inl (qinq, dot1q, tags) ↦
      let enough = HasTags-filled qinq dot1q raw n r tags in
      let room : n + (tag_gap qinq + tag_gap dot1q) ≤ frame_buffer_size = ground arith in
      let (out, runs, normal) =
        process_raw_arp_frame-IsNormal qinq dot1q raw processed n r.width width tags enough room in
      (out, n + (tag_gap qinq + tag_gap dot1q), runs, normal.width, inr (enough, room))
  | inr (no_plain, no_dot1q, no_qinq, no_double) ↦ (
    processed,
    0,
    process_raw_arp_frame-dropped raw processed n r.width no_plain no_dot1q no_qinq no_double,
    width,
    inl refl,
  )
]
