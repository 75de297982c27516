-- ===== src/Net/FrameParser/Gap.antt =====
-- Three of the branches of `process_raw_arp_frame` open a gap of zeros in the raw frame.
use net_det.Prelude.{
  ℕ, ◌+◌, ◌-◌, ◌≤◌, ◌<◌, ◌≡◌, ◌&&◌, List, arith, length, get_or, Run, ok, ◌>>=◌, fill, copy,
  fill-get_or, copy-get_or, ltb, leb, Bool-cases, inl, inr, if◌then◌else◌,
}
use net_det.Net.FrameParser.{minus_size, frame_buffer_size, parse_untagged, parse_dot1q, parse_qinq}

-- Three writes: `h` bytes of the raw frame, `z` zeros, and the raw frame from byte `h` on.
pub write_gap : ℕ → ℕ → List ℕ → List ℕ → ℕ → Run (List ℕ)
write_gap h z raw processed n = do
  a ← copy h 0 0 processed raw
  b ← fill 0 z h a
  copy (minus_size n h) (h + z) h b raw

unfoldable pub gap_byte : ℕ → ℕ → List ℕ → ℕ → ℕ
gap_byte h z raw k =
    if ltb k h then get_or raw k 0 else (if ltb k (h + z) then 0 else get_or raw (k - z) 0)

read_gap :
    (h z n k : ℕ) (raw processed a b c : List ℕ)
    → h ≤ n
    → k < n + z
    → get_or a k 0
      ≡ (if leb 0 k && ltb k (0 + h) then get_or raw (k - 0 + 0) 0 else get_or processed k 0)
    → get_or b k 0 ≡ (if leb h k && ltb k (h + z) then 0 else get_or a k 0)
    → get_or c k 0 ≡ (
        if leb (h + z) k && ltb k (h + z + (n - h))
        then get_or raw (k - (h + z) + h) 0
        else get_or b k 0)
    → get_or c k 0 ≡ gap_byte h z raw k
unfolding gap_byte
read_gap h z n k raw processed a b c low below ra rb rc = elim (Bool-cases (ltb k h)) [
  | inl front ↦ let same : k - 0 + 0 ≡ k = omega arith in ground arith
  | inr behind ↦ elim (Bool-cases (ltb k (h + z))) [
    | inl zeros ↦ ground arith
    | inr tail ↦ let same : k - (h + z) + h ≡ k - z = ground arith in ground arith
  ]
]

pub write_gap-gap_byte :
    (h z : ℕ) (raw processed : List ℕ) (n : ℕ)
    → length raw ≡ frame_buffer_size
    → length processed ≡ frame_buffer_size
    → h ≤ n
    → n + z ≤ frame_buffer_size
    → (out : List ℕ) × (write_gap h z raw processed n ≡ ok out)
      × (length out ≡ frame_buffer_size)
      × ((k : ℕ) → k < n + z → get_or out k 0 ≡ gap_byte h z raw k)
unfolding write_gap
write_gap-gap_byte h z raw processed n raw_width width low fits =
    let (a, copies, a_width, a_reads) =
      copy-get_or h 0 0 processed raw (omega arith) (omega arith) in
    let (b, fills, b_width, b_reads) = fill-get_or 0 z h a (omega arith) in
    let size : minus_size n h ≡ n - h = omega arith in
    let (c, rest, c_width, c_reads) =
      copy-get_or (n - h) (h + z) h b raw (omega arith) (omega arith) in
    (
      c,
      rw size (ground arith),
      omega arith,
      λ k below.
          read_gap h z n k raw processed a b c low below (a_reads k) (b_reads k 0) (c_reads k),
    )

module _ (raw processed : List ℕ) (n : ℕ) where
  pub parse_untagged-write_gap :
      parse_untagged raw processed n ≡ (write_gap 12 8 raw processed n >>= λ c. ok (c, n + 8))
  unfolding parse_untagged write_gap
  parse_untagged-write_gap = ground arith

  pub parse_dot1q-write_gap :
      parse_dot1q raw processed n ≡ (write_gap 12 4 raw processed n >>= λ c. ok (c, n + 4))
  unfolding parse_dot1q write_gap
  parse_dot1q-write_gap = ground arith

  pub parse_qinq-write_gap :
      parse_qinq raw processed n ≡ (write_gap 16 4 raw processed n >>= λ c. ok (c, n + 4))
  unfolding parse_qinq write_gap
  parse_qinq-write_gap = ground arith
