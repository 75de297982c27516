-- ===== src/Net/FrameParser/Layout.antt =====
-- The layout that `process_raw_arp_frame` gives to every ARP frame, whatever tags it came with.
use net_det.Prelude.{
  ℕ, ◌+◌, ◌-◌, ◌≤◌, ◌<◌, ◌≡◌, ap, ◌∙◌, Bool, true, false, ◌&&◌, not, List, arith, length, get_or,
  Run, ok, ◌>>=◌, at-get_or, copy-get_or, ltb, leb, ◌==◌, if◌then◌else◌,
}
use net_det.Net.FrameParser.{
  Parsed, has_type, frame_buffer_size, parse_untagged, parse_dot1q, parse_double, parse_qinq,
  process_raw_arp_frame,
}
use net_det.Net.FrameParser.Gap.{
  write_gap-gap_byte, gap_byte, parse_untagged-write_gap, parse_dot1q-write_gap,
  parse_qinq-write_gap,
}

-- The two bytes at an offset.
abbrev pub TypeAt : List ℕ → ℕ → ℕ → ℕ → Type 0
TypeAt raw i a b = (get_or raw i 0 ≡ a) × (get_or raw (i + 1) 0 ≡ b)

-- The raw frame is an ARP frame with an 802.1ad tag or without, and with an 802.1Q tag or without.
abbrev pub HasTags : Bool → Bool → List ℕ → Type 0
HasTags false false raw = TypeAt raw 12 0x08 0x06
HasTags false true raw = TypeAt raw 12 0x81 0x00 × TypeAt raw 16 0x08 0x06
HasTags true false raw = TypeAt raw 12 0x88 0xa8 × TypeAt raw 16 0x08 0x06
HasTags true true raw = TypeAt raw 12 0x88 0xa8 × TypeAt raw 16 0x81 0x00 × TypeAt raw 20 0x08 0x06

abbrev pub tag_gap : Bool → ℕ
tag_gap present = if present then 0 else 4

-- Byte `k` of the one layout: the two addresses, the 802.1ad tag or zeros, the 802.1Q tag or zeros,
-- and the rest of the raw frame from its EtherType on.
abbrev pub normal_byte : Bool → Bool → List ℕ → ℕ → ℕ
normal_byte qinq dot1q raw k =
    if ltb k 12
    then get_or raw k 0
    else (if ltb k 16
        then (if qinq then get_or raw k 0 else 0)
        else (if ltb k 20
            then (if dot1q then get_or raw (k - tag_gap qinq) 0 else 0)
            else get_or raw (k - (tag_gap qinq + tag_gap dot1q)) 0))

-- `out` holds `n` bytes of that layout.
pub record IsNormal (qinq dot1q : Bool) (raw out : List ℕ) (n : ℕ) : Type 0 where
  pub width : length out ≡ frame_buffer_size
  pub bytes : (k : ℕ) → k < n → get_or out k 0 ≡ normal_byte qinq dot1q raw k

abbrev pub type_test : List ℕ → ℕ → ℕ → ℕ → Bool
type_test raw i a b = get_or raw i 0 == a && get_or raw (i + 1) 0 == b

has_type-type_test :
    (raw : List ℕ) (i a b : ℕ) → i + 1 < length raw → has_type raw i a b ≡ ok (type_test raw i a b)
unfolding has_type
has_type-type_test raw i a b inside =
    rw (at-get_or raw i 0 (omega arith), at-get_or raw (i + 1) 0 inside)

-- The branch that is taken.
unfoldable pub choose : List ℕ → List ℕ → ℕ → Run Parsed
choose raw processed n =
    if type_test raw 12 0x08 0x06
    then parse_untagged raw processed n
    else (if type_test raw 12 0x81 0x00
        then (if not (type_test raw 16 0x08 0x06)
            then ok (processed, 0)
            else parse_dot1q raw processed n)
        else (if type_test raw 12 0x88 0xa8
            then (if type_test raw 16 0x81 0x00 && type_test raw 20 0x08 0x06
                then parse_double raw processed n
                else (if type_test raw 16 0x08 0x06
                    then parse_qinq raw processed n
                    else ok (processed, 0)))
            else ok (processed, 0)))

pub process_raw_arp_frame-choose :
    (raw processed : List ℕ) (n : ℕ)
    → 21 < length raw
    → process_raw_arp_frame raw processed n ≡ choose raw processed n
unfolding process_raw_arp_frame choose
process_raw_arp_frame-choose raw processed n inside = rw (
  has_type-type_test raw 12 0x08 0x06 (omega arith),
  has_type-type_test raw 12 0x81 0x00 (omega arith),
  has_type-type_test raw 12 0x88 0xa8 (omega arith),
  has_type-type_test raw 16 0x08 0x06 (omega arith),
  has_type-type_test raw 16 0x81 0x00 (omega arith),
  has_type-type_test raw 20 0x08 0x06 inside,
)

double_byte :
    (n k : ℕ) (raw processed out : List ℕ)
    → k < n
    → get_or out k 0
      ≡ (if leb 0 k && ltb k (0 + n) then get_or raw (k - 0 + 0) 0 else get_or processed k 0)
    → get_or out k 0 ≡ normal_byte true true raw k
double_byte n k raw processed out below reads =
    let same : k - 0 + 0 ≡ k = omega arith in
    let still : k - 0 ≡ k = omega arith in let stays : k - (0 + 0) ≡ k = omega arith in ground arith

module _ (raw processed : List ℕ) (n : ℕ) (raw_width : length raw ≡ frame_buffer_size)
    (width : length processed ≡ frame_buffer_size) where
  untagged-IsNormal :
      14 ≤ n
      → n + 8 ≤ frame_buffer_size
      → (out : List ℕ) × (parse_untagged raw processed n ≡ ok (out, n + 8))
        × IsNormal false false raw out (n + 8)
  unfolding gap_byte
  untagged-IsNormal lo hi =
      let (out, runs, out_width, reads) =
        write_gap-gap_byte 12 8 raw processed n raw_width width (omega arith) hi in
      (
        out,
        parse_untagged-write_gap raw processed n ∙ ap (λ r. r >>= λ c. ok (c, n + 8)) runs,
        record { width = out_width; bytes = λ k below. reads k below ∙ ground arith },
      )

  dot1q-IsNormal :
      14 ≤ n
      → n + 4 ≤ frame_buffer_size
      → (out : List ℕ) × (parse_dot1q raw processed n ≡ ok (out, n + 4))
        × IsNormal false true raw out (n + 4)
  unfolding gap_byte
  dot1q-IsNormal lo hi =
      let (out, runs, out_width, reads) =
        write_gap-gap_byte 12 4 raw processed n raw_width width (omega arith) hi in
      (
        out,
        parse_dot1q-write_gap raw processed n ∙ ap (λ r. r >>= λ c. ok (c, n + 4)) runs,
        record { width = out_width; bytes = λ k below. reads k below ∙ ground arith },
      )

  qinq-IsNormal :
      18 ≤ n
      → n + 4 ≤ frame_buffer_size
      → (out : List ℕ) × (parse_qinq raw processed n ≡ ok (out, n + 4))
        × IsNormal true false raw out (n + 4)
  unfolding gap_byte
  qinq-IsNormal lo hi =
      let (out, runs, out_width, reads) =
        write_gap-gap_byte 16 4 raw processed n raw_width width (omega arith) hi in
      (
        out,
        parse_qinq-write_gap raw processed n ∙ ap (λ r. r >>= λ c. ok (c, n + 4)) runs,
        record { width = out_width; bytes = λ k below. reads k below ∙ ground arith },
      )

  double-IsNormal :
      22 ≤ n
      → n ≤ frame_buffer_size
      → (out : List ℕ) × (parse_double raw processed n ≡ ok (out, n + 0))
        × IsNormal true true raw out (n + 0)
  unfolding parse_double
  double-IsNormal lo hi =
      let (out, runs, out_width, reads) =
        copy-get_or n 0 0 processed raw (omega arith) (omega arith) in
      let same : n ≡ n + 0 = omega arith in
      (
        out,
        rw runs (ap (λ l. ok (out, l)) same),
        record {
          width = out_width ∙ width;
          bytes = λ k below. double_byte n k raw processed out (omega arith) (reads k);
        },
      )

-- A raw frame with any of the four sets of tags, that has all bytes up to its EtherType and fits the
-- buffer with the missing tags added: no fault, the length grows by the missing tags, and the
-- processed frame is the one layout of it.
pub process_raw_arp_frame-IsNormal :
    (qinq dot1q : Bool) (raw processed : List ℕ) (n : ℕ)
    → length raw ≡ frame_buffer_size
    → length processed ≡ frame_buffer_size
    → HasTags qinq dot1q raw
    → 22 ≤ n + (tag_gap qinq + tag_gap dot1q)
    → n + (tag_gap qinq + tag_gap dot1q) ≤ frame_buffer_size
    → (out : List ℕ) × (process_raw_arp_frame raw processed n
        ≡ ok (out, n + (tag_gap qinq + tag_gap dot1q)))
      × IsNormal qinq dot1q raw out (n + (tag_gap qinq + tag_gap dot1q))
unfolding choose
process_raw_arp_frame-IsNormal false false raw processed n raw_width width (x, y) lo hi =
    let (out, runs, normal) = untagged-IsNormal raw processed n raw_width width (omega arith) hi in
    (out, process_raw_arp_frame-choose raw processed n (omega arith) ∙ rw (x, y) runs, normal)
process_raw_arp_frame-IsNormal false true raw processed n raw_width width ((x, y), (z, w)) lo hi =
    let (out, runs, normal) = dot1q-IsNormal raw processed n raw_width width (omega arith) hi in
    (out, process_raw_arp_frame-choose raw processed n (omega arith) ∙ rw (x, y, z, w) runs, normal)
process_raw_arp_frame-IsNormal true false raw processed n raw_width width ((x, y), (z, w)) lo hi =
    let (out, runs, normal) = qinq-IsNormal raw processed n raw_width width (omega arith) hi in
    (out, process_raw_arp_frame-choose raw processed n (omega arith) ∙ rw (x, y, z, w) runs, normal)
process_raw_arp_frame-IsNormal true true raw processed n raw_width width ((x, y), (z, w), (u, v)) lo
      hi =
    let (out, runs, normal) =
      double-IsNormal raw processed n raw_width width (omega arith) (omega arith) in
    (
      out,
      process_raw_arp_frame-choose raw processed n (omega arith) ∙ rw (x, y, z, w, u, v) runs,
      normal,
    )
