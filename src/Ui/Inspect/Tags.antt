-- ===== src/Ui/Inspect/Tags.antt =====
-- A tag on its way from the kernel's control message to the popup.
use net_det.Prelude.{
  ℕ, ◌+◌, ◌*◌, ◌/◌, ◌%◌, ◌^◌, ◌≤◌, ◌<◌, ◌≡◌, ap, ◌∙◌, arith, List, length, get_or, set, length-set,
  get_or-set, ok, at-get_or, store-set,
}
use net_det.Net.FrameParser.{write_tag, ntohl_at}
use net_det.Ui.Inspect.{tag_line, tag_fields}
use net_det.Ui.Inspect.Bits.{bit_and_id, bit_and_cos, bit_and_dei}

-- The number that is read at an offset, from its four bytes.
ntohl_at-get_or :
    (frame : List ℕ) (i : ℕ)
    → i + 4 ≤ length frame
    → ntohl_at frame i
      ≡ ok (
          get_or frame i 0 * 2 ^ 24
          + get_or frame (i + 1) 0 * 2 ^ 16
          + get_or frame (i + 2) 0 * 2 ^ 8
          + get_or frame (i + 3) 0)
unfolding ntohl_at
ntohl_at-get_or frame i room = rw (
  at-get_or frame i 0 (omega arith),
  at-get_or frame (i + 1) 0 (omega arith),
  at-get_or frame (i + 2) 0 (omega arith),
  at-get_or frame (i + 3) 0 (omega arith),
)

tag_fields_lem :
    (tpid id cos dei : ℕ)
    → id < 4096
    → cos < 8
    → dei < 2
    → tag_fields (tpid * 2 ^ 16 + (cos * 2 ^ 13 + dei * 2 ^ 12 + id)) ≡ tag_line id cos dei
unfolding tag_fields
tag_fields_lem tpid id cos dei id_fits cos_fits dei_fits =
    let tag = tpid * 2 ^ 16 + (cos * 2 ^ 13 + dei * 2 ^ 12 + id) in
    let a : tag % 4096 ≡ id = omega arith in
    let b : tag / 8192 % 8 ≡ cos = omega arith in
    let c : tag / 4096 % 2 ≡ dei = omega arith in
    rw (bit_and_id tag, bit_and_cos tag, bit_and_dei tag, a, b, c)

-- What stands at a byte after one has been written.
set_at : (xs : List ℕ) (i v : ℕ) → i < length xs → get_or (set xs i v) i 0 ≡ v
set_at xs i v inside = ground (arith, get_or-set xs i i v 0)

set_past : (xs : List ℕ) (i j v : ℕ) → j < i → get_or (set xs i v) j 0 ≡ get_or xs j 0
set_past xs i j v before = ground (arith, get_or-set xs i j v 0)

write_tag-get_or :
    (offset tpid tci : ℕ) (frame : List ℕ)
    → offset + 4 ≤ length frame
    → (out : List ℕ) × (write_tag offset tpid tci frame ≡ ok out)
      × (length out ≡ length frame)
      × (get_or out offset 0 ≡ tpid / 256 % 256)
      × (get_or out (offset + 1) 0 ≡ tpid % 256)
      × (get_or out (offset + 2) 0 ≡ tci / 256 % 256)
      × (get_or out (offset + 3) 0 ≡ tci % 256)
unfolding write_tag
write_tag-get_or i tpid tci frame room =
    let b0 = tpid / 256 % 256 in
    let b1 = tpid % 256 in
    let b2 = tci / 256 % 256 in
    let b3 = tci % 256 in
    let a = set frame i b0 in
    let b = set a (i + 1) b1 in
    let c = set b (i + 2) b2 in
    let a_width : length a ≡ length frame = length-set frame i b0 in
    let b_width : length b ≡ length frame = length-set a (i + 1) b1 ∙ a_width in
    let c_width : length c ≡ length frame = length-set b (i + 2) b2 ∙ b_width in
    (
      set c (i + 3) b3,
      rw (
        store-set frame i b0 (omega arith),
        store-set a (i + 1) b1 (omega arith),
        store-set b (i + 2) b2 (omega arith),
        store-set c (i + 3) b3 (omega arith),
      ),
      length-set c (i + 3) b3 ∙ c_width,
      set_past c (i + 3) i b3 (omega arith)
          ∙ set_past b (i + 2) i b2 (omega arith)
          ∙ set_past a (i + 1) i b1 (omega arith)
          ∙ set_at frame i b0 (omega arith),
      set_past c (i + 3) (i + 1) b3 (omega arith)
          ∙ set_past b (i + 2) (i + 1) b2 (omega arith)
          ∙ set_at a (i + 1) b1 (omega arith),
      set_past c (i + 3) (i + 2) b3 (omega arith) ∙ set_at b (i + 2) b2 (omega arith),
      set_at c (i + 3) b3 (omega arith),
    )

-- A tag that the kernel has taken out of a frame, with its EtherType `tpid`, priority, drop flag and id: written
-- into the frame by `get_vlan_info` and read out again by `set_device_data`, it is shown with the same
-- priority, drop flag and id.
pub tag_fields-write_tag :
    (offset tpid id cos dei : ℕ) (frame : List ℕ)
    → offset + 4 ≤ length frame
    → tpid < 2 ^ 16
    → id < 4096
    → cos < 8
    → dei < 2
    → (out : List ℕ) × (tag : ℕ) × (write_tag offset tpid (cos * 2 ^ 13 + dei * 2 ^ 12 + id) frame
        ≡ ok out)
      × (ntohl_at out offset ≡ ok tag)
      × (tag_fields tag ≡ tag_line id cos dei)
tag_fields-write_tag offset tpid id cos dei frame room tpid_fits id_fits cos_fits dei_fits =
    let tci = cos * 2 ^ 13 + dei * 2 ^ 12 + id in
    let (out, writes, width, b0, b1, b2, b3) = write_tag-get_or offset tpid tci frame room in
    let tag = tpid * 2 ^ 16 + tci in
    let whole : get_or out offset 0 * 2 ^ 24
          + get_or out (offset + 1) 0 * 2 ^ 16
          + get_or out (offset + 2) 0 * 2 ^ 8
          + get_or out (offset + 3) 0
        ≡ tag =
      omega arith in
    (
      out,
      tag,
      writes,
      ntohl_at-get_or out offset (omega arith) ∙ ap ok whole,
      tag_fields_lem tpid id cos dei id_fits cos_fits dei_fits,
    )
