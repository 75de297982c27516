-- ===== src/Ui/Inspect.antt =====
-- include/ui/popup_inspect.h and src/ui/popup_inspect.c: what the popup shows of one device.
-- The arithmetic of `double` is an argument: `scale v max` is `(int)round((double)v / max * 7.0)`.
pub mod Bits
pub mod Tags
pub mod Graph
use Prim.Native.String.{String}
use net_det.Prelude.{
  ℕ, zero, suc, ◌+◌, ◌-◌, ◌*◌, ◌/◌, ◌%◌, ◌^◌, bit_and, Option, none, some, List, [], ◌∷◌, Run, ok,
  fault, out_of_bounds, ◌>>=◌, at, not_null, ltb, ◌==◌, if◌then◌else◌,
}
use net_det.Core.Device.{Ip, RateHistory, Device, Heap, deref, rate_history_size}

-- `enum union_type` with the getter's `arg`: the part of the device that the static behind it points to after
-- `prepare_inspect_data`.
pub data Getter : Type 0 where
  vlan_tag : (Device → ℕ) → Getter
  atomic_int : (Device → ℕ) → Getter
  ip_field : (Device → Ip) → Getter
  graph_field : (Device → RateHistory) → Getter
  rate_field : (Device → RateHistory) → Getter

-- `inspect_field_t`
pub record InspectField : Type 0 where
  pub string : String
  pub getter : Getter

-- What is given to printf for a field: an address, the three parts of a tag, a number, or the blocks of
-- the graph, from 0 for the lowest to 7 for the full one.
pub data Field : Type 0 where
  ip_line : Ip → Field
  tag_line : (id cos dei : ℕ) → Field
  number_line : ℕ → Field
  graph_line : List ℕ → Field

-- A getter reads through the static pointer.
abbrev pub get_ip : (Device → Ip) → Device → Ip
get_ip arg d = arg d

abbrev pub get_vlan_tag : (Device → ℕ) → Device → ℕ
get_vlan_tag arg d = arg d

abbrev pub get_atomic_int64 : (Device → ℕ) → Device → ℕ
get_atomic_int64 arg d = arg d

-- `data[head - 1]`: there is no such cell at head 0.
unfoldable pub get_rate : RateHistory → Run ℕ
get_rate graph = if graph.head == 0 then fault out_of_bounds else at graph.values (graph.head - 1)

-- The first loop of `get_graph`, from cell `i` on.
unfoldable pub max_rate : ℕ → ℕ → ℕ → List ℕ → Run ℕ
max_rate zero i max values = ok max
max_rate (suc rounds) i max values = do
  current_value ← at values i
  max_rate rounds (i + 1) (if ltb max current_value then current_value else max) values

-- `blocks[block_index]`, one of eight.
unfoldable pub block : ℕ → Run ℕ
block block_index = if ltb block_index 8 then ok block_index else fault out_of_bounds

-- The second loop, from cell `i` on.
unfoldable pub graph_blocks : (ℕ → ℕ → ℕ) → RateHistory → ℕ → ℕ → ℕ → Run (List ℕ)
unfolding block
graph_blocks scale graph max zero i = ok []
graph_blocks scale graph max (suc rounds) i = do
  v ← at graph.values ((graph.head + i) % rate_history_size)
  b ← block (scale v max)
  rest ← graph_blocks scale graph max rounds (i + 1)
  ok (b ∷ rest)

unfoldable pub get_graph : (ℕ → ℕ → ℕ) → RateHistory → Run (List ℕ)
unfolding max_rate graph_blocks
get_graph scale graph = do
  first ← at graph.values 0
  max ← max_rate rate_history_size 0 first graph.values
  graph_blocks scale graph (if max == 0 then 1 else max) rate_history_size 0

abbrev inspect_field : String → Getter → InspectField
inspect_field string getter = record { string = string; getter = getter }

unfoldable pub popup_inspect : List InspectField
popup_inspect =
    inspect_field "IP: %s" (ip_field (λ d. d.ip))
    ∷ inspect_field "802.1ad (QinQ): %d\tCoS: %d\tDEI: %d" (vlan_tag (λ d. d.qinq_tag))
    ∷ inspect_field "802.1Q (Dot1Q): %d\tCoS: %d\tDEI: %d" (vlan_tag (λ d. d.dot1q_tag))
    ∷ inspect_field "Total frames: %d" (atomic_int (λ d. d.previous_frames))
    ∷ inspect_field "Rate history: %u/s" (rate_field (λ d. d.graph))
    ∷ inspect_field "%s" (graph_field (λ d. d.graph))
    ∷ []

-- The three parts of a tag that are shown.
unfoldable pub tag_fields : ℕ → Field
tag_fields tag =
    tag_line (bit_and tag 0xfff) (bit_and tag 0xe000 / 2 ^ 13) (bit_and tag 0x1000 / 2 ^ 12)

-- What a getter gives to printf.
unfoldable pub field_of : (ℕ → ℕ → ℕ) → Getter → Device → Run Field
unfolding tag_fields get_rate get_graph
field_of scale (ip_field arg) d = ok (ip_line (get_ip arg d))
field_of scale (vlan_tag arg) d = ok (tag_fields (get_vlan_tag arg d))
field_of scale (atomic_int arg) d = ok (number_line (get_atomic_int64 arg d))
field_of scale (rate_field arg) d = do rate ← get_rate (arg d); ok (number_line rate)
field_of scale (graph_field arg) d = do blocks ← get_graph scale (arg d); ok (graph_line blocks)

-- The format and what is given to it; `inspected` is the device that the statics point into.
unfoldable pub render_inspect_item : (ℕ → ℕ → ℕ) → Heap → Option ℕ → ℕ → Run (String × Field)
unfolding popup_inspect field_of
render_inspect_item scale heap inspected index = do
  item ← at popup_inspect index
  p ← not_null inspected
  d ← deref heap p
  field ← field_of scale item.getter d
  ok (item.string, field)
