-- ===== src/Tests/Inspects.antt =====
-- The popup of src/ui/popup_inspect.c.
use net_det.Prelude.{
  ℕ, ◌+◌, ◌*◌, ◌%◌, ◌^◌, ◌≤◌, ◌<◌, ◌≡◌, refl, List, ◌∷◌, arith, length, get_or, replicate, ok,
  fault, out_of_bounds, ◌==◌, if◌then◌else◌,
}
use net_det.Core.Device.{RateHistory, rate_history_size}
use net_det.Net.FrameParser.{write_tag, ntohl_at}
use net_det.Ui.Inspect.{tag_line, tag_fields, get_rate, get_graph}
use net_det.Ui.Inspect.Tags.{tag_fields-write_tag}
use net_det.Ui.Inspect.Graph.{IsGreatest, get_graph_lem}

-- A tag of VLAN 100 with priority 5, behind the two addresses of a frame.
tag_fields-write_tag_example :
    (out : List ℕ) × (tag : ℕ) × (write_tag 12 0x8100
        (5 * 2 ^ 13 + 1 * 2 ^ 12 + 100)
        (replicate 20 0)
      ≡ ok out)
    × (ntohl_at out 12 ≡ ok tag)
    × (tag_fields tag ≡ tag_line 100 5 1)
tag_fields-write_tag_example =
    tag_fields-write_tag 12 0x8100 100 5 1 (replicate 20 0) (omega arith) (omega arith)
      (omega arith) (omega arith) (omega arith)

-- Three rates, the head at cell 3.
abbrev graph : RateHistory
graph = record { values = 4 ∷ 7 ∷ 2 ∷ replicate 57 0; head = 3; count = 3 }

-- Seven eighths of the way up, for the greatest rate and no other.
abbrev scale : ℕ → ℕ → ℕ
scale v max = if v == max then 7 else 0

scale_fits : (v max : ℕ) → v ≤ max → 0 < max → scale v max < 8
scale_fits v max small positive = ground arith

get_graph_lem_example :
    (greatest : ℕ) × (blocks : List ℕ) × (get_graph scale graph ≡ ok blocks)
    × IsGreatest graph.values greatest
    × (length blocks ≡ rate_history_size)
    × ((k : ℕ)
        → k < rate_history_size
        → get_or blocks k 0
          ≡ scale
              (get_or graph.values ((3 + k) % rate_history_size) 0)
              (if greatest == 0 then 1 else greatest))
get_graph_lem_example = get_graph_lem scale graph refl scale_fits

-- The head has gone around.
get_rate_wrapped : get_rate (record graph { head = 0 }) ≡ fault out_of_bounds
unfolding get_rate
get_rate_wrapped = refl
