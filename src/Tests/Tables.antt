-- ===== src/Tests/Tables.antt =====
-- The table of src/ui/tui_app.c.
use net_det.Prelude.{
  ℕ, zero, suc, ◌+◌, ◌<◌, ◌≡◌, ◌≢◌, refl, false, true, some, none, [], ◌∷◌, List, arith, length,
  get_or, ok, ◌==◌, if◌then◌else◌,
}
use net_det.Prelude.Int.{pos}
use net_det.Core.Device.{Device, Heap}
use net_det.Ui.Table.{
  TableLayout, DeviceTableView, Row, table_layout_compute, mac_pair, print_network_row, print_tag,
  number, sync_display_limit, print_network_data, update_row,
}
use net_det.Ui.Table.Rows.{IsLive, IsBacked, Shows, no_row, print_network_data-Shows}
use net_det.Ui.Colors.Highlight.{AllHighlight, print_network_row-AllHighlight}
use net_det.Ui.Table.Update.{update_row-print_network_row}

abbrev layout : TableLayout
layout = record { col_width = pos 19; col_width_remainder = pos 2 }

layout_of_82 : table_layout_compute (pos 82) ≡ layout
unfolding table_layout_compute
layout_of_82 = refl

-- A locally administered group address, and a tag of VLAN 100 with priority 5.
local_group : mac_pair 3 false ≡ 4
unfolding mac_pair
local_group = refl

vlan_100 :
    print_tag (pos 19) 0x8100_a064 true
    ≡ record { text = number 100; pair = 9; width = pos 19; left = true }
unfolding print_tag
vlan_100 = refl

abbrev device_of : ℕ → Device
device_of n = record {
  mac = record { m0 = n; m1 = 0; m2 = 0; m3 = 0; m4 = 0; m5 = 1 };
  ip = record { i0 = 10; i1 = 0; i2 = 0; i3 = n };
  qinq_tag = 0;
  dot1q_tag = 0;
  previous_frames = 0;
  total_frames = 1;
  last_seen = record { hour = 1; minutes = 2; seconds = 3 };
  graph = record { values = []; head = 0; count = 0 };
}

-- Devices at the addresses 7 and 9.
abbrev heap : Heap
heap p = if p == 7 then some (device_of 7) else if p == 9 then some (device_of 9) else none

abbrev table : ℕ → ℕ → DeviceTableView
table a b = record {
  buffer = record { items = some a ∷ some b ∷ none ∷ []; size = 3; count = 2 };
  view = record { count = 2; head = 0; visible = 3; viewport_capacity = 5; cursor = pos 1 };
}

two-IsLive :
    (a b : ℕ)
    → heap a ≡ some (device_of a)
    → heap b ≡ some (device_of b)
    → (j : ℕ) → j < 2
    → IsLive heap (table a b) j
two-IsLive a b at_a at_b zero below = record {
  pointer = a;
  dev = device_of a;
  stored = refl;
  there = at_a;
}
two-IsLive a b at_a at_b (suc zero) below = record {
  pointer = b;
  dev = device_of b;
  stored = refl;
  there = at_b;
}
two-IsLive a b at_a at_b (suc (suc j)) below = absurd (omega arith)

table-IsBacked :
    (a b : ℕ)
    → heap a ≡ some (device_of a)
    → heap b ≡ some (device_of b)
    → IsBacked heap (table a b)
table-IsBacked a b at_a at_b = record {
  inside = omega arith;
  stored = omega arith;
  fits = omega arith;
  size_fits = omega arith;
  live = two-IsLive a b at_a at_b;
}

print_network_data-Shows_example :
    (rows : List Row) × (print_network_data layout heap (table 7 9)
      ≡ ok (sync_display_limit (table 7 9), rows))
    × (length rows ≡ 2)
    × ((k : ℕ)
        → k < length rows
        → Shows layout heap (sync_display_limit (table 7 9)) k (get_or rows k no_row))
unfolding sync_display_limit
print_network_data-Shows_example =
    print_network_data-Shows layout heap (table 7 9) (table-IsBacked 7 9 refl refl)

only_second :
    (j : ℕ) → j < 1 → get_or (table 7 9).buffer.items ((table 7 9).view.head + j) none ≢ some 9
only_second zero below = λ same. absurd (ground arith)
only_second (suc j) below = absurd (omega arith)

update_row-print_network_row_example :
    update_row layout heap (table 7 9) (some 9)
    ≡ ok (some (print_network_row layout 3 (device_of 9) true))
update_row-print_network_row_example =
    update_row-print_network_row layout heap (table 7 9) 1 9 (device_of 9)
      (table-IsBacked 7 9 refl refl) (omega arith) (omega arith) (omega arith) refl only_second refl
      (omega arith)

print_network_row-AllHighlight_example :
    AllHighlight
      (print_network_row layout 2 (device_of 7) false).cells
      (print_network_row layout 2 (device_of 7) true).cells
print_network_row-AllHighlight_example = print_network_row-AllHighlight layout 2 (device_of 7)
