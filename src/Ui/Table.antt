-- ===== src/Ui/Table.antt =====
-- src/ui/tui_app.c and include/ui/tui_app.h: the table of devices in the main window.
-- What is drawn is a value: the cells of a row, with what printf is given and the colour pair that it
-- is written in (0 is A_NORMAL). Drawing itself is ncurses' work.
pub mod Rows
pub mod Update
use net_det.Prelude.{
  ℕ, zero, suc, ◌+◌, ◌-◌, ◌/◌, ◌%◌, ◌^◌, bit_and, Bool, true, false, not, Option, none, some, List,
  [], ◌∷◌, Run, ok, ◌>>=◌, at, not_null, ltb, ◌==◌, if◌then◌else◌,
}
use net_det.Prelude.Int.{ℤ, pos, negsuc, pos_part, neg_part, ◌+ℤ◌, ◌-ℤ◌, sub_ℕ, to_uint32}
use net_det.Core.Device.{Mac, Ip, TimeStruct, Device, Heap, deref}
use net_det.Core.DeviceBuffer.{DeviceBuffer}
use net_det.Ui.ScrollView.{ScrollView}

pub record TableLayout : Type 0 where
  pub col_width : ℤ
  pub col_width_remainder : ℤ

pub record DeviceTableView : Type 0 where
  pub buffer : DeviceBuffer
  pub view : ScrollView

-- What is given to printf: six bytes, four bytes, a number, "-", or three numbers of a time.
pub data Text : Type 0 where
  mac_text : Mac → Text
  ip_text : Ip → Text
  number : ℕ → Text
  dash : Text
  clock : TimeStruct → Text

-- The width is the one of `%*s`, and negative for `%-*s`, which puts the text at the left.
pub record Cell : Type 0 where
  pub text : Text
  pub pair : ℕ
  pub width : ℤ
  pub left : Bool

pub record Row : Type 0 where
  pub y : ℕ
  pub cells : List Cell

-- `/` and `%` of C, which round toward zero
abbrev pub quot : ℤ → ℕ → ℤ
quot a n = sub_ℕ (pos_part a / n) (neg_part a / n)

abbrev pub rem : ℤ → ℕ → ℤ
rem a n = sub_ℕ (pos_part a % n) (neg_part a % n)

unfoldable pub table_layout_compute : ℤ → TableLayout
unfolding ◌-ℤ◌
table_layout_compute window_width = record {
  col_width = quot (window_width -ℤ pos 4) 4;
  col_width_remainder = rem (window_width -ℤ pos 4) 4;
}

-- What the static `current_layout` is then.
abbrev pub set_column_width : ℤ → TableLayout
set_column_width window_width = table_layout_compute window_width

-- The smaller of the window's rows and the array's slots.
unfoldable pub sync_display_limit : DeviceTableView → DeviceTableView
sync_display_limit buffer = record buffer {
  view = record buffer.view {
    visible =
        if ltb buffer.view.viewport_capacity buffer.buffer.size
        then buffer.view.viewport_capacity
        else buffer.buffer.size;
  };
}

unfoldable pub mac_pair : ℕ → Bool → ℕ
mac_pair first highlight_line =
    let both = bit_and first 0x03 == 0x03 in
    let local = bit_and first 0x02 == 0x02 in
    let group = bit_and first 0x01 == 0x01 in
    if highlight_line
    then (if both then 6 else (if local then 7 else (if group then 8 else 3)))
    else (if both then 4 else (if local then 2 else (if group then 1 else 0)))

unfoldable pub print_mac : TableLayout → Mac → Bool → Cell
print_mac layout mac highlight_line = record {
  text = mac_text mac;
  pair = mac_pair mac.m0 highlight_line;
  width = layout.col_width;
  left = true;
}

-- The text of an address or of a time is written in the pair that is on: 3 on the highlighted line.
abbrev pub line_pair : Bool → ℕ
line_pair highlight_line = if highlight_line then 3 else 0

abbrev pub print_ip : TableLayout → Ip → Bool → Cell
print_ip layout ip highlight_line = record {
  text = ip_text ip;
  pair = line_pair highlight_line;
  width = layout.col_width;
  left = true;
}

-- What `print_qinq` and `print_dot1q` do, which differ in the width alone.
unfoldable pub print_tag : ℤ → ℕ → Bool → Cell
print_tag width tag highlight_line =
    if not (bit_and tag 0xffff == 0)
    then record {
      text = number (bit_and tag 0xfff);
      pair =
          if not (bit_and tag 0xf000 == 0)
          then (if highlight_line then 9 else 5)
          else line_pair highlight_line;
      width = width;
      left = true;
    }
    else record { text = dash; pair = if highlight_line then 6 else 4; width = width; left = true }

abbrev pub print_qinq : TableLayout → ℕ → Bool → Cell
print_qinq layout qinq_tag highlight_line = print_tag layout.col_width qinq_tag highlight_line

abbrev pub print_dot1q : TableLayout → ℕ → Bool → Cell
print_dot1q layout dot1q_tag highlight_line =
    print_tag (quot layout.col_width 2) dot1q_tag highlight_line

unfoldable pub print_lastseen : TableLayout → TimeStruct → Bool → Cell
unfolding ◌+ℤ◌
print_lastseen layout last_seen highlight_line = record {
  text = clock last_seen;
  pair = line_pair highlight_line;
  width = quot layout.col_width 2 +ℤ layout.col_width_remainder;
  left = false;
}

unfoldable pub print_network_row : TableLayout → ℕ → Device → Bool → Row
unfolding print_mac print_tag print_lastseen
print_network_row layout y dev highlight_line = record {
  y = y;
  cells =
      print_mac layout dev.mac highlight_line
      ∷ print_ip layout dev.ip highlight_line
      ∷ print_qinq layout dev.qinq_tag highlight_line
      ∷ print_dot1q layout dev.dot1q_tag highlight_line
      ∷ print_lastseen layout dev.last_seen highlight_line
      ∷ [];
}

-- The number of rows with a device, as `print_network_data` and `update_row` compute it.
unfoldable pub row_limit : ScrollView → ℕ
row_limit view =
    if ltb view.count ((view.head + view.visible) % 2 ^ 32)
    then (view.count + 2 ^ 32 - view.head) % 2 ^ 32
    else view.visible

-- One turn of the loop of `print_network_data`.
unfoldable pub print_row : TableLayout → Heap → DeviceTableView → ℕ → Run Row
unfolding print_network_row
print_row layout heap buffer i = do
  item ← at buffer.buffer.items ((buffer.view.head + i) % 2 ^ 32)
  p ← not_null item
  dev ← deref heap p
  ok (print_network_row layout (2 + i) dev (i == to_uint32 buffer.view.cursor))

-- The loop, from row `i` on.
unfoldable pub print_rows : TableLayout → Heap → DeviceTableView → ℕ → ℕ → Run (List Row)
unfolding print_row
print_rows layout heap buffer zero i = ok []
print_rows layout heap buffer (suc rounds) i = do
  row ← print_row layout heap buffer i
  rows ← print_rows layout heap buffer rounds (i + 1)
  ok (row ∷ rows)

unfoldable pub print_network_data :
    TableLayout → Heap → DeviceTableView → Run (DeviceTableView × List Row)
unfolding sync_display_limit row_limit print_rows
print_network_data layout heap buffer =
    let synced = sync_display_limit buffer in
    print_rows layout heap synced (row_limit synced.view) 0 >>= λ rows. ok (synced, rows)

-- `==` on pointers
abbrev pub is_pointer : Option ℕ → Option ℕ → Bool
is_pointer none none = true
is_pointer none (some p) = false
is_pointer (some q) none = false
is_pointer (some q) (some p) = q == p

abbrev pub address : Option ℕ → ℕ
address none = 0
address (some q) = q

-- The loop of `update_row`, from row `i` on.
unfoldable pub find_row : TableLayout → Heap → DeviceTableView → Option ℕ → ℕ → ℕ → Run (Option Row)
unfolding print_network_row
find_row layout heap buffer device_to_update zero i = ok none
find_row layout heap buffer device_to_update (suc rounds) i = do
  item ← at buffer.buffer.items ((buffer.view.head + i) % 2 ^ 32)
  let rest : Run (Option Row) = find_row layout heap buffer device_to_update rounds (i + 1)
  if is_pointer item device_to_update
      then (not_null device_to_update >>= λ p. deref heap p >>= λ dev.
          ok (some (print_network_row layout (2 + i) dev (i == to_uint32 buffer.view.cursor))))
      else rest

-- The row that is drawn again. Pointers are compared as addresses, and null is address 0.
unfoldable pub update_row : TableLayout → Heap → DeviceTableView → Option ℕ → Run (Option Row)
unfolding row_limit find_row
update_row layout heap buffer device_to_update = do
  first ← at buffer.buffer.items buffer.view.head
  if ltb (address device_to_update) (address first)
      then ok none
      else find_row layout heap buffer device_to_update (row_limit buffer.view) 0
