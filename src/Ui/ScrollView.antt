-- ===== src/Ui/ScrollView.antt =====
-- include/ui/scroll_view.h and src/ui/scroll_view.c: a window of rows over a longer list, with a cursor.
-- The `uint32_t` fields are numbers below 2^32 with their wrap-around; the cursor is an `int32_t`.
pub mod Moves
pub mod Limits
pub mod Within
pub mod Followed
use net_det.Prelude.{ℕ, ◌+◌, ◌-◌, ◌%◌, ◌^◌, Bool, not, ltb, ◌==◌, if◌then◌else◌}
use net_det.Prelude.Int.{ℤ, pos, ◌+ℤ◌, ◌-ℤ◌, ltb_ℤ, to_int32, to_uint32}

pub record ScrollView : Type 0 where
  pub count : ℕ
  pub head : ℕ
  pub visible : ℕ
  pub viewport_capacity : ℕ
  pub cursor : ℤ

-- `records_on_screen`, after the test against `visible`
unfoldable pub records_on_screen : ScrollView → ℤ
records_on_screen view =
    let records = to_int32 (view.count + 2 ^ 32 - view.head) in
    if ltb view.visible (to_uint32 records) then to_int32 view.visible else records

-- The branches of `scroll_move` above the first row, below the last, and between.
unfoldable pub scroll_up : ScrollView → ScrollView
scroll_up view = record view {
  head = if ltb 0 view.head then view.head - 1 else view.head;
  cursor = pos 0;
}

unfoldable pub scroll_down : ScrollView → ℤ → ScrollView
unfolding ◌-ℤ◌
scroll_down view records = record view {
  head =
      if ltb ((view.head + to_uint32 records) % 2 ^ 32) view.count
      then (view.head + 1) % 2 ^ 32
      else view.head;
  cursor = records -ℤ pos 1;
}

unfoldable pub scroll_move : ScrollView → ℤ → ScrollView
unfolding ◌+ℤ◌
scroll_move view direction =
    let new_position = view.cursor +ℤ direction in
    let records = records_on_screen view in
    if view.count == 0
    then view
    else (if ltb_ℤ new_position (pos 0)
        then scroll_up view
        else (if not (ltb_ℤ new_position records)
            then scroll_down view records
            else record view { cursor = new_position }))

unfoldable pub scroll_view_configure : ScrollView → ℤ → ℤ → ScrollView
unfolding ◌-ℤ◌
scroll_view_configure view data_count window_height =
    let count = to_uint32 data_count in
    let visible = to_uint32 (window_height -ℤ pos 2) in
    record view { count = count; visible = if ltb count visible then count else visible }
