-- ===== src/Ui/ScrollView/Limits.antt =====
-- Where the cursor leaves the window.
use net_det.Prelude.{ℕ, ◌+◌, ◌^◌, ◌≤◌, ◌<◌, ◌≡◌, arith}
use net_det.Prelude.Int.{pos, negsuc, neg_part}
use net_det.Ui.ScrollView.{
  ScrollView, scroll_move, scroll_up, scroll_down, records_on_screen, scroll_view_configure,
}
use net_det.Ui.ScrollView.Moves.{IsValid}

-- With no row on the screen, a head inside a list of less than 2^31 entries and a cursor that is not
-- negative: a step down puts the cursor at -1 and moves the head.
pub scroll_move_blank :
    (v : ScrollView)
    → 0 < v.count
    → v.count < 2 ^ 31
    → v.head < v.count
    → v.visible ≡ 0
    → neg_part v.cursor ≡ 0
    → ((scroll_move v (pos 1)).cursor ≡ negsuc 0) × ((scroll_move v (pos 1)).head ≡ v.head + 1)
unfolding scroll_move scroll_up scroll_down records_on_screen
scroll_move_blank v some_rows fits inside blank nonneg = ground arith

-- Opening a popup of at least one entry and one row, with head and cursor at 0, gives a valid view.
scroll_view_configure-IsValid :
    (v : ScrollView) (data_count window_height : ℕ)
    → 0 < data_count
    → data_count < 2 ^ 31
    → 3 ≤ window_height
    → window_height < 2 ^ 31
    → IsValid (record (scroll_view_configure v (pos data_count) (pos window_height)) {
      head = 0;
      cursor = pos 0;
    })
unfolding scroll_view_configure
scroll_view_configure-IsValid v data_count window_height some_rows fits tall narrow = ground arith

-- Configuring a view for a window of two lines or more, below 2^31, that has no row for the cursor gives a view
-- that is not valid, since the cursor stays where it is.
pub scroll_view_configure_lower :
    (v : ScrollView) (data_count window_height c : ℕ)
    → v.cursor ≡ pos c
    → 2 ≤ window_height
    → window_height < 2 ^ 31
    → window_height ≤ c + 2
    → ¬ IsValid (scroll_view_configure v (pos data_count) (pos window_height))
unfolding scroll_view_configure
scroll_view_configure_lower v data_count window_height c here tall narrow low valid = ground arith
