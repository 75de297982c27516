-- ===== src/Ui/ScrollView/Moves.antt =====
-- The cursor stays on a row, and a key press moves the selection by one.
use net_det.Prelude.{ℕ, ◌+◌, ◌-◌, ◌^◌, ◌≤◌, ◌<◌, ◌≡◌, arith, ltb, if◌then◌else◌}
use net_det.Prelude.Int.{pos, negsuc, pos_part, neg_part}
use net_det.Ui.ScrollView.{ScrollView, scroll_move, scroll_up, scroll_down, records_on_screen}

-- The cursor stands on a row of the window, and that row on an entry of the list.
pub record IsValid (v : ScrollView) : Type 0 where
  pub fits : v.count < 2 ^ 31
  pub narrow : v.visible < 2 ^ 31
  pub nonneg : neg_part v.cursor ≡ 0
  pub on_row : pos_part v.cursor < v.visible
  pub on_entry : v.head + pos_part v.cursor < v.count

-- The entry that is selected.
abbrev pub selected : ScrollView → ℕ
selected v = v.head + pos_part v.cursor

-- The rows of the window that show an entry.
unfoldable pub rows : ScrollView → ℕ
rows v = if ltb v.visible (v.count - v.head) then v.visible else v.count - v.head

pub records_on_screen-rows :
    (v : ScrollView)
    → v.head ≤ v.count
    → v.count < 2 ^ 31
    → v.visible < 2 ^ 31
    → records_on_screen v ≡ pos (rows v)
unfolding records_on_screen rows
records_on_screen-rows v inside fits narrow = ground arith

pub scroll_down_lem :
    (v : ScrollView) (r : ℕ)
    → 0 < r
    → r < 2 ^ 31
    → v.head + r ≤ v.count
    → v.count < 2 ^ 31
    → scroll_down v (pos r) ≡ record v {
      head = if ltb (v.head + r) v.count then v.head + 1 else v.head;
      cursor = pos (r - 1);
    }
unfolding scroll_down
scroll_down_lem v r some_rows narrow inside fits = ground arith

pub step_down :
    (v : ScrollView) (c r : ℕ)
    → 0 < v.count
    → v.cursor ≡ pos c
    → records_on_screen v ≡ pos r
    → scroll_move v (pos 1)
      ≡ (if ltb (c + 1) r then record v { cursor = pos (c + 1) } else scroll_down v (pos r))
unfolding scroll_move
step_down v c r some_entries here records = ground arith

pub step_up :
    (v : ScrollView) (c r : ℕ)
    → 0 < v.count
    → v.cursor ≡ pos c
    → c < r
    → records_on_screen v ≡ pos r
    → scroll_move v (negsuc 0)
      ≡ (if ltb 0 c then record v { cursor = pos (c - 1) } else scroll_up v)
unfolding scroll_move
step_up v c r some_entries here below records = ground arith

pub cursor_pos : (v : ScrollView) → IsValid v → v.cursor ≡ pos (pos_part v.cursor)
cursor_pos v i = ground (arith, i.nonneg)

-- One step down (`scroll_move(view, 1)`) selects the next entry, if there is one, keeps the view valid
-- and changes neither the list's length nor the window's height.
pub scroll_move_down :
    (v : ScrollView)
    → IsValid v
    → IsValid (scroll_move v (pos 1))
      × (selected (scroll_move v (pos 1))
          ≡ (if ltb (selected v + 1) v.count then selected v + 1 else selected v))
      × ((scroll_move v (pos 1)).count ≡ v.count)
      × ((scroll_move v (pos 1)).visible ≡ v.visible)
unfolding rows
scroll_move_down v i =
    let below : pos_part v.cursor < rows v = ground (arith, i.on_row, i.on_entry) in
    let records = records_on_screen-rows v (omega (arith, i.on_entry)) i.fits i.narrow in
    let last =
      scroll_down_lem v (rows v) (omega arith) (ground (arith, i.narrow))
        (ground (arith, i.on_entry)) i.fits in
    rw
      (
        step_down v (pos_part v.cursor) (rows v) (omega (arith, i.on_entry)) (cursor_pos v i)
            records,
        last,
      )
      (ground arith)

-- One step up (`scroll_move(view, -1)`) selects the entry before, or stays at the first, keeps the
-- view valid and changes neither the list's length nor the window's height.
pub scroll_move_up :
    (v : ScrollView)
    → IsValid v
    → IsValid (scroll_move v (negsuc 0))
      × (selected (scroll_move v (negsuc 0)) ≡ selected v - 1)
      × ((scroll_move v (negsuc 0)).count ≡ v.count)
      × ((scroll_move v (negsuc 0)).visible ≡ v.visible)
unfolding rows scroll_up
scroll_move_up v i =
    let below : pos_part v.cursor < rows v = ground (arith, i.on_row, i.on_entry) in
    let records = records_on_screen-rows v (omega (arith, i.on_entry)) i.fits i.narrow in
    rw
      (step_up v (pos_part v.cursor) (rows v) (omega (arith, i.on_entry)) (cursor_pos v i) below
        records)
      (ground arith)
