-- ===== src/Ui/ScrollView/Followed.antt =====
-- The scroll view as a pair of numbers: the selected entry, which a step moves by one within the list, and
-- the first entry on the screen, which follows it no further than it must.
use net_det.Prelude.{ℕ, ◌+◌, ◌-◌, ◌<◌, ◌≡◌, ◌∙◌, refl, List, [], ◌∷◌, arith, ltb, if◌then◌else◌}
use net_det.Prelude.Int.{ℤ, pos, negsuc, pos_part}
use net_det.Ui.ScrollView.{ScrollView, scroll_move, scroll_up}
use net_det.Ui.ScrollView.Moves.{
  IsValid, selected, rows, scroll_move_down, scroll_move_up, step_down, step_up, scroll_down_lem,
  records_on_screen-rows, cursor_pos,
}

pub data Direction : Type 0 where
  up down : Direction

abbrev pub direction : Direction → ℤ
direction up = negsuc 0
direction down = pos 1

-- One call of `scroll_move` for each key.
unfoldable pub scroll_moves : List Direction → ScrollView → ScrollView
scroll_moves [] view = view
scroll_moves (d ∷ ds) view = scroll_moves ds (scroll_move view (direction d))

-- The first entry on the screen, and the selected one.
pub record Place : Type 0 where
  pub top : ℕ
  pub entry : ℕ

abbrev pub place : ScrollView → Place
place v = record { top = v.head; entry = selected v }

-- The entry that a step selects in a list of this length.
abbrev pub next_entry : ℕ → Direction → ℕ → ℕ
next_entry count up k = k - 1
next_entry count down k = if ltb (k + 1) count then k + 1 else k

-- The least move of the window that shows the entry.
abbrev pub follow : ℕ → ℕ → ℕ → ℕ
follow visible top k =
    if ltb k top then k else (if ltb k (top + visible) then top else k + 1 - visible)

abbrev pub step : ℕ → ℕ → Direction → Place → Place
step count visible d x =
    let k = next_entry count d x.entry in record { top = follow visible x.top k; entry = k }

unfoldable pub replay : ℕ → ℕ → List Direction → Place → Place
replay count visible [] x = x
replay count visible (d ∷ ds) x = replay count visible ds (step count visible d x)

-- What one step promises.
pub record IsFollowed (v v' : ScrollView) (d : Direction) : Type 0 where
  pub valid : IsValid v'
  pub moved : place v' ≡ step v.count v.visible d (place v)
  pub count : v'.count ≡ v.count
  pub visible : v'.visible ≡ v.visible

down_head :
    (v : ScrollView)
    → IsValid v
    → (scroll_move v (pos 1)).head ≡ follow v.visible v.head (next_entry v.count down (selected v))
unfolding rows
down_head v i =
    let below : pos_part v.cursor < rows v = ground (arith, i.on_row, i.on_entry) in
    let records = records_on_screen-rows v (omega (arith, i.on_entry)) i.fits i.narrow in
    let last =
      scroll_down_lem v (rows v) (omega arith) (ground (arith, i.narrow))
        (ground (arith, i.on_entry)) i.fits in
    rw
      (
        step_down v (pos_part v.cursor) (rows v) (omega (arith, i.on_entry)) (cursor_pos v i)
            records,
        last,
      )
      (ground (arith, i.on_row, i.on_entry))

up_head :
    (v : ScrollView)
    → IsValid v
    → (scroll_move v (negsuc 0)).head ≡ follow v.visible v.head (selected v - 1)
unfolding rows scroll_up
up_head v i =
    let below : pos_part v.cursor < rows v = ground (arith, i.on_row, i.on_entry) in
    let records = records_on_screen-rows v (omega (arith, i.on_entry)) i.fits i.narrow in
    rw
      (step_up v (pos_part v.cursor) (rows v) (omega (arith, i.on_entry)) (cursor_pos v i) below
        records)
      (ground (arith, i.on_row, i.on_entry))

places :
    (a b k l : ℕ)
    → a ≡ b
    → k ≡ l
    → ◌≡◌ {A = Place} (record { top = a; entry = k }) (record { top = b; entry = l })
places a b k l e f = cc (e, f)

scroll_move-IsFollowed :
    (v : ScrollView) (d : Direction) → IsValid v → IsFollowed v (scroll_move v (direction d)) d
scroll_move-IsFollowed v up i =
    let (valid, selects, count, visible) = scroll_move_up v i in
    record {
      valid = valid;
      moved = places _ _ _ _ (up_head v i) selects;
      count = count;
      visible = visible;
    }
scroll_move-IsFollowed v down i =
    let (valid, selects, count, visible) = scroll_move_down v i in
    record {
      valid = valid;
      moved = places _ _ _ _ (down_head v i) selects;
      count = count;
      visible = visible;
    }

-- Any sequence of steps up and down in a valid view keeps it valid, leaves the list's length and the
-- window's height as they are, and shows what a replay on the pair of the first entry on the screen and the
-- selected one gives: each step moves the selection by one within the list, and the window by the least that
-- shows it.
pub scroll_moves-replay :
    (ds : List Direction) (v : ScrollView)
    → IsValid v
    → IsValid (scroll_moves ds v)
      × (place (scroll_moves ds v) ≡ replay v.count v.visible ds (place v))
      × ((scroll_moves ds v).count ≡ v.count)
      × ((scroll_moves ds v).visible ≡ v.visible)
unfolding scroll_moves replay
scroll_moves-replay [] v i = (i, refl, refl, refl)
scroll_moves-replay (d ∷ ds) v i =
    let x = scroll_move-IsFollowed v d i in
    let (valid, shows, count, visible) =
      scroll_moves-replay ds (scroll_move v (direction d)) x.valid in
    (valid, shows ∙ rw (x.count, x.visible, x.moved), count ∙ x.count, visible ∙ x.visible)
