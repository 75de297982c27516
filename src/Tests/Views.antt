-- ===== src/Tests/Views.antt =====
-- The scroll view of src/ui/scroll_view.c.
use net_det.Prelude.{[], ◌∷◌, ◌≡◌, refl, arith}
use net_det.Prelude.Int.{pos, negsuc}
use net_det.Ui.ScrollView.{
  ScrollView, records_on_screen, scroll_up, scroll_down, scroll_move, scroll_view_configure,
}
use net_det.Ui.ScrollView.Followed.{up, down, scroll_moves, place, replay, scroll_moves-replay}
use net_det.Ui.ScrollView.Moves.{IsValid}
use net_det.Ui.ScrollView.Limits.{scroll_move_blank, scroll_view_configure_lower}

-- Nine entries, four rows, the cursor on the last row.
abbrev bottom : ScrollView
bottom = record { count = 9; head = 2; visible = 4; viewport_capacity = 4; cursor = pos 3 }

bottom_down : scroll_move bottom (pos 1) ≡ record bottom { head = 3 }
unfolding scroll_move records_on_screen scroll_down
bottom_down = refl

top_up :
    scroll_move (record bottom { cursor = pos 0 }) (negsuc 0)
    ≡ record bottom { head = 1; cursor = pos 0 }
unfolding scroll_move records_on_screen scroll_up
top_up = refl

bottom-IsValid : IsValid bottom
bottom-IsValid = record {
  fits = omega arith;
  narrow = omega arith;
  nonneg = refl;
  on_row = omega arith;
  on_entry = omega arith;
}

abbrev blank : ScrollView
blank = record { count = 9; head = 0; visible = 0; viewport_capacity = 0; cursor = pos 0 }

scroll_move_blank_example :
    ((scroll_move blank (pos 1)).cursor ≡ negsuc 0) × ((scroll_move blank (pos 1)).head ≡ 1)
scroll_move_blank_example =
    scroll_move_blank blank (omega arith) (omega arith) (omega arith) refl refl

scroll_view_configure_lower_example : ¬ IsValid (scroll_view_configure bottom (pos 9) (pos 4))
scroll_view_configure_lower_example =
    scroll_view_configure_lower bottom 9 4 3 refl (omega arith) (omega arith) (omega arith)

scroll_moves-replay_example :
    IsValid (scroll_moves (down ∷ up ∷ up ∷ []) bottom)
    × (place (scroll_moves (down ∷ up ∷ up ∷ []) bottom)
        ≡ replay 9 4 (down ∷ up ∷ up ∷ []) (place bottom))
    × ((scroll_moves (down ∷ up ∷ up ∷ []) bottom).count ≡ 9)
    × ((scroll_moves (down ∷ up ∷ up ∷ []) bottom).visible ≡ 4)
scroll_moves-replay_example = scroll_moves-replay (down ∷ up ∷ up ∷ []) bottom bottom-IsValid
