-- ===== src/Ui/Colors.antt =====
-- The colour pairs that `ncurses_init` of src/ui/tui.c makes; the other calls of it set ncurses up.
pub mod Highlight
use net_det.Prelude.{ℕ, Bool, List, [], ◌∷◌, ◌==◌, if◌then◌else◌}

-- The terminal's own colour is -1.
pub data Color : Type 0 where
  default_color black green yellow red cyan : Color

pub record ColorPair : Type 0 where
  pub pair : ℕ
  pub foreground : Color
  pub background : Color

abbrev pub init_pair : ℕ → Color → Color → ColorPair
init_pair pair foreground background = record {
  pair = pair;
  foreground = foreground;
  background = background;
}

-- The argument is what `has_colors` answers.
unfoldable pub ncurses_init : Bool → List ColorPair
ncurses_init has_colors =
    if has_colors
    then init_pair 1 green default_color
      ∷ init_pair 2 yellow default_color
      ∷ init_pair 3 default_color black
      ∷ init_pair 4 red default_color
      ∷ init_pair 5 cyan default_color
      ∷ init_pair 6 red black
      ∷ init_pair 7 yellow black
      ∷ init_pair 8 green black
      ∷ init_pair 9 cyan black
      ∷ []
    else []

-- Pair 0, and one that has not been made, is the terminal's own colours.
unfoldable pub pair_content : List ColorPair → ℕ → Color × Color
pair_content [] n = (default_color, default_color)
pair_content (p ∷ pairs) n =
    if p.pair == n then (p.foreground, p.background) else pair_content pairs n
