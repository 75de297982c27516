-- ===== src/Ui/Colors/Highlight.antt =====
-- What the cursor's row looks like beside the others.
use net_det.Prelude.{ℕ, ◌≡◌, refl, true, false, Bool-cases, inl, inr, List, [], ◌∷◌, bit_and, ◌==◌}
use net_det.Prelude.Int.{ℤ}
use net_det.Core.Device.{Device, Mac}
use net_det.Ui.Table.{
  TableLayout, Cell, print_network_row, print_mac, mac_pair, print_tag, print_lastseen, print_ip,
  quot, number, dash,
}
use net_det.Ui.Colors.{default_color, black, ncurses_init, pair_content}

-- The highlighted cell has the text, the place and the colour of the plain one, on black instead of the
-- terminal's own background.
pub record IsHighlight (plain lit : Cell) : Type 0 where
  pub text : lit.text ≡ plain.text
  pub width : lit.width ≡ plain.width
  pub left : lit.left ≡ plain.left
  pub color :
      (pair_content (ncurses_init true) lit.pair).0
      ≡ (pair_content (ncurses_init true) plain.pair).0
  pub plain_background : (pair_content (ncurses_init true) plain.pair).1 ≡ default_color
  pub lit_background : (pair_content (ncurses_init true) lit.pair).1 ≡ black

abbrev pub AllHighlight : List Cell → List Cell → Type 0
AllHighlight [] [] = Unit {0}
AllHighlight [] (y ∷ ys) = ⊥
AllHighlight (x ∷ xs) [] = ⊥
AllHighlight (x ∷ xs) (y ∷ ys) = IsHighlight x y × AllHighlight xs ys

-- Two cells that differ in their colour pairs.
pair_lem :
    (c : Cell) (a b : ℕ)
    → (pair_content (ncurses_init true) b).0 ≡ (pair_content (ncurses_init true) a).0
    → (pair_content (ncurses_init true) a).1 ≡ default_color
    → (pair_content (ncurses_init true) b).1 ≡ black
    → IsHighlight (record c { pair = a }) (record c { pair = b })
pair_lem c a b color plain lit = record {
  text = refl;
  width = refl;
  left = refl;
  color = color;
  plain_background = plain;
  lit_background = lit;
}

print_mac-IsHighlight :
    (layout : TableLayout) (mac : Mac)
    → IsHighlight (print_mac layout mac false) (print_mac layout mac true)
unfolding print_mac mac_pair ncurses_init pair_content
print_mac-IsHighlight layout mac =
    let c = print_mac layout mac false in
    elim (Bool-cases (bit_and mac.m0 3 == 3)) [
      | inl both ↦ rw both (pair_lem c 4 6 refl refl refl)
      | inr not_both ↦ elim (Bool-cases (bit_and mac.m0 2 == 2)) [
        | inl local ↦ rw (not_both, local) (pair_lem c 2 7 refl refl refl)
        | inr global ↦ elim (Bool-cases (bit_and mac.m0 1 == 1)) [
          | inl group ↦ rw (not_both, global, group) (pair_lem c 1 8 refl refl refl)
          | inr single ↦ rw (not_both, global, single) (pair_lem c 0 3 refl refl refl)
        ]
      ]
    ]

print_tag-IsHighlight :
    (width : ℤ) (tag : ℕ) → IsHighlight (print_tag width tag false) (print_tag width tag true)
unfolding print_tag ncurses_init pair_content
print_tag-IsHighlight width tag =
    let number_cell : Cell = record {
      text = number (bit_and tag 0xfff);
      pair = 0;
      width = width;
      left = true;
    } in
    let dash_cell : Cell = record number_cell { text = dash } in
    elim (Bool-cases (bit_and tag 0xffff == 0)) [
      | inl untagged ↦ rw untagged (pair_lem dash_cell 4 6 refl refl refl)
      | inr tagged ↦ elim (Bool-cases (bit_and tag 0xf000 == 0)) [
        | inl no_bits ↦ rw (tagged, no_bits) (pair_lem number_cell 0 3 refl refl refl)
        | inr bits ↦ rw (tagged, bits) (pair_lem number_cell 5 9 refl refl refl)
      ]
    ]

-- On a terminal with colours, the row of a device with the cursor on it shows the same five cells as without, each with
-- the same text at the same place and in the same colour, but on black instead of the terminal's own
-- background.
pub print_network_row-AllHighlight :
    (layout : TableLayout) (y : ℕ) (dev : Device)
    → AllHighlight
        (print_network_row layout y dev false).cells
        (print_network_row layout y dev true).cells
unfolding print_network_row print_lastseen ncurses_init pair_content
print_network_row-AllHighlight layout y dev = (
  print_mac-IsHighlight layout dev.mac,
  (
    pair_lem (print_ip layout dev.ip false) 0 3 refl refl refl,
    (
      print_tag-IsHighlight layout.col_width dev.qinq_tag,
      (
        print_tag-IsHighlight (quot layout.col_width 2) dev.dot1q_tag,
        (pair_lem (print_lastseen layout dev.last_seen false) 0 3 refl refl refl, tt),
      ),
    ),
  ),
)
