-- ===== src/Ui/Tui/Resized.antt =====
-- What `resize_handler` makes of the size of the terminal.
use net_det.Prelude.{ℕ, ◌-◌, ◌^◌, ◌<◌, ◌≡◌, arith, ltb, ◌==◌, if◌then◌else◌}
use net_det.Prelude.Int.{ℤ, pos, ◌-ℤ◌}
use net_det.Ui.Tui.{AppContext, viewport_rows, resize_handler}

-- The number of rows of the table after a resize: 13 fewer than the terminal's lines, or none on a
-- terminal of less than 12 lines; but on one of 12 lines it wraps around to 2^32 - 1.
pub resize_handler-viewport_rows :
    (lines : ℕ) (cols : ℤ) (c : AppContext)
    → lines < 2 ^ 31
    → (resize_handler (pos lines) cols c).buffer.view.viewport_capacity
      ≡ (if ltb lines 12 then 0 else if lines == 12 then 2 ^ 32 - 1 else lines - 13)
unfolding resize_handler viewport_rows ◌-ℤ◌
resize_handler-viewport_rows lines cols c fits = ground arith
