-- ===== src/App/Main/Table.antt =====
-- The table of devices that the main thread owns, drawn while no popup or the list of interfaces is open.
use net_det.Prelude.{
  ℕ, ◌^◌, ◌<◌, ◌≡◌, refl, Option, List, ◌∷◌, ◌++◌, arith, Run, ok, Bool-cases, inl, inr,
}
use net_det.Core.Device.{Heap}
use net_det.Core.DeviceBuffer.{IsValid, contents}
use net_det.Ui.Table.{DeviceTableView, sync_display_limit}
use net_det.Ui.Table.Rows.{IsBacked, print_network_data-Shows}
use net_det.Ui.Tui.{AppContext}
use net_det.Ui.Templates.{net_det_title, draw_window_frame}
use net_det.Ui.Drawing.{Picture, too_small, draw_table_header, draw, is_too_small}
use net_det.Ui.Popup.Settled.{IsSettled}
use net_det.Ui.Drawing.Lines.{draw_open_popup_ok}
use net_det.App.Main.{main_process, Main, MainAnswers, Shown, picture, draw_main}

-- The table and its view hold the same number of devices, all of them in memory, and there is no popup, or
-- it is the list of interfaces.
pub record IsTable (m : Main) : Type 0 where
  pub backed : IsBacked m.heap m.context.buffer
  pub valid : IsValid m.context.buffer.buffer
  pub narrow : m.context.buffer.view.visible < 2 ^ 31
  pub some_slots : 0 < m.context.buffer.buffer.size
  pub counted : m.context.buffer.view.count ≡ m.context.buffer.buffer.count
  pub popup : IsSettled m.context.screen

-- A context that differs in the number of visible rows alone.
abbrev pub seen : ℕ → AppContext → AppContext
seen v c = record c { buffer = record c.buffer { view = record c.buffer.view { visible = v } } }

draw-seen :
    (scale : ℕ → ℕ → ℕ) (heap : Heap) (c : AppContext)
    → IsBacked heap c.buffer
    → c.buffer.view.visible < 2 ^ 31
    → IsSettled c.screen
    → (v : ℕ) × (p : Picture) × (draw scale heap c ≡ ok (seen v c, p)) × (v < 2 ^ 31)
unfolding draw sync_display_limit
draw-seen scale heap c backed narrow settled =
    let (rows, prints, _, _) = print_network_data-Shows c.current_layout heap c.buffer backed in
    elim (Bool-cases (is_too_small c.screen.main_window)) [
      | inl low ↦ (c.buffer.view.visible, too_small, rw low, narrow)
      | inr high ↦
          let b : DeviceTableView = sync_display_limit c.buffer in
          let (popup, draws) = draw_open_popup_ok scale heap (record c { buffer = b }) settled in
          (
            b.view.visible,
            Picture.contents (record {
              frame = draw_window_frame c.screen.main_window net_det_title;
              headings = draw_table_header c.current_layout;
              rows = rows;
              popup = popup;
            }),
            rw (high, prints, draws),
            ground (arith, backed.size_fits),
          )
    ]

seen-IsTable :
    (m : Main) (v : ℕ) (s : List Shown)
    → IsTable m
    → v < 2 ^ 31
    → IsTable (record m { context = seen v m.context; shown = s })
seen-IsTable m v s t narrow = record {
  backed = record {
    inside = t.backed.inside;
    stored = t.backed.stored;
    fits = t.backed.fits;
    size_fits = t.backed.size_fits;
    live = λ j below.
        let x = t.backed.live j below in
        record { pointer = x.pointer; dev = x.dev; stored = x.stored; there = x.there };
  };
  valid = t.valid;
  narrow = narrow;
  some_slots = t.some_slots;
  counted = t.counted;
  popup = t.popup;
}

-- What a step of the main thread promises: it returns, the table has the devices of before and these
-- behind them, and the devices and the statics are as before.
abbrev pub Adds : List (Option ℕ) → Main → Run Main → Type 0
Adds devices m run =
    (m' : Main) × (run ≡ ok m')
    × IsTable m'
    × (contents m'.context.buffer.buffer ≡ contents m.context.buffer.buffer ++ devices)
    × (m'.heap ≡ m.heap)
    × (main_process m' ≡ main_process m)

pub draw_main-IsTable :
    (answers : MainAnswers) (m : Main)
    → IsTable m
    → (m' : Main) × (draw_main answers m ≡ ok m')
      × IsTable m'
      × (contents m'.context.buffer.buffer ≡ contents m.context.buffer.buffer)
      × (m'.heap ≡ m.heap)
      × (main_process m' ≡ main_process m)
unfolding draw_main
draw_main-IsTable answers m t =
    let (v, p, draws, narrow) =
      draw-seen answers.scale m.heap m.context t.backed t.narrow t.popup in
    (
      record m { context = seen v m.context; shown = picture p ∷ m.shown },
      rw draws,
      seen-IsTable m v (picture p ∷ m.shown) t narrow,
      refl,
      refl,
      refl,
    )
