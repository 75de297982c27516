-- ===== src/App/Main.antt =====
-- src/app/main.c, src/app/app_init.c and src/app/app_clean_up.c: the main thread. It owns the table of
-- devices, and hears of the others' work from the event bus.
pub mod Start
pub mod Started
pub mod CleanUp
pub mod Lost
pub mod Table
pub mod NewEntry
pub mod Messages
pub mod Keys
pub mod Moved
pub mod Loop
use net_det.Prelude.{
  ℕ, zero, suc, ◌+◌, ◌%◌, ◌^◌, Bool, true, false, ◌&&◌, Option, none, some, List, [], ◌∷◌, Run, ok,
  ◌>>=◌, at, not_null, if◌then◌else◌,
}
use net_det.Prelude.Int.{ℤ, pos, ◌-ℤ◌, eq_ℤ}
use net_det.Core.Device.{
  Heap, deref, UiMessage, ui_new_entry, ui_update_table, ui_resize, ui_timer_tick,
  buffer_initial_size,
}
use net_det.Core.HashMap.{success, failure}
use Prim.Native.String.{String}
use net_det.Core.DeviceBuffer.{DeviceBuffer, Realloc, device_buffer_store_entry}
use net_det.Platform.Epoll.{epoll_register}
use net_det.App.Process.{Process, Retval, app_err_calloc, app_err_slidingwindowbuffer_store_entry}
use net_det.App.Lifecycle.{
  MainDescriptors, lifecycle_init, lifecycle_cleanup, lifecycle_request_shutdown, get_end_main_loop,
  get_event_bus_fd, get_shutdown_main_fd,
}
use net_det.Common.Error.{main_error, get_error}
use net_det.Net.FrameParser.{release}
use net_det.Ui.Table.{DeviceTableView, Row, table_layout_compute, update_row}
use net_det.Ui.Screen.{WindowData, inspect_list, same_type, PopupAnswers, Screen}
use net_det.Ui.Popup.{data_cleanup}
use net_det.Ui.Tui.{AppContext, Input, input_handler, viewport_rows, resize_handler}
use net_det.Ui.Drawing.{Picture, draw}

-- What goes to the screen: all of it, or the row of a known device, if `update_row` finds it.
pub data Shown : Type 0 where
  picture : Picture → Shown
  row_again : Option Row → Shown

-- The context, the memory of the devices, `epoll_fd` with what it watches, the descriptors of the
-- lifecycle, and what has gone to the screen, newest first.
pub record Main : Type 0 where
  pub context : AppContext
  pub heap : Heap
  pub epoll_fd : ℤ
  pub interest : List ℤ
  pub fds : MainDescriptors
  pub shown : List Shown

-- What the C library and ncurses answer while an event is handled; `scale` is that of the graph, and
-- `lines` and `cols` are the size of the terminal.
pub record MainAnswers : Type 0 where
  pub scale : ℕ → ℕ → ℕ
  pub realloc : Realloc
  pub popup : PopupAnswers
  pub lines : ℤ
  pub cols : ℤ
  pub errno : ℤ

abbrev pub main_process : Main → Process
main_process m = m.context.screen.process

abbrev pub with_process : Process → Main → Main
with_process p m = record m {
  context = record m.context { screen = record m.context.screen { process = p } };
}

abbrev pub with_buffer : DeviceBuffer → Main → Main
with_buffer b m = record m {
  context = record m.context { buffer = record m.context.buffer { buffer = b } };
}

-- `variables.buffer.view.count++`
abbrev pub raise_count : Main → Main
raise_count m = record m {
  context = record m.context {
    buffer = record m.context.buffer {
      view = record m.context.buffer.view { count = (m.context.buffer.view.count + 1) % 2 ^ 32 };
    };
  };
}

unfoldable pub draw_main : MainAnswers → Main → Run Main
draw_main answers m = do
  drawn ← draw answers.scale m.heap m.context
  ok (record m { context = drawn.0; shown = picture drawn.1 ∷ m.shown })

-- A new entry: its device, by which the buffer has one more, also where the buffer could not take it.
unfoldable pub handle_new_entry : MainAnswers → Option ℕ → Main → Run Main
unfolding draw_main
handle_new_entry answers dev m = do
  stored ← device_buffer_store_entry answers.realloc m.context.buffer.buffer dev
  elim stored.0 [
    | success ↦ draw_main answers (raise_count (with_buffer stored.1 m))
    | failure ↦ draw_main answers (
        raise_count (
          with_process
            (main_error app_err_slidingwindowbuffer_store_entry answers.errno (main_process m))
            (with_buffer stored.1 m)))
  ]

unfoldable pub handle_update : Option ℕ → Main → Run Main
handle_update dev m = do
  row ← update_row m.context.current_layout m.heap m.context.buffer dev
  ok (record m { shown = row_again row ∷ m.shown })

unfoldable pub handle_tick : MainAnswers → Main → Run Main
unfolding draw_main
handle_tick answers m =
    if m.context.screen.popup_window.is_active && same_type m.context.screen.popup_type inspect_list
    then draw_main answers m
    else ok m

-- The switch over the type of a message. The two types about a device carry a pointer to it.
unfoldable pub handle_message : MainAnswers → UiMessage → Main → Run Main
unfolding handle_new_entry handle_update handle_tick draw_main
handle_message answers msg m = elim msg.msg_type [
  | ui_new_entry ↦ handle_new_entry answers msg.device m
  | ui_update_table ↦ handle_update msg.device m
  | ui_resize ↦
      draw_main answers (record m { context = resize_handler answers.lines answers.cols m.context })
  | ui_timer_tick ↦ handle_tick answers m
]

-- A ready descriptor, and what there is to read from it.
pub record MainEvent : Type 0 where
  pub fd : ℤ
  pub msg : UiMessage
  pub input : Input
  pub answers : MainAnswers

abbrev pub stdin_fileno : ℤ
stdin_fileno = pos 0

-- A key from the keyboard.
unfoldable pub handle_key : MainAnswers → Input → Main → Run Main
unfolding draw_main
handle_key answers input m = do
  c ← input_handler answers.scale m.heap answers.popup input m.context
  draw_main answers (record m { context = c })

unfoldable pub handle_main_event : MainEvent → Main → Run Main
unfolding handle_message handle_key
handle_main_event e m =
    if eq_ℤ e.fd (get_event_bus_fd m.fds)
    then handle_message e.answers e.msg m
    else (if eq_ℤ e.fd stdin_fileno
        then handle_key e.answers e.input m
        else (if eq_ℤ e.fd (get_shutdown_main_fd m.fds) then ok m else ok m))

unfoldable pub handle_main_events : List MainEvent → Main → Run Main
unfolding handle_main_event
handle_main_events [] m = ok m
handle_main_events (e ∷ es) m = handle_main_event e m >>= λ n. handle_main_events es n

-- One turn of the loop, and what the other threads have done before it: the end that was requested, and
-- the memory as the network thread has left it.
pub record MainRound : Type 0 where
  pub end : Option Retval
  pub heap : Heap
  pub events : List MainEvent

unfoldable pub main_others : MainRound → Main → Main
unfolding lifecycle_request_shutdown
main_others r m =
    let n : Main = record m { heap = r.heap } in
    elim r.end [
      | none ↦ n
      | some reason ↦ with_process (lifecycle_request_shutdown reason (main_process n)) n
    ]

-- `free` of the first `view.count` entries from entry `i` on; a null pointer is passed over.
unfoldable pub free_devices : ℕ → ℕ → List (Option ℕ) → Heap → Run Heap
free_devices zero i items heap = ok heap
free_devices (suc rounds) i items heap = do
  item ← at items i
  heap' ← elim item [ none ↦ ok heap | some p ↦ deref heap p >>= λ dev. ok (release heap p) ]
  free_devices rounds (i + 1) items heap'

-- The main loop, and how it stands after the rounds: it still runs, or the end was requested.
unfoldable pub main_loop : List MainRound → Main → Run (Main × Bool)
unfolding main_others handle_main_events
main_loop [] m = ok (m, false)
main_loop (r ∷ rs) m =
    let n : Main = main_others r m in
    if get_end_main_loop (main_process n)
    then ok (n, true)
    else (handle_main_events r.events n >>= λ n'. main_loop rs n')

-- The statics after `lifecycle_cleanup` and the close of `epoll_fd`.
abbrev pub closed_process : Main → Process
closed_process m =
    let p : Process = lifecycle_cleanup m.fds (main_process m) in
    record p { closed = m.epoll_fd ∷ p.closed }

abbrev pub ended : Heap → Screen → Main → Main
ended heap s m = record m {
  heap = heap;
  context = record m.context {
    buffer = record m.context.buffer { buffer = record m.context.buffer.buffer { items = [] } };
    screen = s;
  };
}

-- The threads have been joined. The result is the report of `get_error`; ncurses' windows are left out.
unfoldable pub main_clean_up : Main → Run (Main × Option (ℤ × String))
unfolding free_devices data_cleanup
main_clean_up m = do
  let table : DeviceTableView = m.context.buffer
  let s : Screen = record m.context.screen { process = closed_process m }
  heap ← free_devices table.view.count 0 table.buffer.items m.heap
  s' ← if s.popup_window.is_active then data_cleanup s.popup_type s else ok s
  ok (ended heap s' m, get_error s'.process)
