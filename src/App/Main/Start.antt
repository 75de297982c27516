-- ===== src/App/Main/Start.antt =====
-- src/app/app_init.c: what the main thread makes before its loop.
use net_det.Prelude.{
  ℕ, Bool, false, true, Option, none, some, List, [], Run, ok, fault, null_dereference,
  if◌then◌else◌,
}
use net_det.Prelude.Int.{ℤ, pos, ◌-ℤ◌}
use net_det.Core.Device.{buffer_initial_size}
use net_det.Platform.Epoll.{epoll_register}
use net_det.App.Process.{app_err_calloc}
use net_det.App.Lifecycle.{MainDescriptors, lifecycle_init}
use net_det.Common.Error.{main_error}
use net_det.Ui.ScrollView.{ScrollView}
use net_det.Ui.Table.{set_column_width}
use net_det.Ui.Screen.{WindowData}
use net_det.Ui.Tui.{viewport_rows}
use net_det.App.Main.{Main, main_process, with_process, stdin_fileno}

-- What the library, the kernel and ncurses answer: descriptors, the main window, the size of the
-- terminal, whether `calloc` finds the buffer's record, and the zeroed array that it finds.
pub record StartAnswers : Type 0 where
  pub epoll_fd : ℤ
  pub fds : MainDescriptors
  pub newwin : Option ℕ
  pub new_panel : Option ℕ
  pub lines : ℤ
  pub cols : ℤ
  pub record_found : Bool
  pub calloc : ℕ → Option (List (Option ℕ))
  pub errno : ℤ

abbrev pub empty_view : ScrollView
empty_view = record { count = 0; head = 0; visible = 0; viewport_capacity = 0; cursor = pos 0 }

abbrev pub window_outer_indent : ℤ
window_outer_indent = pos 5

-- The main window; its height and width are those of the terminal less twice the indent.
unfoldable pub init_main_window : StartAnswers → WindowData
unfolding ◌-ℤ◌
init_main_window answers = record {
  is_active = true;
  start_x = window_outer_indent;
  start_y = window_outer_indent;
  height = answers.lines -ℤ pos 10;
  width = answers.cols -ℤ pos 10;
  window = answers.newwin;
  panel = answers.new_panel;
}

abbrev pub unopened_popup : WindowData
unopened_popup = record {
  is_active = false;
  start_x = pos 0;
  start_y = pos 0;
  width = pos 0;
  height = pos 0;
  window = none;
  panel = none;
}

-- The buffer over the array that `calloc` has found, and its view.
abbrev pub buffered : List (Option ℕ) → Main → Main
buffered items m = record m {
  context = record m.context {
    buffer = record {
      buffer = record { items = items; size = buffer_initial_size; count = 0 };
      view = record empty_view {
        viewport_capacity = viewport_rows m.context.screen.main_window.height;
      };
    };
  };
}

-- `return` after the error leaves the view as it was.
unfoldable pub init_buffer : StartAnswers → Main → Run Main
init_buffer answers m =
    if answers.record_found
    then elim (answers.calloc buffer_initial_size) [
      | none ↦ ok (
          with_process (main_error app_err_calloc answers.errno (main_process m)) (record m {
            context = record m.context {
              buffer = record m.context.buffer {
                buffer = record { items = []; size = buffer_initial_size; count = 0 };
              };
            };
          }))
      | some items ↦ ok (buffered items m)
    ]
    else fault null_dereference

-- The descriptors, the windows and the layout of the table.
abbrev pub set_up : StartAnswers → Main → Main
set_up answers m = record m {
  epoll_fd = answers.epoll_fd;
  interest = epoll_register (lifecycle_init answers.fds []) stdin_fileno;
  fds = answers.fds;
  context = record m.context {
    screen = record m.context.screen {
      main_window = init_main_window answers;
      popup_window = unopened_popup;
    };
    current_layout = set_column_width (init_main_window answers).width;
  };
}

-- `m` is the program before, whose context is zeroed.
unfoldable pub main_init : StartAnswers → Main → Run Main
unfolding init_buffer
main_init answers m = init_buffer answers (set_up answers m)
