-- ===== src/App/Main/Started.antt =====
-- The table that `main_init` makes.
use net_det.Prelude.{
  ℕ, ◌≡◌, refl, ap, ◌∙◌, true, false, ◌||◌, none, some, [], arith, length-replicate, replicate,
  Option, ok, inl,
}
use net_det.Prelude.Int.{ℤ, eq_ℤ}
use net_det.Core.Device.{buffer_initial_size}
use net_det.Core.DeviceBuffer.{contents}
use net_det.Platform.Epoll.{watches, epoll_register, watches-epoll_register}
use net_det.App.Lifecycle.{MainDescriptors, lifecycle_init}
use net_det.App.Main.{Main, main_process, stdin_fileno}
use net_det.App.Main.Start.{StartAnswers, buffered, set_up, main_init, init_buffer}
use net_det.App.Main.Table.{IsTable}

first_watches :
    (fds : MainDescriptors) (fd : ℤ)
    → watches (epoll_register (lifecycle_init fds []) stdin_fileno) fd
      ≡ (eq_ℤ stdin_fileno fd || (eq_ℤ fds.pipe_read fd || (eq_ℤ fds.shutdown_main_fd fd || false)))
unfolding lifecycle_init
first_watches fds fd =
    watches-epoll_register (lifecycle_init fds []) stdin_fileno fd
    ∙ ap (λ b. eq_ℤ stdin_fileno fd || b)
        (watches-epoll_register (epoll_register [] fds.shutdown_main_fd) fds.pipe_read fd
          ∙ ap (λ b. eq_ℤ fds.pipe_read fd || b)
              (watches-epoll_register [] fds.shutdown_main_fd fd))

-- Where `is_visible` is set, as the program starts, and `calloc` finds the buffer's record and a zeroed array:
-- the main thread starts without a fault, with an empty table and no popup, and watches the keyboard, the
-- event bus, the descriptor of the end, and nothing else.
pub main_init-IsTable :
    (answers : StartAnswers) (m : Main)
    → m.context.screen.is_visible ≡ true
    → answers.record_found ≡ true
    → answers.calloc buffer_initial_size ≡ some (replicate buffer_initial_size none)
    → (m' : Main) × (main_init answers m ≡ ok m')
      × IsTable m'
      × (contents m'.context.buffer.buffer ≡ [])
      × (m'.heap ≡ m.heap)
      × (main_process m' ≡ main_process m)
      × ((fd : ℤ)
          → watches m'.interest fd ≡ (
              eq_ℤ stdin_fileno fd
              || (eq_ℤ answers.fds.pipe_read fd
                  || (eq_ℤ answers.fds.shutdown_main_fd fd || false))))
unfolding main_init init_buffer
main_init-IsTable answers m visible found zeroed =
    let wide = length-replicate {A = Option ℕ} buffer_initial_size none in
    (
      buffered (replicate buffer_initial_size none) (set_up answers m),
      simp (found, zeroed),
      record {
        backed = record {
          inside = omega arith;
          stored = omega arith;
          fits = omega arith;
          size_fits = omega arith;
          live = λ j below. absurd (omega arith);
        };
        valid = record { allocated = omega (arith, wide); load = omega arith; fits = omega arith };
        narrow = omega arith;
        some_slots = omega arith;
        counted = refl;
        popup = inl (record { inactive = refl; visible = visible });
      },
      refl,
      refl,
      refl,
      λ fd. first_watches answers.fds fd,
    )
