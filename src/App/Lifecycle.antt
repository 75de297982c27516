-- ===== src/App/Lifecycle.antt =====
-- src/app/lifecycle.c, and `network_request_shutdown` of src/net/network_thread.c.
use net_det.Prelude.{◌+◌, Bool, true, List, ◌∷◌}
use net_det.Prelude.Int.{ℤ}
use net_det.Platform.Epoll.{epoll_register}
use net_det.Core.Device.{UiMessage}
use net_det.App.Process.{Process, Retval, sigusr1}

unfoldable pub lifecycle_request_shutdown : Retval → Process → Process
lifecycle_request_shutdown reason p = record p {
  termination_reason = reason;
  end_main_loop = true;
  shutdown_main = p.shutdown_main + 1;
}

unfoldable pub get_end_main_loop : Process → Bool
get_end_main_loop p = p.end_main_loop

unfoldable pub lifecycle_notify_fatal_error : Process → Process
lifecycle_notify_fatal_error p = record p { signals = sigusr1 ∷ p.signals }

unfoldable pub event_bus_publish : UiMessage → Process → Process
event_bus_publish msg p = record p { event_bus = msg ∷ p.event_bus }

unfoldable pub network_request_shutdown : Process → Process
network_request_shutdown p = record p {
  end_listen_loop = true;
  shutdown_network = p.shutdown_network + 1;
}

-- `pipe_fd` and `shutdown_main_fd`, as `pipe` and `eventfd` gave them.
pub record MainDescriptors : Type 0 where
  pub pipe_read : ℤ
  pub pipe_write : ℤ
  pub shutdown_main_fd : ℤ

abbrev pub get_shutdown_main_fd : MainDescriptors → ℤ
get_shutdown_main_fd fds = fds.shutdown_main_fd

abbrev pub get_event_bus_fd : MainDescriptors → ℤ
get_event_bus_fd fds = fds.pipe_read

-- What the main thread's epoll instance watches; the signal thread is started too.
unfoldable pub lifecycle_init : MainDescriptors → List ℤ → List ℤ
unfolding epoll_register
lifecycle_init fds interest =
    epoll_register (epoll_register interest fds.shutdown_main_fd) fds.pipe_read

unfoldable pub lifecycle_cleanup : MainDescriptors → Process → Process
lifecycle_cleanup fds p = record p {
  closed = fds.shutdown_main_fd ∷ fds.pipe_write ∷ fds.pipe_read ∷ p.closed;
}
