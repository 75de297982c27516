-- ===== src/App/Process.antt =====
-- The statics that the threads share: those of src/common/error.c, src/app/lifecycle.c and
-- src/net/network_thread.c. Files and threads outside show in it as logs of the calls made.
use net_det.Prelude.{ℕ, Bool, false, List, []}
use net_det.Prelude.Int.{ℤ, pos}
use net_det.Core.Device.{UiMessage}

-- `error_code` of include/common/error.h
pub data ErrorCode : Type 0 where
  app_err_ancillary_data app_err_bind app_err_calloc app_err_hashmap_store_entry : ErrorCode
  app_err_if_nameindex app_err_if_nametoindex app_err_localtime_r app_err_none : ErrorCode
  app_err_setsockopt app_err_slidingwindowbuffer_store_entry app_err_socket : ErrorCode
  app_err_timer : ErrorCode

-- `retval` of include/platform/signal_handler.h
pub data Retval : Type 0 where
  program_running sigint_end sigusr1_end : Retval

pub data Signal : Type 0 where
  sigint sigwinch sigusr1 : Signal

pub record Process : Type 0 where
  -- `error_set`, `error_app`, `errno_val_app`
  pub error_set : Bool
  pub error_app : ErrorCode
  pub errno_val_app : ℤ
  -- `end_main_loop`, `termination_reason`, and the number of writes to `shutdown_main_fd`
  pub end_main_loop : Bool
  pub termination_reason : Retval
  pub shutdown_main : ℕ
  -- the signals sent to `signal_thread`, newest first
  pub signals : List Signal
  -- the messages written to `pipe_fd[1]`, newest first
  pub event_bus : List UiMessage
  -- `end_listen_loop`, and the number of writes to `shutdown_network_fd`
  pub end_listen_loop : Bool
  pub shutdown_network : ℕ
  -- the descriptors given to `close`, newest first
  pub closed : List ℤ

-- The statics at the start of the program.
abbrev pub initial : Process
initial = record {
  error_set = false;
  error_app = app_err_none;
  errno_val_app = pos 0;
  end_main_loop = false;
  termination_reason = program_running;
  shutdown_main = 0;
  signals = [];
  event_bus = [];
  end_listen_loop = false;
  shutdown_network = 0;
  closed = [];
}
