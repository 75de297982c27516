-- ===== src/Tests/Threads.antt =====
-- Errors and signals.
use net_det.Prelude.{◌≡◌, some, [], ◌∷◌}
use net_det.Prelude.Int.{pos}
use net_det.App.Process.{
  initial, app_err_bind, app_err_timer, sigint, sigwinch, sigusr1, sigint_end, sigusr1_end,
}
use net_det.Common.Error.{
  by_network, by_main, report_all, get_error, error_code_to_text, report_all-first,
}
use net_det.Platform.SignalHandler.{
  failed, got, signal_routine, told_to_end, with_resizes, signal_routine-quiet,
}

report_all-first_example :
    get_error (
      report_all
        (by_network app_err_bind (pos 13) (pos 4) ∷ by_main app_err_timer (pos 5) ∷ [])
        initial)
    ≡ some (pos 13, error_code_to_text app_err_bind)
report_all-first_example =
    report_all-first (by_network app_err_bind (pos 13) (pos 4)) (by_main app_err_timer (pos 5) ∷ [])
      (λ e. cc)

signal_routine-quiet_example :
    (signal_routine (failed ∷ got sigwinch ∷ []) initial ≡ with_resizes 1 initial)
    × (signal_routine (failed ∷ got sigwinch ∷ got sigint ∷ got sigusr1 ∷ []) initial
        ≡ told_to_end sigint_end (with_resizes 1 initial))
    × (signal_routine (failed ∷ got sigwinch ∷ got sigusr1 ∷ got sigusr1 ∷ []) initial
        ≡ told_to_end sigusr1_end (with_resizes 1 initial))
signal_routine-quiet_example =
    signal_routine-quiet (failed ∷ got sigwinch ∷ []) (got sigusr1 ∷ []) initial tt
