-- ===== src/Platform/SignalHandler.antt =====
-- src/platform/signal_handler.c: the thread that waits for signals and ends the other two.
-- `sigwait` is a list of its results. Where the list ends the thread is still waiting.
use mathlib.Core.List.{append-nil}
use net_det.Prelude.{
  ℕ, zero, suc, ◌+◌, ◌≡◌, refl, ap, ◌∙◌, true, Option, none, some, List, [], ◌∷◌, ◌++◌, replicate,
}
use net_det.Core.Device.{UiMessage, ui_resize}
use net_det.App.Process.{
  Process, Signal, sigint, sigwinch, sigusr1, Retval, sigint_end, sigusr1_end,
}
use net_det.App.Lifecycle.{event_bus_publish, lifecycle_request_shutdown, network_request_shutdown}

-- `sigemptyset` and three calls of `sigaddset`
unfoldable pub signal_init : List Signal
signal_init = sigint ∷ sigwinch ∷ sigusr1 ∷ []

-- A result of `sigwait`: not 0, or a signal of the mask.
pub data Sigwait : Type 0 where
  failed : Sigwait
  got : Signal → Sigwait

abbrev pub resize_message : UiMessage
resize_message = record { msg_type = ui_resize; device = none }

-- The loop: the reason it ended for, if it did.
unfoldable pub signal_loop : List Sigwait → Process → Process × Option Retval
signal_loop [] p = (p, none)
signal_loop (failed ∷ ws) p = signal_loop ws p
signal_loop (got sigwinch ∷ ws) p = signal_loop ws (event_bus_publish resize_message p)
signal_loop (got sigint ∷ ws) p = (p, some sigint_end)
signal_loop (got sigusr1 ∷ ws) p = (p, some sigusr1_end)

-- What stands behind the loop.
unfoldable pub finish : Process × Option Retval → Process
unfolding lifecycle_request_shutdown network_request_shutdown
finish (p, none) = p
finish (p, some termination_reason) =
    network_request_shutdown (lifecycle_request_shutdown termination_reason p)

unfoldable pub signal_routine : List Sigwait → Process → Process
unfolding signal_loop event_bus_publish finish
signal_routine ws p = finish (signal_loop ws p)

-- The results hold no signal that ends the thread.
abbrev pub IsQuiet : List Sigwait → Type 0
IsQuiet [] = Unit {0}
IsQuiet (failed ∷ ws) = IsQuiet ws
IsQuiet (got sigwinch ∷ ws) = IsQuiet ws
IsQuiet (got sigint ∷ ws) = ⊥
IsQuiet (got sigusr1 ∷ ws) = ⊥

-- How many window changes are among the results.
abbrev pub window_changes : List Sigwait → ℕ
window_changes [] = 0
window_changes (failed ∷ ws) = window_changes ws
window_changes (got sigwinch ∷ ws) = suc (window_changes ws)
window_changes (got sigint ∷ ws) = window_changes ws
window_changes (got sigusr1 ∷ ws) = window_changes ws

abbrev pub with_resizes : ℕ → Process → Process
with_resizes n p = record p { event_bus = replicate n resize_message ++ p.event_bus }

replicate-shift :
    (n : ℕ) (m : UiMessage) (ms : List UiMessage)
    → replicate n m ++ m ∷ ms ≡ m ∷ replicate n m ++ ms
replicate-shift zero m ms = refl
replicate-shift (suc n) m ms = rw (replicate-shift n m ms)

signal_loop-quiet :
    (ws rest : List Sigwait) (p : Process)
    → IsQuiet ws
    → signal_loop (ws ++ rest) p ≡ signal_loop rest (with_resizes (window_changes ws) p)
unfolding signal_loop event_bus_publish
signal_loop-quiet [] rest p quiet = refl
signal_loop-quiet (failed ∷ ws) rest p quiet = signal_loop-quiet ws rest p quiet
signal_loop-quiet (got sigwinch ∷ ws) rest p quiet =
    signal_loop-quiet ws rest (record p { event_bus = resize_message ∷ p.event_bus }) quiet
    ∙ ap (λ b. signal_loop rest (record p { event_bus = b }))
        (replicate-shift (window_changes ws) resize_message p.event_bus)
signal_loop-quiet (got sigint ∷ ws) rest p quiet = absurd quiet
signal_loop-quiet (got sigusr1 ∷ ws) rest p quiet = absurd quiet

abbrev pub told_to_end : Retval → Process → Process
told_to_end reason p = record p {
  termination_reason = reason;
  end_main_loop = true;
  shutdown_main = p.shutdown_main + 1;
  end_listen_loop = true;
  shutdown_network = p.shutdown_network + 1;
}

-- Results of `sigwait` without SIGINT and SIGUSR1 make the thread publish one UI_RESIZE for each
-- SIGWINCH and do nothing else; the first SIGINT or SIGUSR1 after them makes it set both end flags,
-- wake both loops once, record that signal as the reason and stop, whatever would follow.
pub signal_routine-quiet :
    (ws rest : List Sigwait) (p : Process)
    → IsQuiet ws
    → (signal_routine ws p ≡ with_resizes (window_changes ws) p)
      × (signal_routine (ws ++ got sigint ∷ rest) p
          ≡ told_to_end sigint_end (with_resizes (window_changes ws) p))
      × (signal_routine (ws ++ got sigusr1 ∷ rest) p
          ≡ told_to_end sigusr1_end (with_resizes (window_changes ws) p))
unfolding signal_routine
signal_routine-quiet ws rest p quiet = (
  ap finish waits,
  ap finish (signal_loop-quiet ws (got sigint ∷ rest) p quiet),
  ap finish (signal_loop-quiet ws (got sigusr1 ∷ rest) p quiet),
)
  where
    waits : signal_loop ws p ≡ signal_loop [] (with_resizes (window_changes ws) p)
    waits = rw (append-nil ws) at (signal_loop-quiet ws [] p quiet)
