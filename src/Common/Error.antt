-- ===== src/Common/Error.antt =====
-- src/common/error.c: the first error that is reported is the one that is kept.
use Prim.Native.String.{String}
use net_det.Prelude.{
  Bool-cases, inl, inr, ◌≡◌, refl, ◌∙◌, ◌≢◌, true, false, Option, none, some, List, [], ◌∷◌, arith,
  if◌then◌else◌,
}
use net_det.Prelude.Int.{ℤ}
use net_det.App.Process
use net_det.App.Process.{Process, ErrorCode, app_err_none, sigusr1}
use net_det.App.Lifecycle.{lifecycle_notify_fatal_error}

pub error_code_to_text : ErrorCode → String
error_code_to_text Process.app_err_ancillary_data =
    "Ancillary data are not available. Try disabling RX VLAN offload for that interface, or rebuild against newer Linux headers."
error_code_to_text Process.app_err_bind = "bind() failed"
error_code_to_text Process.app_err_calloc = "calloc() failed"
error_code_to_text Process.app_err_hashmap_store_entry = "hashmap_store_entry() failed"
error_code_to_text Process.app_err_if_nameindex = "if_nameindex() failed"
error_code_to_text Process.app_err_if_nametoindex = "if_nametoindex() failed"
error_code_to_text Process.app_err_localtime_r = "localtime_r() failed"
error_code_to_text Process.app_err_none = "no error"
error_code_to_text Process.app_err_setsockopt = "setsockopt() failed"
error_code_to_text Process.app_err_slidingwindowbuffer_store_entry =
    "slidingwindowbuffer_store_entry() failed"
error_code_to_text Process.app_err_socket = "socket() failed"
error_code_to_text Process.app_err_timer = "timer() failed"

-- The compare-and-exchange succeeds if the flag is still false.
unfoldable pub set_error : ErrorCode → ℤ → Process → Process
set_error error errno p =
    if p.error_set
    then p
    else record p { error_set = true; error_app = error; errno_val_app = errno }

-- What is printed: the `errno` that `perror` reads, and the text given to it.
unfoldable pub get_error : Process → Option (ℤ × String)
unfolding error_code_to_text
get_error p = elim p.error_app [
  | Process.app_err_none ↦ none
  | error ↦ some (p.errno_val_app, error_code_to_text error)
]

-- The effects before `pthread_exit`, which ends the calling thread.
unfoldable pub network_error : ErrorCode → ℤ → ℤ → Process → Process
unfolding set_error lifecycle_notify_fatal_error
network_error error errno socket p =
    let q = set_error error errno p in
    lifecycle_notify_fatal_error (record q { closed = socket ∷ q.closed })

unfoldable pub main_error : ErrorCode → ℤ → Process → Process
unfolding set_error lifecycle_notify_fatal_error
main_error error errno p = lifecycle_notify_fatal_error (set_error error errno p)

pub network_error-event_bus :
    (error : ErrorCode) (errno socket : ℤ) (p : Process)
    → (network_error error errno socket p).event_bus ≡ p.event_bus
unfolding network_error set_error
network_error-event_bus error errno socket p = elim (Bool-cases p.error_set) [
  | inl set ↦ rw set
  | inr unset ↦ rw unset
]

-- Any sequence of reports, by either thread.
pub data Report : Type 0 where
  by_network : ErrorCode → ℤ → ℤ → Report
  by_main : ErrorCode → ℤ → Report

unfoldable pub report : Report → Process → Process
unfolding network_error main_error
report (by_network error errno socket) = network_error error errno socket
report (by_main error errno) = main_error error errno

unfoldable pub report_all : List Report → Process → Process
report_all [] p = p
report_all (r ∷ rs) p = report_all rs (report r p)

abbrev code_of : Report → ErrorCode
code_of (by_network error errno socket) = error
code_of (by_main error errno) = error

abbrev errno_of : Report → ℤ
errno_of (by_network error errno socket) = errno
errno_of (by_main error errno) = errno

-- A report after the first changes no part of the error that is kept.
abbrev SameError : Process → Process → Type 0
SameError p q =
    (q.error_set ≡ p.error_set) × (q.error_app ≡ p.error_app) × (q.errno_val_app ≡ p.errno_val_app)

report-SameError : (r : Report) (p : Process) → p.error_set ≡ true → SameError p (report r p)
unfolding report
report-SameError (by_network error errno socket) p set = ground arith
report-SameError (by_main error errno) p set = ground arith

report_first :
    (r : Report) (p : Process)
    → p.error_set ≡ false
    → ((report r p).error_set ≡ true)
      × ((report r p).error_app ≡ code_of r)
      × ((report r p).errno_val_app ≡ errno_of r)
unfolding report
report_first (by_network error errno socket) p unset = ground arith
report_first (by_main error errno) p unset = ground arith

get_error-some :
    (p : Process)
    → p.error_app ≢ app_err_none
    → get_error p ≡ some (p.errno_val_app, error_code_to_text p.error_app)
unfolding get_error
get_error-some p some_error = ground arith

report_all-SameError :
    (rs : List Report) (p : Process) → p.error_set ≡ true → SameError p (report_all rs p)
unfolding report_all
report_all-SameError [] p set = (refl, refl, refl)
report_all-SameError (r ∷ rs) p set =
    let (same_set, same_app, same_val) = report-SameError r p set in
    let (all_set, all_app, all_val) = report_all-SameError rs (report r p) (same_set ∙ set) in
    (all_set ∙ same_set, all_app ∙ same_app, all_val ∙ same_val)

-- Of any reports after the start, by the network thread or the main thread, the first is what
-- `get_error` prints at the end, unless its code is APP_ERR_NONE.
pub report_all-first :
    (r : Report) (rs : List Report)
    → code_of r ≢ app_err_none
    → get_error (report_all (r ∷ rs) Process.initial)
      ≡ some (errno_of r, error_code_to_text (code_of r))
unfolding report_all
report_all-first r rs some_error =
    let (set, app, val) = report_first r Process.initial refl in
    let (_, all_app, all_val) = report_all-SameError rs (report r Process.initial) set in
    rw (
      get_error-some (report_all rs (report r Process.initial)) (rw (all_app, app) some_error),
      all_app,
      all_val,
      app,
      val,
    )
