-- ===== src/Net/RawSocket/Opening.antt =====
-- How `raw_socket_create` and `socket_init` end.
use net_det.Prelude.{
  ℕ, ◌≡◌, refl, ◌∙◌, inl, inr, ◌⊎◌, true, Option, none, some, List, ◌∷◌, arith, returned, exited,
  Bool-cases, ◌==◌,
}
use net_det.Prelude.Int.{ℤ, negsuc, eq_ℤ, eq_ℤ_iff}
use net_det.App.Process.{
  Process, ErrorCode, sigusr1, app_err_setsockopt, app_err_bind, app_err_if_nametoindex,
}
use net_det.Common.Error.{network_error}
use net_det.Platform.Epoll.{watches, epoll_register, watches-epoll_register}
use net_det.Net.RawSocket.{
  Sockets, SocketAnswers, Bound, raw_socket_create, socket_failed, socket_init, watch_socket,
  all_interfaces,
}

-- An error has been reported: it, or one before it, is kept, and the signal thread has been told. Nothing
-- is written to the event bus.
abbrev pub IsReported : Process → Process → Type 0
IsReported p q =
    (q.error_set ≡ true) × (q.signals ≡ sigusr1 ∷ p.signals) × (q.event_bus ≡ p.event_bus)

pub network_error-IsReported :
    (e : ErrorCode) (errno fd : ℤ) (p : Process) → IsReported p (network_error e errno fd p)
unfolding network_error
network_error-IsReported e errno fd p = ground arith

socket_failed-IsReported : (errno : ℤ) (p : Process) → IsReported p (socket_failed errno p)
unfolding socket_failed
socket_failed-IsReported errno p = ground arith

pub raw_socket_create-cases :
    (a : SocketAnswers) (p : Process)
    → (raw_socket_create a p ≡ (p, returned a.socket))
      ⊎ ((q : Process) × (raw_socket_create a p ≡ (q, exited)) × IsReported p q)
unfolding raw_socket_create
raw_socket_create-cases a p = elim (Bool-cases (eq_ℤ a.socket (negsuc 0))) [
  | inl failed ↦ inr (socket_failed a.errno p, simp failed, socket_failed-IsReported a.errno p)
  | inr valid ↦ elim (Bool-cases a.setsockopt) [
    | inr refused ↦ inr (
      network_error app_err_setsockopt a.errno a.socket p,
      simp (valid, refused),
      network_error-IsReported app_err_setsockopt a.errno a.socket p,
    )
    | inl enabled ↦ inl (simp (valid, enabled))
  ]
]

watch_socket-watches :
    (fd : ℤ) (s : Sockets)
    → watches (watch_socket fd s).interest (watch_socket fd s).socket_fd ≡ true
unfolding watch_socket
watch_socket-watches fd s =
    let self : eq_ℤ s.socket_fd s.socket_fd ≡ true = (eq_ℤ_iff s.socket_fd s.socket_fd).1 refl in
    watches-epoll_register (epoll_register s.interest fd) s.socket_fd s.socket_fd ∙ rw self

-- The socket is watched, and bound to the interface that the program is started with, or to all.
abbrev pub IsStarted : SocketAnswers → Option (List ℕ) → Sockets → Type 0
IsStarted a initial s =
    (watches s.interest s.socket_fd ≡ true)
    × (s.bound_to ≡ (elim initial [ none ↦ none | some name ↦ some a.if_nametoindex ]))

-- How `socket_init` ends.
abbrev pub Ends : SocketAnswers → Option (List ℕ) → Process → Bound → Type 0
Ends a initial p b =
    ((b.flow ≡ returned tt) × (b.process ≡ p) × IsStarted a initial b.sockets)
    ⊎ ((b.flow ≡ exited) × IsReported p b.process)

pub socket_init-Ends :
    (a : SocketAnswers) (fd : ℤ) (initial : Option (List ℕ)) (s : Sockets) (p : Process)
    → s.bound_to ≡ none
    → (b : Bound) × (socket_init a fd initial s p ≡ b) × Ends a initial p b
unfolding socket_init
socket_init-Ends a fd none s p all =
    (_, refl, inl (refl, refl, (watch_socket-watches fd s, unfold watch_socket in all)))
socket_init-Ends a fd (some name) s p all = elim (Bool-cases (a.if_nametoindex == 0)) [
  | inl missing ↦ (
    record {
      sockets = s;
      binded_interface = all_interfaces a.strdup;
      process = network_error app_err_if_nametoindex a.errno s.socket_fd p;
      flow = exited;
    },
    simp missing,
    inr (refl, network_error-IsReported app_err_if_nametoindex a.errno s.socket_fd p),
  )
  | inr found ↦ elim (Bool-cases a.bind) [
    | inr refused ↦ (
      record {
        sockets = s;
        binded_interface = all_interfaces a.strdup;
        process = network_error app_err_bind a.errno s.socket_fd p;
        flow = exited;
      },
      simp (found, refused),
      inr (refl, network_error-IsReported app_err_bind a.errno s.socket_fd p),
    )
    | inl binds ↦ (
      record {
        sockets = watch_socket fd (record s { bound_to = some a.if_nametoindex });
        binded_interface = record { if_index = a.if_nametoindex; if_name = a.strdup (some name) };
        process = p;
        flow = returned tt;
      },
      simp (found, binds),
      inl (
        refl,
        refl,
        (
          watch_socket-watches fd (record s { bound_to = some a.if_nametoindex }),
          unfold watch_socket in refl,
        ),
      ),
    )
  ]
]
