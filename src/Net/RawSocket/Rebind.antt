-- ===== src/Net/RawSocket/Rebind.antt =====
-- What `change_bind` leaves behind, whatever the kernel answers.
use net_det.Prelude.{
  ℕ, ◌-◌, ◌^◌, ◌≡◌, refl, Bool, true, false, ◌&&◌, ◌||◌, Option, none, some, List, ◌∷◌, [], arith,
  ok, inl, inr, ◌⊎◌, returned, exited, sym, ◌∙◌, ap, ◌==◌, Bool-cases, if◌then◌else◌,
}
use net_det.Prelude.Int.{ℤ, negsuc, eq_ℤ, eq_ℤ_iff}
use net_det.App.Process.{
  Process, ErrorCode, sigusr1, app_err_setsockopt, app_err_if_nametoindex, app_err_bind,
}
use net_det.Common.Error.{network_error, network_error-event_bus}
use net_det.Platform.Epoll.{
  watches, epoll_unregister, epoll_register, watches-epoll_register, watches-epoll_unregister,
}
use net_det.Ui.Screen.{IfEntry}
use net_det.Net.RawSocket.{
  Sockets, SocketAnswers, Bound, text_eq, socket_failed, is_all, bind_interface, change_bind,
}

-- The interface that is asked for, or `none` for all of them.
abbrev pub wanted : IfEntry → List ℕ → Option ℕ
wanted entry name =
    if entry.if_index == 2 ^ 32 - 1 && text_eq name (97 ∷ 108 ∷ 108 ∷ [])
    then none
    else some entry.if_index

-- What is watched once the old socket is not: all that was, and nothing else.
abbrev pub watched_still : Sockets → ℤ → Bool
watched_still s q = if eq_ℤ s.socket_fd q then false else watches s.interest q

-- The thread goes on with the new socket, which is watched and bound to the interface that is asked for;
-- the old socket is closed, and no other descriptor. Every other descriptor is watched as before.
pub record IsRebound (answers : SocketAnswers) (entry : IfEntry) (name : List ℕ) (s : Sockets)
    (p : Process) (b : Bound) : Type 0 where
  pub goes_on : b.flow ≡ returned tt
  pub opened : b.sockets.socket_fd ≡ answers.socket
  pub watched : watches b.sockets.interest answers.socket ≡ true
  pub others : (q : ℤ) → watches b.sockets.interest q ≡ eq_ℤ answers.socket q || watched_still s q
  pub same_interface : b.binded_interface ≡ entry
  pub bound : b.sockets.bound_to ≡ wanted entry name
  pub closed : b.process ≡ record p { closed = s.socket_fd ∷ p.closed }

-- The thread ends with an error: the main thread is told by SIGUSR1, no socket is watched, and the old
-- socket is closed, and the new one, if there is one. Nothing is written to the event bus.
pub record IsGivenUp (answers : SocketAnswers) (s : Sockets) (p : Process) (b : Bound)
    : Type 0 where
  pub ends : b.flow ≡ exited
  pub unwatched : watches b.sockets.interest answers.socket ≡ false
  pub others : (q : ℤ) → watches b.sockets.interest q ≡ watched_still s q
  pub error : b.process.error_set ≡ true
  pub told : b.process.signals ≡ sigusr1 ∷ p.signals
  pub published : b.process.event_bus ≡ p.event_bus
  pub closed : b.process.closed ≡ (
      if eq_ℤ answers.socket (negsuc 0)
      then s.socket_fd ∷ p.closed
      else answers.socket ∷ s.socket_fd ∷ p.closed)

network_error_lem :
    (answers : SocketAnswers) (s : Sockets) (p : Process) (b : Bound) (error : ErrorCode)
    → eq_ℤ answers.socket (negsuc 0) ≡ false
    → watches b.sockets.interest answers.socket ≡ false
    → ((q : ℤ) → watches b.sockets.interest q ≡ watched_still s q)
    → b.flow ≡ exited
    → b.process
      ≡ network_error error answers.errno answers.socket
          (record p { closed = s.socket_fd ∷ p.closed })
    → IsGivenUp answers s p b
unfolding network_error
network_error_lem answers s p b error valid unwatched others ends told =
    let bus =
      network_error-event_bus error answers.errno answers.socket
        (record p { closed = s.socket_fd ∷ p.closed }) in
    ground arith

socket_failed_lem :
    (answers : SocketAnswers) (s : Sockets) (p : Process) (b : Bound)
    → eq_ℤ answers.socket (negsuc 0) ≡ true
    → watches b.sockets.interest answers.socket ≡ false
    → ((q : ℤ) → watches b.sockets.interest q ≡ watched_still s q)
    → b.flow ≡ exited
    → b.process ≡ socket_failed answers.errno (record p { closed = s.socket_fd ∷ p.closed })
    → IsGivenUp answers s p b
unfolding socket_failed
socket_failed_lem answers s p b failed unwatched others ends told = ground arith

module _ (answers : SocketAnswers) (entry : IfEntry) (name : List ℕ) (s : Sockets) (p : Process)
    (named : entry.if_name ≡ some name)
    (fresh : watches (epoll_unregister s.interest s.socket_fd) answers.socket ≡ false) where
  abbrev shut : Process
  shut = record p { closed = s.socket_fd ∷ p.closed }

  abbrev opened : Sockets
  opened = record {
    socket_fd = answers.socket;
    interest = epoll_unregister s.interest s.socket_fd;
    bound_to = none;
  }

  still : (q : ℤ) → watches opened.interest q ≡ watched_still s q
  still q = watches-epoll_unregister s.interest s.socket_fd q

  rewatched_others :
      (q : ℤ)
      → watches (epoll_register opened.interest answers.socket) q
        ≡ eq_ℤ answers.socket q || watched_still s q
  rewatched_others q =
      watches-epoll_register opened.interest answers.socket q
      ∙ ap (λ w. eq_ℤ answers.socket q || w) (still q)

  rewatched : watches (epoll_register opened.interest answers.socket) answers.socket ≡ true
  rewatched =
      let self : eq_ℤ answers.socket answers.socket ≡ true =
        (eq_ℤ_iff answers.socket answers.socket).1 refl in
      watches-epoll_register opened.interest answers.socket answers.socket ∙ rw self

  -- The thread gives up with this error, after the socket has been opened.
  abbrev given_up : ErrorCode → Bound
  given_up error = record {
    sockets = opened;
    binded_interface = entry;
    process = network_error error answers.errno answers.socket shut;
    flow = exited;
  }

  given_up-IsGivenUp :
      (error : ErrorCode)
      → eq_ℤ answers.socket (negsuc 0) ≡ false
      → IsGivenUp answers s p (given_up error)
  given_up-IsGivenUp error valid =
      network_error_lem answers s p (given_up error) error valid fresh still refl refl

  abbrev rebound : Option ℕ → Bound
  rebound interface = record {
    sockets = record opened {
      interest = epoll_register opened.interest answers.socket;
      bound_to = interface;
    };
    binded_interface = entry;
    process = shut;
    flow = returned tt;
  }

  abbrev no_socket : Bound
  no_socket = record {
    sockets = opened;
    binded_interface = entry;
    process = socket_failed answers.errno shut;
    flow = exited;
  }

  rebound-IsRebound :
      (interface : Option ℕ)
      → wanted entry name ≡ interface
      → IsRebound answers entry name s p (rebound interface)
  rebound-IsRebound interface asked = record {
    goes_on = refl;
    opened = refl;
    watched = rewatched;
    others = rewatched_others;
    same_interface = refl;
    bound = sym asked;
    closed = refl;
  }

  abbrev Settled : Bound → Type 0
  Settled b = IsRebound answers entry name s p b ⊎ IsGivenUp answers s p b

  bind_interface-Settled :
      eq_ℤ answers.socket (negsuc 0) ≡ false
      → wanted entry name ≡ some entry.if_index
      → (b : Bound) × (bind_interface answers entry opened shut ≡ b) × Settled b
  unfolding bind_interface
  bind_interface-Settled valid one = elim (Bool-cases (entry.if_index == 0)) [
    | inl nothing ↦ (
      given_up app_err_if_nametoindex,
      simp nothing,
      inr (given_up-IsGivenUp app_err_if_nametoindex valid),
    )
    | inr real ↦ elim (Bool-cases answers.bind) [
      | inr refused ↦
          (given_up app_err_bind, simp (real, refused), inr (given_up-IsGivenUp app_err_bind valid))
      | inl binds ↦ (
        rebound (some entry.if_index),
        simp (real, binds),
        inl (rebound-IsRebound (some entry.if_index) one),
      )
    ]
  ]

  abbrev asks_all : Bool
  asks_all = entry.if_index == 2 ^ 32 - 1 && text_eq name (97 ∷ 108 ∷ 108 ∷ [])

  is_all_lem : is_all entry ≡ ok asks_all
  unfolding is_all
  is_all_lem = elim (Bool-cases (entry.if_index == 2 ^ 32 - 1)) [
    | inl last ↦ rw (last, named)
    | inr other ↦ rw other
  ]

  -- The socket has been opened and `setsockopt` has succeeded.
  change_bind_opened :
      eq_ℤ answers.socket (negsuc 0) ≡ false
      → answers.setsockopt ≡ true
      → change_bind answers entry s p
        ≡ (if asks_all then ok (rebound none) else ok (bind_interface answers entry opened shut))
  unfolding change_bind
  change_bind_opened valid enabled = simp (valid, enabled, is_all_lem)

  -- Where the bound interface has a name, and the kernel gives no descriptor that is still watched:
  -- whatever else it answers, `change_bind` meets no fault, and either goes on with a new socket that is
  -- watched and bound to the interface that is asked for, with the old socket closed, every other descriptor
  -- watched as before and nothing else changed, or ends the thread with an error, with the main thread told
  -- and the sockets closed.
  pub change_bind-IsRebound :
      (b : Bound) × (change_bind answers entry s p ≡ ok b)
      × (IsRebound answers entry name s p b ⊎ IsGivenUp answers s p b)
  unfolding change_bind
  change_bind-IsRebound = elim (Bool-cases (eq_ℤ answers.socket (negsuc 0))) [
    | inl failed ↦ (
      no_socket,
      simp failed,
      inr (socket_failed_lem answers s p no_socket failed fresh still refl refl),
    )
    | inr valid ↦ elim (Bool-cases answers.setsockopt) [
      | inr refused ↦ (
        given_up app_err_setsockopt,
        simp (valid, refused),
        inr (given_up-IsGivenUp app_err_setsockopt valid),
      )
      | inl enabled ↦ elim (Bool-cases asks_all) [
        | inl all ↦ (
          rebound none,
          change_bind_opened valid enabled ∙ rw all,
          inl (rebound-IsRebound none (rw all)),
        )
        | inr one ↦
            let (b, binds, settled) = bind_interface-Settled valid (rw one) in
            (b, change_bind_opened valid enabled ∙ rw one (ap ok binds), settled)
      ]
    ]
  ]
