-- ===== src/Net/NetworkThread/Routine.antt =====
-- `network_init`, `network_routine` and `network_clean_up` of src/net/network_thread.c: the life of the
-- network thread. `epoll_wait` answers each round of the loop with a list of descriptors that are ready.
pub mod Events
pub mod Rounds
pub mod Started
use net_det.Prelude.{
  Bool, true, false, ℕ, Option, none, some, List, [], ◌∷◌, Run, ok, ◌>>=◌, Flow, returned, exited,
  if◌then◌else◌,
}
use net_det.Prelude.Int.{ℤ, eq_ℤ}
use net_det.Core.Device.{Heap, buffer_initial_size}
use net_det.Core.HashMap.{HashEntry, HashMap}
use net_det.App.Process.{Process, app_err_calloc}
use net_det.App.Lifecycle.{network_request_shutdown}
use net_det.Common.Error.{network_error}
use net_det.Platform.Epoll.{epoll_register}
use net_det.Ui.Screen.{IfEntry}
use net_det.Net.RawSocket.{
  Sockets, SocketAnswers, Bound, raw_socket_create, socket_init, socket_cleanup, change_bind,
  all_interfaces,
}
use net_det.Net.NetworkThread.{
  Network, FrameAnswers, Step, handle_incoming_frame, handle_timer_tick,
}

-- The locals of `network_routine`, and the statics that it works on.
pub record NetworkThread : Type 0 where
  pub network : Network
  pub sockets : Sockets
  pub epoll_fd : ℤ
  pub timer_fd : ℤ
  pub shutdown_network_fd : ℤ
  pub bind_update_fd : ℤ
  pub binded_interface : IfEntry

-- The descriptors that `eventfd` (twice), `timerfd_create` and `epoll_create1` return, the first table
-- that `calloc` returns, and the answers about the socket.
pub record InitAnswers : Type 0 where
  pub shutdown_network_fd : ℤ
  pub bind_update_fd : ℤ
  pub timer_fd : ℤ
  pub epoll_fd : ℤ
  pub calloc : ℕ → Option (List HashEntry)
  pub socket : SocketAnswers

-- The statics after `network_init`, and the thread, unless it has ended.
pub record Initialised : Type 0 where
  pub process : Process
  pub binded_interface : IfEntry
  pub flow : Flow NetworkThread

-- What the epoll instance watches before `socket_init`.
unfoldable pub first_interest : InitAnswers → List ℤ
unfolding epoll_register
first_interest answers =
    epoll_register (epoll_register [] answers.shutdown_network_fd) answers.timer_fd

-- The end of `network_init`: the empty map. `heap` is the memory of the program.
unfoldable pub init_map : InitAnswers → Heap → Bound → Initialised
init_map answers heap b = elim (answers.calloc buffer_initial_size) [
  | none ↦ record {
    process = network_error app_err_calloc answers.socket.errno b.sockets.socket_fd b.process;
    binded_interface = b.binded_interface;
    flow = exited;
  }
  | some table ↦ record {
    process = b.process;
    binded_interface = b.binded_interface;
    flow = returned (record {
      network = record {
        map = record { table = table; size = buffer_initial_size; count = 0 };
        heap = heap;
        process = b.process;
      };
      sockets = b.sockets;
      epoll_fd = answers.epoll_fd;
      timer_fd = answers.timer_fd;
      shutdown_network_fd = answers.shutdown_network_fd;
      bind_update_fd = answers.bind_update_fd;
      binded_interface = b.binded_interface;
    });
  }
]

-- `entry` is the static `binded_interface` before the call.
unfoldable pub network_init : InitAnswers → Option (List ℕ) → IfEntry → Heap → Process → Initialised
unfolding first_interest init_map
network_init answers initial_interface entry heap p =
    let created = raw_socket_create answers.socket p in
    elim created.1 [
      | exited ↦ record { process = created.0; binded_interface = entry; flow = exited }
      | returned socket_fd ↦
          let b : Bound =
            socket_init answers.socket answers.bind_update_fd initial_interface
              (record { socket_fd = socket_fd; interest = first_interest answers; bound_to = none })
              created.0 in
          elim b.flow [
            | exited ↦ record {
              process = b.process;
              binded_interface = b.binded_interface;
              flow = exited;
            }
            | returned _ ↦ init_map answers heap b
          ]
    ]

-- A descriptor that is ready, and what the kernel and the C library answer while it is handled.
pub record Event : Type 0 where
  pub fd : ℤ
  pub frame : FrameAnswers
  pub socket : SocketAnswers
  pub read_all : Bool
  pub errno : ℤ

abbrev pub get_bind_update_fd : NetworkThread → ℤ
get_bind_update_fd t = t.bind_update_fd

abbrev pub ThreadStep : Type 0
ThreadStep = Run (NetworkThread × Flow (Unit {0}))

unfoldable pub handle_bind_update : SocketAnswers → NetworkThread → ThreadStep
handle_bind_update answers t = do
  b ← change_bind answers t.binded_interface t.sockets t.network.process
  ok (record t { network = record t.network { process = b.process }; sockets = b.sockets }, b.flow)

abbrev on_network : NetworkThread → Step → ThreadStep
on_network t step = step >>= λ r. ok (record t { network = r.0 }, r.1)

-- The body of the loop over `events`.
unfoldable pub handle_event : Event → NetworkThread → ThreadStep
unfolding handle_bind_update
handle_event e t =
    if eq_ℤ e.fd t.sockets.socket_fd
    then on_network t (handle_incoming_frame e.frame t.sockets.socket_fd t.network)
    else (if eq_ℤ e.fd (get_bind_update_fd t)
        then handle_bind_update e.socket t
        else (if eq_ℤ e.fd t.timer_fd
            then on_network t (handle_timer_tick e.read_all e.errno t.sockets.socket_fd t.network)
            else ok (t, returned tt)))

unfoldable pub handle_events : List Event → NetworkThread → ThreadStep
handle_events [] t = ok (t, returned tt)
handle_events (e ∷ es) t = do
  r ← handle_event e t
  elim r.1 [ exited ↦ ok r | returned _ ↦ handle_events es r.0 ]

unfoldable pub network_clean_up : NetworkThread → NetworkThread
unfolding socket_cleanup
network_clean_up t =
    let p : Process = socket_cleanup t.bind_update_fd t.network.process in
    record t {
      network = record t.network {
        map = record t.network.map { table = [] };
        process = record p {
          closed = t.shutdown_network_fd ∷ t.timer_fd ∷ t.epoll_fd ∷ t.sockets.socket_fd ∷ p.closed;
        };
      };
    }

-- A round of the loop: whether `network_request_shutdown` has been called before the test of the flag,
-- the interface that the main thread has chosen, if any, and the events.
pub record Round : Type 0 where
  pub shutdown : Bool
  pub chosen : Option IfEntry
  pub events : List Event

-- How the thread stands: it waits for events, it has cleaned up, or it has ended by `pthread_exit`.
pub data Standing : Type 0 where
  waiting finished gave_up : Standing

-- What the other threads have done.
unfoldable pub others : Round → NetworkThread → NetworkThread
unfolding network_request_shutdown
others r t = record t {
  network = record t.network {
    process = if r.shutdown then network_request_shutdown t.network.process else t.network.process;
  };
  binded_interface = elim r.chosen [ none ↦ t.binded_interface | some entry ↦ entry ];
}

-- The loop of `network_routine` and what follows it.
unfoldable pub network_loop : List Round → NetworkThread → Run (NetworkThread × Standing)
network_loop [] t = ok (t, waiting)
network_loop (r ∷ rs) t =
    let u : NetworkThread = others r t in
    if u.network.process.end_listen_loop
    then ok (network_clean_up u, finished)
    else (handle_events r.events u >>= λ x. elim x.1 [
      | exited ↦ ok (x.0, gave_up)
      | returned _ ↦ network_loop rs x.0
    ])

-- How the thread has ended, or that it waits, and the statics.
pub record Routine : Type 0 where
  pub process : Process
  pub heap : Heap
  pub standing : Standing

-- The whole thread, with the rounds that other threads and the kernel give it.
unfoldable pub network_routine :
    InitAnswers → Option (List ℕ) → IfEntry → Heap → Process → List Round → Run Routine
network_routine answers initial_interface entry heap p rounds =
    let i = network_init answers initial_interface entry heap p in
    elim i.flow [
      | exited ↦ ok (record { process = i.process; heap = heap; standing = gave_up })
      | returned t ↦ network_loop rounds t >>= λ r.
          ok (record { process = r.0.network.process; heap = r.0.network.heap; standing = r.1 })
    ]
