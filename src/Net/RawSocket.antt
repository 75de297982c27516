-- ===== src/Net/RawSocket.antt =====
-- src/net/raw_socket.c: the packet socket, and the interface that it is bound to.
-- What the kernel answers is an argument. Of the mutex only the order of the accesses is modelled.
pub mod Rebind
pub mod Opening
use net_det.Prelude.{
  ℕ, ◌-◌, ◌^◌, Bool, true, false, not, ◌&&◌, Option, none, some, List, [], ◌∷◌, Run, ok, ◌>>=◌,
  not_null, Flow, returned, exited, ◌==◌, if◌then◌else◌,
}
use net_det.Prelude.Int.{ℤ, negsuc, eq_ℤ}
use net_det.App.Process.{
  Process, app_err_socket, app_err_setsockopt, app_err_if_nametoindex, app_err_bind,
}
use net_det.App.Lifecycle.{lifecycle_notify_fatal_error}
use net_det.Common.Error.{set_error, network_error}
use net_det.Platform.Epoll.{epoll_register, epoll_unregister}
use net_det.Ui.Screen.{IfEntry, all_name}

-- The descriptors of the network thread: its socket, what its epoll instance watches, and the interface
-- to which the kernel has bound the socket, or `none` for all of them.
pub record Sockets : Type 0 where
  pub socket_fd : ℤ
  pub interest : List ℤ
  pub bound_to : Option ℕ

-- The answers of `socket` (-1 for a failure), of `setsockopt` and `bind` (whether they succeed), of
-- `if_nametoindex` (0 for a failure), of `strdup`, and `errno`.
pub record SocketAnswers : Type 0 where
  pub socket : ℤ
  pub setsockopt : Bool
  pub if_nametoindex : ℕ
  pub bind : Bool
  pub strdup : Option (List ℕ) → Option (List ℕ)
  pub errno : ℤ

-- The text of a name, byte for byte, as `strcmp` compares it.
abbrev pub text_eq : List ℕ → List ℕ → Bool
text_eq [] [] = true
text_eq [] (b ∷ bs) = false
text_eq (a ∷ as_) [] = false
text_eq (a ∷ as_) (b ∷ bs) = a == b && text_eq as_ bs

-- `socket` has failed, in `raw_socket_create` and in `change_bind`.
unfoldable pub socket_failed : ℤ → Process → Process
unfolding set_error lifecycle_notify_fatal_error
socket_failed errno p = lifecycle_notify_fatal_error (set_error app_err_socket errno p)

unfoldable pub raw_socket_create : SocketAnswers → Process → Process × Flow ℤ
unfolding socket_failed
raw_socket_create answers p =
    if eq_ℤ answers.socket (negsuc 0)
    then (socket_failed answers.errno p, exited)
    else (if not answers.setsockopt
        then (network_error app_err_setsockopt answers.errno answers.socket p, exited)
        else (p, returned answers.socket))

-- The interface that stands for all of them: `UINT32_MAX` and "all".
abbrev pub all_interfaces : (Option (List ℕ) → Option (List ℕ)) → IfEntry
all_interfaces strdup = record { if_index = 2 ^ 32 - 1; if_name = strdup all_name }

pub record Bound : Type 0 where
  pub sockets : Sockets
  pub binded_interface : IfEntry
  pub process : Process
  pub flow : Flow (Unit {0})

-- The end of `socket_init`.
unfoldable pub watch_socket : ℤ → Sockets → Sockets
unfolding epoll_register
watch_socket bind_update_fd s = record s {
  interest = epoll_register (epoll_register s.interest bind_update_fd) s.socket_fd;
}

-- `eventfd` has given `bind_update_fd`; `initial_interface` is the program's argument.
unfoldable pub socket_init : SocketAnswers → ℤ → Option (List ℕ) → Sockets → Process → Bound
unfolding watch_socket
socket_init answers bind_update_fd initial_interface s p =
    let everything = all_interfaces answers.strdup in
    elim initial_interface [
      | none ↦ record {
        sockets = watch_socket bind_update_fd s;
        binded_interface = everything;
        process = p;
        flow = returned tt;
      }
      | some name ↦
          if answers.if_nametoindex == 0
          then record {
            sockets = s;
            binded_interface = everything;
            process = network_error app_err_if_nametoindex answers.errno s.socket_fd p;
            flow = exited;
          }
          else (if not answers.bind
              then record {
                sockets = s;
                binded_interface = everything;
                process = network_error app_err_bind answers.errno s.socket_fd p;
                flow = exited;
              }
              else record {
                sockets =
                    watch_socket bind_update_fd
                      (record s { bound_to = some answers.if_nametoindex });
                binded_interface = record {
                  if_index = answers.if_nametoindex;
                  if_name = answers.strdup (some name);
                };
                process = p;
                flow = returned tt;
              })
    ]

unfoldable pub socket_cleanup : ℤ → Process → Process
socket_cleanup bind_update_fd p = record p { closed = bind_update_fd ∷ p.closed }

-- `if_index == UINT32_MAX && strcmp(if_name, "all") == 0`
unfoldable pub is_all : IfEntry → Run Bool
is_all entry =
    if entry.if_index == 2 ^ 32 - 1
    then (not_null entry.if_name >>= λ name. ok (text_eq name (97 ∷ 108 ∷ 108 ∷ [])))
    else ok false

-- The end of `change_bind`, for one interface.
unfoldable pub bind_interface : SocketAnswers → IfEntry → Sockets → Process → Bound
unfolding epoll_register
bind_interface answers entry s p =
    if entry.if_index == 0
    then record {
      sockets = s;
      binded_interface = entry;
      process = network_error app_err_if_nametoindex answers.errno s.socket_fd p;
      flow = exited;
    }
    else (if not answers.bind
        then record {
          sockets = s;
          binded_interface = entry;
          process = network_error app_err_bind answers.errno s.socket_fd p;
          flow = exited;
        }
        else record {
          sockets = record s {
            interest = epoll_register s.interest s.socket_fd;
            bound_to = some entry.if_index;
          };
          binded_interface = entry;
          process = p;
          flow = returned tt;
        })

-- The bound interface is read under its mutex, and not written.
unfoldable pub change_bind : SocketAnswers → IfEntry → Sockets → Process → Run Bound
unfolding epoll_unregister socket_failed is_all bind_interface
change_bind answers entry s p =
    let interest = epoll_unregister s.interest s.socket_fd in
    let shut : Process = record p { closed = s.socket_fd ∷ p.closed } in
    let opened : Sockets = record {
      socket_fd = answers.socket;
      interest = interest;
      bound_to = none;
    } in
    if eq_ℤ answers.socket (negsuc 0)
    then ok (record {
      sockets = opened;
      binded_interface = entry;
      process = socket_failed answers.errno shut;
      flow = exited;
    })
    else (if not answers.setsockopt
        then ok (record {
          sockets = opened;
          binded_interface = entry;
          process = network_error app_err_setsockopt answers.errno answers.socket shut;
          flow = exited;
        })
        else (is_all entry >>= λ all.
            if all
            then ok (record {
              sockets = record opened { interest = epoll_register interest answers.socket };
              binded_interface = entry;
              process = shut;
              flow = returned tt;
            })
            else ok (bind_interface answers entry opened shut)))
