-- ===== src/Tests/Sockets.antt =====
-- The socket of src/net/raw_socket.c, bound to another interface.
use net_det.Prelude.{◌≡◌, ◌⊎◌, refl, true, false, none, some, [], ◌∷◌, ok}
use net_det.Prelude.Int.{pos}
use net_det.Platform.Epoll.{watches, epoll_unregister}
use net_det.App.Process.{initial}
use net_det.Ui.Screen.{IfEntry}
use net_det.Net.RawSocket.{Sockets, SocketAnswers, Bound, change_bind}
use net_det.Net.RawSocket.Rebind.{IsRebound, IsGivenUp, change_bind-IsRebound}

abbrev pub socket_answers : SocketAnswers
socket_answers = record {
  socket = pos 9;
  setsockopt = true;
  if_nametoindex = 2;
  bind = true;
  strdup = λ name. name;
  errno = pos 0;
}

-- Interface 2 with the name "lo".
abbrev pub lo : IfEntry
lo = record { if_index = 2; if_name = some (108 ∷ 111 ∷ []) }

abbrev pub sockets : Sockets
sockets = record { socket_fd = pos 4; interest = pos 6 ∷ pos 4 ∷ []; bound_to = none }

unwatched : watches (epoll_unregister sockets.interest sockets.socket_fd) (pos 9) ≡ false
unfolding epoll_unregister
unwatched = refl

change_bind-IsRebound_example :
    (b : Bound) × (change_bind socket_answers lo sockets initial ≡ ok b)
    × (IsRebound socket_answers lo (108 ∷ 111 ∷ []) sockets initial b
        ⊎ IsGivenUp socket_answers sockets initial b)
change_bind-IsRebound_example =
    change_bind-IsRebound socket_answers lo (108 ∷ 111 ∷ []) sockets initial refl unwatched
