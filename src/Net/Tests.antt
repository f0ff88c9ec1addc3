-- ===== src/Net/Tests.antt =====
-- The socket functions on concrete answers.
use droidcam_linux_client.Prelude.{◌≡◌, ◌≢◌, ◌⊎◌, refl, true, false, [], ◌∷◌, none}
use droidcam_linux_client.Prelude.Int.{pos, negsuc}
use droidcam_linux_client.Net.Defs.{invalid_socket, Errno}
use droidcam_linux_client.Net.Connect.{
  Answers, connect, connect_no_leak, reached, still_open, is_blocking,
}
use droidcam_linux_client.Net.Server.{
  ServerAnswers, Server, IsOwner, Round, accept_connection, connection_cleanup, server_socket_owned,
}

abbrev reachable : Answers
reachable = record {
  socket = pos 5;
  flags = pos 0;
  errno = Errno.einprogress;
  select = pos 1;
  timeouts_ok = true;
}

connect_no_leak_example :
    ((reached reachable ≡ true)
      × ((connect reachable).socket ≡ pos 5)
      × ((connect reachable).message ≡ none)
      × (still_open (connect reachable).ops 0 ≡ 1)
      × (is_blocking (connect reachable).ops true ≡ true))
    ⊎ ((reached reachable ≡ false)
        × ((connect reachable).socket ≡ invalid_socket)
        × ((connect reachable).message ≢ none)
        × (still_open (connect reachable).ops 0 ≡ 0))
connect_no_leak_example = connect_no_leak reachable

-- `connect` that succeeds at once leaves `errno` as it was, and is taken for a failure.
immediate_success_fails :
    (connect (record reachable { errno = Errno.other })).socket ≡ invalid_socket
unfolding connect
immediate_success_fails = refl

abbrev set_up : ServerAnswers
set_up = record { socket = pos 6; bind = pos 0; listen = pos 0; flags = pos 0 }

abbrev no_server : Server
no_server = record { socket = invalid_socket; open_sockets = []; messages = 0 }

no_server-IsOwner : IsOwner no_server
no_server-IsOwner = record { idle = λ e. refl; active = λ e. absurd cc }

abbrev waiting_round : Round
waiting_round = record { running = true; client = negsuc 0; errno = Errno.eagain }

abbrev client_round : Round
client_round = record { running = true; client = pos 9; errno = Errno.other }

server_socket_owned_example :
    IsOwner (accept_connection set_up (waiting_round ∷ client_round ∷ []) no_server).0
    × IsOwner (connection_cleanup no_server)
    × ((connection_cleanup no_server).open_sockets ≡ [])
server_socket_owned_example =
    server_socket_owned set_up (waiting_round ∷ client_round ∷ []) no_server no_server-IsOwner
