-- ===== src/Net/Server.antt =====
-- `StartInetServer`, `accept_connection`, `connection_cleanup` and `disconnect` of
-- src/connection.c.
use droidcam_linux_client.Prelude.{
  ℕ, ◌+◌, ◌≡◌, Bool, true, false, not, ◌&&◌, ◌||◌, if◌then◌else◌, Option, none, some, List, [], ◌∷◌,
  ◌++◌, arith,
}
use droidcam_linux_client.Prelude.Int.{ℤ, pos, ltb_ℤ, eq_ℤ}
use droidcam_linux_client.Net.Defs.{invalid_socket, is_invalid, Errno, would_block}

-- What the system answers while the server socket is set up.
pub record ServerAnswers : Type 0 where
  pub socket : ℤ
  pub bind : ℤ
  pub listen : ℤ
  pub flags : ℤ

-- `wifiServerSocket`, the descriptors that are open on its behalf, and the messages shown.
pub record Server : Type 0 where
  pub socket : ℤ
  pub open_sockets : List ℤ
  pub messages : ℕ

abbrev pub remove : ℤ → List ℤ → List ℤ
remove s [] = []
remove s (t ∷ l) = if eq_ℤ s t then l else t ∷ remove s l

-- The exit `_error_out` behind a message.
unfoldable pub give_up : Server → Server
give_up s = if is_invalid s.socket then record s { messages = s.messages + 1 } else record s {
  socket = invalid_socket;
  open_sockets = remove s.socket s.open_sockets;
  messages = s.messages + 1;
}

-- The result is the new state, and 1 as `true`.
unfoldable pub start_inet_server : ServerAnswers → Server → Server × Bool
unfolding give_up
start_inet_server a s =
    if is_invalid a.socket
    then (give_up (record s { socket = a.socket }), false)
    else (let s : Server = record s {
      socket = a.socket;
      open_sockets = a.socket ∷ s.open_sockets;
    } in
        if ltb_ℤ a.bind (pos 0) || ltb_ℤ a.listen (pos 0) || ltb_ℤ a.flags (pos 0)
        then (give_up s, false)
        else (s, true))

unfoldable pub connection_cleanup : Server → Server
connection_cleanup s =
    if is_invalid s.socket
    then s
    else record s { socket = invalid_socket; open_sockets = remove s.socket s.open_sockets }

-- One round of the loop of `accept_connection`: `v_running`, and what `accept` answers, a client or
-- an error.
pub record Round : Type 0 where
  pub running : Bool
  pub client : ℤ
  pub errno : Errno

-- The round is repeated behind `usleep`.
abbrev pub retries : Errno → Bool
retries Errno.eintr = true
retries e = would_block e

-- The client, or INVALID_SOCKET, and whether a message is shown; no value while rounds remain to
-- be answered.
unfoldable pub accept_loop : List Round → Option (ℤ × Bool)
accept_loop [] = none
accept_loop (r ∷ rs) =
    let rest = accept_loop rs in
    if not r.running
    then some (invalid_socket, false)
    else if not (is_invalid r.client)
    then some (r.client, false)
    else if retries r.errno
    then rest
    else some (invalid_socket, true)

-- The server socket is set up once and kept for the next call.
unfoldable pub accept_connection : ServerAnswers → List Round → Server → Server × Option ℤ
unfolding start_inet_server accept_loop
accept_connection a rs s =
    let (s, ready) = (if is_invalid s.socket then start_inet_server a s else (s, true)) in
    if not ready then (s, some invalid_socket) else elim (accept_loop rs) [
      | none ↦ (s, none)
      | some (client, failed) ↦
          ((if failed then record s { messages = s.messages + 1 } else s), some client)
    ]

-- The module owns one descriptor, the server socket, or none if that is INVALID_SOCKET.
pub record IsOwner (s : Server) : Type 0 where
  pub idle : is_invalid s.socket ≡ true → s.open_sockets ≡ []
  pub active : is_invalid s.socket ≡ false → s.open_sockets ≡ s.socket ∷ []

start-IsOwner :
    (a : ServerAnswers) (s : Server)
    → is_invalid s.socket ≡ true
    → IsOwner s
    → IsOwner (start_inet_server a s).0
      × (((start_inet_server a s).1 ≡ true) → is_invalid (start_inet_server a s).0.socket ≡ false)
      × (((start_inet_server a s).1 ≡ false) → is_invalid (start_inet_server a s).0.socket ≡ true)
unfolding start_inet_server
start-IsOwner a s unset own =
    (record { idle = ground arith; active = ground arith }, ground arith, ground arith)

-- Whatever the system answers, `accept_connection` and `connection_cleanup` keep the descriptors
-- accounted for: the only open one is `wifiServerSocket`, none is open while that is
-- INVALID_SOCKET, which it is behind a clean-up.
pub server_socket_owned :
    (a : ServerAnswers) (rs : List Round) (s : Server)
    → IsOwner s
    → IsOwner (accept_connection a rs s).0
      × IsOwner (connection_cleanup s)
      × ((connection_cleanup s).open_sockets ≡ [])
unfolding accept_connection connection_cleanup
server_socket_owned a rs s own = (
  record { idle = ground arith; active = ground arith },
  record { idle = ground arith; active = ground arith },
  ground arith,
)

-- The round decides nothing: the stream runs, and `accept` has no client but a retried error.
abbrev pub retry_round : Round → Bool
retry_round r = r.running && is_invalid r.client && retries r.errno

abbrev pub AllWait : List Round → Type 0
AllWait [] = Unit {0}
AllWait (r ∷ rs) = (retry_round r ≡ true) × AllWait rs

-- While the stream runs and `accept` has no client but an error that is retried, the loop goes on;
-- it ends in the first round that finds the stream stopped, a client or another error, with
-- INVALID_SOCKET, that client, or INVALID_SOCKET and a message.
pub accept_first_decision :
    (waiting : List Round) (r : Round) (rs : List Round)
    → AllWait waiting
    → retry_round r ≡ false
    → accept_loop (waiting ++ r ∷ rs)
      ≡ (if r.running then some (r.client, is_invalid r.client) else some (invalid_socket, false))
unfolding accept_loop
accept_first_decision [] r rs w stop = ground arith
accept_first_decision (x ∷ waiting) r rs w stop =
    ground (arith, w.0, accept_first_decision waiting r rs w.1 stop)
