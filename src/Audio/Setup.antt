-- ===== src/Audio/Setup.antt =====
-- `AudioThreadProc` of src/av.c up to its loop: the wait for the video, the choice of UDP or TCP, and
-- the header of a TCP stream; and `GetConnection`.
use droidcam_linux_client.Prelude.{
  ℕ, zero, suc, ◌+◌, Bool, true, false, not, ◌||◌, ◌==◌, if◌then◌else◌, Option, none, some, List,
  [], ◌∷◌,
}
use droidcam_linux_client.Prelude.Int.{ℤ, pos, ltb_ℤ, leb_ℤ}
use droidcam_linux_client.Prelude.Text.{Text, codes, strip}
use droidcam_linux_client.Net.Defs.{invalid_socket, is_invalid}

-- UDP_STREAM and TCP_STREAM
pub data StreamMode : Type 0 where
  tcp_stream udp_stream : StreamMode

abbrev pub is_udp : StreamMode → Bool
is_udp udp_stream = true
is_udp tcp_stream = false

pub data AudioMessage : Type 0 where
  missing_device request_failed reset invalid_stream unsupported check_failed commit_failed :
      AudioMessage

-- `v_running` at the head of a round of the first loop, and `v_active` and `a_running` behind its sleep.
pub record WaitRound : Type 0 where
  pub v_running : Bool
  pub v_active : Bool
  pub a_running : Bool

-- The answers that the thread gets before its loop. `polls t i` is what `RecvNonBlockUDP` returns in
-- poll `i` behind request `t`.
pub record SetupAnswers : Type 0 where
  pub handle : Bool
  pub waits : List WaitRound
  pub ios : Bool
  pub ip : Text
  pub udp_socket : ℤ
  pub polls : ℕ → ℕ → ℤ
  pub ios_socket : ℤ
  pub connected : ℤ
  pub sent : ℤ
  pub received : ℤ
  pub header : List ℕ

-- True where the thread goes on, false where it returns; no value while a round is awaited.
unfoldable pub wait_video : List WaitRound → Option Bool
wait_video [] = none
wait_video (r ∷ rs) =
    let later = wait_video rs in
    if not r.v_running
    then some true
    else if r.v_active
    then some true
    else if not r.a_running
    then some false
    else later

unfoldable pub get_connection : SetupAnswers → ℤ
get_connection a =
    if a.ios
    then (if leb_ℤ a.ios_socket (pos 0) then invalid_socket else a.ios_socket)
    else a.connected

pub data Polled : Type 0 where
  failed arrived silent : Polled

-- The polls behind one request, `n` of them still to go.
unfoldable pub poll_loop : ℕ → (ℕ → ℤ) → ℕ → Polled
poll_loop zero answers i = silent
poll_loop (suc n) answers i =
    let later = poll_loop n answers (i + 1) in
    if ltb_ℤ (answers i) (pos 0)
    then failed
    else if ltb_ℤ (pos 0) (answers i)
    then arrived
    else later

-- Behind the polls of try `t`: an error ends the tries, data begins the stream, and after silence come
-- the `later` tries.
abbrev pub after_try : ℕ → Bool × ℕ → Polled → Bool × ℕ
after_try t later failed = (false, t + 1)
after_try t later arrived = (true, t + 1)
after_try t later silent = later

-- The tries from `t` on, `n` of them still to go: whether the stream has begun, and the requests that
-- were sent.
unfoldable pub udp_loop : ℕ → (ℕ → ℕ → ℤ) → ℕ → Bool × ℕ
udp_loop zero answers t = (false, t)
udp_loop (suc n) answers t = after_try t (udp_loop n answers (t + 1)) (poll_loop 12 (answers t) 0)

-- `strncmp` with the address of adb.
abbrev pub has_prefix : Option Text → Bool
has_prefix none = false
has_prefix (some rest) = true

abbrev pub tcp_only : SetupAnswers → Bool
tcp_only a = a.ios || has_prefix (strip (codes "127.0.0.1") a.ip) || leb_ℤ a.udp_socket (pos 0)

abbrev pub check_chunks : Option (List ℕ) → Option AudioMessage
check_chunks none = some invalid_stream
check_chunks (some []) = some unsupported
check_chunks (some (c ∷ rest)) = if c == 2 then none else some unsupported

-- "-@v02" and the number of chunks in a packet.
unfoldable pub check_stream : List ℕ → Option AudioMessage
check_stream header = check_chunks (strip (codes "-@v02") header)

-- Where the TCP set-up ends.
pub data TcpSetup : Type 0 where
  no_connection accepted : TcpSetup
  refused : AudioMessage → TcpSetup

abbrev pub header_checked : Option AudioMessage → TcpSetup
header_checked none = accepted
header_checked (some m) = refused m

unfoldable pub tcp_setup : SetupAnswers → TcpSetup
unfolding get_connection check_stream
tcp_setup a =
    if is_invalid (get_connection a)
    then no_connection
    else if leb_ℤ a.sent (pos 0)
    then refused request_failed
    else if leb_ℤ a.received (pos 0)
    then refused reset
    else header_checked (check_stream a.header)
