-- ===== src/Stream/Session.antt =====
-- The rounds of `VideoThreadProc` of src/av.c: one with the socket of `Start` or `main`, or in server
-- mode one for each client that connects.
use droidcam_linux_client.Prelude.{
  ℕ, ◌+◌, Bool, true, false, not, ◌&&◌, ◌==◌, if◌then◌else◌, Option, none, some, List, [], ◌∷◌,
}
use droidcam_linux_client.Prelude.Int.{ℤ, pos, leb_ℤ}
use droidcam_linux_client.Net.Defs.{invalid_socket, is_invalid}
use droidcam_linux_client.Net.Server.{
  ServerAnswers, Server, remove, Round, accept_connection, connection_cleanup,
}

-- `open_sockets` are the sockets of the stream; `commands` are those sent to the phone, the latest
-- first; `frames` counts the frames that were received; `cleanups` counts the calls of
-- `decoder_cleanup`.
pub record VideoThread : Type 0 where
  pub v_active : Bool
  pub open_sockets : List ℤ
  pub server : Server
  pub streams : ℕ
  pub commands : List ℕ
  pub frames : ℕ
  pub cleanups : ℕ
  pub messages : ℕ

-- What one turn of the loop over the frames meets: `v_running` and `thread_cmd` at its head, and what
-- `RecvAll` returns for the length and for the data of a frame.
pub record LoopTurn : Type 0 where
  pub v_running : Bool
  pub thread_cmd : ℕ
  pub got_length : ℤ
  pub got_data : ℤ

-- What one round gets: the answers to `accept_connection`, the results of `Send`, `RecvAll` and
-- `decoder_prepare_video`, the turns of the loop over the frames, and `v_running` behind the round.
pub record VideoRound : Type 0 where
  pub set_up : ServerAnswers
  pub accepts : List Round
  pub sent : ℤ
  pub received : ℤ
  pub prepared : Bool
  pub turns : List LoopTurn
  pub v_running : Bool

-- `videoSocket`, `keep_waiting` and the rest.
abbrev pub Held : Type 0
Held = ℤ × Bool × VideoThread

abbrev pub accepted : Bool → VideoThread → Server × Option ℤ → Option Held
accepted keep_waiting s (server, none) = none
accepted keep_waiting s (server, some client) =
    if is_invalid client
    then some (client, keep_waiting, record s { server = server })
    else some (client, true, record s { server = server; open_sockets = client ∷ s.open_sockets })

-- server_wait; no value while a client is awaited.
unfoldable pub server_wait : VideoRound → ℤ → Bool → VideoThread → Option Held
server_wait r socket keep_waiting s =
    if is_invalid socket
    then accepted keep_waiting s (accept_connection r.set_up r.accepts s.server)
    else some (socket, keep_waiting, s)

abbrev pub send_command : ℕ → VideoThread → VideoThread
send_command cmd s = if cmd == 0 then s else record s { commands = cmd ∷ s.commands }

-- The loop over the frames; no value while an answer of the phone is awaited. The pull and the push of
-- a frame are in Frames.
unfoldable pub frame_loop : List LoopTurn → VideoThread → Option VideoThread
frame_loop [] s = none
frame_loop (t ∷ ts) s =
    let sent : VideoThread = send_command t.thread_cmd s in
    let rest = frame_loop ts (record sent { frames = sent.frames + 1 }) in
    if not t.v_running
    then some s
    else if leb_ℤ t.got_length (pos 0)
    then some sent
    else if leb_ℤ t.got_data (pos 0)
    then some sent
    else rest

-- The request, the header of the stream, and its frames.
unfoldable pub serve : VideoRound → VideoThread → Option VideoThread
unfolding frame_loop
serve r s =
    if leb_ℤ r.sent (pos 0)
    then some (record s { messages = s.messages + 1 })
    else if leb_ℤ r.received (pos 0)
    then some (record s { messages = s.messages + 1 })
    else if not r.prepared
    then some s
    else frame_loop r.turns (record s { v_active = true; streams = s.streams + 1 })

-- early_out
unfoldable pub early_out : ℤ → VideoThread → VideoThread
early_out socket s = record s {
  v_active = false;
  open_sockets = remove socket s.open_sockets;
  cleanups = s.cleanups + 1;
}

unfoldable pub leave_stream : ℤ → Option VideoThread → Option VideoThread
unfolding early_out
leave_stream socket none = none
leave_stream socket (some s) = some (early_out socket s)

unfoldable pub round_with : VideoRound → ℤ → VideoThread → Option VideoThread
unfolding serve leave_stream
round_with r socket s = leave_stream socket (if is_invalid socket then some s else serve r s)

abbrev pub close_server : VideoThread → VideoThread
close_server s = record s { server = connection_cleanup s.server }

-- Behind a round: the next one, or the end.
unfoldable pub behind_round :
    (again : Bool) → Option VideoThread → (VideoThread → Option VideoThread) → Option VideoThread
behind_round again none next = none
behind_round again (some s) next = if again then next s else some (close_server s)

abbrev pub go_on :
    VideoRound → Option Held → (Bool → VideoThread → Option VideoThread) → Option VideoThread
go_on r none next = none
go_on r (some (socket, keep_waiting, s)) next =
    behind_round (r.v_running && keep_waiting) (round_with r socket s) (next keep_waiting)

-- No value while a round is awaited.
unfoldable pub video_rounds : List VideoRound → ℤ → Bool → VideoThread → Option VideoThread
unfolding server_wait round_with behind_round
video_rounds [] socket keep_waiting s = none
video_rounds (r ∷ rs) socket keep_waiting s =
    go_on r (server_wait r socket keep_waiting s)
      (λ keep_waiting s. video_rounds rs invalid_socket keep_waiting s)

unfoldable pub video_thread : List VideoRound → ℤ → VideoThread → Option VideoThread
video_thread rs socket s = video_rounds rs socket false s
