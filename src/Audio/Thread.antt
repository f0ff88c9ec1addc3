-- ===== src/Audio/Thread.antt =====
-- `AudioThreadProc` of src/av.c as a whole: its sockets, its loop and its end.
use droidcam_linux_client.Prelude.{
  ℕ, ◌+◌, Bool, true, false, not, ltb, if◌then◌else◌, Option, none, some, List, [], ◌∷◌,
}
pub use droidcam_linux_client.Net.Defs.{disconnect}
use droidcam_linux_client.Prelude.Int.{ℤ, pos, ltb_ℤ, is_zero}
use droidcam_linux_client.Sound.Recovery.{Recovery}
use droidcam_linux_client.Sound.Transfer.{
  Transfer, CheckAnswers, snd_transfer_check, snd_transfer_commit,
}
use droidcam_linux_client.Audio.Decode.{packet_chunks}
use droidcam_linux_client.Audio.Play.{Samples, Output, clamp, play}
use droidcam_linux_client.Audio.Setup.{
  StreamMode, tcp_stream, udp_stream, is_udp, AudioMessage, missing_device, check_failed,
  commit_failed, SetupAnswers, wait_video, get_connection, tcp_only, udp_loop, TcpSetup,
  no_connection, accepted, refused, tcp_setup,
}

-- `open_sockets` are those that the thread has opened and not disconnected, the latest first;
-- `requests` counts AUDIO_REQ over UDP, keep-alives included, and `stops` STOP_REQ. `outputs` is what
-- was committed to the device, the latest first.
pub record Thread : Type 0 where
  pub a_active : Bool
  pub open_sockets : List ℤ
  pub requests : ℕ
  pub stops : ℕ
  pub keep_alive_counter : ℕ
  pub samples : Samples
  pub transfer : Transfer
  pub outputs : List Output
  pub messages : List AudioMessage

-- `transfer.first` is 1, and the samples are 0.
abbrev pub first_transfer : Transfer
first_transfer = record { first = true; offset = 0; frames = 0; my_areas = 0 }

abbrev pub new_thread : Samples → Thread
new_thread silent = record {
  a_active = false;
  open_sockets = [];
  requests = 0;
  stops = 0;
  keep_alive_counter = 0;
  samples = silent;
  transfer = first_transfer;
  outputs = [];
  messages = [];
}

-- What a round of the loop gets: `a_running` at its head, what is received, and what the sound device
-- answers.
pub record AudioRound : Type 0 where
  pub a_running : Bool
  pub len : ℤ
  pub stream_buf : List ℕ
  pub check : CheckAnswers
  pub commits : ℤ
  pub on_commit : Recovery

-- The loop goes on, or is left for `early_out`.
pub data Flow : Type 0 where
  goes_on leaves : Flow

abbrev pub say : AudioMessage → Thread → Thread
say m s = record s { messages = m ∷ s.messages }

-- ++keepAliveCounter > 1024
unfoldable pub keep_alive : StreamMode → Thread → Thread
keep_alive mode s =
    if is_udp mode
    then if ltb 1024 (s.keep_alive_counter + 1)
      then record s { keep_alive_counter = 0; requests = s.requests + 1 }
      else record s { keep_alive_counter = s.keep_alive_counter + 1 }
    else s

-- What comes behind a round: the end of the loop, or the rounds that are left.
abbrev pub follow : Option (Flow × Thread) → (Thread → Option Thread) → Option Thread
follow none later = none
follow (some (leaves, s)) later = some s
follow (some (goes_on, s)) later = later s

-- Behind `early_out`: without UDP no STOP_REQ, and descriptor 0 is not disconnected.
unfoldable pub leave : StreamMode → ℤ → Thread → Thread
leave mode socket s = record s {
  a_active = false;
  stops = if is_udp mode then s.stops + 1 else s.stops;
  open_sockets = if ltb_ℤ (pos 0) socket then disconnect socket s.open_sockets else s.open_sockets;
}

abbrev pub left : StreamMode → ℤ → Option Thread → Option Thread
left mode socket none = none
left mode socket (some s) = some (leave mode socket s)

abbrev pub opened : ℤ → Thread → Thread
opened socket s = record s { open_sockets = socket ∷ s.open_sockets }

-- `speex` is what `speex_decode_int` leaves in `decode_buf` for the chunks of a packet.
module _ (speex : List (List ℕ) → List ℕ → List ℕ) (period_size : ℕ) where
  unfoldable pub take_packet : ℕ → List ℕ → Thread → Thread
  take_packet len buf s = record s {
    samples = record {
      decode_buf = speex (packet_chunks len buf) s.samples.decode_buf;
      used = pos 640;
    };
  }

  unfoldable pub receive : ℤ → List ℕ → Thread → Thread
  unfolding take_packet
  receive (pos n) buf s = if ltb 0 n then take_packet n buf s else s
  receive len buf s = s

  abbrev pub committed :
      StreamMode → Output → Thread → Option (Transfer × ℤ) → Option (Flow × Thread)
  committed mode out s none = none
  committed mode out s (some (t, err)) =
      if ltb_ℤ err (pos 0)
      then some (leaves, say commit_failed (record s { transfer = t }))
      else some (goes_on, keep_alive mode (record s { transfer = t; outputs = out ∷ s.outputs }))

  -- What is played, and the commit.
  unfoldable pub transfer_round : StreamMode → AudioRound → Thread → Option (Flow × Thread)
  transfer_round mode r s =
      let room = s.transfer.frames in
      let played = play room s.samples in
      let s : Thread = record s {
        samples = played.1;
        transfer = record (s.transfer) { frames = clamp room };
      } in
      committed mode played.0 s (snd_transfer_commit r.on_commit r.commits s.transfer)

  abbrev pub checked :
      StreamMode → AudioRound → Thread → Option (Transfer × ℤ) → Option (Flow × Thread)
  checked mode r s none = none
  checked mode r s (some (t, err)) =
      let s : Thread = record s { transfer = t } in
      if ltb_ℤ err (pos 0)
      then some (leaves, say check_failed s)
      else if is_zero err
      then some (goes_on, s)
      else transfer_round mode r s

  unfoldable pub audio_round : StreamMode → AudioRound → Thread → Option (Flow × Thread)
  unfolding receive transfer_round
  audio_round mode r s =
      if not r.a_running
      then some (leaves, s)
      else if ltb_ℤ r.len (pos 0)
      then some (leaves, s)
      else checked mode r (receive r.len r.stream_buf s)
          (snd_transfer_check period_size r.check s.transfer)

  -- No value while a round is awaited.
  unfoldable pub audio_loop : List AudioRound → StreamMode → Thread → Option Thread
  audio_loop [] mode s = none
  audio_loop (r ∷ rs) mode s = follow (audio_round mode r s) (λ t. audio_loop rs mode t)

  unfoldable pub stream : List AudioRound → StreamMode → ℤ → Thread → Option Thread
  unfolding leave
  stream rounds mode socket s =
      left mode socket (audio_loop rounds mode (record s { a_active = true }))

  abbrev pub tcp_end : TcpSetup → List AudioRound → ℤ → Thread → Option Thread
  tcp_end no_connection rounds socket s = some s
  tcp_end (refused m) rounds socket s = some (leave tcp_stream socket (say m (opened socket s)))
  tcp_end accepted rounds socket s = stream rounds tcp_stream socket (opened socket s)

  unfoldable pub tcp_thread : SetupAnswers → List AudioRound → Thread → Option Thread
  tcp_thread a rounds s = tcp_end (tcp_setup a) rounds (get_connection a) s

  -- The descriptor of the UDP socket is overwritten where UDP is given up.
  unfoldable pub udp_thread : SetupAnswers → List AudioRound → Thread → Option Thread
  unfolding tcp_thread
  udp_thread a rounds s =
      let tries = udp_loop 3 a.polls 0 in
      let s : Thread = record (opened a.udp_socket s) { requests = s.requests + tries.1 } in
      if tries.0 then stream rounds udp_stream a.udp_socket s else tcp_thread a rounds s

  abbrev pub connect_thread : SetupAnswers → List AudioRound → Thread → Option Bool → Option Thread
  connect_thread a rounds s none = none
  connect_thread a rounds s (some false) = some s
  connect_thread a rounds s (some true) =
      if tcp_only a then tcp_thread a rounds s else udp_thread a rounds s

  unfoldable pub audio_thread : SetupAnswers → List AudioRound → Samples → Option Thread
  unfolding udp_thread tcp_thread
  audio_thread a rounds silent =
      if not a.handle
      then some (say missing_device (new_thread silent))
      else connect_thread a rounds (new_thread silent) (wait_video a.waits)
