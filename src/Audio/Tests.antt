-- ===== src/Audio/Tests.antt =====
-- The audio functions on concrete input.
use droidcam_linux_client.Prelude.{
  ℕ, ◌≤◌, ◌≡◌, refl, true, false, ◌&&◌, ◌==◌, if◌then◌else◌, some, inl, inr, List, [], ◌∷◌, ◌++◌,
  length, replicate, length-replicate, arith,
}
use droidcam_linux_client.Prelude.Int.{ℤ, pos, negsuc}
use droidcam_linux_client.Prelude.Text.{codes}
use droidcam_linux_client.Sound.Recovery.{Recovery}
use droidcam_linux_client.Sound.Transfer.{PcmState, CheckAnswers}
use droidcam_linux_client.Audio.Setup.{
  SetupAnswers, wait_video, get_connection, poll_loop, udp_loop,
}
use droidcam_linux_client.Audio.Udp.{first_answer, outcome, udp_first_answer}
use droidcam_linux_client.Audio.Thread.{Thread, AudioRound, audio_thread}
use droidcam_linux_client.Audio.Loop.{Ending}
use droidcam_linux_client.Audio.Closed.{Ended, gives_up_udp}
use droidcam_linux_client.Audio.Ending.{thread_ends}
use droidcam_linux_client.Audio.Decode.{decode_speex_frame, decode_stays_inside}
use droidcam_linux_client.Audio.Play.{Samples}

decode_stays_inside_example : decode_speex_frame 320 2 (true ∷ false ∷ true ∷ []) ≤ 1920
decode_stays_inside_example = decode_stays_inside 2 (true ∷ false ∷ true ∷ [])

abbrev chunk : ℕ → List ℕ
chunk b = replicate 70 b

-- Eight samples and silence behind them.
unfoldable buffer : List ℕ
buffer = 1 ∷ 2 ∷ 3 ∷ 4 ∷ 5 ∷ 6 ∷ 7 ∷ 8 ∷ replicate 1912 0

length-buffer : 640 ≤ length buffer
unfolding buffer
length-buffer = omega (arith, length-replicate {A = ℕ} 1912 0)

unfoldable again : List ℤ
again = replicate 60000 (negsuc 10)

length-again : 60000 ≤ length again
unfolding again
length-again = omega (arith, length-replicate {A = ℤ} 60000 (negsuc 10))

abbrev recovery : Recovery
recovery = record { prepare = pos 0; resume = again }

abbrev room : CheckAnswers
room = record {
  state = PcmState.other;
  on_state = recovery;
  avail = pos 500;
  on_avail = recovery;
  start = pos 0;
  wait = pos 0;
  mmap_begin = pos 0;
  mapped = 7;
  mapped_offset = 0;
  mapped_frames = 320;
}

abbrev a_packet : AudioRound
a_packet = record {
  a_running = true;
  len = pos 140;
  stream_buf = chunk 1 ++ chunk 2;
  check = room;
  commits = pos 320;
  on_commit = recovery;
}

abbrev the_end : AudioRound
the_end = record a_packet { a_running = false }

abbrev speex : List (List ℕ) → List ℕ → List ℕ
speex chunks old = replicate 640 9

-- UDP brings data at the third poll behind the second request.
abbrev polls : ℕ → ℕ → ℤ
polls t i = if t == 1 && i == 2 then pos 140 else pos 0

abbrev by_wifi : SetupAnswers
by_wifi = record {
  handle = true;
  waits = record { v_running = true; v_active = true; a_running = true } ∷ [];
  ios = false;
  ip = codes "10.0.0.2";
  udp_socket = pos 6;
  polls = polls;
  ios_socket = pos 0;
  connected = pos 7;
  sent = pos 1;
  received = pos 6;
  header = codes "-@v02" ++ 2 ∷ [];
}

-- The same phone without an answer over UDP.
abbrev by_tcp : SetupAnswers
by_tcp = record by_wifi { polls = λ t i. pos 0 }

abbrev nothing : Samples
nothing = record { decode_buf = replicate 1920 0; used = pos 0 }

rounds_end : Ending speex 320 (a_packet ∷ the_end ∷ [])
rounds_end = (
  (length-again, length-again, length-again),
  inr ((length-again, length-again, length-again), inl refl),
)

by_tcp-waited : wait_video by_tcp.waits ≡ some true
unfolding wait_video
by_tcp-waited = refl

thread_ends_example :
    (t : Thread) × (audio_thread speex 320 by_tcp (a_packet ∷ the_end ∷ []) nothing ≡ some t)
    × Ended by_tcp true t
unfolding get_connection
thread_ends_example =
    thread_ends speex 320 (a_packet ∷ the_end ∷ []) rounds_end by_tcp nothing true by_tcp-waited
      (λ good. refl)

-- The UDP socket, which nothing closes.
udp_socket_left_open : gives_up_udp by_tcp true ≡ true
unfolding udp_loop poll_loop
udp_socket_left_open = refl

udp_first_answer_example : udp_loop 3 polls 0 ≡ outcome 3 polls (first_answer 36 polls 0)
udp_first_answer_example = udp_first_answer polls

udp_second_request : udp_loop 3 polls 0 ≡ (true, 2)
unfolding udp_loop poll_loop
udp_second_request = refl
