-- ===== src/Life/Steps.antt =====
-- The steps of the threads: what the user does, what the threads do by themselves, and what the phone
-- does.
use droidcam_linux_client.Prelude.{◌≡◌, Bool, true, false, ◌||◌}
use droidcam_linux_client.Life.{
  gtk, join_video, join_audio, join_decode, join_battery, absent, running, finished, VideoAt,
  set_up, header, frame_length, frame_data, loop_head, not_asked, waiting, answered, Life,
  new_video, new_threads, enter_stop, initial,
}

-- The video thread is in `RecvAll`.
abbrev pub receives : VideoAt → Bool
receives header = true
receives frame_length = true
receives frame_data = true
receives _ = false

-- What the user does in the main loop of GTK: the button starts threads where neither flag is set, it
-- and the end of `main` call `Stop`, and a radio button chooses the mode of the connections to come.
pub data UserStep (s : Life) : Life → Type 0 where
  press_server :
      s.main ≡ gtk → (s.v_running || s.a_running) ≡ false → UserStep s (new_video true false s)
  press_start :
      (v a : Bool)
      → (v || a) ≡ true
      → s.main ≡ gtk
      → (s.v_running || s.a_running) ≡ false
      → UserStep s (new_threads v a s)
  press_stop : s.main ≡ gtk → UserStep s (enter_stop s)
  choose_mode : (t : Bool) → s.main ≡ gtk → UserStep s (record s { timed = t })

-- What the threads do by themselves, with a phone that is silent. A join returns where its thread has
-- returned, and is left out where the handle is NULL. `accept_connection` polls `v_running`; a request
-- is sent without a look at it; `RecvAll` returns by itself only where its socket has a timeout.
pub data OwnStep (s : Life) : Life → Type 0 where
  no_client :
      s.video ≡ running
      → s.video_pc ≡ set_up
      → s.server ≡ true
      → s.v_running ≡ false
      → OwnStep s (record s { video = finished })
  header_asked :
      s.video ≡ running
      → s.video_pc ≡ set_up
      → s.server ≡ false
      → OwnStep s (record s { video_pc = header })
  video_times_out :
      s.video ≡ running
      → receives s.video_pc ≡ true
      → s.video_timed ≡ true
      → OwnStep s (record s { video = finished })
  loop_goes :
      s.video ≡ running
      → s.video_pc ≡ loop_head
      → s.v_running ≡ true
      → OwnStep s (record s { video_pc = frame_length })
  loop_stops :
      s.video ≡ running
      → s.video_pc ≡ loop_head
      → s.v_running ≡ false
      → OwnStep s (record s { video = finished })
  audio_asks :
      s.audio ≡ running
      → s.audio_pc ≡ not_asked
      → OwnStep s (record s { audio_pc = waiting s.timed })
  audio_gives_up :
      s.audio ≡ running → s.audio_pc ≡ not_asked → OwnStep s (record s { audio = finished })
  audio_times_out :
      s.audio ≡ running
      → s.audio_pc ≡ waiting true
      → OwnStep s (record s { audio = finished; audio_pc = answered })
  audio_stops :
      s.audio ≡ running
      → s.audio_pc ≡ answered
      → s.a_running ≡ false
      → OwnStep s (record s { audio = finished })
  decode_ends :
      s.decode ≡ running → s.v_running ≡ false → OwnStep s (record s { decode = finished })
  battery_asks :
      s.battery ≡ running
      → s.battery_pc ≡ not_asked
      → (s.v_running || s.a_running) ≡ true
      → OwnStep s (record s { battery_pc = waiting s.timed })
  battery_times_out :
      s.battery ≡ running
      → s.battery_pc ≡ waiting true
      → OwnStep s (record s { battery_pc = not_asked })
  battery_ends :
      s.battery ≡ running
      → s.battery_pc ≡ not_asked
      → (s.v_running || s.a_running) ≡ false
      → OwnStep s (record s { battery = finished })
  video_joined :
      s.main ≡ join_video
      → s.h_video ≡ true
      → s.video ≡ finished
      → OwnStep s (record s { main = join_audio; video = absent; h_video = false })
  no_video : s.main ≡ join_video → s.h_video ≡ false → OwnStep s (record s { main = join_audio })
  audio_joined :
      s.main ≡ join_audio
      → s.h_audio ≡ true
      → s.audio ≡ finished
      → OwnStep s (record s { main = join_decode; audio = absent; h_audio = false })
  no_audio : s.main ≡ join_audio → s.h_audio ≡ false → OwnStep s (record s { main = join_decode })
  decode_joined :
      s.main ≡ join_decode
      → s.h_decode ≡ true
      → s.decode ≡ finished
      → OwnStep s (record s { main = join_battery; decode = absent; h_decode = false })
  no_decode :
      s.main ≡ join_decode → s.h_decode ≡ false → OwnStep s (record s { main = join_battery })
  battery_joined :
      s.main ≡ join_battery
      → s.h_battery ≡ true
      → s.battery ≡ finished
      → OwnStep s (record s { main = gtk; battery = absent; h_battery = false })
  no_battery : s.main ≡ join_battery → s.h_battery ≡ false → OwnStep s (record s { main = gtk })

-- What the phone does, or the loss of its connection. In server mode the next client is awaited. What
-- else ends a thread early, as a header that is refused or a sound device that fails, stands with the
-- losses.
pub data PhoneStep (s : Life) : Life → Type 0 where
  client_accepted :
      s.video ≡ running
      → s.video_pc ≡ set_up
      → s.server ≡ true
      → PhoneStep s (record s { video_pc = header })
  header_arrives :
      s.video ≡ running → s.video_pc ≡ header → PhoneStep s (record s { video_pc = loop_head })
  length_arrives :
      s.video ≡ running
      → s.video_pc ≡ frame_length
      → PhoneStep s (record s { video_pc = frame_data })
  data_arrives :
      s.video ≡ running → s.video_pc ≡ frame_data → PhoneStep s (record s { video_pc = loop_head })
  request_fails :
      s.video ≡ running → s.video_pc ≡ set_up → PhoneStep s (record s { video = finished })
  video_lost :
      s.video ≡ running → receives s.video_pc ≡ true → PhoneStep s (record s { video = finished })
  client_lost :
      s.video ≡ running
      → receives s.video_pc ≡ true
      → s.server ≡ true
      → s.v_running ≡ true
      → PhoneStep s (record s { video_pc = set_up })
  audio_by_udp :
      s.audio ≡ running → s.audio_pc ≡ not_asked → PhoneStep s (record s { audio_pc = answered })
  audio_answers :
      (t : Bool)
      → s.audio ≡ running
      → s.audio_pc ≡ waiting t
      → PhoneStep s (record s { audio_pc = answered })
  audio_refused :
      (t : Bool)
      → s.audio ≡ running
      → s.audio_pc ≡ waiting t
      → PhoneStep s (record s { audio = finished; audio_pc = answered })
  audio_lost :
      s.audio ≡ running → s.audio_pc ≡ answered → PhoneStep s (record s { audio = finished })
  battery_answers :
      (t : Bool)
      → s.battery ≡ running
      → s.battery_pc ≡ waiting t
      → PhoneStep s (record s { battery_pc = not_asked })

pub data ThreadStep (s t : Life) : Type 0 where
  by_user : UserStep s t → ThreadStep s t
  by_itself : OwnStep s t → ThreadStep s t
  by_phone : PhoneStep s t → ThreadStep s t

pub data Reach : Life → Type 0 where
  begins : Reach initial
  next : {s t : Life} → Reach s → ThreadStep s t → Reach t
