-- ===== src/Life.antt =====
-- The threads of the graphical client over its life: `Start` and `Stop` of src/droidcam.c, with a join
-- as a step of its own, beside what the four thread functions of src/av.c wait for.
pub mod Steps
pub mod Owned
pub mod Nearer
pub mod Going
pub mod Stops
pub mod Silent
mod Tests
use droidcam_linux_client.Prelude.{ℕ, ◌+◌, ◌≡◌, Bool, true, false, ◌||◌, if◌then◌else◌}

-- Where the main thread stands: in the main loop of GTK, or in `Stop` before one of its joins.
pub data MainPc : Type 0 where
  gtk join_video join_audio join_decode join_battery : MainPc

-- A thread that was not created or has been joined, one that runs, and one that has returned.
pub data Worker : Type 0 where
  absent running finished : Worker

-- Where the video thread stands: in front of its request, in server mode waiting for a client; in
-- `RecvAll` for the header of the stream, for the length of a frame or for its data; or at the head
-- of its loop.
pub data VideoAt : Type 0 where
  set_up header frame_length frame_data loop_head : VideoAt

-- Whether a thread has asked the phone on a connection of its own: not yet, and then in `RecvAll`,
-- on a socket with or without a timeout, or behind that. The battery thread asks again and again.
pub data Asking : Type 0 where
  not_asked : Asking
  waiting : (timed : Bool) → Asking
  answered : Asking

-- `server` tells the server mode of the stream. `video_timed` says whether `RecvAll` on the socket of
-- the video thread has a timeout: `Connect` sets one, an accepted client and a phone that usbmuxd
-- connects have none. `timed` says the same of the connections that `GetConnection` makes, for the
-- mode that is chosen.
-- `h_video` and so on say whether the handle is not NULL. `lost` counts the handles that were
-- overwritten, whose threads nobody can join.
pub record Life : Type 0 where
  pub v_running : Bool
  pub a_running : Bool
  pub main : MainPc
  pub video : Worker
  pub audio : Worker
  pub decode : Worker
  pub battery : Worker
  pub h_video : Bool
  pub h_audio : Bool
  pub h_decode : Bool
  pub h_battery : Bool
  pub lost : ℕ
  pub server : Bool
  pub video_pc : VideoAt
  pub audio_pc : Asking
  pub battery_pc : Asking
  pub video_timed : Bool
  pub timed : Bool

abbrev pub lose : Bool → ℕ
lose h = if h then 1 else 0

abbrev pub new_video : (server timed : Bool) → Life → Life
new_video server timed s = record s {
  v_running = true;
  video = running;
  decode = running;
  h_video = true;
  h_decode = true;
  lost = s.lost + lose s.h_video + lose s.h_decode;
  server = server;
  video_pc = set_up;
  video_timed = timed;
}

abbrev pub new_audio : Life → Life
new_audio s = record s {
  a_running = true;
  audio = running;
  h_audio = true;
  lost = s.lost + lose s.h_audio;
  audio_pc = not_asked;
}

abbrev pub new_battery : Life → Life
new_battery s = record s {
  battery = running;
  h_battery = true;
  lost = s.lost + lose s.h_battery;
  battery_pc = not_asked;
}

-- The threads that `Start` creates for the two check boxes.
abbrev pub new_threads : (video audio : Bool) → Life → Life
new_threads v a s =
    let s : Life = if v then new_video false s.timed s else s in
    let s : Life = if a then new_audio s else s in new_battery s

abbrev pub enter_stop : Life → Life
enter_stop s = record s { v_running = false; a_running = false; main = join_video }

-- The globals before `main`.
abbrev pub initial : Life
initial = record {
  v_running = false;
  a_running = false;
  main = gtk;
  video = absent;
  audio = absent;
  decode = absent;
  battery = absent;
  h_video = false;
  h_audio = false;
  h_decode = false;
  h_battery = false;
  lost = 0;
  server = false;
  video_pc = set_up;
  audio_pc = not_asked;
  battery_pc = not_asked;
  video_timed = false;
  timed = true;
}
