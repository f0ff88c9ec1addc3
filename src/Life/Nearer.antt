-- ===== src/Life/Nearer.antt =====
-- A step within `Stop` brings its end nearer.
use droidcam_linux_client.Prelude.{ℕ, ◌+◌, ◌<◌, ◌≡◌, ◌≢◌, Bool, true, false, ◌||◌, arith}
use droidcam_linux_client.Life.{
  MainPc, gtk, join_video, join_audio, join_decode, join_battery, Worker, running, VideoAt, set_up,
  header, frame_length, frame_data, loop_head, Asking, not_asked, waiting, answered, Life,
}
use droidcam_linux_client.Life.Steps.{UserStep, OwnStep, PhoneStep, ThreadStep}

-- The steps that a thread can still take with the flags cleared.
abbrev video_left : Worker → VideoAt → ℕ
video_left running set_up = 5
video_left running header = 4
video_left running frame_length = 3
video_left running frame_data = 2
video_left running loop_head = 1
video_left _ pc = 0

abbrev audio_left : Worker → Asking → ℕ
audio_left running not_asked = 3
audio_left running (waiting t) = 2
audio_left running answered = 1
audio_left _ pc = 0

abbrev battery_left : Worker → Asking → ℕ
battery_left running (waiting t) = 2
battery_left running _ = 1
battery_left _ pc = 0

abbrev decode_left : Worker → ℕ
decode_left running = 1
decode_left _ = 0

abbrev joins : MainPc → ℕ
joins gtk = 0
joins join_battery = 1
joins join_decode = 2
joins join_audio = 3
joins join_video = 4

abbrev pub to_go : Life → ℕ
to_go s =
    joins s.main
    + video_left s.video s.video_pc
    + audio_left s.audio s.audio_pc
    + decode_left s.decode
    + battery_left s.battery s.battery_pc

abbrev pub has_timeout : Asking → Bool
has_timeout (waiting t) = t
has_timeout _ = true

-- Every socket on which a thread waits in `RecvAll`, or will do so, has a timeout.
pub record AllTimed (s : Life) : Type 0 where
  pub video : s.video_timed ≡ true
  pub later : s.timed ≡ true
  pub audio : has_timeout s.audio_pc ≡ true
  pub battery : has_timeout s.battery_pc ≡ true

-- A step within `Stop` brings its end nearer, and leaves the flags cleared and the timeouts set.
abbrev pub Nearer : Life → Life → Type 0
Nearer s t =
    (to_go t < to_go s) × ((t.v_running || t.a_running) ≡ false) × (AllTimed s → AllTimed t)

user-Nearer :
    {s t : Life} → UserStep s t → s.main ≢ gtk → (s.v_running || s.a_running) ≡ false → Nearer s t
user-Nearer (UserStep.press_server e0 e1) stops off =
    (ground arith, ground arith, λ a. ground (arith, a.video, a.later, a.audio, a.battery))
user-Nearer (UserStep.press_start v a e2 e3 e4) stops off =
    (ground arith, ground arith, λ a. ground (arith, a.video, a.later, a.audio, a.battery))
user-Nearer (UserStep.press_stop e0) stops off =
    (ground arith, ground arith, λ a. ground (arith, a.video, a.later, a.audio, a.battery))
user-Nearer (UserStep.choose_mode t e1) stops off =
    (ground arith, ground arith, λ a. ground (arith, a.video, a.later, a.audio, a.battery))

own-Nearer :
    {s t : Life} → OwnStep s t → s.main ≢ gtk → (s.v_running || s.a_running) ≡ false → Nearer s t
own-Nearer (OwnStep.no_client e0 e1 e2 e3) stops off =
    (ground arith, ground arith, λ a. ground (arith, a.video, a.later, a.audio, a.battery))
own-Nearer (OwnStep.header_asked e0 e1 e2) stops off =
    (ground arith, ground arith, λ a. ground (arith, a.video, a.later, a.audio, a.battery))
own-Nearer (OwnStep.video_times_out e0 e1 e2) stops off =
    (ground arith, ground arith, λ a. ground (arith, a.video, a.later, a.audio, a.battery))
own-Nearer (OwnStep.loop_goes e0 e1 e2) stops off =
    (ground arith, ground arith, λ a. ground (arith, a.video, a.later, a.audio, a.battery))
own-Nearer (OwnStep.loop_stops e0 e1 e2) stops off =
    (ground arith, ground arith, λ a. ground (arith, a.video, a.later, a.audio, a.battery))
own-Nearer (OwnStep.audio_asks e0 e1) stops off =
    (ground arith, ground arith, λ a. ground (arith, a.video, a.later, a.audio, a.battery))
own-Nearer (OwnStep.audio_gives_up e0 e1) stops off =
    (ground arith, ground arith, λ a. ground (arith, a.video, a.later, a.audio, a.battery))
own-Nearer (OwnStep.audio_times_out e0 e1) stops off =
    (ground arith, ground arith, λ a. ground (arith, a.video, a.later, a.audio, a.battery))
own-Nearer (OwnStep.audio_stops e0 e1 e2) stops off =
    (ground arith, ground arith, λ a. ground (arith, a.video, a.later, a.audio, a.battery))
own-Nearer (OwnStep.decode_ends e0 e1) stops off =
    (ground arith, ground arith, λ a. ground (arith, a.video, a.later, a.audio, a.battery))
own-Nearer (OwnStep.battery_asks e0 e1 e2) stops off =
    (ground arith, ground arith, λ a. ground (arith, a.video, a.later, a.audio, a.battery))
own-Nearer (OwnStep.battery_times_out e0 e1) stops off =
    (ground arith, ground arith, λ a. ground (arith, a.video, a.later, a.audio, a.battery))
own-Nearer (OwnStep.battery_ends e0 e1 e2) stops off =
    (ground arith, ground arith, λ a. ground (arith, a.video, a.later, a.audio, a.battery))
own-Nearer (OwnStep.video_joined e0 e1 e2) stops off =
    (ground arith, ground arith, λ a. ground (arith, a.video, a.later, a.audio, a.battery))
own-Nearer (OwnStep.no_video e0 e1) stops off =
    (ground arith, ground arith, λ a. ground (arith, a.video, a.later, a.audio, a.battery))
own-Nearer (OwnStep.audio_joined e0 e1 e2) stops off =
    (ground arith, ground arith, λ a. ground (arith, a.video, a.later, a.audio, a.battery))
own-Nearer (OwnStep.no_audio e0 e1) stops off =
    (ground arith, ground arith, λ a. ground (arith, a.video, a.later, a.audio, a.battery))
own-Nearer (OwnStep.decode_joined e0 e1 e2) stops off =
    (ground arith, ground arith, λ a. ground (arith, a.video, a.later, a.audio, a.battery))
own-Nearer (OwnStep.no_decode e0 e1) stops off =
    (ground arith, ground arith, λ a. ground (arith, a.video, a.later, a.audio, a.battery))
own-Nearer (OwnStep.battery_joined e0 e1 e2) stops off =
    (ground arith, ground arith, λ a. ground (arith, a.video, a.later, a.audio, a.battery))
own-Nearer (OwnStep.no_battery e0 e1) stops off =
    (ground arith, ground arith, λ a. ground (arith, a.video, a.later, a.audio, a.battery))

phone-Nearer :
    {s t : Life} → PhoneStep s t → s.main ≢ gtk → (s.v_running || s.a_running) ≡ false → Nearer s t
phone-Nearer (PhoneStep.client_accepted e0 e1 e2) stops off =
    (ground arith, ground arith, λ a. ground (arith, a.video, a.later, a.audio, a.battery))
phone-Nearer (PhoneStep.header_arrives e0 e1) stops off =
    (ground arith, ground arith, λ a. ground (arith, a.video, a.later, a.audio, a.battery))
phone-Nearer (PhoneStep.length_arrives e0 e1) stops off =
    (ground arith, ground arith, λ a. ground (arith, a.video, a.later, a.audio, a.battery))
phone-Nearer (PhoneStep.data_arrives e0 e1) stops off =
    (ground arith, ground arith, λ a. ground (arith, a.video, a.later, a.audio, a.battery))
phone-Nearer (PhoneStep.request_fails e0 e1) stops off =
    (ground arith, ground arith, λ a. ground (arith, a.video, a.later, a.audio, a.battery))
phone-Nearer (PhoneStep.video_lost e0 e1) stops off =
    (ground arith, ground arith, λ a. ground (arith, a.video, a.later, a.audio, a.battery))
phone-Nearer (PhoneStep.client_lost e0 e1 e2 e3) stops off =
    (ground arith, ground arith, λ a. ground (arith, a.video, a.later, a.audio, a.battery))
phone-Nearer (PhoneStep.audio_by_udp e0 e1) stops off =
    (ground arith, ground arith, λ a. ground (arith, a.video, a.later, a.audio, a.battery))
phone-Nearer (PhoneStep.audio_answers t e1 e2) stops off =
    (ground arith, ground arith, λ a. ground (arith, a.video, a.later, a.audio, a.battery))
phone-Nearer (PhoneStep.audio_refused t e1 e2) stops off =
    (ground arith, ground arith, λ a. ground (arith, a.video, a.later, a.audio, a.battery))
phone-Nearer (PhoneStep.audio_lost e0 e1) stops off =
    (ground arith, ground arith, λ a. ground (arith, a.video, a.later, a.audio, a.battery))
phone-Nearer (PhoneStep.battery_answers t e1 e2) stops off =
    (ground arith, ground arith, λ a. ground (arith, a.video, a.later, a.audio, a.battery))

pub step-Nearer :
    {s t : Life} → ThreadStep s t → s.main ≢ gtk → (s.v_running || s.a_running) ≡ false → Nearer s t
step-Nearer (ThreadStep.by_user st) stops off = user-Nearer st stops off
step-Nearer (ThreadStep.by_itself st) stops off = own-Nearer st stops off
step-Nearer (ThreadStep.by_phone st) stops off = phone-Nearer st stops off
