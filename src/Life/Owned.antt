-- ===== src/Life/Owned.antt =====
-- No thread is lost.
use droidcam_linux_client.Prelude.{◌≡◌, Bool, true, false, ◌||◌, arith}
use droidcam_linux_client.Life.{
  MainPc, gtk, join_video, join_audio, join_decode, join_battery, Worker, absent, Life,
}
use droidcam_linux_client.Life.Steps.{UserStep, OwnStep, PhoneStep, ThreadStep, Reach}

abbrev pub is_there : Worker → Bool
is_there absent = false
is_there _ = true

-- Nothing of a stream is left.
abbrev pub Clean : Life → Type 0
Clean s =
    (s.v_running ≡ false)
    × (s.a_running ≡ false)
    × (s.video ≡ absent)
    × (s.audio ≡ absent)
    × (s.decode ≡ absent)
    × (s.battery ≡ absent)

-- The handles that the joins have cleared.
abbrev pub Joined : MainPc → Life → Type 0
Joined gtk s =
    (s.v_running || s.a_running) ≡ false
    → (s.h_video ≡ false) × (s.h_audio ≡ false) × (s.h_decode ≡ false) × (s.h_battery ≡ false)
Joined join_video s = Unit {0}
Joined join_audio s = s.h_video ≡ false
Joined join_decode s = (s.h_video ≡ false) × (s.h_audio ≡ false)
Joined join_battery s = (s.h_video ≡ false) × (s.h_audio ≡ false) × (s.h_decode ≡ false)

abbrev pub is_gtk : MainPc → Bool
is_gtk gtk = true
is_gtk _ = false

pub record IsOwned (s : Life) : Type 0 where
  pub none_lost : s.lost ≡ 0
  pub video : s.h_video ≡ is_there s.video
  pub audio : s.h_audio ≡ is_there s.audio
  pub decode : s.h_decode ≡ is_there s.decode
  pub battery : s.h_battery ≡ is_there s.battery
  pub stopping : is_gtk s.main ≡ false → (s.v_running || s.a_running) ≡ false
  pub joined : Joined s.main s

user-IsOwned : {s t : Life} → UserStep s t → IsOwned s → IsOwned t
user-IsOwned (UserStep.press_server e0 e1) own = ground arith
user-IsOwned (UserStep.press_start v a e2 e3 e4) own = ground arith
user-IsOwned (UserStep.press_stop e0) own = ground arith
user-IsOwned (UserStep.choose_mode t e1) own = ground arith

own-IsOwned : {s t : Life} → OwnStep s t → IsOwned s → IsOwned t
own-IsOwned (OwnStep.no_client e0 e1 e2 e3) own = ground arith
own-IsOwned (OwnStep.header_asked e0 e1 e2) own = ground arith
own-IsOwned (OwnStep.video_times_out e0 e1 e2) own = ground arith
own-IsOwned (OwnStep.loop_goes e0 e1 e2) own = ground arith
own-IsOwned (OwnStep.loop_stops e0 e1 e2) own = ground arith
own-IsOwned (OwnStep.audio_asks e0 e1) own = ground arith
own-IsOwned (OwnStep.audio_gives_up e0 e1) own = ground arith
own-IsOwned (OwnStep.audio_times_out e0 e1) own = ground arith
own-IsOwned (OwnStep.audio_stops e0 e1 e2) own = ground arith
own-IsOwned (OwnStep.decode_ends e0 e1) own = ground arith
own-IsOwned (OwnStep.battery_asks e0 e1 e2) own = ground arith
own-IsOwned (OwnStep.battery_times_out e0 e1) own = ground arith
own-IsOwned (OwnStep.battery_ends e0 e1 e2) own = ground arith
own-IsOwned (OwnStep.video_joined e0 e1 e2) own = ground arith
own-IsOwned (OwnStep.no_video e0 e1) own = ground arith
own-IsOwned (OwnStep.audio_joined e0 e1 e2) own = ground arith
own-IsOwned (OwnStep.no_audio e0 e1) own = ground arith
own-IsOwned (OwnStep.decode_joined e0 e1 e2) own = ground arith
own-IsOwned (OwnStep.no_decode e0 e1) own = ground arith
own-IsOwned (OwnStep.battery_joined e0 e1 e2) own = ground arith
own-IsOwned (OwnStep.no_battery e0 e1) own = ground arith

phone-IsOwned : {s t : Life} → PhoneStep s t → IsOwned s → IsOwned t
phone-IsOwned (PhoneStep.client_accepted e0 e1 e2) own = ground arith
phone-IsOwned (PhoneStep.header_arrives e0 e1) own = ground arith
phone-IsOwned (PhoneStep.length_arrives e0 e1) own = ground arith
phone-IsOwned (PhoneStep.data_arrives e0 e1) own = ground arith
phone-IsOwned (PhoneStep.request_fails e0 e1) own = ground arith
phone-IsOwned (PhoneStep.video_lost e0 e1) own = ground arith
phone-IsOwned (PhoneStep.client_lost e0 e1 e2 e3) own = ground arith
phone-IsOwned (PhoneStep.audio_by_udp e0 e1) own = ground arith
phone-IsOwned (PhoneStep.audio_answers t e1 e2) own = ground arith
phone-IsOwned (PhoneStep.audio_refused t e1 e2) own = ground arith
phone-IsOwned (PhoneStep.audio_lost e0 e1) own = ground arith
phone-IsOwned (PhoneStep.battery_answers t e1 e2) own = ground arith

pub step-IsOwned : {s t : Life} → ThreadStep s t → IsOwned s → IsOwned t
step-IsOwned (ThreadStep.by_user st) own = user-IsOwned st own
step-IsOwned (ThreadStep.by_itself st) own = own-IsOwned st own
step-IsOwned (ThreadStep.by_phone st) own = phone-IsOwned st own

-- In every state that the client can come to, whatever the user does and whenever the threads end:
-- no handle of a thread has been overwritten, a handle is kept exactly for the threads that were
-- created and not yet joined, the flags are cleared all through `Stop`, and in the main loop
-- with both flags cleared no thread is left.
pub threads-IsOwned : {s : Life} → Reach s → IsOwned s
threads-IsOwned Reach.begins = ground arith
threads-IsOwned (Reach.next r st) = step-IsOwned st (threads-IsOwned r)

pub owned-Clean :
    (s : Life) → IsOwned s → s.main ≡ gtk → (s.v_running || s.a_running) ≡ false → Clean s
owned-Clean s own at off = ground arith
