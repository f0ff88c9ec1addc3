-- ===== src/Life/Going.antt =====
-- `Stop` can go on without the phone, where every socket has a timeout.
use droidcam_linux_client.Prelude.{◌≡◌, ◌≢◌, refl, Bool, true, false, ◌||◌, arith}
use droidcam_linux_client.Life.{
  MainPc, gtk, join_video, join_audio, join_decode, join_battery, Worker, absent, running, finished,
  VideoAt, set_up, header, frame_length, frame_data, loop_head, Asking, not_asked, waiting,
  answered, Life,
}
use droidcam_linux_client.Life.Steps.{UserStep, OwnStep, PhoneStep, ThreadStep, Reach}
use droidcam_linux_client.Life.Owned.{IsOwned, is_there}
use droidcam_linux_client.Life.Nearer.{has_timeout, AllTimed}

user-again : {s t : Life} → UserStep s t → s.battery_pc ≢ answered → t.battery_pc ≢ answered
user-again (UserStep.press_server e0 e1) again = again
user-again (UserStep.press_start v a e2 e3 e4) again = λ e. cc
user-again (UserStep.press_stop e0) again = again
user-again (UserStep.choose_mode t e1) again = again

own-again : {s t : Life} → OwnStep s t → s.battery_pc ≢ answered → t.battery_pc ≢ answered
own-again (OwnStep.no_client e0 e1 e2 e3) again = again
own-again (OwnStep.header_asked e0 e1 e2) again = again
own-again (OwnStep.video_times_out e0 e1 e2) again = again
own-again (OwnStep.loop_goes e0 e1 e2) again = again
own-again (OwnStep.loop_stops e0 e1 e2) again = again
own-again (OwnStep.audio_asks e0 e1) again = again
own-again (OwnStep.audio_gives_up e0 e1) again = again
own-again (OwnStep.audio_times_out e0 e1) again = again
own-again (OwnStep.audio_stops e0 e1 e2) again = again
own-again (OwnStep.decode_ends e0 e1) again = again
own-again (OwnStep.battery_asks e0 e1 e2) again = λ e. cc
own-again (OwnStep.battery_times_out e0 e1) again = λ e. cc
own-again (OwnStep.battery_ends e0 e1 e2) again = again
own-again (OwnStep.video_joined e0 e1 e2) again = again
own-again (OwnStep.no_video e0 e1) again = again
own-again (OwnStep.audio_joined e0 e1 e2) again = again
own-again (OwnStep.no_audio e0 e1) again = again
own-again (OwnStep.decode_joined e0 e1 e2) again = again
own-again (OwnStep.no_decode e0 e1) again = again
own-again (OwnStep.battery_joined e0 e1 e2) again = again
own-again (OwnStep.no_battery e0 e1) again = again

phone-again : {s t : Life} → PhoneStep s t → s.battery_pc ≢ answered → t.battery_pc ≢ answered
phone-again (PhoneStep.client_accepted e0 e1 e2) again = again
phone-again (PhoneStep.header_arrives e0 e1) again = again
phone-again (PhoneStep.length_arrives e0 e1) again = again
phone-again (PhoneStep.data_arrives e0 e1) again = again
phone-again (PhoneStep.request_fails e0 e1) again = again
phone-again (PhoneStep.video_lost e0 e1) again = again
phone-again (PhoneStep.client_lost e0 e1 e2 e3) again = again
phone-again (PhoneStep.audio_by_udp e0 e1) again = again
phone-again (PhoneStep.audio_answers t e1 e2) again = again
phone-again (PhoneStep.audio_refused t e1 e2) again = again
phone-again (PhoneStep.audio_lost e0 e1) again = again
phone-again (PhoneStep.battery_answers t e1 e2) again = λ e. cc

step-again : {s t : Life} → ThreadStep s t → s.battery_pc ≢ answered → t.battery_pc ≢ answered
step-again (ThreadStep.by_user st) again = user-again st again
step-again (ThreadStep.by_itself st) again = own-again st again
step-again (ThreadStep.by_phone st) again = phone-again st again

pub Reach-again : {s : Life} → Reach s → s.battery_pc ≢ answered
Reach-again Reach.begins = λ e. cc
Reach-again (Reach.next r st) = step-again st (Reach-again r)

-- The join before which `Stop` stands, or a step of its thread, is possible.
can_join {ℓ} :
    {A : Type ℓ} (h : Bool) (w : Worker)
    → h ≡ is_there w
    → (w ≡ running → A)
    → (h ≡ true → w ≡ finished → A)
    → (h ≡ false → A)
    → A
can_join false w same ends joined null = null refl
can_join true absent same ends joined null = cc
can_join true running same ends joined null = ends refl
can_join true finished same ends joined null = joined refl refl

abbrev pub CanGo : Life → Type 0
CanGo s = (t : Life) × OwnStep s t

video_goes :
    (s : Life) (pc : VideoAt) (server : Bool)
    → s.video_pc ≡ pc
    → s.server ≡ server
    → s.video ≡ running
    → s.v_running ≡ false
    → s.video_timed ≡ true
    → CanGo s
video_goes s set_up true at mode r off timed = (_, OwnStep.no_client r at mode off)
video_goes s set_up false at mode r off timed = (_, OwnStep.header_asked r at mode)
video_goes s header server at mode r off timed = (_, OwnStep.video_times_out r (rw at refl) timed)
video_goes s frame_length server at mode r off timed =
    (_, OwnStep.video_times_out r (rw at refl) timed)
video_goes s frame_data server at mode r off timed =
    (_, OwnStep.video_times_out r (rw at refl) timed)
video_goes s loop_head server at mode r off timed = (_, OwnStep.loop_stops r at off)

audio_goes :
    (s : Life) (pc : Asking)
    → s.audio_pc ≡ pc
    → s.audio ≡ running
    → s.a_running ≡ false
    → has_timeout pc ≡ true
    → CanGo s
audio_goes s not_asked at r off timed = (_, OwnStep.audio_asks r at)
audio_goes s (waiting true) at r off timed = (_, OwnStep.audio_times_out r at)
audio_goes s (waiting false) at r off timed = cc
audio_goes s answered at r off timed = (_, OwnStep.audio_stops r at off)

-- The battery thread is never behind its question: it asks again.
battery_goes :
    (s : Life) (pc : Asking)
    → s.battery_pc ≡ pc
    → pc ≢ answered
    → s.battery ≡ running
    → (s.v_running || s.a_running) ≡ false
    → has_timeout pc ≡ true
    → CanGo s
battery_goes s not_asked at again r off timed = (_, OwnStep.battery_ends r at off)
battery_goes s (waiting true) at again r off timed = (_, OwnStep.battery_times_out r at)
battery_goes s (waiting false) at again r off timed = cc
battery_goes s answered at again r off timed = absurd (again refl)

pub can_go : (s : Life) → IsOwned s → s.battery_pc ≢ answered → AllTimed s → s.main ≢ gtk → CanGo s
can_go s own again timed stops = at_main s.main refl
  where
    at_main : (m : MainPc) → s.main ≡ m → CanGo s
    at_main gtk at = absurd (stops at)
    at_main join_video at =
        can_join s.h_video s.video own.video
          (λ r.
            video_goes s s.video_pc s.server refl refl r (ground (arith, own.stopping, at))
              timed.video)
          (λ h f. (_, OwnStep.video_joined at h f)) (λ h. (_, OwnStep.no_video at h))
    at_main join_audio at =
        can_join s.h_audio s.audio own.audio
          (λ r. audio_goes s s.audio_pc refl r (ground (arith, own.stopping, at)) timed.audio)
          (λ h f. (_, OwnStep.audio_joined at h f)) (λ h. (_, OwnStep.no_audio at h))
    at_main join_decode at =
        can_join s.h_decode s.decode own.decode
          (λ r. (_, OwnStep.decode_ends r (ground (arith, own.stopping, at))))
          (λ h f. (_, OwnStep.decode_joined at h f)) (λ h. (_, OwnStep.no_decode at h))
    at_main join_battery at =
        can_join s.h_battery s.battery own.battery
          (λ r. battery_goes s s.battery_pc refl again r (own.stopping (rw at refl)) timed.battery)
          (λ h f. (_, OwnStep.battery_joined at h f)) (λ h. (_, OwnStep.no_battery at h))
