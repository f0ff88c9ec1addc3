-- ===== src/Life/Silent.antt =====
-- `Stop` does not come back while a phone is silent on a socket without a timeout.
use droidcam_linux_client.Prelude.{◌≡◌, true, false}
use droidcam_linux_client.Life.{join_video, running, Life}
use droidcam_linux_client.Life.Steps.{receives, OwnStep}

-- `Stop` waits for the video thread, which waits for a phone, on a socket without a timeout.
pub record IsStuck (s : Life) : Type 0 where
  pub main : s.main ≡ join_video
  pub handle : s.h_video ≡ true
  pub video : s.video ≡ running
  pub receiving : receives s.video_pc ≡ true
  pub timeless : s.video_timed ≡ false

-- Any steps in which the phone is silent.
pub data Silently : Life → Life → Type 0 where
  still : (s : Life) → Silently s s
  go : {s t u : Life} → OwnStep s t → Silently t u → Silently s u
