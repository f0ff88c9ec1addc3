-- ===== src/Cli/Start.antt =====
-- `main` of src/droidcam-cli.c up to the threads that it starts.
use droidcam_linux_client.Prelude.{
  ℕ, ◌≡◌, refl, Bool, true, false, not, ◌||◌, if◌then◌else◌, Option, none, some, arith, if-holds,
}
use droidcam_linux_client.Prelude.Int.{ℤ, pos, negsuc, leb_ℤ, is_zero}
use droidcam_linux_client.Net.Defs.{invalid_socket, is_invalid}
use droidcam_linux_client.Cli.Args.{Target, server, adb, ios, wifi}

-- What `decoder_init`, `CheckAdbDevices`, `CheckiOSDevices` and `Connect` return.
pub record StartAnswers : Type 0 where
  pub decoder_ok : Bool
  pub adb_rc : ℤ
  pub ios_rc : ℤ
  pub socket : ℤ

-- `main` returns with a status, or runs, with the socket of the video thread, if that is started,
-- and the audio thread, if that is.
pub data Main : Type 0 where
  returns : ℕ → Main
  runs : (video : Option ℤ) (audio : Bool) → Main

-- `Connect` over the network.
unfoldable pub connect_video : Bool → StartAnswers → Main
connect_video audio a = if is_invalid a.socket then returns 0 else runs (some a.socket) audio

-- The socket of the video thread; the server's is made in the thread.
unfoldable pub start_video : Target → Bool → StartAnswers → Main
unfolding connect_video
start_video server audio a = runs (some invalid_socket) audio
start_video wifi audio a = connect_video audio a
start_video adb audio a = if not (is_zero a.adb_rc) then returns 1 else connect_video audio a
start_video ios audio a = if leb_ℤ a.ios_rc (pos 0) then returns 1 else runs (some a.ios_rc) audio

-- Without video the audio thread alone is started.
unfoldable pub start_audio : Target → StartAnswers → Main
start_audio adb a = if not (is_zero a.adb_rc) then returns 1 else runs none true
start_audio _ a = runs none true

-- Video is the default.
unfoldable pub start_main : Target → (v_running a_running : Bool) → StartAnswers → Main
start_main target v_running a_running a =
    if not a.decoder_ok
    then returns 2
    else if v_running || not a_running
    then start_video target a_running a
    else start_audio target a

abbrev is_server : Target → Bool
is_server server = true
is_server _ = false

-- A thread runs, and the video thread has a socket unless it makes its own.
abbrev pub HasWork : Target → Main → Type 0
HasWork target (returns n) = Unit {0}
HasWork target (runs none audio) = audio ≡ true
HasWork target (runs (some s) audio) = is_invalid s ≡ is_server target

connect-HasWork :
    (target : Target) (audio : Bool) (a : StartAnswers)
    → is_server target ≡ false
    → HasWork target (connect_video audio a)
unfolding connect_video
connect-HasWork target audio a phone =
    if-holds (is_invalid a.socket) _ _ (HasWork target) (λ e. tt) (λ e. rw (e, phone))

positive_valid : (s : ℤ) → leb_ℤ s (pos 0) ≡ false → is_invalid s ≡ false
positive_valid (pos n) h = refl
positive_valid (negsuc n) h = ground arith

video-HasWork :
    (target : Target) (audio : Bool) (a : StartAnswers)
    → HasWork target (start_video target audio a)
unfolding start_video
video-HasWork server audio a = refl
video-HasWork wifi audio a = connect-HasWork wifi audio a refl
video-HasWork adb audio a =
    if-holds (not (is_zero a.adb_rc)) _ _ (HasWork adb) (λ e. tt)
      (λ e. connect-HasWork adb audio a refl)
video-HasWork ios audio a =
    if-holds (leb_ℤ a.ios_rc (pos 0)) _ _ (HasWork ios) (λ e. tt) (λ e. positive_valid a.ios_rc e)

audio-HasWork : (target : Target) (a : StartAnswers) → HasWork target (start_audio target a)
unfolding start_audio
audio-HasWork server a = refl
audio-HasWork wifi a = refl
audio-HasWork ios a = refl
audio-HasWork adb a = if-holds (not (is_zero a.adb_rc)) _ _ (HasWork adb) (λ e. tt) (λ e. refl)

-- Whatever the options are and the checks answer: where `main` goes on to run, at least one of the
-- video and audio threads is started, and a started video thread is given a valid socket in every
-- mode but the server's, where it is given INVALID_SOCKET and makes its own.
main-HasWork :
    (target : Target) (v_running a_running : Bool) (a : StartAnswers)
    → HasWork target (start_main target v_running a_running a)
unfolding start_main
main-HasWork target v_running a_running a =
    if-holds (not a.decoder_ok) _ _ (HasWork target) (λ e. tt)
      (λ e.
        if-holds (v_running || not a_running) _ _ (HasWork target)
          (λ e. video-HasWork target a_running a) (λ e. audio-HasWork target a))
