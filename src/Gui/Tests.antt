-- ===== src/Gui/Tests.antt =====
-- The graphical client on concrete events.
use droidcam_linux_client.Prelude.{
  ℕ, ◌≡◌, refl, true, false, List, [], ◌∷◌, ◌==◌, Option, none, some,
}
use droidcam_linux_client.Prelude.Int.{pos}
use droidcam_linux_client.Prelude.Text.{Text, codes}
use droidcam_linux_client.Video.Flip.{TransformOp, of_mirrors, decoder_horizontal_flip}
use droidcam_linux_client.Gui.Args.{parse_args, read_arg, delete_window_callback}
use droidcam_linux_client.Gui.State.{wifi, adb, server, connect, prepare, Gui}
use droidcam_linux_client.Gui.Start.{StartInput, start, stop_all}
use droidcam_linux_client.Gui.Events.{
  Event, button, radio, video_box, exposure, control, command_sent, stream_prepared, Control, run,
  press_button, step,
}
use droidcam_linux_client.Gui.Handles.{Matches}
use droidcam_linux_client.Settings.Defs.{Settings, defaults}
use droidcam_linux_client.Gui.Session.{reload_flips, begin, next_start_same_picture}
use droidcam_linux_client.Gui.Threads.{threads-Matches}
use droidcam_linux_client.Gui.Outcome.{AllOrNothing, start-AllOrNothing}
use droidcam_linux_client.Gui.Controls.{Keeps, command_kept}

abbrev idle : Gui
idle = record {
  mode = wifi;
  audio = true;
  video = true;
  port = pos 4747;
  ip = [];
  v_running = false;
  a_running = false;
  v_active = false;
  a_active = false;
  video_thread = false;
  audio_thread = false;
  decode_thread = false;
  battery_thread = false;
  thread_cmd = 0;
  value = 0;
  el_active = false;
  horizontal_flip = false;
  vertical_flip = false;
  op = TransformOp.none;
  invert = false;
  widgets = record {
    label = connect;
    ip_entry = true;
    port_entry = true;
    audio_box = true;
    video_box = true;
    controls = false;
  };
  notices = [];
  sockets = [];
}

abbrev input : StartInput
input = record {
  port = pos 4747;
  ip = codes "10.0.0.2";
  adb_rc = pos 0;
  ios_rc = pos 0;
  connected = pos 5;
}

abbrev session : List Event
session =
    button input
    ∷ control Control.zoom_in
    ∷ command_sent
    ∷ button input
    ∷ radio adb
    ∷ button input
    ∷ []

threads-Matches_example : Matches (run session (stop_all idle))
threads-Matches_example = threads-Matches session idle

session_runs : (run session (stop_all idle)).video_thread ≡ true
unfolding run step start stop_all
session_runs = refl

start-AllOrNothing_example : AllOrNothing idle (press_button input idle)
start-AllOrNothing_example = start-AllOrNothing input idle (refl, refl) (λ e. cc)

-- A phone is connected and a zoom command waits.
abbrev zooming : Gui
zooming = run (button input ∷ control Control.zoom_in ∷ []) idle

abbrev restart : List Event
restart =
    control Control.h_flip ∷ button input ∷ button input ∷ stream_prepared ∷ exposure true ∷ []

zooming_waits : (zooming.thread_cmd == 0) ≡ false
unfolding run step start
zooming_waits = refl

zooming_wide : zooming.invert ≡ false
unfolding run step start
zooming_wide = refl

command_kept_example : Keeps zooming (run restart zooming)
command_kept_example =
    command_kept restart zooming zooming_wide (refl, (refl, (refl, (refl, (refl, tt)))))
      zooming_waits

-- The command reaches the phone of the new connection.
command_survives : (run restart zooming).thread_cmd ≡ 6
unfolding run step start stop_all
command_survives = refl

-- With the audio stream alone, a radio button makes the button say "Prepare" while it would stop the
-- stream.
audio_only_label :
    let g = run (video_box false ∷ button input ∷ radio server ∷ []) idle in
    (g.widgets.label ≡ prepare) × (g.a_running ≡ true)
unfolding run step start
audio_only_label = (refl, refl)

abbrev flipped_before : Settings
flipped_before = record defaults { horizontal_flip = pos 1; connection = pos 1 }

abbrev flip_both : List Event
flip_both = button input ∷ control Control.h_flip ∷ control Control.v_flip ∷ []

next_start_same_picture_example :
    let last = run flip_both (begin flipped_before idle) in
    (last.op ≡ of_mirrors (last.horizontal_flip, last.vertical_flip))
    × (reload_flips last.horizontal_flip last.vertical_flip TransformOp.none ≡ last.op)
next_start_same_picture_example = next_start_same_picture flipped_before idle flip_both refl

-- For a webcam that is taller than wide a new stream turns the picture, and the flip is lost while it
-- stays in the settings.
tall_flip_lost :
    let g =
      run
        (button input ∷ control Control.h_flip ∷ stream_prepared ∷ [])
        (record idle { invert = true }) in
    (g.op ≡ TransformOp.rot90) × (g.horizontal_flip ≡ true)
unfolding run step start decoder_horizontal_flip
tall_flip_lost = (refl, refl)

-- "-size=8x6 -dev=a -x -dev=b", and "-h" among others.
abbrev scan_one : Text → Option (ℕ × ℕ)
scan_one t = some (8, 6)

abbrev device_args : List Text
device_args = codes "-size=8x6" ∷ codes "-dev=a" ∷ codes "-x" ∷ codes "-dev=b" ∷ []

args_run :
    (parse_args scan_one device_args (record { v4l2_dev = none; v4l2_size = (640, 480) })
      ≡ some (record { v4l2_dev = some (codes "b"); v4l2_size = (8, 6) }))
    × (parse_args scan_one
          (codes "-dev=a" ∷ codes "-help" ∷ [])
          (record { v4l2_dev = none; v4l2_size = (640, 480) })
        ≡ none)
    × (delete_window_callback true false true true ≡ true)
unfolding parse_args read_arg delete_window_callback
args_run = (refl, refl, refl)
