-- ===== src/Gui/Events.antt =====
-- `the_callback`, `controls_callback` and `wb_callback` of src/droidcam.c, with what the video thread
-- does to the command.
use droidcam_linux_client.Prelude.{
  ℕ, Bool, true, false, not, ◌&&◌, ◌||◌, ◌==◌, ltb, if◌then◌else◌, List, [], ◌∷◌,
}
use droidcam_linux_client.Cli.Keys
use droidcam_linux_client.Video.Flip.{rot90, decoder_horizontal_flip, decoder_vertical_flip}
use droidcam_linux_client.Gui.State.{
  Mode, wifi, server, Label, prepare, connect, Widgets, Gui, unknown,
}
use droidcam_linux_client.Gui.Start.{StartInput, start, stop_all}

-- CB_CONTROL_EL_OFF, CB_CONTROL_EL_ON and CB_CONTROL_WB
abbrev pub el_off : ℕ
el_off = 1

abbrev pub el_on : ℕ
el_on = 2

abbrev pub wb : ℕ
wb = 3

-- The entries of the menu and the keyboard shortcuts.
pub data Control : Type 0 where
  zoom_in zoom_out auto_focus led h_flip v_flip : Control

-- What happens: the start button, a radio button, a check box, the exposure button with its new
-- state, a control, an entry of the white-balance menu, the video thread that has sent the command,
-- the video thread whose `decoder_prepare_video` has prepared a new stream, and the streams that
-- become active or not.
pub data Event : Type 0 where
  button : StartInput → Event
  radio : Mode → Event
  audio_box video_box exposure : Bool → Event
  control : Control → Event
  white_balance : ℕ → Event
  command_sent stream_prepared : Event
  active : (v a : Bool) → Event

abbrev pub mode_label : Mode → Label
mode_label server = prepare
mode_label _ = connect

abbrev pub edits_ip : Mode → Bool
edits_ip wifi = true
edits_ip _ = false

abbrev pub has_boxes : Mode → Bool
has_boxes server = false
has_boxes _ = true

abbrev pub mode_widgets : Mode → Bool → Widgets
mode_widgets m controls = record {
  label = mode_label m;
  ip_entry = edits_ip m;
  port_entry = true;
  audio_box = has_boxes m;
  video_box = has_boxes m;
  controls = controls;
}

abbrev pub is_unknown : Mode → Bool
is_unknown unknown = true
is_unknown _ = false

-- A radio button; the widgets follow only while `v_running` is 0. A number without a case changes nothing.
unfoldable pub choose : Mode → Gui → Gui
choose m g =
    let g : Gui = record g { mode = m } in
    if g.v_running || is_unknown m
    then g
    else record g { widgets = mode_widgets m g.widgets.controls }

-- CB_BUTTON: stop, and then the radio button of the mode, or start.
unfoldable pub press_button : StartInput → Gui → Gui
unfolding choose
press_button i g = if g.v_running || g.a_running then choose g.mode (stop_all g) else start i g

-- CB_BTN_EL: without a stream, or with a command waiting, the button is released again.
unfoldable pub lock_exposure : Bool → Gui → Gui
lock_exposure on g =
    if not g.v_running || not (g.thread_cmd == 0)
    then record g { el_active = false }
    else record g { el_active = on; thread_cmd = if on then el_on else el_off }

abbrev pub send : ℕ → Gui → Gui
send cmd g = record g { thread_cmd = cmd }

abbrev pub flip_horizontally : Gui → Gui
flip_horizontally g =
    let r = decoder_horizontal_flip g.op in record g { op = r.0; horizontal_flip = r.1 }

abbrev pub flip_vertically : Gui → Gui
flip_vertically g = let r = decoder_vertical_flip g.op in record g { op = r.0; vertical_flip = r.1 }

abbrev pub run_control : Control → Gui → Gui
run_control Control.zoom_in g = send Keys.zoom_in g
run_control Control.zoom_out g = send Keys.zoom_out g
run_control Control.auto_focus g = send Keys.auto_focus g
run_control Control.led g = send Keys.led g
run_control Control.h_flip g = flip_horizontally g
run_control Control.v_flip g = flip_vertically g

unfoldable pub controls_callback : Control → Gui → Gui
controls_callback c g = if not g.v_running || not (g.thread_cmd == 0) then g else run_control c g

-- `ARRAY_LEN(wb_options)` is 8.
unfoldable pub wb_callback : ℕ → Gui → Gui
wb_callback n g =
    if ltb n 8 && g.v_running && g.thread_cmd == 0
    then record g { value = n; thread_cmd = wb }
    else g

-- The video thread prepares a new stream; for a webcam that is taller than wide it is turned.
unfoldable pub orient_picture : Gui → Gui
orient_picture g = if g.video_thread && g.invert then record g { op = rot90 } else g

unfoldable pub step : Event → Gui → Gui
unfolding press_button choose lock_exposure controls_callback wb_callback orient_picture
step (button i) g = press_button i g
step (radio m) g = choose m g
step (audio_box on) g = record g { audio = on }
step (video_box on) g = record g { video = on }
step (exposure on) g = lock_exposure on g
step (control c) g = controls_callback c g
step (white_balance n) g = wb_callback n g
step command_sent g = record g { thread_cmd = 0 }
step stream_prepared g = orient_picture g
step (active v a) g = record g { v_active = v; a_active = a }

unfoldable pub run : List Event → Gui → Gui
run [] g = g
run (e ∷ es) g = run es (step e g)
