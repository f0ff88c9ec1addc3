-- ===== src/Gui/Threads.antt =====
-- The thread handles, the sockets and the widgets of src/droidcam.c over all runs of events.
use droidcam_linux_client.Prelude.{ℕ, ◌≡◌, refl, Bool, ◌&&◌, if-holds, List, [], ◌∷◌, arith}
use droidcam_linux_client.Gui.State.{Mode, Gui}
use droidcam_linux_client.Gui.Start.{StartInput, stop_all}
use droidcam_linux_client.Gui.Events.{
  Event, button, radio, audio_box, video_box, exposure, control, white_balance, command_sent,
  stream_prepared, active, Control, run_control, choose, orient_picture, press_button,
  lock_exposure, controls_callback, wb_callback, step, run,
}
use droidcam_linux_client.Gui.Handles.{running, Matches, start-Matches, stop_all-Matches}

choose-Matches : (mode : Mode) (g : Gui) → Matches g → Matches (choose mode g)
unfolding choose
choose-Matches mode g m = record {
  video = ground (arith, m.video);
  decode = ground (arith, m.decode);
  audio = ground (arith, m.audio);
  battery = ground (arith, m.battery);
  controls = ground (arith, m.controls);
  closed = ground (arith, m.closed);
  one_socket = ground (arith, m.one_socket);
}

-- An event that leaves the threads, the sockets and the widgets alone.
abbrev pub Leaves : Gui → Gui → Type 0
Leaves g h =
    (h.v_running ≡ g.v_running)
    × (h.a_running ≡ g.a_running)
    × (h.video_thread ≡ g.video_thread)
    × (h.decode_thread ≡ g.decode_thread)
    × (h.audio_thread ≡ g.audio_thread)
    × (h.battery_thread ≡ g.battery_thread)
    × (h.widgets ≡ g.widgets)
    × (h.sockets ≡ g.sockets)

Leaves-Matches : (g h : Gui) → Leaves g h → Matches g → Matches h
Leaves-Matches g h same m = record {
  video = ground (arith, same, m.video);
  decode = ground (arith, same, m.decode);
  audio = ground (arith, same, m.audio);
  battery = ground (arith, same, m.battery);
  controls = ground (arith, same, m.controls);
  closed = ground (arith, same, m.closed);
  one_socket = ground (arith, same, m.one_socket);
}

lock-Leaves : (on : Bool) (g : Gui) → Leaves g (lock_exposure on g)
unfolding lock_exposure
lock-Leaves on g =
    if-holds _ _ _ (Leaves g) (λ e. (refl, refl, refl, refl, refl, refl, refl, refl))
      (λ e. (refl, refl, refl, refl, refl, refl, refl, refl))

run_control-Leaves : (c : Control) (g : Gui) → Leaves g (run_control c g)
run_control-Leaves Control.zoom_in g = (refl, refl, refl, refl, refl, refl, refl, refl)
run_control-Leaves Control.zoom_out g = (refl, refl, refl, refl, refl, refl, refl, refl)
run_control-Leaves Control.auto_focus g = (refl, refl, refl, refl, refl, refl, refl, refl)
run_control-Leaves Control.led g = (refl, refl, refl, refl, refl, refl, refl, refl)
run_control-Leaves Control.h_flip g = (refl, refl, refl, refl, refl, refl, refl, refl)
run_control-Leaves Control.v_flip g = (refl, refl, refl, refl, refl, refl, refl, refl)

control-Leaves : (c : Control) (g : Gui) → Leaves g (controls_callback c g)
unfolding controls_callback
control-Leaves c g =
    if-holds _ g (run_control c g) (Leaves g)
      (λ e. (refl, refl, refl, refl, refl, refl, refl, refl)) (λ e. run_control-Leaves c g)

wb-Leaves : (n : ℕ) (g : Gui) → Leaves g (wb_callback n g)
unfolding wb_callback
wb-Leaves n g =
    if-holds _ _ _ (Leaves g) (λ e. (refl, refl, refl, refl, refl, refl, refl, refl))
      (λ e. (refl, refl, refl, refl, refl, refl, refl, refl))

orient-Leaves : (g : Gui) → Leaves g (orient_picture g)
unfolding orient_picture
orient-Leaves g =
    if-holds (g.video_thread && g.invert) _ _ (Leaves g)
      (λ e. (refl, refl, refl, refl, refl, refl, refl, refl))
      (λ e. (refl, refl, refl, refl, refl, refl, refl, refl))

button-Matches : (i : StartInput) (g : Gui) → Matches g → Matches (press_button i g)
unfolding press_button
button-Matches i g m =
    if-holds (running g) _ _ Matches (λ e. choose-Matches g.mode (stop_all g) (stop_all-Matches g))
      (λ e. start-Matches i g (ground arith, ground arith) m)

step-Matches : (e : Event) (g : Gui) → Matches g → Matches (step e g)
unfolding step
step-Matches (button i) g m = button-Matches i g m
step-Matches (radio mode) g m = choose-Matches mode g m
step-Matches (audio_box on) g m =
    Leaves-Matches g _ (refl, refl, refl, refl, refl, refl, refl, refl) m
step-Matches (video_box on) g m =
    Leaves-Matches g _ (refl, refl, refl, refl, refl, refl, refl, refl) m
step-Matches (exposure on) g m = Leaves-Matches g _ (lock-Leaves on g) m
step-Matches (control c) g m = Leaves-Matches g _ (control-Leaves c g) m
step-Matches (white_balance n) g m = Leaves-Matches g _ (wb-Leaves n g) m
step-Matches command_sent g m =
    Leaves-Matches g _ (refl, refl, refl, refl, refl, refl, refl, refl) m
step-Matches stream_prepared g m = Leaves-Matches g _ (orient-Leaves g) m
step-Matches (active v a) g m =
    Leaves-Matches g _ (refl, refl, refl, refl, refl, refl, refl, refl) m

run-Matches : (es : List Event) (g : Gui) → Matches g → Matches (run es g)
unfolding run
run-Matches [] g m = m
run-Matches (e ∷ es) g m = run-Matches es (step e g) (step-Matches e g m)

-- From the `Stop` with which the program begins, and through any events in any order: a handle of the
-- video, decode and audio threads is set exactly while the flag of its stream is, no battery thread is
-- left where neither stream runs, the control buttons can be used exactly while one runs, no socket that
-- `Start` connected is left without the video stream, and never more than one.
pub threads-Matches : (es : List Event) (g : Gui) → Matches (run es (stop_all g))
threads-Matches es g = run-Matches es (stop_all g) (stop_all-Matches g)
