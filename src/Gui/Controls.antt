-- ===== src/Gui/Controls.antt =====
-- The command for the phone, and what the start button says.
use droidcam_linux_client.Prelude.{
  ℕ, ◌≡◌, refl, Bool, true, false, not, ◌&&◌, ◌||◌, ltb, if-holds, List, [], ◌∷◌, length, take,
  arith, ◌==◌, ◌∙◌,
}
use droidcam_linux_client.Prelude.Int.{ℤ, pos, leb_ℤ, ltb_ℤ, is_zero}
use droidcam_linux_client.Prelude.Text.{Text, codes}
use droidcam_linux_client.Net.Defs.{is_invalid}
use droidcam_linux_client.Gui.State.{Mode, wifi, adb, ios, server, wait, Gui, unknown}
use droidcam_linux_client.Gui.Start.{
  StartInput, set_label, show_running, start_server, start_threads, start_ip, start_mode, start,
  stop_all, is_server,
}
use droidcam_linux_client.Gui.Events.{
  is_unknown, Event, button, radio, audio_box, video_box, exposure, control, white_balance,
  command_sent, stream_prepared, active, Control, orient_picture, choose, press_button,
  lock_exposure, controls_callback, wb_callback, step, run,
}

-- The command, its value and the picture's orientation are the same.
abbrev pub Keeps : Gui → Gui → Type 0
Keeps g h =
    (h.thread_cmd ≡ g.thread_cmd)
    × (h.value ≡ g.value)
    × (h.op ≡ g.op)
    × (h.horizontal_flip ≡ g.horizontal_flip)
    × (h.vertical_flip ≡ g.vertical_flip)
    × (h.invert ≡ g.invert)

abbrev same : (g : Gui) → Keeps g g
same g = (refl, refl, refl, refl, refl, refl)

start_threads-Keeps : (s : ℤ) (g : Gui) → Keeps g (start_threads s g)
unfolding start_threads
start_threads-Keeps s g =
    (ground arith, ground arith, ground arith, ground arith, ground arith, ground arith)

start_ip-Keeps : (i : StartInput) (ip : Text) (g : Gui) → Keeps g (start_ip i ip g)
unfolding start_ip
start_ip-Keeps i ip g =
    if-holds (ltb (length ip) 7) _ _ (Keeps g) (λ e. same g)
      (λ e.
        if-holds (is_invalid i.connected) _ _ (Keeps g) (λ e. same g)
          (λ e. start_threads-Keeps i.connected (record (set_label wait g) { ip = take 15 ip })))

start_mode-Keeps : (i : StartInput) (mode : Mode) (g : Gui) → Keeps g (start_mode mode i g)
unfolding start_mode
start_mode-Keeps i server g = same g
start_mode-Keeps i unknown g = same g
start_mode-Keeps i wifi g = start_ip-Keeps i i.ip g
start_mode-Keeps i adb g =
    if-holds (not (is_zero i.adb_rc)) _ _ (Keeps g) (λ e. same g)
      (λ e. start_ip-Keeps i (codes "127.0.0.1") g)
start_mode-Keeps i ios g =
    if-holds (leb_ℤ i.ios_rc (pos 0)) _ _ (Keeps g) (λ e. same g)
      (λ e. start_threads-Keeps i.ios_rc g)

start-Keeps : (i : StartInput) (g : Gui) → Keeps g (start i g)
unfolding start start_server show_running
start-Keeps i g =
    if-holds (leb_ℤ i.port (pos 0) || ltb_ℤ (pos 65535) i.port) _ _ (Keeps g) (λ e. same g)
      (λ e.
        if-holds (is_server g.mode) _ _ (Keeps g) (λ e. same g)
          (λ e.
            if-holds (not g.audio && not g.video) _ _ (Keeps g) (λ e. same g)
              (λ e. start_mode-Keeps i g.mode (record g { port = i.port }))))

pub choose-Keeps : (m : Mode) (g : Gui) → Keeps g (choose m g)
unfolding choose
choose-Keeps m g = if-holds (g.v_running || is_unknown m) _ _ (Keeps g) (λ e. same g) (λ e. same g)

pub button-Keeps : (i : StartInput) (g : Gui) → Keeps g (press_button i g)
unfolding press_button stop_all
button-Keeps i g =
    if-holds (g.v_running || g.a_running) _ _ (Keeps g) (λ e. choose-Keeps g.mode (stop_all g))
      (λ e. start-Keeps i g)

-- A command waits for the video thread.
abbrev pub Waiting : Gui → Type 0
Waiting g = (g.thread_cmd == 0) ≡ false

control-Keeps : (c : Control) (g : Gui) → Waiting g → Keeps g (controls_callback c g)
unfolding controls_callback
control-Keeps c g waits =
    let blocked : (not g.v_running || not (g.thread_cmd == 0)) ≡ true = ground arith in
    rw blocked (same g)

wb-Keeps : (n : ℕ) (g : Gui) → Waiting g → Keeps g (wb_callback n g)
unfolding wb_callback
wb-Keeps n g waits =
    let blocked : (ltb n 8 && g.v_running && g.thread_cmd == 0) ≡ false = ground arith in
    rw blocked (same g)

lock-Keeps : (on : Bool) (g : Gui) → Waiting g → Keeps g (lock_exposure on g)
unfolding lock_exposure
lock-Keeps on g waits =
    let blocked : (not g.v_running || not (g.thread_cmd == 0)) ≡ true = ground arith in
    rw blocked (same g)

abbrev pub is_sent : Event → Bool
is_sent command_sent = true
is_sent _ = false

pub orient-Keeps : (g : Gui) → g.invert ≡ false → Keeps g (orient_picture g)
unfolding orient_picture
orient-Keeps g wide =
    if-holds (g.video_thread && g.invert) _ _ (Keeps g) (λ e. absurd (ground arith)) (λ e. same g)

step-Keeps :
    (e : Event) (g : Gui) → is_sent e ≡ false → Waiting g → g.invert ≡ false → Keeps g (step e g)
unfolding step
step-Keeps (button i) g user waits wide = button-Keeps i g
step-Keeps (radio m) g user waits wide = choose-Keeps m g
step-Keeps (audio_box on) g user waits wide = same g
step-Keeps (video_box on) g user waits wide = same g
step-Keeps (exposure on) g user waits wide = lock-Keeps on g waits
step-Keeps (control c) g user waits wide = control-Keeps c g waits
step-Keeps (white_balance n) g user waits wide = wb-Keeps n g waits
step-Keeps command_sent g user waits wide = cc
step-Keeps stream_prepared g user waits wide = orient-Keeps g wide
step-Keeps (active v a) g user waits wide = same g

abbrev pub Unsent : List Event → Type 0
Unsent [] = Unit {0}
Unsent (e ∷ es) = (is_sent e ≡ false) × Unsent es

-- For a webcam that is not taller than wide: while a command waits for the video thread, nothing that
-- the user does overwrites or cancels it, and no flip is made: the command, its white-balance value,
-- the picture's orientation and the flip settings stay as they are through any events but the
-- sending itself, a stop, a new start and a new stream's `decoder_prepare_video` included.
pub command_kept :
    (es : List Event) (g : Gui) → g.invert ≡ false → Unsent es → Waiting g → Keeps g (run es g)
unfolding run
command_kept [] g wide unsent waits = same g
command_kept (e ∷ es) g wide unsent waits =
    let (cmd, value, op, h, v, i) = step-Keeps e g unsent.0 waits wide in
    let (cmds, values, ops, hs, vs, is) =
      command_kept es (step e g) (i ∙ wide) unsent.1 (rw cmd waits) in
    (cmds ∙ cmd, values ∙ value, ops ∙ op, hs ∙ h, vs ∙ v, is ∙ i)
