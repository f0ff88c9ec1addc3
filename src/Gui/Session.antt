-- ===== src/Gui/Session.antt =====
-- The start of `main` in src/droidcam.c with its settings, and the flips over a session.
use droidcam_linux_client.Prelude.{
  zero, suc, ◌≡◌, refl, Bool, true, false, not, if◌then◌else◌, if-holds, List, [], ◌∷◌, sym, ap,
  ◌∙◌,
}
use droidcam_linux_client.Prelude.Int.{ℤ, pos, is_zero}
use droidcam_linux_client.Video.Flip.{
  TransformOp, none, decoder_horizontal_flip, decoder_vertical_flip, of_mirrors, horizontal-mirrors,
  vertical-mirrors,
}
use droidcam_linux_client.Settings.Defs.{Settings}
use droidcam_linux_client.Gui.State.{Mode, wifi, adb, ios, server, unknown, Gui}
use droidcam_linux_client.Gui.Start.{stop_all}
use droidcam_linux_client.Gui.Events.{
  Event, button, radio, audio_box, video_box, exposure, control, white_balance, command_sent,
  stream_prepared, active, orient_picture, Control, choose, press_button, lock_exposure,
  run_control, controls_callback, wb_callback, step, run,
}
use droidcam_linux_client.Gui.Controls.{Keeps, button-Keeps, choose-Keeps, orient-Keeps}

-- The numbers of `enum radios`.
abbrev pub mode_of : ℤ → Mode
mode_of (pos zero) = wifi
mode_of (pos (suc zero)) = adb
mode_of (pos (suc (suc zero))) = ios
mode_of (pos (suc (suc (suc zero)))) = server
mode_of _ = unknown

-- "re-load flip values from last run"
unfoldable pub reload_flips : (horizontal vertical : Bool) → TransformOp → TransformOp
reload_flips horizontal vertical op =
    let op : TransformOp = if horizontal then (decoder_horizontal_flip op).0 else op in
    if vertical then (decoder_vertical_flip op).0 else op

-- What the settings set, where `decoder_init` has set the operation to none.
unfoldable pub apply_settings : Settings → Gui → Gui
unfolding reload_flips
apply_settings s g =
    let h = not (is_zero s.horizontal_flip) in
    let v = not (is_zero s.vertical_flip) in
    record (stop_all g) {
      audio = not (is_zero s.audio);
      video = not (is_zero s.video);
      port = s.port;
      ip = s.ip;
      horizontal_flip = h;
      vertical_flip = v;
      op = reload_flips h v none;
    }

-- `main` from `Stop` to `gtk_main`; the radio button of the mode runs its callback.
unfoldable pub begin : Settings → Gui → Gui
unfolding apply_settings
begin s g = choose (mode_of s.connection) (apply_settings s g)

-- The flags that are saved are the mirrors of the picture, for a webcam that is not taller than wide.
abbrev pub Mirrored : Gui → Type 0
Mirrored g = (g.invert ≡ false) × (g.op ≡ of_mirrors (g.horizontal_flip, g.vertical_flip))

reload-mirrors : (h v : Bool) → reload_flips h v none ≡ of_mirrors (h, v)
unfolding reload_flips decoder_horizontal_flip decoder_vertical_flip
reload-mirrors true true = refl
reload-mirrors true false = refl
reload-mirrors false true = refl
reload-mirrors false false = refl

Keeps-Mirrored : (g h : Gui) → Keeps g h → Mirrored g → Mirrored h
Keeps-Mirrored g h (cmd, value, op, hor, ver, inv) m = (inv ∙ m.0, rw (op, hor, ver) (m.1))

control-Mirrored : (c : Control) (g : Gui) → Mirrored g → Mirrored (run_control c g)
control-Mirrored Control.h_flip g m =
    let flip =
      ap decoder_horizontal_flip m.1 ∙ horizontal-mirrors g.horizontal_flip g.vertical_flip in
    rw flip (m.0, refl)
control-Mirrored Control.v_flip g m =
    let flip = ap decoder_vertical_flip m.1 ∙ vertical-mirrors g.horizontal_flip g.vertical_flip in
    rw flip (m.0, refl)
control-Mirrored Control.zoom_in g m = m
control-Mirrored Control.zoom_out g m = m
control-Mirrored Control.auto_focus g m = m
control-Mirrored Control.led g m = m

step-Mirrored : (e : Event) (g : Gui) → Mirrored g → Mirrored (step e g)
unfolding step lock_exposure controls_callback wb_callback
step-Mirrored (button i) g m = Keeps-Mirrored g (press_button i g) (button-Keeps i g) m
step-Mirrored (radio mode) g m = Keeps-Mirrored g (choose mode g) (choose-Keeps mode g) m
step-Mirrored (audio_box on) g m = m
step-Mirrored (video_box on) g m = m
step-Mirrored (exposure on) g m = if-holds _ _ _ Mirrored (λ e. m) (λ e. m)
step-Mirrored (control c) g m =
    if-holds _ g (run_control c g) Mirrored (λ e. m) (λ e. control-Mirrored c g m)
step-Mirrored (white_balance n) g m = if-holds _ _ _ Mirrored (λ e. m) (λ e. m)
step-Mirrored command_sent g m = m
step-Mirrored stream_prepared g m = Keeps-Mirrored g (orient_picture g) (orient-Keeps g m.0) m
step-Mirrored (active v a) g m = m

run-Mirrored : (es : List Event) (g : Gui) → Mirrored g → Mirrored (run es g)
unfolding run
run-Mirrored [] g m = m
run-Mirrored (e ∷ es) g m = run-Mirrored es (step e g) (step-Mirrored e g m)

begin-Mirrored : (s : Settings) (g : Gui) → g.invert ≡ false → Mirrored (begin s g)
unfolding begin apply_settings stop_all
begin-Mirrored s g wide =
    let set = apply_settings s g in
    Keeps-Mirrored set (begin s g) (choose-Keeps (mode_of s.connection) set)
      (wide, reload-mirrors (not (is_zero s.horizontal_flip)) (not (is_zero s.vertical_flip)))

-- For a webcam that is not taller than wide: from a start with any settings and through any actions of
-- the user and any new streams, the two flip settings that are saved at the end are
-- the mirrors of the picture, so that the next start shows it the same way.
pub next_start_same_picture :
    (s : Settings) (g : Gui) (es : List Event)
    → g.invert ≡ false
    → let last = run es (begin s g) in
      (last.op ≡ of_mirrors (last.horizontal_flip, last.vertical_flip))
      × (reload_flips last.horizontal_flip last.vertical_flip none ≡ last.op)
next_start_same_picture s g es wide =
    let last = run es (begin s g) in
    let m = run-Mirrored es (begin s g) (begin-Mirrored s g wide) in
    (m.1, reload-mirrors last.horizontal_flip last.vertical_flip ∙ sym (m.1))
