-- ===== src/Gui/Outcome.antt =====
-- What a press of the start button comes to.
use droidcam_linux_client.Prelude.{
  ◌+◌, ◌≡◌, ◌≢◌, ◌⊎◌, inl, inr, refl, true, false, not, ◌&&◌, ◌||◌, ltb, if-holds, length, take,
  arith,
}
use droidcam_linux_client.Prelude.Int.{ℤ, pos, leb_ℤ, ltb_ℤ, is_zero}
use droidcam_linux_client.Prelude.Text.{Text, codes}
use droidcam_linux_client.Net.Defs.{is_invalid}
use droidcam_linux_client.Gui.State.{
  Mode, wifi, adb, ios, server, stop, wait, Notice, bad_port, nothing_enabled, adb_error, ios_error,
  bad_ip, Gui, unknown, bad_mode,
}
use droidcam_linux_client.Gui.Start.{
  StartInput, notice, set_label, show_running, start_server, start_threads, start_ip, start_mode,
  start, is_server,
}
use droidcam_linux_client.Gui.Events.{press_button}
use droidcam_linux_client.Gui.Handles.{running, Stopped}

-- A stream was started, with the stop label and no message.
abbrev pub Began : Gui → Gui → Type 0
Began g h = (running h ≡ true) × (h.widgets.label ≡ stop) × (h.notices ≡ g.notices)

-- One message was shown; no stream runs, and the threads and sockets are as before.
abbrev pub Refused : Gui → Gui → Type 0
Refused g h =
    Stopped h
    × (h.widgets.label ≢ stop)
    × (length h.notices ≡ length g.notices + 1)
    × (h.video_thread ≡ g.video_thread)
    × (h.decode_thread ≡ g.decode_thread)
    × (h.audio_thread ≡ g.audio_thread)
    × (h.battery_thread ≡ g.battery_thread)
    × (h.sockets ≡ g.sockets)

abbrev pub AllOrNothing : Gui → Gui → Type 0
AllOrNothing g h = Began g h ⊎ Refused g h

notice-Refused :
    (n : Notice) (g : Gui) → Stopped g → g.widgets.label ≢ stop → Refused g (notice n g)
notice-Refused n g idle other = (idle, other, omega arith, refl, refl, refl, refl, refl)

start_threads-Began : (s : ℤ) (g : Gui) → (g.audio || g.video) ≡ true → Began g (start_threads s g)
unfolding start_threads
start_threads-Began s g some_stream = (ground arith, refl, ground arith)

module _ (i : StartInput) (g : Gui) (idle : Stopped g) (other : g.widgets.label ≢ stop)
    (some_stream : (g.audio || g.video) ≡ true) where
  start_ip-outcome : (ip : Text) → AllOrNothing g (start_ip i ip g)
  unfolding start_ip
  start_ip-outcome ip =
      if-holds (ltb (length ip) 7) _ _ (AllOrNothing g)
        (λ e. inr (notice-Refused bad_ip g idle other))
        (λ e.
          if-holds (is_invalid i.connected) _ _ (AllOrNothing g)
            (λ e. inr (idle, (λ e. cc), omega arith, refl, refl, refl, refl, refl))
            (λ e. inl (
              start_threads-Began i.connected (record (set_label wait g) { ip = take 15 ip })
                some_stream)))

  start_mode-outcome : (mode : Mode) → mode ≢ server → AllOrNothing g (start_mode mode i g)
  unfolding start_mode
  start_mode-outcome server phone = absurd (phone refl)
  start_mode-outcome unknown phone = inr (notice-Refused bad_mode g idle other)
  start_mode-outcome wifi phone = start_ip-outcome i.ip
  start_mode-outcome adb phone =
      if-holds (not (is_zero i.adb_rc)) _ _ (AllOrNothing g)
        (λ e. inr (notice-Refused adb_error g idle other))
        (λ e. start_ip-outcome (codes "127.0.0.1"))
  start_mode-outcome ios phone =
      if-holds (leb_ℤ i.ios_rc (pos 0)) _ _ (AllOrNothing g)
        (λ e. inr (notice-Refused ios_error g idle other))
        (λ e. inl (start_threads-Began i.ios_rc g some_stream))

not_server : (m : Mode) → is_server m ≡ false → m ≢ server
not_server m h e = ground arith

start-outcome :
    (i : StartInput) (g : Gui) → Stopped g → g.widgets.label ≢ stop → AllOrNothing g (start i g)
unfolding start start_server show_running
start-outcome i g idle other =
    if-holds (leb_ℤ i.port (pos 0) || ltb_ℤ (pos 65535) i.port) _ _ (AllOrNothing g)
      (λ e. inr (notice-Refused bad_port g idle other))
      (λ e.
        if-holds (is_server g.mode) _ _ (AllOrNothing g) (λ e. inl (refl, refl, refl))
          (λ phone.
            if-holds (not g.audio && not g.video) _ _ (AllOrNothing g)
              (λ e. inr (notice-Refused nothing_enabled (record g { port = i.port }) idle other))
              (λ some.
                start_mode-outcome i (record g { port = i.port }) idle other (ground arith) g.mode
                  (not_server g.mode phone))))

-- Where no stream runs and the button does not say stop, a press of it either starts a stream, and then
-- it says stop and no message is shown, or it shows exactly one message: then no stream runs, the
-- button does not say stop, and every thread handle and socket is as before.
pub start-AllOrNothing :
    (i : StartInput) (g : Gui)
    → Stopped g
    → g.widgets.label ≢ stop
    → AllOrNothing g (press_button i g)
unfolding press_button
start-AllOrNothing i g idle other =
    let off : (g.v_running || g.a_running) ≡ false = ground arith in
    rw off (start-outcome i g idle other)
