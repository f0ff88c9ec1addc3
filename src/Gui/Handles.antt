-- ===== src/Gui/Handles.antt =====
-- The thread handles, the sockets and the widgets of src/droidcam.c through `Start` and `Stop`.
use droidcam_linux_client.Prelude.{
  ◌≤◌, ◌≡◌, refl, Bool, true, false, not, ◌&&◌, ◌||◌, ltb, if-holds, List, [], ◌∷◌, length, take,
  arith,
}
use droidcam_linux_client.Prelude.Int.{ℤ, pos, leb_ℤ, ltb_ℤ, is_zero}
use droidcam_linux_client.Prelude.Text.{Text, codes}
use droidcam_linux_client.Net.Defs.{is_invalid}
use droidcam_linux_client.Gui.State.{
  Mode, wifi, adb, ios, server, Label, connect, wait, Notice, bad_port, nothing_enabled, adb_error,
  ios_error, bad_ip, connect_failed, Gui, unknown, bad_mode,
}
use droidcam_linux_client.Gui.Start.{
  StartInput, notice, show_running, start_server, start_threads, start_ip, start_mode, start,
  stop_all, is_server,
}

abbrev pub running : Gui → Bool
running g = g.v_running || g.a_running

-- The handles go with the flags, the controls can be used while a stream runs, and at most the video
-- thread's socket is open.
pub record Matches (g : Gui) : Type 0 where
  pub video : g.video_thread ≡ g.v_running
  pub decode : g.decode_thread ≡ g.v_running
  pub audio : g.audio_thread ≡ g.a_running
  pub battery : running g ≡ false → g.battery_thread ≡ false
  pub controls : g.widgets.controls ≡ running g
  pub closed : g.v_running ≡ false → g.sockets ≡ []
  pub one_socket : length g.sockets ≤ 1

pub stop_all-Matches : (g : Gui) → Matches (stop_all g)
unfolding stop_all
stop_all-Matches g = record {
  video = refl;
  decode = refl;
  audio = refl;
  battery = λ e. refl;
  controls = refl;
  closed = λ e. refl;
  one_socket = omega arith;
}

-- Neither stream runs.
abbrev pub Stopped : Gui → Type 0
Stopped g = (g.v_running ≡ false) × (g.a_running ≡ false)

start_threads-Matches :
    (s : ℤ) (g : Gui)
    → Stopped g
    → Matches g
    → (g.audio || g.video) ≡ true
    → Matches (start_threads s g)
unfolding start_threads
start_threads-Matches s g idle m some_stream = record {
  video = ground arith;
  decode = ground arith;
  audio = ground arith;
  battery = ground arith;
  controls = ground arith;
  closed = ground arith;
  one_socket = ground arith;
}

-- Texts and numbers do not matter.
touch-Matches :
    (p : ℤ) (i : Text) (n : List Notice) (l : Label) (g : Gui)
    → Matches g
    → Matches
        (record g { port = p; ip = i; notices = n; widgets = record (g.widgets) { label = l } })
touch-Matches p i n l g m = record {
  video = m.video;
  decode = m.decode;
  audio = m.audio;
  battery = m.battery;
  controls = m.controls;
  closed = m.closed;
  one_socket = m.one_socket;
}

notice-Matches : (n : Notice) (g : Gui) → Matches g → Matches (notice n g)
notice-Matches n g m = touch-Matches g.port g.ip (n ∷ g.notices) g.widgets.label g m

module _ (i : StartInput) where
  start_ip-Matches :
      (ip : Text) (g : Gui)
      → Stopped g
      → Matches g
      → (g.audio || g.video) ≡ true
      → Matches (start_ip i ip g)
  unfolding start_ip
  start_ip-Matches ip g idle m some_stream =
      if-holds (ltb (length ip) 7) _ _ Matches (λ e. notice-Matches bad_ip g m)
        (λ e.
          if-holds (is_invalid i.connected) _ _ Matches
            (λ e. touch-Matches g.port g.ip (connect_failed ∷ g.notices) connect g m)
            (λ e.
              start_threads-Matches i.connected _ idle
                (touch-Matches g.port (take 15 ip) g.notices wait g m) some_stream))

  start_mode-Matches :
      (mode : Mode) (g : Gui)
      → Stopped g
      → Matches g
      → (g.audio || g.video) ≡ true
      → Matches (start_mode mode i g)
  unfolding start_mode
  start_mode-Matches server g idle m some_stream = m
  start_mode-Matches unknown g idle m some_stream = notice-Matches bad_mode g m
  start_mode-Matches wifi g idle m some_stream = start_ip-Matches i.ip g idle m some_stream
  start_mode-Matches adb g idle m some_stream =
      if-holds (not (is_zero i.adb_rc)) _ _ Matches (λ e. notice-Matches adb_error g m)
        (λ e. start_ip-Matches (codes "127.0.0.1") g idle m some_stream)
  start_mode-Matches ios g idle m some_stream =
      if-holds (leb_ℤ i.ios_rc (pos 0)) _ _ Matches (λ e. notice-Matches ios_error g m)
        (λ e. start_threads-Matches i.ios_rc g idle m some_stream)

  start_server-Matches : (g : Gui) → Stopped g → Matches g → Matches (start_server g)
  unfolding start_server show_running
  start_server-Matches g idle m = record {
    video = refl;
    decode = refl;
    audio = m.audio;
    battery = λ e. cc;
    controls = refl;
    closed = λ e. cc;
    one_socket = m.one_socket;
  }

  pub start-Matches : (g : Gui) → Stopped g → Matches g → Matches (start i g)
  unfolding start
  start-Matches g idle m =
      let h : Gui = record g { port = i.port } in
      let mh : Matches h = touch-Matches i.port g.ip g.notices g.widgets.label g m in
      if-holds (leb_ℤ i.port (pos 0) || ltb_ℤ (pos 65535) i.port) _ _ Matches
        (λ e. notice-Matches bad_port g m)
        (λ e.
          if-holds (is_server g.mode) _ _ Matches (λ e. start_server-Matches h idle mh)
            (λ e.
              if-holds (not g.audio && not g.video) _ _ Matches
                (λ e. notice-Matches nothing_enabled h mh)
                (λ some. start_mode-Matches g.mode h idle mh (ground arith))))
