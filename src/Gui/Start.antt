-- ===== src/Gui/Start.antt =====
-- `Start` and `Stop` of src/droidcam.c.
use droidcam_linux_client.Prelude.{
  Bool, true, false, not, ◌&&◌, ◌||◌, ltb, if◌then◌else◌, [], ◌∷◌, take, length,
}
use droidcam_linux_client.Prelude.Int.{ℤ, pos, ltb_ℤ, leb_ℤ, is_zero}
use droidcam_linux_client.Prelude.Text.{Text, codes}
use droidcam_linux_client.Net.Defs.{is_invalid}
use droidcam_linux_client.Gui.State.{
  Mode, wifi, adb, ios, server, Label, stop, connect, wait, Notice, bad_port, nothing_enabled,
  adb_error, ios_error, bad_ip, connect_failed, Gui, unknown, bad_mode,
}

-- What the entries hold, the port as `strtoul` reads it, and what `CheckAdbDevices`,
-- `CheckiOSDevices` and `Connect` return.
pub record StartInput : Type 0 where
  pub port : ℤ
  pub ip : Text
  pub adb_rc : ℤ
  pub ios_rc : ℤ
  pub connected : ℤ

abbrev pub notice : Notice → Gui → Gui
notice n g = record g { notices = n ∷ g.notices }

abbrev pub set_label : Label → Gui → Gui
set_label l g = record g { widgets = record (g.widgets) { label = l } }

-- Behind EARLY_OUT.
unfoldable pub show_running : Gui → Gui
show_running g = record g {
  widgets = record {
    label = stop;
    ip_entry = false;
    port_entry = false;
    audio_box = false;
    video_box = false;
    controls = true;
  };
}

unfoldable pub start_server : Gui → Gui
start_server g =
    show_running (record g { v_running = true; video_thread = true; decode_thread = true })

-- The socket goes to the video thread, or is disconnected.
unfoldable pub start_video : ℤ → Gui → Gui
start_video s g =
    if g.video
    then record g {
      v_active = false;
      v_running = true;
      video_thread = true;
      decode_thread = true;
      sockets = s ∷ g.sockets;
    }
    else g

unfoldable pub start_audio : Gui → Gui
start_audio g =
    if g.audio then record g { a_active = false; a_running = true; audio_thread = true } else g

unfoldable pub start_threads : ℤ → Gui → Gui
unfolding start_video start_audio show_running
start_threads s g = show_running (record (start_audio (start_video s g)) { battery_thread = true })

-- Over the network: the label says "Please wait" while the connection is made.
unfoldable pub start_ip : StartInput → Text → Gui → Gui
unfolding start_threads
start_ip i ip g =
    if ltb (length ip) 7
    then notice bad_ip g
    else if is_invalid i.connected
    then notice connect_failed (set_label connect (set_label wait g))
    else start_threads i.connected (record (set_label wait g) { ip = take 15 ip })

unfoldable pub start_mode : Mode → StartInput → Gui → Gui
unfolding start_ip start_threads
start_mode server i g = g
start_mode adb i g =
    if not (is_zero i.adb_rc) then notice adb_error g else start_ip i (codes "127.0.0.1") g
start_mode ios i g = if leb_ℤ i.ios_rc (pos 0) then notice ios_error g else start_threads i.ios_rc g
start_mode wifi i g = start_ip i i.ip g
start_mode unknown i g = notice bad_mode g

abbrev pub is_server : Mode → Bool
is_server server = true
is_server _ = false

unfoldable pub start : StartInput → Gui → Gui
unfolding start_server start_mode
start i g =
    if leb_ℤ i.port (pos 0) || ltb_ℤ (pos 65535) i.port
    then notice bad_port g
    else (let g : Gui = record g { port = i.port } in
        if is_server g.mode
        then start_server g
        else if not g.audio && not g.video
        then notice nothing_enabled g
        else start_mode g.mode i g)

-- Every thread is joined; the video thread disconnects its socket before it ends.
unfoldable pub stop_all : Gui → Gui
stop_all g = record g {
  a_running = false;
  v_running = false;
  video_thread = false;
  audio_thread = false;
  decode_thread = false;
  battery_thread = false;
  a_active = false;
  v_active = false;
  widgets = record (g.widgets) { controls = false };
  sockets = [];
}
