-- ===== src/Gui/State.antt =====
-- The globals of src/droidcam.c, and the state of the widgets.
use droidcam_linux_client.Prelude.{ℕ, Bool, List}
use droidcam_linux_client.Prelude.Int.{ℤ}
use droidcam_linux_client.Prelude.Text.{Text}
use droidcam_linux_client.Video.Flip.{TransformOp}

-- `enum radios`; `unknown` is any other number, which only the settings file can bring in.
pub data Mode : Type 0 where
  wifi adb ios server unknown : Mode

-- The text of the start button.
pub data Label : Type 0 where
  prepare connect wait stop : Label

-- The messages that `Start` shows.
pub data Notice : Type 0 where
  bad_port nothing_enabled adb_error ios_error bad_ip connect_failed bad_mode : Notice

-- Which input widgets can be used, and which controls.
pub record Widgets : Type 0 where
  pub label : Label
  pub ip_entry : Bool
  pub port_entry : Bool
  pub audio_box : Bool
  pub video_box : Bool
  pub controls : Bool

-- A handle is true where it is not NULL. `controls` of the widgets stands for the three buttons that
-- are always set together; `value` is the index behind `thread_cmd_val_str`. `sockets` are those that
-- `Start` handed to the video thread and that `Stop` has not yet awaited. `op` and `invert` are those
-- of the decoder, which `decoder_init` sets; `invert` is true for a webcam that is taller than wide.
pub record Gui : Type 0 where
  pub mode : Mode
  pub audio : Bool
  pub video : Bool
  pub port : ℤ
  pub ip : Text
  pub v_running : Bool
  pub a_running : Bool
  pub v_active : Bool
  pub a_active : Bool
  pub video_thread : Bool
  pub audio_thread : Bool
  pub decode_thread : Bool
  pub battery_thread : Bool
  pub thread_cmd : ℕ
  pub value : ℕ
  pub el_active : Bool
  pub horizontal_flip : Bool
  pub vertical_flip : Bool
  pub op : TransformOp
  pub invert : Bool
  pub widgets : Widgets
  pub notices : List Notice
  pub sockets : List ℤ
