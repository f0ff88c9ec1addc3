-- ===== src/Settings/Defs.antt =====
-- `struct settings` of src/settings.h, and the defaults.
use droidcam_linux_client.Prelude.{ℕ, if◌then◌else◌, []}
use droidcam_linux_client.Prelude.Int.{ℤ, pos}
use droidcam_linux_client.Prelude.Text.{Text, is_int}

-- `ip` up to its NUL.
pub record Settings : Type 0 where
  pub ip : Text
  pub port : ℤ
  pub audio : ℤ
  pub video : ℤ
  pub encoder : ℤ
  pub connection : ℤ
  pub v4l2_width : ℕ
  pub v4l2_height : ℕ
  pub adb_auto_start : ℤ
  pub confirm_close : ℤ
  pub horizontal_flip : ℤ
  pub vertical_flip : ℤ

abbrev pub defaults : Settings
defaults = record {
  ip = [];
  port = pos 4747;
  audio = pos 0;
  video = pos 1;
  encoder = pos 0;
  connection = pos 0;
  v4l2_width = 640;
  v4l2_height = 480;
  adb_auto_start = pos 0;
  confirm_close = pos 1;
  horizontal_flip = pos 0;
  vertical_flip = pos 0;
}

-- What the C library is free to choose: the `int` that it stores for a number outside the range.
abbrev pub Overflow : Type 0
Overflow = ℤ → ℤ

abbrev pub to_int : Overflow → ℤ → ℤ
to_int overflow z = if is_int z then z else overflow z
