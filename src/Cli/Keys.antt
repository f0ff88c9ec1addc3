-- ===== src/Cli/Keys.antt =====
-- `wait_command` of src/droidcam-cli.c.
use droidcam_linux_client.Prelude.{ℕ, Option, none, some, List, [], ◌∷◌}
use droidcam_linux_client.Video.Flip.{TransformOp, decoder_horizontal_flip, decoder_vertical_flip}

-- The codes of src/settings.h that the keys send.
abbrev pub zoom_in : ℕ
zoom_in = 6

abbrev pub zoom_out : ℕ
zoom_out = 7

abbrev pub auto_focus : ℕ
auto_focus = 8

abbrev pub led : ℕ
led = 9

-- The keys that the `switch` tells apart; upper and lower case are one, and so are '=' and '+'.
pub data Key : Type 0 where
  help plus minus a l m v other_key : Key

-- What one round meets: `v_running` cleared, the end of the input or an error, nothing to read yet,
-- or a key. Between two rounds the video thread may have sent `thread_cmd` and cleared it.
pub data KeyRound : Type 0 where
  stopped ended waiting command_sent : KeyRound
  pressed : Key → KeyRound

-- `thread_cmd`, and the operation of the decoder's transform.
pub record Controls : Type 0 where
  pub thread_cmd : ℕ
  pub op : TransformOp

-- The `switch`; the help is only printed.
unfoldable pub handle_key : Key → Controls → Controls
handle_key Key.help c = c
handle_key Key.plus c = record c { thread_cmd = zoom_in }
handle_key Key.minus c = record c { thread_cmd = zoom_out }
handle_key Key.a c = record c { thread_cmd = auto_focus }
handle_key Key.l c = record c { thread_cmd = led }
handle_key Key.m c = record c { op = (decoder_horizontal_flip c.op).0 }
handle_key Key.v c = record c { op = (decoder_vertical_flip c.op).0 }
handle_key Key.other_key c = c

-- The loop, for a standard input that can be set to non-blocking; no value while rounds remain to
-- be answered.
unfoldable pub wait_command : List KeyRound → Controls → Option Controls
wait_command [] c = none
wait_command (stopped ∷ rs) c = some c
wait_command (ended ∷ rs) c = some c
wait_command (waiting ∷ rs) c = wait_command rs c
wait_command (command_sent ∷ rs) c = wait_command rs (record c { thread_cmd = 0 })
wait_command (pressed k ∷ rs) c = wait_command rs (handle_key k c)
