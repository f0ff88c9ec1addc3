-- ===== src/Cli/Tests.antt =====
-- The command line client on concrete input.
use droidcam_linux_client.Prelude.{◌≡◌, refl, false, true, [], ◌∷◌, none, some}
use droidcam_linux_client.Cli.Args.{Text, Library, Options}
use droidcam_linux_client.Cli.Keys.{
  Key, pressed, waiting, command_sent, stopped, wait_command, handle_key,
}
use droidcam_linux_client.Prelude.Int.{pos, negsuc}
use droidcam_linux_client.Cli.Start.{StartAnswers}
use droidcam_linux_client.Cli.End.{
  clear_flags, join_video, join_decode, fini, join_all, apply_flips, read_keys, wait_flags,
  end_main,
}
use droidcam_linux_client.Video.Flip.{
  TransformOp, Press, press_all, press_op, decoder_vertical_flip,
}

abbrev library : Library
library = record { scan_size = λ t. none; strtoul = λ t. 4747 }

abbrev defaults : Options
defaults = record {
  vertical_flip = false;
  horizontal_flip = false;
  a_running = false;
  v_running = false;
  v4l2_dev = none;
  v4l2_size = (640, 480);
  no_controls = false;
}

abbrev flip_arg : Text
flip_arg = b'-' ∷ b'v' ∷ b'f' ∷ b'l' ∷ b'i' ∷ b'p' ∷ []

abbrev audio_arg : Text
audio_arg = b'-' ∷ b'a' ∷ []

abbrev adb_arg : Text
adb_arg = b'a' ∷ b'd' ∷ b'b' ∷ []

abbrev port_arg : Text
port_arg = b'4' ∷ b'7' ∷ b'4' ∷ b'7' ∷ []

-- Mirror, a pause, a focus that the video thread sends.
keys_read :
    wait_command
      (pressed Key.m ∷ waiting ∷ pressed Key.a ∷ command_sent ∷ waiting ∷ stopped ∷ [])
      (record { thread_cmd = 0; op = TransformOp.none })
    ≡ some (record { thread_cmd = 0; op = press_all (Press.horizontal ∷ []) TransformOp.none })
unfolding wait_command handle_key press_all press_op
keys_read = refl

abbrev phone_ready : StartAnswers
phone_ready = record { decoder_ok = true; adb_rc = pos 0; ios_rc = pos 0; socket = pos 7 }

-- A key, a stop, two rounds of waiting; the audio thread was not started.
end_joins :
    end_main true false false
      (pressed Key.l ∷ stopped ∷ [])
      ((true, false) ∷ (false, false) ∷ [])
      (record { athread = negsuc 0; vthread = pos 0; dthread = pos 0 })
      (record { thread_cmd = 0; op = TransformOp.none })
    ≡ some (record {
      controls = record { thread_cmd = 9; op = TransformOp.vflip };
      calls = clear_flags ∷ join_video ∷ join_decode ∷ fini ∷ [];
    })
unfolding end_main wait_command handle_key decoder_vertical_flip join_all read_keys wait_flags
    apply_flips
end_joins = refl
