-- ===== src/Usb/Tests.antt =====
-- The checks of USB devices on concrete answers.
use droidcam_linux_client.Prelude.{◌≡◌, refl, true, false, List, [], ◌∷◌, ◌++◌}
use droidcam_linux_client.Prelude.Int.{pos}
use droidcam_linux_client.Usb.Adb.{
  start_server, list_devices, kill_server, close_pipe, adb_calls, Line, Adb, Silent, Usable,
  check_adb_devices, add_forward, read_line, read_lines, success_has_device,
}
use droidcam_linux_client.Usb.Errors.{offline, no_devices, adb_error_print}

abbrev headline : Line
headline = record {
  list_of = true;
  offline = false;
  unauthorized = false;
  device = true;
  question_marks = false;
}

abbrev usable_line : Line
usable_line = record headline { list_of = false }

abbrev offline_line : Line
offline_line = record usable_line { offline = true }

abbrev adb : List Line → Adb
adb lines = record {
  server_ok = true;
  pipe_ok = true;
  lines = headline ∷ lines;
  forward = pos 0;
  forward_ok = true;
}

success_has_device_example :
    ((adb (usable_line ∷ [])).server_ok ≡ true)
    × ((adb (usable_line ∷ [])).pipe_ok ≡ true)
    × ((adb (usable_line ∷ [])).forward_ok ≡ true)
    × ((ls : List Line) × (l : Line) × (rest : List Line) × ((adb (usable_line ∷ [])).lines
          ≡ ls ++ l ∷ rest)
        × Silent ls
        × Usable l)
unfolding check_adb_devices add_forward read_lines read_line
success_has_device_example = success_has_device (adb (usable_line ∷ [])) refl

offline_shown : adb_error_print (check_adb_devices (adb (offline_line ∷ []))) ≡ offline
unfolding adb_error_print check_adb_devices add_forward read_lines read_line
offline_shown = refl

-- An `adb forward` that a signal ends has no exit code, and its status is taken for a result.
killed_forward :
    adb_error_print
      (check_adb_devices (record (adb (usable_line ∷ [])) { forward = pos 9; forward_ok = true }))
    ≡ no_devices
unfolding adb_error_print check_adb_devices add_forward read_lines read_line
killed_forward = refl

offline_killed :
    adb_calls (adb (offline_line ∷ []))
    ≡ start_server ∷ list_devices ∷ kill_server ∷ close_pipe ∷ []
unfolding adb_calls read_lines read_line
offline_killed = refl
