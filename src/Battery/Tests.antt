-- ===== src/Battery/Tests.antt =====
-- The battery label of concrete answers.
use droidcam_linux_client.Prelude.{
  ℕ, ◌≡◌, refl, true, false, none, some, inl, length, ◌*◌, List, [], ◌∷◌, ◌++◌, replicate, arith,
}
use droidcam_linux_client.Battery.{or_dash, skip_header, read_digits, battery_label, battery_round}
use droidcam_linux_client.Prelude.Int.{pos}
use droidcam_linux_client.Net.Defs.{invalid_socket}
use droidcam_linux_client.Battery.Thread.{
  BatteryTurn, BatteryThread, pause_loop, ask_level, battery_thread, labels_after, Ended,
  battery_thread_ends,
}
use droidcam_linux_client.Battery.Label.{blank_line, battery_label_lem}

abbrev answer : List ℕ
answer = 72 ∷ 84 ∷ 13 ∷ 10 ∷ 13 ∷ 10 ∷ b'8' ∷ b'7' ∷ replicate 120 0

answer-label : battery_label answer ≡ b'8' ∷ b'7' ∷ b'%' ∷ []
unfolding battery_label skip_header read_digits
answer-label = refl

no_answer-label : battery_label (replicate 128 0) ≡ b'-' ∷ b'%' ∷ []
unfolding battery_label skip_header read_digits
no_answer-label = refl

failed_round :
    battery_round
      (record { active = true; connected = true; sent = true; received = false; buffer = [] })
    ≡ record { label = none; disconnected = true }
unfolding battery_round
failed_round = refl

battery_label_lem_example :
    battery_label ((72 ∷ 84 ∷ []) ++ (blank_line ++ ((b'8' ∷ b'7' ∷ []) ++ (0 ∷ []))))
    ≡ or_dash (b'8' ∷ b'7' ∷ []) ++ b'%' ∷ []
battery_label_lem_example =
    battery_label_lem (72 ∷ 84 ∷ []) (b'8' ∷ b'7' ∷ []) (0 ∷ []) (refl, (refl, tt)) (omega arith)
      (refl, (refl, tt)) refl (omega arith)

-- A wait for the stream, an answer, a failed connection; the flags are cleared in the last pause.
abbrev waiting : BatteryTurn
waiting = record {
  running = true;
  active = false;
  socket = pos 5;
  sent = true;
  received = true;
  buffer = answer;
  pause = false ∷ [];
}

abbrev answered : BatteryTurn
answered = record waiting { active = true; pause = true ∷ true ∷ false ∷ [] }

abbrev unconnected : BatteryTurn
unconnected = record answered { socket = invalid_socket }

abbrev stopped_turn : BatteryTurn
stopped_turn = record waiting { running = false }

abbrev fresh_thread : BatteryThread
fresh_thread = record { open_sockets = []; labels = []; slept = 0 }

abbrev battery_turns : List BatteryTurn
battery_turns = waiting ∷ answered ∷ unconnected ∷ []

battery_run :
    battery_thread (battery_turns ++ stopped_turn ∷ []) fresh_thread
    ≡ some (record { open_sockets = []; labels = (b'8' ∷ b'7' ∷ b'%' ∷ []) ∷ []; slept = 54 })
unfolding battery_thread pause_loop ask_level battery_round battery_label skip_header read_digits
battery_run = refl

battery_thread_ends_example :
    Ended
      (labels_after battery_turns [])
      (length battery_turns * 30000)
      (battery_thread (battery_turns ++ stopped_turn ∷ []) fresh_thread)
battery_thread_ends_example =
    battery_thread_ends battery_turns stopped_turn [] fresh_thread
      (refl, inl refl, (refl, inl refl, (refl, inl refl, tt))) refl refl
