-- ===== src/Frames/Tests.antt =====
-- Schedules of the two threads.
use droidcam_linux_client.Prelude.{ℕ, ◌≡◌, ◌≢◌, refl, true, List, [], ◌∷◌, arith, ltb, length, ◌≤◌}
use droidcam_linux_client.Frames.Queues.{
  push_jpg_frame, pull_empty_jpg_frame, pull_ready_jpg_frame, add_frames,
}
use droidcam_linux_client.Frames.Owner.{places, one_if, one_owner}
use droidcam_linux_client.Frames.Order.{Falls, shown_in_order}
use droidcam_linux_client.Frames.Ready.{no_null_frame}
use droidcam_linux_client.Frames.Live.{shows, waiting_frame_is_shown}
use droidcam_linux_client.Frames.{
  top, crashed, holding, busy, Turn, video_turn, decode_turn, turn, run, start,
}

abbrev receive_one : List Turn
receive_one =
    video_turn true ∷ video_turn true ∷ video_turn true ∷ video_turn true ∷ video_turn true ∷ []

-- A frame is handed over and the decoding thread takes it.
abbrev one_taken : List Turn
one_taken =
    video_turn true
    ∷ video_turn true
    ∷ video_turn true
    ∷ video_turn true
    ∷ video_turn true
    ∷ decode_turn
    ∷ []

one_taken-busy : (run one_taken start).decode ≡ busy 0
unfolding run turn start push_jpg_frame pull_empty_jpg_frame pull_ready_jpg_frame add_frames
one_taken-busy = refl

one_taken-top : (run one_taken start).video ≡ top
unfolding run turn start push_jpg_frame pull_empty_jpg_frame pull_ready_jpg_frame add_frames
one_taken-top = refl

shown-one : (run (decode_turn ∷ decode_turn ∷ []) (run receive_one start)).shown ≡ 0 ∷ []
unfolding run turn start push_jpg_frame pull_empty_jpg_frame pull_ready_jpg_frame add_frames
shown-one = refl

no_null_frame_example :
    ((run one_taken start).video ≢ crashed)
    × ((run one_taken start).video ≡ top → (run one_taken start).pool.receive ≢ [])
    × (length (run one_taken start).pool.decode ≤ 1)
no_null_frame_example = no_null_frame one_taken

one_owner_example :
    ((g : ℕ) → places g (run one_taken start) ≡ one_if (ltb g 3))
    × ((f h : ℕ)
        → (run one_taken start).video ≡ holding f
        → (run one_taken start).decode ≡ busy h
        → f ≢ h)
one_owner_example = one_owner one_taken refl

shown_in_order_example : Falls (run one_taken start).received (run one_taken start).shown
shown_in_order_example = shown_in_order one_taken refl

abbrev alternating : List Turn
alternating =
    video_turn true
    ∷ decode_turn
    ∷ video_turn true
    ∷ decode_turn
    ∷ video_turn true
    ∷ decode_turn
    ∷ []

receive_one-waits : (run receive_one start).pool.decode ≡ 0 ∷ []
unfolding run turn start push_jpg_frame pull_empty_jpg_frame pull_ready_jpg_frame add_frames
receive_one-waits = refl

waiting_frame_is_shown_example :
    shows ((run receive_one start).content 0) (run alternating (run receive_one start)).shown ≡ true
waiting_frame_is_shown_example =
    waiting_frame_is_shown receive_one alternating 0 refl refl receive_one-waits (omega arith)
