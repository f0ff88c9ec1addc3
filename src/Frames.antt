-- ===== src/Frames.antt =====
-- The frames that the receiving and the decoding thread hand to each other: `push_jpg_frame` and
-- `pull_*_jpg_frame` of src/decoder.c over the two queues, and the loops of `VideoThreadProc` and
-- `DecodeThreadProc` of src/av.c as threads that take turns in any order.
pub mod Queues
pub mod Ready
pub mod Owner
pub mod Order
pub mod Live
pub mod Race
mod Tests
use droidcam_linux_client.Prelude.{
  ℕ, ◌+◌, Bool, true, false, ◌==◌, ltb, if◌then◌else◌, Option, none, some, List, [], ◌∷◌, ◌++◌,
  length,
}
use droidcam_linux_client.Frames.Queues.{
  Pool, push_jpg_frame, pull_empty_jpg_frame, pull_ready_jpg_frame, add_frames, clear_receive,
  clear_decode,
}

-- Where `VideoThreadProc` stands: at the head of its loop; holding an empty frame; holding a frame
-- that has been filled, before and between the two size tests of `push_jpg_frame` and before its
-- `queue_add`; in `decoder_cleanup` before each `queue_clear`; behind it; or past a use of the
-- NULL pointer.
pub data VideoPc : Type 0 where
  top : VideoPc
  holding filled second_test recycle hand_over : ℕ → VideoPc
  cleanup half_cleaned ended crashed : VideoPc

-- `DecodeThreadProc` polls, or works on a frame.
pub data DecodePc : Type 0 where
  idle : DecodePc
  busy : ℕ → DecodePc

-- `content` numbers the message that each frame buffer holds, `received` counts the messages, and
-- `shown` lists those given to `process_frame`, the latest first.
pub record System : Type 0 where
  pub pool : Pool
  pub video : VideoPc
  pub decode : DecodePc
  pub content : ℕ → ℕ
  pub received : ℕ
  pub shown : List ℕ

abbrev pub write_frame : (ℕ → ℕ) → ℕ → ℕ → ℕ → ℕ
write_frame content f n g = if g == f then n else content g

-- The head of the loop pulls an empty frame, whose pointer the code uses with no test.
pull_step : System → Option ℕ × Pool → System
pull_step s (none, p) = record s { video = crashed }
pull_step s (some f, p) = record s { pool = p; video = holding f }

-- One step of the video thread. `go` is false where `v_running` has been cleared or `RecvAll`
-- fails, which the loop sees at its head and while it fills a frame. A step from `ended` is the
-- next round of the server mode, where `decoder_prepare_video` adds the frames anew.
video_at : VideoPc → Bool → System → System
video_at top true s = pull_step s (pull_empty_jpg_frame s.pool)
video_at top false s = record s { video = cleanup }
video_at (holding f) true s = record s {
  content = write_frame s.content f s.received;
  received = s.received + 1;
  video = filled f;
}
video_at (holding f) false s = record s { video = cleanup }
video_at (filled f) go s = record s {
  video = if length s.pool.receive == 0 then recycle f else second_test f;
}
video_at (second_test f) go s = record s {
  video = if ltb s.pool.limit (length s.pool.decode) then recycle f else hand_over f;
}
video_at (recycle f) go s = record s {
  pool = record (s.pool) { receive = s.pool.receive ++ f ∷ [] };
  video = top;
}
video_at (hand_over f) go s = record s {
  pool = record (s.pool) { decode = s.pool.decode ++ f ∷ [] };
  video = top;
}
video_at cleanup go s = record s { pool = clear_receive s.pool; video = half_cleaned }
video_at half_cleaned go s = record s { pool = clear_decode s.pool; video = ended }
video_at ended true s = record s { pool = add_frames s.pool; video = top }
video_at ended false s = s
video_at crashed go s = s

-- The frame that was pulled is processed and pushed back as empty.
take_step : System → Option ℕ × Pool → System
take_step s (none, p) = s
take_step s (some f, p) = record s { pool = p; decode = busy f }

decode_at : DecodePc → System → System
decode_at idle s = take_step s (pull_ready_jpg_frame s.pool)
decode_at (busy f) s = record s {
  shown = s.content f ∷ s.shown;
  pool = push_jpg_frame s.pool f true;
  decode = idle;
}

-- Which thread moves next.
pub data Turn : Type 0 where
  video_turn : (go : Bool) → Turn
  decode_turn : Turn

unfoldable pub turn : Turn → System → System
unfolding video_at decode_at pull_step take_step
turn (video_turn go) s = video_at s.video go s
turn decode_turn s = decode_at s.decode s

unfoldable pub run : List Turn → System → System
run [] s = s
run (t ∷ ts) s = run ts (turn t s)

-- The state in which the loop is entered: `decoder_init` has set the buffer limit to 0, and
-- `decoder_prepare_video` has added the frames.
unfoldable pub start : System
start = record {
  pool = add_frames (record { receive = []; decode = []; limit = 0 });
  video = top;
  decode = idle;
  content = λ _. 0;
  received = 0;
  shown = [];
}
