-- ===== src/Pipeline.antt =====
-- One stream from the socket to the webcam: the two threads of src/av.c, which hand frames to each
-- other, with `process_frame` and `decoder_cleanup` of src/decoder.c on the decoder they share.
pub mod Sequential
pub mod Buffers
mod Tests
use droidcam_linux_client.Prelude.{ℕ, Bool, true, false, ltb, if◌then◌else◌, List, [], ◌∷◌, length}
use droidcam_linux_client.Frames.{
  VideoPc, holding, cleanup, ended, DecodePc, idle, busy, System, Turn, video_turn, decode_turn,
  turn, start,
}
use droidcam_linux_client.Video.Memory.{Memory, free_objects}
use droidcam_linux_client.Video.Process.{Turbo, Processed, process_frame}

-- `outputs` lists what `process_frame` has come to, the latest first. `spoilt` is set once a message
-- was longer than its frame: its bytes went over the frames behind it, the one that is being decoded
-- among them, and what memory holds from then on is not modelled.
pub record Pipeline : Type 0 where
  pub system : System
  pub memory : Memory
  pub outputs : List Processed
  pub spoilt : Bool

-- The state in which the loop is entered, behind `decoder_prepare_video`.
abbrev pub enter_loop : Memory → Pipeline
enter_loop m = record { system = start; memory = m; outputs = []; spoilt = false }

-- The decoding thread processes the frame it has pulled, before it pushes it back. `stream` is what
-- the phone sends: the bytes of each message.
unfoldable pub decode_step : Turbo → (ℕ → List ℕ) → DecodePc → Pipeline → Pipeline
decode_step t stream idle p = record p { system = turn decode_turn p.system }
decode_step t stream (busy f) p =
    let r = process_frame t p.memory.decoder (stream (p.system.content f)) in
    record p {
      system = turn decode_turn p.system;
      memory = record (p.memory) { decoder = r.0 };
      outputs = r.1 ∷ p.outputs;
    }

-- A frame has `m_Yuv420Size` bytes, and the length of a message is not tested. `decoder_cleanup` frees
-- the buffers in front of its queues. The stream is over where the video thread has left it.
unfoldable pub video_step : (ℕ → List ℕ) → VideoPc → Bool → Pipeline → Pipeline
video_step stream (holding f) true p = record p {
  system = turn (video_turn true) p.system;
  spoilt = ltb p.memory.decoder.yuv420_size (length (stream p.system.received));
}
video_step stream cleanup go p = record p {
  system = turn (video_turn go) p.system;
  memory = free_objects p.memory;
}
video_step stream ended go p = p
video_step stream pc go p = record p { system = turn (video_turn go) p.system }

unfoldable pub pipe_turn : Turbo → (ℕ → List ℕ) → Turn → Pipeline → Pipeline
unfolding decode_step video_step
pipe_turn t stream (video_turn go) p = if p.spoilt then p else video_step stream p.system.video go p
pipe_turn t stream decode_turn p = if p.spoilt then p else decode_step t stream p.system.decode p

unfoldable pub run_pipe : Turbo → (ℕ → List ℕ) → List Turn → Pipeline → Pipeline
run_pipe t stream [] p = p
run_pipe t stream (x ∷ xs) p = run_pipe t stream xs (pipe_turn t stream x p)
