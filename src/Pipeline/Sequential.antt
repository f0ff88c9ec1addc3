-- ===== src/Pipeline/Sequential.antt =====
-- The threads together process the messages as one loop over them would.
use droidcam_linux_client.Prelude.{
  ℕ, ◌≡◌, ◌≤◌, refl, true, false, if-holds, List, [], ◌∷◌, length, arith, ap, ◌∙◌, sym,
}
use droidcam_linux_client.Frames.{
  VideoPc, DecodePc, idle, busy, System, Turn, video_turn, decode_turn, turn, run, start,
}
use droidcam_linux_client.Frames.Owner.{streams, all_stream, in_loop, Streaming, turn-Streaming}
use droidcam_linux_client.Frames.Queues.{pull_empty_jpg_frame, pull_ready_jpg_frame}
use droidcam_linux_client.Video.Decoder.{JpgDecoder}
use droidcam_linux_client.Video.Process.{Turbo, Processed, process_frame}
use droidcam_linux_client.Video.Memory.{Memory}
use droidcam_linux_client.Pipeline.{
  Pipeline, enter_loop, decode_step, video_step, pipe_turn, run_pipe,
}

abbrev pub process_after :
    Turbo → List ℕ → JpgDecoder × List Processed → JpgDecoder × List Processed
process_after t bytes (d, os) = let (e, r) = process_frame t d bytes in (e, r ∷ os)

-- One thread that processes the given messages, of which the latest stands first.
abbrev pub sequential : Turbo → (ℕ → List ℕ) → JpgDecoder → List ℕ → JpgDecoder × List Processed
sequential t stream d [] = (d, [])
sequential t stream d (n ∷ ns) = process_after t (stream n) (sequential t stream d ns)

process-yuv420_size :
    (t : Turbo) (d : JpgDecoder) (bytes : List ℕ)
    → (process_frame t d bytes).0.yuv420_size ≡ d.yuv420_size
unfolding process_frame
process-yuv420_size t d bytes = ground arith

-- In the loop a step of the video thread leaves the decoder and its buffers, for messages that are not
-- longer than a frame.
video_step-in_loop :
    (stream : ℕ → List ℕ) (pc : VideoPc) (p : Pipeline)
    → in_loop pc ≡ true
    → ((n : ℕ) → length (stream n) ≤ p.memory.decoder.yuv420_size)
    → p.spoilt ≡ false
    → video_step stream pc true p ≡ record p { system = turn (video_turn true) p.system }
unfolding video_step
video_step-in_loop stream pc p loop short clean = ground (arith, short p.system.received)

video-shown :
    (pc : VideoPc) (s : System) → s.video ≡ pc → (turn (video_turn true) s).shown ≡ s.shown
unfolding turn pull_empty_jpg_frame
video-shown pc s at = ground arith

idle-shown : (s : System) → s.decode ≡ idle → (turn decode_turn s).shown ≡ s.shown
unfolding turn pull_ready_jpg_frame
idle-shown s at = ground arith

busy-shown :
    (f : ℕ) (s : System) → s.decode ≡ busy f → (turn decode_turn s).shown ≡ s.content f ∷ s.shown
unfolding turn
busy-shown f s at = ground arith

module _ (t : Turbo) (stream : ℕ → List ℕ) (d : JpgDecoder)
    (short : (n : ℕ) → length (stream n) ≤ d.yuv420_size) where
  -- What a stream keeps of the decoder and the outputs.
  pub record Follows (p : Pipeline) : Type 0 where
    pub same : (p.memory.decoder, p.outputs) ≡ sequential t stream d p.system.shown
    pub size : p.memory.decoder.yuv420_size ≡ d.yuv420_size
    pub whole : p.spoilt ≡ false

  decode-Follows :
      (pc : DecodePc) (p : Pipeline)
      → p.system.decode ≡ pc
      → Follows p
      → Follows (decode_step t stream pc p)
  unfolding decode_step
  decode-Follows idle p at inv = record {
    same = inv.same ∙ ap (sequential t stream d) (sym (idle-shown p.system at));
    size = inv.size;
    whole = inv.whole;
  }
  decode-Follows (busy f) p at inv = record {
    same =
        ap (process_after t (stream (p.system.content f))) inv.same
        ∙ ap (sequential t stream d) (sym (busy-shown f p.system at));
    size = process-yuv420_size t p.memory.decoder (stream (p.system.content f)) ∙ inv.size;
    whole = inv.whole;
  }

  video_step-same :
      (p : Pipeline)
      → in_loop p.system.video ≡ true
      → Follows p
      → video_step stream p.system.video true p
        ≡ record p { system = turn (video_turn true) p.system }
  video_step-same p loop inv =
      video_step-in_loop stream p.system.video p loop (λ n. rw (inv.size) (short n)) inv.whole

  video-Follows :
      (p : Pipeline)
      → in_loop p.system.video ≡ true
      → Follows p
      → Follows (video_step stream p.system.video true p)
  video-Follows p loop inv = rw (video_step-same p loop inv) record {
    same = inv.same ∙ ap (sequential t stream d) (sym (video-shown p.system.video p.system refl));
    size = inv.size;
    whole = inv.whole;
  }

  -- The pipeline's threads are those of the system.
  turn-system :
      (x : Turn) (p : Pipeline)
      → streams x ≡ true
      → in_loop p.system.video ≡ true
      → Follows p
      → (pipe_turn t stream x p).system ≡ turn x p.system
  unfolding pipe_turn decode_step
  turn-system (video_turn true) p go loop inv =
      if-holds p.spoilt p (video_step stream p.system.video true p)
        (λ (q : Pipeline). q.system ≡ turn (video_turn true) p.system)
        (λ e. absurd (ground (arith, inv.whole)))
        (λ e. ap (λ (q : Pipeline). q.system) (video_step-same p loop inv))
  turn-system (video_turn false) p go loop inv = cc
  turn-system decode_turn p go loop inv = ground (arith, inv.whole)

  turn-Follows :
      (x : Turn) (p : Pipeline)
      → streams x ≡ true
      → in_loop p.system.video ≡ true
      → Follows p
      → Follows (pipe_turn t stream x p)
  unfolding pipe_turn
  turn-Follows (video_turn true) p go loop inv =
      if-holds p.spoilt p _ Follows (λ e. inv) (λ e. video-Follows p loop inv)
  turn-Follows (video_turn false) p go loop inv = cc
  turn-Follows decode_turn p go loop inv =
      if-holds p.spoilt p _ Follows (λ e. inv) (λ e. decode-Follows p.system.decode p refl inv)

  pub run-Follows :
      (xs : List Turn) (p : Pipeline)
      → all_stream xs ≡ true
      → Streaming 0 p.system
      → Follows p
      → Follows (run_pipe t stream xs p) × ((run_pipe t stream xs p).system ≡ run xs p.system)
  unfolding run_pipe run
  run-Follows [] p go live inv = (inv, refl)
  run-Follows (x ∷ xs) p go live inv =
      let is = turn-system x p (ground arith) live.loop inv in
      let next : Streaming 0 (pipe_turn t stream x p).system =
        rw is (turn-Streaming 0 x p.system (ground arith) live) in
      let (follows, same) =
        run-Follows xs (pipe_turn t stream x p) (ground arith) next
          (turn-Follows x p (ground arith) live.loop inv) in
      (follows, same ∙ ap (run xs) is)

pub enter_loop-Follows :
    (t : Turbo) (stream : ℕ → List ℕ) (m : Memory)
    (short : (n : ℕ) → length (stream n) ≤ m.decoder.yuv420_size)
    → Follows t stream m.decoder short (enter_loop m)
unfolding start
enter_loop-Follows t stream m short = record { same = refl; size = refl; whole = refl }
