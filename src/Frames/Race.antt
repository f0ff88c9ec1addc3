-- ===== src/Frames/Race.antt =====
-- The clean-up of a stream beside a decoding thread that still works on a frame.
use droidcam_linux_client.Prelude.{ℕ, ◌<◌, ◌≡◌, true, false, List, [], ◌∷◌, arith}
use droidcam_linux_client.Frames.Queues.{push_jpg_frame, add_frames, clear_receive, clear_decode}
use droidcam_linux_client.Frames.Owner.{count}
use droidcam_linux_client.Frames.Ready.{state}
use droidcam_linux_client.Frames.{
  VideoPc, top, DecodePc, busy, System, Turn, video_turn, decode_turn, turn, run,
}

-- The video thread stops, cleans up and starts the next round; then the decoding thread is done.
abbrev pub next_round : List Turn
next_round =
    video_turn false ∷ video_turn true ∷ video_turn true ∷ video_turn true ∷ decode_turn ∷ []

round-duplicates :
    (d : DecodePc) (pc : VideoPc) (f l : ℕ) (k : ℕ → ℕ) (n : ℕ) (sh rc dc : List ℕ)
    → d ≡ busy f
    → pc ≡ top
    → (run next_round (state d l k n sh pc rc dc)).pool.receive ≡ 0 ∷ 1 ∷ 2 ∷ f ∷ []
unfolding run turn push_jpg_frame add_frames clear_receive clear_decode
round-duplicates d pc f l k n sh rc dc works stops = rw (works, stops)

-- From every state in which the decoding thread works on a frame when the video thread stops at
-- the head of its loop: if the next round of the server mode begins before the frame is pushed
-- back, that frame then stands twice in the queue of empty frames, and the decoding thread has
-- processed it after the buffers were freed.
cleanup_duplicates :
    (s : System) (f : ℕ)
    → s.decode ≡ busy f
    → s.video ≡ top
    → f < 3
    → ((run next_round s).pool.receive ≡ 0 ∷ 1 ∷ 2 ∷ f ∷ [])
      × (count f (run next_round s).pool.receive ≡ 2)
cleanup_duplicates s f d v small = (is, rw is (ground arith))
  where
    is : (run next_round s).pool.receive ≡ 0 ∷ 1 ∷ 2 ∷ f ∷ []
    is =
        round-duplicates s.decode s.video f s.pool.limit s.content s.received s.shown s.pool.receive
          s.pool.decode d v
