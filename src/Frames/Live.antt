-- ===== src/Frames/Live.antt =====
-- A frame that is handed over is shown.
use droidcam_linux_client.Prelude.{
  ℕ, ◌+◌, ◌≤◌, ◌≡◌, refl, Bool, true, false, ◌==◌, ◌||◌, List, [], ◌∷◌, map, arith, inl, inr, ◌⊎◌,
}
use droidcam_linux_client.Frames.Queues.{push_jpg_frame}
use droidcam_linux_client.Frames.Ready.{Ready, state, pool_of, pull_ready-nil, pull_ready-cons}
use droidcam_linux_client.Frames.Owner.{
  all_stream, Streaming, turn-Streaming, run-Streaming, start-Streaming,
}
use droidcam_linux_client.Frames.Order.{
  working, map-write, working-write, held_elsewhere, pull_empty-cons,
}
use droidcam_linux_client.Frames.{
  VideoPc, top, holding, filled, second_test, recycle, hand_over, cleanup, half_cleaned, ended,
  crashed, DecodePc, idle, busy, System, Turn, video_turn, decode_turn, turn, run, start,
}

-- The turns of the decoding thread.
abbrev pub decode_turns : List Turn → ℕ
decode_turns [] = 0
decode_turns (decode_turn ∷ ts) = decode_turns ts + 1
decode_turns (video_turn go ∷ ts) = decode_turns ts

abbrev pub shows : ℕ → List ℕ → Bool
shows m [] = false
shows m (x ∷ l) = x == m || shows m l

-- The turns that the decoding thread needs for a frame that waits.
abbrev turns_left : DecodePc → ℕ
turns_left idle = 2
turns_left (busy f) = 3

-- Message `m` is shown, or it is worked on or waits with at least so many turns to come.
abbrev Due : ℕ → ℕ → System → Type 0
Due m n s =
    (shows m s.shown ≡ true)
    ⊎ (working s.content s.decode ≡ m ∷ []) × (1 ≤ n)
    ⊎ (map s.content s.pool.decode ≡ m ∷ []) × (turns_left s.decode ≤ n)

module _ (m turns : ℕ) (d : DecodePc) (l : ℕ) (k : ℕ → ℕ) (n : ℕ) (sh : List ℕ) where
  video-Due :
      (pc : VideoPc) (rc dc : List ℕ)
      → ((g : ℕ) → Streaming g (state d l k n sh pc rc dc))
      → Due m turns (state d l k n sh pc rc dc)
      → Due m turns (turn (video_turn true) (state d l k n sh pc rc dc))
  unfolding turn pool_of
  video-Due top [] dc inv h = absurd ((inv 0).ready.at refl)
  video-Due top (f ∷ rc) dc inv h = rw (pull_empty-cons f rc dc l) h
  video-Due (holding f) rc dc inv h =
      let alone = held_elsewhere d l k n sh f rc dc (inv f) in
      rw (map-write k f n dc alone.0, working-write k f n d alone.1) h
  video-Due (filled f) rc dc inv h = h
  video-Due (second_test f) rc dc inv h = h
  video-Due (recycle f) rc dc inv h = h
  video-Due (hand_over f) rc [] inv (inl shown) = inl shown
  video-Due (hand_over f) rc [] inv (inr (inl works)) = inr (inl works)
  video-Due (hand_over f) rc [] inv (inr (inr waits)) = cc
  video-Due (hand_over f) rc (g ∷ dc) inv h =
      absurd (omega (arith, (inv 0).ready.at.1, (inv 0).ready.no_limit))
  video-Due cleanup rc dc inv h = cc ((inv 0).loop)
  video-Due half_cleaned rc dc inv h = cc ((inv 0).loop)
  video-Due ended rc dc inv h = cc ((inv 0).loop)
  video-Due crashed rc dc inv h = h

-- A turn of the decoding thread brings the message nearer.
module _ (m turns : ℕ) (l : ℕ) (k : ℕ → ℕ) (n : ℕ) (sh : List ℕ) where
  decode-Due :
      (d : DecodePc) (pc : VideoPc) (rc dc : List ℕ)
      → Ready (state d l k n sh pc rc dc)
      → Due m (turns + 1) (state d l k n sh pc rc dc)
      → Due m turns (turn decode_turn (state d l k n sh pc rc dc))
  unfolding turn push_jpg_frame pool_of
  decode-Due idle pc rc [] r (inl shown) = rw (pull_ready-nil rc l) (inl shown)
  decode-Due idle pc rc [] r (inr (inl works)) = cc
  decode-Due idle pc rc [] r (inr (inr waits)) = cc
  decode-Due idle pc rc (f ∷ []) r (inl shown) =
      rw (pull_ready-cons f rc [] l r.no_limit) (inl shown)
  decode-Due idle pc rc (f ∷ []) r (inr (inl works)) = cc
  decode-Due idle pc rc (f ∷ []) r (inr (inr waits)) =
      rw (pull_ready-cons f rc [] l r.no_limit) (inr (inl (waits.0, omega (arith, waits.1))))
  decode-Due idle pc rc (f ∷ g ∷ dc) r h = absurd (omega (arith, r.short))
  decode-Due (busy f) pc rc dc r (inl shown) = inl (ground (arith, shown))
  decode-Due (busy f) pc rc dc r (inr (inl works)) =
      let here : k f ≡ m = cc in inl (ground (arith, here))
  decode-Due (busy f) pc rc dc r (inr (inr waits)) = inr (inr (waits.0, omega (arith, waits.1)))

run-Due :
    (us : List Turn) (m : ℕ) (s : System)
    → all_stream us ≡ true
    → ((g : ℕ) → Streaming g s)
    → Due m (decode_turns us) s
    → Due m 0 (run us s)
unfolding run
run-Due [] m s go inv h = h
run-Due (video_turn true ∷ us) m s go inv h =
    run-Due us m (turn (video_turn true) s) go
      (λ g. turn-Streaming g (video_turn true) s refl (inv g))
      (video-Due m (decode_turns us) s.decode s.pool.limit s.content s.received s.shown s.video
        s.pool.receive s.pool.decode inv h)
run-Due (video_turn false ∷ us) m s go inv h = cc
run-Due (decode_turn ∷ us) m s go inv h =
    run-Due us m (turn decode_turn s) go (λ g. turn-Streaming g decode_turn s refl (inv g))
      (decode-Due m (decode_turns us) s.pool.limit s.content s.received s.shown s.decode s.video
        s.pool.receive s.pool.decode ((inv 0).ready) h)

turns_left-bounds : (d : DecodePc) → (2 ≤ turns_left d) × (turns_left d ≤ 3)
turns_left-bounds idle = (omega arith, omega arith)
turns_left-bounds (busy f) = (omega arith, omega arith)

Due-now : (m : ℕ) (s : System) → Due m 0 s → shows m s.shown ≡ true
Due-now m s (inl shown) = shown
Due-now m s (inr (inl works)) = absurd (omega (arith, works.1))
Due-now m s (inr (inr waits)) = absurd (omega (arith, waits.1, (turns_left-bounds s.decode).0))

-- In a stream without a stop, whatever came before: the message of a frame that waits in the decode
-- queue is given to `process_frame` within three turns of the decoding thread, however many turns the
-- video thread takes in between.
pub waiting_frame_is_shown :
    (ts us : List Turn) (f : ℕ)
    → all_stream ts ≡ true
    → all_stream us ≡ true
    → (run ts start).pool.decode ≡ f ∷ []
    → 3 ≤ decode_turns us
    → shows ((run ts start).content f) (run us (run ts start)).shown ≡ true
waiting_frame_is_shown ts us f go on waits turns = Due-now _ (run us s) (
    run-Due us (s.content f) s on (λ g. run-Streaming g ts start go (start-Streaming g))
      (inr (inr (rw waits refl, omega (arith, turns, (turns_left-bounds s.decode).1)))))
  where
    s : System
    s = run ts start
