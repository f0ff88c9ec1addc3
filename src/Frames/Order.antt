-- ===== src/Frames/Order.antt =====
-- Messages are shown in the order in which they came.
use droidcam_linux_client.Prelude.{
  ℕ, ◌+◌, ◌≤◌, ◌<◌, ◌≡◌, refl, Bool, true, false, ◌==◌, ltb, List, [], ◌∷◌, ◌++◌, length, map,
  arith, some, Bool-cases, inl, inr,
}
use droidcam_linux_client.Frames.Queues.{push_jpg_frame, pull_empty_jpg_frame, add_frames}
use droidcam_linux_client.Frames.Ready.{Ready, state, pool_of, pull_ready-nil, pull_ready-cons}
use droidcam_linux_client.Frames.Owner.{
  one_if, count, streams, all_stream, Streaming, turn-Streaming, start-Streaming, held_by_decode,
}
use droidcam_linux_client.Frames.{
  VideoPc, top, holding, filled, second_test, recycle, hand_over, cleanup, half_cleaned, ended,
  crashed, DecodePc, idle, busy, System, Turn, video_turn, decode_turn, turn, run, start,
  write_frame,
}

-- Falling strictly from below `n`.
abbrev pub Falls : ℕ → List ℕ → Type 0
Falls n [] = Unit {0}
Falls n (x ∷ l) = (x < n) × Falls x l

Falls-weaken : {m n : ℕ} (l : List ℕ) → m ≤ n → Falls m l → Falls n l
Falls-weaken [] h f = tt
Falls-weaken (x ∷ l) h f = (omega (arith, f.0), f.1)

-- The message of a filled frame that may still be handed over.
abbrev pub tested : (ℕ → ℕ) → VideoPc → List ℕ
tested k (filled f) = k f ∷ []
tested k (second_test f) = k f ∷ []
tested k (hand_over f) = k f ∷ []
tested k _ = []

abbrev pub working : (ℕ → ℕ) → DecodePc → List ℕ
working k idle = []
working k (busy f) = k f ∷ []

-- Every message that is under way or shown, the latest first.
abbrev pub line : System → List ℕ
line s =
    tested s.content s.video
    ++ (map s.content s.pool.decode ++ (working s.content s.decode ++ s.shown))

-- Filling a frame leaves the messages of the frames that others own.
pub map-write :
    (k : ℕ → ℕ) (f n : ℕ) (l : List ℕ) → count f l ≡ 0 → map (write_frame k f n) l ≡ map k l
map-write k f n [] none_here = refl
map-write k f n (g ∷ l) none_here = ground (arith, map-write k f n l)

pub working-write :
    (k : ℕ → ℕ) (f n : ℕ) (d : DecodePc)
    → held_by_decode f d ≡ 0
    → working (write_frame k f n) d ≡ working k d
working-write k f n idle h = refl
working-write k f n (busy g) h = ground arith

one_if-le : (b : Bool) → one_if b ≤ 1
one_if-le true = omega arith
one_if-le false = omega arith

one_if_self : (f : ℕ) → one_if (f == f) ≡ 1
one_if_self f = ground arith

-- A message that is added in front leaves the line falling from the next number.
push_front : (n : ℕ) (l : List ℕ) → Falls n l → Falls (n + 1) (n ∷ l)
push_front n l h = (omega arith, h)

pub pull_empty-cons :
    (f : ℕ) (rc dc : List ℕ) (l : ℕ)
    → pull_empty_jpg_frame (pool_of (f ∷ rc) dc l) ≡ (some f, pool_of rc dc l)
unfolding pull_empty_jpg_frame pool_of
pull_empty-cons f rc dc l = let more : ltb 0 (length (f ∷ rc)) ≡ true = ground arith in rw more

module _ (d : DecodePc) (l : ℕ) (k : ℕ → ℕ) (n : ℕ) (sh : List ℕ) where
  -- The frame that is being filled neither waits nor is decoded.
  pub held_elsewhere :
      (f : ℕ) (rc dc : List ℕ)
      → Streaming f (state d l k n sh (holding f) rc dc)
      → (count f dc ≡ 0) × (held_by_decode f d ≡ 0)
  held_elsewhere f rc dc inv = omega (arith, inv.one, one_if_self f, one_if-le (ltb f 3))

  video-Falls :
      (pc : VideoPc) (rc dc : List ℕ)
      → ((g : ℕ) → Streaming g (state d l k n sh pc rc dc))
      → Falls n (line (state d l k n sh pc rc dc))
      → let s = turn (video_turn true) (state d l k n sh pc rc dc) in Falls s.received (line s)
  unfolding turn pool_of
  video-Falls top [] dc inv h = absurd ((inv 0).ready.at refl)
  video-Falls top (f ∷ rc) dc inv h = rw (pull_empty-cons f rc dc l) h
  video-Falls (holding f) rc dc inv h =
      let alone = held_elsewhere f rc dc (inv f) in
      let here : (f == f) ≡ true = ground arith in
      rw (here, map-write k f n dc alone.0, working-write k f n d alone.1) (push_front n _ h)
  video-Falls (filled f) [] dc inv h = Falls-weaken _ (omega (arith, h.0)) h.1
  video-Falls (filled f) (g ∷ rc) dc inv h =
      let some_left : (length (g ∷ rc) == 0) ≡ false = ground arith in rw some_left h
  video-Falls (second_test f) rc dc inv h = elim (Bool-cases (ltb l (length dc))) [
    | inl full ↦ rw full (Falls-weaken _ (omega (arith, h.0)) h.1)
    | inr room ↦ rw room h
  ]
  video-Falls (recycle f) rc dc inv h = h
  video-Falls (hand_over f) rc [] inv h = h
  video-Falls (hand_over f) rc (g ∷ dc) inv h =
      absurd (omega (arith, (inv 0).ready.at.1, (inv 0).ready.no_limit))
  video-Falls cleanup rc dc inv h = cc ((inv 0).loop)
  video-Falls half_cleaned rc dc inv h = cc ((inv 0).loop)
  video-Falls ended rc dc inv h = cc ((inv 0).loop)
  video-Falls crashed rc dc inv h = h

module _ (l : ℕ) (k : ℕ → ℕ) (n : ℕ) (sh : List ℕ) where
  decode-Falls :
      (d : DecodePc) (pc : VideoPc) (rc dc : List ℕ)
      → Ready (state d l k n sh pc rc dc)
      → Falls n (line (state d l k n sh pc rc dc))
      → let s = turn decode_turn (state d l k n sh pc rc dc) in Falls s.received (line s)
  unfolding turn push_jpg_frame pool_of
  decode-Falls idle pc rc [] r h = rw (pull_ready-nil rc l) h
  decode-Falls idle pc rc (f ∷ []) r h = rw (pull_ready-cons f rc [] l r.no_limit) h
  decode-Falls idle pc rc (f ∷ g ∷ dc) r h = absurd (omega (arith, r.short))
  decode-Falls (busy f) pc rc dc r h = h

turn-Falls :
    (t : Turn) (s : System)
    → streams t ≡ true
    → ((g : ℕ) → Streaming g s)
    → Falls s.received (line s)
    → Falls (turn t s).received (line (turn t s))
turn-Falls (video_turn true) s go inv h =
    video-Falls s.decode s.pool.limit s.content s.received s.shown s.video s.pool.receive
      s.pool.decode inv h
turn-Falls (video_turn false) s go inv h = cc
turn-Falls decode_turn s go inv h =
    decode-Falls s.pool.limit s.content s.received s.shown s.decode s.video s.pool.receive
      s.pool.decode ((inv 0).ready) h

run-Falls :
    (ts : List Turn) (s : System)
    → all_stream ts ≡ true
    → ((g : ℕ) → Streaming g s)
    → Falls s.received (line s)
    → Falls (run ts s).received (line (run ts s))
unfolding run
run-Falls [] s go inv h = h
run-Falls (t ∷ ts) s go inv h =
    run-Falls ts (turn t s) (ground arith) (λ g. turn-Streaming g t s (ground arith) (inv g))
      (turn-Falls t s (ground arith) inv h)

Falls-append : (n : ℕ) (xs ys : List ℕ) → Falls n (xs ++ ys) → Falls n ys
Falls-append n [] ys h = h
Falls-append n (x ∷ xs) ys h = Falls-weaken ys (omega (arith, h.0)) (Falls-append x xs ys h.1)

start-Falls : Falls start.received (line start)
unfolding start add_frames
start-Falls = tt

-- Under every interleaving of the two threads without a stop, the messages given to
-- `process_frame` were received, and they are shown in the order of their arrival and none twice.
pub shown_in_order :
    (ts : List Turn) → all_stream ts ≡ true → Falls (run ts start).received (run ts start).shown
shown_in_order ts go = Falls-append _ (working _ s.decode) _ (
    Falls-append _ (map s.content s.pool.decode) _
      (Falls-append _ (tested _ s.video) _ (run-Falls ts start go start-Streaming start-Falls)))
  where
    s : System
    s = run ts start
