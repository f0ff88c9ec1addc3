-- ===== src/Frames/Owner.antt =====
-- Every frame has one owner while a stream runs.
use droidcam_linux_client.Prelude.{
  ℕ, ◌+◌, ◌≡◌, ◌≢◌, refl, Bool, true, false, ◌==◌, ltb, if◌then◌else◌, List, [], ◌∷◌, ◌++◌, arith,
  ◌&&◌, ap, ◌∙◌,
}
use droidcam_linux_client.Frames.Queues.{push_jpg_frame, pull_empty_jpg_frame, add_frames}
use droidcam_linux_client.Frames.Ready.{
  Ready, state, pool_of, pull_ready-nil, pull_ready-cons, turn-Ready, start-Ready,
}
use droidcam_linux_client.Frames.{
  VideoPc, top, holding, filled, second_test, recycle, hand_over, cleanup, half_cleaned, ended,
  crashed, DecodePc, idle, busy, System, Turn, video_turn, decode_turn, turn, run, start,
}

abbrev pub one_if : Bool → ℕ
one_if b = if b then 1 else 0

abbrev pub count : ℕ → List ℕ → ℕ
count g [] = 0
count g (f ∷ l) = one_if (f == g) + count g l

pub count-snoc : (g f : ℕ) (l : List ℕ) → count g (l ++ f ∷ []) ≡ count g l + one_if (f == g)
count-snoc g f [] = omega arith
count-snoc g f (x ∷ l) = omega (arith, count-snoc g f l)

abbrev pub held_by_video : ℕ → VideoPc → ℕ
held_by_video g (holding f) = one_if (f == g)
held_by_video g (filled f) = one_if (f == g)
held_by_video g (second_test f) = one_if (f == g)
held_by_video g (recycle f) = one_if (f == g)
held_by_video g (hand_over f) = one_if (f == g)
held_by_video g _ = 0

abbrev pub held_by_decode : ℕ → DecodePc → ℕ
held_by_decode g (busy f) = one_if (f == g)
held_by_decode g idle = 0

-- In how many places frame `g` stands: in either queue, or in the hands of either thread.
abbrev pub places : ℕ → System → ℕ
places g s =
    count g s.pool.receive
    + count g s.pool.decode
    + held_by_video g s.video
    + held_by_decode g s.decode

-- The video thread is in its loop.
abbrev pub in_loop : VideoPc → Bool
in_loop cleanup = false
in_loop half_cleaned = false
in_loop ended = false
in_loop crashed = false
in_loop _ = true

-- A turn in which no stop is asked for and no `RecvAll` fails.
abbrev pub streams : Turn → Bool
streams (video_turn go) = go
streams decode_turn = true

abbrev pub all_stream : List Turn → Bool
all_stream [] = true
all_stream (t ∷ ts) = streams t && all_stream ts

module _ (g : ℕ) (d : DecodePc) (l : ℕ) (k : ℕ → ℕ) (n : ℕ) (sh : List ℕ) where
  video-places :
      (pc : VideoPc) (rc dc : List ℕ)
      → Ready (state d l k n sh pc rc dc)
      → in_loop pc ≡ true
      → (places g (turn (video_turn true) (state d l k n sh pc rc dc))
          ≡ places g (state d l k n sh pc rc dc))
        × (in_loop (turn (video_turn true) (state d l k n sh pc rc dc)).video ≡ true)
  unfolding turn pull_empty_jpg_frame
  video-places top [] dc r i = absurd (r.at refl)
  video-places top (f ∷ rc) dc r i = ground arith
  video-places (holding f) rc dc r i = (refl, refl)
  video-places (filled f) [] dc r i = (refl, refl)
  video-places (filled f) (h ∷ rc) dc r i = ground arith
  video-places (second_test f) rc dc r i = ground arith
  video-places (recycle f) rc dc r i = (omega (arith, count-snoc g f rc), refl)
  video-places (hand_over f) rc dc r i = (omega (arith, count-snoc g f dc), refl)
  video-places cleanup rc dc r i = cc
  video-places half_cleaned rc dc r i = cc
  video-places ended rc dc r i = cc
  video-places crashed rc dc r i = cc

module _ (g : ℕ) (l : ℕ) (k : ℕ → ℕ) (n : ℕ) (sh : List ℕ) where
  decode-places :
      (d : DecodePc) (pc : VideoPc) (rc dc : List ℕ)
      → Ready (state d l k n sh pc rc dc)
      → (places g (turn decode_turn (state d l k n sh pc rc dc))
          ≡ places g (state d l k n sh pc rc dc))
        × ((turn decode_turn (state d l k n sh pc rc dc)).video ≡ pc)
  unfolding turn push_jpg_frame pool_of
  decode-places idle pc rc [] r = rw (pull_ready-nil rc l) (refl, refl)
  decode-places idle pc rc (f ∷ dc) r =
      rw (pull_ready-cons f rc dc l r.no_limit) (omega arith, refl)
  decode-places (busy f) pc rc dc r = (omega (arith, count-snoc g f rc), refl)

-- What a stream keeps.
pub record Streaming (g : ℕ) (s : System) : Type 0 where
  pub ready : Ready s
  pub loop : in_loop s.video ≡ true
  pub one : places g s ≡ one_if (ltb g 3)

pub turn-Streaming :
    (g : ℕ) (t : Turn) (s : System) → streams t ≡ true → Streaming g s → Streaming g (turn t s)
turn-Streaming g (video_turn true) s go inv =
    let (same, loop) =
      video-places g s.decode s.pool.limit s.content s.received s.shown s.video s.pool.receive
        s.pool.decode inv.ready inv.loop in
    record { ready = turn-Ready (video_turn true) s inv.ready; loop = loop; one = same ∙ inv.one }
turn-Streaming g (video_turn false) s go inv = cc
turn-Streaming g decode_turn s go inv =
    let (same, still) =
      decode-places g s.pool.limit s.content s.received s.shown s.decode s.video s.pool.receive
        s.pool.decode inv.ready in
    record {
      ready = turn-Ready decode_turn s inv.ready;
      loop = rw still inv.loop;
      one = same ∙ inv.one;
    }

pub run-Streaming :
    (g : ℕ) (ts : List Turn) (s : System)
    → all_stream ts ≡ true
    → Streaming g s
    → Streaming g (run ts s)
unfolding run
run-Streaming g [] s go inv = inv
run-Streaming g (t ∷ ts) s go inv =
    run-Streaming g ts (turn t s) (ground arith) (turn-Streaming g t s (ground arith) inv)

start-places : (g : ℕ) → places g start ≡ one_if (ltb g 3)
unfolding start add_frames
start-places g = ground arith

pub start-Streaming : (g : ℕ) → Streaming g start
unfolding start
start-Streaming g = record { ready = start-Ready; loop = refl; one = start-places g }

hands_apart :
    (s : System) (f h : ℕ)
    → places f s ≡ one_if (ltb f 3)
    → s.video ≡ holding f
    → s.decode ≡ busy h
    → f ≢ h
hands_apart s f h one v d e = ground (arith, ap (held_by_video f) v, ap (held_by_decode f) d)

-- Under every interleaving of the two threads without a stop, each of the three frames stands in
-- exactly one place (a queue or a thread's hands) and no other frame stands anywhere. So the frame
-- that the video thread fills is never the one that the decoding thread reads.
pub one_owner :
    (ts : List Turn)
    → all_stream ts ≡ true
    → ((g : ℕ) → places g (run ts start) ≡ one_if (ltb g 3))
      × ((f h : ℕ) → (run ts start).video ≡ holding f → (run ts start).decode ≡ busy h → f ≢ h)
one_owner ts go = (
  λ g. (run-Streaming g ts start go (start-Streaming g)).one,
  λ f h. hands_apart (run ts start) f h (run-Streaming f ts start go (start-Streaming f)).one,
)
