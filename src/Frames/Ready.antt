-- ===== src/Frames/Ready.antt =====
-- The threads' loops never meet the NULL pointer.
use droidcam_linux_client.Prelude.{
  ℕ, ◌≤◌, ◌≡◌, ◌≢◌, refl, Bool, true, false, ltb, none, some, List, [], ◌∷◌, ◌++◌, length,
  length-append, arith, subst,
}
use droidcam_linux_client.Frames.Queues.{
  Pool, push_jpg_frame, pull_empty_jpg_frame, pull_ready_jpg_frame, add_frames, clear_receive,
  clear_decode,
}
use droidcam_linux_client.Frames.{
  VideoPc, top, holding, filled, second_test, recycle, hand_over, cleanup, half_cleaned, ended,
  crashed, DecodePc, idle, busy, System, Turn, video_turn, decode_turn, turn, run, start,
}

-- What each point of the video thread's loop needs.
abbrev pub AtPc : VideoPc → Pool → Type 0
AtPc top p = p.receive ≢ []
AtPc (second_test f) p = p.receive ≢ []
AtPc (hand_over f) p = (p.receive ≢ []) × (length p.decode ≤ p.limit)
AtPc crashed p = ⊥
AtPc _ p = Unit {0}

pub record Ready (s : System) : Type 0 where
  pub at : AtPc s.video s.pool
  pub no_limit : s.pool.limit ≡ 0
  pub short : length s.pool.decode ≤ 1

pub start-Ready : Ready start
unfolding start add_frames
start-Ready = record { at = λ e. cc; no_limit = refl; short = omega arith }

snoc-ne-nil : (f : ℕ) (l : List ℕ) → l ++ f ∷ [] ≢ []
snoc-ne-nil f [] e = cc
snoc-ne-nil f (g ∷ l) e = cc

unfoldable pub pool_of : List ℕ → List ℕ → ℕ → Pool
pool_of rc dc l = record { receive = rc; decode = dc; limit = l }

-- What the video thread relies on survives what the decoding thread does.
AtPc-grow :
    (pc : VideoPc) (f : ℕ) (rc dc : List ℕ) (l : ℕ)
    → AtPc pc (pool_of rc dc l)
    → AtPc pc (pool_of (rc ++ f ∷ []) dc l)
unfolding pool_of
AtPc-grow top f rc dc l at = snoc-ne-nil f rc
AtPc-grow (second_test g) f rc dc l at = snoc-ne-nil f rc
AtPc-grow (hand_over g) f rc dc l at = (snoc-ne-nil f rc, at.1)
AtPc-grow crashed f rc dc l at = at
AtPc-grow _ f rc dc l at = tt

AtPc-shrink :
    (pc : VideoPc) (f : ℕ) (rc dc : List ℕ) (l : ℕ)
    → AtPc pc (pool_of rc (f ∷ dc) l)
    → AtPc pc (pool_of rc dc l)
unfolding pool_of
AtPc-shrink top f rc dc l at = at
AtPc-shrink (second_test g) f rc dc l at = at
AtPc-shrink (hand_over g) f rc dc l at = (at.0, omega (arith, at.1))
AtPc-shrink crashed f rc dc l at = at
AtPc-shrink _ f rc dc l at = tt

abbrev pub state : DecodePc → ℕ → (ℕ → ℕ) → ℕ → List ℕ → VideoPc → List ℕ → List ℕ → System
state d l k n sh pc rc dc = record {
  pool = record { receive = rc; decode = dc; limit = l };
  video = pc;
  decode = d;
  content = k;
  received = n;
  shown = sh;
}

module _ (d : DecodePc) (l : ℕ) (k : ℕ → ℕ) (n : ℕ) (sh : List ℕ) where
  video-Ready :
      (go : Bool) (pc : VideoPc) (rc dc : List ℕ)
      → Ready (state d l k n sh pc rc dc)
      → Ready (turn (video_turn go) (state d l k n sh pc rc dc))
  unfolding turn push_jpg_frame pull_empty_jpg_frame add_frames clear_receive clear_decode
  video-Ready true top [] dc r = absurd (r.at refl)
  video-Ready true top (f ∷ rc) dc r = ground arith
  video-Ready false top rc dc r = record { at = tt; no_limit = r.no_limit; short = r.short }
  video-Ready true (holding f) rc dc r = record { at = tt; no_limit = r.no_limit; short = r.short }
  video-Ready false (holding f) rc dc r = record { at = tt; no_limit = r.no_limit; short = r.short }
  video-Ready go (filled f) [] dc r = record { at = tt; no_limit = r.no_limit; short = r.short }
  video-Ready go (filled f) (g ∷ rc) dc r = ground arith
  video-Ready go (second_test f) rc dc r = ground arith
  video-Ready go (recycle f) rc dc r = record {
    at = snoc-ne-nil f rc;
    no_limit = r.no_limit;
    short = r.short;
  }
  video-Ready go (hand_over f) rc dc r = record {
    at = r.at.0;
    no_limit = r.no_limit;
    short = omega (arith, r.at.1, length-append dc (f ∷ []));
  }
  video-Ready go cleanup rc dc r = record { at = tt; no_limit = r.no_limit; short = r.short }
  video-Ready go half_cleaned rc dc r = record {
    at = tt;
    no_limit = r.no_limit;
    short = omega arith;
  }
  video-Ready true ended rc dc r = record {
    at = snoc-ne-nil 2 _;
    no_limit = r.no_limit;
    short = r.short;
  }
  video-Ready false ended rc dc r = r
  video-Ready go crashed rc dc r = r

pub pull_ready-nil :
    (rc : List ℕ) (l : ℕ) → pull_ready_jpg_frame (pool_of rc [] l) ≡ (none, pool_of rc [] l)
unfolding pull_ready_jpg_frame pool_of
pull_ready-nil rc l = let e : ltb l 0 ≡ false = ground arith in rw e

pub pull_ready-cons :
    (f : ℕ) (rc dc : List ℕ) (l : ℕ)
    → l ≡ 0
    → pull_ready_jpg_frame (pool_of rc (f ∷ dc) l) ≡ (some f, pool_of rc dc l)
unfolding pull_ready_jpg_frame pool_of
pull_ready-cons f rc dc l e = let more : ltb l (length (f ∷ dc)) ≡ true = ground arith in rw more

module _ (l : ℕ) (k : ℕ → ℕ) (n : ℕ) (sh : List ℕ) where
  decode-Ready :
      (d : DecodePc) (pc : VideoPc) (rc dc : List ℕ)
      → Ready (state d l k n sh pc rc dc)
      → Ready (turn decode_turn (state d l k n sh pc rc dc))
  unfolding turn push_jpg_frame pool_of
  decode-Ready idle pc rc [] r = rw (pull_ready-nil rc l) r
  decode-Ready idle pc rc (f ∷ dc) r = rw (pull_ready-cons f rc dc l r.no_limit) (record {
    at = AtPc-shrink pc f rc dc l r.at;
    no_limit = r.no_limit;
    short = omega (arith, r.short);
  })
  decode-Ready (busy f) pc rc dc r = record {
    at = AtPc-grow pc f rc dc l r.at;
    no_limit = r.no_limit;
    short = r.short;
  }

pub turn-Ready : (t : Turn) (s : System) → Ready s → Ready (turn t s)
turn-Ready (video_turn go) s r =
    video-Ready s.decode s.pool.limit s.content s.received s.shown go s.video s.pool.receive
      s.pool.decode r
turn-Ready decode_turn s r =
    decode-Ready s.pool.limit s.content s.received s.shown s.decode s.video s.pool.receive
      s.pool.decode r

pub run-Ready : (ts : List Turn) (s : System) → Ready s → Ready (run ts s)
unfolding run
run-Ready [] s r = r
run-Ready (t ∷ ts) s r = run-Ready ts (turn t s) (turn-Ready t s r)

-- Under every interleaving of the two threads, stops and new rounds of the server mode included,
-- the video thread finds an empty frame whenever it pulls one: it never uses the NULL that
-- `queue_next` returns for an empty queue. At most one frame ever waits to be decoded.
pub no_null_frame :
    (ts : List Turn)
    → ((run ts start).video ≢ crashed)
      × ((run ts start).video ≡ top → (run ts start).pool.receive ≢ [])
      × (length (run ts start).pool.decode ≤ 1)
no_null_frame ts = (
  λ e. subst (λ pc. AtPc pc (run ts start).pool) e r.at,
  λ e. subst (λ pc. AtPc pc (run ts start).pool) e r.at,
  r.short,
)
  where
    r : Ready (run ts start)
    r = run-Ready ts start start-Ready
