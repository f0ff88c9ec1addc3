-- ===== src/Video/TestImage.antt =====
-- `decoder_show_test_image` of src/decoder.c.
use droidcam_linux_client.Prelude.{
  ℕ, zero, suc, ◌+◌, ◌*◌, ◌/◌, ◌%◌, ◌^◌, ◌≤◌, ◌<◌, ◌≡◌, refl, true, ltb, if◌then◌else◌, some, List,
  [], ◌∷◌, arith, ◌∙◌, lt→ltb, ap, if-holds,
}
use native.Mathlib.Nat.{mul-le-mul}
use droidcam_linux_client.Video.Decoder.{JpgDecoder, prepared}
use droidcam_linux_client.Video.Prepare.{Host, be16, decoder_prepare_video}
use droidcam_linux_client.Video.Layout.{
  area_of, in_buf_size, laid, laid-sizes, laid-webcam_size, Accepts, prepare_lem,
}

-- The header of a stream twice as wide and high as the webcam.
abbrev pub test_header : JpgDecoder → List ℕ
test_header d =
    let width = d.webcam_width * 2 in
    let height = d.webcam_height * 2 in
    width / 256 % 256 ∷ width % 256 ∷ height / 256 % 256 ∷ height % 256 ∷ []

-- The pointer `p` as an offset into the decode buffer, how often `rand` has been called, and what
-- has been written where, the latest first.
pub record Painter : Type 0 where
  pub p : ℕ
  pub calls : ℕ
  pub writes : List (ℕ × ℕ)

-- `*p++ = value`
abbrev pub put : ℕ → Painter → Painter
put value s = record s { p = s.p + 1; writes = (s.p, value) ∷ s.writes }

unfoldable pub put_many : (times value : ℕ) → Painter → Painter
put_many zero value s = s
put_many (suc k) value s = put_many k value (put value s)

unfoldable pub put_random : (ℕ → ℕ) → (times : ℕ) → Painter → Painter
put_random rand zero s = s
put_random rand (suc k) s =
    put_random rand k (put (rand s.calls % 250) (record s { calls = s.calls + 1 }))

-- `while (p < line_end) p++;`, for at least so many rounds.
unfoldable pub skip : (rounds line_end : ℕ) → Painter → Painter
skip zero line_end s = s
skip (suc k) line_end s = if ltb s.p line_end then skip k line_end (record s { p = s.p + 1 }) else s

-- Four bars of a quarter of the width each; what is left of the line keeps the grey of `memset`.
unfoldable pub paint_line : (ℕ → ℕ) → ℕ → Painter → Painter
unfolding put_many put_random skip
paint_line rand width s =
    let line_end = s.p + width in
    skip width line_end (
      put_random rand (width / 4)
        (put_many (width / 4) 128 (put_many (width / 4) 64 (put_many (width / 4) 0 s))))

unfoldable pub paint : (ℕ → ℕ) → (width lines : ℕ) → Painter → Painter
unfolding paint_line
paint rand width zero s = s
paint rand width (suc k) s = paint rand width k (paint_line rand width s)

abbrev pub painter : Painter
painter = record { p = 0; calls = 0; writes = [] }

-- What `memset` writes, and what is painted over it.
pub record TestImage : Type 0 where
  pub filled : List (ℕ × ℕ)
  pub painted : Painter

-- `memset` of the first `m_Yuv420Size` bytes, and the bars, on the decoder that a call of
-- `decoder_prepare_video` has prepared.
unfoldable pub test_image : (ℕ → ℕ) → JpgDecoder → TestImage
unfolding put_many paint
test_image rand e = record {
  filled = (put_many e.yuv420_size 128 painter).writes;
  painted = paint rand (e.webcam_width * 2) (e.webcam_height * 2) painter;
}

-- Every write stands in front of the limit.
abbrev pub Below : ℕ → List (ℕ × ℕ) → Type 0
Below limit [] = Unit {0}
Below limit (w ∷ ws) = (w.0 < limit) × Below limit ws

put_many-Below :
    (limit times value : ℕ) (s : Painter)
    → s.p + times ≤ limit
    → Below limit s.writes
    → ((put_many times value s).p ≡ s.p + times) × Below limit (put_many times value s).writes
unfolding put_many
put_many-Below limit zero value s fits below = (omega arith, below)
put_many-Below limit (suc k) value s fits below =
    let (at, done) =
      put_many-Below limit k value (put value s) (omega arith) (omega arith, below) in
    (omega (arith, at), done)

put_random-Below :
    (rand : ℕ → ℕ) (limit times : ℕ) (s : Painter)
    → s.p + times ≤ limit
    → Below limit s.writes
    → ((put_random rand times s).p ≡ s.p + times) × Below limit (put_random rand times s).writes
unfolding put_random
put_random-Below rand limit zero s fits below = (omega arith, below)
put_random-Below rand limit (suc k) s fits below =
    let (at, done) =
      put_random-Below rand limit k (put (rand s.calls % 250) (record s { calls = s.calls + 1 }))
        (omega arith) (omega arith, below) in
    (omega (arith, at), done)

skip_lem :
    (rounds line_end : ℕ) (s : Painter)
    → s.p ≤ line_end
    → line_end ≤ s.p + rounds
    → skip rounds line_end s ≡ record s { p = line_end }
unfolding skip
skip_lem zero line_end s before enough =
    let same : s.p ≡ line_end = omega arith in ap (λ n. record s { p = n }) same
skip_lem (suc k) line_end s before enough =
    if-holds (ltb s.p line_end) _ s (λ (t : Painter). t ≡ record s { p = line_end })
      (λ short. skip_lem k line_end (record s { p = s.p + 1 }) (ground arith) (omega arith))
      (λ there. let same : s.p ≡ line_end = ground arith in ap (λ n. record s { p = n }) same)

line-Below :
    (rand : ℕ → ℕ) (limit width : ℕ) (s : Painter)
    → s.p + width ≤ limit
    → Below limit s.writes
    → ((paint_line rand width s).p ≡ s.p + width) × Below limit (paint_line rand width s).writes
unfolding paint_line
line-Below rand limit width s fits below =
    let q = width / 4 in
    let (a, wa) = put_many-Below limit q 0 s (omega arith) below in
    let (b, wb) = put_many-Below limit q 64 (put_many q 0 s) (omega (arith, a)) wa in
    let (c, wc) =
      put_many-Below limit q 128 (put_many q 64 (put_many q 0 s)) (omega (arith, a, b)) wb in
    let (e, we) =
      put_random-Below rand limit q (put_many q 128 (put_many q 64 (put_many q 0 s)))
        (omega (arith, a, b, c)) wc in
    rw
      (skip_lem width (s.p + width)
        (put_random rand q (put_many q 128 (put_many q 64 (put_many q 0 s))))
        (omega (arith, a, b, c, e)) (omega (arith, a, b, c, e)))
      (refl, we)

paint-Below :
    (rand : ℕ → ℕ) (limit width lines : ℕ) (s : Painter)
    → s.p + lines * width ≤ limit
    → Below limit s.writes
    → ((paint rand width lines s).p ≡ s.p + lines * width)
      × Below limit (paint rand width lines s).writes
unfolding paint
paint-Below rand limit width zero s fits below = (grind arith, below)
paint-Below rand limit width (suc k) s fits below =
    let (at, done) = line-Below rand limit width s (grind arith) below in
    let (last, all) =
      paint-Below rand limit width k (paint_line rand width s) (grind (arith, at)) done in
    (grind (arith, at, last), all)

double-be16 : (n : ℕ) → n ≤ 9999 → be16 (n * 2 / 256 % 256) (n * 2 % 256) ≡ n * 2
double-be16 n small = omega arith

test-area :
    (d : JpgDecoder)
    → d.webcam_width ≤ 9999
    → d.webcam_height ≤ 9999
    → area_of (test_header d) ≡ d.webcam_width * 2 * (d.webcam_height * 2)
test-area d narrow low =
    rw (double-be16 d.webcam_width narrow, double-be16 d.webcam_height low) refl

double-fits : (w h : ℕ) → w ≤ 9999 → h ≤ 9999 → in_buf_size (w * 2 * (h * 2)) < 2 ^ 31
double-fits w h narrow low =
    let whole : w * 2 * (h * 2) ≤ 19998 * 19998 =
      mul-le-mul {n₂ = 19998} {m₂ = 19998} (omega arith) (omega arith) in
    omega (arith, whole)

-- Where the video device is open, both handles of turbojpeg are made and `malloc` succeeds, the
-- test image of a webcam that is at least one and at most 9999 pixels wide and high, as
-- `decoder_init` leaves it, is drawn as meant: the decoder is prepared, no size overflows, every
-- byte that `memset` fills stands inside the decode buffer, every byte of the bars stands in the
-- first plane, which is inside that buffer too, and the last line ends where that plane ends.
pub test_image_fits :
    (host : Host) (d : JpgDecoder) (rand : ℕ → ℕ)
    → host.device_open ≡ true
    → host.tj_ok ≡ true
    → host.xform_ok ≡ true
    → ((n : ℕ) → host.malloc n ≡ some n)
    → 1 ≤ d.webcam_width
    → d.webcam_width ≤ 9999
    → 1 ≤ d.webcam_height
    → d.webcam_height ≤ 9999
    → (e : JpgDecoder) × (decoder_prepare_video host (test_header d) d ≡ prepared e)
      × ((size : ℕ) × (e.decode_buf ≡ some size)
          × (e.y_size ≤ size)
          × Below size (test_image rand e).filled)
      × Below e.y_size (test_image rand e).painted.writes
      × ((test_image rand e).painted.p ≡ e.y_size)
unfolding test_image
test_image_fits host d rand device tj xform malloc wide narrow high low =
    let area = test-area d narrow low in
    let accepts : Accepts host (test_header d) = record {
      device = device;
      width = λ e. omega (arith, e, double-be16 d.webcam_width narrow);
      height = λ e. omega (arith, e, double-be16 d.webcam_height low);
      tj = tj;
      xform = xform;
    } in
    let (y, uv, yuv, inb, buf) = laid-sizes host (test_header d) d in
    let same = laid-webcam_size host (test_header d) d in
    let (last, below) =
      paint-Below rand (area_of (test_header d)) (d.webcam_width * 2) (d.webcam_height * 2) painter
        (grind (arith, area)) tt in
    (
      laid host (test_header d) d,
      prepare_lem host (test_header d) d accepts
          ∙ rw (area, lt→ltb _ _ (double-fits d.webcam_width d.webcam_height narrow low)) refl,
      (
        area_of (test_header d) * 3 / 2,
        buf ∙ malloc _,
        rw y (omega arith),
        rw yuv (put_many-Below _ (area_of (test_header d) * 3 / 2) 128 painter (omega arith) tt).1,
      ),
      rw (y, same.0, same.1) below,
      rw (y, same.0, same.1) (grind (arith, last, area)),
    )
