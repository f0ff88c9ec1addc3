-- ===== src/Device/Init.antt =====
-- `decoder_init` of src/decoder.c.
use droidcam_linux_client.Prelude.{
  ℕ, ◌*◌, ◌/◌, ◌%◌, ◌^◌, ◌≤◌, ◌<◌, ◌≡◌, ◌≢◌, refl, Bool, true, false, ◌||◌, ltb, if◌then◌else◌,
  Option, none, some, List, arith, if-holds,
}
use droidcam_linux_client.Prelude.Int.{ℤ, pos, ltb_ℤ}
use droidcam_linux_client.Device.Open.{DeviceFile, Scan, open_v4l2_device, find_v4l2_device}
use droidcam_linux_client.Device.Query.{platform, platform_dc, QueryAnswers, query_v4l_device}
use droidcam_linux_client.Video.Flip.{TransformOp}
use droidcam_linux_client.Video.Decoder.{JpgDecoder, no_planes}
use droidcam_linux_client.Video.Layout.{WebcamSized}
use native.Mathlib.Nat.{mul-le-mul, mod-eq_of_lt}

-- What the call depends on: the file that the caller names, if any, the files /dev/video0 and on,
-- and what a descriptor answers when it is queried.
pub record Machine : Type 0 where
  pub given : Option DeviceFile
  pub files : List DeviceFile
  pub query : ℤ → QueryAnswers

-- `droidcam_device_fd` behind the search.
unfoldable pub search_device : Machine → Scan → ℤ
search_device m s = elim m.given [
  | some f ↦ open_v4l2_device f
  | none ↦
      let (s, fd) = find_v4l2_device platform_dc m.files s in
      if ltb_ℤ fd (pos 0) then (find_v4l2_device platform m.files s).1 else fd
]

-- The decoder for a webcam's width and height; the products are unsigned and wrap.
unfoldable pub set_webcam : ℕ → ℕ → JpgDecoder
set_webcam w h =
    let area = (w * h) % 2 ^ 32 in
    record {
      invert = ltb w h;
      subsamp = 0;
      m_width = 0;
      m_height = 0;
      d_width = 0;
      d_height = 0;
      yuv420_size = 0;
      y_size = 0;
      uv_size = 0;
      webcam_width = w;
      webcam_height = h;
      webcam_yuv_size = (area * 3) % 2 ^ 32 / 2;
      webcam_y_size = area;
      webcam_uv_size = area / 4;
      buffer_limit = 0;
      in_buf = none;
      decode_buf = none;
      webcam_buf = none;
      swc = none;
      tj = false;
      tj_xform = false;
      op = TransformOp.none;
      tj_dst = no_planes;
      swc_src = no_planes;
      swc_dst = no_planes;
    }

-- What `decoder_init` comes to: 0 behind a message, or 1 with the descriptor, whether the message
-- of the missing device was shown, and the decoder.
pub data Started : Type 0 where
  bad_size : Started
  started : (fd : ℤ) (missing : Bool) (d : JpgDecoder) → Started

unfoldable pub start_decoder : Machine → ℤ → Started
start_decoder m fd =
    if ltb_ℤ fd (pos 0)
    then started (pos 0) true (set_webcam 320 240)
    else (let q = query_v4l_device (m.query fd) in
        if ltb q.width 2 || ltb q.height 2 || ltb 9999 q.width || ltb 9999 q.height
        then bad_size
        else started fd false (set_webcam q.width q.height))

unfoldable pub decoder_init : Machine → Scan → Started
decoder_init m s = start_decoder m (search_device m s)

-- The sizes of a webcam that is at most 9999 pixels wide and high do not wrap.
area-lt : (w h : ℕ) → w ≤ 9999 → h ≤ 9999 → w * h * 3 < 2 ^ 32
area-lt w h narrow low = omega (arith, mul-le-mul narrow low)

set_webcam-WebcamSized : (w h : ℕ) → w ≤ 9999 → h ≤ 9999 → WebcamSized (set_webcam w h)
unfolding set_webcam
set_webcam-WebcamSized w h narrow low =
    let small : w * h * 3 < 2 ^ 32 = area-lt w h narrow low in
    let area : (w * h) % 2 ^ 32 ≡ w * h = mod-eq_of_lt (omega arith) in
    let triple : (w * h * 3) % 2 ^ 32 ≡ w * h * 3 = mod-eq_of_lt small in
    record { y = area; uv = refl; yuv = rw (area, triple) }

-- A webcam of 2 to 9999 pixels in both directions, whose sizes are set.
abbrev pub Ready : JpgDecoder → Type 0
Ready d =
    WebcamSized d
    × (2 ≤ d.webcam_width)
    × (d.webcam_width ≤ 9999)
    × (2 ≤ d.webcam_height)
    × (d.webcam_height ≤ 9999)
    × (d.invert ≡ ltb d.webcam_width d.webcam_height)

abbrev pub IfStarted : Started → Type 0
IfStarted bad_size = Unit {0}
IfStarted (started fd missing d) = Ready d

set_webcam-Ready : (w h : ℕ) → 2 ≤ w → w ≤ 9999 → 2 ≤ h → h ≤ 9999 → Ready (set_webcam w h)
unfolding set_webcam
set_webcam-Ready w h wide narrow high low =
    (set_webcam-WebcamSized w h narrow low, wide, narrow, high, low, refl)

start_decoder-Ready : (m : Machine) (fd : ℤ) → IfStarted (start_decoder m fd)
unfolding start_decoder
start_decoder-Ready m fd =
    let q = query_v4l_device (m.query fd) in
    let bad = ltb q.width 2 || ltb q.height 2 || ltb 9999 q.width || ltb 9999 q.height in
    if-holds (ltb_ℤ fd (pos 0)) _ _ IfStarted
      (λ e. set_webcam-Ready 320 240 (omega arith) (omega arith) (omega arith) (omega arith))
      (λ e.
        if-holds bad bad_size (started fd false (set_webcam q.width q.height)) IfStarted
          (λ small. tt)
          (λ good.
            set_webcam-Ready q.width q.height (ground arith) (ground arith) (ground arith)
              (ground arith)))

open-not-negative : (f : DeviceFile) → ltb_ℤ (open_v4l2_device f) (pos 0) ≡ false
unfolding open_v4l2_device
open-not-negative f = ground arith

start_not_missing :
    (m : Machine) (fd fd' : ℤ) (d : JpgDecoder)
    → ltb_ℤ fd (pos 0) ≡ false
    → start_decoder m fd ≢ started fd' true d
unfolding start_decoder
start_not_missing m fd fd' d valid = rw valid (
    if-holds _ bad_size (started fd false (set_webcam _ _)) (λ r. r ≢ started fd' true d)
      (λ small e. cc) (λ good e. cc))

-- The decoder that `decoder_init` starts has a webcam of 2 to 9999 pixels in both directions, the
-- three webcam sizes are those of 4:2:0 planes without any wrap-around, and the picture is turned
-- exactly for a webcam that is taller than wide.
pub decoder_init-Ready : (m : Machine) (s : Scan) → IfStarted (decoder_init m s)
unfolding decoder_init
decoder_init-Ready m s = start_decoder-Ready m (search_device m s)

-- For a device that the caller names, the message of a missing device is never shown, whether it
-- could be opened or not.
pub named_device_never_missing :
    (m : Machine) (s : Scan) (f : DeviceFile) (fd : ℤ) (d : JpgDecoder)
    → m.given ≡ some f
    → decoder_init m s ≢ started fd true d
unfolding decoder_init search_device
named_device_never_missing m s f fd d given = rw given (
    start_not_missing (record m { given = some f }) (open_v4l2_device f) fd d (open-not-negative f))
