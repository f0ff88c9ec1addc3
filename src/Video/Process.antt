-- ===== src/Video/Process.antt =====
-- `process_frame` and `decoder_share_frame` of src/decoder.c.
use droidcam_linux_client.Prelude.{
  ℕ, ◌*◌, ◌/◌, ◌≡◌, Bool, true, false, not, ◌==◌, ◌&&◌, ◌||◌, if◌then◌else◌, Option, none, some,
  List, arith, subst, sym,
}
use droidcam_linux_client.Video.Flip.{TransformOp}
use droidcam_linux_client.Video.Decoder.{BufferName, JpgDecoder, prepared}
use droidcam_linux_client.Video.Prepare.{
  Host, decoder_prepare_video, target, scale, allocate, orient,
}
use droidcam_linux_client.Video.Layout.{laid, area_of, laid_of_prepared}

-- turbojpeg, whose calls fail with a NULL handle: the width, height and subsampling that it reads in a header, its lossless transform,
-- whether it decompresses the data, and its number for 4:2:0.
pub record Turbo : Type 0 where
  pub decompress_header : List ℕ → Option (ℕ × ℕ × ℕ)
  pub transform : TransformOp → List ℕ → Option (List ℕ)
  pub decompresses : List ℕ → Bool
  pub samp_420 : ℕ

pub data Reason : Type 0 where
  bad_header bad_subsampling bad_dimensions bad_transform bad_data : Reason

-- A call gives up, or writes `size` bytes of a buffer to the video device.
pub data Processed : Type 0 where
  dropped : Reason → Processed
  shared : BufferName → ℕ → Processed

unfoldable pub decoder_share_frame : JpgDecoder → Processed
decoder_share_frame d = elim d.swc [
  | none ↦ shared BufferName.decode_buf d.webcam_yuv_size
  | some sizes ↦ shared BufferName.webcam_buf d.webcam_yuv_size
]

abbrev pub is_none : TransformOp → Bool
is_none TransformOp.none = true
is_none _ = false

-- The planes are decompressed and shared.
unfoldable pub decompress : Turbo → JpgDecoder → List ℕ → Processed
unfolding decoder_share_frame
decompress t d p = if d.tj && t.decompresses p then decoder_share_frame d else dropped bad_data

unfoldable pub transform_then : Turbo → JpgDecoder → List ℕ → Processed
unfolding decompress
transform_then t d p =
    if is_none d.op
    then decompress t d p
    else elim (if d.tj_xform then t.transform d.op p else none) [
      | none ↦ dropped bad_transform
      | some q ↦ decompress t d q
    ]

-- The header is checked until one has fitted, which `subsamp` remembers.
unfoldable pub check_header :
    Turbo → JpgDecoder → Option (ℕ × ℕ × ℕ) → List ℕ → JpgDecoder × Processed
unfolding transform_then
check_header t d none p = (d, dropped bad_header)
check_header t d (some (width, height, subsamp)) p =
    if not (subsamp == t.samp_420)
    then (d, dropped bad_subsampling)
    else if not (width == d.m_width) || not (height == d.m_height)
    then (d, dropped bad_dimensions)
    else (let d' : JpgDecoder = record d { subsamp = subsamp } in (d', transform_then t d' p))

unfoldable pub process_frame : Turbo → JpgDecoder → List ℕ → JpgDecoder × Processed
unfolding check_header
process_frame t d p =
    if d.subsamp == 0
    then check_header t d (if d.tj then t.decompress_header p else none) p
    else (d, transform_then t d p)

-- The buffer that is written to the device.
abbrev pub buffer_of : JpgDecoder → BufferName → Option ℕ
buffer_of d BufferName.decode_buf = d.decode_buf
buffer_of d BufferName.webcam_buf = d.webcam_buf

-- While no frame has passed the check, a frame reaches the webcam only if its header names 4:2:0
-- and the dimensions of the stream; the decoder then remembers that the check has passed and is
-- otherwise as before.
pub first_frame_checked :
    (t : Turbo) (d : JpgDecoder) (p : List ℕ) (b : BufferName) (n : ℕ)
    → d.subsamp ≡ 0
    → (process_frame t d p).1 ≡ shared b n
    → (t.decompress_header p ≡ some (d.m_width, d.m_height, t.samp_420))
      × ((process_frame t d p).0 ≡ record d { subsamp = t.samp_420 })
unfolding process_frame
first_frame_checked t d p b n unset done = (ground arith, ground arith)

pub shared_lem :
    (t : Turbo) (d : JpgDecoder) (p : List ℕ) (b : BufferName) (n : ℕ)
    → (process_frame t d p).1 ≡ shared b n
    → decoder_share_frame d ≡ shared b n
unfolding process_frame
shared_lem t d p b n done = ground arith

laid-share :
    (host : Host) (header : List ℕ) (d : JpgDecoder) (b : BufferName) (n : ℕ)
    → ((k : ℕ) → host.malloc k ≡ some k)
    → host.sws_ok ≡ true
    → d.swc ≡ none
    → decoder_share_frame (laid host header d) ≡ shared b n
    → buffer_of (laid host header d) b ≡ some n
unfolding decoder_share_frame target scale allocate orient
laid-share host header d BufferName.decode_buf n malloc scaler unset done =
    ground (arith, malloc (area_of header * 3 / 2))
laid-share host header d BufferName.webcam_buf n malloc scaler unset done =
    ground (arith, malloc d.webcam_yuv_size)

pub share-size :
    (t : Turbo) (d : JpgDecoder) (p : List ℕ) (b : BufferName) (n : ℕ)
    → (process_frame t d p).1 ≡ shared b n
    → n ≡ d.webcam_yuv_size
unfolding process_frame
share-size t d p b n done = ground arith

-- The buffer that is shared, which no frame changes.
pub prepared-share :
    (host : Host) (header : List ℕ) (d e : JpgDecoder) (b : BufferName) (n : ℕ)
    → ((k : ℕ) → host.malloc k ≡ some k)
    → host.sws_ok ≡ true
    → d.swc ≡ none
    → decoder_prepare_video host header d ≡ prepared e
    → decoder_share_frame e ≡ shared b n
    → buffer_of e b ≡ some n
prepared-share host header d e b n malloc scaler unset done =
    subst (λ e. decoder_share_frame e ≡ shared b n → buffer_of e b ≡ some n)
      (sym (laid_of_prepared host header d e done))
      (laid-share host header d b n malloc scaler unset)
