-- ===== src/Video/Prepare.antt =====
-- `decoder_prepare_video` of src/decoder.c.
use droidcam_linux_client.Prelude.{
  ℕ, ◌+◌, ◌*◌, ◌/◌, Bool, true, false, not, ◌==◌, if◌then◌else◌, Option, none, some, List, [], ◌∷◌,
  get_or,
}
use droidcam_linux_client.Video.Flip.{rot90}
use droidcam_linux_client.Video.Decoder.{
  BufferName, JpgDecoder, Planes, int_of, missing_device, invalid_stream, no_decoder, no_transform,
  Outcome, refused, undefined, prepared,
}

abbrev pub jpg_backbuf_max : ℕ
jpg_backbuf_max = 3

-- What the call depends on beside the decoder: whether the video device is open, whether
-- turbojpeg hands out its two handles, whether the scaler is set up (`sws_getCachedContext` can
-- return NULL, which the code does not test), and `malloc`, which returns NULL or a buffer of the size.
pub record Host : Type 0 where
  pub device_open : Bool
  pub tj_ok : Bool
  pub xform_ok : Bool
  pub sws_ok : Bool
  pub malloc : ℕ → Option ℕ

abbrev pub be16 : ℕ → ℕ → ℕ
be16 hi lo = hi * 256 + lo

-- Rotated dimensions for a webcam that is taller than wide.
unfoldable pub orient : JpgDecoder → JpgDecoder
orient d =
    if d.invert
    then record d { d_width = d.m_height; d_height = d.m_width; op = rot90 }
    else record d { d_width = d.m_width; d_height = d.m_height }

abbrev pub planes_of : BufferName → (width y uv : ℕ) → Planes
planes_of b width y uv = record {
  slices = some (b, 0) ∷ some (b, y) ∷ some (b, y + uv) ∷ none ∷ [];
  strides = width ∷ width / 2 ∷ width / 2 ∷ 0 ∷ [];
}

-- The scaler is set up where the stream and the webcam differ in size.
unfoldable pub scale : Host → JpgDecoder → JpgDecoder
scale host d = if d.webcam_yuv_size == d.yuv420_size then d else record d {
  webcam_buf = host.malloc d.webcam_yuv_size;
  swc =
      if host.sws_ok
      then some ((d.d_width, d.d_height), (d.webcam_width, d.webcam_height))
      else none;
  swc_src = planes_of BufferName.decode_buf d.d_width d.y_size d.uv_size;
  swc_dst = planes_of BufferName.webcam_buf d.webcam_width d.webcam_y_size d.webcam_uv_size;
}

-- Sizes and buffers, for sizes whose `int` products do not overflow.
unfoldable pub allocate : Host → ℕ → JpgDecoder → JpgDecoder
allocate host area d = record d {
  subsamp = 0;
  y_size = area;
  uv_size = area / 4;
  yuv420_size = area * 3 / 2;
  in_buf = host.malloc (area * 3 / 2 * jpg_backbuf_max + 4096);
  decode_buf = host.malloc (area * 3 / 2);
}

unfoldable pub target : JpgDecoder → JpgDecoder
target d = record d { tj_dst = planes_of BufferName.decode_buf d.d_width d.y_size d.uv_size }

-- The products are `int`s: `m_width * m_height`, `m_ySize * 3` and the size of the input buffer.
unfoldable pub lay_out : Host → JpgDecoder → Outcome
unfolding orient scale allocate target
lay_out host d = elim (int_of (d.m_width * d.m_height)) [
  | none ↦ undefined
  | some area ↦ elim (int_of (area * 3)) [
    | none ↦ undefined
    | some triple ↦ elim (int_of (triple / 2 * jpg_backbuf_max + 4096)) [
      | none ↦ undefined
      | some in_size ↦ prepared (target (scale host (allocate host area (orient d))))
    ]
  ]
]

-- The first two fields of the header are the stream's width and height.
unfoldable pub decoder_prepare_video : Host → List ℕ → JpgDecoder → Outcome
unfolding lay_out
decoder_prepare_video host header d =
    let d : JpgDecoder = record d {
      m_width = be16 (get_or header 0 0) (get_or header 1 0);
      m_height = be16 (get_or header 2 0) (get_or header 3 0);
    } in
    if not host.device_open
    then refused missing_device d
    else if d.m_width == 0
    then refused invalid_stream d
    else if d.m_height == 0
    then refused invalid_stream d
    else if not host.tj_ok
    then refused no_decoder (record d { tj = false })
    else if not host.xform_ok
    then refused no_transform (record d { tj = true; tj_xform = false })
    else lay_out host (record d { tj = true; tj_xform = true })

-- Where frame `i` begins in the input buffer.
abbrev pub frame_offset : JpgDecoder → ℕ → ℕ
frame_offset d i = i * d.yuv420_size
