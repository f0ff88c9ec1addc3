-- ===== src/Video/Layout.antt =====
-- Where `decoder_prepare_video` puts planes and frames, and when its `int` sizes overflow.
use droidcam_linux_client.Prelude.{
  ℕ, zero, suc, ◌+◌, ◌*◌, ◌/◌, ◌%◌, ◌^◌, ◌≤◌, ◌<◌, ◌≡◌, ◌≢◌, ◌↔◌, ◌⊎◌, inl, inr, refl, true, ltb,
  if◌then◌else◌, none, some, List, get_or, arith, sym, ◌∙◌,
}
use droidcam_linux_client.Video.Decoder.{BufferName, JpgDecoder, undefined, prepared}
use droidcam_linux_client.Video.Planes.{Plan, InBuffer, planes-Plan}
use droidcam_linux_client.Video.Prepare.{
  Host, be16, planes_of, orient, scale, allocate, target, lay_out, decoder_prepare_video,
  frame_offset,
}

abbrev pub width_of : List ℕ → ℕ
width_of header = be16 (get_or header 0 0) (get_or header 1 0)

abbrev pub height_of : List ℕ → ℕ
height_of header = be16 (get_or header 2 0) (get_or header 3 0)

abbrev pub area_of : List ℕ → ℕ
area_of header = width_of header * height_of header

-- The decoder once the header is read and both handles exist.
abbrev pub entered : List ℕ → JpgDecoder → JpgDecoder
entered header d = record d {
  m_width = width_of header;
  m_height = height_of header;
  tj = true;
  tj_xform = true;
}

-- The decoder that a successful call leaves.
abbrev pub laid : Host → List ℕ → JpgDecoder → JpgDecoder
laid host header d =
    target (scale host (allocate host (area_of header) (orient (entered header d))))

abbrev pub in_buf_size : ℕ → ℕ
in_buf_size area = area * 3 / 2 * 3 + 4096

-- Every condition that the call tests holds.
pub record Accepts (host : Host) (header : List ℕ) : Type 0 where
  pub device : host.device_open ≡ true
  pub width : width_of header ≢ 0
  pub height : height_of header ≢ 0
  pub tj : host.tj_ok ≡ true
  pub xform : host.xform_ok ≡ true

pub lay_out_lem :
    (host : Host) (e : JpgDecoder) (area : ℕ)
    → e.m_width * e.m_height ≡ area
    → lay_out host e ≡ (
        if ltb (in_buf_size area) (2 ^ 31)
        then prepared (target (scale host (allocate host area (orient e))))
        else undefined)
unfolding lay_out
lay_out_lem host e area same = ground arith

-- The call succeeds exactly if its tests pass and its sizes are `int`s.
pub prepare_lem :
    (host : Host) (header : List ℕ) (d : JpgDecoder)
    → Accepts host header
    → decoder_prepare_video host header d ≡ (
        if ltb (in_buf_size (area_of header)) (2 ^ 31)
        then prepared (laid host header d)
        else undefined)
unfolding decoder_prepare_video
prepare_lem host header d a = ground (
  arith,
  a.device,
  a.tj,
  a.xform,
  a.width,
  a.height,
  lay_out_lem host (entered header d) (area_of header) refl,
)

pub Accepts-of_prepared :
    (host : Host) (header : List ℕ) (d : JpgDecoder) {e : JpgDecoder}
    → decoder_prepare_video host header d ≡ prepared e
    → Accepts host header
unfolding decoder_prepare_video
Accepts-of_prepared host header d done = ground arith

-- With the tests passed, the behaviour of `decoder_prepare_video` is undefined exactly if the size
-- of its input buffer, three frames of one and a half bytes for each pixel and 4096 bytes, does
-- not fit an `int`.
pub undefined_iff_overflow :
    (host : Host) (header : List ℕ) (d : JpgDecoder)
    → Accepts host header
    → (decoder_prepare_video host header d ≡ undefined)
      ↔ (2 ^ 31 ≤ area_of header * 3 / 2 * 3 + 4096)
undefined_iff_overflow host header d a =
    rw (prepare_lem host header d a) (λ e. ground arith, λ e. ground arith)

pub laid_of_prepared :
    (host : Host) (header : List ℕ) (d e : JpgDecoder)
    → decoder_prepare_video host header d ≡ prepared e
    → e ≡ laid host header d
laid_of_prepared host header d e done =
    let a : Accepts host header = Accepts-of_prepared host header d done in
    ground (arith, prepare_lem host header d a)

-- The sizes that `decoder_init` computes from the webcam's width and height.
pub record WebcamSized (d : JpgDecoder) : Type 0 where
  pub y : d.webcam_y_size ≡ d.webcam_width * d.webcam_height
  pub uv : d.webcam_uv_size ≡ d.webcam_y_size / 4
  pub yuv : d.webcam_yuv_size ≡ d.webcam_width * d.webcam_height * 3 / 2

module _ (host : Host) (header : List ℕ) (d : JpgDecoder) where
  pub laid-sizes :
      ((laid host header d).y_size ≡ area_of header)
      × ((laid host header d).uv_size ≡ area_of header / 4)
      × ((laid host header d).yuv420_size ≡ area_of header * 3 / 2)
      × ((laid host header d).in_buf ≡ host.malloc (in_buf_size (area_of header)))
      × ((laid host header d).decode_buf ≡ host.malloc (area_of header * 3 / 2))
  unfolding target scale allocate orient
  laid-sizes = ground arith

  laid-planes :
      (laid host header d).tj_dst
      ≡ planes_of BufferName.decode_buf
          (laid host header d).d_width
          (area_of header)
          (area_of header / 4)
  unfolding target scale allocate orient
  laid-planes = ground arith

  -- The dimensions of the decoded picture, which is turned for a webcam that is taller than wide.
  laid-turned :
      (((laid host header d).d_width ≡ width_of header)
        × ((laid host header d).d_height ≡ height_of header))
      ⊎ (((laid host header d).d_width ≡ height_of header)
          × ((laid host header d).d_height ≡ width_of header))
  unfolding target scale allocate orient
  laid-turned = ground arith

  -- The scaler's planes and buffer, where the sizes differ.
  laid-scaled :
      d.webcam_yuv_size ≢ area_of header * 3 / 2
      → ((laid host header d).webcam_buf ≡ host.malloc d.webcam_yuv_size)
        × ((laid host header d).swc_src
            ≡ planes_of BufferName.decode_buf
                (laid host header d).d_width
                (area_of header)
                (area_of header / 4))
        × ((laid host header d).swc_dst
            ≡ planes_of BufferName.webcam_buf d.webcam_width d.webcam_y_size d.webcam_uv_size)
  unfolding target scale allocate orient
  laid-scaled differ = ground arith

  laid-webcam :
      ((laid host header d).webcam_yuv_size ≡ d.webcam_yuv_size)
      × ((laid host header d).webcam_y_size ≡ d.webcam_y_size)
      × ((laid host header d).webcam_uv_size ≡ d.webcam_uv_size)
  unfolding target scale allocate orient
  laid-webcam = ground arith

module _ (host : Host) (header : List ℕ) (d : JpgDecoder) where
  pub laid-webcam_size :
      ((laid host header d).webcam_width ≡ d.webcam_width)
      × ((laid host header d).webcam_height ≡ d.webcam_height)
  unfolding target scale allocate orient
  laid-webcam_size = ground arith

-- The planes of the decoded picture and of the scaler, and the places of the frames.
pub record InBounds (e : JpgDecoder) : Type 0 where
  pub decoded : InBuffer e.decode_buf BufferName.decode_buf e.tj_dst e.d_width e.d_height
  pub source :
      e.webcam_yuv_size ≢ e.yuv420_size
      → InBuffer e.decode_buf BufferName.decode_buf e.swc_src e.d_width e.d_height
  pub scaled :
      e.webcam_yuv_size ≢ e.yuv420_size
      → InBuffer e.webcam_buf BufferName.webcam_buf e.swc_dst e.webcam_width e.webcam_height
  pub frames :
      (i : ℕ)
      → i < 3
      → (size : ℕ) × (e.in_buf ≡ some size) × (frame_offset e i + e.yuv420_size ≤ size)

pub frame_fits : (n i : ℕ) → i < 3 → i * n + n ≤ n * 3 + 4096
frame_fits n zero small = omega arith
frame_fits n (suc zero) small = omega arith
frame_fits n (suc (suc zero)) small = omega arith
frame_fits n (suc (suc (suc i))) small = absurd (omega arith)

-- Whole blocks of chroma: the width and the height of a picture are even.
abbrev pub IsEven : (width height : ℕ) → Type 0
IsEven width height = (width % 2 ≡ 0) × (height % 2 ≡ 0)

module _ (host : Host) (header : List ℕ) (d : JpgDecoder)
    (malloc : (n : ℕ) → host.malloc n ≡ some n) where
  laid-Plan :
      IsEven (width_of header) (height_of header)
      → Plan
          (planes_of BufferName.decode_buf
            (laid host header d).d_width
            (area_of header)
            (area_of header / 4))
          BufferName.decode_buf
          (laid host header d).d_width
          (laid host header d).d_height
          (area_of header * 3 / 2)
  laid-Plan (even_w, even_h) = elim (laid-turned host header d) [
    | inl (w, h) ↦ rw (w, h) (planes-Plan _ _ _ _ _ _ even_w even_h refl refl (omega arith))
    | inr (w, h) ↦
        rw (w, h) (planes-Plan _ _ _ _ _ _ even_h even_w (grind arith) refl (omega arith))
  ]

  laid-frames :
      (i : ℕ)
      → i < 3
      → (size : ℕ) × ((laid host header d).in_buf ≡ some size)
        × (frame_offset (laid host header d) i + (laid host header d).yuv420_size ≤ size)
  laid-frames i small =
      let (y, uv, yuv, inb, buf) = laid-sizes host header d in
      rw yuv
        (in_buf_size (area_of header), inb ∙ malloc _, frame_fits (area_of header * 3 / 2) i small)

  laid-InBounds :
      WebcamSized d
      → IsEven (width_of header) (height_of header)
      → IsEven d.webcam_width d.webcam_height
      → InBounds (laid host header d)
  laid-InBounds sized even even_webcam =
      let (y, uv, yuv, inb, buf) = laid-sizes host header d in
      let (same_w, same_h) = laid-webcam_size host header d in
      record {
        decoded =
            rw (laid-planes host header d) (area_of header * 3 / 2, buf ∙ malloc _, laid-Plan even);
        source = λ differ.
            rw (laid-scaled host header d (differs differ)).1
              (area_of header * 3 / 2, buf ∙ malloc _, laid-Plan even);
        scaled = λ differ.
            let (made, src, dst) = laid-scaled host header d (differs differ) in
            rw (dst, same_w, same_h)
              (
                d.webcam_yuv_size,
                made ∙ malloc _,
                planes-Plan _ _ _ _ _ _ even_webcam.0 even_webcam.1 (sym sized.y) sized.uv
                    (omega (arith, sized.y, sized.uv, sized.yuv)),
              );
        frames = laid-frames;
      }
    where
      differs :
          (laid host header d).webcam_yuv_size ≢ (laid host header d).yuv420_size
          → d.webcam_yuv_size ≢ area_of header * 3 / 2
      differs ne e =
          let (y, uv, yuv, inb, buf) = laid-sizes host header d in
          let (w_yuv, w_y, w_uv) = laid-webcam host header d in ne (w_yuv ∙ e ∙ sym yuv)

-- If `malloc` succeeds, the webcam's sizes are those that `decoder_init` computes, and the width and
-- the height are even both for the stream and for the webcam, then after a successful
-- `decoder_prepare_video` the three planes of the decoded image lie in the decode buffer: the rows of
-- each fit their stride, and end before the next plane begins or inside the buffer. So do the
-- scaler's source planes, and its target planes in the webcam's buffer, where the sizes differ; and
-- each of the three frames has room for `m_Yuv420Size` bytes in the input buffer.
pub layout-InBounds :
    (host : Host) (header : List ℕ) (d e : JpgDecoder)
    → ((n : ℕ) → host.malloc n ≡ some n)
    → WebcamSized d
    → IsEven (width_of header) (height_of header)
    → IsEven d.webcam_width d.webcam_height
    → decoder_prepare_video host header d ≡ prepared e
    → InBounds e
layout-InBounds host header d e malloc sized even even_webcam done =
    rw (laid_of_prepared host header d e done)
      (laid-InBounds host header d malloc sized even even_webcam)

laid-unscaled :
    (host : Host) (header : List ℕ) (d : JpgDecoder)
    → d.swc ≡ none
    → d.webcam_yuv_size ≡ area_of header * 3 / 2
    → (laid host header d).swc ≡ none
unfolding target scale allocate orient
laid-unscaled host header d unset same = ground arith

-- A stream whose picture has as many pixels as the webcam's is never scaled, also where its width
-- and height are others: no scaler is set up, if none was there before.
pub same_area_unscaled :
    (host : Host) (header : List ℕ) (d e : JpgDecoder)
    → d.swc ≡ none
    → d.webcam_yuv_size ≡ area_of header * 3 / 2
    → decoder_prepare_video host header d ≡ prepared e
    → e.swc ≡ none
same_area_unscaled host header d e unset same done =
    rw (laid_of_prepared host header d e done) (laid-unscaled host header d unset same)
