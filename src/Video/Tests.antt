-- ===== src/Video/Tests.antt =====
-- The video decoder at concrete headers.
use droidcam_linux_client.Prelude.{
  ℕ, ◌+◌, ◌*◌, ◌/◌, ◌^◌, ◌≤◌, ◌<◌, ◌≡◌, ◌↔◌, refl, true, false, none, some, List, [], ◌∷◌, arith,
}
use droidcam_linux_client.Video.Flip.{
  TransformOp, Press, press_all, of_mirrors, xor, odd_horizontal, odd_vertical,
  decoder_horizontal_flip, decoder_vertical_flip, flips_toggle,
}
use droidcam_linux_client.Video.Decoder.{BufferName, JpgDecoder, no_planes, undefined, prepared}
use droidcam_linux_client.Video.Prepare.{
  Host, decoder_prepare_video, orient, scale, allocate, target, frame_offset,
}
use droidcam_linux_client.Video.Planes.{chroma}
use droidcam_linux_client.Video.Layout.{
  area_of, laid, WebcamSized, InBounds, undefined_iff_overflow, layout-InBounds,
}
use droidcam_linux_client.Video.Process.{Turbo, process_frame, shared}
use droidcam_linux_client.Video.Memory.{Memory, IsEmpty, PrepareRound, memory_rounds}
use droidcam_linux_client.Video.Freed.{rounds_free_all}
use droidcam_linux_client.Video.TestImage.{
  test_header, painter, put_many, put_random, skip, paint_line, test_image, Below, test_image_fits,
}
use droidcam_linux_client.Video.Receive.{receive_range, short_frame_fits, long_frame_overruns}

-- A decoder for a webcam of 640 x 480, as `decoder_init` leaves it.
abbrev idle_decoder : JpgDecoder
idle_decoder = record {
  invert = false;
  subsamp = 0;
  m_width = 0;
  m_height = 0;
  d_width = 0;
  d_height = 0;
  yuv420_size = 0;
  y_size = 0;
  uv_size = 0;
  webcam_width = 640;
  webcam_height = 480;
  webcam_yuv_size = 460800;
  webcam_y_size = 307200;
  webcam_uv_size = 76800;
  buffer_limit = 0;
  in_buf = none;
  decode_buf = none;
  webcam_buf = none;
  swc = none;
  tj = false;
  tj_xform = false;
  op = TransformOp.none;
  tj_dst = no_planes;
  swc_src = no_planes;
  swc_dst = no_planes;
}

abbrev host : Host
host = record {
  device_open = true;
  tj_ok = true;
  xform_ok = true;
  sws_ok = true;
  malloc = λ n. some n;
}

-- 320 x 240, 480 x 640 and 65535 x 65535.
abbrev small_header : List ℕ
small_header = 1 ∷ 64 ∷ 0 ∷ 240 ∷ []

abbrev turned_header : List ℕ
turned_header = 1 ∷ 224 ∷ 2 ∷ 128 ∷ []

abbrev huge_header : List ℕ
huge_header = 255 ∷ 255 ∷ 255 ∷ 255 ∷ []

small_decoder : JpgDecoder
small_decoder = laid host small_header idle_decoder

abbrev turbo : Turbo
turbo = record {
  decompress_header = λ p. some (320, 240, 2);
  transform = λ op p. some p;
  decompresses = λ p. true;
  samp_420 = 2;
}

small-prepared : decoder_prepare_video host small_header idle_decoder ≡ prepared small_decoder
unfolding decoder_prepare_video small_decoder
small-prepared = refl

turned-prepared :
    decoder_prepare_video host turned_header idle_decoder
    ≡ prepared (laid host turned_header idle_decoder)
unfolding decoder_prepare_video
turned-prepared = refl

small-shared : (process_frame turbo small_decoder (1 ∷ [])).1 ≡ shared BufferName.webcam_buf 460800
unfolding process_frame small_decoder target scale allocate orient
small-shared = refl

flips_toggle_example :
    ((ps : List Press)
      → press_all ps (of_mirrors (true, false))
        ≡ of_mirrors (xor true (odd_horizontal ps), xor false (odd_vertical ps)))
    × (decoder_horizontal_flip (of_mirrors (true, false)) ≡ (of_mirrors (false, false), false))
    × (decoder_vertical_flip (of_mirrors (true, false)) ≡ (of_mirrors (true, true), true))
flips_toggle_example = flips_toggle true false

undefined_iff_overflow_example :
    (decoder_prepare_video host huge_header idle_decoder ≡ undefined)
    ↔ (2 ^ 31 ≤ area_of huge_header * 3 / 2 * 3 + 4096)
undefined_iff_overflow_example = undefined_iff_overflow host huge_header idle_decoder (record {
  device = refl;
  width = λ e. omega arith;
  height = λ e. omega arith;
  tj = refl;
  xform = refl;
})

idle-WebcamSized : WebcamSized idle_decoder
idle-WebcamSized = record { y = refl; uv = refl; yuv = refl }

layout-InBounds_example : InBounds small_decoder
layout-InBounds_example =
    layout-InBounds host small_header idle_decoder small_decoder (λ n. refl) idle-WebcamSized
      (refl, refl) (refl, refl) small-prepared

-- A stream of 4 x 3 pixels: the rows of the last plane, two of two bytes from byte 15 on, end at byte
-- 19 of a buffer of 18.
odd_height_overruns :
    let e = laid host (0 ∷ 4 ∷ 0 ∷ 3 ∷ []) idle_decoder in
    (e.decode_buf ≡ some 18)
    × (e.tj_dst.slices
        ≡ some (BufferName.decode_buf, 0)
          ∷ some (BufferName.decode_buf, 12)
          ∷ some (BufferName.decode_buf, 15)
          ∷ none
          ∷ [])
    × (e.tj_dst.strides ≡ 4 ∷ 2 ∷ 2 ∷ 0 ∷ [])
    × (15 + 2 * chroma 3 ≡ 19)
unfolding target scale allocate orient
odd_height_overruns = (refl, refl, refl, refl)

short_frame_fits_example :
    (size : ℕ) × (small_decoder.in_buf ≡ some size)
    × ((receive_range small_decoder 1 (0 ∷ 1 ∷ 0 ∷ 0 ∷ [])).1 ≤ size)
    × ((receive_range small_decoder 1 (0 ∷ 1 ∷ 0 ∷ 0 ∷ [])).1 ≤ frame_offset small_decoder 2)
unfolding small_decoder target scale allocate orient
short_frame_fits_example =
    short_frame_fits host small_header idle_decoder small_decoder 1 (0 ∷ 1 ∷ 0 ∷ 0 ∷ []) (λ n. refl)
      small-prepared (omega arith) (omega arith)

long_frame_overruns_example :
    (size : ℕ) × (small_decoder.in_buf ≡ some size)
    × (size < 2 ^ 31)
    × (size < (receive_range small_decoder 1 huge_header).1)
unfolding small_decoder target scale allocate orient
long_frame_overruns_example =
    long_frame_overruns host small_header idle_decoder small_decoder 1 huge_header (λ n. refl)
      small-prepared (omega arith)

-- A decoder that owns nothing, and rounds that succeed, with and without the scaler, and that fail.
abbrev no_memory : Memory
no_memory = record { decoder = idle_decoder; live = λ o. 0; faults = 0 }

no_memory-IsEmpty : IsEmpty no_memory
no_memory-IsEmpty = record { null = λ o. ground arith; nothing = λ o. refl; no_fault = refl }

abbrev no_transform_host : Host
no_transform_host = record host { xform_ok = false }

abbrev prepare_rounds : List PrepareRound
prepare_rounds =
    (host, small_header) ∷ (no_transform_host, small_header) ∷ (host, turned_header) ∷ []

rounds_free_all_example :
    (n : Memory) × (memory_rounds prepare_rounds no_memory ≡ some n) × IsEmpty n
rounds_free_all_example =
    rounds_free_all prepare_rounds no_memory no_memory-IsEmpty
      (omega arith, (omega arith, (omega arith, tt)))

-- A webcam of 4 x 1 pixels: two lines of eight.
abbrev tiny_decoder : JpgDecoder
tiny_decoder = record idle_decoder { webcam_width = 4; webcam_height = 1 }

test_image_line : paint_line (λ n. 251 + n) 8 painter ≡ record {
  p = 8;
  calls = 2;
  writes = (7, 2) ∷ (6, 1) ∷ (5, 128) ∷ (4, 128) ∷ (3, 64) ∷ (2, 64) ∷ (1, 0) ∷ (0, 0) ∷ [];
}
unfolding paint_line put_many put_random skip
test_image_line = refl

test_image_fits_example :
    (e : JpgDecoder) × (decoder_prepare_video host (test_header tiny_decoder) tiny_decoder
      ≡ prepared e)
    × ((size : ℕ) × (e.decode_buf ≡ some size)
        × (e.y_size ≤ size)
        × Below size (test_image (λ n. n) e).filled)
    × Below e.y_size (test_image (λ n. n) e).painted.writes
    × ((test_image (λ n. n) e).painted.p ≡ e.y_size)
test_image_fits_example =
    test_image_fits host tiny_decoder (λ n. n) refl refl refl (λ n. refl) (omega arith)
      (omega arith) (omega arith) (omega arith)
