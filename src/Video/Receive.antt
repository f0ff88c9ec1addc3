-- ===== src/Video/Receive.antt =====
-- How `VideoThreadProc` of src/av.c receives a frame: four bytes of length, then the data.
use droidcam_linux_client.Prelude.{
  ℕ, ◌+◌, ◌-◌, ◌*◌, ◌^◌, ◌≤◌, ◌<◌, ◌≡◌, ltb, if◌then◌else◌, some, List, get_or, arith, ◌∙◌, ltb→lt,
  Bool-cases, inl, inr,
}
use droidcam_linux_client.Video.Decoder.{JpgDecoder, prepared}
use droidcam_linux_client.Video.Prepare.{Host, decoder_prepare_video, frame_offset}
use droidcam_linux_client.Video.Layout.{
  laid_of_prepared, laid-sizes, in_buf_size, area_of, frame_fits, Accepts-of_prepared, prepare_lem,
}

-- `le32toh` of the four bytes.
abbrev pub le32 : List ℕ → ℕ
le32 b = get_or b 0 0 + 256 * (get_or b 1 0 + 256 * (get_or b 2 0 + 256 * get_or b 3 0))

-- The length goes through `int bytes` of `RecvAll` to the `size_t` of `recv`: from 2 ^ 31 on it
-- turns negative, and then into a huge request.
abbrev pub requested : ℕ → ℕ
requested n = if ltb n (2 ^ 31) then n else n + 2 ^ 64 - 2 ^ 32

-- The range of the input buffer that `RecvAll` may fill for frame `i`: where it starts and where
-- it ends, if the peer sends what it announced. No test stands between.
unfoldable pub receive_range : JpgDecoder → ℕ → List ℕ → ℕ × ℕ
receive_range d i header = (frame_offset d i, frame_offset d i + requested (le32 header))

size-lt :
    (host : Host) (header : List ℕ) (d e : JpgDecoder)
    → decoder_prepare_video host header d ≡ prepared e
    → in_buf_size (area_of header) < 2 ^ 31
size-lt host header d e done = elim (Bool-cases (ltb (in_buf_size (area_of header)) (2 ^ 31))) [
  | inl fits ↦ ltb→lt _ _ fits
  | inr over ↦ ground (arith, prepare_lem host header d (Accepts-of_prepared host header d done))
]

pub in_buf-size :
    (host : Host) (header : List ℕ) (d e : JpgDecoder)
    → ((n : ℕ) → host.malloc n ≡ some n)
    → decoder_prepare_video host header d ≡ prepared e
    → (e.in_buf ≡ some (e.yuv420_size * 3 + 4096)) × (e.yuv420_size * 3 + 4096 < 2 ^ 31)
in_buf-size host header d e malloc done =
    let (y, uv, yuv, inb, buf) = laid-sizes host header d in
    let small = size-lt host header d e done in
    rw (laid_of_prepared host header d e done, yuv) (inb ∙ malloc _, small)

range_inside :
    (y i n : ℕ)
    → i < 3
    → y * 3 + 4096 < 2 ^ 31
    → n ≤ y
    → (i * y + requested n ≤ y * 3 + 4096) × (i * y + requested n ≤ (i + 1) * y)
range_inside y i n small fits short =
    let same : requested n ≡ n = ground arith in
    rw same (omega (arith, frame_fits y i small), grind arith)

range_outside : (y i n : ℕ) → y * 3 + 4096 < n → y * 3 + 4096 < i * y + requested n
range_outside y i n long = let big : n ≤ requested n = ground arith in grind (arith, big)

-- After a successful `decoder_prepare_video` with a `malloc` that succeeds: for every frame, a
-- length of at most `m_Yuv420Size` keeps the received bytes inside the input buffer and off the
-- next frame.
pub short_frame_fits :
    (host : Host) (header : List ℕ) (d e : JpgDecoder) (i : ℕ) (b : List ℕ)
    → ((n : ℕ) → host.malloc n ≡ some n)
    → decoder_prepare_video host header d ≡ prepared e
    → i < 3
    → le32 b ≤ e.yuv420_size
    → (size : ℕ) × (e.in_buf ≡ some size)
      × ((receive_range e i b).1 ≤ size)
      × ((receive_range e i b).1 ≤ frame_offset e (i + 1))
unfolding receive_range
short_frame_fits host header d e i b malloc done small short =
    let (inb, fits) = in_buf-size host header d e malloc done in
    let (inside, apart) = range_inside e.yuv420_size i (le32 b) small fits short in
    (e.yuv420_size * 3 + 4096, inb, inside, apart)

-- After a successful `decoder_prepare_video` with a `malloc` that succeeds: the input buffer is
-- smaller than 2 ^ 31, and for every frame any announced length above the buffer's size lets the
-- peer write past its end.
pub long_frame_overruns :
    (host : Host) (header : List ℕ) (d e : JpgDecoder) (i : ℕ) (b : List ℕ)
    → ((n : ℕ) → host.malloc n ≡ some n)
    → decoder_prepare_video host header d ≡ prepared e
    → e.yuv420_size * 3 + 4096 < le32 b
    → (size : ℕ) × (e.in_buf ≡ some size) × (size < 2 ^ 31) × (size < (receive_range e i b).1)
unfolding receive_range
long_frame_overruns host header d e i b malloc done long =
    let (inb, fits) = in_buf-size host header d e malloc done in
    (e.yuv420_size * 3 + 4096, inb, fits, range_outside e.yuv420_size i (le32 b) long)
