-- ===== src/Audio/Decode.antt =====
-- The packet that `AudioThreadProc` of src/av.c decodes, and `decode_speex_frame` of src/decoder.c.
use droidcam_linux_client.Prelude.{
  ℕ, zero, suc, ◌+◌, ◌-◌, ◌*◌, ◌≤◌, ◌≡◌, refl, Bool, not, ltb, if◌then◌else◌, List, [], ◌∷◌, ◌++◌,
  length, take, drop, length-append, arith, if-holds, take-append_left, drop-append_left,
}

-- DROIDCAM_SPX_CHUNK_BYTES_2, CHUNKS_PER_PACKET and their product
abbrev pub spx_chunk_bytes : ℕ
spx_chunk_bytes = 70

abbrev pub chunks_per_packet : ℕ
chunks_per_packet = 2

abbrev pub bytes_per_packet : ℕ
bytes_per_packet = 140

-- DECODE_BUF_SIZE
abbrev pub decode_buf_size : ℕ
decode_buf_size = 1920

-- `idx`: where the decoded packet begins in `len` received bytes.
unfoldable pub packet_start : ℕ → ℕ
packet_start len = if ltb bytes_per_packet len then len - bytes_per_packet else 0

-- The bytes of the `k` chunks that `speex_bits_read_from` is given.
unfoldable pub chunks : ℕ → List ℕ → List (List ℕ)
chunks zero buf = []
chunks (suc k) buf = take spx_chunk_bytes buf ∷ chunks k (drop spx_chunk_bytes buf)

unfoldable pub packet_chunks : ℕ → List ℕ → List (List ℕ)
unfolding chunks packet_start
packet_chunks len stream_buf = chunks chunks_per_packet (drop (packet_start len) stream_buf)

-- The `while` loop of `decode_speex_frame` for one chunk, with the answers of `speex_decode_int`,
-- true for 0: `output_used`, and the answers that are left. It ends with the buffer full or with
-- another answer.
unfoldable pub decode_chunk : ℕ → List Bool → ℕ → ℕ × List Bool
decode_chunk frame_size [] used = (used, [])
decode_chunk frame_size (ok ∷ answers) used =
    let more = decode_chunk frame_size answers (used + frame_size) in
    if not (ltb used decode_buf_size)
    then (used, ok ∷ answers)
    else if ok
    then more
    else (used, answers)

-- The `for` loop over the chunks.
unfoldable pub decode_chunks : ℕ → ℕ → List Bool → ℕ → ℕ
decode_chunks frame_size zero answers used = used
decode_chunks frame_size (suc k) answers used =
    let (used, answers) = decode_chunk frame_size answers used in
    decode_chunks frame_size k answers used

-- `decode_speex_frame` up to the number of samples.
unfoldable pub decode_speex_frame : ℕ → ℕ → List Bool → ℕ
decode_speex_frame frame_size k answers = decode_chunks frame_size k answers 0

-- A whole number of frames of 320 samples that fits the buffer.
abbrev pub Fits : ℕ → Type 0
Fits used = (i : ℕ) × (used ≡ i * 320) × (i ≤ 6)

decode_chunk-Fits :
    (answers : List Bool) (used : ℕ) → Fits used → Fits (decode_chunk 320 answers used).0
unfolding decode_chunk
decode_chunk-Fits [] used fits = fits
decode_chunk-Fits (ok ∷ answers) used (i, whole, few) =
    let P = λ (r : ℕ × List Bool). Fits r.0 in
    if-holds (not (ltb used decode_buf_size)) _ _ P (λ e. (i, whole, few))
      (λ e.
        if-holds ok _ _ P
          (λ f. decode_chunk-Fits answers (used + 320) (i + 1, omega arith, ground arith))
          (λ f. (i, whole, few)))

decode_chunks-Fits :
    (k : ℕ) (answers : List Bool) (used : ℕ) → Fits used → Fits (decode_chunks 320 k answers used)
unfolding decode_chunks
decode_chunks-Fits zero answers used fits = fits
decode_chunks-Fits (suc k) answers used fits =
    let r = decode_chunk 320 answers used in
    decode_chunks-Fits k r.1 r.0 (decode_chunk-Fits answers used fits)

-- With frames of 320 samples, which is what wide-band speex has, `decode_speex_frame` decodes at
-- most 1920 samples whatever it is given, so that it stays inside the buffer.
pub decode_stays_inside :
    (k : ℕ) (answers : List Bool) → decode_speex_frame 320 k answers ≤ decode_buf_size
unfolding decode_speex_frame
decode_stays_inside k answers =
    let (i, whole, few) = decode_chunks-Fits k answers 0 (0, refl, omega arith) in omega arith

packet_start_lem :
    (older first second : List ℕ)
    → length first ≡ spx_chunk_bytes
    → length second ≡ spx_chunk_bytes
    → packet_start (length (older ++ (first ++ second))) ≡ length older
unfolding packet_start
packet_start_lem older first second one two =
    let all : length (older ++ (first ++ second)) ≡ length older + 140 =
      omega (arith, length-append older (first ++ second), length-append first second) in
    rw all (ground arith)

-- Where at least a packet is received, the two chunks that are decoded are the last 140 of the
-- received bytes, whatever is received before them and stands in the buffer behind them.
pub latest_packet_decoded :
    (older first second stale : List ℕ)
    → length first ≡ spx_chunk_bytes
    → length second ≡ spx_chunk_bytes
    → packet_chunks (length (older ++ (first ++ second))) (older ++ (first ++ (second ++ stale)))
      ≡ first ∷ second ∷ []
unfolding packet_chunks chunks
latest_packet_decoded older first second stale one two = rw (
  packet_start_lem older first second one two,
  drop-append_left (length older) older (first ++ (second ++ stale)) refl,
  take-append_left spx_chunk_bytes first (second ++ stale) one,
  drop-append_left spx_chunk_bytes first (second ++ stale) one,
  take-append_left spx_chunk_bytes second stale two,
)
