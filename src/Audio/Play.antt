-- ===== src/Audio/Play.antt =====
-- What `AudioThreadProc` of src/av.c plays from its sample buffer, and `decoder_speex_plc` of
-- src/decoder.c.
use droidcam_linux_client.Prelude.{
  ℕ, ◌+◌, ◌≤◌, ◌<◌, ◌≡◌, refl, false, leb, if◌then◌else◌, List, ◌++◌, length, take, drop,
  length-take, length-drop, arith, take-append_left, drop-append_left, ◌∙◌,
}
use droidcam_linux_client.Prelude.Int.{ℤ, pos, ◌-ℕ◌, is_zero}

-- `decoder_get_audio_frame_size()`, as wide-band speex has it
abbrev pub frame_size : ℕ
frame_size = 320

-- `decode_buf` and `decode_buf_used`.
pub record Samples : Type 0 where
  pub decode_buf : List ℕ
  pub used : ℤ

-- What is written to the device: samples of the buffer, or as many guessed or silent ones.
pub data Output : Type 0 where
  samples : List ℕ → Output
  guessed silence : ℕ → Output

unfoldable pub decoder_speex_plc : ℕ → Output
decoder_speex_plc frames = if leb frame_size frames then guessed frame_size else silence frames

abbrev pub clamp : ℕ → ℕ
clamp frames = if leb frame_size frames then frame_size else frames

-- `memmove(decode_buf, &decode_buf[frames], frames * sizeof(short))`: only `frames` samples move.
abbrev pub move_down : ℕ → List ℕ → List ℕ
move_down frames buf = take frames (drop frames buf) ++ drop frames buf

-- One transfer into a room of `frames` samples.
unfoldable pub play : ℕ → Samples → Output × Samples
play frames s = if is_zero s.used then (decoder_speex_plc frames, s) else (
  samples (take (clamp frames) s.decode_buf),
  record { decode_buf = move_down (clamp frames) s.decode_buf; used = s.used -ℕ clamp frames },
)

-- The samples behind a packet of two frames.
abbrev pub packet : List ℕ → Samples
packet buf = record { decode_buf = buf; used = pos 640 }

abbrev pub second_of : ℕ → List ℕ → List ℕ
second_of f buf = take f (drop f buf)

-- The three pieces that are played.
abbrev pub played : ℕ → ℕ → ℕ → List ℕ → Output × Output × Output
played f g h buf = let a = play f (packet buf) in let b = play g a.1 in (a.0, b.0, (play h b.1).0)

length-second : (f : ℕ) (buf : List ℕ) → f + f ≤ length buf → length (second_of f buf) ≡ f
length-second f buf long = omega (arith, length-take f (drop f buf), length-drop f buf)

-- What stands in front of the buffer behind one move and behind two.
take-moved :
    (f : ℕ) (buf : List ℕ) → f + f ≤ length buf → take f (move_down f buf) ≡ second_of f buf
take-moved f buf long = take-append_left f (second_of f buf) (drop f buf) (length-second f buf long)

take-moved_twice :
    (f : ℕ) (buf : List ℕ)
    → f + f ≤ length buf
    → take f (move_down f (move_down f buf)) ≡ second_of f buf
take-moved_twice f buf long =
    let n : length (second_of f buf) ≡ f = length-second f buf long in
    let behind : drop f (move_down f buf) ≡ drop f buf =
      drop-append_left f (second_of f buf) (drop f buf) n in
    rw behind (take-append_left f (second_of f buf) (drop f buf) n)

clamp-full : (f : ℕ) → frame_size ≤ f → clamp f ≡ frame_size
clamp-full f h = ground arith

clamp-short : (f : ℕ) → f < frame_size → clamp f ≡ f
clamp-short f h = ground arith

-- The samples behind one transfer.
abbrev pub moved : ℕ → Samples → Samples
moved f s = record { decode_buf = move_down f s.decode_buf; used = s.used -ℕ f }

play_lem :
    (room f : ℕ) (s : Samples)
    → is_zero s.used ≡ false
    → clamp room ≡ f
    → play room s ≡ (samples (take f s.decode_buf), moved f s)
unfolding play
play_lem room f s some_left size = rw (some_left, size)

-- The three pieces, where samples are left for the second.
played_lem :
    (r₁ r₂ r₃ f : ℕ) (buf : List ℕ)
    → clamp r₁ ≡ f
    → clamp r₂ ≡ f
    → is_zero (pos 640 -ℕ f) ≡ false
    → f + f ≤ length buf
    → played r₁ r₂ r₃ buf ≡ (
      samples (take f buf),
      samples (second_of f buf),
      (play r₃ (moved f (moved f (packet buf)))).0,
    )
played_lem r₁ r₂ r₃ f buf c₁ c₂ left long = rw (
  play_lem r₁ f (packet buf) refl c₁,
  play_lem r₂ f (moved f (packet buf)) left c₂,
  take-moved f buf long,
)

left_short :
    (f : ℕ)
    → f < frame_size
    → (is_zero (pos 640 -ℕ f) ≡ false) × (is_zero (pos 640 -ℕ f -ℕ f) ≡ false)
unfolding ◌-ℕ◌
left_short f short = (ground arith, ground arith)

plc_full : (h : ℕ) → frame_size ≤ h → decoder_speex_plc h ≡ guessed frame_size
unfolding decoder_speex_plc
plc_full h full = ground arith

-- Where every room has at least 320 samples, a packet of 640 samples is played in order, 320 at a
-- time, and then the gap is filled with a guess.
pub full_rooms_in_order :
    (f g h : ℕ) (buf : List ℕ)
    → frame_size ≤ f
    → frame_size ≤ g
    → frame_size ≤ h
    → 640 ≤ length buf
    → played f g h buf
      ≡ (samples (take frame_size buf), samples (second_of frame_size buf), guessed frame_size)
unfolding play ◌-ℕ◌ decoder_speex_plc
full_rooms_in_order f g h buf f_full g_full h_full long =
    played_lem f g h frame_size buf (clamp-full f f_full) (clamp-full g g_full) refl (omega arith)
    ∙ rw (plc_full h h_full)

-- Where the rooms have the same size below 320, the third piece that is played is the second one
-- again, and not what stands behind it.
pub short_rooms_repeat :
    (f : ℕ) (buf : List ℕ)
    → f < frame_size
    → f + f ≤ length buf
    → played f f f buf
      ≡ (samples (take f buf), samples (second_of f buf), samples (second_of f buf))
short_rooms_repeat f buf short long =
    let c : clamp f ≡ f = clamp-short f short in
    let (left₁, left₂) = left_short f short in
    played_lem f f f f buf c c left₁ long
    ∙ rw (play_lem f f (moved f (moved f (packet buf))) left₂ c, take-moved_twice f buf long)
