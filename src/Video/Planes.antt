-- ===== src/Video/Planes.antt =====
-- The planes of a picture in 4:2:0 inside a buffer, as `decoder_prepare_video` of src/decoder.c lays them
-- out.
use droidcam_linux_client.Prelude.{
  ℕ, ◌+◌, ◌*◌, ◌/◌, ◌%◌, ◌≤◌, ◌≡◌, refl, Option, none, some, [], ◌∷◌, arith,
}
use droidcam_linux_client.Video.Decoder.{BufferName, Planes}
use droidcam_linux_client.Video.Prepare.{planes_of}

-- The width and height of a chroma plane in 4:2:0.
abbrev pub chroma : ℕ → ℕ
chroma n = (n + 1) / 2

-- The three planes of a picture in 4:2:0, with where they begin and how far apart their rows are: a
-- row is not longer than its stride, and the rows of each plane end where the next plane begins, or
-- before that, those of the last one inside the buffer.
pub record Plan (p : Planes) (b : BufferName) (width height size : ℕ) : Type 0 where
  pub u : ℕ
  pub v : ℕ
  pub y_stride : ℕ
  pub u_stride : ℕ
  pub v_stride : ℕ
  pub slices : p.slices ≡ some (b, 0) ∷ some (b, u) ∷ some (b, v) ∷ none ∷ []
  pub strides : p.strides ≡ y_stride ∷ u_stride ∷ v_stride ∷ 0 ∷ []
  pub y_row : width ≤ y_stride
  pub u_row : chroma width ≤ u_stride
  pub v_row : chroma width ≤ v_stride
  pub y_rows : y_stride * height ≤ u
  pub u_rows : u + u_stride * chroma height ≤ v
  pub v_rows : v + v_stride * chroma height ≤ size

abbrev pub InBuffer : Option ℕ → BufferName → Planes → (width height : ℕ) → Type 0
InBuffer buffer b p width height = (size : ℕ) × (buffer ≡ some size) × Plan p b width height size

four-area : (w h a b : ℕ) → w ≡ 2 * a → h ≡ 2 * b → w * h ≡ 4 * (a * b)
four-area w h a b even_w even_h = rw (even_w, even_h) (grind arith)

chroma-area : (w h : ℕ) → w % 2 ≡ 0 → h % 2 ≡ 0 → w / 2 * chroma h ≤ w * h / 4
chroma-area w h even_w even_h =
    let half_w : w ≡ 2 * (w / 2) = omega arith in
    let half_h : h ≡ 2 * chroma h = omega arith in
    let whole : w * h ≡ 4 * (w / 2 * chroma h) = four-area w h (w / 2) (chroma h) half_w half_h in
    omega (arith, whole)

pub planes-Plan :
    (b : BufferName) (w h y uv size : ℕ)
    → w % 2 ≡ 0
    → h % 2 ≡ 0
    → w * h ≡ y
    → uv ≡ y / 4
    → y + uv + uv ≤ size
    → Plan (planes_of b w y uv) b w h size
planes-Plan b w h y uv size even_w even_h area quarter fits =
    let chroma_fits : w / 2 * chroma h ≤ uv =
      rw (quarter, ← area) (chroma-area w h even_w even_h) in
    record {
      u = y;
      v = y + uv;
      y_stride = w;
      u_stride = w / 2;
      v_stride = w / 2;
      slices = refl;
      strides = refl;
      y_row = omega arith;
      u_row = omega arith;
      v_row = omega arith;
      y_rows = omega (arith, area);
      u_rows = omega (arith, chroma_fits);
      v_rows = omega (arith, chroma_fits, fits);
    }
