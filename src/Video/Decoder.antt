-- ===== src/Video/Decoder.antt =====
-- The decoder's state, `struct jpg_dec_ctx_s` of src/decoder.c, and what its calls can end in.
use droidcam_linux_client.Prelude.{ℕ, ◌^◌, Bool, ltb, if◌then◌else◌, Option, none, some, List, []}
use droidcam_linux_client.Video.Flip.{TransformOp}

-- The two buffers that hold planes.
pub data BufferName : Type 0 where
  decode_buf webcam_buf : BufferName

-- A pointer to a plane: a buffer and an offset into it, or NULL.
abbrev pub Slice : Type 0
Slice = Option (BufferName × ℕ)

pub record Planes : Type 0 where
  pub slices : List Slice
  pub strides : List ℕ

abbrev pub no_planes : Planes
no_planes = record { slices = []; strides = [] }

-- A buffer is its size, or NULL. `tj` and `tj_xform` say whether the handle exists. The webcam's
-- width and height stand beside the struct. `swc` holds source and target size of the scaler.
pub record JpgDecoder : Type 0 where
  pub invert : Bool
  pub subsamp : ℕ
  pub m_width : ℕ
  pub m_height : ℕ
  pub d_width : ℕ
  pub d_height : ℕ
  pub yuv420_size : ℕ
  pub y_size : ℕ
  pub uv_size : ℕ
  pub webcam_width : ℕ
  pub webcam_height : ℕ
  pub webcam_yuv_size : ℕ
  pub webcam_y_size : ℕ
  pub webcam_uv_size : ℕ
  pub buffer_limit : ℕ
  pub in_buf : Option ℕ
  pub decode_buf : Option ℕ
  pub webcam_buf : Option ℕ
  pub swc : Option ((ℕ × ℕ) × (ℕ × ℕ))
  pub tj : Bool
  pub tj_xform : Bool
  pub op : TransformOp
  pub tj_dst : Planes
  pub swc_src : Planes
  pub swc_dst : Planes

-- `int` arithmetic on numbers that are not negative: no value where the result overflows, which C
-- leaves undefined.
abbrev pub int_of : ℕ → Option ℕ
int_of n = if ltb n (2 ^ 31) then some n else none

pub data Message : Type 0 where
  missing_device invalid_stream no_decoder no_transform : Message

-- A call returns 0 after a message, returns 1, or its behaviour is undefined.
pub data Outcome : Type 0 where
  refused : Message → JpgDecoder → Outcome
  undefined : Outcome
  prepared : JpgDecoder → Outcome
