-- ===== src/Device/Query.antt =====
-- `query_v4l_device` of src/decoder_v4l2.c.
use droidcam_linux_client.Prelude.{
  ℕ, Bool, true, false, not, ◌||◌, ◌&&◌, leb, if◌then◌else◌, List, [], ◌∷◌, ◌++◌,
}
use droidcam_linux_client.Prelude.Int.{ℤ, pos, ltb_ℤ}
use droidcam_linux_client.Device.Open.{has_prefix}

-- "platform:v4l2loopback" and "platform:v4l2loopback_dc"
abbrev pub platform : List ℕ
platform =
    112 ∷ 108 ∷ 97 ∷ 116 ∷ 102 ∷ 111 ∷ 114 ∷ 109 ∷ 58 ∷ 118 ∷ 52 ∷ 108 ∷ 50 ∷ 108 ∷ 111 ∷ 111 ∷ 112
    ∷ 98 ∷ 97 ∷ 99 ∷ 107 ∷ []

abbrev pub platform_dc : List ℕ
platform_dc = platform ++ 95 ∷ 100 ∷ 99 ∷ []

-- What the calls on a descriptor answer: the results, and the width and height that the driver
-- leaves in the format behind VIDIOC_S_FMT and VIDIOC_G_FMT.
pub record QueryAnswers : Type 0 where
  pub query_cap : ℤ
  pub bus_info : List ℕ
  pub set_fmt : ℤ
  pub set_width : ℕ
  pub set_height : ℕ
  pub get_fmt : ℤ
  pub is_yuv420 : Bool
  pub get_width : ℕ
  pub get_height : ℕ

-- The webcam's width and height, and whether the "keep_format" control is set.
pub record Queried : Type 0 where
  pub width : ℕ
  pub height : ℕ
  pub keep_format : Bool

abbrev pub no_size : Queried
no_size = record { width = 0; height = 0; keep_format = false }

-- The format is asked for.
unfoldable pub get_format : QueryAnswers → Queried
get_format a =
    if ltb_ℤ a.get_fmt (pos 0)
    then no_size
    else if not a.is_yuv420
    then no_size
    else if leb a.get_width 0 || leb a.get_height 0
    then no_size
    else record { width = a.get_width; height = a.get_height; keep_format = false }

-- On any driver but the DroidCam one the format is set first.
unfoldable pub query_v4l_device : QueryAnswers → Queried
unfolding get_format
query_v4l_device a =
    if ltb_ℤ a.query_cap (pos 0)
    then no_size
    else if not (has_prefix platform_dc a.bus_info) && not (ltb_ℤ a.set_fmt (pos 0))
    then record { width = a.set_width; height = a.set_height; keep_format = true }
    else get_format a
