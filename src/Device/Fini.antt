-- ===== src/Device/Fini.antt =====
-- `decoder_fini` of src/decoder.c, and `set_v4l2_device` of src/decoder_v4l2.c.
use droidcam_linux_client.Prelude.{◌≡◌, refl, Bool, false, if◌then◌else◌, List, ◌∷◌, take}
use droidcam_linux_client.Prelude.Int.{ℤ, pos, is_zero}
use droidcam_linux_client.Prelude.Text.{Text}
use droidcam_linux_client.Video.Memory.{Memory, IsOwned, IsEmpty, free_objects}
use droidcam_linux_client.Video.Freed.{free_objects-IsEmpty}

-- `droidcam_device_fd`, the struct `jpg_decoder` with what it owns, and whether the queues, the
-- sound device's handle and the speex state are there; `closed` lists the closed descriptors.
pub record DecoderState : Type 0 where
  pub fd : ℤ
  pub memory : Memory
  pub queues : Bool
  pub snd_handle : Bool
  pub speex : Bool
  pub closed : List ℤ

unfoldable pub decoder_fini : DecoderState → DecoderState
decoder_fini s = record {
  fd = pos 0;
  memory = free_objects s.memory;
  queues = false;
  snd_handle = false;
  speex = false;
  closed = if is_zero s.fd then s.closed else s.fd ∷ s.closed;
}

-- `strncpy` into the 32 bytes of `v4l2_device`, with a NUL behind it.
unfoldable pub set_v4l2_device : Text → Text
set_v4l2_device device = take 31 device

-- Each buffer and handle of the video decoder is freed once, and the video device is closed once,
-- however often `decoder_fini` is called.
decoder_fini_lem :
    (s : DecoderState)
    → IsOwned s.memory
    → IsEmpty (decoder_fini s).memory
      × ((decoder_fini (decoder_fini s)).closed ≡ (decoder_fini s).closed)
unfolding decoder_fini
decoder_fini_lem s own = (free_objects-IsEmpty s.memory own, refl)
