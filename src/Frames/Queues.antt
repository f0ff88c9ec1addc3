-- ===== src/Frames/Queues.antt =====
-- The two queues of src/decoder.c as lists of frame numbers, with the calls on them.
use droidcam_linux_client.Prelude.{
  ℕ, Bool, ◌||◌, ◌==◌, ltb, if◌then◌else◌, Option, none, some, List, [], ◌∷◌, ◌++◌, length,
}

-- `receive_queue`, `decode_queue` and `jpg_decoder.m_BufferLimit`.
pub record Pool : Type 0 where
  pub receive : List ℕ
  pub decode : List ℕ
  pub limit : ℕ

-- The calls of src/queue.c, as the lists they stand for.
abbrev pub queue_add : List ℕ → ℕ → List ℕ
queue_add l f = l ++ f ∷ []

abbrev pub first_of : List ℕ → Option ℕ × List ℕ
first_of [] = (none, [])
first_of (f ∷ l) = (some f, l)

abbrev pub queue_next : List ℕ → ℕ → Option ℕ × List ℕ
queue_next l backbuffer = if ltb backbuffer (length l) then first_of l else (none, l)

unfoldable pub push_jpg_frame : Pool → ℕ → Bool → Pool
push_jpg_frame p f empty =
    if empty || length p.receive == 0 || ltb p.limit (length p.decode)
    then record p { receive = queue_add p.receive f }
    else record p { decode = queue_add p.decode f }

unfoldable pub pull_empty_jpg_frame : Pool → Option ℕ × Pool
pull_empty_jpg_frame p = let (f, l) = queue_next p.receive 0 in (f, record p { receive = l })

unfoldable pub pull_ready_jpg_frame : Pool → Option ℕ × Pool
pull_ready_jpg_frame p = let (f, l) = queue_next p.decode p.limit in (f, record p { decode = l })

-- The loop of `decoder_prepare_video` over the `JPG_BACKBUF_MAX` frames.
unfoldable pub add_frames : Pool → Pool
add_frames p = record p { receive = queue_add (queue_add (queue_add p.receive 0) 1) 2 }

-- The two `queue_clear`s of `decoder_cleanup`.
unfoldable pub clear_receive : Pool → Pool
clear_receive p = record p { receive = [] }

unfoldable pub clear_decode : Pool → Pool
clear_decode p = record p { decode = [] }
