-- ===== src/Pipeline/Tests.antt =====
-- A short stream of two messages for a webcam of the stream's size.
use droidcam_linux_client.Prelude.{
  ℕ, ◌≡◌, refl, true, false, none, some, List, [], ◌∷◌, ◌++◌, length, ◌≤◌, arith,
}
use droidcam_linux_client.Frames.{Turn, video_turn, decode_turn, turn, start}
use droidcam_linux_client.Frames.Queues.{
  push_jpg_frame, pull_empty_jpg_frame, pull_ready_jpg_frame, add_frames,
}
use droidcam_linux_client.Frames.Order.{Falls}
use droidcam_linux_client.Video.Flip.{TransformOp}
use droidcam_linux_client.Video.Decoder.{BufferName, JpgDecoder, no_planes, prepared}
use droidcam_linux_client.Video.Prepare.{
  Host, decoder_prepare_video, orient, scale, allocate, target,
}
use droidcam_linux_client.Video.Layout.{laid}
use droidcam_linux_client.Video.Process.{Turbo, shared, process_frame}
use droidcam_linux_client.Video.Memory.{Memory}
use droidcam_linux_client.Pipeline.Sequential.{sequential}
use droidcam_linux_client.Pipeline.Buffers.{Whole, stream_refines}
use droidcam_linux_client.Pipeline.{enter_loop, decode_step, video_step, pipe_turn, run_pipe}

abbrev webcam : JpgDecoder
webcam = record {
  invert = false;
  subsamp = 0;
  m_width = 0;
  m_height = 0;
  d_width = 0;
  d_height = 0;
  yuv420_size = 0;
  y_size = 0;
  uv_size = 0;
  webcam_width = 320;
  webcam_height = 240;
  webcam_yuv_size = 115200;
  webcam_y_size = 76800;
  webcam_uv_size = 19200;
  buffer_limit = 0;
  in_buf = none;
  decode_buf = none;
  webcam_buf = none;
  swc = none;
  tj = false;
  tj_xform = false;
  op = TransformOp.none;
  tj_dst = no_planes;
  swc_src = no_planes;
  swc_dst = no_planes;
}

abbrev this_host : Host
this_host = record {
  device_open = true;
  tj_ok = true;
  xform_ok = true;
  sws_ok = true;
  malloc = λ n. some n;
}

-- 320 x 240.
abbrev stream_header : List ℕ
stream_header = 1 ∷ 64 ∷ 0 ∷ 240 ∷ []

abbrev decoder_memory : Memory
decoder_memory = record { decoder = laid this_host stream_header webcam; live = λ o. 0; faults = 0 }

stream_prepared :
    decoder_prepare_video this_host stream_header webcam ≡ prepared decoder_memory.decoder
unfolding decoder_prepare_video
stream_prepared = refl

-- Every message is a picture of the stream's size.
abbrev turbo : Turbo
turbo = record {
  decompress_header = λ bytes. some (320, 240, 2);
  transform = λ op bytes. some bytes;
  decompresses = λ bytes. true;
  samp_420 = 2;
}

abbrev message : ℕ → List ℕ
message n = n ∷ []

-- A message arrives and is handed over, and the decoding thread takes its frame.
abbrev take_one : List Turn
take_one =
    video_turn true
    ∷ video_turn true
    ∷ video_turn true
    ∷ video_turn true
    ∷ video_turn true
    ∷ decode_turn
    ∷ []

abbrev show_two : List Turn
show_two = take_one ++ decode_turn ∷ take_one ++ decode_turn ∷ []

show_two-outputs :
    (run_pipe turbo message show_two (enter_loop decoder_memory)).outputs
    ≡ shared BufferName.decode_buf 115200 ∷ shared BufferName.decode_buf 115200 ∷ []
unfolding run_pipe pipe_turn decode_step video_step turn start push_jpg_frame pull_empty_jpg_frame
    pull_ready_jpg_frame add_frames process_frame target scale allocate orient
show_two-outputs = refl

-- A frame of 2 x 2 pixels has six bytes; a message of seven goes over the next frame.
abbrev small_memory : Memory
small_memory = record {
  decoder = laid this_host (0 ∷ 2 ∷ 0 ∷ 2 ∷ []) webcam;
  live = λ o. 0;
  faults = 0;
}

long_message_spoils :
    (run_pipe turbo (λ n. 1 ∷ 2 ∷ 3 ∷ 4 ∷ 5 ∷ 6 ∷ 7 ∷ []) take_one (enter_loop small_memory)).spoilt
    ≡ true
unfolding run_pipe pipe_turn decode_step video_step turn start pull_empty_jpg_frame add_frames
    target scale allocate orient
long_message_spoils = refl

message_short : (n : ℕ) → length (message n) ≤ decoder_memory.decoder.yuv420_size
unfolding target scale allocate orient
message_short n = omega arith

stream_refines_example :
    let p = run_pipe turbo message show_two (enter_loop decoder_memory) in
    (p.spoilt ≡ false)
    × ((p.memory.decoder, p.outputs)
        ≡ sequential turbo message decoder_memory.decoder p.system.shown)
    × Falls p.system.received p.system.shown
    × Whole decoder_memory.decoder p.outputs
stream_refines_example =
    stream_refines this_host stream_header webcam decoder_memory turbo message show_two (λ n. refl)
      refl refl stream_prepared message_short refl
