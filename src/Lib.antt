-- ===== src/Lib.antt =====
-- A verification library for the DroidCam Linux client, which receives video and audio from a phone
-- and feeds them to a video loopback device and a sound loopback device.
--
-- The program. `VideoThreadProc` (src/av.c) reads the stream header and JPEG frames from a socket
-- (src/connection.c); `decoder_prepare_video` (src/decoder.c) sizes the buffers from the header.
-- Frames go to `DecodeThreadProc` (src/av.c) and back through two queues (src/queue.c, wrapped by the
-- `*_jpg_frame` functions of src/decoder.c). `process_frame` decompresses a frame, and
-- `decoder_share_frame` scales it and writes it to the device that src/decoder_v4l2.c found.
-- `AudioThreadProc` (src/av.c) decodes speex packets into a small buffer and plays it through
-- src/decoder_snd.c. `BatteryThreadProc` asks the phone for its battery level. src/usb.c finds
-- phones on USB.
--
-- The files.
-- - Queue: src/queue.c over an explicit heap of `queue_elem`s. A call is a command that returns, exits
--   the process, blocks on a held mutex, faults on a pointer without an element, or runs out of
--   rounds. The loop of `queue_clear` is given one round more than the size. Queue/Fifo is the
--   abstract list queue; Queue/Chain relates a heap and a queue to a list; Queue/Add, Queue/Next and
--   Queue/Clear treat one operation each, and Queue/Refine relates runs of calls.
-- - Frames: the hand-over of frames between the two threads of src/av.c, as turns in any order. The
--   queues are the lists of Frames/Queues. A turn is one queue call or one test of a queue's size,
--   so the threads meet between the tests of `push_jpg_frame`.
-- - Video: `decoder_horizontal_flip` and `decoder_vertical_flip` (Flip), `struct jpg_dec_ctx_s`
--   (Decoder), `decoder_prepare_video` (Prepare, Planes, Layout), `process_frame` and `decoder_share_frame`
--   (Process) of src/decoder.c, the frame loop of `VideoThreadProc` (Receive), and what
--   `decoder_prepare_video` creates and `decoder_cleanup` frees (Memory, Freed), and
--   `decoder_show_test_image`, which no build calls (TestImage). C `int` products that overflow have
--   no value. turbojpeg, whose calls fail with a NULL handle, is a record of functions that the
--   theorems hold for.
-- - Pipeline: the turns of Frames on the decoder of Video, which both threads share; Sequential is the
--   loop of one thread that they are compared with, and Buffers treats what is shown. A message that
--   is longer than its frame ends the model, since its bytes go over other frames.
-- - Net: `Send`, `RecvNonBlock`, `Connect`, `StartInetServer`, `connection_cleanup` and
--   `accept_connection` of src/connection.c.
-- - Battery: `BatteryThreadProc` of src/av.c; the thread as a whole is in Thread. The search for the
--   blank line runs over at most 124 bytes of the answer, as in the source.
-- - Sound: `set_hwparams`, `set_swparams` (Params), `xrun_recovery` (Recovery), `snd_transfer_check`,
--   `snd_transfer_commit` (Transfer) and `find_snd_device` (Find) of src/decoder_snd.c.
-- - Device: `open_v4l2_device`, `find_v4l2_device`, `xioctl` (Open), `query_v4l_device` (Query) and
--   `_get_control_id` with `set_control_i` (Control) of src/decoder_v4l2.c, and `decoder_init` (Init) and
--   `decoder_fini` (Fini) of src/decoder.c. The two loops of the control search that the driver ends run
--   for a number of rounds; one more than the driver has private controls is enough.
-- - Usb: `CheckAdbDevices` (Adb), `CheckiOSDevices` (Ios), and the messages of `AdbErrorPrint` and
--   `iOSErrorPrint` (Errors) of src/usb.c.
-- - Stream: the rounds of `VideoThreadProc` of src/av.c (Session, Ends), one or one for each client of
--   the server mode, with the loop over the frames in each, and the requests that it formats
--   (Request). What becomes of the frames is in Frames and Video.
-- - Audio: `AudioThreadProc` and `GetConnection` of src/av.c: what comes in front of the loop (Setup,
--   Udp), the packet and `decode_speex_frame` (Decode), the sample buffer with `decoder_speex_plc`
--   (Play), and the thread as a whole (Thread; Kept, Loop, Closed and Ending treat its end). What
--   speex decodes is a function that the theorems hold for.
-- - Cli: `parse_args` (Args), `wait_command` (Keys), and the start and the end of `main` (Start, End) of
--   src/droidcam-cli.c.
-- - Settings: `LoadSettings` (Load) and `SaveSettings` (Save) of src/settings.c over the bytes of the
--   file, which holds no NUL. `fgets` is in Lines.
-- - Gui: `Start`, `Stop` (Start), `the_callback`, `controls_callback` and `wb_callback` (Events) of
--   src/droidcam.c with the turn of the picture by a new stream, as steps over the globals of that
--   file and the state of its widgets (State), and what `main` does with the settings before them
--   (Session); `parse_args` and `delete_window_callback` are in Args.
-- - Life: the threads of src/droidcam.c over its life, as a step relation (Steps) in three parts: the
--   buttons of the user; what the threads do by themselves, the joins of `Stop` and the timeouts of
--   `RecvAll` among them; and what the phone does. A thread that is in `RecvAll` on a socket without a
--   timeout waits for the phone. Owned is the invariant, Stops treats the end of `Stop` with Nearer
--   and Going, and Silent the phone for which it does not end.
-- - Prelude: names, integers, Boolean tests and list lemmas that all of these share, and the formats of
--   `printf` and `scanf` that the sources use (Text). The Tests modules hold concrete inputs.
--
-- Conventions. Names follow the source in snake_case. Calls of the system, of ALSA, turbojpeg, speex
-- and usbmuxd are answers that the functions take as arguments, so the theorems hold for every
-- behaviour of these. A loop that waits for such answers takes a list of them and has no value where
-- the list ends too early; the theorems on termination say how many are enough. A `bool` or an `int`
-- used as one is a Bool; an `int` that can be negative is ℤ; `size_t` and unsigned sums and products
-- wrap.
--
-- Not modelled: the layout of the widgets, the indicator and the rest of `main` of src/droidcam.c,
-- and the speex set-up of `decoder_init`, which only call libraries; the boost of the samples, which
-- is never switched on; the wording of messages and debug output; src/resources.c, which is data; the
-- kernel module under v4l2loopback/, which is a copy of another project; and the build and
-- installation scripts.
pub mod Prelude
pub mod Queue
pub mod Frames
pub mod Video
pub mod Net
pub mod Battery
pub mod Sound
pub mod Device
pub mod Usb
pub mod Audio
pub mod Cli
pub mod Settings
pub mod Gui
pub mod Stream
pub mod Pipeline
pub mod Life
