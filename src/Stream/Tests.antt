-- ===== src/Stream/Tests.antt =====
-- The video thread on concrete answers.
use droidcam_linux_client.Prelude.{
  ◌≡◌, refl, true, false, none, some, inl, inr, List, [], ◌∷◌, arith,
}
use droidcam_linux_client.Prelude.Int.{ℤ, pos}
use droidcam_linux_client.Prelude.Text.{codes, print_int, print_nat, digits}
use droidcam_linux_client.Net.Defs.{Errno, invalid_socket}
use droidcam_linux_client.Net.Server.{ServerAnswers, Round, accept_loop}
use droidcam_linux_client.Stream.Session.{
  VideoThread, LoopTurn, VideoRound, frame_loop, video_thread,
}
use droidcam_linux_client.Stream.Ends.{Ending, Ended, video_thread_ends}
use droidcam_linux_client.Device.Open.{Scan, open_v4l2_device}
use droidcam_linux_client.Device.Query.{platform_dc, query_v4l_device}
use droidcam_linux_client.Device.Init.{
  Machine, started, set_webcam, search_device, start_decoder, decoder_init,
}
use droidcam_linux_client.Stream.Request.{
  jpg, daylight, video_request, command_request, formatted, requests_whole,
}

abbrev listening : ServerAnswers
listening = record { socket = pos 3; bind = pos 0; listen = pos 0; flags = pos 0 }

abbrev client : ℤ → Round
client socket = record { running = true; client = socket; errno = Errno.other }

abbrev stop : Round
stop = record { running = false; client = invalid_socket; errno = Errno.other }

-- A frame arrives, and then the phone is gone.
abbrev two_turns : List LoopTurn
two_turns =
    record { v_running = true; thread_cmd = 6; got_length = pos 4; got_data = pos 900 }
    ∷ record { v_running = true; thread_cmd = 0; got_length = pos 0; got_data = pos 0 }
    ∷ []

abbrev stop_turn : LoopTurn
stop_turn = record { v_running = false; thread_cmd = 0; got_length = pos 4; got_data = pos 900 }

-- A phone streams; then nobody connects until the stop.
abbrev one_phone : List VideoRound
one_phone =
    record {
      set_up = listening;
      accepts = client (pos 8) ∷ [];
      sent = pos 1;
      received = pos 9;
      prepared = true;
      turns = two_turns;
      v_running = true;
    }
    ∷ record {
      set_up = listening;
      accepts = stop ∷ [];
      sent = pos 1;
      received = pos 9;
      prepared = true;
      turns = stop_turn ∷ [];
      v_running = false;
    }
    ∷ []

abbrev fresh : VideoThread
fresh = record {
  v_active = false;
  open_sockets = [];
  server = record { socket = invalid_socket; open_sockets = []; messages = 0 };
  streams = 0;
  commands = [];
  frames = 0;
  cleanups = 0;
  messages = 0;
}

one_phone-Ending : Ending one_phone
unfolding accept_loop
one_phone-Ending = (
  ((pos 8, false), refl),
  λ served. inr (inl refl),
  inr (((invalid_socket, false), refl), λ served. inl refl, inl refl),
)

one_frame : frame_loop two_turns fresh ≡ some (record fresh { commands = 6 ∷ []; frames = 1 })
unfolding frame_loop
one_frame = refl

video_thread_ends_example :
    (t : VideoThread) × (video_thread one_phone invalid_socket fresh ≡ some t) × Ended fresh t
video_thread_ends_example =
    video_thread_ends one_phone invalid_socket fresh one_phone-Ending
      (record { sockets = refl; owner = record { idle = λ e. refl; active = λ e. cc } })

-- A device of 1280 x 720 that the caller names.
abbrev machine : Machine
machine = record {
  given =
      some (record { exists = true; is_chr = true; fd = pos 4; query_cap = pos 0; bus_info = [] });
  files = [];
  query = λ fd. record {
    query_cap = pos 0;
    bus_info = platform_dc;
    set_fmt = pos 0;
    set_width = 640;
    set_height = 480;
    get_fmt = pos 0;
    is_yuv420 = true;
    get_width = 1280;
    get_height = 720;
  };
}

abbrev nothing_open : Scan
nothing_open = record { opened = []; device = none }

machine-started : decoder_init machine nothing_open ≡ started (pos 4) false (set_webcam 1280 720)
unfolding decoder_init search_device start_decoder query_v4l_device open_v4l2_device set_webcam
machine-started = refl

requests_whole_example :
    (formatted (video_request jpg 1280 720) ≡ some (video_request jpg 1280 720))
    × (formatted (command_request 3 daylight) ≡ some (command_request 3 daylight))
unfolding set_webcam
requests_whole_example =
    requests_whole machine nothing_open jpg (pos 4) false (set_webcam 1280 720) 3 daylight
      machine-started (omega arith)

request_for_hd : video_request jpg 1280 720 ≡ codes "CMD /v3/video/jpg/1280x720"
unfolding video_request print_int print_nat digits
request_for_hd = refl
