-- ===== src/Device/Tests.antt =====
-- The video device on concrete answers.
use droidcam_linux_client.Prelude.{
  ℕ, ◌≡◌, refl, true, false, List, [], ◌∷◌, some, none, ◌==◌, if◌then◌else◌, arith,
}
use droidcam_linux_client.Prelude.Text.{codes}
use droidcam_linux_client.Prelude.Int.{pos}
use droidcam_linux_client.Device.Open.{
  DeviceFile, Scan, Found, first_fit, open_v4l2_device, find_v4l2_device, find_from, look_at,
  find_first_fit,
}
use droidcam_linux_client.Device.Control.{
  Ids, Driver, Exact, IsFound, get_control_id, set_control_i, next_loop, user_loop, private_loop,
  control_id_lem,
}
use droidcam_linux_client.Device.Query.{platform, platform_dc, QueryAnswers}
use droidcam_linux_client.Device.Init.{Machine, IfStarted, decoder_init, decoder_init-Ready}

abbrev absent : DeviceFile
absent = record { exists = false; is_chr = false; fd = pos 0; query_cap = pos 0; bus_info = [] }

abbrev camera : DeviceFile
camera = record { exists = true; is_chr = true; fd = pos 4; query_cap = pos 0; bus_info = platform }

abbrev droidcam : DeviceFile
droidcam = record camera { fd = pos 5; bus_info = platform_dc }

abbrev nothing_open : Scan
nothing_open = record { opened = []; device = none }

-- The generic device is passed over and closed.
found_droidcam :
    find_v4l2_device platform_dc (camera ∷ absent ∷ droidcam ∷ []) nothing_open
    ≡ (record { opened = pos 5 ∷ []; device = some 2 }, pos 5)
unfolding find_v4l2_device find_from look_at open_v4l2_device
found_droidcam = refl

find_first_fit_example :
    Found []
      (first_fit platform_dc 0 (camera ∷ absent ∷ droidcam ∷ []))
      (find_v4l2_device platform_dc (camera ∷ absent ∷ droidcam ∷ []) nothing_open)
find_first_fit_example = find_first_fit platform_dc (camera ∷ absent ∷ droidcam ∷ []) nothing_open

abbrev answers : QueryAnswers
answers = record {
  query_cap = pos 0;
  bus_info = platform;
  set_fmt = pos 0;
  set_width = 640;
  set_height = 480;
  get_fmt = pos 0;
  is_yuv420 = true;
  get_width = 1280;
  get_height = 720;
}

abbrev machine : Machine
machine = record { given = some absent; files = camera ∷ []; query = λ fd. answers }

decoder_init_example : IfStarted (decoder_init machine nothing_open)
decoder_init_example = decoder_init-Ready machine nothing_open

-- A driver with one user control and one private control, and with one that stands in neither range
-- and that is found only behind another id.
abbrev some_ids : Ids
some_ids = record { user_base = 100; user_end = 144; private_base = 200; next_flag = 1000 }

abbrev brightness : List ℕ
brightness = codes "Brightness"

abbrev driver : Driver
driver n =
    if n == 102
    then some (n, brightness)
    else if n == 200
    then some (n, codes "sustain_framerate")
    else if n == 161
    then some (n, codes "keep_format")
    else if n == 1102
    then some (161, codes "keep_format")
    else none

driver-Exact : Exact some_ids driver
driver-Exact j i name below answered = ground arith

control_id_example :
    (i : ℕ) × (get_control_id some_ids driver (codes "keep_format") 2 ≡ some i)
    × IsFound some_ids driver (codes "keep_format") i
control_id_example =
    control_id_lem some_ids driver (codes "keep_format") 1 driver-Exact (omega arith) (omega arith)
      (omega arith) refl refl

keep_format_missed :
    (get_control_id some_ids driver (codes "keep_format") 2 ≡ some 0)
    × (get_control_id some_ids driver (codes "sustain") 2 ≡ some 200)
    × (set_control_i some_ids driver true brightness 1 2 ≡ some (1, some 102))
unfolding get_control_id set_control_i next_loop user_loop private_loop
keep_format_missed = (refl, refl, refl)
