-- ===== src/Life/Tests.antt =====
-- A life: a stream is started, the phone goes, and the stream is stopped.
use droidcam_linux_client.Prelude.{◌≤◌, ◌≢◌, refl, true, false}
use droidcam_linux_client.Life.{
  gtk, Life, new_video, new_threads, enter_stop, initial, finished, header,
}
use droidcam_linux_client.Life.Steps.{UserStep, OwnStep, PhoneStep, ThreadStep, Reach}
use droidcam_linux_client.Life.Owned.{IsOwned, threads-IsOwned}
use droidcam_linux_client.Life.Nearer.{AllTimed}
use droidcam_linux_client.Life.Stops.{Stopping, GoesOn, stop_returns}

abbrev streaming : Life
streaming = new_threads true true initial

abbrev header_awaited : Life
header_awaited = record streaming { video_pc = header }

abbrev phone_gone : Life
phone_gone = record header_awaited { video = finished }

abbrev in_stop : Life
in_stop = enter_stop phone_gone

streaming-Reach : Reach streaming
streaming-Reach =
    Reach.next Reach.begins (ThreadStep.by_user (UserStep.press_start true true refl refl refl))

header_awaited-Reach : Reach header_awaited
header_awaited-Reach =
    Reach.next streaming-Reach (ThreadStep.by_itself (OwnStep.header_asked refl refl refl))

in_stop-Reach : Reach in_stop
in_stop-Reach =
    Reach.next
      (Reach.next header_awaited-Reach (ThreadStep.by_phone (PhoneStep.video_lost refl refl)))
      (ThreadStep.by_user (UserStep.press_stop refl))

threads-IsOwned_example : IsOwned in_stop
threads-IsOwned_example = threads-IsOwned in_stop-Reach

-- `Stop` is called while the video thread waits for the header.
abbrev waits_in_stop : Life
waits_in_stop = enter_stop header_awaited

waits_in_stop-Reach : Reach waits_in_stop
waits_in_stop-Reach =
    Reach.next header_awaited-Reach (ThreadStep.by_user (UserStep.press_stop refl))

waits_in_stop-ne : waits_in_stop.main ≢ gtk
waits_in_stop-ne e = cc

abbrev timed_out : Life
timed_out = record waits_in_stop { video = finished }

one_step : Stopping 1 waits_in_stop timed_out
one_step =
    Stopping.more waits_in_stop-ne (ThreadStep.by_itself (OwnStep.video_times_out refl refl refl))
      (Stopping.done timed_out)

waits_in_stop-AllTimed : AllTimed waits_in_stop
waits_in_stop-AllTimed = record { video = refl; later = refl; audio = refl; battery = refl }

stop_returns_example : (1 ≤ 15) × GoesOn timed_out
stop_returns_example =
    stop_returns waits_in_stop-Reach waits_in_stop-ne waits_in_stop-AllTimed 1 timed_out one_step

-- In server mode a client connects and is silent; the user stops.
abbrev serving : Life
serving = new_video true false initial

abbrev client_silent : Life
client_silent = record serving { video_pc = header }

abbrev hanging : Life
hanging = enter_stop client_silent

hanging-Reach : Reach hanging
hanging-Reach =
    Reach.next
      (Reach.next (Reach.next Reach.begins (ThreadStep.by_user (UserStep.press_server refl refl)))
        (ThreadStep.by_phone (PhoneStep.client_accepted refl refl refl)))
      (ThreadStep.by_user (UserStep.press_stop refl))

abbrev decode_ended : Life
decode_ended = record hanging { decode = finished }
