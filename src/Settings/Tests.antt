-- ===== src/Settings/Tests.antt =====
-- The settings file on concrete bytes.
use droidcam_linux_client.Prelude.{◌≡◌, refl, some, ◌++◌, arith}
use droidcam_linux_client.Prelude.Int.{pos}
use droidcam_linux_client.Prelude.Text.{Text, codes}
use droidcam_linux_client.Settings.Defs.{Settings, defaults, Overflow}
use droidcam_linux_client.Settings.Load.{loaded, overrun, load_settings}
use droidcam_linux_client.Settings.Save.{save_settings}
use droidcam_linux_client.Settings.Fits.{IsStorable}
use droidcam_linux_client.Settings.RoundTrip.{load-save}
use droidcam_linux_client.Settings.Address.{file_of, long_address_overruns}

abbrev overflow : Overflow
overflow = λ z. pos 0

abbrev home : Settings
home = record defaults {
  ip = codes "192.168.0.7";
  audio = pos 1;
  horizontal_flip = pos 1;
  v4l2_width = 1280;
  v4l2_height = 720;
}

home-IsStorable : IsStorable home
home-IsStorable = record {
  address =
      (refl, (refl, (refl, (refl, (refl, (refl, (refl, (refl, (refl, (refl, (refl, tt)))))))))));
  short = omega arith;
  port = refl;
  audio = refl;
  video = refl;
  connection = refl;
  confirm_close = refl;
  vertical_flip = refl;
  horizontal_flip = refl;
  wide = omega arith;
  high = omega arith;
  narrow = omega arith;
  low = omega arith;
}

load-save_example :
    load_settings overflow (some (save_settings home))
    ≡ loaded (record home { encoder = pos 0; adb_auto_start = pos 0 })
load-save_example = load-save overflow home home-IsStorable

abbrev long : Text
long = codes "192.168.100.1004"

long_address_overruns_example :
    load_settings overflow (some (file_of 4 (codes "ip=" ++ long) (codes "port=80"))) ≡ overrun
long_address_overruns_example =
    long_address_overruns overflow long (codes "port=80")
      (
        refl,
        (
          refl,
          (
            refl,
            (
              refl,
              (
                refl,
                (
                  refl,
                  (
                    refl,
                    (refl, (refl, (refl, (refl, (refl, (refl, (refl, (refl, (refl, tt))))))))),
                  ),
                ),
              ),
            ),
          ),
        ),
      )
      (omega arith) (omega arith)
