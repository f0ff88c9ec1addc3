-- ===== src/Settings/RoundTrip.antt =====
-- What `SaveSettings` writes `LoadSettings` reads back.
use droidcam_linux_client.Prelude.{◌≡◌, refl, some, [], ◌∷◌, take, ap, ◌∙◌}
use droidcam_linux_client.Prelude.Int.{pos}
use droidcam_linux_client.Prelude.Text.{Text, codes}
use droidcam_linux_client.Settings.Defs.{Settings, defaults, Overflow}
use droidcam_linux_client.Settings.Load.{
  loaded, set_port, set_audio, set_video, set_connection, set_confirm_close, set_vertical_flip,
  set_horizontal_flip, fields_before, fields_behind, load_4, load_version, load_lines,
  load_settings,
}
use droidcam_linux_client.Settings.Save.{saved_lines, save_settings}
use droidcam_linux_client.Settings.Fits.{IsStorable, lines-join_lines, saved-AllFit}
use droidcam_linux_client.Settings.Fields.{
  ip_or, scan_field-line, load_4-ip, load_4-before, load_4-behind, load_4-size,
}

ip_or-nil : (t : Text) → ip_or t [] ≡ t
ip_or-nil [] = refl
ip_or-nil (c ∷ t) = refl

load_4-nil :
    (o : Overflow) (s : Settings)
    → load_4 o [] (record s { ip = ip_or s.ip []; encoder = pos 0; adb_auto_start = pos 0 })
      ≡ loaded (record s { encoder = pos 0; adb_auto_start = pos 0 })
unfolding load_4
load_4-nil o s =
    ap (λ t. loaded (record s { ip = t; encoder = pos 0; adb_auto_start = pos 0 })) (ip_or-nil s.ip)

-- The settings that a run leaves in the file are those that the next run starts with: reading back
-- what `SaveSettings` wrote gives the same settings, with the codec and `adb_auto_start`, which are
-- not written, at their defaults of 0. The address is at most 15 bytes with no space, or empty, the
-- numbers are those of an `int`, and the size is positive.
pub load-save :
    (o : Overflow) (s : Settings)
    → IsStorable s
    → load_settings o (some (save_settings s))
      ≡ loaded (record s { encoder = pos 0; adb_auto_start = pos 0 })
unfolding load_settings load_lines load_version save_settings
load-save o s ok =
    rw
      (
        lines-join_lines (saved_lines s) (saved-AllFit s ok),
        scan_field-line o (codes "v") (pos 4) refl,
      )
      (load_4-ip o s.ip _ defaults ok.address ok.short
        ∙ load_4-before o [] _ (codes "port=") set_port s.port _ _ refl ok.port (refl, tt)
        ∙ load_4-before o (take 1 fields_before) _ (codes "audio=") set_audio s.audio _ _ refl
            ok.audio (refl, (refl, tt))
        ∙ load_4-before o (take 2 fields_before) _ (codes "video=") set_video s.video _ _ refl
            ok.video (refl, (refl, (refl, tt)))
        ∙ load_4-size o s.v4l2_width s.v4l2_height _ _ ok.wide ok.high ok.narrow ok.low
        ∙ load_4-behind o (take 2 fields_behind) _ (codes "confirm_close=") set_confirm_close
            s.confirm_close _ _ refl ok.confirm_close (refl, (refl, (refl, (refl, tt))))
            (refl, (refl, (refl, tt)))
        ∙ load_4-behind o (take 3 fields_behind) _ (codes "vertical_flip=") set_vertical_flip
            s.vertical_flip _ _ refl ok.vertical_flip (refl, (refl, (refl, (refl, tt))))
            (refl, (refl, (refl, (refl, tt))))
        ∙ load_4-behind o (take 4 fields_behind) _ (codes "horizontal_flip=") set_horizontal_flip
            s.horizontal_flip _ _ refl ok.horizontal_flip (refl, (refl, (refl, (refl, tt))))
            (refl, (refl, (refl, (refl, (refl, tt)))))
        ∙ load_4-behind o [] _ (codes "type=") set_connection s.connection _ _ refl ok.connection
            (refl, (refl, (refl, (refl, tt)))) (refl, tt)
        ∙ load_4-nil o s)
