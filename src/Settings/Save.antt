-- ===== src/Settings/Save.antt =====
-- `SaveSettings` of src/settings.c.
use droidcam_linux_client.Prelude.{ℕ, ◌-◌, ◌^◌, ltb, if◌then◌else◌, List, [], ◌∷◌, ◌++◌}
use droidcam_linux_client.Prelude.Int.{ℤ, pos, negsuc}
use droidcam_linux_client.Prelude.Text.{Text, codes, print_int}
use droidcam_linux_client.Settings.Defs.{Settings}

-- An `unsigned` as `%d` prints it.
abbrev pub as_int : ℕ → ℤ
as_int n = if ltb n (2 ^ 31) then pos n else negsuc (2 ^ 32 - 1 - n)

-- One line of the format string, with its number.
abbrev pub int_line : Text → ℤ → Text
int_line name v = name ++ print_int v

abbrev pub size_line : ℕ → ℕ → Text
size_line w h = codes "size=" ++ (print_int (as_int w) ++ (codes "x" ++ print_int (as_int h)))

abbrev pub saved_lines : Settings → List Text
saved_lines s =
    int_line (codes "v") (pos 4)
    ∷ (codes "ip=" ++ s.ip)
    ∷ int_line (codes "port=") s.port
    ∷ int_line (codes "audio=") s.audio
    ∷ int_line (codes "video=") s.video
    ∷ size_line s.v4l2_width s.v4l2_height
    ∷ int_line (codes "confirm_close=") s.confirm_close
    ∷ int_line (codes "vertical_flip=") s.vertical_flip
    ∷ int_line (codes "horizontal_flip=") s.horizontal_flip
    ∷ int_line (codes "type=") s.connection
    ∷ []

abbrev pub join_lines : List Text → Text
join_lines [] = []
join_lines (l ∷ ls) = l ++ b'\n' ∷ join_lines ls

unfoldable pub save_settings : Settings → Text
save_settings s = join_lines (saved_lines s)
