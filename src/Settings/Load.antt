-- ===== src/Settings/Load.antt =====
-- `LoadSettings` of src/settings.c.
use droidcam_linux_client.Prelude.{
  ℕ, zero, suc, ◌+◌, ◌-◌, ◌%◌, ◌^◌, true, false, ltb, if◌then◌else◌, Option, none, some, List, [],
  ◌∷◌, take, length,
}
use droidcam_linux_client.Prelude.Int.{ℤ, pos, negsuc, eq_ℤ}
use droidcam_linux_client.Prelude.Text.{Text, codes, strip, is_space, skip_space, scan_int}
use droidcam_linux_client.Settings.Defs.{Settings, defaults, Overflow, to_int}
use droidcam_linux_client.Settings.Lines.{lines}

-- `overrun` is a write behind the end of `ip`, which C leaves undefined.
pub data Loaded : Type 0 where
  loaded : Settings → Loaded
  overrun : Loaded

abbrev pub Setter : Type 0
Setter = ℤ → Settings → Settings

-- `sscanf` with a word, "%d" and what follows: the number, if it is assigned.
unfoldable pub scan_field : Overflow → Text → Text → Option ℤ
scan_field overflow word t = elim (strip word t) [
  | none ↦ none
  | some rest ↦ elim (scan_int rest) [ none ↦ none | some (z, _) ↦ some (to_int overflow z) ]
]

-- The low 32 bits, as an `int`.
abbrev pub signed : ℕ → ℤ
signed low = if ltb low (2 ^ 31) then pos low else negsuc (2 ^ 32 - 1 - low)

-- `strtoul` into an `int`: ULONG_MAX beyond 64 bits, and 0 without a number.
abbrev pub wrap_int : ℤ → ℤ
wrap_int (pos n) = if ltb n (2 ^ 64) then signed (n % 2 ^ 32) else negsuc 0
wrap_int (negsuc n) =
    if ltb (suc n) (2 ^ 64) then signed ((2 ^ 32 - (n + 1) % 2 ^ 32) % 2 ^ 32) else negsuc 0

unfoldable pub strtoul_int : Text → ℤ
strtoul_int t = elim (scan_int t) [ none ↦ pos 0 | some (z, _) ↦ wrap_int z ]

-- The versions 1 to 3 have a value in each line; what is behind the last line keeps its value.
unfoldable pub read_ip : List Text × Settings → List Text × Settings
read_ip ([], s) = ([], s)
read_ip (l ∷ ls, s) = (ls, record s { ip = take 15 l })

unfoldable pub read_port : List Text × Settings → List Text × Settings
read_port ([], s) = ([], s)
read_port (l ∷ ls, s) = (ls, record s { port = strtoul_int l })

unfoldable pub read_int : Overflow → Setter → List Text × Settings → List Text × Settings
read_int overflow set ([], s) = ([], s)
read_int overflow set (l ∷ ls, s) = elim (scan_field overflow [] l) [
  | none ↦ (ls, s)
  | some v ↦ (ls, set v s)
]

abbrev pub set_port : Setter
set_port v s = record s { port = v }

abbrev pub set_audio : Setter
set_audio v s = record s { audio = v }

abbrev pub set_video : Setter
set_video v s = record s { video = v }

abbrev pub set_connection : Setter
set_connection v s = record s { connection = v }

abbrev pub set_adb_auto_start : Setter
set_adb_auto_start v s = record s { adb_auto_start = v }

abbrev pub set_confirm_close : Setter
set_confirm_close v s = record s { confirm_close = v }

abbrev pub set_vertical_flip : Setter
set_vertical_flip v s = record s { vertical_flip = v }

abbrev pub set_horizontal_flip : Setter
set_horizontal_flip v s = record s { horizontal_flip = v }

unfoldable pub load_1 : List Text × Settings → Settings
unfolding read_ip read_port
load_1 r = (read_port (read_ip r)).1

unfoldable pub load_2 : Overflow → List Text × Settings → Settings
unfolding read_ip read_int
load_2 overflow r =
    (read_int overflow set_connection
      (read_int overflow set_audio (read_int overflow set_port (read_ip r)))).1

unfoldable pub load_3 : Overflow → List Text × Settings → Settings
unfolding read_ip read_int
load_3 overflow r =
    (read_int overflow set_connection (
      read_int overflow set_video
        (read_int overflow set_audio (read_int overflow set_port (read_ip r))))).1

-- `%16s`: at most 16 bytes up to the next space, and at least one.
abbrev pub word : ℕ → Text → Text
word zero t = []
word (suc k) [] = []
word (suc k) (c ∷ t) = if is_space c then [] else c ∷ word k t

abbrev pub not_empty : Text → Option Text
not_empty [] = none
not_empty (c ∷ t) = some (c ∷ t)

unfoldable pub scan_ip : Text → Option Text
scan_ip t = elim (strip (codes "ip=") t) [
  | none ↦ none
  | some rest ↦ not_empty (word 16 (skip_space rest))
]

-- `size=%dx%d`, with the test behind it.
abbrev pub sizes : Overflow → ℤ × Text → Option (ℤ × ℤ)
sizes overflow (a, rest) = elim (strip (codes "x") rest) [
  | none ↦ none
  | some rest ↦ elim (scan_int rest) [
    | none ↦ none
    | some (b, _) ↦ some (to_int overflow a, to_int overflow b)
  ]
]

abbrev pub positive : ℤ × ℤ → Option (ℕ × ℕ)
positive (pos (suc a), pos (suc b)) = some (suc a, suc b)
positive _ = none

unfoldable pub scan_size : Overflow → Text → Option (ℕ × ℕ)
scan_size overflow t = elim (strip (codes "size=") t) [
  | none ↦ none
  | some rest ↦ elim (scan_int rest) [
    | none ↦ none
    | some r ↦ elim (sizes overflow r) [ none ↦ none | some s ↦ positive s ]
  ]
]

-- The fields that are tried in front of the size and behind it, in the order of the code.
abbrev pub fields_before : List (Text × Setter)
fields_before =
    (codes "port=", set_port) ∷ (codes "audio=", set_audio) ∷ (codes "video=", set_video) ∷ []

abbrev pub fields_behind : List (Text × Setter)
fields_behind =
    (codes "type=", set_connection)
    ∷ (codes "adb_auto_start=", set_adb_auto_start)
    ∷ (codes "confirm_close=", set_confirm_close)
    ∷ (codes "vertical_flip=", set_vertical_flip)
    ∷ (codes "horizontal_flip=", set_horizontal_flip)
    ∷ []

-- The first field that the line assigns.
unfoldable pub assign : Overflow → List (Text × Setter) → Text → Settings → Option Settings
assign overflow [] t s = none
assign overflow ((name, set) ∷ fields) t s = elim (scan_field overflow name t) [
  | none ↦ assign overflow fields t s
  | some v ↦ some (set v s)
]

-- The body of the loop of version 4, behind the address.
unfoldable pub read_field : Overflow → Text → Settings → Settings
read_field overflow t s = elim (assign overflow fields_before t s) [
  | some r ↦ r
  | none ↦ elim (scan_size overflow t) [
    | some (w, h) ↦ record s { v4l2_width = w; v4l2_height = h }
    | none ↦ elim (assign overflow fields_behind t s) [ some r ↦ r | none ↦ s ]
  ]
]

-- An address of 16 bytes leaves no room for its NUL.
unfoldable pub load_4 : Overflow → List Text → Settings → Loaded
load_4 overflow [] s = loaded s
load_4 overflow (t ∷ ts) s = elim (scan_ip t) [
  | none ↦ load_4 overflow ts (read_field overflow t s)
  | some ip ↦ elim (ltb (length ip) 16) [
    | true ↦ load_4 overflow ts (record s { ip = ip })
    | false ↦ overrun
  ]
]

unfoldable pub load_version : Overflow → ℤ → List Text → Settings → Loaded
load_version overflow version ls s =
    if eq_ℤ version (pos 1)
    then loaded (load_1 (ls, s))
    else if eq_ℤ version (pos 2)
    then loaded (load_2 overflow (ls, s))
    else if eq_ℤ version (pos 3)
    then loaded (load_3 overflow (ls, s))
    else if eq_ℤ version (pos 4)
    then load_4 overflow ls s
    else loaded s

abbrev pub version_of : Option ℤ → ℤ
version_of none = pos 0
version_of (some v) = v

unfoldable pub load_lines : Overflow → List Text → Loaded
load_lines overflow [] = loaded defaults
load_lines overflow (l ∷ ls) =
    load_version overflow (version_of (scan_field overflow (codes "v") l)) ls defaults

-- No file gives the defaults.
unfoldable pub load_settings : Overflow → Option Text → Loaded
load_settings overflow none = loaded defaults
load_settings overflow (some file) = load_lines overflow (lines file)
