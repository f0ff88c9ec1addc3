-- ===== src/Gui/Args.antt =====
-- `parse_args` and `delete_window_callback` of src/droidcam.c. A text is its bytes without the NUL; a
-- byte behind the NUL, which the code looks at for "-d" and "-s", is read as 0.
use droidcam_linux_client.Prelude.{
  ℕ, ◌≡◌, refl, Bool, true, false, not, ◌==◌, ◌&&◌, ◌||◌, if◌then◌else◌, Option, none, some, List,
  [], ◌∷◌, drop, get_or, arith, ◌∙◌,
}
use droidcam_linux_client.Prelude.Text.{Text}

-- `v4l2_dev`, and the size in `g_settings`.
pub record DeviceArgs : Type 0 where
  pub v4l2_dev : Option Text
  pub v4l2_size : ℕ × ℕ

-- What `sscanf` reads with "-size=%dx%d", where it reads both numbers.
abbrev pub ScanSize : Type 0
ScanSize = Text → Option (ℕ × ℕ)

-- The body of the loop goes on, or to ERROR, where the process exits.
unfoldable pub read_arg : ScanSize → Text → DeviceArgs → Option DeviceArgs
read_arg scan t s =
    if get_or t 0 0 == b'-' && get_or t 1 0 == b'd' && get_or t 3 0 == b'v'
    then (if not (get_or t 4 0 == b'=') || get_or t 5 0 == 0
        then none
        else some (record s { v4l2_dev = some (drop 5 t) }))
    else if get_or t 0 0 == b'-' && get_or t 1 0 == b's' && get_or t 3 0 == b'z'
    then elim (scan t) [ none ↦ none | some size ↦ some (record s { v4l2_size = size }) ]
    else if get_or t 0 0 == b'-' && get_or t 1 0 == b'h'
    then none
    else some s

-- The loop over the arguments behind the program's name.
unfoldable pub parse_args : ScanSize → List Text → DeviceArgs → Option DeviceArgs
parse_args scan [] s = some s
parse_args scan (t ∷ args) s = elim (read_arg scan t s) [
  | none ↦ none
  | some r ↦ parse_args scan args r
]

-- What an argument says by itself.
pub data Said : Type 0 where
  dev : Text → Said
  size : ℕ × ℕ → Said
  nothing wrong : Said

abbrev is_option : ℕ → ℕ → Text → Bool
is_option c d t = get_or t 0 0 == b'-' && get_or t 1 0 == c && get_or t 3 0 == d

abbrev dev_said : Text → Said
dev_said t = if get_or t 4 0 == b'=' && not (get_or t 5 0 == 0) then dev (drop 5 t) else wrong

abbrev size_said : Option (ℕ × ℕ) → Said
size_said none = wrong
size_said (some n) = size n

unfoldable pub said : ScanSize → Text → Said
said scan t =
    if is_option b'd' b'v' t
    then dev_said t
    else if is_option b's' b'z' t
    then size_said (scan t)
    else if get_or t 0 0 == b'-' && get_or t 1 0 == b'h'
    then wrong
    else nothing

-- What an argument does by what it says.
abbrev obey : Said → DeviceArgs → Option DeviceArgs
obey (dev e) s = some (record s { v4l2_dev = some e })
obey (size n) s = some (record s { v4l2_size = n })
obey nothing s = some s
obey wrong s = none

read_arg-obey :
    (scan : ScanSize) (t : Text) (s : DeviceArgs) → read_arg scan t s ≡ obey (said scan t) s
unfolding read_arg said
read_arg-obey scan t s = ground arith

abbrev is_wrong : Said → Bool
is_wrong wrong = true
is_wrong _ = false

abbrev dev_of : Said → Option Text → Option Text
dev_of (dev e) d = some e
dev_of _ d = d

abbrev size_of : Said → ℕ × ℕ → ℕ × ℕ
size_of (size n) k = n
size_of _ k = k

abbrev pub any_wrong : ScanSize → List Text → Bool
any_wrong scan [] = false
any_wrong scan (t ∷ args) = is_wrong (said scan t) || any_wrong scan args

-- The last device that is named, or the one before the arguments; and the last size.
abbrev pub last_dev : ScanSize → List Text → Option Text → Option Text
last_dev scan [] d = d
last_dev scan (t ∷ args) d = last_dev scan args (dev_of (said scan t) d)

abbrev pub last_size : ScanSize → List Text → ℕ × ℕ → ℕ × ℕ
last_size scan [] n = n
last_size scan (t ∷ args) n = last_size scan args (size_of (said scan t) n)

parse_args-said :
    (scan : ScanSize) (t : Text) (args : List Text) (s : DeviceArgs) (x : Said)
    → said scan t ≡ x
    → parse_args scan (t ∷ args) s
      ≡ (elim (obey x s) [ none ↦ none | some r ↦ parse_args scan args r ])
unfolding parse_args
parse_args-said scan t args s x is = rw (parse_args, read_arg-obey scan t s, is) refl

-- What the arguments come to.
abbrev pub result : ScanSize → List Text → DeviceArgs → Option DeviceArgs
result scan args s =
    if any_wrong scan args
    then none
    else some (record {
      v4l2_dev = last_dev scan args s.v4l2_dev;
      v4l2_size = last_size scan args s.v4l2_size;
    })

said_step :
    (scan : ScanSize) (t : Text) (args : List Text) (s : DeviceArgs) (x : Said)
    → said scan t ≡ x
    → ((r : DeviceArgs) → parse_args scan args r ≡ result scan args r)
    → parse_args scan (t ∷ args) s ≡ result scan (t ∷ args) s
said_step scan t args s (dev e) is rest =
    parse_args-said scan t args s (dev e) is ∙ rest (record s { v4l2_dev = some e }) ∙ rw is refl
said_step scan t args s (size n) is rest =
    parse_args-said scan t args s (size n) is ∙ rest (record s { v4l2_size = n }) ∙ rw is refl
said_step scan t args s nothing is rest =
    parse_args-said scan t args s nothing is ∙ rest s ∙ rw is refl
said_step scan t args s wrong is rest = parse_args-said scan t args s wrong is ∙ rw is refl

-- The arguments of the graphical client: it exits exactly if one of them is wrong, and else the last
-- device and the last size that they name are kept; other arguments are ignored.
parse_args_lem :
    (scan : ScanSize) (args : List Text) (s : DeviceArgs)
    → parse_args scan args s ≡ result scan args s
unfolding parse_args
parse_args_lem scan [] s = refl
parse_args_lem scan (t ∷ args) s =
    said_step scan t args s (said scan t) refl (parse_args_lem scan args)

-- Whether the window stays: while a stream runs the user is asked, if the settings say so.
unfoldable pub delete_window_callback : (v_running a_running confirm_close says_no : Bool) → Bool
delete_window_callback v a confirm says_no =
    if (v || a) && confirm then (if says_no then true else false) else false
