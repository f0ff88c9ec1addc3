-- ===== src/Usb/Adb.antt =====
-- `CheckAdbDevices` of src/usb.c.
use droidcam_linux_client.Prelude.{
  ◌≡◌, ◌≢◌, ◌⊎◌, inl, inr, refl, Bool, true, false, not, ◌==◌, ◌&&◌, if◌then◌else◌, Option, none,
  some, List, [], ◌∷◌, ◌++◌, arith, Option-cases, ap, subst, sym, ◌∙◌,
}
use droidcam_linux_client.Prelude.Int.{ℤ, pos, negsuc, eq_ℤ}

abbrev pub no_error : ℤ
no_error = pos 0

abbrev pub error_no_devices : ℤ
error_no_devices = negsuc 0

abbrev pub error_loading_devices : ℤ
error_loading_devices = negsuc 1

abbrev pub error_adding_forward : ℤ
error_adding_forward = negsuc 2

abbrev pub error_device_offline : ℤ
error_device_offline = negsuc 3

abbrev pub error_device_notauth : ℤ
error_device_notauth = negsuc 4

-- Which of the texts the code looks for a line of `adb devices` contains.
pub record Line : Type 0 where
  pub list_of : Bool
  pub offline : Bool
  pub unauthorized : Bool
  pub device : Bool
  pub question_marks : Bool

-- What the programs answer: whether WEXITSTATUS of `adb start-server` is 0, which it also is for one
-- that a signal ends; whether `popen` gives a pipe, which it also does for an `adb devices` that
-- fails; the lines that come through the pipe; and the status of `adb forward` with whether its
-- WEXITSTATUS is 0.
pub record Adb : Type 0 where
  pub server_ok : Bool
  pub pipe_ok : Bool
  pub lines : List Line
  pub forward : ℤ
  pub forward_ok : Bool

-- What a line says, if it ends the loop.
unfoldable pub read_line : Line → Option ℤ
read_line l =
    if l.list_of
    then none
    else if l.offline
    then some error_device_offline
    else if l.unauthorized
    then some error_device_notauth
    else if l.device && not l.question_marks
    then some no_error
    else none

unfoldable pub read_lines : List Line → ℤ
read_lines [] = error_no_devices
read_lines (l ∷ ls) = elim (read_line l) [ none ↦ read_lines ls | some rc ↦ rc ]

abbrev pub is_no_error : ℤ → Bool
is_no_error (pos n) = n == 0
is_no_error (negsuc n) = false

-- Behind EXIT.
unfoldable pub add_forward : Adb → ℤ → ℤ
add_forward a rc =
    if is_no_error rc then (if a.forward_ok then a.forward else error_adding_forward) else rc

unfoldable pub check_adb_devices : Adb → ℤ
check_adb_devices a =
    if not a.server_ok
    then add_forward a error_loading_devices
    else if not a.pipe_ok
    then add_forward a error_loading_devices
    else add_forward a (read_lines a.lines)

-- The calls of programs, the pipe's among them.
pub data AdbCall : Type 0 where
  start_server list_devices kill_server close_pipe add_forward_call : AdbCall

-- adb is killed behind a first telling line that says "offline".
abbrev pub calls_behind : ℤ → List AdbCall
calls_behind rc =
    if eq_ℤ rc error_device_offline
    then kill_server ∷ close_pipe ∷ []
    else if is_no_error rc
    then close_pipe ∷ add_forward_call ∷ []
    else close_pipe ∷ []

unfoldable pub adb_calls : Adb → List AdbCall
adb_calls a =
    if not a.server_ok
    then start_server ∷ []
    else if not a.pipe_ok
    then start_server ∷ list_devices ∷ []
    else start_server ∷ list_devices ∷ calls_behind (read_lines a.lines)

-- The lines say nothing.
abbrev pub Silent : List Line → Type 0
Silent [] = Unit {0}
Silent (l ∷ ls) = (read_line l ≡ none) × Silent ls

read_lines-silent :
    (l : Line) (ls : List Line) → read_line l ≡ none → read_lines (l ∷ ls) ≡ read_lines ls
unfolding read_lines
read_lines-silent l ls silent = rw (read_lines, silent)

read_lines-says :
    (l : Line) (ls : List Line) (rc : ℤ) → read_line l ≡ some rc → read_lines (l ∷ ls) ≡ rc
unfolding read_lines
read_lines-says l ls rc says = rw (read_lines, says)

read_lines-Silent : (ls rest : List Line) → Silent ls → read_lines (ls ++ rest) ≡ read_lines rest
unfolding read_lines
read_lines-Silent [] rest quiet = refl
read_lines-Silent (l ∷ ls) rest (silent, quiet) =
    rw (read_lines, silent) (read_lines-Silent ls rest quiet)

-- The line that decides, and what stands before and behind it.
abbrev pub Decides : List Line → ℤ → Type 0
Decides lines rc =
    (ls : List Line) × (l : Line) × (rest : List Line) × (lines ≡ ls ++ l ∷ rest)
    × Silent ls
    × (read_line l ≡ some rc)

pub read_lines-Decides : (lines : List Line) (rc : ℤ) → Decides lines rc → read_lines lines ≡ rc
read_lines-Decides lines rc (ls, l, rest, split, quiet, says) =
    ap read_lines split ∙ read_lines-Silent ls (l ∷ rest) quiet ∙ read_lines-says l rest rc says

pub read_lines-quiet : (lines : List Line) → Silent lines → read_lines lines ≡ error_no_devices
unfolding read_lines
read_lines-quiet [] quiet = refl
read_lines-quiet (l ∷ ls) (silent, quiet) =
    read_lines-silent l ls silent ∙ read_lines-quiet ls quiet

Decides-cons :
    (l : Line) (lines : List Line) (rc : ℤ)
    → read_line l ≡ none
    → Decides lines rc
    → Decides (l ∷ lines) rc
Decides-cons l lines rc silent (ls, m, rest, split, quiet, says) =
    (l ∷ ls, m, rest, ap (λ k. l ∷ k) split, (silent, quiet), says)

read_lines_lem :
    (lines : List Line)
    → (Decides lines (read_lines lines)) ⊎ (Silent lines × (read_lines lines ≡ error_no_devices))
unfolding read_lines
read_lines_lem [] = inr (tt, refl)
read_lines_lem (l ∷ lines) = elim (Option-cases (read_line l)) [
  | inr (rc, says) ↦
      inl ([], l, lines, refl, tt, says ∙ ap some (sym (read_lines-says l lines rc says)))
  | inl silent ↦ elim (read_lines_lem lines) [
    | inl decides ↦ inl (
        subst (λ rc. Decides (l ∷ lines) rc) (sym (read_lines-silent l lines silent))
          (Decides-cons l lines (read_lines lines) silent decides))
    | inr (quiet, none_found) ↦ inr ((silent, quiet), read_lines-silent l lines silent ∙ none_found)
  ]
]

-- A usable device.
abbrev pub Usable : Line → Type 0
Usable l =
    (l.list_of ≡ false)
    × (l.offline ≡ false)
    × (l.unauthorized ≡ false)
    × (l.device ≡ true)
    × (l.question_marks ≡ false)

error_not_zero : is_no_error error_no_devices ≢ true
error_not_zero e = cc

line-Usable : (l : Line) (rc : ℤ) → read_line l ≡ some rc → is_no_error rc ≡ true → Usable l
unfolding read_line
line-Usable l rc says fine = (ground arith, ground arith, ground arith, ground arith, ground arith)

forwarded : (a : Adb) → check_adb_devices a ≡ no_error → is_no_error (read_lines a.lines) ≡ true
unfolding check_adb_devices add_forward
forwarded a ok = ground arith

-- `CheckAdbDevices` returns 0 only if WEXITSTATUS of `adb start-server` and of `adb forward` is 0,
-- `popen` gives a pipe for `adb devices`, and the first line that says something is not the headline,
-- names a device, and has none of "offline", "unauthorized" and "??".
pub success_has_device :
    (a : Adb)
    → check_adb_devices a ≡ no_error
    → (a.server_ok ≡ true)
      × (a.pipe_ok ≡ true)
      × (a.forward_ok ≡ true)
      × ((ls : List Line) × (l : Line) × (rest : List Line) × (a.lines ≡ ls ++ l ∷ rest)
          × Silent ls
          × Usable l)
unfolding check_adb_devices add_forward
success_has_device a ok = elim (read_lines_lem a.lines) [
  | inr (quiet, rc) ↦ absurd (error_not_zero (rw rc at (forwarded a ok)))
  | inl (ls, l, rest, split, quiet, says) ↦ (
    ground arith,
    ground arith,
    ground arith,
    (ls, l, rest, split, quiet, line-Usable l (read_lines a.lines) says (forwarded a ok)),
  )
]
