-- ===== src/Cli/Args.antt =====
-- `parse_args` of src/droidcam-cli.c. A text is its bytes without the NUL; a byte behind the NUL,
-- which the code can look at for texts of fewer than five bytes, is read as 0.
use droidcam_linux_client.Prelude.{
  ℕ, ◌+◌, ◌≤◌, ◌≡◌, Bool, true, false, not, ◌==◌, ◌&&◌, ltb, if◌then◌else◌, Option, none, some,
  List, [], ◌∷◌, ◌++◌, length, take, drop, length-take, get_or, arith, length-append, if-holds,
  subst, sym,
}

abbrev pub Text : Type 0
Text = List ℕ

abbrev pub at : Text → ℕ → ℕ
at t i = get_or t i 0

-- What the C library makes of a text: `sscanf` with "-size=%dx%d", and `strtoul`.
pub record Library : Type 0 where
  pub scan_size : Text → Option (ℕ × ℕ)
  pub strtoul : Text → ℕ

-- The globals that the options set.
pub record Options : Type 0 where
  pub vertical_flip : Bool
  pub horizontal_flip : Bool
  pub a_running : Bool
  pub v_running : Bool
  pub v4l2_dev : Option Text
  pub v4l2_size : ℕ × ℕ
  pub no_controls : Bool

pub data Target : Type 0 where
  server adb ios wifi : Target

-- The usage is shown and the process exits, or the port and the address are set.
pub data Parsed : Type 0 where
  usage : Parsed
  parsed : (o : Options) (target : Target) (ip : Text) (port : ℕ) → Parsed

-- What an argument comes to: an option, an error, or the end of the options.
pub data Step : Type 0 where
  option : Options → Step
  bad stop : Step

abbrev pub starts : Text → Text → Bool
starts [] t = true
starts (c ∷ p) [] = false
starts (c ∷ p) (d ∷ t) = c == d && starts p t

-- `strstr(t, p) != NULL`
abbrev pub contains : Text → Text → Bool
contains p [] = starts p []
contains p (c ∷ t) = let later = contains p t in if starts p (c ∷ t) then true else later

abbrev pub nocontrols : Text
nocontrols = b'n' ∷ b'o' ∷ b'c' ∷ b'o' ∷ b'n' ∷ b't' ∷ b'r' ∷ b'o' ∷ b'l' ∷ b's' ∷ []

abbrev pub is_flip : ℕ → Text → Bool
is_flip c t = at t 0 == b'-' && at t 1 == c && at t 2 == b'f' && at t 3 == b'l' && at t 5 == b'p'

-- The body of the loop.
unfoldable pub read_option : Library → Text → Options → Step
read_option lib t o =
    if is_flip b'v' t
    then option (record o { vertical_flip = true })
    else if is_flip b'h' t
    then option (record o { horizontal_flip = true })
    else if at t 0 == b'-' && at t 1 == b'a'
    then option (record o { a_running = true })
    else if at t 0 == b'-' && at t 1 == b'v'
    then option (record o { v_running = true })
    else if at t 0 == b'-' && at t 1 == b'd' && at t 3 == b'v'
    then (if not (at t 4 == b'=')
        then bad
        else if at t 5 == 0
        then bad
        else option (record o { v4l2_dev = some (drop 5 t) }))
    else if at t 0 == b'-' && at t 1 == b's' && at t 3 == b'z'
    then elim (lib.scan_size t) [ none ↦ bad | some size ↦ option (record o { v4l2_size = size }) ]
    else if at t 0 == b'-' && contains nocontrols (drop 1 t)
    then option (record o { no_controls = true })
    else stop

-- "127.0.0.1"
abbrev pub adb_localhost_ip : Text
adb_localhost_ip = b'1' ∷ b'2' ∷ b'7' ∷ b'.' ∷ b'0' ∷ b'.' ∷ b'0' ∷ b'.' ∷ b'1' ∷ []

abbrev pub same_text : Text → Text → Bool
same_text s t = starts s t && length s == length t

-- The two arguments behind the options.
unfoldable pub read_target : Library → Options → List Text → Parsed
read_target lib o (t ∷ port ∷ rest) =
    let ip = take 15 t in
    if at t 0 == b'-' && at t 1 == b'l'
    then parsed (record o { a_running = false; v_running = true }) server [] (lib.strtoul port)
    else if same_text (b'a' ∷ b'd' ∷ b'b' ∷ []) ip
    then parsed o adb adb_localhost_ip (lib.strtoul port)
    else if same_text (b'i' ∷ b'o' ∷ b's' ∷ []) ip
    then parsed o ios ip (lib.strtoul port)
    else parsed o wifi ip (lib.strtoul port)
read_target lib o _ = usage

-- The loop over the arguments.
unfoldable pub read_options : Library → List Text → Options → Parsed
read_options lib [] o = read_target lib o []
read_options lib (t ∷ args) o = elim (read_option lib t o) [
  | option o ↦ read_options lib args o
  | bad ↦ usage
  | stop ↦ read_target lib o (t ∷ args)
]

-- `argc` counts the program's name too.
unfoldable pub parse_args : Library → List Text → Options → Parsed
parse_args lib args o = if ltb 1 (length args) then read_options lib args o else usage

-- The options, read one after the other.
abbrev pub Read : Library → List Text → Options → Options → Type 0
Read lib [] o p = o ≡ p
Read lib (t ∷ ts) o p = (q : Options) × (read_option lib t o ≡ option q) × Read lib ts q p

length-args :
    (ts : List Text) (t port : Text) (rest : List Text)
    → ltb 1 (length (ts ++ t ∷ port ∷ rest)) ≡ true
length-args ts t port rest = ground (arith, length-append ts (t ∷ port ∷ rest))

read_options_lem :
    (lib : Library) (ts : List Text) (o p : Options) (t port : Text) (rest : List Text)
    → Read lib ts o p
    → read_option lib t p ≡ stop
    → read_options lib (ts ++ t ∷ port ∷ rest) o ≡ read_target lib p (t ∷ port ∷ rest)
unfolding read_options
read_options_lem lib [] o p t port rest same end =
    subst (λ q. read_options lib (t ∷ port ∷ rest) q ≡ read_target lib p (t ∷ port ∷ rest))
      (sym same) (rw (read_options, end))
read_options_lem lib (x ∷ ts) o p t port rest (q, now, later) end =
    rw (read_options, now) (read_options_lem lib ts q p t port rest later end)

-- After any options, an argument that is none and does not begin with "-l" names the phone: "adb"
-- stands for the local address, "ios" for a phone on USB, and any other text for its address, of
-- which 15 bytes are kept; further arguments are ignored.
pub options_then_phone :
    (lib : Library) (ts : List Text) (o p : Options) (t port : Text) (rest : List Text)
    → Read lib ts o p
    → read_option lib t p ≡ stop
    → (at t 0 == b'-' && at t 1 == b'l') ≡ false
    → parse_args lib (ts ++ t ∷ port ∷ rest) o ≡ (
        if same_text (b'a' ∷ b'd' ∷ b'b' ∷ []) (take 15 t)
        then parsed p adb adb_localhost_ip (lib.strtoul port)
        else if same_text (b'i' ∷ b'o' ∷ b's' ∷ []) (take 15 t)
        then parsed p ios (take 15 t) (lib.strtoul port)
        else parsed p wifi (take 15 t) (lib.strtoul port))
unfolding parse_args read_target
options_then_phone lib ts o p t port rest read end phone =
    rw (length-args ts t port rest, read_options_lem lib ts o p t port rest read end, phone)

-- The address and its NUL fit `settings.ip`.
abbrev pub IpFits : Parsed → Type 0
IpFits usage = Unit {0}
IpFits (parsed o target ip port) = length ip + 1 ≤ 16

target-IpFits : (lib : Library) (o : Options) (args : List Text) → IpFits (read_target lib o args)
unfolding read_target
target-IpFits lib o [] = tt
target-IpFits lib o (t ∷ []) = tt
target-IpFits lib o (t ∷ port ∷ rest) =
    let kept : length (take 15 t) + 1 ≤ 16 = omega (arith, length-take 15 t) in
    if-holds (at t 0 == b'-' && at t 1 == b'l') _ _ IpFits (λ e. omega arith)
      (λ e.
        if-holds (same_text (b'a' ∷ b'd' ∷ b'b' ∷ []) (take 15 t)) _ _ IpFits (λ e. omega arith)
          (λ e.
            if-holds (same_text (b'i' ∷ b'o' ∷ b's' ∷ []) (take 15 t)) _ _ IpFits (λ e. kept)
              (λ e. kept)))

after_step :
    (lib : Library) (t : Text) (args : List Text) (o : Options) (s : Step)
    → ((p : Options) → IpFits (read_options lib args p))
    → IpFits (elim s [
      | option p ↦ read_options lib args p
      | bad ↦ usage
      | stop ↦ read_target lib o (t ∷ args)
    ])
after_step lib t args o (option p) rest = rest p
after_step lib t args o bad rest = tt
after_step lib t args o stop rest = target-IpFits lib o (t ∷ args)

options-IpFits : (lib : Library) (args : List Text) (o : Options) → IpFits (read_options lib args o)
unfolding read_options
options-IpFits lib [] o = target-IpFits lib o []
options-IpFits lib (t ∷ args) o =
    after_step lib t args o (read_option lib t o) (λ p. options-IpFits lib args p)

-- Whatever the arguments are, the address that `parse_args` keeps fits the 16 bytes of
-- `settings.ip` with its NUL.
address_fits : (lib : Library) (args : List Text) (o : Options) → IpFits (parse_args lib args o)
unfolding parse_args
address_fits lib args o =
    if-holds (ltb 1 (length args)) _ _ IpFits (λ e. options-IpFits lib args o) (λ e. tt)
