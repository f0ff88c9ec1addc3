-- ===== src/Stream/Request.antt =====
-- The requests that `VideoThreadProc` of src/av.c writes into its buffer of 32 bytes.
use droidcam_linux_client.Prelude.{
  ℕ, zero, suc, ◌+◌, ◌/◌, ◌%◌, ◌≤◌, ◌<◌, ◌≡◌, refl, Bool, true, ◌==◌, ltb, leb, if◌then◌else◌,
  if-holds, Option, none, some, [], ◌∷◌, ◌++◌, length, length-append, take, arith, subst,
}
use droidcam_linux_client.Prelude.Int.{ℤ, pos}
use droidcam_linux_client.Prelude.Text.{Text, codes, digits, print_nat, print_int, pow10}
use droidcam_linux_client.Video.Decoder.{JpgDecoder}
use droidcam_linux_client.Device.Open.{Scan}
use droidcam_linux_client.Device.Init.{
  Machine, started, decoder_init, decoder_init-Ready, IfStarted,
}

-- `codec_names`
pub data Codec : Type 0 where
  jpg avc : Codec

abbrev pub codec_name : Codec → Text
codec_name jpg = codes "jpg"
codec_name avc = codes "avc"

-- `wb_values` of src/droidcam.c
pub data WhiteBalance : Type 0 where
  auto incandescent warm_fluorescent twilight fluorescent daylight cloudy_daylight shade :
      WhiteBalance

abbrev pub wb_value : WhiteBalance → Text
wb_value auto = codes "auto"
wb_value incandescent = codes "incandescent"
wb_value warm_fluorescent = codes "warm-fluorescent"
wb_value twilight = codes "twilight"
wb_value fluorescent = codes "fluorescent"
wb_value daylight = codes "daylight"
wb_value cloudy_daylight = codes "cloudy-daylight"
wb_value shade = codes "shade"

-- VIDEO_REQ with its arguments.
unfoldable pub video_request : Codec → ℕ → ℕ → Text
video_request c w h =
    codes "CMD /v3/video/"
    ++ (codec_name c ++ (codes "/" ++ (print_int (pos w) ++ (codes "x" ++ print_int (pos h)))))

abbrev pub cb_control_wb : ℕ
cb_control_wb = 3

-- OTHER_REQ_STR for the white balance, and OTHER_REQ for any other command.
unfoldable pub command_request : ℕ → WhiteBalance → Text
command_request cmd wb =
    let request = codes "CMD /v1/ctl?" ++ print_int (pos cmd) in
    if cmd == cb_control_wb then request ++ (codes "=" ++ wb_value wb) else request

-- `snprintf` into `buf` and `Send` of as many bytes as it returns: the buffer holds 31 bytes and a NUL,
-- and there is no value where more than the buffer is sent.
unfoldable pub formatted : Text → Option Text
formatted t =
    if leb (length t) 31
    then some t
    else if length t == 32
    then some (take 31 t ++ 0 ∷ [])
    else none

one_digit : (i : ℕ) → 1 ≤ suc (suc i)
one_digit i = omega arith

length-digits : (k n i : ℕ) → n < pow10 (suc i) → length (digits k n) ≤ suc i
unfolding digits
length-digits zero n i small = omega arith
length-digits (suc k) n zero small =
    let one : ltb n 10 ≡ true = ground (arith, small) in rw one (omega arith)
length-digits (suc k) n (suc i) small =
    let front = length-digits k (n / 10) i (omega (arith, small)) in
    if-holds (ltb n 10) ((b'0' + n) ∷ []) (digits k (n / 10) ++ ((b'0' + n % 10) ∷ []))
      (λ t. length t ≤ suc (suc i)) (λ one. one_digit i)
      (λ more. omega (arith, front, length-append (digits k (n / 10)) ((b'0' + n % 10) ∷ [])))

length-number : (n : ℕ) → n ≤ 9999 → length (print_int (pos n)) ≤ 4
unfolding print_int print_nat
length-number n small = length-digits 10 n 3 (omega arith)

length-codec : (c : Codec) → length (codec_name c) ≡ 3
length-codec jpg = refl
length-codec avc = refl

length-number_2 : (n : ℕ) → n ≤ 99 → length (print_int (pos n)) ≤ 2
unfolding print_int print_nat
length-number_2 n small = length-digits 10 n 1 (omega arith)

length-wb_value : (wb : WhiteBalance) → length (wb_value wb) ≤ 16
length-wb_value auto = omega arith
length-wb_value incandescent = omega arith
length-wb_value warm_fluorescent = omega arith
length-wb_value twilight = omega arith
length-wb_value fluorescent = omega arith
length-wb_value daylight = omega arith
length-wb_value cloudy_daylight = omega arith
length-wb_value shade = omega arith

formatted-whole : (t : Text) → length t ≤ 31 → formatted t ≡ some t
unfolding formatted
formatted-whole t fits = let h : leb (length t) 31 ≡ true = ground (arith, fits) in rw h refl

video_request-short :
    (c : Codec) (w h : ℕ) → w ≤ 9999 → h ≤ 9999 → length (video_request c w h) ≤ 31
unfolding video_request
video_request-short c w h narrow low =
    let size = codes "x" ++ print_int (pos h) in
    let numbers = length-append (print_int (pos w)) size in
    let name = length-append (codec_name c) (codes "/" ++ (print_int (pos w) ++ size)) in
    omega (arith, numbers, name, length-codec c, length-number w narrow, length-number h low)

command_request-short :
    (cmd : ℕ) (wb : WhiteBalance) → cmd ≤ 11 → length (command_request cmd wb) ≤ 31
unfolding command_request
command_request-short cmd wb known =
    let number = length-number_2 cmd (omega arith) in
    let head : length (codes "CMD /v1/ctl?" ++ print_int (pos cmd)) ≤ 14 = omega (arith, number) in
    let request = codes "CMD /v1/ctl?" ++ print_int (pos cmd) in
    if-holds (cmd == cb_control_wb) (request ++ (codes "=" ++ wb_value wb)) request
      (λ t. length t ≤ 31)
      (λ e. omega (
        arith,
        number,
        length-append (print_int (pos cmd)) (codes "=" ++ wb_value wb),
        length-wb_value wb,
      ))
      (λ e. omega (arith, head))

-- Where `decoder_init` has started the decoder, the request for a stream of the webcam's size, for
-- either codec, and the request of every command, for any white balance, are sent as they are meant:
-- `snprintf` cuts nothing off, and `Send` does not read behind the buffer of 32 bytes.
pub requests_whole :
    (m : Machine) (s : Scan) (c : Codec) (fd : ℤ) (missing : Bool) (d : JpgDecoder) (cmd : ℕ)
    (wb : WhiteBalance)
    → decoder_init m s ≡ started fd missing d
    → cmd ≤ 11
    → (formatted (video_request c d.webcam_width d.webcam_height)
        ≡ some (video_request c d.webcam_width d.webcam_height))
      × (formatted (command_request cmd wb) ≡ some (command_request cmd wb))
requests_whole m s c fd missing d cmd wb begun known =
    let ready = subst IfStarted begun (decoder_init-Ready m s) in
    (
      formatted-whole _ (video_request-short c d.webcam_width d.webcam_height ready.2 ready.4),
      formatted-whole _ (command_request-short cmd wb known),
    )
