-- ===== src/Battery.antt =====
-- `BatteryThreadProc` of src/av.c: the request for the phone's battery level and its answer.
pub mod Label
pub mod Thread
mod Tests
use droidcam_linux_client.Prelude.{
  ℕ, zero, suc, Bool, true, false, not, ◌&&◌, ◌||◌, ◌==◌, leb, if◌then◌else◌, Option, none, some,
  List, [], ◌∷◌, ◌++◌, drop,
}

abbrev pub is_digit : ℕ → Bool
is_digit c = leb b'0' c && leb c b'9'

-- `\r\n\r\n` stands here.
abbrev pub at_blank_line : List ℕ → Bool
at_blank_line (a ∷ b ∷ c ∷ d ∷ rest) = a == 13 && b == 10 && c == 13 && d == 10
at_blank_line _ = false

abbrev pub tail : List ℕ → List ℕ
tail [] = []
tail (c ∷ rest) = rest

-- The `for` loop over the buffer: what stands behind the blank line, or at the index where the
-- rounds end.
unfoldable pub skip_header : ℕ → List ℕ → List ℕ
skip_header zero rest = rest
skip_header (suc k) rest =
    let later = skip_header k (tail rest) in if at_blank_line rest then drop 4 rest else later

-- The `while` loop: the digits here, at most `n`.
unfoldable pub read_digits : ℕ → List ℕ → List ℕ
read_digits zero rest = []
read_digits (suc n) [] = []
read_digits (suc n) (c ∷ rest) = if is_digit c then c ∷ read_digits n rest else []

abbrev pub or_dash : List ℕ → List ℕ
or_dash [] = b'-' ∷ []
or_dash (c ∷ value) = c ∷ value

-- `battery_value` up to its NUL, from a buffer of 128 bytes into one of 32.
unfoldable pub battery_label : List ℕ → List ℕ
battery_label buf = or_dash (read_digits 30 (skip_header 124 buf)) ++ b'%' ∷ []

-- What one round of the thread meets: whether a stream is active, whether a connection is there,
-- whether `Send` and `RecvAll` succeed, and the buffer, zero behind what was received.
pub record Round : Type 0 where
  pub active : Bool
  pub connected : Bool
  pub sent : Bool
  pub received : Bool
  pub buffer : List ℕ

-- What a round does: the label it shows, and whether it disconnects and pauses.
pub record Report : Type 0 where
  pub label : Option (List ℕ)
  pub disconnected : Bool

unfoldable pub battery_round : Round → Report
battery_round r =
    if not r.active
    then record { label = none; disconnected = false }
    else if not r.connected || not r.sent || not r.received
    then record { label = none; disconnected = true }
    else record { label = some (battery_label r.buffer); disconnected = true }
