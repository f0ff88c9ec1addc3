-- ===== src/Battery/Label.antt =====
-- What the battery label holds.
use droidcam_linux_client.Prelude.{
  ℕ, zero, suc, ◌+◌, ◌≤◌, ◌<◌, ◌≡◌, refl, true, false, List, [], ◌∷◌, ◌++◌, length, length-append,
  arith, ap,
}
use droidcam_linux_client.Battery.{
  is_digit, at_blank_line, skip_header, read_digits, or_dash, battery_label,
}

length-read_digits : (n : ℕ) (rest : List ℕ) → length (read_digits n rest) ≤ n
unfolding read_digits
length-read_digits zero rest = omega arith
length-read_digits (suc n) [] = omega arith
length-read_digits (suc n) (c ∷ rest) = ground (arith, length-read_digits n rest)

length-or_dash : (value : List ℕ) (n : ℕ) → length value ≤ n → 1 ≤ n → length (or_dash value) ≤ n
length-or_dash [] n h one = one
length-or_dash (c ∷ value) n h one = h

abbrev pub AllDigits : List ℕ → Type 0
AllDigits [] = Unit {0}
AllDigits (c ∷ l) = (is_digit c ≡ true) × AllDigits l

-- No blank line begins in the header, which stands before `after`.
abbrev pub NoBlankLine : List ℕ → List ℕ → Type 0
NoBlankLine [] after = Unit {0}
NoBlankLine (c ∷ header) after =
    (at_blank_line ((c ∷ header) ++ after) ≡ false) × NoBlankLine header after

abbrev pub blank_line : List ℕ
blank_line = 13 ∷ 10 ∷ 13 ∷ 10 ∷ []

skip_header_lem :
    (k : ℕ) (header body : List ℕ)
    → NoBlankLine header (blank_line ++ body)
    → length header < k
    → skip_header k (header ++ (blank_line ++ body)) ≡ body
unfolding skip_header
skip_header_lem zero header body clean short = absurd (omega arith)
skip_header_lem (suc k) [] body clean short = refl
skip_header_lem (suc k) (c ∷ header) body clean short =
    rw (clean.0) (skip_header_lem k header body clean.1 (omega arith))

-- The text behind the digits does not go on with a digit.
abbrev pub NoDigit : List ℕ → Type 0
NoDigit [] = Unit {0}
NoDigit (c ∷ rest) = is_digit c ≡ false

read_digits_lem :
    (n : ℕ) (digits rest : List ℕ)
    → AllDigits digits
    → NoDigit rest
    → length digits ≤ n
    → read_digits n (digits ++ rest) ≡ digits
unfolding read_digits
read_digits_lem zero [] rest all no_more few = refl
read_digits_lem zero (c ∷ digits) rest all no_more few = absurd (omega arith)
read_digits_lem (suc n) [] [] all no_more few = refl
read_digits_lem (suc n) [] (c ∷ rest) all no_more few = rw no_more
read_digits_lem (suc n) (c ∷ digits) rest all no_more few =
    rw (all.0) (ap (λ l. c ∷ l) (read_digits_lem n digits rest all.1 no_more (omega arith)))

-- For every buffer the label and its NUL fit the 32 bytes of `battery_value`.
battery_label_fits : (buf : List ℕ) → length (battery_label buf) + 1 ≤ 32
unfolding battery_label
battery_label_fits buf =
    let digits = read_digits 30 (skip_header 124 buf) in
    omega (
      arith,
      length-append (or_dash digits) (b'%' ∷ []),
      length-or_dash digits 30 (length-read_digits 30 (skip_header 124 buf)) (omega arith),
    )

-- For a buffer that holds a header of fewer than 124 bytes in which no blank line begins, a blank
-- line, and at most 30 digits with no digit behind them, the label is those digits and a percent
-- sign, with a dash in place of the digits if there are none.
pub battery_label_lem :
    (header digits rest : List ℕ)
    → NoBlankLine header (blank_line ++ (digits ++ rest))
    → length header < 124
    → AllDigits digits
    → NoDigit rest
    → length digits ≤ 30
    → battery_label (header ++ (blank_line ++ (digits ++ rest))) ≡ or_dash digits ++ b'%' ∷ []
unfolding battery_label
battery_label_lem header digits rest clean short all no_more few = rw (
  skip_header_lem 124 header (digits ++ rest) clean short,
  read_digits_lem 30 digits rest all no_more few,
)
