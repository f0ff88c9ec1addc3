-- ===== src/Prelude/Text.antt =====
-- Texts as lists of bytes, with the C library's decimal numbers: `%d` of printf and of scanf.
use Prim.Native.Char.{code}
use Prim.Native.Nat.{ℕ, zero, suc, ◌+◌, ◌-◌, ◌*◌, ◌/◌, ◌%◌, ◌^◌, ◌<◌}
use Prim.Native.String.{String}
use mathlib.Core.Bool.{Bool, true, false, ◌&&◌, ◌||◌}
use mathlib.Core.List.{List, [], ◌∷◌, ◌++◌}
use mathlib.Core.Option.{Option, none, some}
use mathlib.Core.Logic.{◌≢◌}
use mathlib.Core.Path.{◌≡◌, refl, ◌∙◌}
use native.Mathlib.Omega.{arith}
use droidcam_linux_client.Prelude.Tests.{ltb, leb, ◌==◌, if◌then◌else◌, if-holds}
use droidcam_linux_client.Prelude.Int.{ℤ, pos, negsuc}

abbrev pub Text : Type 0
Text = List ℕ

-- The bytes of an ASCII literal.
abbrev pub codes : String → Text
codes String.[] = []
codes (String.◌∷◌ c s) = code c ∷ codes s

-- `isspace`
abbrev pub is_space : ℕ → Bool
is_space c = c == 32 || (leb 9 c && leb c 13)

abbrev pub is_digit : ℕ → Bool
is_digit c = leb b'0' c && leb c b'9'

-- What stands behind a prefix, if the text has it.
abbrev pub strip : Text → Text → Option Text
strip [] t = some t
strip (c ∷ p) [] = none
strip (c ∷ p) (d ∷ t) = if c == d then strip p t else none

unfoldable pub skip_space : Text → Text
skip_space [] = []
skip_space (c ∷ t) = if is_space c then skip_space t else c ∷ t

-- The decimal digits of a number, at most `k` of them.
unfoldable pub digits : ℕ → ℕ → Text
digits zero n = []
digits (suc k) n =
    let front = digits k (n / 10) in
    if ltb n 10 then (b'0' + n) ∷ [] else front ++ ((b'0' + n % 10) ∷ [])

-- Ten digits are enough for 32 bits.
unfoldable pub print_nat : ℕ → Text
print_nat n = digits 10 n

-- `%d` of printf.
unfoldable pub print_int : ℤ → Text
print_int (pos n) = print_nat n
print_int (negsuc n) = b'-' ∷ print_nat (suc n)

-- The digits that a text begins with, read onto `n`, and the rest.
unfoldable pub scan_digits : ℕ → Text → ℕ × Text
scan_digits n [] = (n, [])
scan_digits n (c ∷ t) = if is_digit c then scan_digits (n * 10 + (c - b'0')) t else (n, c ∷ t)

abbrev pub negate : ℕ → ℤ
negate zero = pos zero
negate (suc n) = negsuc n

-- At least one digit is wanted.
unfoldable pub scan_number : (ℕ → ℤ) → Text → Option (ℤ × Text)
scan_number sign [] = none
scan_number sign (c ∷ t) =
    if is_digit c then (let (n, rest) = scan_digits 0 (c ∷ t) in some (sign n, rest)) else none

unfoldable pub scan_sign : Text → Option (ℤ × Text)
unfolding scan_number
scan_sign [] = none
scan_sign (c ∷ t) =
    if c == b'-'
    then scan_number negate t
    else if c == b'+'
    then scan_number pos t
    else scan_number pos (c ∷ t)

-- `%d` of scanf, before the number is put into an `int`.
unfoldable pub scan_int : Text → Option (ℤ × Text)
scan_int t = scan_sign (skip_space t)

abbrev pub pow10 : ℕ → ℕ
pow10 zero = 1
pow10 (suc k) = 10 * pow10 k

abbrev pub AllDigits : Text → Type 0
AllDigits [] = Unit {0}
AllDigits (c ∷ t) = (is_digit c ≡ true) × AllDigits t

-- The text goes on with no digit.
abbrev pub NoDigit : Text → Type 0
NoDigit [] = Unit {0}
NoDigit (c ∷ t) = is_digit c ≡ false

AllDigits-append : (s t : Text) → AllDigits s → AllDigits t → AllDigits (s ++ t)
AllDigits-append [] t hs ht = ht
AllDigits-append (c ∷ s) t hs ht = (hs.0, AllDigits-append s t hs.1 ht)

pub digits-AllDigits : (k n : ℕ) → AllDigits (digits k n)
unfolding digits
digits-AllDigits zero n = tt
digits-AllDigits (suc k) n =
    if-holds (ltb n 10) _ _ AllDigits (λ small. (ground arith, tt))
      (λ large.
        AllDigits-append (digits k (n / 10)) ((b'0' + n % 10) ∷ []) (digits-AllDigits k (n / 10))
          (ground arith, tt))

-- The value of digits.
abbrev pub value : ℕ → Text → ℕ
value n [] = n
value n (c ∷ t) = value (n * 10 + (c - b'0')) t

value-append : (n : ℕ) (s t : Text) → value n (s ++ t) ≡ value (value n s) t
value-append n [] t = refl
value-append n (c ∷ s) t = value-append (n * 10 + (c - b'0')) s t

value-digits : (k n : ℕ) → n < pow10 k → value 0 (digits k n) ≡ n
unfolding digits
value-digits zero n small = omega arith
value-digits (suc k) n small =
    if-holds (ltb n 10) ((b'0' + n) ∷ []) (digits k (n / 10) ++ ((b'0' + n % 10) ∷ []))
      (λ t. value 0 t ≡ n) (λ one_digit. omega arith)
      (λ more.
        value-append 0 (digits k (n / 10)) ((b'0' + n % 10) ∷ [])
        ∙ rw (value-digits k (n / 10) (omega arith)) (omega arith))

scan_digits-AllDigits :
    (s rest : Text) (n : ℕ)
    → AllDigits s
    → NoDigit rest
    → scan_digits n (s ++ rest) ≡ (value n s, rest)
unfolding scan_digits
scan_digits-AllDigits [] [] n all stop = refl
scan_digits-AllDigits [] (c ∷ rest) n all stop = rw stop
scan_digits-AllDigits (c ∷ s) rest n all stop =
    rw (all.0) (scan_digits-AllDigits s rest (n * 10 + (c - b'0')) all.1 stop)

scan_number_lem :
    (sign : ℕ → ℤ) (s rest : Text)
    → s ≢ []
    → AllDigits s
    → NoDigit rest
    → scan_number sign (s ++ rest) ≡ some (sign (value 0 s), rest)
unfolding scan_number
scan_number_lem sign [] rest ne all stop = absurd (ne refl)
scan_number_lem sign (c ∷ s) rest ne all stop =
    rw (all.0, scan_digits-AllDigits (c ∷ s) rest 0 all stop)

snoc-ne-nil : (t : Text) (c : ℕ) → t ++ c ∷ [] ≢ []
snoc-ne-nil [] c e = cc
snoc-ne-nil (d ∷ t) c e = cc

digits-ne-nil : (k n : ℕ) → digits (suc k) n ≢ []
unfolding digits
digits-ne-nil k n =
    if-holds (ltb n 10) ((b'0' + n) ∷ []) (digits k (n / 10) ++ ((b'0' + n % 10) ∷ []))
      (λ t. t ≢ []) (λ one_digit e. cc) (λ more. snoc-ne-nil (digits k (n / 10)) (b'0' + n % 10))

scan_number-digits :
    (sign : ℕ → ℤ) (n : ℕ) (rest : Text)
    → n < pow10 10
    → NoDigit rest
    → scan_number sign (print_nat n ++ rest) ≡ some (sign n, rest)
unfolding print_nat
scan_number-digits sign n rest small stop =
    scan_number_lem sign (digits 10 n) rest (digits-ne-nil 9 n) (digits-AllDigits 10 n) stop
    ∙ rw (value-digits 10 n small)

-- A text that begins with a digit is read as a number with no sign.
scan_int-digit :
    (s rest : Text) → s ≢ [] → AllDigits s → scan_int (s ++ rest) ≡ scan_number pos (s ++ rest)
unfolding scan_int scan_sign skip_space
scan_int-digit [] rest ne all = absurd (ne refl)
scan_int-digit (c ∷ s) rest ne all =
    let not_space : is_space c ≡ false = ground (arith, all.0) in
    let no_minus : (c == b'-') ≡ false = ground (arith, all.0) in
    let no_plus : (c == b'+') ≡ false = ground (arith, all.0) in
    rw (not_space, scan_sign, no_minus, no_plus)

scan_int-minus :
    (n : ℕ) (rest : Text)
    → n < pow10 10
    → NoDigit rest
    → scan_int (b'-' ∷ print_nat n ++ rest) ≡ some (negate n, rest)
unfolding scan_int scan_sign skip_space
scan_int-minus n rest small stop = scan_number-digits negate n rest small stop

-- The value of an `int`.
abbrev pub is_int : ℤ → Bool
is_int (pos n) = ltb n (2 ^ 31)
is_int (negsuc n) = ltb n (2 ^ 31)

-- What `%d` prints `%d` reads, whatever stands behind it but a digit.
pub scan_int-print_int :
    (z : ℤ) (rest : Text)
    → is_int z ≡ true
    → NoDigit rest
    → scan_int (print_int z ++ rest) ≡ some (z, rest)
unfolding print_int print_nat
scan_int-print_int (pos n) rest small stop =
    scan_int-digit (print_nat n) rest (digits-ne-nil 9 n) (digits-AllDigits 10 n)
    ∙ scan_number-digits pos n rest (ground arith) stop
scan_int-print_int (negsuc n) rest small stop = scan_int-minus (suc n) rest (ground arith) stop
