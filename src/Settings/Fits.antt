-- ===== src/Settings/Fits.antt =====
-- The lines that `SaveSettings` writes are short enough for `fgets`.
use droidcam_linux_client.Prelude.{
  ℕ, zero, suc, ◌+◌, ◌/◌, ◌%◌, ◌≤◌, ◌<◌, ◌^◌, ◌≡◌, refl, Bool, true, false, not, ◌&&◌, ◌==◌, List,
  [], ◌∷◌, ◌++◌, map, length, length-append, arith, ◌∙◌,
}
use droidcam_linux_client.Prelude.Int.{ℤ, pos, negsuc}
use droidcam_linux_client.Prelude.Text.{
  Text, codes, is_space, AllDigits, is_int, print_int, print_nat, digits, digits-AllDigits,
}
use droidcam_linux_client.Settings.Defs.{Settings}
use droidcam_linux_client.Settings.Lines.{lines, NoNewline, lines-line, lines-nil}
use droidcam_linux_client.Settings.Save.{as_int, int_line, size_line, saved_lines, join_lines}

NoNewline-append : (s t : Text) → NoNewline s → NoNewline t → NoNewline (s ++ t)
NoNewline-append [] t hs ht = ht
NoNewline-append (c ∷ s) t hs ht = (hs.0, NoNewline-append s t hs.1 ht)

AllDigits-NoNewline : (s : Text) → AllDigits s → NoNewline s
AllDigits-NoNewline [] all = tt
AllDigits-NoNewline (c ∷ s) all = (ground (arith, all.0), AllDigits-NoNewline s all.1)

length-digits : (k n : ℕ) → length (digits k n) ≤ k
unfolding digits
length-digits zero n = omega arith
length-digits (suc k) n =
    ground
      (arith, length-digits k (n / 10), length-append (digits k (n / 10)) ((b'0' + n % 10) ∷ []))

-- What may stand in a line: no newline, and at most `k` bytes.
abbrev pub Fits : ℕ → Text → Type 0
Fits k t = NoNewline t × (length t ≤ k)

print_nat-Fits : (n : ℕ) → Fits 10 (print_nat n)
unfolding print_nat
print_nat-Fits n = (AllDigits-NoNewline _ (digits-AllDigits 10 n), length-digits 10 n)

pub print_int-Fits : (z : ℤ) → Fits 11 (print_int z)
unfolding print_int
print_int-Fits (pos n) = ((print_nat-Fits n).0, omega (arith, (print_nat-Fits n).1))
print_int-Fits (negsuc n) =
    ((refl, (print_nat-Fits (suc n)).0), omega (arith, (print_nat-Fits (suc n)).1))

append-Fits : (j k : ℕ) (s t : Text) → Fits j s → Fits k t → Fits (j + k) (s ++ t)
append-Fits j k s t fs ft =
    (NoNewline-append s t fs.0 ft.0, omega (arith, length-append s t, fs.1, ft.1))

abbrev pub AllFit : List Text → Type 0
AllFit [] = Unit {0}
AllFit (l ∷ ls) = Fits 510 l × AllFit ls

-- The lines that are written are the lines that are read.
pub lines-join_lines :
    (ls : List Text) → AllFit ls → lines (join_lines ls) ≡ map (λ l. l ++ b'\n' ∷ []) ls
lines-join_lines [] fit = lines-nil
lines-join_lines (l ∷ ls) fit =
    lines-line l (join_lines ls) fit.0.0 fit.0.1 ∙ rw (lines-join_lines ls fit.1)

abbrev pub NoSpace : Text → Type 0
NoSpace [] = Unit {0}
NoSpace (c ∷ t) = (is_space c ≡ false) × NoSpace t

pub NoSpace-NoNewline : (t : Text) → NoSpace t → NoNewline t
NoSpace-NoNewline [] clean = tt
NoSpace-NoNewline (c ∷ t) clean = (ground (arith, clean.0), NoSpace-NoNewline t clean.1)

-- Settings that fit the format: an address of at most 15 bytes with no space in it, which may be
-- empty, numbers of an `int`, and a positive size.
pub record IsStorable (s : Settings) : Type 0 where
  pub address : NoSpace s.ip
  pub short : length s.ip ≤ 15
  pub port : is_int s.port ≡ true
  pub audio : is_int s.audio ≡ true
  pub video : is_int s.video ≡ true
  pub connection : is_int s.connection ≡ true
  pub confirm_close : is_int s.confirm_close ≡ true
  pub vertical_flip : is_int s.vertical_flip ≡ true
  pub horizontal_flip : is_int s.horizontal_flip ≡ true
  pub wide : 0 < s.v4l2_width
  pub high : 0 < s.v4l2_height
  pub narrow : s.v4l2_width < 2 ^ 31
  pub low : s.v4l2_height < 2 ^ 31

-- A name of the format.
abbrev pub is_name : Text → Bool
is_name [] = true
is_name (c ∷ t) = not (c == b'\n') && is_name t

pub NoNewline-name : (t : Text) → is_name t ≡ true → NoNewline t
NoNewline-name [] h = tt
NoNewline-name (c ∷ t) h = (ground arith, NoNewline-name t (ground arith))

int_line-Fits :
    (name : Text) (z : ℤ) → is_name name ≡ true → length name ≤ 20 → Fits 510 (int_line name z)
int_line-Fits name z clean short =
    let g =
      append-Fits 20 11 name (print_int z) (NoNewline-name name clean, short) (print_int-Fits z) in
    (g.0, omega (arith, g.1))

ip_line-Fits : (t : Text) → NoSpace t → length t ≤ 15 → Fits 510 (codes "ip=" ++ t)
ip_line-Fits t clean short = ((refl, (refl, (refl, NoSpace-NoNewline t clean))), omega arith)

size_line-Fits : (w h : ℕ) → Fits 510 (size_line w h)
size_line-Fits w h =
    let high =
      append-Fits 1 11 (codes "x") (print_int (as_int h)) ((refl, tt), omega arith)
        (print_int-Fits (as_int h)) in
    let both =
      append-Fits 11 12 (print_int (as_int w)) (codes "x" ++ print_int (as_int h))
        (print_int-Fits (as_int w)) high in
    let all =
      append-Fits 20 23 (codes "size=") _ (NoNewline-name (codes "size=") refl, omega arith) both in
    (all.0, omega (arith, all.1))

pub saved-AllFit : (s : Settings) → IsStorable s → AllFit (saved_lines s)
saved-AllFit s ok = (
  int_line-Fits (codes "v") (pos 4) refl (omega arith),
  (
    ip_line-Fits s.ip ok.address ok.short,
    (
      int_line-Fits (codes "port=") s.port refl (omega arith),
      (
        int_line-Fits (codes "audio=") s.audio refl (omega arith),
        (
          int_line-Fits (codes "video=") s.video refl (omega arith),
          (
            size_line-Fits s.v4l2_width s.v4l2_height,
            (
              int_line-Fits (codes "confirm_close=") s.confirm_close refl (omega arith),
              (
                int_line-Fits (codes "vertical_flip=") s.vertical_flip refl (omega arith),
                (
                  int_line-Fits (codes "horizontal_flip=") s.horizontal_flip refl (omega arith),
                  (int_line-Fits (codes "type=") s.connection refl (omega arith), tt),
                ),
              ),
            ),
          ),
        ),
      ),
    ),
  ),
)
