-- ===== src/Settings/Lines.antt =====
-- The successive results of `fgets` with a buffer of 512 bytes.
use droidcam_linux_client.Prelude.{
  ℕ, ◌-◌, ◌≤◌, ◌<◌, ◌≡◌, refl, false, ◌||◌, ◌==◌, if◌then◌else◌, List, [], ◌∷◌, ◌++◌, length, arith,
  ap,
}
use droidcam_linux_client.Prelude.Text.{Text}

abbrev pub line_room : ℕ
line_room = 511

-- The byte in front of what the next call would have read of the same line.
abbrev pub onto_first : ℕ → List Text → List Text
onto_first c [] = (c ∷ []) ∷ []
onto_first c (l ∷ ls) = (c ∷ l) ∷ ls

-- A call ends behind a newline, with its buffer full or at the end of the file; `room` bytes are
-- left in the buffer of the call that is at work.
unfoldable pub lines_from : ℕ → Text → List Text
lines_from room [] = []
lines_from room (c ∷ t) =
    let ends = c == b'\n' || room == 1 in
    let more = lines_from (if ends then line_room else room - 1) t in
    if ends then (c ∷ []) ∷ more else onto_first c more

unfoldable pub lines : Text → List Text
lines t = lines_from line_room t

abbrev pub NoNewline : Text → Type 0
NoNewline [] = Unit {0}
NoNewline (c ∷ t) = ((c == b'\n') ≡ false) × NoNewline t

lines_from-line :
    (room : ℕ) (l rest : Text)
    → NoNewline l
    → length l < room
    → lines_from room (l ++ b'\n' ∷ rest) ≡ (l ++ b'\n' ∷ []) ∷ lines_from line_room rest
unfolding lines_from
lines_from-line room [] rest clean short = refl
lines_from-line room (c ∷ l) rest clean short =
    let not_full : (room == 1) ≡ false = ground arith in
    rw (clean.0, not_full)
      (ap (onto_first c) (lines_from-line (room - 1) l rest clean.1 (omega arith)))

-- A line of at most 510 bytes is read at once, with its newline.
pub lines-line :
    (l rest : Text)
    → NoNewline l
    → length l ≤ 510
    → lines (l ++ b'\n' ∷ rest) ≡ (l ++ b'\n' ∷ []) ∷ lines rest
unfolding lines
lines-line l rest clean short = lines_from-line line_room l rest clean (omega arith)

pub lines-nil : lines [] ≡ []
unfolding lines lines_from
lines-nil = refl
