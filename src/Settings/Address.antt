-- ===== src/Settings/Address.antt =====
-- The address that `LoadSettings` reads.
use droidcam_linux_client.Prelude.{
  ℕ, zero, suc, ◌≤◌, ◌<◌, ◌^◌, lt→ltb, ◌≡◌, ◌⊎◌, inl, inr, refl, true, false, ltb, Option-cases,
  some, List, [], ◌∷◌, ◌++◌, take, length, length-append, length-take, arith, ap, ◌∙◌,
}
use droidcam_linux_client.Prelude.Int.{ℤ, pos}
use droidcam_linux_client.Prelude.Text.{Text, codes, print_int, skip_space}
use droidcam_linux_client.Settings.Defs.{Settings, defaults, Overflow}
use droidcam_linux_client.Settings.Lines.{lines, NoNewline, lines-line}
use droidcam_linux_client.Settings.Fits.{NoSpace, NoSpace-NoNewline, Fits, print_int-Fits}
use droidcam_linux_client.Settings.Fields.{newline, scan_field-line}
use droidcam_linux_client.Settings.Load.{
  Setter, set_port, set_audio, set_video, set_connection, loaded, overrun, not_empty, word,
  scan_field, scan_ip, read_ip, read_port, read_int, load_1, load_2, load_3, load_4, load_version,
  load_lines, load_settings,
}

-- A file of a version, with an address line and any rest.
abbrev pub file_of : ℕ → Text → Text → Text
file_of version line rest = (codes "v" ++ print_int (pos version)) ++ b'\n' ∷ (line ++ b'\n' ∷ rest)

small_version : (v : ℕ) → v ≤ 9 → Fits 510 (codes "v" ++ print_int (pos v))
small_version v small = let f = print_int-Fits (pos v) in ((refl, f.0), omega (arith, f.1))

lines-file_of :
    (v : ℕ) (line rest : Text)
    → v ≤ 9
    → NoNewline line
    → length line ≤ 510
    → lines (file_of v line rest)
      ≡ ((codes "v" ++ print_int (pos v)) ++ newline) ∷ (line ++ newline) ∷ lines rest
lines-file_of v line rest small clean short =
    let f = small_version v small in
    lines-line (codes "v" ++ print_int (pos v)) (line ++ b'\n' ∷ rest) f.0 f.1
    ∙ rw (lines-line line rest clean short)

load-file_of :
    (o : Overflow) (v : ℕ) (line rest : Text)
    → v ≤ 9
    → NoNewline line
    → length line ≤ 510
    → load_settings o (some (file_of v line rest))
      ≡ load_version o (pos v) ((line ++ newline) ∷ lines rest) defaults
unfolding load_settings load_lines
load-file_of o v line rest small clean short =
    let fits : ltb v (2 ^ 31) ≡ true = lt→ltb _ _ (omega arith) in
    rw (lines-file_of v line rest small clean short, scan_field-line o (codes "v") (pos v) fits)

word-full : (k : ℕ) (t rest : Text) → NoSpace t → k ≤ length t → word k (t ++ rest) ≡ take k t
word-full zero t rest clean long = refl
word-full (suc k) [] rest clean long = absurd (omega arith)
word-full (suc k) (c ∷ t) rest clean long =
    rw (clean.0) (ap (λ l. c ∷ l) (word-full k t rest clean.1 (omega arith)))

skip_space-NoSpace : (t rest : Text) → NoSpace t → 1 ≤ length t → skip_space (t ++ rest) ≡ t ++ rest
unfolding skip_space
skip_space-NoSpace [] rest clean long = absurd (omega arith)
skip_space-NoSpace (c ∷ t) rest clean long = rw (clean.0)

not_empty-take : (t : Text) → 16 ≤ length t → not_empty (take 16 t) ≡ some (take 16 t)
not_empty-take [] long = absurd (omega arith)
not_empty-take (c ∷ t) long = refl

scan_ip-long :
    (t : Text)
    → NoSpace t
    → 16 ≤ length t
    → scan_ip ((codes "ip=" ++ t) ++ newline) ≡ some (take 16 t)
unfolding scan_ip
scan_ip-long t clean long =
    rw
      (scan_ip, skip_space-NoSpace t newline clean (omega arith), word-full 16 t newline clean long)
      (not_empty-take t long)

-- A file whose first line is "v4" and whose second line is "ip=" with an address of at least 16 and
-- at most 500 bytes behind it, none of them white space, makes `LoadSettings` write behind the end
-- of `settings.ip`, whatever stands in the lines that follow.
pub long_address_overruns :
    (o : Overflow) (t rest : Text)
    → NoSpace t
    → 16 ≤ length t
    → length t ≤ 500
    → load_settings o (some (file_of 4 (codes "ip=" ++ t) rest)) ≡ overrun
unfolding load_version load_4
long_address_overruns o t rest clean long short =
    load-file_of o 4 (codes "ip=" ++ t) rest (omega arith)
      (refl, (refl, (refl, NoSpace-NoNewline t clean))) (omega arith)
    ∙ (let full : ltb (length (take 16 t)) 16 ≡ false = ground (arith, length-take 16 t) in
        rw (load_4, scan_ip-long t clean long, full))

take-all : (k : ℕ) (t : Text) → length t ≤ k → take k t ≡ t
take-all zero [] short = refl
take-all zero (c ∷ t) short = absurd (omega arith)
take-all (suc k) [] short = refl
take-all (suc k) (c ∷ t) short = ap (λ l. c ∷ l) (take-all k t (omega arith))

read_int-ip :
    (o : Overflow) (set : Setter) (r : List Text × Settings)
    → ((z : ℤ) (s : Settings) → (set z s).ip ≡ s.ip)
    → (read_int o set r).1.ip ≡ r.1.ip
unfolding read_int
read_int-ip o set ([], s) keep = refl
read_int-ip o set (l ∷ ls, s) keep = elim (Option-cases (scan_field o [] l)) [
  | inl no_number ↦ rw (read_int, no_number)
  | inr (v, number) ↦ rw (read_int, number) (keep v s)
]

load_2-ip :
    (o : Overflow) (l : Text) (ls : List Text) (s : Settings)
    → (load_2 o (l ∷ ls, s)).ip ≡ take 15 l
unfolding load_2
load_2-ip o l ls s =
    read_int-ip o set_connection _ (λ z s. refl)
    ∙ read_int-ip o set_audio _ (λ z s. refl)
    ∙ read_int-ip o set_port _ (λ z s. refl)

load_3-ip :
    (o : Overflow) (l : Text) (ls : List Text) (s : Settings)
    → (load_3 o (l ∷ ls, s)).ip ≡ take 15 l
unfolding load_3
load_3-ip o l ls s =
    read_int-ip o set_connection _ (λ z s. refl)
    ∙ read_int-ip o set_video _ (λ z s. refl)
    ∙ read_int-ip o set_audio _ (λ z s. refl)
    ∙ read_int-ip o set_port _ (λ z s. refl)

load_1-ip : (l : Text) (ls : List Text) (s : Settings) → (load_1 (l ∷ ls, s)).ip ≡ take 15 l
unfolding load_1 read_ip read_port
load_1-ip l [] s = refl
load_1-ip l (m ∷ ls) s = refl

load_version-old :
    (o : Overflow) (v : ℕ) (l : Text) (ls : List Text)
    → (v ≡ 1) ⊎ ((v ≡ 2) ⊎ (v ≡ 3))
    → (s : Settings) × (load_version o (pos v) (l ∷ ls) defaults ≡ loaded s) × (s.ip ≡ take 15 l)
unfolding load_version
load_version-old o v l ls (inl one) =
    rw one (load_1 (l ∷ ls, defaults), refl, load_1-ip l ls defaults)
load_version-old o v l ls (inr (inl two)) =
    rw two (load_2 o (l ∷ ls, defaults), refl, load_2-ip o l ls defaults)
load_version-old o v l ls (inr (inr three)) =
    rw three (load_3 o (l ∷ ls, defaults), refl, load_3-ip o l ls defaults)

old-small : (v : ℕ) → (v ≡ 1) ⊎ ((v ≡ 2) ⊎ (v ≡ 3)) → v ≤ 9
old-small v (inl e) = omega arith
old-small v (inr (inl e)) = omega arith
old-small v (inr (inr e)) = omega arith

-- From a file of the versions 1 to 3 the address is loaded with the newline behind it, if it is
-- shorter than 15 bytes.
pub old_address_keeps_newline :
    (o : Overflow) (v : ℕ) (t rest : Text)
    → (v ≡ 1) ⊎ ((v ≡ 2) ⊎ (v ≡ 3))
    → NoNewline t
    → length t < 15
    → (s : Settings) × (load_settings o (some (file_of v t rest)) ≡ loaded s)
      × (s.ip ≡ t ++ newline)
old_address_keeps_newline o v t rest old clean short =
    let (s, done, ip) = load_version-old o v (t ++ newline) (lines rest) old in
    let small : v ≤ 9 = old-small v old in
    (
      s,
      load-file_of o v t rest small clean (omega arith) ∙ done,
      ip ∙ take-all 15 (t ++ newline) (omega (arith, length-append t newline)),
    )
