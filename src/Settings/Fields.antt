-- ===== src/Settings/Fields.antt =====
-- What `LoadSettings` makes of each line that `SaveSettings` writes.
use droidcam_linux_client.Prelude.{
  ℕ, zero, suc, ◌≤◌, ◌<◌, ◌^◌, ◌≡◌, refl, true, ==_self, ltb, lt→ltb, none, some, List, [], ◌∷◌,
  ◌++◌, length, append_assoc, arith, ap, ◌∙◌,
}
use droidcam_linux_client.Prelude.Int.{ℤ, pos}
use droidcam_linux_client.Prelude.Text.{
  Text, codes, strip, skip_space, is_int, print_int, scan_int-print_int,
}
use droidcam_linux_client.Settings.Defs.{Settings, Overflow}
use droidcam_linux_client.Settings.Load.{
  Setter, scan_field, word, scan_ip, scan_size, assign, read_field, fields_before, fields_behind,
  load_4,
}
use droidcam_linux_client.Settings.Save.{int_line, size_line}
use droidcam_linux_client.Settings.Fits.{NoSpace}

strip-append : (name t : Text) → strip name (name ++ t) ≡ some t
strip-append [] t = refl
strip-append (c ∷ name) t = rw (==_self c) (strip-append name t)

abbrev pub newline : Text
newline = b'\n' ∷ []

abbrev pub ip_or : Text → Text → Text
ip_or [] old = old
ip_or (c ∷ t) old = c ∷ t

size_line_lem :
    (w h : ℕ)
    → w < 2 ^ 31
    → h < 2 ^ 31
    → size_line w h ++ newline
      ≡ codes "size=" ++ (print_int (pos w) ++ (codes "x" ++ (print_int (pos h) ++ newline)))
size_line_lem w h narrow low =
    rw (lt→ltb w (2 ^ 31) narrow, lt→ltb h (2 ^ 31) low)
      (ap (λ t. codes "size=" ++ t)
        (append_assoc (print_int (pos w)) (codes "x" ++ print_int (pos h)) newline))

module _ (o : Overflow) where
  scan_size_lem :
      (w h : ℕ)
      → 0 < w
      → 0 < h
      → w < 2 ^ 31
      → h < 2 ^ 31
      → scan_size o
          (codes "size=" ++ (print_int (pos w) ++ (codes "x" ++ (print_int (pos h) ++ newline))))
        ≡ some (w, h)
  unfolding scan_size
  scan_size_lem zero h wide high narrow low = absurd (omega arith)
  scan_size_lem w zero wide high narrow low = absurd (omega arith)
  scan_size_lem (suc w) (suc h) wide high narrow low =
      let small_w : ltb (suc w) (2 ^ 31) ≡ true = lt→ltb _ _ narrow in
      let small_h : ltb (suc h) (2 ^ 31) ≡ true = lt→ltb _ _ low in
      rw (
        scan_size,
        scan_int-print_int (pos (suc w)) (codes "x" ++ (print_int (pos (suc h)) ++ newline)) small_w
            refl,
        scan_int-print_int (pos (suc h)) newline small_h refl,
        small_w,
        small_h,
      )

  pub scan_field-line :
      (name : Text) (z : ℤ)
      → is_int z ≡ true
      → scan_field o name (int_line name z ++ newline) ≡ some z
  unfolding scan_field
  scan_field-line name z small = rw (
    scan_field,
    append_assoc name (print_int z) newline,
    strip-append name (print_int z ++ newline),
    scan_int-print_int z newline small refl,
    small,
  )

  scan_size-line :
      (w h : ℕ)
      → 0 < w
      → 0 < h
      → w < 2 ^ 31
      → h < 2 ^ 31
      → scan_size o (size_line w h ++ newline) ≡ some (w, h)
  scan_size-line w h wide high narrow low =
      ap (scan_size o) (size_line_lem w h narrow low) ∙ scan_size_lem w h wide high narrow low

  word-ip : (k : ℕ) (t : Text) → NoSpace t → length t ≤ k → word (suc k) (t ++ newline) ≡ t
  word-ip k [] clean short = refl
  word-ip zero (c ∷ t) clean short = absurd (omega arith)
  word-ip (suc k) (c ∷ t) clean short =
      rw (clean.0) (ap (λ l. c ∷ l) (word-ip k t clean.1 (omega arith)))

  pub load_4-ip :
      (t : Text) (ls : List Text) (s : Settings)
      → NoSpace t
      → length t ≤ 15
      → load_4 o ((codes "ip=" ++ t ++ newline) ∷ ls) s
        ≡ load_4 o ls (record s { ip = ip_or t s.ip })
  unfolding load_4 scan_ip skip_space read_field assign scan_field scan_size
  load_4-ip [] ls s clean short = refl
  load_4-ip (c ∷ t) ls s clean short =
      let r : word 16 (c ∷ t ++ newline) ≡ c ∷ t = word-ip 15 (c ∷ t) clean short in
      let fits : ltb (length (c ∷ t)) 16 ≡ true = lt→ltb _ _ (omega arith) in
      rw (
        load_4,
        scan_ip,
        clean.0,
        clean.0,
        word-ip 14 t clean.1 (omega arith),
        fits,
        word-ip 14 t clean.1 (omega arith),
      )

  -- A line that holds no address, for a field of the version 4 format.
  load_4-field :
      (t : Text) (ls : List Text) (s r : Settings)
      → scan_ip t ≡ none
      → read_field o t s ≡ r
      → load_4 o (t ∷ ls) s ≡ load_4 o ls r
  unfolding load_4
  load_4-field t ls s r no_ip assigned = rw (load_4, no_ip, assigned)

  -- The names in front of the one that the line has.
  abbrev pub Missing : List (Text × Setter) → Text → Type 0
  Missing [] t = Unit {0}
  Missing ((name, set) ∷ fields) t = (strip name t ≡ none) × Missing fields t

  assign-Missing :
      (pre post : List (Text × Setter)) (name : Text) (set : Setter) (z : ℤ) (s : Settings)
      → is_int z ≡ true
      → Missing pre (int_line name z ++ newline)
      → assign o (pre ++ (name, set) ∷ post) (int_line name z ++ newline) s ≡ some (set z s)
  unfolding assign
  assign-Missing [] post name set z s small others = rw (assign, scan_field-line name z small)
  assign-Missing ((n, f) ∷ pre) post name set z s small others =
      let miss : scan_field o n (int_line name z ++ newline) ≡ none =
        unfold scan_field in rw (scan_field, others.0) in
      rw (assign, miss) (assign-Missing pre post name set z s small others.1)

  assign-none :
      (fields : List (Text × Setter)) (t : Text) (s : Settings)
      → Missing fields t
      → assign o fields t s ≡ none
  unfolding assign
  assign-none [] t s others = refl
  assign-none ((n, f) ∷ fields) t s others =
      let miss : scan_field o n t ≡ none = unfold scan_field in rw (scan_field, others.0) in
      rw (assign, miss) (assign-none fields t s others.1)

  -- The line of a field in front of the size.
  pub load_4-before :
      (pre post : List (Text × Setter)) (name : Text) (set : Setter) (z : ℤ) (ls : List Text)
      (s : Settings)
      → fields_before ≡ pre ++ (name, set) ∷ post
      → is_int z ≡ true
      → Missing ((codes "ip=", set) ∷ pre) (int_line name z ++ newline)
      → load_4 o ((int_line name z ++ newline) ∷ ls) s ≡ load_4 o ls (set z s)
  unfolding load_4 scan_ip read_field
  load_4-before pre post name set z ls s split small others = rw (
    load_4,
    scan_ip,
    others.0,
    read_field,
    split,
    assign-Missing pre post name set z s small others.1,
  )

  pub load_4-behind :
      (pre post : List (Text × Setter)) (name : Text) (set : Setter) (z : ℤ) (ls : List Text)
      (s : Settings)
      → fields_behind ≡ pre ++ (name, set) ∷ post
      → is_int z ≡ true
      → Missing ((codes "ip=", set) ∷ fields_before) (int_line name z ++ newline)
      → Missing ((codes "size=", set) ∷ pre) (int_line name z ++ newline)
      → load_4 o ((int_line name z ++ newline) ∷ ls) s ≡ load_4 o ls (set z s)
  unfolding load_4 scan_ip read_field
  load_4-behind pre post name set z ls s split small before behind =
      let line : Text = int_line name z ++ newline in
      let no_field : assign o fields_before line s ≡ none =
        assign-none fields_before line s before.1 in
      let no_size : scan_size o line ≡ none = unfold scan_size in rw (scan_size, behind.0) in
      let found : assign o fields_behind line s ≡ some (set z s) =
        rw split (assign-Missing pre post name set z s small behind.1) in
      rw (load_4, scan_ip, before.0, read_field, no_field, no_size, found)

  pub load_4-size :
      (w h : ℕ) (ls : List Text) (s : Settings)
      → 0 < w
      → 0 < h
      → w < 2 ^ 31
      → h < 2 ^ 31
      → load_4 o ((size_line w h ++ newline) ∷ ls) s
        ≡ load_4 o ls (record s { v4l2_width = w; v4l2_height = h })
  unfolding load_4 scan_ip read_field
  load_4-size w h ls s wide high narrow low =
      let line : Text = size_line w h ++ newline in
      let no_field : assign o fields_before line s ≡ none =
        assign-none fields_before line s (refl, (refl, (refl, tt))) in
      rw (load_4, scan_ip, read_field, no_field, scan_size-line w h wide high narrow low)
