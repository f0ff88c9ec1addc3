-- ===== src/Device/Open.antt =====
-- `open_v4l2_device`, `find_v4l2_device`, `set_v4l2_device` and `xioctl` of src/decoder_v4l2.c.
use droidcam_linux_client.Prelude.{
  ℕ, suc, ◌≡◌, refl, Bool, true, false, not, ◌==◌, ◌&&◌, if◌then◌else◌, Option, none, some, List,
  [], ◌∷◌, arith, if-holds, subst, take,
}
use droidcam_linux_client.Prelude.Int.{ℤ, pos, negsuc, ltb_ℤ, leb_ℤ, eq_ℤ}

-- Whether `strncmp(prefix, text, strlen(prefix))` is 0, for texts without NULs.
abbrev pub has_prefix : List ℕ → List ℕ → Bool
has_prefix [] text = true
has_prefix (c ∷ prefix) [] = false
has_prefix (c ∷ prefix) (d ∷ text) = c == d && has_prefix prefix text

-- What one `ioctl` answers: its result, and whether `errno` is EINTR.
pub record IoctlAnswer : Type 0 where
  pub result : ℤ
  pub interrupted : Bool

-- The loop repeats an interrupted call; no value while an answer is awaited.
unfoldable pub xioctl : List IoctlAnswer → Option ℤ
xioctl [] = none
xioctl (a ∷ answers) =
    let later = xioctl answers in
    if eq_ℤ (negsuc 0) a.result && a.interrupted then later else some a.result

-- A device file: whether `stat` finds it, whether it is a character device, what `open` gives, and
-- what VIDIOC_QUERYCAP answers with which `bus_info`.
pub record DeviceFile : Type 0 where
  pub exists : Bool
  pub is_chr : Bool
  pub fd : ℤ
  pub query_cap : ℤ
  pub bus_info : List ℕ

unfoldable pub open_v4l2_device : DeviceFile → ℤ
open_v4l2_device f =
    if not f.exists
    then pos 0
    else if not f.is_chr
    then pos 0
    else if leb_ℤ f.fd (pos 0)
    then pos 0
    else f.fd

-- The search: the descriptors it has open, and the number in `v4l2_device`, or none where the name
-- is cleared.
pub record Scan : Type 0 where
  pub opened : List ℤ
  pub device : Option ℕ

abbrev pub close : ℤ → List ℤ → List ℤ
close fd [] = []
close fd (x ∷ l) = if eq_ℤ fd x then l else x ∷ close fd l

-- The body of the loop; the result is the descriptor that the search ends with.
unfoldable pub look_at : List ℕ → ℕ → DeviceFile → Scan → Scan × Option ℤ
look_at bus_info n f s =
    let fd = open_v4l2_device f in
    let named : Scan = record s { device = some n } in
    let opened : Scan = record named { opened = fd ∷ s.opened } in
    let closed : Scan = record named { opened = close fd (fd ∷ s.opened) } in
    if leb_ℤ fd (pos 0)
    then (named, none)
    else if ltb_ℤ f.query_cap (pos 0)
    then (closed, none)
    else if has_prefix bus_info f.bus_info
    then (opened, some fd)
    else (closed, none)

-- The loop over the device files from number `n` on, and the descriptor that is returned.
unfoldable pub find_from : List ℕ → ℕ → List DeviceFile → Scan → Scan × ℤ
find_from bus_info n [] s = (record s { device = none }, negsuc 0)
find_from bus_info n (f ∷ files) s =
    let (s, found) = look_at bus_info n f s in
    elim found [ none ↦ find_from bus_info (suc n) files s | some fd ↦ (s, fd) ]

-- The device files from /dev/video0 to /dev/video98.
unfoldable pub find_v4l2_device : List ℕ → List DeviceFile → Scan → Scan × ℤ
find_v4l2_device bus_info files s = find_from bus_info 0 (take 99 files) s

-- A device that the search accepts.
abbrev pub fits : List ℕ → DeviceFile → Bool
fits bus_info f =
    not (leb_ℤ (open_v4l2_device f) (pos 0))
    && not (ltb_ℤ f.query_cap (pos 0))
    && has_prefix bus_info f.bus_info

-- The first device that fits, numbered from `n`.
abbrev pub first_fit : List ℕ → ℕ → List DeviceFile → Option (ℕ × DeviceFile)
first_fit bus_info n [] = none
first_fit bus_info n (f ∷ files) =
    let later = first_fit bus_info (suc n) files in if fits bus_info f then some (n, f) else later

-- What the search comes to, given the first device that fits.
abbrev pub Found : List ℤ → Option (ℕ × DeviceFile) → Scan × ℤ → Type 0
Found before none (s, fd) = (fd ≡ negsuc 0) × (s.opened ≡ before) × (s.device ≡ none)
Found before (some (n, f)) (s, fd) =
    (fd ≡ open_v4l2_device f) × (s.opened ≡ fd ∷ before) × (s.device ≡ some n)

eq_ℤ-refl : (a : ℤ) → eq_ℤ a a ≡ true
eq_ℤ-refl (pos n) = ground arith
eq_ℤ-refl (negsuc n) = ground arith

close-own : (fd : ℤ) (l : List ℤ) → close fd (fd ∷ l) ≡ l
close-own fd l = rw (eq_ℤ-refl fd)

-- What the body does: it ends the search with a device that fits, and else keeps nothing open.
abbrev pub Looked : List ℕ → ℕ → DeviceFile → List ℤ → Scan × Option ℤ → Type 0
Looked bus_info n f before (s, none) = (fits bus_info f ≡ false) × (s.opened ≡ before)
Looked bus_info n f before (s, some fd) =
    (fits bus_info f ≡ true)
    × (fd ≡ open_v4l2_device f)
    × (s.opened ≡ fd ∷ before)
    × (s.device ≡ some n)

look_at-Looked :
    (bus_info : List ℕ) (n : ℕ) (f : DeviceFile) (s : Scan)
    → Looked bus_info n f s.opened (look_at bus_info n f s)
unfolding look_at
look_at-Looked bus_info n f s =
    let fd = open_v4l2_device f in
    let P = Looked bus_info n f s.opened in
    if-holds (leb_ℤ fd (pos 0)) _ _ P (λ e. (rw e, refl))
      (λ e.
        if-holds (ltb_ℤ f.query_cap (pos 0)) _ _ P (λ e₁. (rw (e, e₁), close-own fd s.opened))
          (λ e₁.
            if-holds (has_prefix bus_info f.bus_info) _ _ P
              (λ e₂. (rw (e, e₁, e₂), refl, refl, refl))
              (λ e₂. (rw (e, e₁, e₂), close-own fd s.opened))))

after_look :
    (bus_info : List ℕ) (n : ℕ) (f : DeviceFile) (files : List DeviceFile) (before : List ℤ)
    (r : Scan × Option ℤ)
    → ((s : Scan)
        → s.opened ≡ before
        → Found before (first_fit bus_info (suc n) files) (find_from bus_info (suc n) files s))
    → Looked bus_info n f before r
    → Found before (first_fit bus_info n (f ∷ files)) (
        let (s, found) = r in
        elim found [ none ↦ find_from bus_info (suc n) files s | some fd ↦ (s, fd) ])
after_look bus_info n f files before (s, none) rest (unfit, kept) = rw unfit (rest s kept)
after_look bus_info n f files before (s, some fd) rest (fit, at, own, named) =
    rw fit (at, own, named)

find_from-Found :
    (bus_info : List ℕ) (n : ℕ) (files : List DeviceFile) (s : Scan) (before : List ℤ)
    → s.opened ≡ before
    → Found before (first_fit bus_info n files) (find_from bus_info n files s)
unfolding find_from
find_from-Found bus_info n [] s before h = (refl, h, refl)
find_from-Found bus_info n (f ∷ files) s before h =
    after_look bus_info n f files before (look_at bus_info n f s)
      (λ s. find_from-Found bus_info (suc n) files s before)
      (subst (λ l. Looked bus_info n f l (look_at bus_info n f s)) h
        (look_at-Looked bus_info n f s))

-- `find_v4l2_device` returns the descriptor of the first of /dev/video0 to /dev/video98 that opens,
-- answers VIDIOC_QUERYCAP and has the prefix in its bus info; that one it leaves open and named in
-- `v4l2_device`, and all others closed. If there is none it returns -1, leaves none open and
-- clears the name.
pub find_first_fit :
    (bus_info : List ℕ) (files : List DeviceFile) (s : Scan)
    → Found s.opened (first_fit bus_info 0 (take 99 files)) (find_v4l2_device bus_info files s)
unfolding find_v4l2_device
find_first_fit bus_info files s = find_from-Found bus_info 0 (take 99 files) s s.opened refl
