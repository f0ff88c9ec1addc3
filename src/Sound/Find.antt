-- ===== src/Sound/Find.antt =====
-- `find_snd_device` of src/decoder_snd.c.
use droidcam_linux_client.Prelude.{
  subst, take, ℕ, suc, ◌+◌, ◌-◌, ◌≡◌, refl, Bool, true, false, not, ◌==◌, if◌then◌else◌, Option,
  none, some, List, [], ◌∷◌, arith, if-holds,
}
use droidcam_linux_client.Prelude.Int.{pos, ltb_ℤ}
use droidcam_linux_client.Sound.Params.{Sizes, HwAnswers, SwAnswers, set_hwparams, set_swparams}

-- DROIDCAM_PCM_CHUNK_BYTES_2
abbrev pub expected_buffer_size : ℕ
expected_buffer_size = 640

-- What one device answers: whether `snd_pcm_open` gives a handle, and the calls of the two
-- functions that set it up.
pub record Device : Type 0 where
  pub opens : Bool
  pub hw : HwAnswers
  pub sw : SwAnswers

-- A card: whether its file could be read and begins with "Loopback", and its devices.
pub record Card : Type 0 where
  pub is_loopback : Bool
  pub devices : List Device

-- The sizes in the globals, the number of open handles, and the name in `snd_device` that the UI
-- shows: the numbers in "hw:%d,%d,%d", or none where it is cleared.
pub record Search : Type 0 where
  pub sizes : Sizes
  pub handles : ℕ
  pub name : Option (ℕ × ℕ × ℕ)

-- What a device comes to: the next one is tried, the search ends without a device, or it ends
-- with this one.
pub data Verdict : Type 0 where
  try_next give_up found : Verdict

abbrev pub open_handle : Search → Search
open_handle s = record s { handles = s.handles + 1 }

abbrev pub close_handle : Search → Search
close_handle s = record s { handles = s.handles - 1 }

-- The body of the loop over the devices.
unfoldable pub try_device : ℕ → ℕ → Device → Search → Search × Verdict
try_device card i d s =
    let s : Search = record s { name = some (card, 0, i) } in
    if not d.opens
    then (s, try_next)
    else (let s : Search = open_handle s in
        let hw = set_hwparams d.hw s.sizes in
        let s : Search = record s { sizes = hw.0 } in
        if ltb_ℤ hw.1 (pos 0)
        then (close_handle s, try_next)
        else if ltb_ℤ (set_swparams d.sw) (pos 0)
        then (close_handle s, try_next)
        else if not (s.sizes.buffer_size == expected_buffer_size)
        then (close_handle s, give_up)
        else (record s { name = some (card, 1, i) }, found))

-- The loop over the devices of a card.
unfoldable pub try_devices : ℕ → ℕ → List Device → Search → Search × Verdict
try_devices card i [] s = (s, try_next)
try_devices card i (d ∷ ds) s =
    let (s, v) = try_device card i d s in
    elim v [ try_next ↦ try_devices card (suc i) ds s | v ↦ (s, v) ]

-- The loop over the cards; the result says whether a handle is returned.
unfoldable pub try_cards : ℕ → List Card → Search → Search × Bool
try_cards card [] s = (record s { name = none }, false)
try_cards card (c ∷ cs) s =
    if not c.is_loopback
    then try_cards (suc card) cs s
    else (let (s, v) = try_devices card 0 (take 8 c.devices) s in
        elim v [
          | try_next ↦ try_cards (suc card) cs s
          | give_up ↦ (record s { name = none }, false)
          | found ↦ (s, true)
        ])

-- The cards from 0 to 49, and the devices of a card from 0 to 7.
unfoldable pub find_snd_device : List Card → Search → Search × Bool
find_snd_device cards s = try_cards 0 (take 50 cards) s

-- The search owns one handle more than before, on a device whose ring buffer has the expected
-- size, and its name is the side of the loopback that other programs record from.
abbrev pub IsOpened : ℕ → Search → Type 0
IsOpened before s =
    (s.handles ≡ before + 1)
    × (s.sizes.buffer_size ≡ expected_buffer_size)
    × ((card : ℕ) × (i : ℕ) × (s.name ≡ some (card, 1, i)))

abbrev pub Tried : ℕ → Search × Verdict → Type 0
Tried before (s, found) = IsOpened before s
Tried before (s, _) = s.handles ≡ before

try_device-Tried : (card i : ℕ) (d : Device) (s : Search) → Tried s.handles (try_device card i d s)
unfolding try_device
try_device-Tried card i d s =
    if-holds (not d.opens) _ _ (Tried s.handles) (λ e. refl)
      (λ e.
        if-holds (ltb_ℤ (set_hwparams d.hw s.sizes).1 (pos 0)) _ _ (Tried s.handles)
          (λ e. omega arith)
          (λ e.
            if-holds (ltb_ℤ (set_swparams d.sw) (pos 0)) _ _ (Tried s.handles) (λ e. omega arith)
              (λ e.
                if-holds (not ((set_hwparams d.hw s.sizes).0.buffer_size == expected_buffer_size)) _
                  _ (Tried s.handles) (λ e. omega arith)
                  (λ e. (refl, ground arith, (card, i, refl))))))

after_device :
    (card i : ℕ) (ds : List Device) (before : ℕ) (r : Search × Verdict)
    → ((s : Search) → s.handles ≡ before → Tried before (try_devices card (suc i) ds s))
    → Tried before r
    → Tried before
        (let (s, v) = r in elim v [ try_next ↦ try_devices card (suc i) ds s | v ↦ (s, v) ])
after_device card i ds before (s, try_next) rest t = rest s t
after_device card i ds before (s, give_up) rest t = t
after_device card i ds before (s, found) rest t = t

try_devices-Tried :
    (card i : ℕ) (ds : List Device) (s : Search) (before : ℕ)
    → s.handles ≡ before
    → Tried before (try_devices card i ds s)
unfolding try_devices
try_devices-Tried card i [] s before h = h
try_devices-Tried card i (d ∷ ds) s before h =
    after_device card i ds before (try_device card i d s)
      (λ s. try_devices-Tried card (suc i) ds s before)
      (subst (λ n. Tried n (try_device card i d s)) h (try_device-Tried card i d s))

-- What the search returns: a device that it holds open, or nothing.
abbrev pub Searched : ℕ → Search × Bool → Type 0
Searched before (s, true) = IsOpened before s
Searched before (s, false) = (s.handles ≡ before) × (s.name ≡ none)

after_card :
    (card : ℕ) (cs : List Card) (before : ℕ) (r : Search × Verdict)
    → ((s : Search) → s.handles ≡ before → Searched before (try_cards (suc card) cs s))
    → Tried before r
    → Searched before (
        let (s, v) = r in
        elim v [
          | try_next ↦ try_cards (suc card) cs s
          | give_up ↦ (record s { name = none }, false)
          | found ↦ (s, true)
        ])
after_card card cs before (s, try_next) rest t = rest s t
after_card card cs before (s, give_up) rest t = (t, refl)
after_card card cs before (s, found) rest t = t

try_cards-Searched :
    (card : ℕ) (cs : List Card) (s : Search) (before : ℕ)
    → s.handles ≡ before
    → Searched before (try_cards card cs s)
unfolding try_cards
try_cards-Searched card [] s before h = (h, refl)
try_cards-Searched card (c ∷ cs) s before h =
    let rest : (s : Search) → s.handles ≡ before → Searched before (try_cards (suc card) cs s) =
      λ s. try_cards-Searched (suc card) cs s before in
    if-holds (not c.is_loopback) _ _ (Searched before) (λ e. rest s h)
      (λ e.
        after_card card cs before (try_devices card 0 (take 8 c.devices) s) rest
          (try_devices-Tried card 0 (take 8 c.devices) s before h))

-- `find_snd_device` leaves no handle behind: where it returns one, exactly one more is open than
-- before, on a device whose ring buffer has 640 samples, and `snd_device` names its other side;
-- where it returns NULL, as many are open as before and `snd_device` is cleared.
pub find_no_leak : (cards : List Card) (s : Search) → Searched s.handles (find_snd_device cards s)
unfolding find_snd_device
find_no_leak cards s = try_cards-Searched 0 (take 50 cards) s s.handles refl
