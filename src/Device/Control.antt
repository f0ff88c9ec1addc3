-- ===== src/Device/Control.antt =====
-- The search for a control of the webcam in src/decoder_v4l2.c, and how it is set.
use droidcam_linux_client.Prelude.{
  ℕ, zero, suc, ◌+◌, ◌-◌, ◌≤◌, ◌<◌, ◌≡◌, refl, Bool, true, false, ◌==◌, ltb, if◌then◌else◌, Option,
  none, some, List, arith, ◌⊎◌, inl, inr, ◌≢◌, Option-cases, if-holds, subst, sym,
}
use native.Mathlib.Numerals.{add-one}
use native.Mathlib.Decide.{ℕ_discrete}
use droidcam_linux_client.Device.Open.{has_prefix}

-- Numbers of the kernel's header: the range of the user controls, the first private control, and
-- the flag with which a driver is asked for the control behind an id.
pub record Ids : Type 0 where
  pub user_base : ℕ
  pub user_end : ℕ
  pub private_base : ℕ
  pub next_flag : ℕ

-- What the driver answers to VIDIOC_QUERYCTRL for an id: an error, or the id and the name of a
-- control.
abbrev pub Driver : Type 0
Driver = ℕ → Option (ℕ × List ℕ)

-- A loop returns an id, ends, or goes on with more rounds than are given.
pub data ControlSearch : Type 0 where
  found : ℕ → ControlSearch
  over out_of_rounds : ControlSearch

-- `qctrl.id |= next`, for the flag in the highest bit.
abbrev pub or_next : Ids → ℕ → ℕ
or_next ids id = if ltb id ids.next_flag then id + ids.next_flag else id

unfoldable pub next_loop : Ids → Driver → List ℕ → (rounds id : ℕ) → ControlSearch
next_loop ids query control zero id = out_of_rounds
next_loop ids query control (suc k) id = elim (query id) [
  | none ↦ over
  | some c ↦
      if has_prefix control c.1 then found c.0 else next_loop ids query control k (or_next ids c.0)
]

unfoldable pub user_loop : Driver → List ℕ → (left id : ℕ) → ControlSearch
user_loop query control zero id = over
user_loop query control (suc k) id = elim (query id) [
  | none ↦ user_loop query control k (id + 1)
  | some c ↦ if has_prefix control c.1 then found c.0 else user_loop query control k (id + 1)
]

unfoldable pub private_loop : Driver → List ℕ → (rounds id : ℕ) → ControlSearch
private_loop query control zero id = out_of_rounds
private_loop query control (suc k) id = elim (query id) [
  | none ↦ over
  | some c ↦ if has_prefix control c.1 then found c.0 else private_loop query control k (c.0 + 1)
]

-- The next loop runs where this one has ended.
abbrev pub then_search : ControlSearch → ControlSearch → ControlSearch
then_search (found id) s = found id
then_search over s = s
then_search out_of_rounds s = out_of_rounds

abbrev pub id_of : ControlSearch → Option ℕ
id_of (found id) = some id
id_of over = some 0
id_of out_of_rounds = none

-- `rounds` bounds the two loops that the driver ends.
unfoldable pub get_control_id : Ids → Driver → List ℕ → ℕ → Option ℕ
unfolding next_loop user_loop private_loop
get_control_id ids query control rounds = id_of (
    then_search (next_loop ids query control rounds 0) (
      then_search (user_loop query control (ids.user_end - ids.user_base) ids.user_base)
        (private_loop query control rounds ids.private_base)))

-- The result of `set_control_i`, and the control that VIDIOC_S_CTRL is called for.
abbrev pub set_found : Bool → ℕ → Option ℕ → Option (ℕ × Option ℕ)
set_found set_ok value none = none
set_found set_ok value (some id) =
    if id == 0 then some (0, none) else some (if set_ok then value else 0, some id)

unfoldable pub set_control_i :
    Ids → Driver → (set_ok : Bool) → List ℕ → (value rounds : ℕ) → Option (ℕ × Option ℕ)
unfolding get_control_id
set_control_i ids query set_ok control value rounds =
    set_found set_ok value (get_control_id ids query control rounds)

-- The driver has a control of that name under the id.
abbrev pub Names : Driver → List ℕ → ℕ → Type 0
Names query control id =
    (name : List ℕ) × (query id ≡ some (id, name)) × (has_prefix control name ≡ true)

-- Asked for an id without the flag, the driver answers about that id.
abbrev pub Exact : Ids → Driver → Type 0
Exact ids query = (j i : ℕ) (name : List ℕ) → j < ids.next_flag → query j ≡ some (i, name) → i ≡ j

-- What the loop over the user controls has come to.
abbrev UserSearched : Driver → List ℕ → (left id : ℕ) → ControlSearch → Type 0
UserSearched query control k id (found i) = (id ≤ i) × (i < id + k) × Names query control i
UserSearched query control k id over = (j : ℕ) → id ≤ j → j < id + k → ¬ (Names query control j)
UserSearched query control k id out_of_rounds = ⊥

-- What the loop over the private controls has come to: it stops at the first id without one.
abbrev PrivateSearched : Driver → List ℕ → (rounds id : ℕ) → ControlSearch → Type 0
PrivateSearched query control k id (found i) = (id ≤ i) × (i < id + k) × Names query control i
PrivateSearched query control k id over =
    (m : ℕ) × (m < k)
    × (query (id + m) ≡ none)
    × ((j : ℕ) → id ≤ j → j < id + m → ¬ (Names query control j))
PrivateSearched query control k id out_of_rounds = (j : ℕ) → id ≤ j → j < id + k → query j ≢ none

no_control :
    (query : Driver) (control : List ℕ) (j : ℕ) → query j ≡ none → ¬ (Names query control j)
no_control query control j gone (name, is, fits) = cc

other_name :
    (query : Driver) (control : List ℕ) (j : ℕ) (c : ℕ × List ℕ)
    → query j ≡ some c
    → has_prefix control c.1 ≡ false
    → ¬ (Names query control j)
other_name query control j c here differs (name, is, fits) = ground arith

user_step :
    (query : Driver) (control : List ℕ) (k id : ℕ) (s : ControlSearch)
    → ¬ (Names query control id)
    → UserSearched query control k (id + 1) s
    → UserSearched query control (suc k) id s
user_step query control k id (found i) away (from, to, names) = (omega arith, omega arith, names)
user_step query control k id over away rest = λ j from to. elim (ℕ_discrete id j) [
  | yes same ↦ subst (λ j. ¬ (Names query control j)) same away
  | no differs ↦ rest j (omega arith) (omega arith)
]
user_step query control k id out_of_rounds away rest = rest

private_step :
    (query : Driver) (control : List ℕ) (k id : ℕ) (s : ControlSearch)
    → ¬ (Names query control id)
    → query id ≢ none
    → PrivateSearched query control k (id + 1) s
    → PrivateSearched query control (suc k) id s
private_step query control k id (found i) away here (from, to, names) =
    (omega arith, omega arith, names)
private_step query control k id over away here (m, less, gone, rest) = (
  m + 1,
  omega arith,
  subst (λ j. query j ≡ none) (omega arith) gone,
  λ j from to. elim (ℕ_discrete id j) [
    | yes same ↦ subst (λ j. ¬ (Names query control j)) same away
    | no differs ↦ rest j (omega arith) (omega arith)
  ],
)
private_step query control k id out_of_rounds away here rest = λ j from to. elim (ℕ_discrete id j) [
  | yes same ↦ subst (λ j. query j ≢ none) same here
  | no differs ↦ rest j (omega arith) (omega arith)
]

module _ (ids : Ids) (query : Driver) (control : List ℕ) (exact : Exact ids query) where
  control_here :
      (j : ℕ) (c : ℕ × List ℕ)
      → j < ids.next_flag
      → query j ≡ some c
      → has_prefix control c.1 ≡ true
      → (c.0 ≡ j) × Names query control c.0
  control_here j (i, name) below here fits =
      let same : i ≡ j = exact j i name below here in
      (same, (name, subst (λ k. query k ≡ some (i, name)) (sym same) here, fits))

  user-UserSearched :
      (k id : ℕ)
      → id + k ≤ ids.next_flag
      → UserSearched query control k id (user_loop query control k id)
  unfolding user_loop
  user-UserSearched zero id below = λ j from to. absurd (omega arith)
  user-UserSearched (suc k) id below =
      let rest = user-UserSearched k (id + 1) (omega arith) in
      elim (Option-cases (query id)) [
        | inl gone ↦
            rw (user_loop, gone)
              (user_step query control k id _ (no_control query control id gone) rest)
        | inr (c, here) ↦
            rw (user_loop, here)
              (if-holds (has_prefix control c.1) _ _ (UserSearched query control (suc k) id)
                (λ fits.
                  let (same, names) = control_here id c (omega arith) here fits in
                  (omega (arith, same), omega (arith, same), names))
                (λ differs.
                  user_step query control k id _ (other_name query control id c here differs) rest))
      ]

  private-PrivateSearched :
      (k id : ℕ)
      → id + k ≤ ids.next_flag
      → PrivateSearched query control k id (private_loop query control k id)
  unfolding private_loop
  private-PrivateSearched zero id below = λ j from to. absurd (omega arith)
  private-PrivateSearched (suc k) id below =
      let rest = private-PrivateSearched k (id + 1) (omega arith) in
      elim (Option-cases (query id)) [
        | inl gone ↦
            rw (private_loop, gone)
              (
                0,
                omega arith,
                subst (λ j. query j ≡ none) (omega arith) gone,
                λ j from to. absurd (omega arith),
              )
        | inr (c, here) ↦
            rw (private_loop, here)
              (if-holds (has_prefix control c.1) _ _ (PrivateSearched query control (suc k) id)
                (λ fits.
                  let (same, names) = control_here id c (omega arith) here fits in
                  (omega (arith, same), omega (arith, same), names))
                (λ differs.
                  subst
                    (λ j.
                      PrivateSearched query control (suc k) id
                        (private_loop query control k (j + 1)))
                    (sym (exact id c.0 c.1 (omega arith) here))
                    (private_step query control k id _ (other_name query control id c here differs)
                      (λ e. cc) rest)))
      ]

-- No user control has the name, nor has one of the private controls, up to the first id without.
abbrev pub NotNamed : Ids → Driver → List ℕ → Type 0
NotNamed ids query control =
    ((j : ℕ) → ids.user_base ≤ j → j < ids.user_end → ¬ (Names query control j))
    × ((m : ℕ) × (query (ids.private_base + m) ≡ none)
        × ((j : ℕ) → ids.private_base ≤ j → j < ids.private_base + m → ¬ (Names query control j)))

-- The id of a control of that name among the user or the private controls, or 0.
abbrev pub IsFound : Ids → Driver → List ℕ → ℕ → Type 0
IsFound ids query control i =
    ((ids.user_base ≤ i) × (i < ids.user_end) × Names query control i)
    ⊎ ((ids.private_base ≤ i) × Names query control i)
    ⊎ ((i ≡ 0) × NotNamed ids query control)

searched-IsFound :
    (ids : Ids) (query : Driver) (control : List ℕ) (n : ℕ) (u p : ControlSearch)
    → ids.user_base ≤ ids.user_end
    → query (ids.private_base + n) ≡ none
    → UserSearched query control (ids.user_end - ids.user_base) ids.user_base u
    → PrivateSearched query control (n + 1) ids.private_base p
    → (i : ℕ) × (id_of (then_search u p) ≡ some i) × IsFound ids query control i
searched-IsFound ids query control n (found i) p order last (from, to, names) ps =
    (i, refl, inl (from, omega arith, names))
searched-IsFound ids query control n over (found i) order last us (from, to, names) =
    (i, refl, inr (inl (from, names)))
searched-IsFound ids query control n over over order last us (m, less, gone, rest) =
    (0, refl, inr (inr (refl, ((λ j from to. us j from (omega arith)), (m, gone, rest)))))
searched-IsFound ids query control n over out_of_rounds order last us ps =
    absurd (ps (ids.private_base + n) (omega arith) (omega arith) last)
searched-IsFound ids query control n out_of_rounds p order last us ps = absurd us

next-none :
    (ids : Ids) (query : Driver) (control : List ℕ) (k : ℕ)
    → query 0 ≡ none
    → next_loop ids query control (k + 1) 0 ≡ over
unfolding next_loop
next-none ids query control k first = rw (add-one, next_loop, first) refl

-- A driver that answers about the id it is asked for, has no control 0, and none for some private
-- id, which bounds the rounds: the search ends, and its result is the id of a user or private
-- control whose name begins as asked, or 0 where there is none. So the loop with the "next" flag,
-- which begins with control 0, never asks for another, and a control with an id outside the two
-- ranges is not found.
pub control_id_lem :
    (ids : Ids) (query : Driver) (control : List ℕ) (n : ℕ)
    → Exact ids query
    → ids.user_base ≤ ids.user_end
    → ids.user_end ≤ ids.next_flag
    → ids.private_base + n < ids.next_flag
    → query 0 ≡ none
    → query (ids.private_base + n) ≡ none
    → (i : ℕ) × (get_control_id ids query control (n + 1) ≡ some i) × IsFound ids query control i
unfolding get_control_id
control_id_lem ids query control n exact order small low first last =
    rw (next-none ids query control n first) (
      searched-IsFound ids query control n _ _ order last
        (user-UserSearched ids query control exact (ids.user_end - ids.user_base) ids.user_base
          (omega arith))
        (private-PrivateSearched ids query control exact (n + 1) ids.private_base (omega arith)))
