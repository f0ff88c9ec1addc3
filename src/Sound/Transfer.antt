-- ===== src/Sound/Transfer.antt =====
-- `snd_transfer_check` and `snd_transfer_commit` of src/decoder_snd.c.
use droidcam_linux_client.Prelude.{
  ℕ, ◌≤◌, ◌≡◌, refl, Bool, true, false, not, ◌||◌, if◌then◌else◌, Option, none, some, length, arith,
  Bool-cases, inl, inr, ◌⊎◌, if-holds,
}
use droidcam_linux_client.Prelude.Int.{ℤ, pos, ltb_ℤ, eq_ℤ}
use droidcam_linux_client.Sound.Recovery.{
  Recovery, minus_epipe, minus_estrpipe, xrun_recovery, resume_limit, xrun_recovery_total,
}

-- The states of the device that the code tells apart.
pub data PcmState : Type 0 where
  xrun suspended other : PcmState

-- `struct snd_transfer_s`; `my_areas` is the number of the mapping that `snd_pcm_mmap_begin` gave.
pub record Transfer : Type 0 where
  pub first : Bool
  pub offset : ℕ
  pub frames : ℕ
  pub my_areas : ℕ

-- What the calls of one `snd_transfer_check` answer.
pub record CheckAnswers : Type 0 where
  pub state : PcmState
  pub on_state : Recovery
  pub avail : ℤ
  pub on_avail : Recovery
  pub start : ℤ
  pub wait : ℤ
  pub mmap_begin : ℤ
  pub mapped : ℕ
  pub mapped_offset : ℕ
  pub mapped_frames : ℕ

-- The recovery fails and ends the function with its error, or the function goes on.
abbrev pub recovered : Option ℤ → Transfer → Option (Transfer × ℤ) → Option (Transfer × ℤ)
recovered none t next = none
recovered (some err) t next = if ltb_ℤ err (pos 0) then some (t, err) else next

abbrev pub set_first : Transfer → Transfer
set_first t = record t { first = true }

-- `snd_pcm_mmap_begin` and what follows; a call that fails stores nothing.
unfoldable pub begin_transfer : ℕ → CheckAnswers → Transfer → Option (Transfer × ℤ)
begin_transfer period_size a t =
    let t : Transfer = record t { frames = period_size } in
    if ltb_ℤ a.mmap_begin (pos 0)
    then recovered (xrun_recovery a.on_avail a.mmap_begin) t (some (set_first t, pos 1))
    else some (
      record t { my_areas = a.mapped; offset = a.mapped_offset; frames = a.mapped_frames },
      pos 1,
    )

-- Fewer samples than a period are free: start the device, or wait for it.
unfoldable pub wait_for_room : CheckAnswers → Transfer → Option (Transfer × ℤ)
wait_for_room a t =
    if t.first
    then (let t : Transfer = record t { first = false } in
        if ltb_ℤ a.start (pos 0) then some (t, a.start) else some (t, pos 0))
    else if ltb_ℤ a.wait (pos 0)
    then recovered (xrun_recovery a.on_avail a.wait) t (some (set_first t, pos 0))
    else some (t, pos 0)

-- From `snd_pcm_avail_update` on.
unfoldable pub check_room : ℕ → CheckAnswers → Transfer → Option (Transfer × ℤ)
check_room period_size a t =
    if ltb_ℤ a.avail (pos 0)
    then recovered (xrun_recovery a.on_avail a.avail) t (some (set_first t, pos 0))
    else if ltb_ℤ a.avail (pos period_size)
    then wait_for_room a t
    else begin_transfer period_size a t

-- At most two recoveries: one for the state, and one behind it.
unfoldable pub snd_transfer_check : ℕ → CheckAnswers → Transfer → Option (Transfer × ℤ)
snd_transfer_check period_size a t = elim a.state [
  | xrun ↦
      recovered (xrun_recovery a.on_state minus_epipe) t (check_room period_size a (set_first t))
  | suspended ↦ recovered (xrun_recovery a.on_state minus_estrpipe) t (check_room period_size a t)
  | other ↦ check_room period_size a t
]

-- The error that a commit recovers from.
abbrev pub commit_error : ℤ → ℤ
commit_error commits = if ltb_ℤ commits (pos 0) then commits else minus_epipe

unfoldable pub snd_transfer_commit : Recovery → ℤ → Transfer → Option (Transfer × ℤ)
snd_transfer_commit r commits t =
    if ltb_ℤ commits (pos 0) || not (eq_ℤ commits (pos t.frames))
    then recovered (xrun_recovery r (commit_error commits)) t (some (set_first t, pos 0))
    else some (t, pos 0)

-- What a function that answers gives.
abbrev pub Answered : Option (Transfer × ℤ) → Type 0
Answered o = (u : Transfer) × (r : ℤ) × (o ≡ some (u, r))

recovered-Answered :
    (o : Option ℤ) (t : Transfer) (next : Option (Transfer × ℤ))
    → (e : ℤ) × (o ≡ some e)
    → Answered next
    → Answered (recovered o t next)
recovered-Answered none t next (e, found) (u, r, eq) = absurd cc
recovered-Answered (some err) t next found (u, r, eq) = elim (Bool-cases (ltb_ℤ err (pos 0))) [
  | inl bad ↦ (t, err, rw bad)
  | inr fine ↦ (u, r, rw fine eq)
]

if-Answered :
    (b : Bool) (o p : Option (Transfer × ℤ))
    → Answered o
    → Answered p
    → Answered (if b then o else p)
if-Answered b o p left right = if-holds b o p Answered (λ e. left) (λ e. right)

begin-Answered :
    (period_size : ℕ) (a : CheckAnswers) (t : Transfer)
    → resume_limit ≤ length a.on_avail.resume
    → Answered (begin_transfer period_size a t)
unfolding begin_transfer
begin-Answered period_size a t enough =
    if-Answered (ltb_ℤ a.mmap_begin (pos 0)) _ _
      (recovered-Answered _ _ _ (xrun_recovery_total a.on_avail a.mmap_begin enough) (_, _, refl))
      (_, _, refl)

wait-Answered :
    (a : CheckAnswers) (t : Transfer)
    → resume_limit ≤ length a.on_avail.resume
    → Answered (wait_for_room a t)
unfolding wait_for_room
wait-Answered a t enough =
    if-Answered t.first _ _ (if-Answered (ltb_ℤ a.start (pos 0)) _ _ (_, _, refl) (_, _, refl)) (
      if-Answered (ltb_ℤ a.wait (pos 0)) _ _
        (recovered-Answered _ _ _ (xrun_recovery_total a.on_avail a.wait enough) (_, _, refl))
        (_, _, refl))

room-Answered :
    (period_size : ℕ) (a : CheckAnswers) (t : Transfer)
    → resume_limit ≤ length a.on_avail.resume
    → Answered (check_room period_size a t)
unfolding check_room
room-Answered period_size a t enough =
    if-Answered (ltb_ℤ a.avail (pos 0)) _ _
      (recovered-Answered _ _ _ (xrun_recovery_total a.on_avail a.avail enough) (_, _, refl))
      (if-Answered (ltb_ℤ a.avail (pos period_size)) _ _ (wait-Answered a t enough)
        (begin-Answered period_size a t enough))

-- `snd_transfer_check` ends with a result whatever the device answers, if each of its two
-- recoveries is given 60000 answers of `snd_pcm_resume`.
pub snd_transfer_check_total :
    (period_size : ℕ) (a : CheckAnswers) (t : Transfer)
    → resume_limit ≤ length a.on_state.resume
    → resume_limit ≤ length a.on_avail.resume
    → Answered (snd_transfer_check period_size a t)
unfolding snd_transfer_check
snd_transfer_check_total period_size a t enough_state enough_avail =
    let room : (t : Transfer) → Answered (check_room period_size a t) =
      λ t. room-Answered period_size a t enough_avail in
    elim a.state
      as (λ s. Answered (elim s [
        | xrun ↦
            recovered (xrun_recovery a.on_state minus_epipe) t
              (check_room period_size a (set_first t))
        | suspended ↦
            recovered (xrun_recovery a.on_state minus_estrpipe) t (check_room period_size a t)
        | other ↦ check_room period_size a t
      ])) [
        | xrun ↦
            recovered-Answered _ _ _ (xrun_recovery_total a.on_state minus_epipe enough_state)
              (room (set_first t))
        | suspended ↦
            recovered-Answered _ _ _ (xrun_recovery_total a.on_state minus_estrpipe enough_state)
              (room t)
        | other ↦ room t
      ]

-- `snd_transfer_check` that returns 1 has read from the device that at least a period is free; and
-- either `snd_pcm_mmap_begin` has stored the mapping, its offset and its frames in the transfer, or
-- it failed, the device was recovered, and the transfer still has the mapping from before.
pub check_one_lem :
    (period_size : ℕ) (a : CheckAnswers) (t u : Transfer)
    → snd_transfer_check period_size a t ≡ some (u, pos 1)
    → (ltb_ℤ a.avail (pos period_size) ≡ false)
      × (((ltb_ℤ a.mmap_begin (pos 0) ≡ false)
            × (u.my_areas ≡ a.mapped)
            × (u.offset ≡ a.mapped_offset)
            × (u.frames ≡ a.mapped_frames))
          ⊎ ((ltb_ℤ a.mmap_begin (pos 0) ≡ true)
              × (u.my_areas ≡ t.my_areas)
              × (u.offset ≡ t.offset)
              × (u.frames ≡ period_size)
              × (u.first ≡ true)))
unfolding snd_transfer_check check_room wait_for_room begin_transfer
check_one_lem period_size a t u ok = (
  ground arith,
  elim (Bool-cases (ltb_ℤ a.mmap_begin (pos 0))) [
    | inr fine ↦ inl (fine, ground arith, ground arith, ground arith)
    | inl bad ↦ inr (bad, ground arith, ground arith, ground arith, ground arith)
  ],
)

-- The same for `snd_transfer_commit`, which recovers once at most.
pub snd_transfer_commit_total :
    (r : Recovery) (commits : ℤ) (t : Transfer)
    → resume_limit ≤ length r.resume
    → Answered (snd_transfer_commit r commits t)
unfolding snd_transfer_commit
snd_transfer_commit_total r commits t enough =
    if-Answered (ltb_ℤ commits (pos 0) || not (eq_ℤ commits (pos t.frames))) _ _
      (recovered-Answered _ _ _ (xrun_recovery_total r (commit_error commits) enough) (_, _, refl))
      (_, _, refl)
