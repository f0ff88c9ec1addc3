-- ===== src/Sound/Recovery.antt =====
-- `xrun_recovery` of src/decoder_snd.c.
use droidcam_linux_client.Prelude.{
  ℕ, ◌-◌, ◌≤◌, ◌≡◌, Bool, false, ◌==◌, if◌then◌else◌, Option, none, some, List, [], ◌∷◌, length,
  arith, Bool-cases, inl, inr,
}
use droidcam_linux_client.Prelude.Int.{ℤ, pos, negsuc, ltb_ℤ}

-- The negated errors, as on Linux.
abbrev pub minus_eagain : ℤ
minus_eagain = negsuc 10

abbrev pub minus_epipe : ℤ
minus_epipe = negsuc 31

abbrev pub minus_estrpipe : ℤ
minus_estrpipe = negsuc 85

abbrev pub is_code : ℤ → ℤ → Bool
is_code (negsuc a) (negsuc b) = a == b
is_code _ _ = false

-- What the calls answer: `snd_pcm_prepare`, and `snd_pcm_resume` each time.
pub record Recovery : Type 0 where
  pub prepare : ℤ
  pub resume : List ℤ

abbrev pub resume_limit : ℕ
resume_limit = 60000

-- The loop around `snd_pcm_resume`, with `limit` still to go; no value while an answer is awaited.
unfoldable pub resume_loop : ℕ → List ℤ → Option ℤ
resume_loop limit [] = none
resume_loop limit (err ∷ answers) =
    let later = resume_loop (limit - 1) answers in
    if is_code err minus_eagain then (if limit - 1 == 0 then some err else later) else some err

abbrev pub or_prepare : ℤ → ℤ → ℤ
or_prepare prepare err = if ltb_ℤ err (pos 0) then prepare else err

unfoldable pub xrun_recovery : Recovery → ℤ → Option ℤ
xrun_recovery r err =
    if is_code err minus_epipe
    then some r.prepare
    else if is_code err minus_estrpipe
    then elim (resume_loop resume_limit r.resume) [
      | none ↦ none
      | some e ↦ some (or_prepare r.prepare e)
    ]
    else some err

resume_loop-total :
    (limit : ℕ) (answers : List ℤ)
    → 1 ≤ limit
    → limit ≤ length answers
    → (e : ℤ) × (resume_loop limit answers ≡ some e)
unfolding resume_loop
resume_loop-total limit [] pos_limit enough = absurd (omega arith)
resume_loop-total limit (err ∷ answers) pos_limit enough =
    elim (Bool-cases (is_code err minus_eagain)) [
      | inr other ↦ (err, rw other)
      | inl again ↦ elim (Bool-cases (limit - 1 == 0)) [
        | inl last ↦ (err, rw (again, last))
        | inr more ↦
            rw (again, more) (resume_loop-total (limit - 1) answers (ground arith) (omega arith))
      ]
    ]

-- `xrun_recovery` ends whatever the device answers: 60000 answers of `snd_pcm_resume` are enough.
pub xrun_recovery_total :
    (r : Recovery) (err : ℤ)
    → resume_limit ≤ length r.resume
    → (e : ℤ) × (xrun_recovery r err ≡ some e)
unfolding xrun_recovery
xrun_recovery_total r err enough = elim (Bool-cases (is_code err minus_epipe)) [
  | inl under_run ↦ (r.prepare, rw under_run)
  | inr other ↦ elim (Bool-cases (is_code err minus_estrpipe)) [
    | inr neither ↦ (err, rw (other, neither))
    | inl suspended ↦
        let (e, found) = resume_loop-total resume_limit r.resume (omega arith) enough in
        (or_prepare r.prepare e, rw (other, suspended, found))
  ]
]
