-- ===== src/Sound/Params.antt =====
-- `set_hwparams` and `set_swparams` of src/decoder_snd.c.
use droidcam_linux_client.Prelude.{
  ℕ, ◌≡◌, ◌≢◌, inl, inr, refl, true, not, ◌==◌, if◌then◌else◌, arith, Bool-cases,
}
use droidcam_linux_client.Prelude.Int.{ℤ, pos, negsuc, ltb_ℤ}

abbrev pub audio_rate : ℕ
audio_rate = 16000

-- -EINVAL, as on Linux.
abbrev pub minus_einval : ℤ
minus_einval = negsuc 21

-- `buffer_size` and `period_size`.
pub record Sizes : Type 0 where
  pub buffer_size : ℕ
  pub period_size : ℕ

-- The answer of each ALSA call, in the order of the calls, and what the calls report.
pub record HwAnswers : Type 0 where
  pub any : ℤ
  pub resample : ℤ
  pub access : ℤ
  pub format : ℤ
  pub channels : ℤ
  pub rate_near : ℤ
  pub rate : ℕ
  pub buffer_time : ℤ
  pub get_buffer : ℤ
  pub buffer : ℕ
  pub period_time : ℤ
  pub get_period : ℤ
  pub period : ℕ
  pub write : ℤ

-- A call that fails ends the function with its error.
abbrev pub or_return : ℤ → Sizes → Sizes × ℤ → Sizes × ℤ
or_return err s next = if ltb_ℤ err (pos 0) then (s, err) else next

-- The second half, behind the check of the rate.
unfoldable pub set_sizes : HwAnswers → Sizes → Sizes × ℤ
set_sizes a s = or_return a.buffer_time s (
    or_return a.get_buffer s (
      let s : Sizes = record s { buffer_size = a.buffer } in
      or_return a.period_time s (
        or_return a.get_period s
          (let s : Sizes = record s { period_size = a.period } in or_return a.write s (s, pos 0)))))

unfoldable pub set_hwparams : HwAnswers → Sizes → Sizes × ℤ
set_hwparams a s = or_return a.any s (
    or_return a.resample s (
      or_return a.access s (
        or_return a.format s (
          or_return a.channels s (
            or_return a.rate_near s
              (if not (a.rate == audio_rate) then (s, minus_einval) else set_sizes a s))))))

pub record SwAnswers : Type 0 where
  pub current : ℤ
  pub start_threshold : ℤ
  pub avail_min : ℤ
  pub write : ℤ

-- Both thresholds are set to `period_size`.
unfoldable pub set_swparams : SwAnswers → ℤ
set_swparams a =
    if ltb_ℤ a.current (pos 0)
    then a.current
    else if ltb_ℤ a.start_threshold (pos 0)
    then a.start_threshold
    else if ltb_ℤ a.avail_min (pos 0)
    then a.avail_min
    else if ltb_ℤ a.write (pos 0)
    then a.write
    else pos 0

error-not-zero : (err : ℤ) → ltb_ℤ err (pos 0) ≡ true → err ≢ pos 0
error-not-zero (pos n) failed e = ground arith
error-not-zero (negsuc n) failed e = cc

-- What holds of the rest holds of the whole function, if that returns 0.
or_return-passed :
    (err : ℤ) (s : Sizes) (next : Sizes × ℤ) (P : Sizes × ℤ → Type 0)
    → (next.1 ≡ pos 0 → P next)
    → (or_return err s next).1 ≡ pos 0
    → P (or_return err s next)
or_return-passed err s next P rest ok = elim (Bool-cases (ltb_ℤ err (pos 0))) [
  | inr fine ↦ rw fine (rest (rw fine at ok))
  | inl failed ↦ absurd (error-not-zero err failed (rw failed at ok))
]

set_sizes_lem :
    (a : HwAnswers) (s : Sizes)
    → (set_sizes a s).1 ≡ pos 0
    → (set_sizes a s).0 ≡ record { buffer_size = a.buffer; period_size = a.period }
unfolding set_sizes
set_sizes_lem a s ok = ground arith

-- The check of the rate and the second half.
rate-checked :
    (a : HwAnswers) (s : Sizes)
    → (if not (a.rate == audio_rate) then (s, minus_einval) else set_sizes a s).1 ≡ pos 0
    → (a.rate ≡ audio_rate)
      × ((if not (a.rate == audio_rate) then (s, minus_einval) else set_sizes a s).0
          ≡ record { buffer_size = a.buffer; period_size = a.period })
rate-checked a s ok = elim (Bool-cases (a.rate == audio_rate)) [
  | inl same ↦ (ground arith, rw same (set_sizes_lem a s (rw same at ok)))
  | inr differs ↦ absurd (error-not-zero minus_einval refl (rw differs at ok))
]

-- `set_hwparams` that returns 0 found the rate of 16000 Hz and has stored the sizes that ALSA
-- reports for the buffer and the period.
pub set_hwparams_lem :
    (a : HwAnswers) (s : Sizes)
    → (set_hwparams a s).1 ≡ pos 0
    → (a.rate ≡ audio_rate)
      × ((set_hwparams a s).0 ≡ record { buffer_size = a.buffer; period_size = a.period })
unfolding set_hwparams
set_hwparams_lem a s ok =
    let Good : Sizes × ℤ → Type 0 = λ r.
      (a.rate ≡ audio_rate) × (r.0 ≡ record { buffer_size = a.buffer; period_size = a.period }) in
    let p7 : Sizes × ℤ = if not (a.rate == audio_rate) then (s, minus_einval) else set_sizes a s in
    let p6 : Sizes × ℤ = or_return a.rate_near s p7 in
    let p5 : Sizes × ℤ = or_return a.channels s p6 in
    let p4 : Sizes × ℤ = or_return a.format s p5 in
    let p3 : Sizes × ℤ = or_return a.access s p4 in
    let p2 : Sizes × ℤ = or_return a.resample s p3 in
    or_return-passed a.any s p2 Good
      (or_return-passed a.resample s p3 Good (
        or_return-passed a.access s p4 Good (
          or_return-passed a.format s p5 Good (
            or_return-passed a.channels s p6 Good
              (or_return-passed a.rate_near s p7 Good (rate-checked a s))))))
      ok
