-- ===== src/Audio/Loop.antt =====
-- What the loop of `AudioThreadProc` keeps, and that it ends.
use droidcam_linux_client.Prelude.{
  ℕ, ◌≤◌, ◌≡◌, ◌⊎◌, refl, false, not, ltb, if-holds, Option, none, some, subst, List, [], ◌∷◌,
  length, inl, inr,
}
use droidcam_linux_client.Prelude.Int.{ℤ, pos, negsuc, ltb_ℤ, is_zero}
use droidcam_linux_client.Sound.Recovery.{resume_limit}
use droidcam_linux_client.Sound.Transfer.{
  Transfer, snd_transfer_check, snd_transfer_commit, snd_transfer_check_total,
  snd_transfer_commit_total,
}
use droidcam_linux_client.Audio.Play.{Samples, Output, clamp, play}
use droidcam_linux_client.Audio.Setup.{StreamMode, check_failed, commit_failed}
use droidcam_linux_client.Audio.Thread.{
  Thread, AudioRound, Flow, goes_on, leaves, take_packet, receive, committed, transfer_round,
  checked, audio_round, follow, audio_loop,
}
use droidcam_linux_client.Audio.Kept.{Kept, Kept-trans, touch-Kept, After, keep_alive-Kept}

module _ (speex : List (List ℕ) → List ℕ → List ℕ) (period_size : ℕ) where
  committed-After :
      (mode : StreamMode) (out : Output) (s : Thread) (o : Option (Transfer × ℤ))
      → After mode s (committed speex period_size mode out s o)
  committed-After mode out s none = tt
  committed-After mode out s (some (t, err)) =
      if-holds (ltb_ℤ err (pos 0)) _ _ (After mode s)
        (λ e. touch-Kept mode s s.samples t (commit_failed ∷ s.messages))
        (λ e.
          Kept-trans mode s (record s { transfer = t }) _ (touch-Kept mode s s.samples t s.messages)
            (keep_alive-Kept mode out (record s { transfer = t })))

  -- What follows a change of the samples and the transfer.
  touched-After :
      (mode : StreamMode) (s : Thread) (x : Samples) (t : Transfer) (o : Option (Flow × Thread))
      → After mode (record s { samples = x; transfer = t }) o
      → After mode s o
  touched-After mode s x t none after = tt
  touched-After mode s x t (some (flow, u)) after =
      Kept-trans mode s _ u (touch-Kept mode s x t s.messages) after

  transfer-After :
      (mode : StreamMode) (r : AudioRound) (s : Thread)
      → After mode s (transfer_round speex period_size mode r s)
  unfolding transfer_round
  transfer-After mode r s =
      let played = play s.transfer.frames s.samples in
      let t : Transfer = record (s.transfer) { frames = clamp s.transfer.frames } in
      touched-After mode s played.1 t _ (
        committed-After mode played.0 (record s { samples = played.1; transfer = t })
          (snd_transfer_commit r.on_commit r.commits t))

  checked-After :
      (mode : StreamMode) (r : AudioRound) (s : Thread) (o : Option (Transfer × ℤ))
      → After mode s (checked speex period_size mode r s o)
  checked-After mode r s none = tt
  checked-After mode r s (some (t, err)) = touched-After mode s s.samples t _ (
      if-holds (ltb_ℤ err (pos 0)) _ _ (After mode (record s { transfer = t }))
        (λ e. touch-Kept mode (record s { transfer = t }) s.samples t (check_failed ∷ s.messages))
        (λ e.
          if-holds (is_zero err) _ _ (After mode (record s { transfer = t }))
            (λ f. touch-Kept mode (record s { transfer = t }) s.samples t s.messages)
            (λ f. transfer-After mode r (record s { transfer = t }))))

  receive-touch :
      (len : ℤ) (buf : List ℕ) (s : Thread)
      → (x : Samples) × (receive speex period_size len buf s ≡ record s { samples = x })
  unfolding receive take_packet
  receive-touch (pos n) buf s =
      if-holds (ltb 0 n) _ _ (λ (r : Thread). (x : Samples) × (r ≡ record s { samples = x }))
        (λ e. (_, refl)) (λ e. (s.samples, refl))
  receive-touch (negsuc n) buf s = (s.samples, refl)

  round-After :
      (mode : StreamMode) (r : AudioRound) (s : Thread)
      → After mode s (audio_round speex period_size mode r s)
  unfolding audio_round
  round-After mode r s =
      let same = touch-Kept mode s s.samples s.transfer s.messages in
      let (x, got) = receive-touch r.len r.stream_buf s in
      if-holds (not r.a_running) _ _ (After mode s) (λ e. same)
        (λ e.
          if-holds (ltb_ℤ r.len (pos 0)) _ _ (After mode s) (λ f. same)
            (λ f. rw got (
              touched-After mode s x s.transfer _ (
                checked-After mode r (record s { samples = x })
                  (snd_transfer_check period_size r.check s.transfer)))))

  -- What a round is given where its recoveries end.
  abbrev pub Enough : AudioRound → Type 0
  Enough r =
      (resume_limit ≤ length r.check.on_state.resume)
      × (resume_limit ≤ length r.check.on_avail.resume)
      × (resume_limit ≤ length r.on_commit.resume)

  abbrev Done : Option (Flow × Thread) → Type 0
  Done o = (f : Flow) × (t : Thread) × (o ≡ some (f, t))

  transfer-total :
      (mode : StreamMode) (r : AudioRound) (s : Thread)
      → resume_limit ≤ length r.on_commit.resume
      → Done (transfer_round speex period_size mode r s)
  unfolding transfer_round
  transfer-total mode r s enough =
      let t : Transfer = record (s.transfer) { frames = clamp s.transfer.frames } in
      let (u, err, found) = snd_transfer_commit_total r.on_commit r.commits t enough in
      rw found (if-holds (ltb_ℤ err (pos 0)) _ _ Done (λ e. (_, _, refl)) (λ e. (_, _, refl)))

  round-total :
      (mode : StreamMode) (r : AudioRound) (s : Thread)
      → Enough r
      → Done (audio_round speex period_size mode r s)
  unfolding audio_round
  round-total mode r s enough =
      let (t, err, found) =
        snd_transfer_check_total period_size r.check s.transfer enough.0 enough.1 in
      if-holds (not r.a_running) _ _ Done (λ e. (_, _, refl))
        (λ e.
          if-holds (ltb_ℤ r.len (pos 0)) _ _ Done (λ f. (_, _, refl))
            (λ f. rw found (
              if-holds (ltb_ℤ err (pos 0)) _ _ Done (λ g. (_, _, refl))
                (λ g.
                  if-holds (is_zero err) _ _ Done (λ h. (_, _, refl))
                    (λ h.
                      transfer-total mode r
                        (record (receive speex period_size r.len r.stream_buf s) { transfer = t })
                        enough.2)))))

  stopped-leaves :
      (mode : StreamMode) (r : AudioRound) (s : Thread)
      → r.a_running ≡ false
      → audio_round speex period_size mode r s ≡ some (leaves, s)
  unfolding audio_round
  stopped-leaves mode r s stopped = rw stopped refl

  -- The rounds until `a_running` is cleared, each with what its recoveries need.
  abbrev pub Ending : List AudioRound → Type 0
  Ending [] = ⊥
  Ending (r ∷ rs) = Enough r × ((r.a_running ≡ false) ⊎ Ending rs)

  abbrev Ends : StreamMode → Thread → Option Thread → Type 0
  Ends mode s o = (t : Thread) × (o ≡ some t) × Kept mode s t

  flow-Ends :
      (rs : List AudioRound) (mode : StreamMode) (r : AudioRound) (s : Thread) (f : Flow)
      (t : Thread)
      → Kept mode s t
      → audio_round speex period_size mode r s ≡ some (f, t)
      → (r.a_running ≡ false) ⊎ Ending rs
      → (Ending rs → Ends mode t (audio_loop speex period_size rs mode t))
      → Ends mode s (follow (some (f, t)) (λ u. audio_loop speex period_size rs mode u))
  flow-Ends rs mode r s leaves t kept found rest later = (t, refl, kept)
  flow-Ends rs mode r s goes_on t kept found (inl stopped) later =
      absurd (let ends = stopped-leaves mode r s stopped in cc)
  flow-Ends rs mode r s goes_on t kept found (inr more) later =
      let (u, ended, kept_on) = later more in (u, ended, Kept-trans mode s t u kept kept_on)

  pub loop-Ends :
      (rs : List AudioRound) (mode : StreamMode) (s : Thread)
      → Ending rs
      → Ends mode s (audio_loop speex period_size rs mode s)
  unfolding audio_loop
  loop-Ends [] mode s ending = absurd ending
  loop-Ends (r ∷ rs) mode s ending =
      let (f, t, found) = round-total mode r s ending.0 in
      let kept : Kept mode s t = subst (After mode s) found (round-After mode r s) in
      rw (audio_loop, found)
        (flow-Ends rs mode r s f t kept found ending.1 (λ later. loop-Ends rs mode t later))
