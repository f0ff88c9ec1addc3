-- ===== src/Life/Stops.antt =====
-- `Stop` comes back.
use droidcam_linux_client.Prelude.{
  ℕ, suc, ◌+◌, ◌≤◌, ◌≡◌, ◌≢◌, refl, false, ◌||◌, arith, ◌⊎◌, inl, inr,
}
use droidcam_linux_client.Life.{
  MainPc, gtk, join_video, join_audio, join_decode, join_battery, Life,
}
use droidcam_linux_client.Life.Steps.{OwnStep, ThreadStep, Reach}
use droidcam_linux_client.Life.Owned.{Clean, threads-IsOwned, owned-Clean}
use droidcam_linux_client.Life.Nearer.{to_go, AllTimed, step-Nearer}
use droidcam_linux_client.Life.Going.{can_go, Reach-again}

-- So many steps within `Stop`.
pub data Stopping : ℕ → Life → Life → Type 0 where
  done : (s : Life) → Stopping 0 s s
  more :
      {n : ℕ} {s t u : Life} → s.main ≢ gtk → ThreadStep s t → Stopping n t u → Stopping (suc n) s u

-- `Stop` has come back and left no thread, or a step is possible that needs no phone.
abbrev pub GoesOn : Life → Type 0
GoesOn u = ((u.main ≡ gtk) × Clean u) ⊎ ((t : Life) × OwnStep u t)

gtk-cases : (m : MainPc) → (m ≡ gtk) ⊎ (m ≢ gtk)
gtk-cases gtk = inl refl
gtk-cases join_video = inr (λ e. cc)
gtk-cases join_audio = inr (λ e. cc)
gtk-cases join_decode = inr (λ e. cc)
gtk-cases join_battery = inr (λ e. cc)

Stopping-GoesOn :
    {n : ℕ} {s u : Life}
    → Stopping n s u
    → Reach s
    → (s.v_running || s.a_running) ≡ false
    → AllTimed s
    → (n + to_go u ≤ to_go s) × GoesOn u
Stopping-GoesOn (Stopping.done s) r off timed =
    let own = threads-IsOwned r in
    (
      omega arith,
      elim (gtk-cases s.main) [
        | inl back ↦ inl (back, owned-Clean s own back off)
        | inr not_yet ↦ inr (can_go s own (Reach-again r) timed not_yet)
      ],
    )
Stopping-GoesOn (Stopping.more stops st rest) r off timed =
    let (fewer, still_off, still_timed) = step-Nearer st stops off in
    let (few, last) = Stopping-GoesOn rest (Reach.next r st) still_off (still_timed timed) in
    (omega (arith, fewer, few), last)

to_go-bounds : (s : Life) → to_go s ≤ 15
to_go-bounds s = ground arith

-- In every state within `Stop` that the client can come to and in which every socket that a thread
-- receives on, or will, has a timeout, as those of `Connect` have: no run of steps within `Stop`,
-- of the threads and the phone in any order, has more than fifteen steps; and as long as `Stop` has
-- not come back to the main loop, with the flags cleared and every thread joined, some step is
-- possible that needs no answer of the phone.
pub stop_returns :
    {s : Life}
    → Reach s
    → s.main ≢ gtk
    → AllTimed s
    → (n : ℕ) (u : Life) → Stopping n s u
    → (n ≤ 15) × GoesOn u
stop_returns {s} r stops timed n u steps =
    let off : (s.v_running || s.a_running) ≡ false =
      ground (arith, (threads-IsOwned r).stopping, stops) in
    let (few, last) = Stopping-GoesOn steps r off timed in
    (omega (arith, few, to_go-bounds s), last)
