-- ===== src/Battery/Thread.antt =====
-- The loop of `BatteryThreadProc` of src/av.c.
use droidcam_linux_client.Prelude.{
  ℕ, zero, suc, ◌+◌, ◌*◌, ◌≤◌, ◌≡◌, refl, Bool, true, false, not, if◌then◌else◌, Option, none, some,
  List, [], ◌∷◌, ◌++◌, length, arith, ◌⊎◌, inl, inr, ◌∙◌, ap, if-holds, Bool-cases, sym,
}
use droidcam_linux_client.Prelude.Int.{ℤ, eq_ℤ_self}
use droidcam_linux_client.Net.Defs.{is_invalid, disconnect}
use droidcam_linux_client.Battery.{Report, battery_round}
use droidcam_linux_client.Battery

-- The rounds of the pause.
abbrev pub pause_limit : ℕ
pause_limit = 30000

-- What a round of the loop meets: the flags at its head, whether a stream is active, the socket
-- that `GetConnection` returns, whether `Send` and `RecvAll` succeed, the buffer, and the flags that
-- the pause sees.
pub record BatteryTurn : Type 0 where
  pub running : Bool
  pub active : Bool
  pub socket : ℤ
  pub sent : Bool
  pub received : Bool
  pub buffer : List ℕ
  pub pause : List Bool

abbrev pub round_of : BatteryTurn → Battery.Round
round_of r = record {
  active = r.active;
  connected = not (is_invalid r.socket);
  sent = r.sent;
  received = r.received;
  buffer = r.buffer;
}

-- The open sockets, the labels that were shown, the latest first, and the milliseconds slept.
pub record BatteryThread : Type 0 where
  pub open_sockets : List ℤ
  pub labels : List (List ℕ)
  pub slept : ℕ

-- The `for` loop behind LOOP: how often it sleeps; no value while flags are still to come.
unfoldable pub pause_loop : ℕ → List Bool → Option ℕ
pause_loop zero flags = some 0
pause_loop (suc k) [] = none
pause_loop (suc k) (false ∷ flags) = some 0
pause_loop (suc k) (true ∷ flags) = elim (pause_loop k flags) [
  | none ↦ none
  | some n ↦ some (n + 1)
]

abbrev pub show_label : Option (List ℕ) → BatteryThread → BatteryThread
show_label none s = s
show_label (some l) s = record s { labels = l ∷ s.labels }

abbrev pub open_socket : ℤ → BatteryThread → BatteryThread
open_socket socket s =
    if is_invalid socket then s else record s { open_sockets = socket ∷ s.open_sockets }

-- A round with an active stream, up to the pause.
unfoldable pub ask_level : BatteryTurn → BatteryThread → BatteryThread
ask_level r s =
    let s : BatteryThread =
      show_label (battery_round (round_of r)).label (open_socket r.socket s) in
    record s { open_sockets = disconnect r.socket s.open_sockets }

abbrev pub add_sleep : BatteryThread → ℕ → BatteryThread
add_sleep s n = record s { slept = s.slept + n }

unfoldable pub battery_thread : List BatteryTurn → BatteryThread → Option BatteryThread
battery_thread [] s = none
battery_thread (r ∷ rs) s =
    if not r.running
    then some s
    else if not r.active
    then battery_thread rs (add_sleep s 50)
    else elim (pause_loop pause_limit r.pause) [
      | none ↦ none
      | some n ↦ battery_thread rs (add_sleep (ask_level r s) n)
    ]

abbrev pub has_false : List Bool → Bool
has_false [] = false
has_false (false ∷ flags) = true
has_false (true ∷ flags) = has_false flags

-- The flags are cleared while the thread pauses, or the pause comes to its end.
abbrev pub PauseEnds : List Bool → Type 0
PauseEnds flags = (has_false flags ≡ true) ⊎ (pause_limit ≤ length flags)

pause-total :
    (k : ℕ) (flags : List Bool)
    → (has_false flags ≡ true) ⊎ (k ≤ length flags)
    → (n : ℕ) × (pause_loop k flags ≡ some n) × (n ≤ k)
unfolding pause_loop
pause-total zero flags ends = (0, refl, omega arith)
pause-total (suc k) [] (inl cleared) = cc
pause-total (suc k) [] (inr enough) = absurd (omega arith)
pause-total (suc k) (false ∷ flags) ends = (0, refl, omega arith)
pause-total (suc k) (true ∷ flags) (inl cleared) =
    let (n, e, few) = pause-total k flags (inl cleared) in
    (n + 1, rw (pause_loop, e) refl, omega (arith, few))
pause-total (suc k) (true ∷ flags) (inr enough) =
    let (n, e, few) = pause-total k flags (inr (omega arith)) in
    (n + 1, rw (pause_loop, e) refl, omega (arith, few))

-- Turns in which the thread is not yet stopped.
abbrev pub TurnsOn : List BatteryTurn → Type 0
TurnsOn [] = Unit {0}
TurnsOn (r ∷ rs) = (r.running ≡ true) × PauseEnds r.pause × TurnsOn rs

abbrev pub add_label : Option (List ℕ) → List (List ℕ) → List (List ℕ)
add_label none ls = ls
add_label (some l) ls = l ∷ ls

-- The labels of the rounds, the latest first.
abbrev pub labels_after : List BatteryTurn → List (List ℕ) → List (List ℕ)
labels_after [] ls = ls
labels_after (r ∷ rs) ls = labels_after rs (add_label (battery_round (round_of r)).label ls)

inactive-label : (r : BatteryTurn) → r.active ≡ false → (battery_round (round_of r)).label ≡ none
unfolding battery_round
inactive-label r off = rw off refl

show_lem :
    (o : Option (List ℕ)) (s : BatteryThread)
    → show_label o s ≡ record s { labels = add_label o s.labels }
show_lem none s = refl
show_lem (some l) s = refl

-- The socket of a round is open only within it.
open-disconnect :
    (socket : ℤ) (s : BatteryThread)
    → s.open_sockets ≡ []
    → disconnect socket (open_socket socket s).open_sockets ≡ []
open-disconnect socket s closed =
    if-holds (is_invalid socket) s (record s { open_sockets = socket ∷ s.open_sockets })
      (λ (t : BatteryThread). disconnect socket t.open_sockets ≡ []) (λ e. rw closed refl)
      (λ e. rw (eq_ℤ_self socket) closed)

open-rest :
    (socket : ℤ) (s : BatteryThread)
    → ((open_socket socket s).labels ≡ s.labels) × ((open_socket socket s).slept ≡ s.slept)
open-rest socket s = ground arith

ask-labels :
    (r : BatteryTurn) (s : BatteryThread)
    → s.open_sockets ≡ []
    → ((ask_level r s).open_sockets ≡ [])
      × ((ask_level r s).labels ≡ add_label (battery_round (round_of r)).label s.labels)
      × ((ask_level r s).slept ≡ s.slept)
unfolding ask_level
ask-labels r s closed =
    let (labels, slept) = open-rest r.socket s in
    rw (show_lem (battery_round (round_of r)).label (open_socket r.socket s)) (
      open-disconnect r.socket s closed,
      ap (add_label (battery_round (round_of r)).label) labels,
      slept,
    )

-- The thread has ended: nothing is open, these labels were shown, and it slept at most so long.
abbrev pub Ended : List (List ℕ) → ℕ → Option BatteryThread → Type 0
Ended labels most o =
    (s : BatteryThread) × (o ≡ some s)
    × (s.open_sockets ≡ [])
    × (s.labels ≡ labels)
    × (s.slept ≤ most)

-- However the rounds before it went, the thread ends in the round in which the flags are cleared,
-- if every pause ends: no socket is left open, the labels that were shown are those of the rounds with an
-- answer, in their order, and a round pauses for at most 30 seconds.
pub battery_thread_ends :
    (rs : List BatteryTurn) (last : BatteryTurn) (rest : List BatteryTurn) (s : BatteryThread)
    → TurnsOn rs
    → last.running ≡ false
    → s.open_sockets ≡ []
    → Ended
        (labels_after rs s.labels)
        (s.slept + length rs * 30000)
        (battery_thread (rs ++ last ∷ rest) s)
unfolding battery_thread
battery_thread_ends [] last rest s on stops closed =
    rw (battery_thread, stops) (s, refl, closed, refl, omega arith)
battery_thread_ends (r ∷ rs) last rest s (running, ends, on) stops closed =
    elim (Bool-cases r.active) [
      | inr off ↦
          let (t, is, shut, labels, few) =
            battery_thread_ends rs last rest (add_sleep s 50) on stops closed in
          rw (battery_thread, running, off)
            (
              t,
              is,
              shut,
              labels
                  ∙ ap (λ o. labels_after rs (add_label o s.labels))
                      (sym (inactive-label (record r { active = false }) refl)),
              omega (arith, few),
            )
      | inl active ↦
          let (n, slept, least) = pause-total pause_limit r.pause ends in
          let (shut, labels, same) = ask-labels r s closed in
          let (t, is, done, all, few) =
            battery_thread_ends rs last rest (add_sleep (ask_level r s) n) on stops shut in
          rw (battery_thread, running, active, slept)
            (
              t,
              is,
              done,
              all ∙ ap (labels_after rs) (labels ∙ rw active refl),
              omega (arith, few, same, least),
            )
    ]
