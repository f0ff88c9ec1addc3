-- ===== src/Stream/Ends.antt =====
-- How the rounds of `VideoThreadProc` end.
use droidcam_linux_client.Prelude.{
  ℕ, ◌+◌, ◌≤◌, ◌≡◌, ◌⊎◌, inl, inr, refl, Bool, true, false, not, ◌&&◌, ◌||◌, if◌then◌else◌,
  if-holds, Bool-cases, Option, some, List, [], ◌∷◌, arith, ◌∙◌, ap, sym, subst,
}
use droidcam_linux_client.Prelude.Int.{ℤ, pos, leb_ℤ, eq_ℤ_self}
use droidcam_linux_client.Net.Defs.{invalid_socket, is_invalid}
use droidcam_linux_client.Net.Server.{
  ServerAnswers, Server, start_inet_server, remove, Round, accept_loop, accept_connection,
  connection_cleanup, IsOwner, server_socket_owned,
}
use droidcam_linux_client.Stream.Session.{
  VideoThread, LoopTurn, VideoRound, Held, accepted, server_wait, send_command, frame_loop, serve,
  early_out, leave_stream, round_with, close_server, behind_round, video_rounds, video_thread,
}

-- The sockets that are open while `videoSocket` is held.
abbrev pub held : ℤ → List ℤ
held socket = if is_invalid socket then [] else socket ∷ []

pub record Holds (socket : ℤ) (s : VideoThread) : Type 0 where
  pub sockets : s.open_sockets ≡ held socket
  pub owner : IsOwner s.server

-- The loop of `accept_connection` comes to an end.
abbrev pub Accepts : VideoRound → Type 0
Accepts r = (c : ℤ × Bool) × (accept_loop r.accepts ≡ some c)

accept_connection-answers :
    (a : ServerAnswers) (rs : List Round) (s : Server) (c : ℤ × Bool)
    → accept_loop rs ≡ some c
    → (client : ℤ) × ((accept_connection a rs s).1 ≡ some client)
unfolding accept_connection
accept_connection-answers a rs s c answered =
    let p = (if is_invalid s.socket then start_inet_server a s else (s, true)) in
    if-holds (not p.1) _ _ (λ (r : Server × Option ℤ). (client : ℤ) × (r.1 ≡ some client))
      (λ e. (invalid_socket, refl)) (λ e. rw answered (c.0, refl))

-- A client is held from now on, and clients are waited for.
abbrev Received : VideoThread → ℤ → Option Held → Type 0
Received s client o =
    (keep_waiting : Bool) × (t : VideoThread) × (o ≡ some (client, keep_waiting, t))
    × Holds client t
    × (t.cleanups ≡ s.cleanups)

accepted-Received :
    (keep_waiting : Bool) (s : VideoThread) (server : Server) (client : ℤ)
    → s.open_sockets ≡ []
    → IsOwner server
    → Received s client (accepted keep_waiting s (server, some client))
accepted-Received keep_waiting s server client none_open own =
    if-holds (is_invalid client) _ _ (Received s client)
      (λ bad. (_, _, refl, record { sockets = rw bad none_open; owner = own }, refl))
      (λ good. (
        _,
        _,
        refl,
        record { sockets = rw good (ap (λ l. client ∷ l) none_open); owner = own },
        refl,
      ))

remove-held : (socket : ℤ) → remove socket (held socket) ≡ []
remove-held socket = elim (Bool-cases (is_invalid socket)) [
  | inl bad ↦ rw bad refl
  | inr good ↦ rw (good, eq_ℤ_self socket) refl
]

-- A round closes the socket and cleans up, whatever was answered.
record Cleaned (s t : VideoThread) : Type 0 where
  inactive : t.v_active ≡ false
  closed : t.open_sockets ≡ []
  server : t.server ≡ s.server
  cleanups : t.cleanups ≡ s.cleanups + 1

-- The loop over the frames breaks at a turn: `v_running` is cleared, or `RecvAll` returns no data.
abbrev breaks : LoopTurn → Bool
breaks t = not t.v_running || leb_ℤ t.got_length (pos 0) || leb_ℤ t.got_data (pos 0)

abbrev pub Breaks : List LoopTurn → Type 0
Breaks [] = ⊥
Breaks (t ∷ ts) = (breaks t ≡ true) ⊎ Breaks ts

-- A call has ended with the sockets and the count of cleanups as they were.
abbrev Kept : VideoThread → Option VideoThread → Type 0
Kept s o =
    (u : VideoThread) × (o ≡ some u)
    × (u.open_sockets ≡ s.open_sockets)
    × (u.server ≡ s.server)
    × (u.cleanups ≡ s.cleanups)

sent-same :
    (cmd : ℕ) (s : VideoThread)
    → ((send_command cmd s).open_sockets ≡ s.open_sockets)
      × ((send_command cmd s).server ≡ s.server)
      × ((send_command cmd s).cleanups ≡ s.cleanups)
sent-same cmd s = (ground arith, ground arith, ground arith)

sent-Kept : (t : LoopTurn) (s : VideoThread) → Kept s (some (send_command t.thread_cmd s))
sent-Kept t s =
    let (sockets, server, count) = sent-same t.thread_cmd s in (_, refl, sockets, server, count)

frame_loop-Kept : (ts : List LoopTurn) (s : VideoThread) → Breaks ts → Kept s (frame_loop ts s)
unfolding frame_loop
frame_loop-Kept [] s ends = absurd ends
frame_loop-Kept (t ∷ ts) s ends =
    let sent : VideoThread = send_command t.thread_cmd s in
    if-holds (not t.v_running) _ _ (Kept s) (λ stop. (s, refl, refl, refl, refl))
      (λ goes.
        if-holds (leb_ℤ t.got_length (pos 0)) _ _ (Kept s) (λ gone. sent-Kept t s)
          (λ more.
            if-holds (leb_ℤ t.got_data (pos 0)) _ _ (Kept s) (λ gone. sent-Kept t s)
              (λ whole. elim ends [
                | inl now ↦ absurd (ground (arith, now))
                | inr then_on ↦
                    let (u, is, sockets, server, count) =
                      frame_loop-Kept ts (record sent { frames = sent.frames + 1 }) then_on in
                    (
                      u,
                      is,
                      sockets ∙ (sent-same t.thread_cmd s).0,
                      server ∙ (sent-same t.thread_cmd s).1,
                      count ∙ (sent-same t.thread_cmd s).2,
                    )
              ])))

-- A round that comes to its loop over the frames.
abbrev pub is_served : VideoRound → Bool
is_served r = not (leb_ℤ r.sent (pos 0)) && not (leb_ℤ r.received (pos 0)) && r.prepared

serve-Kept :
    (r : VideoRound) (s : VideoThread) → (is_served r ≡ true → Breaks r.turns) → Kept s (serve r s)
unfolding serve
serve-Kept r s ends =
    if-holds (leb_ℤ r.sent (pos 0)) _ _ (Kept s) (λ e. (_, refl, refl, refl, refl))
      (λ sent.
        if-holds (leb_ℤ r.received (pos 0)) _ _ (Kept s) (λ e. (_, refl, refl, refl, refl))
          (λ got.
            if-holds (not r.prepared) _ _ (Kept s) (λ e. (_, refl, refl, refl, refl))
              (λ ready.
                frame_loop-Kept r.turns (record s { v_active = true; streams = s.streams + 1 })
                  (ends (ground (arith, sent, got, ready))))))

abbrev Leaves : VideoThread → Option VideoThread → Type 0
Leaves s o = (u : VideoThread) × (o ≡ some u) × Cleaned s u

leave_stream-Cleaned :
    (socket : ℤ) (s : VideoThread) (o : Option VideoThread)
    → Holds socket s
    → Kept s o
    → Leaves s (leave_stream socket o)
unfolding leave_stream early_out
leave_stream-Cleaned socket s o holds (u, is, sockets, server, count) = rw is (
  early_out socket u,
  refl,
  record {
    inactive = refl;
    closed = ap (remove socket) (sockets ∙ holds.sockets) ∙ remove-held socket;
    server = server;
    cleanups = ap (λ n. n + 1) count;
  },
)

round-Cleaned :
    (r : VideoRound) (socket : ℤ) (s : VideoThread)
    → (is_served r ≡ true → Breaks r.turns)
    → Holds socket s
    → Leaves s (round_with r socket s)
unfolding round_with
round-Cleaned r socket s ends holds = leave_stream-Cleaned socket s _ holds (
    if-holds (is_invalid socket) (some s) (serve r s) (Kept s) (λ bad. (s, refl, refl, refl, refl))
      (λ good. serve-Kept r s ends))

wait-Received :
    (r : VideoRound) (socket : ℤ) (keep_waiting : Bool) (s : VideoThread)
    → Accepts r
    → Holds socket s
    → (client : ℤ) × Received s client (server_wait r socket keep_waiting s)
unfolding server_wait
wait-Received r socket keep_waiting s (c, answered) holds =
    let answer = accept_connection r.set_up r.accepts s.server in
    if-holds (is_invalid socket) (accepted keep_waiting s answer) (some (socket, keep_waiting, s))
      (λ o. (client : ℤ) × Received s client o)
      (λ bad.
        let (client, found) = accept_connection-answers r.set_up r.accepts s.server c answered in
        let own = (server_socket_owned r.set_up r.accepts s.server holds.owner).0 in
        let none_open : s.open_sockets ≡ [] = holds.sockets ∙ rw bad refl in
        (
          client,
          subst (λ o. Received s client (accepted keep_waiting s (answer.0, o))) (sym found)
              (accepted-Received keep_waiting s answer.0 client none_open own),
        ))
      (λ good. (socket, (keep_waiting, s, refl, holds, refl)))

-- The rounds until `v_running` is cleared, each with an end of its `accept_connection` and, where it
-- comes to it, with a break of its loop over the frames.
abbrev pub Ending : List VideoRound → Type 0
Ending [] = ⊥
Ending (r ∷ rs) =
    Accepts r × (is_served r ≡ true → Breaks r.turns) × ((r.v_running ≡ false) ⊎ Ending rs)

-- The thread has ended.
pub record Ended (s t : VideoThread) : Type 0 where
  pub inactive : t.v_active ≡ false
  pub closed : t.open_sockets ≡ []
  pub server_closed : t.server.open_sockets ≡ []
  pub cleaned : s.cleanups + 1 ≤ t.cleanups

abbrev Ends : VideoThread → Option VideoThread → Type 0
Ends s o = (t : VideoThread) × (o ≡ some t) × Ended s t

last_round-Ended :
    (s t u : VideoThread)
    → t.cleanups ≡ s.cleanups
    → IsOwner t.server
    → Cleaned t u
    → Ended s (close_server u)
unfolding connection_cleanup
last_round-Ended s t u count own cleaned = record {
  inactive = cleaned.inactive;
  closed = cleaned.closed;
  server_closed = rw cleaned.server (ground (arith, own.idle, own.active));
  cleaned = omega (arith, cleaned.cleanups, count);
}

next_round-Ended :
    (s t u v : VideoThread) → t.cleanups ≡ s.cleanups → Cleaned t u → Ended u v → Ended s v
next_round-Ended s t u v count cleaned ended = record {
  inactive = ended.inactive;
  closed = ended.closed;
  server_closed = ended.server_closed;
  cleaned = omega (arith, cleaned.cleanups, count, ended.cleaned);
}

next-Holds :
    (socket : ℤ) (t u : VideoThread) → Holds socket t → Cleaned t u → Holds invalid_socket u
next-Holds socket t u holds cleaned = record {
  sockets = cleaned.closed;
  owner = subst IsOwner (sym cleaned.server) holds.owner;
}

later : (rs : List VideoRound) (b : Bool) → (b ≡ false) ⊎ Ending rs → b ≡ true → Ending rs
later rs b (inl stopped) more = absurd cc
later rs b (inr rest) more = rest

rounds-Ends :
    (rs : List VideoRound) (socket : ℤ) (keep_waiting : Bool) (s : VideoThread)
    → Ending rs
    → Holds socket s
    → Ends s (video_rounds rs socket keep_waiting s)
unfolding video_rounds behind_round
rounds-Ends [] socket keep_waiting s ending holds = absurd ending
rounds-Ends (r ∷ rs) socket keep_waiting s ending holds =
    let (client, (keep, t, found, now, count)) =
      wait-Received r socket keep_waiting s ending.0 holds in
    let (u, left, cleaned) = round-Cleaned r client t ending.1 now in
    rw (video_rounds, found, left)
      (if-holds (r.v_running && keep) _ _ (Ends s)
        (λ more.
          let (v, ended, good) =
            rounds-Ends rs invalid_socket keep u
              (later rs r.v_running ending.2 (ground (arith, more)))
              (next-Holds client t u now cleaned) in
          (v, ended, next_round-Ended s t u v count cleaned good))
        (λ last. (close_server u, refl, last_round-Ended s t u count now.owner cleaned)))

-- In server mode or with the socket of a client, and for all answers of the phone: where `RecvAll`
-- returns each time, if each wait for a client comes to an end, each loop over the frames sees
-- `v_running` cleared or gets no more data, and `v_running` is cleared behind some round, then the
-- video thread ends. Then the
-- stream is not active, every socket of a phone is closed, the server socket is closed, and
-- `decoder_cleanup` has been called at least once.
pub video_thread_ends :
    (rs : List VideoRound) (socket : ℤ) (s : VideoThread)
    → Ending rs
    → Holds socket s
    → (t : VideoThread) × (video_thread rs socket s ≡ some t) × Ended s t
unfolding video_thread
video_thread_ends rs socket s ending holds = rounds-Ends rs socket false s ending holds
