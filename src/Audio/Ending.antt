-- ===== src/Audio/Ending.antt =====
-- How `AudioThreadProc` ends: its sockets, and the requests that it has sent.
use droidcam_linux_client.Prelude.{
  ℕ, ◌+◌, ◌≡◌, ◌≢◌, refl, Bool, true, false, not, ◌&&◌, if◌then◌else◌, if-holds, Option, some,
  subst, List, arith, Bool-cases, inl, inr,
}
use droidcam_linux_client.Prelude.Int.{ℤ, pos, ltb_ℤ, leb_ℤ}
use droidcam_linux_client.Net.Defs.{is_invalid}
use droidcam_linux_client.Audio.Play.{Samples}
use droidcam_linux_client.Audio.Setup.{
  StreamMode, tcp_stream, udp_stream, missing_device, SetupAnswers, wait_video, get_connection,
  tcp_only, udp_loop, TcpSetup, no_connection, accepted, refused, tcp_setup,
}
use droidcam_linux_client.Audio.Thread.{
  Thread, AudioRound, new_thread, say, leave, opened, stream, tcp_end, tcp_thread, udp_thread,
  connect_thread, audio_thread,
}
use droidcam_linux_client.Audio.Loop.{Ending, loop-Ends}
use droidcam_linux_client.Audio.Closed.{Ended, Closed, leave-Closed, udp-Ended, tcp-Ended}

module _ (speex : List (List ℕ) → List ℕ → List ℕ) (period_size : ℕ) (rounds : List AudioRound)
    (ending : Ending speex period_size rounds) where
  stream-Closed :
      (mode : StreamMode) (socket : ℤ) (s : Thread)
      → ltb_ℤ (pos 0) socket ≡ true
      → (t : Thread) × (stream speex period_size rounds mode socket (opened socket s) ≡ some t)
        × Closed mode s t
  unfolding stream
  stream-Closed mode socket s up =
      let (t, found, kept) =
        loop-Ends speex period_size rounds mode (record (opened socket s) { a_active = true })
          ending in
      (leave mode socket t, rw found refl, leave-Closed mode socket s t up kept)

  tcp-Closed :
      (o : TcpSetup) (socket : ℤ) (s : Thread)
      → s.a_active ≡ false
      → (o ≢ no_connection → ltb_ℤ (pos 0) socket ≡ true)
      → (t : Thread) × (tcp_end speex period_size o rounds socket s ≡ some t)
        × Closed tcp_stream s t
  tcp-Closed no_connection socket s idle up =
      (s, refl, record { inactive = idle; sockets = refl; stops = refl; counted = refl })
  tcp-Closed (refused m) socket s idle up = (
    _,
    refl,
    leave-Closed tcp_stream socket s (say m (opened socket s)) (up (λ e. cc))
        (record { sockets = refl; stops = refl; counted = refl }),
  )
  tcp-Closed accepted socket s idle up = stream-Closed tcp_stream socket s (up (λ e. cc))

  udp_socket_up : (a : SetupAnswers) → tcp_only a ≡ false → ltb_ℤ (pos 0) a.udp_socket ≡ true
  udp_socket_up a udp =
      let above : leb_ℤ a.udp_socket (pos 0) ≡ false = ground (arith, udp) in ground (arith, above)

  -- The connection is used only where it is a descriptor above 0.
  setup-connected :
      (a : SetupAnswers) → tcp_setup a ≢ no_connection → is_invalid (get_connection a) ≡ false
  unfolding tcp_setup
  setup-connected a ne = elim (Bool-cases (is_invalid (get_connection a))) [
    | inl bad ↦ absurd (ne (rw bad refl))
    | inr good ↦ good
  ]

  abbrev Ends : SetupAnswers → Bool → Option Thread → Type 0
  Ends a goes o = (t : Thread) × (o ≡ some t) × Ended a goes t

  udp_thread-Ends :
      (a : SetupAnswers) (silent : Samples)
      → tcp_only a ≡ false
      → (is_invalid (get_connection a) ≡ false → ltb_ℤ (pos 0) (get_connection a) ≡ true)
      → Ends a true (
          if tcp_only a
          then tcp_thread speex period_size a rounds (new_thread silent)
          else udp_thread speex period_size a rounds (new_thread silent))
  unfolding udp_thread tcp_thread
  udp_thread-Ends a silent udp up =
      let sent = (udp_loop 3 a.polls 0).1 in
      let tried : Thread = record (opened a.udp_socket (new_thread silent)) {
        requests = 0 + sent;
      } in
      let count : 0 + sent ≡ sent = omega arith in
      elim (Bool-cases (udp_loop 3 a.polls 0).0) [
        | inl arrives ↦
            let start : Thread = record (new_thread silent) { requests = 0 + sent } in
            let (t, found, closed) =
              stream-Closed udp_stream a.udp_socket start (udp_socket_up a udp) in
            (
              t,
              rw (udp, arrives) found,
              udp-Ended a start t udp arrives refl refl count refl refl closed,
            )
        | inr silence ↦
            let (t, found, closed) =
              tcp-Closed (tcp_setup a) (get_connection a) tried refl
                (λ ne. up (setup-connected a ne)) in
            (
              t,
              rw (udp, silence) found,
              tcp-Ended a tried t (rw (udp, silence) refl) (rw (udp, silence) refl) refl
                  (rw udp count) closed,
            )
      ]

  connect-Ends :
      (a : SetupAnswers) (silent : Samples) (b : Bool)
      → (is_invalid (get_connection a) ≡ false → ltb_ℤ (pos 0) (get_connection a) ≡ true)
      → Ends a b (connect_thread speex period_size a rounds (new_thread silent) (some b))
  unfolding udp_thread tcp_thread
  connect-Ends a silent false up =
      (_, refl, record { inactive = refl; sockets = refl; stops = refl; requests = refl })
  connect-Ends a silent true up = elim (Bool-cases (tcp_only a)) [
    | inl tcp ↦
        let (t, found, closed) =
          tcp-Closed (tcp_setup a) (get_connection a) (new_thread silent) refl
            (λ ne. up (setup-connected a ne)) in
        (
          t,
          rw tcp found,
          tcp-Ended a (new_thread silent) t (rw tcp refl) (rw tcp refl) refl (rw tcp refl) closed,
        )
    | inr udp ↦ udp_thread-Ends a silent udp up
  ]

  -- Whatever the phone, the sockets and the sound device answer: if the wait for the video ends, each
  -- recovery is given 60000 answers of `snd_pcm_resume`, `a_running` is cleared at some time, and a
  -- connection is a descriptor above 0, the thread ends. Then the stream is not active; of the sockets
  -- that it opened, the UDP socket is left open exactly where UDP was given up, and no other; STOP_REQ
  -- was sent once if the stream was one over UDP, and not otherwise; and the number of AUDIO_REQ over UDP
  -- is that of the tries, and in a UDP stream one more for every 1025 transfers.
  pub thread_ends :
      (a : SetupAnswers) (silent : Samples) (b : Bool)
      → wait_video a.waits ≡ some b
      → (is_invalid (get_connection a) ≡ false → ltb_ℤ (pos 0) (get_connection a) ≡ true)
      → (t : Thread) × (audio_thread speex period_size a rounds silent ≡ some t)
        × Ended a (a.handle && b) t
  unfolding audio_thread
  thread_ends a silent b waited up =
      if-holds (not a.handle) _ _ (Ends a (a.handle && b))
        (λ missing.
          let none_goes : false ≡ (a.handle && b) = ground (arith, missing) in
          subst (λ goes. Ends a goes (some (say missing_device (new_thread silent)))) none_goes
            (_, refl, record { inactive = refl; sockets = refl; stops = refl; requests = refl }))
        (λ device.
          let goes_as : b ≡ (a.handle && b) = ground (arith, device) in
          rw waited (
            subst
              (λ goes.
                Ends a goes
                  (connect_thread speex period_size a rounds (new_thread silent) (some b)))
              goes_as (connect-Ends a silent b up)))
