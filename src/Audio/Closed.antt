-- ===== src/Audio/Closed.antt =====
-- The end of `AudioThreadProc` in numbers: the sockets and the requests.
use droidcam_linux_client.Prelude.{
  ◌+◌, ◌/◌, ◌≡◌, refl, Bool, true, false, not, ◌&&◌, if◌then◌else◌, [], ◌∷◌, length, arith, ◌∙◌,
}
use droidcam_linux_client.Prelude.Int.{ℤ, pos, ltb_ℤ, eq_ℤ_self}
use droidcam_linux_client.Audio.Setup.{
  StreamMode, tcp_stream, udp_stream, is_udp, SetupAnswers, tcp_only, udp_loop,
}
use droidcam_linux_client.Audio.Thread.{Thread, leave, opened}
use droidcam_linux_client.Audio.Kept.{Counted, Kept}

-- The thread tries UDP, where `goes` says that it has a device and has not been stopped before.
abbrev pub tries_udp : SetupAnswers → Bool → Bool
tries_udp a goes = goes && not (tcp_only a)

abbrev pub uses_udp : SetupAnswers → Bool → Bool
uses_udp a goes = tries_udp a goes && (udp_loop 3 a.polls 0).0

abbrev pub gives_up_udp : SetupAnswers → Bool → Bool
gives_up_udp a goes = tries_udp a goes && not (udp_loop 3 a.polls 0).0

-- The thread has ended: the stream is not active; a UDP socket is left open exactly where UDP was given
-- up, and no other; STOP_REQ was sent once over UDP, and not otherwise; and AUDIO_REQ went out over UDP
-- for each try, and behind every 1025 transfers of a UDP stream.
pub record Ended (a : SetupAnswers) (goes : Bool) (t : Thread) : Type 0 where
  pub inactive : t.a_active ≡ false
  pub sockets : t.open_sockets ≡ (if gives_up_udp a goes then a.udp_socket ∷ [] else [])
  pub stops : t.stops ≡ (if uses_udp a goes then 1 else 0)
  pub requests :
      t.requests
      ≡ (if tries_udp a goes then (udp_loop 3 a.polls 0).1 else 0)
        + (if uses_udp a goes then length t.outputs / 1025 else 0)

-- The thread `t` has come from `s`, with the socket closed that it opened there.
pub record Closed (mode : StreamMode) (s t : Thread) : Type 0 where
  pub inactive : t.a_active ≡ false
  pub sockets : t.open_sockets ≡ s.open_sockets
  pub stops : t.stops ≡ (if is_udp mode then s.stops + 1 else s.stops)
  pub counted : Counted mode s t

pub Counted-leave :
    (mode : StreamMode) (socket : ℤ) (s t : Thread)
    → Counted mode (record (opened socket s) { a_active = true }) t
    → Counted mode s (leave mode socket t)
unfolding leave
Counted-leave tcp_stream socket s t counted = counted
Counted-leave udp_stream socket s t counted = counted

pub leave-Closed :
    (mode : StreamMode) (socket : ℤ) (s t : Thread)
    → ltb_ℤ (pos 0) socket ≡ true
    → Kept mode (record (opened socket s) { a_active = true }) t
    → Closed mode s (leave mode socket t)
unfolding leave
leave-Closed mode socket s t up kept = record {
  inactive = refl;
  sockets = rw (up, kept.sockets, eq_ℤ_self socket) refl;
  stops = rw kept.stops refl;
  counted = Counted-leave mode socket s t kept.counted;
}

-- UDP or not, with the tries that went before.
pub udp-Ended :
    (a : SetupAnswers) (s t : Thread)
    → tcp_only a ≡ false
    → (udp_loop 3 a.polls 0).0 ≡ true
    → s.open_sockets ≡ []
    → s.stops ≡ 0
    → s.requests ≡ (udp_loop 3 a.polls 0).1
    → s.keep_alive_counter ≡ 0
    → s.outputs ≡ []
    → Closed udp_stream s t
    → Ended a true t
udp-Ended a s t udp arrives none_open no_stop requests zero_counter no_output closed =
    let (sum, few) = closed.counted (rw zero_counter (omega arith)) in
    let empty : length s.outputs ≡ 0 = rw no_output refl in
    record {
      inactive = closed.inactive;
      sockets = rw (udp, arrives) (closed.sockets ∙ none_open);
      stops = rw (udp, arrives, closed.stops, no_stop) refl;
      requests = rw (udp, arrives) (omega (arith, sum, few, empty, requests, zero_counter));
    }

pub tcp-Ended :
    (a : SetupAnswers) (s t : Thread)
    → uses_udp a true ≡ false
    → s.open_sockets ≡ (if gives_up_udp a true then a.udp_socket ∷ [] else [])
    → s.stops ≡ 0
    → s.requests ≡ (if tries_udp a true then (udp_loop 3 a.polls 0).1 else 0)
    → Closed tcp_stream s t
    → Ended a true t
tcp-Ended a s t tcp still_open no_stop requests closed = record {
  inactive = closed.inactive;
  sockets = closed.sockets ∙ still_open;
  stops = rw (tcp, closed.stops, no_stop) refl;
  requests = rw tcp (closed.counted ∙ requests ∙ omega arith);
}
