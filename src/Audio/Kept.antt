-- ===== src/Audio/Kept.antt =====
-- What a round of the loop of `AudioThreadProc` leaves alone, and what it counts.
use droidcam_linux_client.Prelude.{
  ◌+◌, ◌*◌, ◌≤◌, ◌≡◌, refl, ltb, ltb→lt, if-holds, Option, none, some, List, ◌∷◌, length, arith,
  ◌∙◌,
}
use droidcam_linux_client.Sound.Transfer.{Transfer}
use droidcam_linux_client.Audio.Play.{Samples, Output}
use droidcam_linux_client.Audio.Setup.{StreamMode, tcp_stream, udp_stream, AudioMessage}
use droidcam_linux_client.Audio.Thread.{Thread, Flow, keep_alive}

-- Over UDP a keep-alive goes out behind every 1025 transfers, and `keepAliveCounter` holds those since
-- the last; over TCP none does.
abbrev pub Counted : StreamMode → Thread → Thread → Type 0
Counted tcp_stream s t = t.requests ≡ s.requests
Counted udp_stream s t =
    s.keep_alive_counter ≤ 1024
    → (1025 * t.requests + t.keep_alive_counter + length s.outputs
        ≡ 1025 * s.requests + s.keep_alive_counter + length t.outputs)
      × (t.keep_alive_counter ≤ 1024)

-- The sockets are left alone, and no STOP_REQ is sent.
pub record Kept (mode : StreamMode) (s t : Thread) : Type 0 where
  pub sockets : t.open_sockets ≡ s.open_sockets
  pub stops : t.stops ≡ s.stops
  pub counted : Counted mode s t

pub Counted-trans :
    (mode : StreamMode) (s t u : Thread) → Counted mode s t → Counted mode t u → Counted mode s u
Counted-trans tcp_stream s t u st tu = tu ∙ st
Counted-trans udp_stream s t u st tu =
    λ few. let (first, still) = st few in let (second, last) = tu still in (omega arith, last)

pub Kept-trans :
    (mode : StreamMode) (s t u : Thread) → Kept mode s t → Kept mode t u → Kept mode s u
Kept-trans mode s t u st tu = record {
  sockets = tu.sockets ∙ st.sockets;
  stops = tu.stops ∙ st.stops;
  counted = Counted-trans mode s t u st.counted tu.counted;
}

-- What is not counted may change.
pub Counted-same :
    (mode : StreamMode) (s t : Thread)
    → t.requests ≡ s.requests
    → t.keep_alive_counter ≡ s.keep_alive_counter
    → t.outputs ≡ s.outputs
    → Counted mode s t
Counted-same tcp_stream s t r k o = r
Counted-same udp_stream s t r k o = λ few. (rw (r, k, o) refl, rw k few)

-- The samples, the transfer and the messages do not matter.
pub touch-Kept :
    (mode : StreamMode) (s : Thread) (x : Samples) (t : Transfer) (m : List AudioMessage)
    → Kept mode s (record s { samples = x; transfer = t; messages = m })
touch-Kept mode s x t m = record {
  sockets = refl;
  stops = refl;
  counted = Counted-same mode s _ refl refl refl;
}

abbrev pub After : StreamMode → Thread → Option (Flow × Thread) → Type 0
After mode s none = Unit {0}
After mode s (some (flow, t)) = Kept mode s t

pub keep_alive-Kept :
    (mode : StreamMode) (out : Output) (s : Thread)
    → Kept mode s (keep_alive mode (record s { outputs = out ∷ s.outputs }))
unfolding keep_alive
keep_alive-Kept tcp_stream out s = record { sockets = refl; stops = refl; counted = refl }
keep_alive-Kept udp_stream out s =
    if-holds (ltb 1024 (s.keep_alive_counter + 1)) _ _ (Kept udp_stream s)
      (λ full. record {
        sockets = refl;
        stops = refl;
        counted = λ few. (omega (arith, ltb→lt _ _ full), omega arith);
      })
      (λ room. record {
        sockets = refl;
        stops = refl;
        counted = λ few. (omega arith, ground arith);
      })
