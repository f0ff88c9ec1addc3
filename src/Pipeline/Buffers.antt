-- ===== src/Pipeline/Buffers.antt =====
-- What a stream shows, and the buffers that it writes to the webcam.
use droidcam_linux_client.Prelude.{
  ℕ, ◌≡◌, ◌≤◌, refl, true, false, List, [], ◌∷◌, length, none, some, arith, sym, subst,
}
use droidcam_linux_client.Frames.{Turn}
use droidcam_linux_client.Frames.Owner.{all_stream, start-Streaming}
use droidcam_linux_client.Frames.Order.{Falls, shown_in_order}
use droidcam_linux_client.Video.Decoder.{BufferName, JpgDecoder, prepared}
use droidcam_linux_client.Video.Prepare.{Host, decoder_prepare_video}
use droidcam_linux_client.Video.Process.{
  Turbo, Processed, dropped, shared, process_frame, buffer_of, decoder_share_frame, prepared-share,
  shared_lem, share-size,
}
use droidcam_linux_client.Video.Memory.{Memory}
use droidcam_linux_client.Pipeline.Sequential.{sequential, run-Follows, enter_loop-Follows}
use droidcam_linux_client.Pipeline.{enter_loop, run_pipe}

-- Every frame that was shared came from a buffer of the size that was written, the webcam's.
abbrev pub Whole : JpgDecoder → List Processed → Type 0
Whole d [] = Unit {0}
Whole d (dropped reason ∷ os) = Whole d os
Whole d (shared b n ∷ os) = (buffer_of d b ≡ some n) × (n ≡ d.webcam_yuv_size) × Whole d os

-- A frame changes nothing of the decoder but the subsampling it has passed with.
process-keeps :
    (t : Turbo) (d : JpgDecoder) (k : ℕ) (bytes : List ℕ)
    → let r = process_frame t (record d { subsamp = k }) bytes in
      r.0 ≡ record d { subsamp = r.0.subsamp }
unfolding process_frame
process-keeps t d k bytes = ground arith

add-Whole :
    (d : JpgDecoder) (o : Processed) (os : List Processed)
    → ((b : BufferName) (n : ℕ)
        → o ≡ shared b n
        → (buffer_of d b ≡ some n) × (n ≡ d.webcam_yuv_size))
    → Whole d os
    → Whole d (o ∷ os)
add-Whole d (dropped reason) os ok w = w
add-Whole d (shared b n) os ok w = let (here, size) = ok b n refl in (here, size, w)

module _ (t : Turbo) (stream : ℕ → List ℕ) (d : JpgDecoder)
    (share : (b : BufferName) (n : ℕ)
      → decoder_share_frame d ≡ shared b n
      → buffer_of d b ≡ some n) where
  process-Whole :
      (k : ℕ) (bytes : List ℕ) (os : List Processed)
      → Whole d os
      → Whole d ((process_frame t (record d { subsamp = k }) bytes).1 ∷ os)
  unfolding decoder_share_frame
  process-Whole k bytes os w =
      add-Whole d (process_frame t (record d { subsamp = k }) bytes).1 os
        (λ b n out. (
          share b n (shared_lem t (record d { subsamp = k }) bytes b n out),
          share-size t (record d { subsamp = k }) bytes b n out,
        ))
        w

  -- After any frames the decoder is the one that was prepared, and all that was shared was whole.
  sequential-Whole :
      (ns : List ℕ)
      → let r = sequential t stream d ns in (r.0 ≡ record d { subsamp = r.0.subsamp }) × Whole d r.1
  sequential-Whole [] = (refl, tt)
  sequential-Whole (n ∷ ns) =
      let (same, w) = sequential-Whole ns in
      subst
        (λ e.
          let r = process_frame t e (stream n) in
          (r.0 ≡ record d { subsamp = r.0.subsamp }) × Whole d (r.1 ∷ (sequential t stream d ns).1))
        (sym same) (process-keeps t d _ (stream n), process-Whole _ (stream n) _ w)

-- A decoder that `decoder_prepare_video` has prepared with a `malloc` that succeeds and a scaler that
-- is set up where one is asked for, with none before, streams messages that are not longer than a
-- frame's `m_Yuv420Size` bytes, under any interleaving of the two threads without a stop. Then no
-- message goes over another frame; what `process_frame` has come to is what one thread comes to
-- that processes the messages that were shown one after the other; these are received messages in
-- the order of arrival, none twice; and every frame that reached the webcam was written from a
-- buffer of exactly the size of the webcam's picture.
pub stream_refines :
    (host : Host) (header : List ℕ) (d : JpgDecoder) (m : Memory) (t : Turbo) (stream : ℕ → List ℕ)
    (ts : List Turn)
    → ((k : ℕ) → host.malloc k ≡ some k)
    → host.sws_ok ≡ true
    → d.swc ≡ none
    → decoder_prepare_video host header d ≡ prepared m.decoder
    → ((n : ℕ) → length (stream n) ≤ m.decoder.yuv420_size)
    → all_stream ts ≡ true
    → let p = run_pipe t stream ts (enter_loop m) in
      (p.spoilt ≡ false)
      × ((p.memory.decoder, p.outputs) ≡ sequential t stream m.decoder p.system.shown)
      × Falls p.system.received p.system.shown
      × Whole m.decoder p.outputs
stream_refines host header d m t stream ts malloc scaler unset done short go =
    let (follows, is) =
      run-Follows t stream m.decoder short ts (enter_loop m) go (start-Streaming 0)
        (enter_loop-Follows t stream m short) in
    let (same, w) =
      sequential-Whole t stream m.decoder
        (λ b n. prepared-share host header d m.decoder b n malloc scaler unset done) _ in
    (
      follows.whole,
      follows.same,
      rw is (shown_in_order ts go),
      subst (λ (r : JpgDecoder × List Processed). Whole m.decoder r.1) (sym follows.same) w,
    )
