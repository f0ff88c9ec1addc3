-- ===== src/Video/Freed.antt =====
-- The clean-up frees what `decoder_prepare_video` of src/decoder.c has created.
use droidcam_linux_client.Prelude.{
  ℕ, ◌-◌, ◌*◌, ◌^◌, ◌<◌, ◌≡◌, refl, true, false, ◌==◌, if◌then◌else◌, if-holds, not, lt→ltb, ap,
  ◌∙◌, Option, none, some, List, [], ◌∷◌, arith,
}
use droidcam_linux_client.Video.Decoder.{JpgDecoder, Outcome, refused, undefined, prepared}
use droidcam_linux_client.Video.Layout.{
  area_of, width_of, height_of, entered, in_buf_size, lay_out_lem,
}
use droidcam_linux_client.Video.Prepare.{
  Host, decoder_prepare_video, orient, scale, allocate, target, lay_out,
}
use droidcam_linux_client.Video.Memory.{
  Object, number, is_some, holds, set_null, Memory, free_object, free_objects, count_if,
  created_refused, created, after_prepare, prepare_memory, PrepareRound, memory_rounds, IsEmpty,
  IsOwned,
}

holds-set_null :
    (o p : Object) (d : JpgDecoder)
    → holds p (set_null o d) ≡ (if number p == number o then false else holds p d)
holds-set_null o p d = ground arith

number-eq : (o p : Object) → (number p == number o) ≡ true → p ≡ o
number-eq o p h = ground arith

-- A free of what the pointers name is no fault and leaves what the other pointers name.
free-IsOwned : (o : Object) (m : Memory) → IsOwned m → IsOwned (free_object o m)
unfolding free_object
free-IsOwned o m own =
    if-holds (holds o m.decoder) _ m (λ (n : Memory). IsOwned n)
      (λ there. record {
        owned = λ p.
            if-holds (number p == number o) (m.live p - 1) (m.live p)
              (λ n. n ≡ count_if (holds p (set_null o m.decoder)))
              (λ e. rw (holds-set_null o p m.decoder, e, own.owned p, number-eq o p e, there) refl)
              (λ e. rw (holds-set_null o p m.decoder, e, own.owned p) refl);
        no_fault = rw (own.owned o, there, own.no_fault) refl;
      })
      (λ e. own)

free_object-holds :
    (o p : Object) (m : Memory)
    → holds p (free_object o m).decoder
      ≡ (if number p == number o then false else holds p m.decoder)
unfolding free_object
free_object-holds o p m =
    if-holds (holds o m.decoder) _ m
      (λ (n : Memory).
        holds p n.decoder ≡ (if number p == number o then false else holds p m.decoder))
      (λ there. holds-set_null o p m.decoder)
      (λ gone.
        if-holds (number p == number o) false (holds p m.decoder) (λ b. holds p m.decoder ≡ b)
          (λ e. rw (number-eq o p e, gone) refl) (λ e. refl))

pub free_objects-null : (m : Memory) (o : Object) → holds o (free_objects m).decoder ≡ false
unfolding free_objects
free_objects-null m o =
    rw
      (
        free_object-holds Object.tj o,
        free_object-holds Object.tj_xform o,
        free_object-holds Object.swc o,
        free_object-holds Object.webcam_buf o,
        free_object-holds Object.decode_buf o,
        free_object-holds Object.in_buf o,
      )
      (ground arith)

-- `decoder_cleanup` frees all that is there, each once.
pub free_objects-IsEmpty : (m : Memory) → IsOwned m → IsEmpty (free_objects m)
unfolding free_objects
free_objects-IsEmpty m own =
    let done : IsOwned (free_objects m) = free-IsOwned Object.tj _ (
      free-IsOwned Object.tj_xform _ (
        free-IsOwned Object.swc _ (
          free-IsOwned Object.webcam_buf _
            (free-IsOwned Object.decode_buf _ (free-IsOwned Object.in_buf m own))))) in
    record {
      null = free_objects-null m;
      nothing = λ o. done.owned o ∙ ap count_if (free_objects-null m o);
      no_fault = done.no_fault;
    }

-- What the call has created is what the pointers name.
abbrev HoldsCreated : Outcome → Type 0
HoldsCreated (refused message d) = (o : Object) → created_refused message o ≡ count_if (holds o d)
HoldsCreated undefined = ⊥
HoldsCreated (prepared d) = (o : Object) → created d o ≡ count_if (holds o d)

pub is_some-false {ℓ} : {A : Type ℓ} (p : Option A) → is_some p ≡ false → p ≡ none
is_some-false none h = refl
is_some-false (some x) h = ground arith

lay_out-created :
    (host : Host) (e : JpgDecoder) (area : ℕ) (o : Object)
    → e.webcam_buf ≡ none
    → e.swc ≡ none
    → created (target (scale host (allocate host area (orient e)))) o
      ≡ count_if (holds o (target (scale host (allocate host area (orient e)))))
unfolding scale allocate orient target
lay_out-created host e area o buf_null swc_null = ground arith

lay_out-HoldsCreated :
    (host : Host) (e : JpgDecoder)
    → e.webcam_buf ≡ none
    → e.swc ≡ none
    → in_buf_size (e.m_width * e.m_height) < 2 ^ 31
    → HoldsCreated (lay_out host e)
lay_out-HoldsCreated host e buf_null swc_null fits =
    rw (lay_out_lem host e (e.m_width * e.m_height) refl, lt→ltb _ _ fits)
      (λ o. lay_out-created host e (e.m_width * e.m_height) o buf_null swc_null)

prepare-HoldsCreated :
    (host : Host) (header : List ℕ) (d : JpgDecoder)
    → ((o : Object) → holds o d ≡ false)
    → in_buf_size (area_of header) < 2 ^ 31
    → HoldsCreated (decoder_prepare_video host header d)
unfolding decoder_prepare_video
prepare-HoldsCreated host header d null fits =
    let P : Outcome → Type 0 = HoldsCreated in
    if-holds (not host.device_open) _ _ P (λ e o. ground (arith, null o))
      (λ e.
        if-holds (width_of header == 0) _ _ P (λ e o. ground (arith, null o))
          (λ e.
            if-holds (height_of header == 0) _ _ P (λ e o. ground (arith, null o))
              (λ e.
                if-holds (not host.tj_ok) _ _ P (λ e o. ground (arith, null o))
                  (λ e.
                    if-holds (not host.xform_ok) _ _ P (λ e o. ground (arith, null o))
                      (λ e.
                        lay_out-HoldsCreated host (entered header d)
                          (is_some-false _ (null Object.webcam_buf))
                          (is_some-false _ (null Object.swc)) fits)))))

after_prepare-IsOwned :
    (m : Memory) (r : Outcome)
    → IsEmpty m
    → HoldsCreated r
    → (n : Memory) × (after_prepare m r ≡ some n) × IsOwned n
unfolding after_prepare
after_prepare-IsOwned m (refused message d) empty same = (
  _,
  refl,
  record { owned = λ o. omega (arith, empty.nothing o, same o); no_fault = empty.no_fault },
)
after_prepare-IsOwned m undefined empty never = absurd never
after_prepare-IsOwned m (prepared d) empty same = (
  _,
  refl,
  record { owned = λ o. omega (arith, empty.nothing o, same o); no_fault = empty.no_fault },
)

prepared-IsOwned :
    (host : Host) (header : List ℕ) (m : Memory)
    → IsEmpty m
    → in_buf_size (area_of header) < 2 ^ 31
    → (n : Memory) × (prepare_memory host header m ≡ some n) × IsOwned n
unfolding prepare_memory
prepared-IsOwned host header m empty fits =
    after_prepare-IsOwned m _ empty (prepare-HoldsCreated host header m.decoder empty.null fits)

-- No round's header is of a size that overflows an `int`.
abbrev pub FitsInt : List PrepareRound → Type 0
FitsInt [] = Unit {0}
FitsInt ((host, header) ∷ rs) = (in_buf_size (area_of header) < 2 ^ 31) × FitsInt rs

-- Rounds of `decoder_prepare_video`, which succeeds or refuses at any of its tests, and
-- `decoder_cleanup`, from a decoder that owns nothing, end with one that owns nothing: each
-- buffer, scaler and handle that was created has been freed, and none was freed twice. No header's
-- sizes overflow an `int`.
pub rounds_free_all :
    (rounds : List PrepareRound) (m : Memory)
    → IsEmpty m
    → FitsInt rounds
    → (n : Memory) × (memory_rounds rounds m ≡ some n) × IsEmpty n
unfolding memory_rounds
rounds_free_all [] m empty fits = (m, refl, empty)
rounds_free_all ((host, header) ∷ rs) m empty fits =
    let (n, e, own) = prepared-IsOwned host header m empty fits.0 in
    rw (memory_rounds, e) (rounds_free_all rs (free_objects n) (free_objects-IsEmpty n own) fits.1)
