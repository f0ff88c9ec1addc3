-- ===== src/Video/Memory.antt =====
-- What `decoder_prepare_video` creates and `decoder_cleanup` of src/decoder.c frees.
use droidcam_linux_client.Prelude.{
  ℕ, ◌+◌, ◌-◌, ◌≡◌, Bool, true, false, ◌==◌, if◌then◌else◌, Option, none, some, List, [], ◌∷◌,
}
use droidcam_linux_client.Video.Decoder.{
  JpgDecoder, Message, no_transform, Outcome, refused, undefined, prepared,
}
use droidcam_linux_client.Video.Prepare.{Host, decoder_prepare_video}

-- The pointers that the clean-up looks at, in its order.
pub data Object : Type 0 where
  in_buf decode_buf webcam_buf swc tj_xform tj : Object

abbrev pub number : Object → ℕ
number Object.in_buf = 0
number Object.decode_buf = 1
number Object.webcam_buf = 2
number Object.swc = 3
number Object.tj_xform = 4
number Object.tj = 5

abbrev pub is_some {ℓ} : {A : Type ℓ} → Option A → Bool
is_some none = false
is_some (some x) = true

-- The pointer is not NULL.
abbrev pub holds : Object → JpgDecoder → Bool
holds Object.in_buf d = is_some d.in_buf
holds Object.decode_buf d = is_some d.decode_buf
holds Object.webcam_buf d = is_some d.webcam_buf
holds Object.swc d = is_some d.swc
holds Object.tj_xform d = d.tj_xform
holds Object.tj d = d.tj

abbrev pub set_null : Object → JpgDecoder → JpgDecoder
set_null Object.in_buf d = record d { in_buf = none }
set_null Object.decode_buf d = record d { decode_buf = none }
set_null Object.webcam_buf d = record d { webcam_buf = none }
set_null Object.swc d = record d { swc = none }
set_null Object.tj_xform d = record d { tj_xform = false }
set_null Object.tj d = record d { tj = false }

-- `live` counts what has been created and not freed, `faults` the frees of what was not there.
pub record Memory : Type 0 where
  pub decoder : JpgDecoder
  pub live : Object → ℕ
  pub faults : ℕ

-- FREE_OBJECT
unfoldable pub free_object : Object → Memory → Memory
free_object o m =
    if holds o m.decoder
    then record {
      decoder = set_null o m.decoder;
      live = λ p. if number p == number o then m.live p - 1 else m.live p;
      faults = if m.live o == 0 then m.faults + 1 else m.faults;
    }
    else m

-- `decoder_cleanup` up to the two queues.
unfoldable pub free_objects : Memory → Memory
unfolding free_object
free_objects m = free_object Object.tj (
    free_object Object.tj_xform (
      free_object Object.swc (
        free_object Object.webcam_buf
          (free_object Object.decode_buf (free_object Object.in_buf m)))))

abbrev pub count_if : Bool → ℕ
count_if true = 1
count_if false = 0

-- What a refused call has created: the decompressor's handle in front of the failed transform.
abbrev pub created_refused : Message → Object → ℕ
created_refused no_transform Object.tj = 1
created_refused m o = 0

-- What a successful call has created; the scaler and its buffer only where the sizes differ.
abbrev pub created : JpgDecoder → Object → ℕ
created d Object.webcam_buf =
    if d.webcam_yuv_size == d.yuv420_size then 0 else count_if (is_some d.webcam_buf)
created d Object.swc = if d.webcam_yuv_size == d.yuv420_size then 0 else count_if (is_some d.swc)
created d o = count_if (holds o d)

unfoldable pub after_prepare : Memory → Outcome → Option Memory
after_prepare m (refused message d) =
    some (record m { decoder = d; live = λ o. m.live o + created_refused message o })
after_prepare m undefined = none
after_prepare m (prepared d) = some (record m { decoder = d; live = λ o. m.live o + created d o })

unfoldable pub prepare_memory : Host → List ℕ → Memory → Option Memory
unfolding after_prepare
prepare_memory host header m = after_prepare m (decoder_prepare_video host header m.decoder)

-- A round of `VideoThreadProc`: what the call depends on, and the header.
abbrev pub PrepareRound : Type 0
PrepareRound = Host × List ℕ

unfoldable pub memory_rounds : List PrepareRound → Memory → Option Memory
unfolding prepare_memory free_objects
memory_rounds [] m = some m
memory_rounds ((host, header) ∷ rs) m = elim (prepare_memory host header m) [
  | none ↦ none
  | some n ↦ memory_rounds rs (free_objects n)
]

-- Every pointer is NULL, and nothing is there.
pub record IsEmpty (m : Memory) : Type 0 where
  pub null : (o : Object) → holds o m.decoder ≡ false
  pub nothing : (o : Object) → m.live o ≡ 0
  pub no_fault : m.faults ≡ 0

-- What is there is what the pointers name.
pub record IsOwned (m : Memory) : Type 0 where
  pub owned : (o : Object) → m.live o ≡ count_if (holds o m.decoder)
  pub no_fault : m.faults ≡ 0
