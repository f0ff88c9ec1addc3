-- ===== src/Video/Flip.antt =====
-- `decoder_horizontal_flip` and `decoder_vertical_flip` of src/decoder.c.
use droidcam_linux_client.Prelude.{
  ◌≡◌, ◌≢◌, refl, Bool, true, false, not, ◌||◌, if◌then◌else◌, List, [], ◌∷◌, ap, ◌∙◌,
}

-- The values of `transform.op` that the code names; `other` stands for those it never sets.
pub data TransformOp : Type 0 where
  none hflip vflip rot90 rot180 other : TransformOp

abbrev pub is_hflip : TransformOp → Bool
is_hflip hflip = true
is_hflip _ = false

abbrev pub is_vflip : TransformOp → Bool
is_vflip vflip = true
is_vflip _ = false

abbrev pub is_rot180 : TransformOp → Bool
is_rot180 rot180 = true
is_rot180 _ = false

-- The new operation, and the result of the call.
unfoldable pub decoder_horizontal_flip : TransformOp → TransformOp × Bool
decoder_horizontal_flip op =
    let h_flip = is_hflip op in
    let v_flip = is_vflip op in
    let hv_flip = is_rot180 op in
    let new : TransformOp =
      if h_flip || hv_flip
      then (if hv_flip then vflip else none)
      else (if v_flip then rot180 else hflip) in
    (new, is_hflip new || is_rot180 new)

unfoldable pub decoder_vertical_flip : TransformOp → TransformOp × Bool
decoder_vertical_flip op =
    let h_flip = is_hflip op in
    let v_flip = is_vflip op in
    let hv_flip = is_rot180 op in
    let new : TransformOp =
      if v_flip || hv_flip
      then (if hv_flip then hflip else none)
      else (if h_flip then rot180 else vflip) in
    (new, is_vflip new || is_rot180 new)

-- A button press.
pub data Press : Type 0 where
  horizontal vertical : Press

unfoldable pub press_op : Press → TransformOp → TransformOp
press_op horizontal op = (decoder_horizontal_flip op).0
press_op vertical op = (decoder_vertical_flip op).0

unfoldable pub press_all : List Press → TransformOp → TransformOp
unfolding press_op
press_all [] op = op
press_all (p ∷ ps) op = press_all ps (press_op p op)

-- The image is mirrored horizontally, vertically: what the user sees of an operation.
abbrev pub Mirrors : Type 0
Mirrors = Bool × Bool

abbrev pub of_mirrors : Mirrors → TransformOp
of_mirrors (false, false) = none
of_mirrors (true, false) = hflip
of_mirrors (false, true) = vflip
of_mirrors (true, true) = rot180

-- Whether an odd number of the presses are of the given kind.
pub odd_horizontal : List Press → Bool
odd_horizontal [] = false
odd_horizontal (horizontal ∷ ps) = not (odd_horizontal ps)
odd_horizontal (vertical ∷ ps) = odd_horizontal ps

pub odd_vertical : List Press → Bool
odd_vertical [] = false
odd_vertical (horizontal ∷ ps) = odd_vertical ps
odd_vertical (vertical ∷ ps) = not (odd_vertical ps)

abbrev pub xor : Bool → Bool → Bool
xor true b = not b
xor false b = b

not-xor : (a b : Bool) → xor (not a) b ≡ xor a (not b)
not-xor true true = refl
not-xor true false = refl
not-xor false true = refl
not-xor false false = refl

pub horizontal-mirrors :
    (h v : Bool) → decoder_horizontal_flip (of_mirrors (h, v)) ≡ (of_mirrors (not h, v), not h)
unfolding decoder_horizontal_flip
horizontal-mirrors true true = refl
horizontal-mirrors true false = refl
horizontal-mirrors false true = refl
horizontal-mirrors false false = refl

pub vertical-mirrors :
    (h v : Bool) → decoder_vertical_flip (of_mirrors (h, v)) ≡ (of_mirrors (h, not v), not v)
unfolding decoder_vertical_flip
vertical-mirrors true true = refl
vertical-mirrors true false = refl
vertical-mirrors false true = refl
vertical-mirrors false false = refl

press_all-mirrors :
    (ps : List Press) (h v : Bool)
    → press_all ps (of_mirrors (h, v))
      ≡ of_mirrors (xor h (odd_horizontal ps), xor v (odd_vertical ps))
unfolding press_all odd_horizontal odd_vertical
press_all-mirrors [] true true = refl
press_all-mirrors [] true false = refl
press_all-mirrors [] false true = refl
press_all-mirrors [] false false = refl
press_all-mirrors (horizontal ∷ ps) h v =
    ap (λ r. press_all ps r.0) (horizontal-mirrors h v)
    ∙ press_all-mirrors ps (not h) v
    ∙ ap (λ b. of_mirrors (b, xor v (odd_vertical ps))) (not-xor h (odd_horizontal ps))
press_all-mirrors (vertical ∷ ps) h v =
    ap (λ r. press_all ps r.0) (vertical-mirrors h v)
    ∙ press_all-mirrors ps h (not v)
    ∙ ap (λ b. of_mirrors (xor h (odd_horizontal ps), b)) (not-xor v (odd_vertical ps))

-- From an image mirrored or not in each direction, any sequence of presses of the two flip buttons
-- leaves the image mirrored horizontally exactly if the number of horizontal presses is odd and it
-- was not, or even and it was; likewise vertically. Each call returns the new state of its mirror.
pub flips_toggle :
    (h v : Bool)
    → ((ps : List Press)
        → press_all ps (of_mirrors (h, v))
          ≡ of_mirrors (xor h (odd_horizontal ps), xor v (odd_vertical ps)))
      × (decoder_horizontal_flip (of_mirrors (h, v)) ≡ (of_mirrors (not h, v), not h))
      × (decoder_vertical_flip (of_mirrors (h, v)) ≡ (of_mirrors (h, not v), not v))
flips_toggle h v = (λ ps. press_all-mirrors ps h v, horizontal-mirrors h v, vertical-mirrors h v)

of_mirrors-ne-rot90 : (h v : Bool) → of_mirrors (h, v) ≢ rot90
of_mirrors-ne-rot90 true true = λ e. cc
of_mirrors-ne-rot90 true false = λ e. cc
of_mirrors-ne-rot90 false true = λ e. cc
of_mirrors-ne-rot90 false false = λ e. cc

-- For a webcam that is taller than wide the decoder rotates by 90 degrees. Any press of a flip
-- button drops the rotation: the operation is then what it would be without one, and no further
-- press brings the rotation back.
flip_drops_rotation :
    (p : Press) (ps : List Press)
    → (press_all (p ∷ ps) rot90 ≡ press_all (p ∷ ps) none) × (press_all (p ∷ ps) rot90 ≢ rot90)
unfolding press_all decoder_horizontal_flip decoder_vertical_flip
flip_drops_rotation horizontal ps =
    (refl, rw (press_all-mirrors ps true false) (of_mirrors-ne-rot90 _ _))
flip_drops_rotation vertical ps =
    (refl, rw (press_all-mirrors ps false true) (of_mirrors-ne-rot90 _ _))
