-- ===== src/Cli/End.antt =====
-- The end of `main` in src/droidcam-cli.c, behind the start of the threads.
use droidcam_linux_client.Prelude.{
  ℕ, ◌+◌, Bool, true, false, ◌||◌, if◌then◌else◌, Option, none, some, List, [], ◌∷◌, ◌++◌,
}
use droidcam_linux_client.Prelude.Int.{ℤ, is_zero}
use droidcam_linux_client.Video.Flip.{TransformOp, decoder_horizontal_flip, decoder_vertical_flip}
use droidcam_linux_client.Cli.Keys.{KeyRound, Controls, wait_command}

-- The `rc` of the threads: what `pthread_create` returned, or -1 for a thread that was not started.
pub record Threads : Type 0 where
  pub athread : ℤ
  pub vthread : ℤ
  pub dthread : ℤ

pub data EndCall : Type 0 where
  clear_flags join_audio join_video join_decode fini : EndCall

-- "joining"
unfoldable pub join_all : Threads → List EndCall
join_all t =
    clear_flags ∷ (if is_zero t.athread then join_audio ∷ [] else [])
    ++ (if is_zero t.vthread then join_video ∷ [] else [])
    ++ (if is_zero t.dthread then join_decode ∷ [] else [])
    ++ fini ∷ []

-- The flips of the options, the vertical one first.
unfoldable pub apply_flips : (vertical horizontal : Bool) → TransformOp → TransformOp
apply_flips v h op =
    let op : TransformOp = if v then (decoder_vertical_flip op).0 else op in
    if h then (decoder_horizontal_flip op).0 else op

-- The keys are read unless the options forbid it.
unfoldable pub read_keys : (no_controls : Bool) → List KeyRound → Controls → Option Controls
read_keys true rs c = some c
read_keys false rs c = wait_command rs c

-- `while (v_running || a_running)`, for the flags that each round sees.
unfoldable pub wait_flags : List (Bool × Bool) → Option ℕ
wait_flags [] = none
wait_flags ((v, a) ∷ rs) =
    let later = wait_flags rs in
    if v || a then (elim later [ none ↦ none | some n ↦ some (n + 1) ]) else some 0

pub record RunEnd : Type 0 where
  pub controls : Controls
  pub calls : List EndCall

unfoldable pub end_main :
    (vertical horizontal no_controls : Bool)
    → List KeyRound
    → List (Bool × Bool)
    → Threads
    → Controls
    → Option RunEnd
unfolding join_all apply_flips read_keys wait_flags
end_main v h no_controls keys flags t c =
    let c : Controls = record c { op = apply_flips v h c.op } in
    elim (read_keys no_controls keys c) [
      | none ↦ none
      | some d ↦ elim (wait_flags flags) [
        | none ↦ none
        | some n ↦ some (record { controls = d; calls = join_all t })
      ]
    ]
