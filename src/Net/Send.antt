-- ===== src/Net/Send.antt =====
-- `Send`, `Recv`, `RecvAll`, `RecvNonBlock` and `RecvNonBlockUDP` of src/connection.c.
use droidcam_linux_client.Prelude.{
  ℕ, zero, suc, ◌≤◌, ◌≡◌, ◌≢◌, refl, Bool, true, false, ◌&&◌, if◌then◌else◌, Option, none, some,
  List, [], ◌∷◌, ◌++◌, length, take, drop, length-drop, take-append-drop, append_assoc, arith, ap,
  ◌∙◌,
}
use droidcam_linux_client.Prelude.Int.{ℤ, pos, negsuc, ltb_ℤ}
use droidcam_linux_client.Net.Defs.{Errno, would_block}

-- `res < 0 && (errno == EAGAIN || errno == EWOULDBLOCK)` reads as nothing received.
unfoldable pub recv_non_block : ℤ → Errno → ℤ
recv_non_block res errno = if ltb_ℤ res (pos 0) && would_block errno then pos 0 else res

-- The loop of `Send`, given what each call of `send` answers: the result of the call, and the
-- bytes that were handed to the socket. There is no value while an answer is awaited.
unfoldable pub send : List ℤ → List ℕ → Option (ℤ × List ℕ)
send answers [] = some (pos 1, [])
send [] (b ∷ buffer) = none
send (negsuc n ∷ answers) (b ∷ buffer) = some (negsuc 0, [])
send (pos zero ∷ answers) (b ∷ buffer) = some (negsuc 0, [])
send (pos (suc w) ∷ answers) (b ∷ buffer) = elim (send answers (drop w buffer)) [
  | none ↦ none
  | some (r, out) ↦ some (r, b ∷ take w buffer ++ out)
]

-- Every answer is a positive count.
abbrev pub all_positive : List ℤ → Bool
all_positive [] = true
all_positive (pos (suc w) ∷ answers) = all_positive answers
all_positive (_ ∷ answers) = false

-- What the loop did: the bytes that went out are the front of the buffer, and all of it where the
-- result is 1.
abbrev pub Sent : List ℕ → Option (ℤ × List ℕ) → Type 0
Sent buffer none = Unit {0}
Sent buffer (some (r, out)) =
    ((rest : List ℕ) × (out ++ rest ≡ buffer))
    × (r ≡ pos 1 → out ≡ buffer)
    × (r ≢ pos 1 → r ≡ negsuc 0)

Sent-cons :
    (b w : ℕ) (buffer : List ℕ) (o : Option (ℤ × List ℕ))
    → Sent (drop w buffer) o
    → Sent
        (b ∷ buffer)
        (elim o [ none ↦ none | some (r, out) ↦ some (r, b ∷ take w buffer ++ out) ])
Sent-cons b w buffer none s = tt
Sent-cons b w buffer (some (r, out)) ((rest, front), whole, failed) = (
  (
    rest,
    ap (λ l. b ∷ l)
        (append_assoc (take w buffer) out rest
          ∙ ap (λ l. take w buffer ++ l) front
          ∙ take-append-drop w buffer),
  ),
  λ e. ap (λ l. b ∷ l) (ap (λ l. take w buffer ++ l) (whole e) ∙ take-append-drop w buffer),
  failed,
)

-- `Send` returns 1 with the whole buffer sent, if every answer of `send` is positive and there are as
-- many answers as bytes.
pub send_total :
    (answers : List ℤ) (buffer : List ℕ)
    → all_positive answers ≡ true
    → length buffer ≤ length answers
    → send answers buffer ≡ some (pos 1, buffer)
unfolding send
send_total answers [] ok enough = refl
send_total [] (b ∷ buffer) ok enough = absurd (omega arith)
send_total (negsuc n ∷ answers) (b ∷ buffer) ok enough = cc
send_total (pos zero ∷ answers) (b ∷ buffer) ok enough = cc
send_total (pos (suc w) ∷ answers) (b ∷ buffer) ok enough =
    rw (send_total answers (drop w buffer) ok (omega (arith, length-drop w buffer)), send)
      (ap (λ l. some (pos 1, b ∷ l)) (take-append-drop w buffer))

-- `Send` under any answers of `send`: what goes out is the front of the buffer, in order and
-- without a gap or a repeat; the result is 1 or -1, and where it is 1 the whole buffer went out.
send_in_order : (answers : List ℤ) (buffer : List ℕ) → Sent buffer (send answers buffer)
unfolding send
send_in_order answers [] = (([], refl), (λ e. refl), λ ne. absurd (ne refl))
send_in_order [] (b ∷ buffer) = tt
send_in_order (negsuc n ∷ answers) (b ∷ buffer) = ((b ∷ buffer, refl), (λ e. cc), λ ne. refl)
send_in_order (pos zero ∷ answers) (b ∷ buffer) = ((b ∷ buffer, refl), (λ e. cc), λ ne. refl)
send_in_order (pos (suc w) ∷ answers) (b ∷ buffer) =
    Sent-cons b w buffer (send answers (drop w buffer)) (send_in_order answers (drop w buffer))
