-- ===== src/Audio/Udp.antt =====
-- The tries of UDP of `AudioThreadProc` against one search over all polls.
use droidcam_linux_client.Prelude.{
  ℕ, zero, suc, ◌+◌, ◌*◌, ◌/◌, ◌%◌, ◌≤◌, ◌<◌, ◌≡◌, refl, Bool, true, false, ◌&&◌, ◌||◌,
  if◌then◌else◌, Option, none, some, sym, subst, arith,
}
use droidcam_linux_client.Prelude.Int.{ℤ, pos, ltb_ℤ}
use droidcam_linux_client.Audio.Setup.{
  Polled, failed, arrived, silent, after_try, poll_loop, udp_loop,
}

-- Poll `k` of all, twelve behind each request.
abbrev pub poll_at : (ℕ → ℕ → ℤ) → ℕ → ℤ
poll_at answers k = answers (k / 12) (k % 12)

-- The first poll from `k` on, of `n`, that does not answer 0.
unfoldable pub first_answer : ℕ → (ℕ → ℕ → ℤ) → ℕ → Option ℕ
first_answer zero answers k = none
first_answer (suc n) answers k =
    let later = first_answer n answers (k + 1) in
    if ltb_ℤ (poll_at answers k) (pos 0) || ltb_ℤ (pos 0) (poll_at answers k) then some k else later

-- What `udp_loop` returns with `limit` requests: data begins the stream, with the requests that were
-- sent until then; an error or silence gives up.
unfoldable pub outcome : ℕ → (ℕ → ℕ → ℤ) → Option ℕ → Bool × ℕ
outcome limit answers none = (false, limit)
outcome limit answers (some k) = (ltb_ℤ (pos 0) (poll_at answers k), k / 12 + 1)

abbrev polled : (ℕ → ℕ → ℤ) → Option ℕ → Polled
polled answers none = silent
polled answers (some k) = if ltb_ℤ (pos 0) (poll_at answers k) then arrived else failed

choose_lem :
    (answers : ℕ → ℕ → ℤ) (k : ℕ) (later : Option ℕ) (neg more : Bool)
    → ltb_ℤ (pos 0) (poll_at answers k) ≡ more
    → (neg && more) ≡ false
    → (if neg then failed else if more then arrived else polled answers later)
      ≡ polled answers (if neg || more then some k else later)
choose_lem answers k later true true e apart = cc
choose_lem answers k later true false e apart = rw e refl
choose_lem answers k later false true e apart = rw e refl
choose_lem answers k later false false e apart = refl

signs_apart : (z : ℤ) → (ltb_ℤ z (pos 0) && ltb_ℤ (pos 0) z) ≡ false
signs_apart z = ground arith

module _ (answers : ℕ → ℕ → ℤ) where
  poll_at_lem : (t i : ℕ) → i < 12 → poll_at answers (12 * t + i) ≡ answers t i
  poll_at_lem t i small =
      let q : (12 * t + i) / 12 ≡ t = omega arith in
      let r : (12 * t + i) % 12 ≡ i = omega arith in rw (q, r) refl

  poll_loop_lem :
      (n t i : ℕ)
      → i + n ≤ 12
      → poll_loop n (answers t) i ≡ polled answers (first_answer n answers (12 * t + i))
  unfolding poll_loop first_answer
  poll_loop_lem zero t i fits = refl
  poll_loop_lem (suc n) t i fits =
      let here = poll_at_lem t i (omega arith) in
      let next : 12 * t + i + 1 ≡ 12 * t + (i + 1) = omega arith in
      let more = poll_loop_lem n t (i + 1) (omega arith) in
      rw (more, sym next)
        (subst
          (λ z.
            (if ltb_ℤ z (pos 0)
              then failed
              else if ltb_ℤ (pos 0) z
              then arrived
              else polled answers (first_answer n answers (12 * t + i + 1)))
            ≡ polled answers (first_answer (suc n) answers (12 * t + i)))
          here
          (choose_lem answers (12 * t + i) _ _ _ refl (signs_apart (poll_at answers (12 * t + i)))))

abbrev or_else : Option ℕ → Option ℕ → Option ℕ
or_else none o = o
or_else (some i) o = some i

if-or_else :
    (b : Bool) (k : ℕ) (x o : Option ℕ)
    → (if b then some k else or_else x o) ≡ or_else (if b then some k else x) o
if-or_else true k x o = refl
if-or_else false k x o = refl

-- A search of two parts.
first_answer-add :
    (n m : ℕ) (answers : ℕ → ℕ → ℤ) (k : ℕ)
    → first_answer (n + m) answers k
      ≡ or_else (first_answer n answers k) (first_answer m answers (k + n))
unfolding first_answer
first_answer-add zero m answers k =
    let all : 0 + m ≡ m = omega arith in let here : k + 0 ≡ k = omega arith in rw (all, here) refl
first_answer-add (suc n) m answers k =
    let next : suc n + m ≡ suc (n + m) = omega arith in
    let place : k + 1 + n ≡ k + suc n = omega arith in
    subst
      (λ j.
        first_answer j answers k
        ≡ or_else (first_answer (suc n) answers k) (first_answer m answers (k + suc n)))
      (sym next)
      (rw (first_answer-add n m answers (k + 1), place)
        (if-or_else _ k (first_answer n answers (k + 1)) _))

if_found :
    (b : Bool) (k i n : ℕ) (x : Option ℕ)
    → (x ≡ some i → (k + 1 ≤ i) × (i < k + 1 + n))
    → (if b then some k else x) ≡ some i
    → (k ≤ i) × (i < k + suc n)
if_found true k i n x later found = let here : k ≡ i = cc in (omega arith, omega arith)
if_found false k i n x later found =
    (omega (arith, (later found).0), omega (arith, (later found).1))

-- Where an answer is found.
first_answer-range :
    (n : ℕ) (answers : ℕ → ℕ → ℤ) (k i : ℕ)
    → first_answer n answers k ≡ some i
    → (k ≤ i) × (i < k + n)
unfolding first_answer
first_answer-range zero answers k i found = cc
first_answer-range (suc n) answers k i found =
    if_found _ k i n (first_answer n answers (k + 1)) (first_answer-range n answers (k + 1) i) found

after_answer :
    (t : ℕ) (later : Bool × ℕ) (more : Bool)
    → after_try t later (if more then arrived else failed) ≡ (more, t + 1)
after_answer t later true = refl
after_answer t later false = refl

module _ (answers : ℕ → ℕ → ℤ) where
  after_try_lem :
      (limit t : ℕ) (o rest : Option ℕ) (later : Bool × ℕ)
      → ((i : ℕ) → o ≡ some i → (12 * t ≤ i) × (i < 12 * t + 12))
      → later ≡ outcome limit answers rest
      → after_try t later (polled answers o) ≡ outcome limit answers (or_else o rest)
  unfolding outcome
  after_try_lem limit t none rest later range same = same
  after_try_lem limit t (some i) rest later range same =
      let place : i / 12 ≡ t = omega (arith, range i refl) in rw place (after_answer t later _)

  udp_loop_lem :
      (n t : ℕ)
      → udp_loop n answers t ≡ outcome (t + n) answers (first_answer (12 * n) answers (12 * t))
  unfolding udp_loop first_answer outcome
  udp_loop_lem zero t = let all : t + 0 ≡ t = omega arith in rw all refl
  udp_loop_lem (suc n) t =
      let start : 12 * t + 0 ≡ 12 * t = omega arith in
      let size : 12 * suc n ≡ 12 + 12 * n = omega arith in
      let total : t + suc n ≡ t + 1 + n = omega arith in
      let next : 12 * t + 12 ≡ 12 * (t + 1) = omega arith in
      rw
        (
          poll_loop_lem answers 12 t 0 (omega arith),
          start,
          size,
          first_answer-add 12 (12 * n) answers (12 * t),
          total,
          next,
        )
        (after_try_lem (t + 1 + n) t _ _ _ (first_answer-range 12 answers (12 * t))
          (udp_loop_lem n (t + 1)))

-- The tries of UDP, three requests with twelve polls behind each, come to what a single search over the
-- 36 polls finds: with no answer, three requests are sent and UDP is given up; otherwise the first poll
-- that answers decides, UDP is taken exactly if it brings data, and the requests sent are those up to
-- that poll.
pub udp_first_answer :
    (answers : ℕ → ℕ → ℤ) → udp_loop 3 answers 0 ≡ outcome 3 answers (first_answer 36 answers 0)
udp_first_answer answers = udp_loop_lem answers 3 0
