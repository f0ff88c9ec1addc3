-- ===== src/Queue/Refine.antt =====
-- Sequences of calls of the queue against the abstract list.
use droidcam_linux_client.Prelude.{
  ℕ, suc, ◌+◌, ◌^◌, ◌≤◌, ◌<◌, ◌≡◌, refl, ap, Bool, none, ◌⊎◌, List, [], ◌∷◌, ◌++◌, length, arith,
  length-append, ◌∙◌, sym, ap₂,
}
use droidcam_linux_client.Queue.Store.{
  Ptr, null, Heap, Run, Cmd, done, exited, blocked, fault, spent, pure, and_then, ◌>>=◌,
}
use droidcam_linux_client.Queue.Chain.{Cells, payloads, Linked}
use droidcam_linux_client.Queue.Fifo.{Call, add, next, clear, fifo, head_reply, shape, Behaves}
use droidcam_linux_client.Queue.Add.{queue_add-append, add_good}
use droidcam_linux_client.Queue.Next.{queue_next_lem, cells_after, reply, mutex_good}
use droidcam_linux_client.Queue.Clear.{queue_clear_lem}
use droidcam_linux_client.Queue.{Queue, Sys, queue_add, queue_next, queue_clear}

-- The outcome is a return so that `P` holds, or the exit of the process.
abbrev pub Survives : {A : Type 0} → (A → Heap → Type 0) → Run A → Type 0
Survives P (done a h) = P a h
Survives P exited = Unit
Survives P blocked = ⊥
Survives P fault = ⊥
Survives P spent = ⊥

module _ {A : Type 0} (P : A → Heap → Type 0) where
  weaken :
      (Q : A → Heap → Type 0) (good : Bool) (r : Run A)
      → Behaves good P r
      → ((a : A) (h : Heap) → P a h → Q a h)
      → Survives Q r
  weaken Q good (done a h) b keep = keep a h b.1
  weaken Q good exited b keep = tt
  weaken Q good blocked b keep = b
  weaken Q good fault b keep = b
  weaken Q good spent b keep = b

  bind :
      {B : Type 0} (Q : B → Heap → Type 0) (r : Run A) (k : A → Cmd B)
      → Survives P r
      → ((a : A) (h : Heap) → P a h → Survives Q (k a h))
      → Survives Q (and_then r k)
  bind Q (done a h) k s later = later a h s
  bind Q exited k s later = tt
  bind Q blocked k s later = s
  bind Q fault k s later = s
  bind Q spent k s later = s

-- One call, with the answers that the C library gives at this heap.
pub step : Sys → Queue → Call → Cmd (Ptr × Queue)
step sys q (add v) = do q ← queue_add sys q v; pure (null, q)
step sys q (next n) = queue_next sys q n
step sys q clear = do q ← queue_clear sys q; pure (null, q)

pub run : (Heap → Sys) → Queue → List Call → Cmd (List Ptr × Queue)
run os q [] h = done ([], q) h
run os q (c ∷ cs) h =
    and_then (step (os h) q c h)
      λ (r, q) g. and_then (run os q cs g) λ (rs, q) g. done (r ∷ rs, q) g

unfoldable pub fifo_run : List Ptr → List Call → List Ptr × List Ptr
fifo_run l [] = ([], l)
fifo_run l (c ∷ cs) = let (r, l) = fifo l c in let (rs, l) = fifo_run l cs in (r ∷ rs, l)

-- The queue stands for a list of elements with the payloads `l`.
pub record StandsFor (l : List Ptr) (q : Queue) (h : Heap) : Type 0 where
  pub cells : Cells
  pub queue : q ≡ shape cells
  pub chain : Linked h cells
  pub holds : payloads cells ≡ l

abbrev pub Agrees : {A : Type 0} → A × List Ptr → A × Queue → Heap → Type 0
Agrees (r, l) (r', q) h = (r' ≡ r) × StandsFor l q h

payloads-snoc : (xs : Cells) (a v : Ptr) → payloads (xs ++ (a, v) ∷ []) ≡ payloads xs ++ v ∷ []
payloads-snoc [] a v = refl
payloads-snoc ((b, w) ∷ xs) a v = ap (λ l. w ∷ l) (payloads-snoc xs a v)

length-payloads : (xs : Cells) → length (payloads xs) ≡ length xs
length-payloads [] = refl
length-payloads (x ∷ xs) = ap suc (length-payloads xs)

fifo-next :
    (n : ℕ) (xs : Cells) → fifo (payloads xs) (next n) ≡ (reply n xs, payloads (cells_after n xs))
unfolding fifo head_reply
fifo-next n [] = ground arith
fifo-next n (x ∷ xs) = ground (arith, length-payloads xs)

step-Agrees :
    (sys : Sys) (c : Call) (xs : Cells) (h : Heap)
    → Linked h xs
    → (sys.calloc ≡ null) ⊎ (h sys.calloc ≡ none)
    → length xs + 1 < 2 ^ 64
    → Survives (Agrees (fifo (payloads xs) c)) (step sys (shape xs) c h)
unfolding step fifo
step-Agrees sys (add v) xs h chain fresh fits =
    bind (λ q g. StandsFor (payloads xs ++ v ∷ []) q g) _ (queue_add sys (shape xs) v h) _
      (weaken _ _ (add_good sys) _ (queue_add-append sys xs v h chain fresh fits) λ q g held.
        record {
          cells = xs ++ (sys.calloc, v) ∷ [];
          queue = held.queue;
          chain = held.chain;
          holds = payloads-snoc xs sys.calloc v;
        })
      λ q g stands. (refl, stands)
step-Agrees sys (next n) xs h chain fresh fits =
    weaken _ _ (mutex_good sys) _ (queue_next_lem sys n xs h chain) λ (v, q) g (same, held). (
      same ∙ ap (λ p. p.0) (sym (fifo-next n xs)),
      record {
        cells = cells_after n xs;
        queue = held.queue;
        chain = held.chain;
        holds = ap (λ p. p.1) (sym (fifo-next n xs));
      },
    )
step-Agrees sys clear xs h chain fresh fits =
    bind (λ q g. StandsFor [] q g) _ (queue_clear sys (shape xs) h) _
      (weaken _ _ (mutex_good sys) _ (queue_clear_lem sys xs h chain)
        λ q g held. record { cells = []; queue = held.0; chain = tt; holds = refl })
      λ q g stands. (refl, stands)

length-fifo : (l : List Ptr) (c : Call) → length (fifo l c).1 ≤ length l + 1
unfolding fifo head_reply
length-fifo l (add v) = omega (arith, length-append l (v ∷ []))
length-fifo [] (next n) = ground arith
length-fifo (v ∷ l) (next n) = ground arith
length-fifo l clear = omega arith

module _ (os : Heap → Sys)
    (fresh : (h : Heap) → ((os h).calloc ≡ null) ⊎ (h (os h).calloc ≡ none)) where
  step-StandsFor :
      (c : Call) (l : List Ptr) (q : Queue) (h : Heap)
      → StandsFor l q h
      → length l + 1 < 2 ^ 64
      → Survives (Agrees (fifo l c)) (step (os h) q c h)
  step-StandsFor c l q h stands fits =
      rw (stands.queue, ← stands.holds)
        (step-Agrees (os h) c cells h stands.chain (fresh h)
          (omega (arith, length-payloads cells, ap length stands.holds)))
    where
      open stands use {cells}

  -- A sequence of calls on a queue that stands for the list `l`, with any answers of the mutex
  -- functions and a `calloc` that answers NULL or an unused address: either the process exits, or
  -- every call returns what the list operations return and the queue stands for the final list.
  -- No call faults, blocks or runs out of rounds.
  pub run_refines :
      (cs : List Call) (l : List Ptr) (q : Queue) (h : Heap)
      → StandsFor l q h
      → length l + length cs < 2 ^ 64
      → Survives (Agrees (fifo_run l cs)) (run os q cs h)
  unfolding run fifo_run
  run_refines [] l q h stands fits = (refl, stands)
  run_refines (c ∷ cs) l q h stands fits =
      bind (Agrees (fifo l c)) _ (step (os h) q c h) _ (step-StandsFor c l q h stands (omega arith))
        λ (r, q') g (same, stands').
          bind (Agrees (fifo_run (fifo l c).1 cs)) _ (run os q' cs g) _
            (run_refines cs (fifo l c).1 q' g stands' (omega (arith, length-fifo l c)))
            λ (rs, q2) g2 (sames, stands2). (ap₂ ◌∷◌ same sames, stands2)
