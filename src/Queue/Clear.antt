-- ===== src/Queue/Clear.antt =====
-- `queue_clear` and `queue_destroy` on a queue that stands for a list.
use droidcam_linux_client.Prelude.{
  ℕ, zero, suc, ◌<◌, ◌≡◌, refl, Bool, true, false, none, ◌==◌, [], ◌∷◌, length, arith,
  if◌then◌else◌, ◌&&◌,
}
use droidcam_linux_client.Queue.Store.{Ptr, null, Heap, update, done}
use droidcam_linux_client.Queue.Chain.{Cells, has, first_of, Linked, Linked-update}
use droidcam_linux_client.Queue.Fifo.{shape, Behaves}
use droidcam_linux_client.Queue.Add.{sys_of, load-some}
use droidcam_linux_client.Queue.Next.{free-some, mutex_good}
use droidcam_linux_client.Queue.{Queue, Sys, free_loop, queue_clear, queue_destroy}

-- The heap less the elements of a list.
abbrev pub without : Cells → Heap → Heap
without [] h = h
without ((a, _) ∷ xs) h = without xs (update h a none)

pub without_lem :
    (xs : Cells) (h : Heap) (b : Ptr) → without xs h b ≡ (if has b xs then none else h b)
unfolding update
without_lem [] h b = refl
without_lem ((a, v) ∷ xs) h b = rw (without_lem xs (update h a none) b) (ground arith)

-- The loop visits the elements in order, and frees each one after it has read its successor.
free_loop-without :
    (k : ℕ) (xs : Cells) (h : Heap)
    → Linked h xs
    → length xs < k
    → free_loop k (first_of xs) h ≡ done tt (without xs h)
unfolding free_loop
free_loop-without zero xs h chain few = absurd (omega arith)
free_loop-without (suc k) [] h chain few = refl
free_loop-without (suc k) ((a, v) ∷ xs) h (ne, out, at, chain) few =
    let real : (a == null) ≡ false = ground arith in
    rw (real, load-some h a ne at, free-some h a ne at)
      (free_loop-without k xs (update h a none) (Linked-update h xs a none chain out) (omega arith))

-- The queue is empty, and the heap is as before less the elements of `xs`.
abbrev pub Cleared : Heap → Cells → Queue → Heap → Type 0
Cleared h xs q g = (q ≡ shape []) × ((b : Ptr) → g b ≡ (if has b xs then none else h b))

queue_clear-Cleared :
    (a : Ptr) (i l u d : Bool) (xs : Cells) (h : Heap)
    → Linked h xs
    → Behaves (l && u) (Cleared h xs) (queue_clear (sys_of a i l u d) (shape xs) h)
unfolding queue_clear
queue_clear-Cleared a i false u d xs h chain = refl
queue_clear-Cleared a i true false d xs h chain =
    rw (free_loop-without (suc (length xs)) xs h chain (omega arith)) refl
queue_clear-Cleared a i true true d xs h chain =
    rw (free_loop-without (suc (length xs)) xs h chain (omega arith))
      (refl, (refl, without_lem xs h))

-- `queue_clear` on a queue that stands for `xs` returns exactly if both mutex calls succeed; it
-- then leaves an empty queue and has freed each element of `xs` and nothing else.
pub queue_clear_lem :
    (sys : Sys) (xs : Cells) (h : Heap)
    → Linked h xs
    → Behaves (mutex_good sys) (Cleared h xs) (queue_clear sys (shape xs) h)
queue_clear_lem sys xs h chain =
    queue_clear-Cleared sys.calloc sys.init_ok sys.lock_ok sys.unlock_ok sys.destroy_ok xs h chain

queue_destroy-Cleared :
    (a : Ptr) (i l u d : Bool) (xs : Cells) (h : Heap)
    → Linked h xs
    → Behaves (l && u && d) (Cleared h xs) (queue_destroy (sys_of a i l u d) (shape xs) h)
unfolding queue_destroy
queue_destroy-Cleared a i false u d xs h chain = refl
queue_destroy-Cleared a i true false d xs h chain =
    rw (free_loop-without (suc (length xs)) xs h chain (omega arith)) refl
queue_destroy-Cleared a i true true false xs h chain =
    rw (free_loop-without (suc (length xs)) xs h chain (omega arith)) refl
queue_destroy-Cleared a i true true true xs h chain =
    rw (free_loop-without (suc (length xs)) xs h chain (omega arith))
      (refl, (refl, without_lem xs h))
