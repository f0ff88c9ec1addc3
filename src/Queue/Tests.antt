-- ===== src/Queue/Tests.antt =====
-- The queue at concrete heaps.
use droidcam_linux_client.Prelude.{
  ◌≡◌, ◌⊎◌, refl, inl, inr, true, Option, none, some, List, [], ◌∷◌, ◌++◌, arith,
}
use droidcam_linux_client.Queue.Store.{Ptr, null, QueueElem, elem_of, Heap, update}
use droidcam_linux_client.Queue.Chain.{Cells, Linked}
use droidcam_linux_client.Queue.Fifo.{Call, add, next, fifo, head_reply, shape, Behaves}
use droidcam_linux_client.Queue.Add.{sys_of, add_good, Holds, queue_add-append}
use droidcam_linux_client.Queue.Refine.{run, fifo_run, Survives, Agrees, StandsFor, run_refines}
use droidcam_linux_client.Queue.{Sys, queue_add}

abbrev empty_heap : Heap
empty_heap a = none

-- Two elements, 20 at address 8 before 10 at address 5.
abbrev two_cells : Cells
two_cells = (8, 20) ∷ (5, 10) ∷ []

abbrev two_heap : Heap
two_heap = update (update empty_heap 5 (some (elem_of 10 null))) 8 (some (elem_of 20 5))

two-Linked : Linked two_heap two_cells
unfolding update
two-Linked = (λ e. omega arith, refl, refl, (λ e. omega arith, refl, refl, tt))

abbrev good : Sys
good = sys_of 3 true true true true

three-unused : two_heap 3 ≡ none
unfolding update
three-unused = refl

queue_add-append_example :
    Behaves
      (add_good good)
      (Holds two_heap ((3, 30) ∷ two_cells) (two_cells ++ (3, 30) ∷ []))
      (queue_add good (shape two_cells) 30 two_heap)
queue_add-append_example =
    queue_add-append good two_cells 30 two_heap two-Linked (inr three-unused) (omega arith)

-- An allocator with two addresses.
abbrev calloc_at : Option QueueElem → Option QueueElem → Ptr
calloc_at none _ = 1
calloc_at (some e) none = 2
calloc_at (some e) (some f) = null

abbrev answers : Heap → Sys
answers h = sys_of (calloc_at (h 1) (h 2)) true true true true

answers-fresh : (h : Heap) → ((answers h).calloc ≡ null) ⊎ (h (answers h).calloc ≡ none)
answers-fresh h = go (h 1) (h 2) refl refl
  where
    go :
        (a b : Option QueueElem)
        → h 1 ≡ a
        → h 2 ≡ b
        → (calloc_at a b ≡ null) ⊎ (h (calloc_at a b) ≡ none)
    go none b e f = inr e
    go (some x) none e f = inr f
    go (some x) (some y) e f = inl refl

abbrev calls : List Call
calls = add 7 ∷ add 9 ∷ next 1 ∷ next 1 ∷ []

empty-StandsFor : StandsFor [] (shape []) empty_heap
empty-StandsFor = record { cells = []; queue = refl; chain = tt; holds = refl }

run_refines_example :
    Survives (Agrees (fifo_run [] calls)) (run answers (shape []) calls empty_heap)
run_refines_example =
    run_refines answers answers-fresh calls [] (shape []) empty_heap empty-StandsFor (omega arith)

fifo_run-calls : fifo_run [] calls ≡ (null ∷ null ∷ 7 ∷ null ∷ [], 9 ∷ [])
unfolding fifo_run fifo head_reply
fifo_run-calls = refl
