-- ===== src/Queue/Fifo.antt =====
-- The abstract queue: a list of pointers, oldest first, and how a heap queue stands for one.
use droidcam_linux_client.Prelude.{
  ℕ, ◌≡◌, Bool, true, false, ltb, if◌then◌else◌, List, [], ◌∷◌, ◌++◌, length,
}
use droidcam_linux_client.Queue.Store.{Ptr, null, Heap, Run, done, exited, blocked, fault, spent}
use droidcam_linux_client.Queue.Chain.{Cells, first_of, last_of}
use droidcam_linux_client.Queue.{Queue}

-- A call of the queue's interface.
pub data Call : Type 0 where
  add : Ptr → Call
  next : ℕ → Call
  clear : Call

-- What the call returns, NULL where it returns nothing, and the list after it.
unfoldable pub head_reply : List Ptr → Ptr × List Ptr
head_reply [] = (null, [])
head_reply (v ∷ l) = (v, l)

unfoldable pub fifo : List Ptr → Call → Ptr × List Ptr
unfolding head_reply
fifo l (add v) = (null, l ++ v ∷ [])
fifo l (next n) = if ltb n (length l) then head_reply l else (null, l)
fifo l clear = (null, [])

-- The struct that stands for a list of elements while no call runs.
abbrev pub shape : Cells → Queue
shape xs = record { held = false; size = length xs; last = last_of xs; first = first_of xs }

-- An outcome of a call: where the C library's answers are good it returns and `P` holds, and
-- where one is bad the process exits. A fault, a deadlock and a loop with too few rounds are
-- excluded.
abbrev pub Behaves : {A : Type 0} → (good : Bool) → (A → Heap → Type 0) → Run A → Type 0
Behaves good P (done a h) = (good ≡ true) × P a h
Behaves good P exited = good ≡ false
Behaves good P blocked = ⊥
Behaves good P fault = ⊥
Behaves good P spent = ⊥
