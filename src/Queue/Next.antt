-- ===== src/Queue/Next.antt =====
-- `queue_next` on a queue that stands for a list.
use droidcam_linux_client.Prelude.{
  ℕ, ◌≡◌, ◌≢◌, refl, Bool, true, false, some, none, ◌==◌, [], ◌∷◌, length, arith, Bool-cases, inl,
  inr, ltb, if◌then◌else◌, ◌&&◌, suc,
}
use droidcam_linux_client.Queue.Store.{Ptr, null, elem_of, Heap, update, free, done}
use droidcam_linux_client.Queue.Chain.{
  Cells, first_of, last_of, Linked, Linked-update, payloads, update_ne,
}
use droidcam_linux_client.Queue.Fifo.{shape, Behaves, head_reply}
use droidcam_linux_client.Queue.Add.{sys_of, Holds, load-some}
use droidcam_linux_client.Queue.{Queue, Sys, queue_next, pop_first}

abbrev pub mutex_good : Sys → Bool
mutex_good sys = sys.lock_ok && sys.unlock_ok

abbrev pub rest_of : Cells → Cells
rest_of [] = []
rest_of (x ∷ xs) = xs

-- What stays behind the call.
abbrev pub cells_after : ℕ → Cells → Cells
cells_after n xs = if ltb n (length xs) then rest_of xs else xs

abbrev pub reply : ℕ → Cells → Ptr
reply n xs = if ltb n (length xs) then (head_reply (payloads xs)).0 else null

-- The call's result and the queue after it.
abbrev pub Replies : Heap → Cells → Ptr → Cells → Ptr × Queue → Heap → Type 0
Replies h ys v xs (item, q) g = (item ≡ v) × Holds h ys xs q g

last_of-first :
    (x : Ptr × Ptr) (h : Heap) (xs : Cells)
    → Linked h xs
    → (if first_of xs == null then null else last_of (x ∷ xs)) ≡ last_of xs
last_of-first x h [] l = refl
last_of-first x h (y ∷ xs) l = ground arith

pub free-some :
    (h : Heap) (p : Ptr) {v n : Ptr}
    → p ≢ null
    → h p ≡ some (elem_of v n)
    → free p h ≡ done tt (update h p none)
unfolding free
free-some h p ne e = rw (load-some h p ne e)

-- Taking the first element out, while the mutex is held.
pop_first-cons :
    (h : Heap) (x : Ptr × Ptr) (xs : Cells)
    → Linked h (x ∷ xs)
    → pop_first (record (shape (x ∷ xs)) { held = true }) h
      ≡ done (x.1, record (shape xs) { held = true }) (update h x.0 none)
unfolding pop_first
pop_first-cons h x xs (ne, out, at, chain) =
    rw (load-some h x.0 ne at, free-some h x.0 ne at, last_of-first x h xs chain) (ground arith)

unchanged : (h : Heap) (xs : Cells) → Linked h xs → Holds h xs xs (shape xs) h
unchanged h xs chain = record { queue = refl; chain = chain; rest = λ b out. refl }

removed :
    (h : Heap) (x : Ptr × Ptr) (xs : Cells)
    → Linked h (x ∷ xs)
    → Holds h (x ∷ xs) xs (shape xs) (update h x.0 none)
removed h x xs (ne, out, at, chain) = record {
  queue = refl;
  chain = Linked-update h xs x.0 none chain out;
  rest = λ b other. update_ne h x.0 b none (ground arith);
}

queue_next-Replies :
    (a : Ptr) (i l u d : Bool) (n : ℕ) (xs : Cells) (h : Heap)
    → Linked h xs
    → Behaves
        (l && u)
        (Replies h xs (reply n xs) (cells_after n xs))
        (queue_next (sys_of a i l u d) (shape xs) n h)
unfolding queue_next head_reply
queue_next-Replies a i false u d n xs h chain = refl
queue_next-Replies a i true false d n [] h chain =
    let few : ltb n 0 ≡ false = ground arith in rw few refl
queue_next-Replies a i true true d n [] h chain =
    let few : ltb n 0 ≡ false = ground arith in rw few (refl, (refl, unchanged h [] chain))
queue_next-Replies a i true false d n (x ∷ xs) h chain =
    elim (Bool-cases (ltb n (suc (length xs)))) [
      | inl more ↦ rw (more, pop_first-cons h x xs chain) refl
      | inr few ↦ rw few refl
    ]
queue_next-Replies a i true true d n (x ∷ xs) h chain =
    elim (Bool-cases (ltb n (suc (length xs)))) [
      | inl more ↦ rw (more, pop_first-cons h x xs chain) (refl, (refl, removed h x xs chain))
      | inr few ↦ rw few (refl, (refl, unchanged h (x ∷ xs) chain))
    ]

-- `queue_next` on a queue that stands for `xs` returns exactly if both mutex calls succeed. With
-- more than `backbuffer` elements it hands out the oldest payload, frees that element and leaves
-- the others; otherwise it returns NULL and changes nothing. The rest of the heap is as before.
pub queue_next_lem :
    (sys : Sys) (backbuffer : ℕ) (xs : Cells) (h : Heap)
    → Linked h xs
    → Behaves
        (mutex_good sys)
        (Replies h xs (reply backbuffer xs) (cells_after backbuffer xs))
        (queue_next sys (shape xs) backbuffer h)
queue_next_lem sys n xs h chain =
    queue_next-Replies sys.calloc sys.init_ok sys.lock_ok sys.unlock_ok sys.destroy_ok n xs h chain
