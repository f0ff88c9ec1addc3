-- ===== src/Queue/Add.antt =====
-- `queue_add` on a queue that stands for a list.
use droidcam_linux_client.Prelude.{
  ◌+◌, ◌^◌, ◌<◌, ◌≡◌, ◌≢◌, refl, Bool, true, false, some, none, ◌==◌, [], ◌∷◌, ◌++◌, length, arith,
  length-append, Bool-cases, inl, inr, ◌∙◌, not, ◌&&◌, ◌⊎◌, ◌%◌,
}
use droidcam_linux_client.Queue.Store.{Ptr, null, elem_of, Heap, update, load, set_next, done}
use droidcam_linux_client.Queue.Chain.{
  Cells, has, first_of, last_of, last_payload, Linked, Linked-last, Linked-snoc, last_of-snoc,
  update_ne, ne_of_some, ne_of_has, has-last_of,
}
use droidcam_linux_client.Queue.Fifo.{shape, Behaves}
use droidcam_linux_client.Queue.{Queue, Sys, queue_add, link_last}

abbrev pub sys_of : Ptr → Bool → Bool → Bool → Bool → Sys
sys_of a i l u d = record { calloc = a; init_ok = i; lock_ok = l; unlock_ok = u; destroy_ok = d }

-- The queue stands for `xs`, and the heap outside the addresses of `ys` is as in `h`.
pub record Holds (h : Heap) (ys xs : Cells) (q : Queue) (g : Heap) : Type 0 where
  pub queue : q ≡ shape xs
  pub chain : Linked g xs
  pub rest : (a : Ptr) → has a ys ≡ false → g a ≡ h a

abbrev pub add_good : Sys → Bool
add_good sys = not (sys.calloc == null) && sys.lock_ok && sys.unlock_ok

pub load-some :
    (h : Heap) (p : Ptr) {v n : Ptr}
    → p ≢ null
    → h p ≡ some (elem_of v n)
    → load p h ≡ done (elem_of v n) h
unfolding load
load-some h p ne e = ground arith

set_next-some :
    (h : Heap) (p : Ptr) {v n : Ptr} (r : Ptr)
    → p ≢ null
    → h p ≡ some (elem_of v n)
    → set_next p r h ≡ done tt (update h p (some (elem_of v r)))
unfolding set_next
set_next-some h p r ne e = rw (load-some h p ne e)

-- The struct that the code leaves behind is the one that stands for the longer list.
shape-snoc :
    (x : Ptr × Ptr) (xs : Cells) (a v : Ptr)
    → length (x ∷ xs) + 1 < 2 ^ 64
    → ◌≡◌ {A = Queue}
        (record {
          held = false;
          size = (length (x ∷ xs) + 1) % 2 ^ 64;
          last = a;
          first = first_of (x ∷ xs);
        })
        (shape ((x ∷ xs) ++ (a, v) ∷ []))
shape-snoc x xs a v fits = ground (arith, last_of-snoc (x ∷ xs) a v, length-append xs ((a, v) ∷ []))

link_last-some :
    (q : Queue) (a : Ptr) (g : Heap) {v n : Ptr}
    → (q.first == null) ≡ false
    → q.last ≢ null
    → g q.last ≡ some (elem_of v n)
    → link_last q a g ≡ done q (update g q.last (some (elem_of v a)))
unfolding link_last
link_last-some q a g first_ne last_ne e = rw (first_ne, set_next-some g q.last a last_ne e)

module _ (a : Ptr) (i d : Bool) (item : Ptr) (h : Heap) where
  queue_add-nil :
      (l u : Bool)
      → h a ≡ none
      → (a == null) ≡ false
      → Behaves
          (add_good (sys_of a i l u d))
          (Holds h ((a, item) ∷ []) ((a, item) ∷ []))
          (queue_add (sys_of a i l u d) (shape []) item h)
  unfolding queue_add update
  queue_add-nil false u fresh ne = rw ne refl
  queue_add-nil true false fresh ne = rw ne refl
  queue_add-nil true true fresh ne = rw ne (
    refl,
    record {
      queue = refl;
      chain = (ground arith, refl, ground arith, tt);
      rest = λ b out. ground arith;
    },
  )

  module _ (x : Ptr × Ptr) (xs : Cells) (chain : Linked h (x ∷ xs)) (fresh : h a ≡ none) where
    -- Linking behind the last element, while the mutex is held.
    link_last-cons :
        link_last
          (record (shape (x ∷ xs)) { held = true })
          a
          (update h a (some (elem_of item null)))
        ≡ done
            (record (shape (x ∷ xs)) { held = true })
            (update
              (update h a (some (elem_of item null)))
              (last_of (x ∷ xs))
              (some (elem_of (last_payload (x ∷ xs)) a)))
    link_last-cons =
        let (last_ne, last_is) = Linked-last h x xs chain in
        link_last-some _ a _ (ground arith) last_ne
          (update_ne h a _ (some (elem_of item null)) (ne_of_some h _ a _ last_is fresh) ∙ last_is)

    queue_add-cons :
        (l u : Bool)
        → length (x ∷ xs) + 1 < 2 ^ 64
        → (a == null) ≡ false
        → Behaves
            (add_good (sys_of a i l u d))
            (Holds h ((a, item) ∷ x ∷ xs) ((x ∷ xs) ++ (a, item) ∷ []))
            (queue_add (sys_of a i l u d) (shape (x ∷ xs)) item h)
    unfolding queue_add
    queue_add-cons false u fits ne = rw ne refl
    queue_add-cons true false fits ne = rw (ne, link_last-cons) refl
    queue_add-cons true true fits ne =
        rw (ne, link_last-cons)
          (
            refl,
            record {
              queue = shape-snoc x xs a item fits;
              chain = Linked-snoc h x xs a item chain (ground arith) fresh;
              rest = λ b out.
                  let in_xs : has b (x ∷ xs) ≡ false = ground arith in
                  update_ne (update h a (some (elem_of item null))) _ b _
                    (ne_of_has b _ (x ∷ xs) in_xs (has-last_of x xs))
                  ∙ update_ne h a b (some (elem_of item null)) (ground arith);
            },
          )

  queue_add-fresh :
      (l u : Bool) (xs : Cells)
      → Linked h xs
      → h a ≡ none
      → length xs + 1 < 2 ^ 64
      → (a == null) ≡ false
      → Behaves
          (add_good (sys_of a i l u d))
          (Holds h ((a, item) ∷ xs) (xs ++ (a, item) ∷ []))
          (queue_add (sys_of a i l u d) (shape xs) item h)
  queue_add-fresh l u [] chain fresh fits ne = queue_add-nil l u fresh ne
  queue_add-fresh l u (x ∷ xs) chain fresh fits ne = queue_add-cons x xs chain fresh l u fits ne

-- `queue_add` on a queue that stands for `xs`, with a `calloc` that answers NULL or an unused
-- address: it returns exactly if `calloc` and both mutex calls succeed, and then the queue stands
-- for `xs` with the item behind it and the rest of the heap is as before.
pub queue_add-append :
    (sys : Sys) (xs : Cells) (item : Ptr) (h : Heap)
    → Linked h xs
    → (sys.calloc ≡ null) ⊎ (h sys.calloc ≡ none)
    → length xs + 1 < 2 ^ 64
    → Behaves
        (add_good sys)
        (Holds h ((sys.calloc, item) ∷ xs) (xs ++ (sys.calloc, item) ∷ []))
        (queue_add sys (shape xs) item h)
unfolding queue_add
queue_add-append sys xs item h chain fresh fits = elim (Bool-cases (sys.calloc == null)) [
  | inl e ↦ rw e refl
  | inr ne ↦
      queue_add-fresh sys.calloc sys.init_ok sys.destroy_ok item h sys.lock_ok sys.unlock_ok xs
        chain (elim fresh [ inl e ↦ absurd (ground arith) | inr unused ↦ unused ]) fits ne
]
