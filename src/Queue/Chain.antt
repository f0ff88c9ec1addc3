-- ===== src/Queue/Chain.antt =====
-- What a heap must hold for a queue to stand for a list of elements.
use droidcam_linux_client.Prelude.{
  ◌≡◌, refl, ◌≢◌, Bool, true, false, ◌||◌, Option, none, some, List, [], ◌∷◌, ◌++◌, arith, ◌==◌,
  ◌∙◌, inl, inr, ==_iff, Bool-cases,
}
use droidcam_linux_client.Queue.Store.{Ptr, null, QueueElem, elem_of, Heap, update}

-- Address and payload of each element, in order.
abbrev pub Cells : Type 0
Cells = List (Ptr × Ptr)

abbrev pub has : Ptr → Cells → Bool
has a [] = false
has a ((p, _) ∷ xs) = (a == p) || has a xs

abbrev pub payloads : Cells → List Ptr
payloads [] = []
payloads ((_, v) ∷ xs) = v ∷ payloads xs

abbrev pub first_of : Cells → Ptr
first_of [] = null
first_of ((a, _) ∷ _) = a

abbrev pub last_of : Cells → Ptr
last_of [] = null
last_of ((a, _) ∷ []) = a
last_of (_ ∷ x ∷ xs) = last_of (x ∷ xs)

-- Distinct addresses, each element pointing to the one behind it and the last one to NULL.
abbrev pub Linked : Heap → Cells → Type 0
Linked h [] = Unit {0}
Linked h ((a, v) ∷ xs) =
    (a ≢ null) × (has a xs ≡ false) × (h a ≡ some (elem_of v (first_of xs))) × Linked h xs

-- A change that spares the addresses of a chain leaves the chain.
pub Linked-frame :
    {h g : Heap} (xs : Cells)
    → Linked h xs
    → ((a : Ptr) → has a xs ≡ true → g a ≡ h a)
    → Linked g xs
Linked-frame [] l same = tt
Linked-frame ((p, v) ∷ xs) l same =
    (l.0, l.1, ground (arith, same p), Linked-frame xs l.3 (λ a i. same a (ground arith)))

pub Linked-update :
    (h : Heap) (xs : Cells) (p : Ptr) (c : Option QueueElem)
    → Linked h xs
    → has p xs ≡ false
    → Linked (update h p c) xs
unfolding update
Linked-update h xs p c l out = Linked-frame xs l (λ a i. ground arith)

-- An address that holds nothing is no address of a chain.
pub not_has_of_none :
    (h : Heap) (a : Ptr) (xs : Cells) → Linked h xs → h a ≡ none → has a xs ≡ false
not_has_of_none h a [] l e = refl
not_has_of_none h a ((p, v) ∷ xs) l e = ground (arith, not_has_of_none h a xs l.3 e)

pub has-snoc :
    (b : Ptr) (xs : Cells) (a v : Ptr) → has b (xs ++ (a, v) ∷ []) ≡ (has b xs || (b == a))
has-snoc b [] a v = ground arith
has-snoc b ((p, w) ∷ xs) a v = ground (arith, has-snoc b xs a v)

pub last_of-snoc : (xs : Cells) (a v : Ptr) → last_of (xs ++ (a, v) ∷ []) ≡ a
last_of-snoc [] a v = refl
last_of-snoc (x ∷ []) a v = refl
last_of-snoc (x ∷ y ∷ xs) a v = last_of-snoc (y ∷ xs) a v

pub has-last_of : (x : Ptr × Ptr) (xs : Cells) → has (last_of (x ∷ xs)) (x ∷ xs) ≡ true
has-last_of x [] = ground arith
has-last_of x (y ∷ xs) = ground (arith, has-last_of y xs)

-- The last payload, for the element that `queue_add` rewrites.
abbrev pub last_payload : Cells → Ptr
last_payload [] = null
last_payload ((_, v) ∷ []) = v
last_payload (_ ∷ x ∷ xs) = last_payload (x ∷ xs)

pub Linked-last :
    (h : Heap) (x : Ptr × Ptr) (xs : Cells)
    → Linked h (x ∷ xs)
    → (last_of (x ∷ xs) ≢ null)
      × (h (last_of (x ∷ xs)) ≡ some (elem_of (last_payload (x ∷ xs)) null))
Linked-last h x [] l = (l.0, l.2)
Linked-last h x (y ∷ xs) l = Linked-last h y xs l.3

pub update_ne :
    (h : Heap) (p a : Ptr) (c : Option QueueElem) → (a == p) ≡ false → update h p c a ≡ h a
unfolding update
update_ne h p a c e = rw e

pub ne_of_has : (b c : Ptr) (xs : Cells) → has b xs ≡ false → has c xs ≡ true → (b == c) ≡ false
ne_of_has b c xs out in_xs = elim (Bool-cases (b == c)) [
  | inr ne ↦ ne
  | inl e ↦ cc ((==_iff b c).0 e)
]

pub ne_of_some :
    (h : Heap) (b a : Ptr) (c : QueueElem) → h b ≡ some c → h a ≡ none → (b == a) ≡ false
ne_of_some h b a c used unused = elim (Bool-cases (b == a)) [
  | inr ne ↦ ne
  | inl e ↦ cc ((==_iff b a).0 e)
]

-- Writing a fresh element and the link to it extends the chain.
pub Linked-snoc :
    (h : Heap) (x : Ptr × Ptr) (xs : Cells) (a v : Ptr)
    → Linked h (x ∷ xs)
    → a ≢ null
    → h a ≡ none
    → Linked
        (update
          (update h a (some (elem_of v null)))
          (last_of (x ∷ xs))
          (some (elem_of (last_payload (x ∷ xs)) a)))
        ((x ∷ xs) ++ (a, v) ∷ [])
unfolding update
Linked-snoc h x [] a v l ne e = (l.0, ground arith, ground arith, (ne, refl, ground arith, tt))
Linked-snoc h x (y ∷ xs) a v l ne e = (
  l.0,
  rw (has-snoc x.0 (y ∷ xs) a v, l.1) (ne_of_some h x.0 a _ l.2 e),
  update_ne (update h a (some (elem_of v null))) _ x.0 _
        (ne_of_has x.0 _ (y ∷ xs) l.1 (has-last_of y xs))
      ∙ update_ne h a x.0 (some (elem_of v null)) (ne_of_some h x.0 a _ l.2 e)
      ∙ l.2,
  Linked-snoc h y xs a v l.3 ne e,
)
