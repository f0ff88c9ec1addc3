-- ===== src/Queue/Store.antt =====
-- The heap cells of src/queue.c and the outcomes of a call: `malloc`ed `queue_elem`s at addresses.
use droidcam_linux_client.Prelude.{ℕ, Option, none, some, ◌==◌, if◌then◌else◌}

abbrev pub Ptr : Type 0
Ptr = ℕ

abbrev pub null : Ptr
null = 0

-- `queue_elem`: a payload, itself a pointer, and the successor.
pub record QueueElem : Type 0 where
  pub payload : Ptr
  pub next : Ptr

abbrev pub elem_of : Ptr → Ptr → QueueElem
elem_of v q = record { payload = v; next = q }

abbrev pub Heap : Type 0
Heap = Ptr → Option QueueElem

unfoldable pub update : Heap → Ptr → Option QueueElem → Heap
update h p c a = if a == p then c else h a

-- `exited` is `exit(EXIT_FAILURE)`, `blocked` a wait for a mutex that is held, `fault` an access
-- through a pointer that holds no element, `spent` a loop that was given too few rounds.
pub data Run (A : Type 0) : Type 0 where
  done : A → Heap → Run A
  exited blocked fault spent : Run A

abbrev pub Cmd : Type 0 → Type 0
Cmd A = Heap → Run A

abbrev pub pure : {A : Type 0} → A → Cmd A
pure = done

abbrev pub exit_failure : {A : Type 0} → Cmd A
exit_failure h = exited

module _ {A B : Type 0} where
  abbrev pub and_then : Run A → (A → Cmd B) → Run B
  and_then (done a h) k = k a h
  and_then exited k = exited
  and_then blocked k = blocked
  and_then fault k = fault
  and_then spent k = spent

  infixl 5 ◌>>=◌ ◌>>◌
  abbrev pub ◌>>=◌ : Cmd A → (A → Cmd B) → Cmd B
  m >>= k = λ h. and_then (m h) k

  abbrev pub ◌>>◌ : Cmd A → Cmd B → Cmd B
  m >> k = m >>= λ _. k

-- `*p`
unfoldable pub load : Ptr → Cmd QueueElem
load p h = if p == null then fault else elim (h p) [ none ↦ fault | some e ↦ done e h ]

abbrev pub store : Ptr → Option QueueElem → Cmd (Unit {0})
store p c h = done tt (update h p c)

-- `p->next = q`
unfoldable pub set_next : Ptr → Ptr → Cmd (Unit {0})
set_next p q = do e ← load p; store p (some (elem_of e.payload q))

unfoldable pub free : Ptr → Cmd (Unit {0})
free p = load p >> store p none
