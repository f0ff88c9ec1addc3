-- ===== src/Queue.antt =====
-- src/queue.c and src/queue.h: a linked queue of pointers behind a mutex. A call takes the queue
-- and returns the new one; the elements stay in the heap.
pub mod Store
pub mod Chain
pub mod Fifo
pub mod Add
pub mod Next
pub mod Clear
pub mod Refine
mod Tests
use droidcam_linux_client.Prelude.{
  ℕ, zero, suc, ◌+◌, ◌-◌, ◌%◌, ◌^◌, Bool, true, false, some, ltb, ◌==◌, if◌then◌else◌,
}
use droidcam_linux_client.Queue.Store.{
  Ptr, null, elem_of, Cmd, spent, blocked, pure, exit_failure, ◌>>=◌, ◌>>◌, load, store, set_next,
  free,
}

-- `queue`; `held` says whether the mutex is locked.
pub record Queue : Type 0 where
  pub held : Bool
  pub size : ℕ
  pub last : Ptr
  pub first : Ptr

-- What the C library answers during one call: `calloc`'s address, and whether each mutex call
-- returns 0.
pub record Sys : Type 0 where
  pub calloc : Ptr
  pub init_ok : Bool
  pub lock_ok : Bool
  pub unlock_ok : Bool
  pub destroy_ok : Bool

pub lock : Sys → Queue → Cmd Queue
lock sys q =
    if sys.lock_ok
    then if q.held then (λ _. blocked) else pure (record q { held = true })
    else exit_failure

unlock : Sys → Queue → Cmd Queue
unlock sys q = if sys.unlock_ok then pure (record q { held = false }) else exit_failure

pub queue_init : Sys → Cmd Queue
queue_init sys =
    if sys.init_ok
    then pure (record { held = false; size = 0; last = null; first = null })
    else exit_failure

free_loop : ℕ → Ptr → Cmd (Unit {0})
free_loop zero elem = λ _. spent
free_loop (suc k) elem =
    if elem == null then pure tt else do e ← load elem; free elem; free_loop k e.next

-- The loop is given one round more than the size.
pub queue_clear : Sys → Queue → Cmd Queue
unfolding lock unlock free_loop
queue_clear sys q = do
  q ← lock sys q
  free_loop (suc q.size) q.first
  unlock sys (record q { size = 0; last = null; first = null })

pub queue_destroy : Sys → Queue → Cmd Queue
unfolding queue_clear
queue_destroy sys q = do q ← queue_clear sys q; if sys.destroy_ok then pure q else exit_failure

link_last : Queue → Ptr → Cmd Queue
link_last q elem =
    if q.first == null then pure (record q { first = elem }) else (set_next q.last elem >> pure q)

-- `size_t` addition wraps.
pub queue_add : Sys → Queue → Ptr → Cmd Queue
unfolding lock unlock link_last
queue_add sys q item = if sys.calloc == null then exit_failure else do
  store sys.calloc (some (elem_of item null))
  q ← lock sys q
  q ← link_last q sys.calloc
  unlock sys (record q { last = sys.calloc; size = (q.size + 1) % 2 ^ 64 })

-- `size--` runs only at a positive size.
pop_first : Queue → Cmd (Ptr × Queue)
pop_first q = do
  e ← load q.first
  free q.first
  pure (
    e.payload,
    record q { first = e.next; size = q.size - 1; last = if e.next == null then null else q.last },
  )

-- The result is NULL where the queue holds no more than `backbuffer` elements.
pub queue_next : Sys → Queue → ℕ → Cmd (Ptr × Queue)
unfolding lock unlock pop_first
queue_next sys q backbuffer = do
  q ← lock sys q
  (item, q) ← (if ltb backbuffer q.size then pop_first q else pure (null, q))
  q ← unlock sys q
  pure (item, q)
