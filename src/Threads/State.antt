-- ===== src/Threads/State.antt =====
-- The state of the thread manager, `g_kmt_ctx` of c-kernel/syscore/mt/kernel.c, and its queues. A
-- queue is reached only through its two pointers, so it is the list of the threads on it; memory for
-- a queue's node is taken to be there, as the source does not test for it. The saved registers of a
-- thread are read by assembly only and are left out.
use pentinum_os.Base.{
  ℕ, zero, suc, Bool, true, false, List, [], ◌∷◌, ◌++◌, Option, none, some, update,
}
use pentinum_os.Threads.Sleep.{SleepHeap}

abbrev pub terminated : ℕ
terminated = 0x00

abbrev pub ready : ℕ
ready = 0x01

abbrev pub running : ℕ
running = 0x02

abbrev pub idle : ℕ
idle = 0x03

abbrev pub idle_sleep : ℕ
idle_sleep = 0x04

abbrev pub idle_mutex : ℕ
idle_mutex = 0x05

abbrev pub idle_rpc_callee : ℕ
idle_rpc_callee = 0x06

abbrev pub idle_rpc_caller : ℕ
idle_rpc_caller = 0x07

-- `tcb_t`, without the saved registers.
pub record Tcb : Type 0 where
  pub age : ℕ
  pub status : ℕ
  pub priority : ℕ
  pub base_priority : ℕ

-- Where the tail pointer of a queue leads: nowhere, to the last node, or to a node that has been taken
-- off the queue.
pub data Tail : Type 0 where
  null : Tail
  last : Tail
  stray : Tail

-- `kmt_queue_t`: the threads from the head on.
pub record Queue : Type 0 where
  pub items : List ℕ
  pub tail : Tail

abbrev pub empty_queue : Queue
empty_queue = record { items = []; tail = null }

-- A null tail makes the new node the head; a stray one takes the node away from the queue.
abbrev pub push_at : Tail → List ℕ → ℕ → Queue
push_at null items id = record { items = id ∷ []; tail = last }
push_at last items id = record { items = items ++ id ∷ []; tail = last }
push_at stray items id = record { items = items; tail = stray }

abbrev pub kmt_queue_push : Queue → ℕ → Queue
kmt_queue_push q id = push_at q.tail q.items id

abbrev pub pop_of : List ℕ → Tail → Option (ℕ × Queue)
pop_of [] t = none
pop_of (id ∷ []) t = some (id, record { items = []; tail = null })
pop_of (id ∷ next ∷ rest) t = some (id, record { items = next ∷ rest; tail = t })

-- `none` is the invalid thread identifier.
abbrev pub kmt_queue_pop : Queue → Option (ℕ × Queue)
kmt_queue_pop q = pop_of q.items q.tail

abbrev pub is_nil : List ℕ → Bool
is_nil [] = true
is_nil (x ∷ xs) = false

abbrev pub kmt_queue_is_empty : Queue → Bool
kmt_queue_is_empty q = is_nil q.items

abbrev pub invalid_u16 : ℕ
invalid_u16 = 0xFFFF

-- `kmt_mutex_impl_t`
pub record Mutex : Type 0 where
  pub flags : ℕ
  pub owner : ℕ
  pub waiting : Queue

-- `thread_rpc_desc_t`
pub record RpcDesc : Type 0 where
  pub caller : ℕ
  pub callee : ℕ
  pub function : ℕ
  pub request : ℕ
  pub request_size : ℕ
  pub response : ℕ
  pub response_size : ℕ

-- The part of `thread_info_t` that the manager works on: the queue of requests and the return code.
pub record Info : Type 0 where
  pub rpc_queue : List RpcDesc
  pub rpc_return : ℕ

-- `ready_priority_bitmap` is the table of its 32 bits.
pub record Kmt : Type 0 where
  pub tcb_pool : ℕ → Tcb
  pub threads : ℕ → Info
  pub thread_count : ℕ
  pub mutex_pool : ℕ → Mutex
  pub alloc_mutex_count : ℕ
  pub current_thread : ℕ
  pub preemption : Bool
  pub ready_priority_bitmap : ℕ → Bool
  pub ready_queues : ℕ → Queue
  pub sleep : SleepHeap

-- How a call ends: with an error code and the new state, in a kernel panic, which does not return, or
-- with an access outside a table or through a null pointer.
pub data Run : Type 0 where
  done : ℕ → Kmt → Run
  panic : Run
  fault : Run

-- `kpanic_on_err`, and the code behind it.
abbrev pub on_success : Run → (Kmt → Run) → Run
on_success (done zero s) next = next s
on_success (done (suc e) s) next = panic
on_success panic next = panic
on_success fault next = fault

-- Writes to one field of the table of threads.
abbrev pub set_status : Kmt → ℕ → ℕ → Kmt
set_status s id v = record s {
  tcb_pool = update s.tcb_pool id (record (s.tcb_pool id) { status = v });
}

abbrev pub status_of : Kmt → ℕ → ℕ
status_of s id = (s.tcb_pool id).status

abbrev pub esuccess : ℕ
esuccess = 0x0

abbrev pub einval : ℕ
einval = 0x23
