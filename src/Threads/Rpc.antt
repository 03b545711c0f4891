-- ===== src/Threads/Rpc.antt =====
-- The remote calls between threads of c-kernel/syscore/mt/kernel.c. The buffers are addresses; what
-- they hold is not modelled, nor is the node that a request is kept in.
pub mod Exchange
pub mod Answer
use pentinum_os.Base.{
  ℕ, zero, suc, Bool, true, false, not, ◌&&◌, List, [], ◌∷◌, ◌++◌, Option, none, some, ◌==◌, ltb,
  leb, if◌then◌else◌, update,
}
use pentinum_os.Threads.State.{
  Kmt, Info, RpcDesc, Run, done, panic, fault, on_success, set_status, status_of, terminated, idle,
  idle_rpc_callee, idle_rpc_caller, esuccess, einval,
}
use pentinum_os.Threads.Ready.{kmt_wakeup_thread, kmt_schedule}

abbrev pub einvptr : ℕ
einvptr = 0x24

abbrev pub eoutofrange : ℕ
eoutofrange = 0x52

abbrev pub epending : ℕ
epending = 0x70000000

-- `IS_ERR_PTR`
abbrev pub is_err_ptr : ℕ → Bool
is_err_ptr p = ltb p 0x1000

-- How a call that waits goes on: it returns a code, it returns a request, or it gives up the
-- processor.
pub data Call : Type 0 where
  returned : Run → Call
  received : RpcDesc → Kmt → Call
  switched : Run → Call

abbrev pub set_info : Kmt → ℕ → Info → Kmt
set_info s id x = record s { threads = update s.threads id x }

-- The request joins the end of the callee's queue.
unfoldable pub add_request : Kmt → RpcDesc → Kmt
add_request s d =
    let info = s.threads d.callee in
    set_info s d.callee (record info { rpc_queue = info.rpc_queue ++ d ∷ [] })

-- A callee that waits for requests, and whose queue was empty, is woken.
unfoldable pub notify : List RpcDesc → Kmt → ℕ → Run
notify (x ∷ xs) s callee = done esuccess s
notify [] s callee =
    if status_of s callee == idle_rpc_callee
    then on_success (kmt_wakeup_thread (set_status s callee idle) callee) (λ t. done esuccess t)
    else if status_of s callee == terminated
    then panic
    else done esuccess s

unfoldable pub post : Kmt → RpcDesc → Run
post s d = notify (s.threads d.callee).rpc_queue (add_request s d) d.callee

abbrev pub set_return : Kmt → ℕ → ℕ → Kmt
set_return s id code = set_info s id (record (s.threads id) { rpc_return = code })

-- A round of the loop that waits for the answer. With an answer, `*return_code` becomes the code that
-- the state keeps for the current thread.
unfoldable pub rpc_wait : Kmt → Call
rpc_wait s =
    if (s.threads s.current_thread).rpc_return == epending
    then switched (kmt_schedule s idle_rpc_caller)
    else returned (done esuccess s)

unfoldable pub rpc_started : Run → Call
rpc_started (done e s) = rpc_wait (set_return s s.current_thread epending)
rpc_started panic = returned panic
rpc_started fault = returned fault

-- `kmt_rpc_call`: `return_code` is the address that the answer goes to.
unfoldable pub kmt_rpc_call : Kmt → ℕ → ℕ → ℕ → ℕ → ℕ → ℕ → ℕ → Call
kmt_rpc_call s callee function request request_size response response_size return_code =
    if leb s.thread_count callee
    then returned (done eoutofrange s)
    else if ltb 0 request_size && is_err_ptr request
    then returned (done einvptr s)
    else if ltb 0 response_size && is_err_ptr response
    then returned (done einvptr s)
    else if is_err_ptr return_code
    then returned (done einvptr s)
    else rpc_started (
        post s (record {
          caller = s.current_thread;
          callee = callee;
          function = function;
          request = request;
          request_size = request_size;
          response = response;
          response_size = response_size;
        }))

-- The end of `kmt_rpc_listen`, where the queue has a request; an empty one is a panic.
unfoldable pub rpc_take : Kmt → Call
rpc_take s =
    let info = s.threads s.current_thread in
    elim info.rpc_queue [
      | [] ↦ returned panic
      | d ∷ rest ↦ received d (set_info s s.current_thread (record info { rpc_queue = rest }))
    ]

-- The call up to the first switch; a thread that has been woken goes on with `rpc_take`.
unfoldable pub kmt_rpc_listen : Kmt → Call
kmt_rpc_listen s = elim (s.threads s.current_thread).rpc_queue [
  | [] ↦ switched (kmt_schedule s idle_rpc_callee)
  | d ∷ rest ↦ rpc_take s
]

-- The descriptor is read through a pointer; `none` is a pointer that is invalid.
unfoldable pub kmt_rpc_return : Kmt → Option RpcDesc → ℕ → Run
kmt_rpc_return s none return_code = done einvptr s
kmt_rpc_return s (some d) return_code =
    if leb s.thread_count d.caller
    then done eoutofrange s
    else if not (d.callee == s.current_thread)
    then done einval s
    else if ltb 0 d.request_size && is_err_ptr d.request
    then done einvptr s
    else if ltb 0 d.response_size && is_err_ptr d.response
    then done einvptr s
    else if return_code == epending
    then done einval s
    else if not (status_of s d.caller == idle_rpc_caller)
    then panic
    else on_success
        (kmt_wakeup_thread (set_status (set_return s d.caller return_code) d.caller idle) d.caller)
        (λ t. done esuccess t)
