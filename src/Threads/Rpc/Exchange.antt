-- ===== src/Threads/Rpc/Exchange.antt =====
-- What a remote call of c-kernel/syscore/mt/kernel.c brings to the callee, and its answer to the caller.
use pentinum_os.Base.{
  ℕ, ◌<◌, ◌≡◌, ◌≢◌, true, false, ◌&&◌, List, [], ◌∷◌, ◌==◌, leb, ltb, arith, refl, sym, ap, ◌∙◌,
}
use pentinum_os.Threads.State.{
  Kmt, Info, RpcDesc, done, on_success, set_status, status_of, terminated, ready, running, idle,
  idle_rpc_callee, idle_rpc_caller, esuccess,
}
use pentinum_os.Threads.Ready.{kmt_wakeup_thread, kmt_schedule}
use pentinum_os.Threads.Ready.Inv.{IsReady}
use pentinum_os.Threads.Ready.Wake.{woken, wakeup_eq, Woken, enqueue-Woken}
use pentinum_os.Threads.Ready.Schedule.{set_tcb-IsReady}
use pentinum_os.Threads.Rpc.{
  is_err_ptr, epending, received, switched, set_info, add_request, notify, post, set_return,
  rpc_wait, rpc_started, kmt_rpc_call, rpc_take, kmt_rpc_listen,
}

-- The ready queues do not depend on the requests.
pub threads-IsReady : (s : Kmt) (t : ℕ → Info) → IsReady s → IsReady (record s { threads = t })
threads-IsReady s t v = record {
  bits = v.bits;
  no_bit = v.no_bit;
  tails = v.tails;
  once = v.once;
  one_queue = v.one_queue;
  are_ready = v.are_ready;
  are_queued = v.are_queued;
}

-- A thread that waits is woken: it goes to idle first, and then to its queue.
module _ (s : Kmt) (id : ℕ) (v : IsReady s) (known : id < s.thread_count)
    (off : status_of s id ≢ ready) (place : (s.tcb_pool id).priority < 31) where
  abbrev rested : Kmt
  rested = set_status s id idle

  rested-IsReady : IsReady rested
  rested-IsReady =
      set_tcb-IsReady s id (record (s.tcb_pool id) { status = idle }) v off (ground arith)

  rested_status : status_of rested id ≡ idle
  rested_status = ground arith

  rested_place : (rested.tcb_pool id).priority < 31
  rested_place = ground arith

  not_idle : (n : ℕ) → n ≢ idle → status_of rested id ≢ n
  not_idle n d e = d (sym e ∙ rested_status)

  pub wake_idle :
      (s' : Kmt) × (kmt_wakeup_thread rested id ≡ done esuccess s')
      × Woken rested s' id
      × (s'.threads ≡ s.threads)
  wake_idle =
      let asleep = not_idle ready (omega arith) in
      (
        woken rested id rested-IsReady known asleep rested_place,
        wakeup_eq rested id rested-IsReady known asleep rested_place
            (not_idle running (omega arith)) (not_idle terminated (omega arith)),
        enqueue-Woken rested id rested-IsReady known asleep rested_place,
        refl,
      )

-- A callee that waits for requests, with the queues in order.
pub record IsListening (s : Kmt) (callee : ℕ) : Type 0 where
  pub inv : IsReady s
  pub known : callee < s.thread_count
  pub waits : status_of s callee ≡ idle_rpc_callee
  pub nothing : (s.threads callee).rpc_queue ≡ []
  pub place : (s.tcb_pool callee).priority < 31

added_status :
    (s : Kmt) (d : RpcDesc)
    → IsListening s d.callee
    → (status_of (add_request s d) d.callee == idle_rpc_callee) ≡ true
unfolding add_request
added_status s d v = ground (arith, v.waits)

post_wakes :
    (s : Kmt) (d : RpcDesc)
    → IsListening s d.callee
    → post s d
      ≡ on_success
          (kmt_wakeup_thread (set_status (add_request s d) d.callee idle) d.callee)
          (λ t. done esuccess t)
unfolding post notify
post_wakes s d v = rw (v.nothing, added_status s d v) refl

takes :
    (s : Kmt) (d : RpcDesc) (rest : List RpcDesc)
    → (s.threads s.current_thread).rpc_queue ≡ d ∷ rest
    → rpc_take s
      ≡ received d
          (set_info s s.current_thread (record (s.threads s.current_thread) { rpc_queue = rest }))
unfolding rpc_take
takes s d rest e = rw (e, rpc_take) refl

listen_takes :
    (s : Kmt) (d : RpcDesc) (rest : List RpcDesc)
    → (s.threads s.current_thread).rpc_queue ≡ d ∷ rest
    → kmt_rpc_listen s
      ≡ received d
          (set_info s s.current_thread (record (s.threads s.current_thread) { rpc_queue = rest }))
unfolding kmt_rpc_listen
listen_takes s d rest e = rw (e, kmt_rpc_listen) (takes s d rest e)

-- A request to a callee that waits for one makes it ready, with that request alone in its queue.
post_wakes_callee :
    (s : Kmt) (d : RpcDesc)
    → IsListening s d.callee
    → (s' : Kmt) × (post s d ≡ done esuccess s')
      × IsReady s'
      × (s'.current_thread ≡ s.current_thread)
      × (status_of s' d.callee ≡ ready)
      × ((s'.threads d.callee).rpc_queue ≡ d ∷ [])
unfolding add_request
post_wakes_callee s d v =
    let callee : ℕ = d.callee in
    let s1 : Kmt = add_request s d in
    let (s', e, w, t) =
      wake_idle s1 callee (threads-IsReady s s1.threads v.inv) v.known (ground (arith, v.waits))
        v.place in
    let self : (callee == callee) ≡ true = ground arith in
    let posted_here : (s1.threads callee).rpc_queue ≡ d ∷ [] = rw (self, v.nothing) refl in
    (
      s',
      rw (post_wakes s d v) (ap (λ r. on_success r (λ t'. done esuccess t')) e),
      w.inv,
      w.current,
      w.now_ready,
      ap (λ f. (f callee).rpc_queue) t ∙ posted_here,
    )

-- The arguments of a call pass its guards.
pub record IsCall (s : Kmt) (d : RpcDesc) (return_code : ℕ) : Type 0 where
  pub caller : d.caller ≡ s.current_thread
  pub other : d.callee ≢ s.current_thread
  pub request : (ltb 0 d.request_size && is_err_ptr d.request) ≡ false
  pub response : (ltb 0 d.response_size && is_err_ptr d.response) ≡ false
  pub answer : is_err_ptr return_code ≡ false

started_eq :
    (s : Kmt)
    → rpc_started (done esuccess s)
      ≡ switched (kmt_schedule (set_return s s.current_thread epending) idle_rpc_caller)
unfolding rpc_started rpc_wait
started_eq s =
    let self : (s.current_thread == s.current_thread) ≡ true = ground arith in rw self refl

call_posts :
    (s : Kmt) (d : RpcDesc) (return_code : ℕ)
    → d.callee < s.thread_count
    → IsCall s d return_code
    → kmt_rpc_call s d.callee d.function d.request d.request_size d.response d.response_size
        return_code
      ≡ rpc_started (post s d)
unfolding kmt_rpc_call
call_posts s d return_code known c =
    let a : leb s.thread_count d.callee ≡ false = ground (arith, known) in
    rw (a, c.request, c.response, c.answer)
      (ap (λ i. rpc_started (post s (record d { caller = i }))) (sym c.caller))

-- A remote call with valid arguments, to another thread that waits for requests, makes that thread ready
-- and the caller wait for an answer; once the callee runs, its `kmt_rpc_listen` takes exactly the request
-- of the call and leaves its queue empty.
pub kmt_rpc_call-listen :
    (s : Kmt) (d : RpcDesc) (return_code : ℕ)
    → IsListening s d.callee
    → IsCall s d return_code
    → (s' s'' : Kmt) × (kmt_rpc_call s d.callee d.function d.request d.request_size d.response
          d.response_size return_code
        ≡ switched (kmt_schedule s' idle_rpc_caller))
      × IsReady s'
      × (status_of s' d.callee ≡ ready)
      × ((s'.threads s.current_thread).rpc_return ≡ epending)
      × (kmt_rpc_listen (record s' { current_thread = d.callee }) ≡ received d s'')
      × ((s''.threads d.callee).rpc_queue ≡ [])
kmt_rpc_call-listen s d return_code v c =
    let (s1, e, w, current, now, holds) = post_wakes_callee s d v in
    let s' : Kmt = set_return s1 s1.current_thread epending in
    let self : (d.callee == d.callee) ≡ true = ground arith in
    let me : (s.current_thread == s1.current_thread) ≡ true = ground (arith, current) in
    let far : (d.callee == s1.current_thread) ≡ false = ground (arith, current, c.other) in
    let here : (s'.threads d.callee).rpc_queue ≡ d ∷ [] = rw far holds in
    (
      s',
      set_info (record s' { current_thread = d.callee }) d.callee
          (record (s'.threads d.callee) { rpc_queue = [] }),
      call_posts s d return_code v.known c ∙ ap rpc_started e ∙ started_eq s1,
      threads-IsReady s1 s'.threads w,
      now,
      rw me refl,
      listen_takes (record s' { current_thread = d.callee }) d [] here,
      rw self refl,
    )
