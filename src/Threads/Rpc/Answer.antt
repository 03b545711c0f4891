-- ===== src/Threads/Rpc/Answer.antt =====
-- The answer to a remote call, `kmt_rpc_return` of c-kernel/syscore/mt/kernel.c.
use pentinum_os.Base.{
  ℕ, ◌<◌, ◌≡◌, ◌≢◌, true, false, ◌&&◌, ◌==◌, leb, ltb, arith, refl, ap, ◌∙◌, some,
}
use pentinum_os.Threads.State.{Kmt, RpcDesc, done, status_of, ready, idle_rpc_caller, esuccess}
use pentinum_os.Threads.Ready.Inv.{IsReady}
use pentinum_os.Threads.Rpc.{is_err_ptr, epending, returned, set_return, rpc_wait, kmt_rpc_return}
use pentinum_os.Threads.Rpc.Exchange.{threads-IsReady, wake_idle}

-- The answer of `kmt_rpc_return` to a caller that waits: the caller is ready, and its wait ends with the
-- code. The ready queues stay in order.
pub kmt_rpc_return-rpc_wait :
    (s : Kmt) (d : RpcDesc) (code : ℕ)
    → IsReady s
    → d.caller < s.thread_count
    → (s.tcb_pool d.caller).priority < 31
    → status_of s d.caller ≡ idle_rpc_caller
    → d.callee ≡ s.current_thread
    → (ltb 0 d.request_size && is_err_ptr d.request) ≡ false
    → (ltb 0 d.response_size && is_err_ptr d.response) ≡ false
    → code ≢ epending
    → (s' : Kmt) × (kmt_rpc_return s (some d) code ≡ done esuccess s')
      × IsReady s'
      × (status_of s' d.caller ≡ ready)
      × ((s'.threads d.caller).rpc_return ≡ code)
      × (rpc_wait (record s' { current_thread = d.caller })
          ≡ returned (done esuccess (record s' { current_thread = d.caller })))
unfolding kmt_rpc_return rpc_wait
kmt_rpc_return-rpc_wait s d code v known place waits mine req resp real =
    let s1 : Kmt = set_return s d.caller code in
    let (s', e, w, t) =
      wake_idle s1 d.caller (threads-IsReady s s1.threads v) known (ground (arith, waits)) place in
    let self : (d.caller == d.caller) ≡ true = ground arith in
    let stored : (s'.threads d.caller).rpc_return ≡ code =
      ap (λ f. (f d.caller).rpc_return) t ∙ rw self refl in
    let a : leb s.thread_count d.caller ≡ false = ground (arith, known) in
    let b : (d.callee == s.current_thread) ≡ true = ground (arith, mine) in
    let c : (code == epending) ≡ false = ground (arith, real) in
    let f : (status_of s d.caller == idle_rpc_caller) ≡ true = ground (arith, waits) in
    let answered : ((s'.threads d.caller).rpc_return == epending) ≡ false = rw stored c in
    (s', rw (a, b, req, resp, c, f, e) refl, w.inv, w.now_ready, stored, rw answered refl)
