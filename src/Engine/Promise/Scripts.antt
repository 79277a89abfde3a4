-- ===== src/Engine/Promise/Scripts.antt =====
-- What JavaScript and the host may do with the promises of .backup/quickjs.c: any calls, in any
-- order, each with the calls that the code it runs makes.
use cno_cli.Base.{ℕ, Bool, Option}
use cno_cli.Engine.Promise.State.{
  Host, JsValue, Runtime, Completion, Callee, js_promise_set_handled,
  js_set_host_promise_rejection_tracker,
}
use cno_cli.Engine.Promise.Operations.{
  Capability, Constructor, promise_ctor, other_ctor, js_call, js_promise_constructor,
  js_promise_then, js_promise_resolve, js_promise_try, js_execute_pending_job,
}

mutual
  pub data Act : Type 0 where
    construct : JsValue → Code → Code → Code → Act
    promise_then : ℕ → Maker → JsValue → JsValue → Act
    promise_resolve : Bool → Bool → Maker → JsValue → Code → Act
    promise_try : Maker → JsValue → JsValue → Code → Code → Act
    call_value : JsValue → JsValue → Code → Act
    mark_handled : ℕ → Act
    set_tracker : Bool → Act
    execute_pending_job : Code → Code → Act

  -- Where a capability comes from: Promise, or the code of another constructor.
  pub data Maker : Type 0 where
    intrinsic : Maker
    derived : Code → Option Capability → Maker

  pub data Code : Type 0 where
    ends : Completion → Code
    also : Act → Code → Code

module _ ⦃host : Host⦄ where
  unfoldable mutual
    unfolding js_promise_set_handled js_set_host_promise_rejection_tracker

    pub run_code : Code → Callee
    run_code (ends completion) r = (r, completion)
    run_code (also act rest) r = run_code rest (perform act r)

    pub perform : Act → Runtime → Runtime
    perform (construct executor create code on_reject) r =
        (js_promise_constructor executor (run_code create) (run_code code) (run_code on_reject) r).0
    perform (promise_then p maker on_fulfilled on_rejected) r =
        (js_promise_then p (constructor_of maker) on_fulfilled on_rejected r).0
    perform (promise_resolve is_reject is_same maker arg code) r =
        (js_promise_resolve is_reject is_same (constructor_of maker) arg (run_code code) r).0
    perform (promise_try maker f arg code then_code) r =
        (js_promise_try (constructor_of maker) f arg (run_code code) (run_code then_code) r).0
    perform (call_value f arg code) r = (js_call f arg (run_code code) r).0
    perform (mark_handled p) r = js_promise_set_handled p r
    perform (set_tracker cb) r = js_set_host_promise_rejection_tracker cb r
    perform (execute_pending_job code then_code) r =
        (js_execute_pending_job (run_code code) (run_code then_code) r).0

    pub constructor_of : Maker → Constructor
    constructor_of intrinsic = promise_ctor
    constructor_of (derived code capability) = other_ctor (λ r. ((run_code code r).0, capability))

-- The host's tracker as scripts: what it runs, given the promise, whether that is handled, and the
-- runtime, and the tracker for what is reported meanwhile. A tracker under which reports lead to
-- further ones without end would not return.
pub data Tracker : Type 0 where
  silent : Tracker
  runs : (ℕ → Bool → Runtime → Code) → Tracker → Tracker

unfoldable pub host_of : Tracker → Host
unfolding run_code
host_of silent = record { tracker = λ p is_handled r. r }
host_of (runs code deeper) = record {
  tracker = λ p is_handled r. (run_code ⦃host = host_of deeper⦄ (code p is_handled r) r).0;
}
