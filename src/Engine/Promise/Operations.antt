-- ===== src/Engine/Promise/Operations.antt =====
-- The functions that JavaScript and the host call on promises in .backup/quickjs.c, and the jobs.
-- `none` and `throws` stand for an exception. No promise hook is set.
use cno_cli.Base.{
  ℕ, zero, suc, Bool, true, false, Option, none, some, List, [], ◌∷◌, ◌++◌, length, get_elem?, not,
  ◌&&◌, if◌then◌else◌,
}
use cno_cli.Engine.Promise.State.{
  Host, JsValue, undefined, type_error, promise, resolving, js_is_function, js_is_undefined,
  js_is_uncatchable_error, pending, JsPromiseReactionData, JsPromiseData, Job, reaction_job,
  thenable_job, Runtime, Completion, returns, throws, Callee, malloc_granted, asked,
}
use cno_cli.Engine.Promise.Settle.{perform_promise_then, js_promise_resolve_function_call}

-- What follows a step that may fail: `next`, or the result `failed`.
unfoldable pub if_some {ℓ κ} :
    {A : Type ℓ} {B : Type κ} → (A → Runtime → Runtime × B) → B → Runtime × Option A → Runtime × B
if_some next failed (r, none) = (r, failed)
if_some next failed (r, some a) = next a r

-- What follows a call: `next` on its value, or `caught` on its exception.
unfoldable pub if_returns {ℓ} :
    {B : Type ℓ}
    → (JsValue → Runtime → Runtime × B)
    → (JsValue → Runtime → Runtime × B)
    → Runtime × Completion
    → Runtime × B
if_returns next caught (r, returns v) = next v r
if_returns next caught (r, throws error) = caught error r

-- The requests of a creation, up to one that is refused.
unfoldable pub allocate : ℕ → Runtime → Runtime × Option (Unit {0})
allocate zero r = (r, some tt)
allocate (suc n) r =
    let rest = allocate n (asked r) in if malloc_granted r then rest else (asked r, none)

abbrev pub new_flag : Runtime → Runtime × Option ℕ
new_flag r = (
  record r { already_resolved = r.already_resolved ++ false ∷ [] },
  some (length r.already_resolved),
)

-- The flag that the two functions share, then an object and its data for each of them.
unfoldable pub js_create_resolving_functions : Runtime → Runtime × Option ℕ
js_create_resolving_functions r = if_some (λ _. new_flag) none (allocate 5 r)

abbrev pub new_promise : JsPromiseData
new_promise = record {
  promise_state = pending;
  fulfill_reactions = [];
  reject_reactions = [];
  is_handled = false;
  promise_result = undefined;
}

-- A promise with the functions that resolve and reject it.
pub record Capability : Type 0 where
  pub result_promise : JsValue
  pub resolve : JsValue
  pub reject : JsValue

abbrev pub capability_of : ℕ → ℕ → Runtime → Runtime × Option Capability
capability_of p flag r = (
  r,
  some (record {
    result_promise = promise p;
    resolve = resolving flag p false;
    reject = resolving flag p true;
  }),
)

-- The promise, then its functions. Where they cannot be had, nothing refers to the promise.
unfoldable pub with_new_promise : Runtime → Runtime × Option Capability
unfolding js_create_resolving_functions
with_new_promise r =
    if_some (capability_of (length r.promises)) none
      (js_create_resolving_functions (record r { promises = r.promises ++ new_promise ∷ [] }))

-- `create` is `js_create_from_ctor`: it looks up the prototype of new_target.
unfoldable pub js_promise_new : Callee → Runtime → Runtime × Option Capability
unfolding with_new_promise
js_promise_new create r =
    if_returns (λ _ r1. if_some (λ _. with_new_promise) none (allocate 1 r1)) (λ _ r1. (r1, none))
      (create r)

module _ ⦃host : Host⦄ where
  -- Calling a value with one argument. `code` is what runs where the value is not a resolving
  -- function, and the lookup of `then` where it is one.
  unfoldable pub js_call : JsValue → JsValue → Callee → Runtime → Runtime × Completion
  unfolding js_promise_resolve_function_call
  js_call (resolving flag p is_reject) arg code r =
      (js_promise_resolve_function_call flag p is_reject arg code r, returns undefined)
  js_call f arg code r = if js_is_function f then code r else (r, throws type_error)

abbrev pub return : JsValue → Runtime → Runtime × Completion
return v r = (r, returns v)

abbrev pub throw : JsValue → Runtime → Runtime × Completion
throw error r = (r, throws error)

module _ ⦃host : Host⦄ where
  -- `new Promise(executor)`. `on_reject` is the code that a call of the rejecting function runs.
  unfoldable pub js_promise_constructor :
      JsValue → Callee → Callee → Callee → Runtime → Runtime × Completion
  unfolding js_promise_new js_call
  js_promise_constructor executor create code on_reject r =
      if js_is_function executor
      then if_some
          (λ c r1.
            if_returns (λ _. return c.result_promise)
              (λ error r2.
                if_returns (λ _. return c.result_promise) throw
                  (js_call c.reject error on_reject r2))
              (js_call executor c.resolve code r1))
          (throws type_error) (js_promise_new create r)
      else throw type_error r

-- The constructor that a capability comes from: Promise itself, or another one, whose run gives the
-- promise and what it passed to the executor.
pub data Constructor : Type 0 where
  promise_ctor : Constructor
  other_ctor : (Runtime → Runtime × Option Capability) → Constructor

abbrev pub made_object : Callee
made_object r = (r, returns undefined)

-- `check_function` of what the executor was given.
abbrev pub checked : Capability → Runtime → Runtime × Option Capability
checked c r = (r, if js_is_function c.resolve && js_is_function c.reject then some c else none)

unfoldable pub js_new_promise_capability : Constructor → Runtime → Runtime × Option Capability
unfolding js_promise_new
js_new_promise_capability promise_ctor r = js_promise_new made_object r
js_new_promise_capability (other_ctor construct) r = if_some checked none (construct r)

module _ ⦃host : Host⦄ where
  -- The end of `js_promise_then`: the promise is looked up here.
  unfoldable pub then_with : ℕ → JsValue → JsValue → Capability → Runtime → Runtime × Option JsValue
  unfolding perform_promise_then
  then_with p on_fulfilled on_rejected c r = elim (get_elem? r.promises p) [
    | none ↦ (r, none)
    | some s ↦
        let (r1, done) = perform_promise_then p s on_fulfilled on_rejected c.resolve c.reject r in
        (r1, if done then some c.result_promise else none)
  ]

  -- `JS_PromiseThen`, and `js_promise_then` after the lookup of the constructor.
  unfoldable pub js_promise_then :
      ℕ → Constructor → JsValue → JsValue → Runtime → Runtime × Option JsValue
  unfolding js_new_promise_capability then_with
  js_promise_then p ctor on_fulfilled on_rejected r =
      if_some (then_with p on_fulfilled on_rejected) none (js_new_promise_capability ctor r)

  -- `Promise.resolve` and `Promise.reject` on a constructor. `is_same` says that the argument is a
  -- promise whose constructor is that one.
  unfoldable pub js_promise_resolve :
      Bool → Bool → Constructor → JsValue → Callee → Runtime → Runtime × Completion
  unfolding js_new_promise_capability js_call
  js_promise_resolve is_reject is_same ctor arg code r =
      if not is_reject && is_same
      then return arg r
      else if_some
          (λ c r1.
            if_returns (λ _. return c.result_promise) throw
              (js_call (if is_reject then c.reject else c.resolve) arg code r1))
          (throws type_error) (js_new_promise_capability ctor r)

  -- `Promise.try` of the function f; `then_code` is what a call of the capability's function runs.
  unfoldable pub js_promise_try :
      Constructor → JsValue → JsValue → Callee → Callee → Runtime → Runtime × Completion
  unfolding js_new_promise_capability js_call
  js_promise_try ctor f arg code then_code r =
      if_some
        (λ c r1.
          if_returns (λ _. return c.result_promise) throw
            (if_returns (λ v. js_call c.resolve v then_code)
              (λ error. js_call c.reject error then_code) (js_call f arg code r1)))
        (throws type_error) (js_new_promise_capability ctor r)

  -- The handler's part of `promise_reaction_job`.
  unfoldable pub reaction_result :
      JsValue → Bool → JsValue → Callee → Runtime → Runtime × Completion
  unfolding js_call
  reaction_result handler is_reject arg code r =
      if js_is_undefined handler
      then (if is_reject then throw arg r else return arg r)
      else js_call handler arg code r

  -- A resolving function of a reaction may be undefined.
  unfoldable pub call_defined : JsValue → JsValue → Callee → Runtime → Runtime × Completion
  unfolding js_call
  call_defined f arg code r = if js_is_undefined f then return undefined r else js_call f arg code r

  -- `code` is the handler, and `then_code` what the call of the resolving function runs.
  unfoldable pub promise_reaction_job :
      JsPromiseReactionData → Bool → JsValue → Callee → Callee → Runtime → Runtime × Completion
  unfolding reaction_result call_defined
  promise_reaction_job rd is_reject arg code then_code r =
      if_returns (λ v. call_defined rd.resolve v then_code)
        (λ error r1.
          if js_is_uncatchable_error error
          then throw error r1
          else call_defined rd.reject error then_code r1)
        (reaction_result rd.handler is_reject arg code r)

  -- `code` is the thenable's function `then`.
  unfoldable pub js_promise_resolve_thenable_job :
      ℕ → JsValue → Callee → Runtime → Runtime × Completion
  unfolding js_create_resolving_functions js_call
  js_promise_resolve_thenable_job p then_value code r =
      if_some
        (λ flag r1.
          if_returns return (λ error. js_call (resolving flag p true) error made_object)
            (js_call then_value (resolving flag p false) code r1))
        (throws type_error) (js_create_resolving_functions r)

  unfoldable pub run_job : Job → Callee → Callee → Runtime → Runtime × Completion
  unfolding promise_reaction_job js_promise_resolve_thenable_job
  run_job (reaction_job rd is_reject arg) code then_code r =
      promise_reaction_job rd is_reject arg code then_code r
  run_job (thenable_job p thenable then_value) code then_code r =
      js_promise_resolve_thenable_job p then_value code r

  -- The first of the pending jobs, if there is one: the others stay.
  unfoldable pub run_first : List Job → Callee → Callee → Runtime → Runtime × Option Completion
  unfolding run_job
  run_first [] code then_code r = (r, none)
  run_first (job ∷ jobs) code then_code r =
      let (r1, res) = run_job job code then_code (record r { job_list = jobs }) in (r1, some res)

  unfoldable pub js_execute_pending_job : Callee → Callee → Runtime → Runtime × Option Completion
  unfolding run_first
  js_execute_pending_job code then_code r = run_first r.job_list code then_code r
