-- ===== src/Engine/Promise/Kept.antt =====
-- A predicate on the runtime that the small steps on promises of .backup/quickjs.c keep is kept by
-- whatever JavaScript and the host do.
use cno_cli.Base.{
  ℕ, ◌≡◌, Bool, true, false, some, List, [], ◌∷◌, get_elem?, not, ◌&&◌, if◌then◌else◌, Bool-cases,
  Option-cases, inl, inr,
}
use cno_cli.Engine.Promise.State.{
  Host, JsValue, resolving, js_is_function, js_is_undefined, js_is_uncatchable_error, JsPromiseData,
  Job, reaction_job, thenable_job, Runtime, Callee, malloc_granted, asked,
}
use cno_cli.Engine.Promise.Settle.{perform_promise_then}
use cno_cli.Engine.Promise.Operations.{
  js_create_resolving_functions, Capability, if_returns, js_promise_new, js_call,
  js_promise_constructor, Constructor, promise_ctor, other_ctor, js_new_promise_capability,
  js_promise_then, js_promise_resolve, js_promise_try, reaction_result, promise_reaction_job,
  js_promise_resolve_thenable_job, run_job, js_execute_pending_job,
}
use cno_cli.Engine.Promise.Operations.{then_with, call_defined, made_object, run_first}
use cno_cli.Engine.Promise.Scripts.{
  Tracker, silent, runs, host_of, set_tracker, Act, construct, promise_then, promise_resolve,
  promise_try, call_value, mark_handled, execute_pending_job, Maker, intrinsic, derived, Code, ends,
  also, run_code, perform, constructor_of,
}
use cno_cli.Engine.Promise.Closed.{
  IsClosed, Keeps, if-kept, if_some-kept, if_returns-kept, functions-kept, js_promise_new-kept,
  js_call-kept,
}

module _ ⦃host : Host⦄ (P : Runtime → Type 0) (closed : IsClosed P) where
  open closed use {asks, dequeues, reacts, handles, sets_tracker}

  abbrev Makes : Constructor → Type 0
  Makes promise_ctor = Unit {0}
  Makes (other_ctor build) = (r : Runtime) → P r → P (build r).0

  js_promise_constructor-kept :
      (executor : JsValue) (create code on_reject : Callee)
      → Keeps P closed create
      → Keeps P closed code
      → Keeps P closed on_reject
      → (r : Runtime) → P r
      → P (js_promise_constructor executor create code on_reject r).0
  unfolding js_promise_constructor
  js_promise_constructor-kept executor create code on_reject kc kx kr r h =
      if-kept P closed (js_is_function executor) _ _
        (if_some-kept P closed _ _ (js_promise_new create r)
          (λ c r1 h1.
            if_returns-kept P closed _ _ (js_call executor c.resolve code r1) (λ _ _ h2. h2)
              (λ error r2 h2.
                if_returns-kept P closed _ _ (js_call c.reject error on_reject r2) (λ _ _ h3. h3)
                  (λ _ _ h3. h3) (js_call-kept P closed c.reject error on_reject kr r2 h2))
              (js_call-kept P closed executor c.resolve code kx r1 h1))
          (js_promise_new-kept P closed create kc r h))
        h

  capability-kept :
      (ctor : Constructor)
      → Makes ctor
      → (r : Runtime) → P r
      → P (js_new_promise_capability ctor r).0
  unfolding js_new_promise_capability
  capability-kept promise_ctor m r h = js_promise_new-kept P closed made_object (λ _ h1. h1) r h
  capability-kept (other_ctor build) m r h =
      if_some-kept P closed _ _ (build r) (λ _ _ h1. h1) (m r h)

  perform_promise_then-kept :
      (p : ℕ) (s : JsPromiseData) (a b resolve reject : JsValue) (r : Runtime)
      → get_elem? r.promises p ≡ some s
      → P r
      → P (perform_promise_then p s a b resolve reject r).0
  unfolding perform_promise_then
  perform_promise_then-kept p s a b resolve reject r found h =
      elim (Bool-cases (malloc_granted r)) [
        | inr refused ↦ rw refused (asks r h)
        | inl first ↦ elim (Bool-cases (malloc_granted (asked r))) [
          | inr refused ↦ rw (first, refused) (asks (asked r) (asks r h))
          | inl second ↦
              rw (first, second)
                (reacts p _ _ s (asked (asked r)) found (asks (asked r) (asks r h)))
        ]
      ]

  then_with-kept :
      (p : ℕ) (a b : JsValue) (c : Capability) (r : Runtime) → P r → P (then_with p a b c r).0
  unfolding then_with
  then_with-kept p a b c r h = elim (Option-cases (get_elem? r.promises p)) [
    | inl missing ↦ rw (missing, then_with) h
    | inr (s, found) ↦
        rw (found, then_with) (perform_promise_then-kept p s a b c.resolve c.reject r found h)
  ]

  js_promise_then-kept :
      (p : ℕ) (ctor : Constructor) (a b : JsValue)
      → Makes ctor
      → (r : Runtime) → P r
      → P (js_promise_then p ctor a b r).0
  unfolding js_promise_then
  js_promise_then-kept p ctor a b m r h =
      if_some-kept P closed _ _ (js_new_promise_capability ctor r) (then_with-kept p a b)
        (capability-kept ctor m r h)

  js_promise_resolve-kept :
      (is_reject is_same : Bool) (ctor : Constructor) (arg : JsValue) (code : Callee)
      → Makes ctor
      → Keeps P closed code
      → (r : Runtime) → P r
      → P (js_promise_resolve is_reject is_same ctor arg code r).0
  unfolding js_promise_resolve
  js_promise_resolve-kept is_reject is_same ctor arg code m k r h =
      if-kept P closed (not is_reject && is_same) _ _ h (
        if_some-kept P closed _ _ (js_new_promise_capability ctor r)
          (λ c r1 h1.
            if_returns-kept P closed _ _
              (js_call (if is_reject then c.reject else c.resolve) arg code r1) (λ _ _ h2. h2)
              (λ _ _ h2. h2)
              (js_call-kept P closed (if is_reject then c.reject else c.resolve) arg code k r1 h1))
          (capability-kept ctor m r h))

  js_promise_try-kept :
      (ctor : Constructor) (f arg : JsValue) (code then_code : Callee)
      → Makes ctor
      → Keeps P closed code
      → Keeps P closed then_code
      → (r : Runtime) → P r
      → P (js_promise_try ctor f arg code then_code r).0
  unfolding js_promise_try
  js_promise_try-kept ctor f arg code then_code m k kt r h =
      if_some-kept P closed _ _ (js_new_promise_capability ctor r)
        (λ c r1 h1.
          if_returns-kept P closed _ _ (if_returns _ _ (js_call f arg code r1)) (λ _ _ h2. h2)
            (λ _ _ h2. h2)
            (if_returns-kept P closed _ _ (js_call f arg code r1)
              (λ v. js_call-kept P closed c.resolve v then_code kt)
              (λ v. js_call-kept P closed c.reject v then_code kt)
              (js_call-kept P closed f arg code k r1 h1)))
        (capability-kept ctor m r h)

  call_defined-kept :
      (f arg : JsValue) (code : Callee)
      → Keeps P closed code
      → (r : Runtime) → P r
      → P (call_defined f arg code r).0
  unfolding call_defined
  call_defined-kept f arg code k r h =
      if-kept P closed (js_is_undefined f) _ _ h (js_call-kept P closed f arg code k r h)

  reaction_result-kept :
      (handler : JsValue) (is_reject : Bool) (arg : JsValue) (code : Callee)
      → Keeps P closed code
      → (r : Runtime) → P r
      → P (reaction_result handler is_reject arg code r).0
  unfolding reaction_result
  reaction_result-kept handler is_reject arg code k r h =
      if-kept P closed (js_is_undefined handler) _ _ (if-kept P closed is_reject _ _ h h)
        (js_call-kept P closed handler arg code k r h)

  run_job-kept :
      (job : Job) (code then_code : Callee)
      → Keeps P closed code
      → Keeps P closed then_code
      → (r : Runtime) → P r
      → P (run_job job code then_code r).0
  unfolding run_job promise_reaction_job js_promise_resolve_thenable_job
  run_job-kept (reaction_job rd is_reject arg) code then_code k kt r h =
      if_returns-kept P closed _ _ (reaction_result rd.handler is_reject arg code r)
        (λ v. call_defined-kept rd.resolve v then_code kt)
        (λ error r1 h1.
          if-kept P closed (js_is_uncatchable_error error) _ _ h1
            (call_defined-kept rd.reject error then_code kt r1 h1))
        (reaction_result-kept rd.handler is_reject arg code k r h)
  run_job-kept (thenable_job p thenable then_value) code then_code k kt r h =
      if_some-kept P closed _ _ (js_create_resolving_functions r)
        (λ flag r1 h1.
          if_returns-kept P closed _ _ (js_call then_value (resolving flag p false) code r1)
            (λ _ _ h2. h2)
            (λ error. js_call-kept P closed (resolving flag p true) error made_object (λ _ h2. h2))
            (js_call-kept P closed then_value (resolving flag p false) code k r1 h1))
        (functions-kept P closed r h)

  run_first-kept :
      (jobs : List Job) (code then_code : Callee)
      → Keeps P closed code
      → Keeps P closed then_code
      → (r : Runtime) → P r
      → P (run_first jobs code then_code r).0
  unfolding run_first
  run_first-kept [] code then_code k kt r h = h
  run_first-kept (job ∷ jobs) code then_code k kt r h =
      run_job-kept job code then_code k kt _ (dequeues jobs r h)

  -- Whatever calls are made, with the calls that their code makes.
  mutual
    unfolding run_code perform constructor_of js_execute_pending_job

    pub run_code-kept : (code : Code) (r : Runtime) → P r → P (run_code code r).0
    run_code-kept (ends completion) r h = h
    run_code-kept (also act rest) r h = run_code-kept rest (perform act r) (perform-kept act r h)

    pub perform-kept : (act : Act) (r : Runtime) → P r → P (perform act r)
    perform-kept (construct executor create code on_reject) r h =
        js_promise_constructor-kept executor (run_code create) (run_code code) (run_code on_reject)
          (run_code-kept create) (run_code-kept code) (run_code-kept on_reject) r h
    perform-kept (promise_then p maker a b) r h =
        js_promise_then-kept p (constructor_of maker) a b (maker-kept maker) r h
    perform-kept (promise_resolve is_reject is_same maker arg code) r h =
        js_promise_resolve-kept is_reject is_same (constructor_of maker) arg (run_code code)
          (maker-kept maker) (run_code-kept code) r h
    perform-kept (promise_try maker f arg code then_code) r h =
        js_promise_try-kept (constructor_of maker) f arg (run_code code) (run_code then_code)
          (maker-kept maker) (run_code-kept code) (run_code-kept then_code) r h
    perform-kept (call_value f arg code) r h =
        js_call-kept P closed f arg (run_code code) (run_code-kept code) r h
    perform-kept (mark_handled p) r h = handles p r h
    perform-kept (set_tracker cb) r h = sets_tracker cb r h
    perform-kept (execute_pending_job code then_code) r h =
        run_first-kept r.job_list (run_code code) (run_code then_code) (run_code-kept code)
          (run_code-kept then_code) r h

    maker-kept : (maker : Maker) → Makes (constructor_of maker)
    maker-kept intrinsic = tt
    maker-kept (derived code capability) = run_code-kept code

-- What the small steps keep if the host keeps it is kept whatever scripts the host runs.
module _ (P : Runtime → Type 0)
    (steps : (host : Host)
      → ((p : ℕ) (is_handled : Bool) (r : Runtime) → P r → P (host.tracker p is_handled r))
      → IsClosed ⦃host = host⦄ P) where
  host_of-kept :
      (t : Tracker) (p : ℕ) (is_handled : Bool) (r : Runtime)
      → P r
      → P ((host_of t).tracker p is_handled r)
  unfolding host_of
  host_of-kept silent p is_handled r h = h
  host_of-kept (runs code deeper) p is_handled r h =
      run_code-kept ⦃host = host_of deeper⦄ P (steps (host_of deeper) (host_of-kept deeper))
        (code p is_handled r) r h

  pub closed_under : (t : Tracker) → IsClosed ⦃host = host_of t⦄ P
  closed_under t = steps (host_of t) (host_of-kept t)

  pub script-kept :
      (t : Tracker) (code : Code) (r : Runtime) → P r → P (run_code ⦃host = host_of t⦄ code r).0
  script-kept t code r h = run_code-kept ⦃host = host_of t⦄ P (closed_under t) code r h
