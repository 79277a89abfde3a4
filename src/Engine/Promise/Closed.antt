-- ===== src/Engine/Promise/Closed.antt =====
-- The predicates on the runtime that the small steps on promises of .backup/quickjs.c keep, and what
-- else keeps them: new promises, and calls of resolving functions.
use cno_cli.Base.{
  ℕ, zero, suc, ◌≡◌, Bool, true, false, Option, none, some, List, [], ◌∷◌, ◌++◌, get_elem?, not,
  ◌||◌, if◌then◌else◌, Bool-cases, inl, inr,
}
use cno_cli.Engine.Promise.State.{
  Host, js_set_host_promise_rejection_tracker, JsValue, resolving, type_error, user_function,
  js_is_object, js_is_function, is_promise, JsPromiseReactionData, JsPromiseData, Job, Runtime,
  Completion, returns, throws, Callee, malloc_granted, asked, js_enqueue_job, modify,
  js_promise_set_handled,
}
use cno_cli.Engine.Promise.Settle.{
  fulfill_or_reject_promise, react, after_lookup, resolve_promise, js_promise_resolve_function_call,
}
use cno_cli.Engine.Promise.Operations.{
  allocate, js_create_resolving_functions, new_promise, with_new_promise, if_some, if_returns,
  js_promise_new, js_call,
}
use cno_cli.Engine.Promise.Scripts.{}

pub record IsClosed ⦃host : Host⦄ (P : Runtime → Type 0) : Type 0 where
  pub asks : (r : Runtime) → P r → P (asked r)
  pub enqueues : (job : Job) (r : Runtime) → P r → P (js_enqueue_job job r)
  pub dequeues : (jobs : List Job) (r : Runtime) → P r → P (record r { job_list = jobs })
  pub settles :
      (p : ℕ) (value : JsValue) (is_reject : Bool) (r : Runtime)
      → P r
      → P (fulfill_or_reject_promise p value is_reject r)
  pub reacts :
      (p : ℕ) (a b : JsPromiseReactionData) (s : JsPromiseData) (r : Runtime)
      → get_elem? r.promises p ≡ some s
      → P r
      → P (react p a b s r)
  pub handles : (p : ℕ) (r : Runtime) → P r → P (js_promise_set_handled p r)
  pub sets_tracker :
      (cb : Bool) (r : Runtime) → P r → P (js_set_host_promise_rejection_tracker cb r)
  pub marks :
      (flag : ℕ) (r : Runtime)
      → P r
      → P (record r { already_resolved = modify (λ _. true) flag r.already_resolved })
  pub adds_flag :
      (r : Runtime) → P r → P (record r { already_resolved = r.already_resolved ++ false ∷ [] })
  pub adds_promise :
      (r : Runtime) → P r → P (record r { promises = r.promises ++ new_promise ∷ [] })

module _ ⦃host : Host⦄ (P : Runtime → Type 0) (closed : IsClosed P) where
  open closed use {asks, enqueues, settles, marks, adds_flag, adds_promise}

  -- Code that keeps the predicate.
  abbrev pub Keeps : Callee → Type 0
  Keeps code = (r : Runtime) → P r → P (code r).0

  pub if-kept :
      {A : Type 0} (b : Bool) (x y : Runtime × A) → P x.0 → P y.0 → P (if b then x else y).0
  if-kept true x y hx hy = hx
  if-kept false x y hx hy = hy

  pub if_some-kept :
      {A B : Type 0} (next : A → Runtime → Runtime × B) (failed : B) (x : Runtime × Option A)
      → ((a : A) (r : Runtime) → P r → P (next a r).0)
      → P x.0
      → P (if_some next failed x).0
  unfolding if_some
  if_some-kept next failed (r, none) k h = h
  if_some-kept next failed (r, some a) k h = k a r h

  pub if_returns-kept :
      {B : Type 0} (next caught : JsValue → Runtime → Runtime × B) (x : Runtime × Completion)
      → ((v : JsValue) (r : Runtime) → P r → P (next v r).0)
      → ((v : JsValue) (r : Runtime) → P r → P (caught v r).0)
      → P x.0
      → P (if_returns next caught x).0
  unfolding if_returns
  if_returns-kept next caught (r, returns v) k c h = k v r h
  if_returns-kept next caught (r, throws v) k c h = c v r h

  allocate-kept : (n : ℕ) (r : Runtime) → P r → P (allocate n r).0
  unfolding allocate
  allocate-kept zero r h = h
  allocate-kept (suc n) r h =
      if-kept (malloc_granted r) (allocate n (asked r)) (asked r, none)
        (allocate-kept n (asked r) (asks r h)) (asks r h)

  pub functions-kept : (r : Runtime) → P r → P (js_create_resolving_functions r).0
  unfolding js_create_resolving_functions
  functions-kept r h = if_some-kept _ _ (allocate 5 r) (λ _. adds_flag) (allocate-kept 5 r h)

  with_new_promise-kept : (r : Runtime) → P r → P (with_new_promise r).0
  unfolding with_new_promise
  with_new_promise-kept r h =
      if_some-kept _ _ (js_create_resolving_functions _) (λ _ _ k. k)
        (functions-kept _ (adds_promise r h))

  pub js_promise_new-kept :
      (create : Callee) → Keeps create → (r : Runtime) → P r → P (js_promise_new create r).0
  unfolding js_promise_new
  js_promise_new-kept create k r h =
      if_returns-kept _ _ (create r)
        (λ _ r1 h1.
          if_some-kept _ _ (allocate 1 r1) (λ _. with_new_promise-kept) (allocate-kept 1 r1 h1))
        (λ _ _ h1. h1) (k r h)

  after_lookup-kept :
      (p : ℕ) (resolution : JsValue) (r : Runtime) (then_value : Completion)
      → P r
      → P (after_lookup p resolution (r, then_value))
  unfolding after_lookup
  after_lookup-kept p resolution r (throws error) h = settles p error true r h
  after_lookup-kept p resolution r (returns then_value) h =
      elim (Bool-cases (js_is_function then_value)) [
        | inl callable ↦ rw callable (enqueues _ r h)
        | inr plain ↦ rw plain (settles p resolution false r h)
      ]

  pub resolve_promise-kept :
      (p : ℕ) (is_reject : Bool) (resolution : JsValue) (get_then : Callee)
      → Keeps get_then
      → (r : Runtime) → P r
      → P (resolve_promise p is_reject resolution get_then r)
  unfolding resolve_promise
  resolve_promise-kept p is_reject resolution get_then k r h =
      elim (Bool-cases (is_reject || not (js_is_object resolution))) [
        | inl at_once ↦ rw at_once (settles p resolution is_reject r h)
        | inr object_found ↦ elim (Bool-cases (is_promise p resolution)) [
          | inl self ↦ rw (object_found, self) (settles p type_error true r h)
          | inr other ↦
              rw (object_found, other)
                (after_lookup-kept p resolution (get_then r).0 (get_then r).1 (k r h))
        ]
      ]

  resolve_call-kept :
      (flag p : ℕ) (is_reject : Bool) (arg : JsValue) (get_then : Callee)
      → Keeps get_then
      → (r : Runtime) → P r
      → P (js_promise_resolve_function_call flag p is_reject arg get_then r)
  unfolding js_promise_resolve_function_call
  resolve_call-kept flag p is_reject arg get_then k r h =
      elim (get_elem? r.already_resolved flag)
        as (λ found. P (elim found [
          | some false ↦
              resolve_promise p is_reject arg get_then
                (record r { already_resolved = modify (λ _. true) flag r.already_resolved })
          | other ↦ r
        ])) [
          | none ↦ h
          | some true ↦ h
          | some false ↦ resolve_promise-kept p is_reject arg get_then k _ (marks flag r h)
        ]

  pub js_call-kept :
      (f arg : JsValue) (code : Callee)
      → Keeps code
      → (r : Runtime) → P r
      → P (js_call f arg code r).0
  unfolding js_call
  js_call-kept (resolving flag p is_reject) arg code k r h =
      resolve_call-kept flag p is_reject arg code k r h
  js_call-kept (user_function n) arg code k r h = k r h
  js_call-kept other arg code k r h = h
