-- ===== src/Engine/Promise/Once.antt =====
-- Of the two resolving functions of a promise of .backup/quickjs.c the first call counts.
use cno_cli.Base.{ℕ, List, ◌≡◌, refl, ◌∙◌, Bool, true, false, some, [], ◌∷◌, get_elem?}
use cno_cli.Engine.Promise.State.{
  Host, Job, js_enqueue_job, js_set_host_promise_rejection_tracker, modify_promise, JsValue,
  Runtime, modify,
}
use cno_cli.Engine.Promise.Settle.{js_promise_resolve_function_call}
use cno_cli.Engine.Promise.Scripts.{Code, run_code, Tracker, host_of}
use cno_cli.Engine.Promise.Closed.{IsClosed, resolve_promise-kept}
use cno_cli.Engine.Promise.Kept.{script-kept, closed_under}
use cno_cli.Engine.Promise.Places.{
  get_elem?-modify_self, get_elem?-modify_ne, get_elem?-append_old, enqueue_job-flags, fulfill-kept,
  react-kept, set_handled-kept,
}
use native.Mathlib.Decide.{ℕ_discrete}

abbrev IsUsed : ℕ → Runtime → Type 0
IsUsed flag r = get_elem? r.already_resolved flag ≡ some true

used :
    (flag : ℕ) (host : Host)
    → ((p : ℕ) (is_handled : Bool) (r : Runtime)
        → IsUsed flag r
        → IsUsed flag (host.tracker p is_handled r))
    → IsClosed ⦃host = host⦄ (IsUsed flag)
unfolding modify_promise
used flag host keeps =
    let logs : (reports : List (ℕ × Bool)) (r : Runtime)
        → IsUsed flag r
        → IsUsed flag (record r { reports = reports }) =
      λ reports r h. h in
    let enqueues : (job : Job) (r : Runtime) → IsUsed flag r → IsUsed flag (js_enqueue_job job r) =
      λ job r h. rw (enqueue_job-flags job r) h in
    record {
      asks = λ r h. h;
      enqueues = enqueues;
      dequeues = λ jobs r h. h;
      settles = λ p value is_reject r h.
          fulfill-kept ⦃host = host⦄ (IsUsed flag) keeps logs enqueues p value is_reject r
            (λ _ _ _. h) h;
      reacts = λ p a b s r found h.
          react-kept ⦃host = host⦄ (IsUsed flag) keeps logs enqueues p (λ _ k. k) a b s r h h;
      handles = λ p r h.
          set_handled-kept ⦃host = host⦄ (IsUsed flag) keeps logs enqueues p (λ _ k. k) r h;
      sets_tracker = λ cb r h. unfold js_set_host_promise_rejection_tracker in h;
      marks = λ other r h. elim (ℕ_discrete other flag) [
        | yes e ↦ rw e (get_elem?-modify_self (λ _. true) flag r.already_resolved true h)
        | no apart ↦ get_elem?-modify_ne (λ _. true) other flag r.already_resolved apart ∙ h
      ];
      adds_flag = λ r h. get_elem?-append_old r.already_resolved (false ∷ []) flag true h;
      adds_promise = λ r h. h;
    }

module _ (t : Tracker) where
  instance abbrev host : Host
  host = host_of t

  -- A call leaves the flag set.
  call-IsUsed :
      (flag p : ℕ) (is_reject : Bool) (arg : JsValue) (code : Code) (r : Runtime) (x : Bool)
      → get_elem? r.already_resolved flag ≡ some x
      → IsUsed flag (js_promise_resolve_function_call flag p is_reject arg (run_code code) r)
  unfolding js_promise_resolve_function_call
  call-IsUsed flag p is_reject arg code r true at_flag =
      rw (at_flag, js_promise_resolve_function_call) at_flag
  call-IsUsed flag p is_reject arg code r false at_flag =
      rw (at_flag, js_promise_resolve_function_call)
        (resolve_promise-kept (IsUsed flag) (closed_under (IsUsed flag) (used flag) t) p is_reject
          arg (run_code code) (script-kept (IsUsed flag) (used flag) t code)
          (record r { already_resolved = modify (λ _. true) flag r.already_resolved })
          (get_elem?-modify_self (λ _. true) flag r.already_resolved false at_flag))

  call_again :
      (flag p : ℕ) (is_reject : Bool) (arg : JsValue) (code : Code) (r : Runtime)
      → IsUsed flag r
      → js_promise_resolve_function_call flag p is_reject arg (run_code code) r ≡ r
  unfolding js_promise_resolve_function_call
  call_again flag p is_reject arg code r h = rw (h, js_promise_resolve_function_call) refl

  -- Once one of the two resolving functions that share a flag has been called, a later call of either
  -- changes nothing, whatever calls JavaScript and the host, also its tracker, have made in between.
  pub resolve_twice :
      (flag p : ℕ) (x first second : Bool) (arg arg2 : JsValue) (get_then between get_then2 : Code)
      (r : Runtime)
      → get_elem? r.already_resolved flag ≡ some x
      → js_promise_resolve_function_call flag p second arg2
          (run_code get_then2)
          (run_code between
            (js_promise_resolve_function_call flag p first arg (run_code get_then) r)).0
        ≡ (run_code between
            (js_promise_resolve_function_call flag p first arg (run_code get_then) r)).0
  resolve_twice flag p x first second arg arg2 get_then between get_then2 r h =
      call_again flag p second arg2 get_then2 _ (
        script-kept (IsUsed flag) (used flag) t between _
          (call-IsUsed flag p first arg get_then r x h))
