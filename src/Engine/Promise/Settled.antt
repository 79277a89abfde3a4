-- ===== src/Engine/Promise/Settled.antt =====
-- What is settled stays: a promise of .backup/quickjs.c is settled once, and of its resolving
-- functions the first call counts.
use cno_cli.Base.{ℕ, ◌≡◌, refl, sym, ◌∙◌, Bool, true, false, Option, some, List, [], ◌∷◌, get_elem?}
use cno_cli.Engine.Promise.State.{
  Host, Job, js_enqueue_job, js_set_host_promise_rejection_tracker, modify_promise, JsValue,
  JsPromiseReactionData, JsPromiseData, Runtime, modify, handled, is_pending,
}
use cno_cli.Engine.Promise.Settle.{settled_state, settled, add_reactions}
use cno_cli.Engine.Promise.Operations.{new_promise}
use cno_cli.Engine.Promise.Scripts.{Code, run_code, Tracker, host_of}
use cno_cli.Engine.Promise.Closed.{IsClosed}
use cno_cli.Engine.Promise.Kept.{script-kept}
use cno_cli.Engine.Promise.Places.{
  get_elem?-modify_self, get_elem?-modify_ne, get_elem?-append_old, enqueue_job-promises,
  fulfill-kept, react-kept, set_handled-kept,
}
use native.Mathlib.Decide.{ℕ_discrete}

module _ (p : ℕ) (is_reject : Bool) (value : JsValue) where
  -- The promise p is settled in this way.
  abbrev pub IsSettled : List JsPromiseData → Type 0
  IsSettled l =
      (s : JsPromiseData) × (get_elem? l p ≡ some s)
      × (s.promise_state ≡ settled_state is_reject)
      × (s.promise_result ≡ value)

  abbrev Kept : Runtime → Type 0
  Kept r = IsSettled r.promises

  -- A change of a promise that keeps how it is settled.
  modified :
      (f : JsPromiseData → JsPromiseData) (q : ℕ) (l : List JsPromiseData)
      → ((s : JsPromiseData)
          → ((f s).promise_state ≡ s.promise_state) × ((f s).promise_result ≡ s.promise_result))
      → IsSettled l
      → IsSettled (modify f q l)
  modified f q l same (s, found, state, result) = elim (ℕ_discrete q p) [
    | yes e ↦
        (f s, rw e (get_elem?-modify_self f p l s found), (same s).0 ∙ state, (same s).1 ∙ result)
    | no other ↦ (s, get_elem?-modify_ne f q p l other ∙ found, state, result)
  ]

  not_pending : (b : Bool) → is_pending (settled_state b) ≡ false
  not_pending true = refl
  not_pending false = refl

  pending_or_settled :
      (s t : JsPromiseData)
      → ◌≡◌ {A = Option JsPromiseData} (some s) (some t)
      → is_pending s.promise_state ≡ true
      → t.promise_state ≡ settled_state is_reject
      → ⊥
  pending_or_settled s t same open_yet state = cc (not_pending is_reject)

  -- Settling another promise.
  settling :
      (q : ℕ) (v : JsValue) (b : Bool) (r : Runtime) (s : JsPromiseData)
      → get_elem? r.promises q ≡ some s
      → is_pending s.promise_state ≡ true
      → Kept r
      → Kept (modify_promise (settled b v) q r)
  unfolding modify_promise
  settling q v b r s found open_yet (t, at_p, state, result) = elim (ℕ_discrete q p) [
    | yes e ↦ absurd (pending_or_settled s t (sym (rw e at found) ∙ at_p) open_yet state)
    | no other ↦ (t, get_elem?-modify_ne (settled b v) q p r.promises other ∙ at_p, state, result)
  ]

  adding :
      (a b : JsPromiseReactionData) (q : ℕ) (r : Runtime)
      → Kept r
      → Kept (modify_promise (add_reactions a b) q r)
  unfolding modify_promise
  adding a b q r h = modified (add_reactions a b) q r.promises (λ _. (refl, refl)) h

  handling : (q : ℕ) (r : Runtime) → Kept r → Kept (modify_promise handled q r)
  unfolding modify_promise
  handling q r h = modified handled q r.promises (λ _. (refl, refl)) h

  settled_closed :
      (host : Host)
      → ((q : ℕ) (is_handled : Bool) (r : Runtime) → Kept r → Kept (host.tracker q is_handled r))
      → IsClosed ⦃host = host⦄ Kept
  settled_closed host keeps =
      let logs : (reports : List (ℕ × Bool)) (r : Runtime)
          → Kept r
          → Kept (record r { reports = reports }) =
        λ reports r h. h in
      let enqueues : (job : Job) (r : Runtime) → Kept r → Kept (js_enqueue_job job r) =
        λ job r h. rw (enqueue_job-promises job r) h in
      record {
        asks = λ r h. h;
        enqueues = enqueues;
        dequeues = λ jobs r h. h;
        settles = λ q v b r h.
            fulfill-kept ⦃host = host⦄ Kept keeps logs enqueues q v b r
              (λ s found open_yet. settling q v b r s found open_yet h) h;
        reacts = λ q a b s r found h.
            react-kept ⦃host = host⦄ Kept keeps logs enqueues q (handling q) a b s r
              (adding a b q r h) h;
        handles =
            λ q r h. set_handled-kept ⦃host = host⦄ Kept keeps logs enqueues q (handling q) r h;
        sets_tracker = λ cb r h. unfold js_set_host_promise_rejection_tracker in h;
        marks = λ flag r h. h;
        adds_flag = λ r h. h;
        adds_promise = λ r (s, found, state, result).
            (s, get_elem?-append_old r.promises (new_promise ∷ []) p s found, state, result);
      }

-- A promise that is fulfilled or rejected keeps its state and its result, whatever calls JavaScript
-- and the host make, also the host's tracker where it is told of a rejection, with whatever the code
-- that is called does, and whatever the allocator refuses.
pub run_code-IsSettled :
    (t : Tracker) (code : Code) (p : ℕ) (is_reject : Bool) (value : JsValue) (r : Runtime)
    → IsSettled p is_reject value r.promises
    → IsSettled p is_reject value (run_code ⦃host = host_of t⦄ code r).0.promises
run_code-IsSettled t code p is_reject value r h =
    script-kept (Kept p is_reject value) (settled_closed p is_reject value) t code r h
