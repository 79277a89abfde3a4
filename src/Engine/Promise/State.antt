-- ===== src/Engine/Promise/State.antt =====
-- The data of promises and of the job queue of .backup/quickjs.c. A promise, and the flag that two
-- resolving functions share, is known by its place in the list of all of them.
use cno_cli.Base.{
  ℕ, zero, suc, Bool, true, false, Option, none, some, List, [], ◌∷◌, ◌++◌, get_elem?, not, ◌&&◌,
  ◌==◌, if◌then◌else◌,
}

-- What the engine asks of a value. `resolving flag promise is_reject` is a resolving function.
pub data JsValue : Type 0 where
  undefined type_error uncatchable_error : JsValue
  primitive object user_function promise : ℕ → JsValue
  resolving : ℕ → ℕ → Bool → JsValue

abbrev pub js_is_object : JsValue → Bool
js_is_object undefined = false
js_is_object (primitive _) = false
js_is_object other = true

abbrev pub js_is_function : JsValue → Bool
js_is_function (user_function _) = true
js_is_function (resolving _ _ _) = true
js_is_function other = false

abbrev pub js_is_undefined : JsValue → Bool
js_is_undefined undefined = true
js_is_undefined other = false

-- `js_same_value` with a promise.
abbrev pub is_promise : ℕ → JsValue → Bool
is_promise p (promise q) = p == q
is_promise p other = false

pub data JsPromiseState : Type 0 where
  pending fulfilled rejected : JsPromiseState

pub record JsPromiseReactionData : Type 0 where
  pub resolve : JsValue
  pub reject : JsValue
  pub handler : JsValue

-- `promise_reactions[0]` and `[1]` are the reactions of the two kinds.
pub record JsPromiseData : Type 0 where
  pub promise_state : JsPromiseState
  pub fulfill_reactions : List JsPromiseReactionData
  pub reject_reactions : List JsPromiseReactionData
  pub is_handled : Bool
  pub promise_result : JsValue

pub data Job : Type 0 where
  reaction_job : JsPromiseReactionData → Bool → JsValue → Job
  thenable_job : ℕ → JsValue → JsValue → Job

-- `reports` holds what the host's tracker was told, the latest first: the promise and whether it is
-- handled. `memory` holds the next answers of the allocator; past its end every request is granted.
pub record Runtime : Type 0 where
  pub promises : List JsPromiseData
  pub already_resolved : List Bool
  pub job_list : List Job
  pub reports : List (ℕ × Bool)
  pub has_tracker : Bool
  pub memory : List Bool

-- How a call ends.
pub data Completion : Type 0 where
  returns throws : JsValue → Completion

abbrev pub js_is_uncatchable_error : JsValue → Bool
js_is_uncatchable_error uncatchable_error = true
js_is_uncatchable_error other = false

-- Code outside the engine's own promise functions: a handler, an executor, a `then` or its getter.
abbrev pub Callee : Type 0
Callee = Runtime → Runtime × Completion

module _ {ℓ} {A : Type ℓ} where
  unfoldable pub modify : (A → A) → ℕ → List A → List A
  modify f i [] = []
  modify f zero (x ∷ xs) = f x ∷ xs
  modify f (suc i) (x ∷ xs) = x ∷ modify f i xs

-- `js_malloc`
abbrev pub malloc_granted : Runtime → Bool
malloc_granted r = elim r.memory [ [] ↦ true | answer ∷ rest ↦ answer ]

abbrev pub asked : Runtime → Runtime
asked r = record r { memory = elim r.memory [ [] ↦ [] | answer ∷ rest ↦ rest ] }

unfoldable pub js_enqueue_job : Job → Runtime → Runtime
js_enqueue_job job r =
    if malloc_granted r then record (asked r) { job_list = r.job_list ++ job ∷ [] } else asked r

unfoldable pub modify_promise : (JsPromiseData → JsPromiseData) → ℕ → Runtime → Runtime
unfolding modify
modify_promise f p r = record r { promises = modify f p r.promises }

abbrev pub is_rejected : JsPromiseState → Bool
is_rejected rejected = true
is_rejected other = false

abbrev pub is_pending : JsPromiseState → Bool
is_pending pending = true
is_pending other = false

-- The host's `JSHostPromiseRejectionTracker`: what it does with a promise and with whether that is
-- handled, which may be any calls.
pub record Host : Type 0 where
  pub tracker : ℕ → Bool → Runtime → Runtime

unfoldable pub report : ⦃host : Host⦄ → ℕ → Bool → JsPromiseData → Runtime → Runtime
report ⦃host⦄ p is_handled s r =
    if is_rejected s.promise_state && not s.is_handled && r.has_tracker
    then host.tracker p is_handled (record r { reports = (p, is_handled) ∷ r.reports })
    else r

unfoldable pub call_promise_rejection_tracker : ⦃host : Host⦄ → ℕ → Bool → Runtime → Runtime
unfolding report
call_promise_rejection_tracker p is_handled r = elim (get_elem? r.promises p) [
  | none ↦ r
  | some s ↦ report p is_handled s r
]

-- The callback is the host's tracker or NULL.
unfoldable pub js_set_host_promise_rejection_tracker : Bool → Runtime → Runtime
js_set_host_promise_rejection_tracker cb r = record r { has_tracker = cb }

abbrev pub handled : JsPromiseData → JsPromiseData
handled s = record s { is_handled = true }

unfoldable pub js_promise_set_handled : ⦃host : Host⦄ → ℕ → Runtime → Runtime
unfolding call_promise_rejection_tracker modify_promise
js_promise_set_handled p r = modify_promise handled p (call_promise_rejection_tracker p true r)

unfoldable pub js_promise_state : Runtime → ℕ → Option JsPromiseState
js_promise_state r p = elim (get_elem? r.promises p) [ none ↦ none | some s ↦ some s.promise_state ]
