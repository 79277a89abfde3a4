-- ===== src/Engine/Promise/Places.antt =====
-- Where the small steps on promises of .backup/quickjs.c write.
use cno_cli.Base.{
  ℕ, zero, suc, ◌≡◌, ◌≢◌, refl, ap, ◌∙◌, Bool, true, false, none, some, List, [], ◌∷◌, ◌++◌,
  get_elem?, arith, Bool-cases, Option-cases, ◌⊎◌, inl, inr, if◌then◌else◌, ◌&&◌, not,
}
use cno_cli.Engine.Promise.State.{
  Host, JsValue, JsPromiseReactionData, JsPromiseData, Job, reaction_job, Runtime, modify,
  js_enqueue_job, report, call_promise_rejection_tracker, js_promise_set_handled, modify_promise,
  handled, is_pending, is_rejected,
}
use cno_cli.Engine.Promise.Settle.{
  enqueue_reactions, settle, settled, fulfill_or_reject_promise, react, add_reactions,
}

module _ {ℓ} {A : Type ℓ} where
  pub get_elem?-modify_self :
      (f : A → A) (i : ℕ) (xs : List A) (x : A)
      → get_elem? xs i ≡ some x
      → get_elem? (modify f i xs) i ≡ some (f x)
  unfolding modify
  get_elem?-modify_self f i [] x h = cc
  get_elem?-modify_self f zero (y ∷ xs) x h = ground arith
  get_elem?-modify_self f (suc i) (y ∷ xs) x h = get_elem?-modify_self f i xs x h

  pub get_elem?-modify_ne :
      (f : A → A) (i j : ℕ) (xs : List A) → i ≢ j → get_elem? (modify f i xs) j ≡ get_elem? xs j
  unfolding modify
  get_elem?-modify_ne f i j [] h = refl
  get_elem?-modify_ne f zero zero (y ∷ xs) h = absurd (h refl)
  get_elem?-modify_ne f zero (suc j) (y ∷ xs) h = refl
  get_elem?-modify_ne f (suc i) zero (y ∷ xs) h = refl
  get_elem?-modify_ne f (suc i) (suc j) (y ∷ xs) h =
      get_elem?-modify_ne f i j xs (λ e. h (ap suc e))

  pub get_elem?-append_old :
      (xs ys : List A) (i : ℕ) (x : A) → get_elem? xs i ≡ some x → get_elem? (xs ++ ys) i ≡ some x
  get_elem?-append_old [] ys i x h = cc
  get_elem?-append_old (y ∷ xs) ys zero x h = h
  get_elem?-append_old (y ∷ xs) ys (suc i) x h = get_elem?-append_old xs ys i x h

  pub modify-none : (f : A → A) (i : ℕ) (xs : List A) → get_elem? xs i ≡ none → modify f i xs ≡ xs
  unfolding modify
  modify-none f i [] h = refl
  modify-none f zero (y ∷ xs) h = cc
  modify-none f (suc i) (y ∷ xs) h = ap (λ l. y ∷ l) (modify-none f i xs h)

  pub get_elem?-append_new :
      (xs : List A) (x : A) (i : ℕ)
      → get_elem? xs i ≡ none
      → (get_elem? (xs ++ x ∷ []) i ≡ none) ⊎ (get_elem? (xs ++ x ∷ []) i ≡ some x)
  get_elem?-append_new [] x zero h = inr refl
  get_elem?-append_new [] x (suc i) h = inl refl
  get_elem?-append_new (y ∷ xs) x zero h = cc
  get_elem?-append_new (y ∷ xs) x (suc i) h = get_elem?-append_new xs x i h

pub enqueue_job-promises : (job : Job) (r : Runtime) → (js_enqueue_job job r).promises ≡ r.promises
unfolding js_enqueue_job
enqueue_job-promises job r = ground arith

pub enqueue_job-flags :
    (job : Job) (r : Runtime) → (js_enqueue_job job r).already_resolved ≡ r.already_resolved
unfolding js_enqueue_job
enqueue_job-flags job r = ground arith

module _ (is_reject : Bool) (value : JsValue) where
  pub enqueue_reactions-promises :
      (rds : List JsPromiseReactionData) (r : Runtime)
      → (enqueue_reactions rds is_reject value r).promises ≡ r.promises
  unfolding enqueue_reactions
  enqueue_reactions-promises [] r = refl
  enqueue_reactions-promises (rd ∷ rds) r =
      enqueue_reactions-promises rds _ ∙ enqueue_job-promises (reaction_job rd is_reject value) r

  pub enqueue_reactions-flags :
      (rds : List JsPromiseReactionData) (r : Runtime)
      → (enqueue_reactions rds is_reject value r).already_resolved ≡ r.already_resolved
  unfolding enqueue_reactions
  enqueue_reactions-flags [] r = refl
  enqueue_reactions-flags (rd ∷ rds) r =
      enqueue_reactions-flags rds _ ∙ enqueue_job-flags (reaction_job rd is_reject value) r

-- What the host's tracker keeps, and a report and a new job keep too.
module _ ⦃host : Host⦄ (P : Runtime → Type 0)
    (keeps : (p : ℕ) (is_handled : Bool) (r : Runtime) → P r → P (host.tracker p is_handled r))
    (logs : (reports : List (ℕ × Bool)) (r : Runtime) → P r → P (record r { reports = reports }))
    (enqueues : (job : Job) (r : Runtime) → P r → P (js_enqueue_job job r)) where
  report-kept :
      (p : ℕ) (is_handled : Bool) (s : JsPromiseData) (r : Runtime)
      → P r
      → P (report p is_handled s r)
  unfolding report
  report-kept p is_handled s r h =
      elim (Bool-cases (is_rejected s.promise_state && not s.is_handled && r.has_tracker)) [
        | inl told ↦ rw told (keeps p is_handled _ (logs _ r h))
        | inr untold ↦ rw untold h
      ]

  tracker-kept :
      (p : ℕ) (is_handled : Bool) (r : Runtime)
      → P r
      → P (call_promise_rejection_tracker p is_handled r)
  unfolding call_promise_rejection_tracker
  tracker-kept p is_handled r h = elim (Option-cases (get_elem? r.promises p)) [
    | inl missing ↦ rw (missing, call_promise_rejection_tracker) h
    | inr (s, found) ↦ rw (found, call_promise_rejection_tracker) (report-kept p is_handled s r h)
  ]

  enqueue_reactions-kept :
      (rds : List JsPromiseReactionData) (is_reject : Bool) (value : JsValue) (r : Runtime)
      → P r
      → P (enqueue_reactions rds is_reject value r)
  unfolding enqueue_reactions
  enqueue_reactions-kept [] is_reject value r h = h
  enqueue_reactions-kept (rd ∷ rds) is_reject value r h =
      enqueue_reactions-kept rds is_reject value _ (enqueues (reaction_job rd is_reject value) r h)

  settle-kept :
      (p : ℕ) (value : JsValue) (is_reject : Bool) (s : JsPromiseData) (r : Runtime)
      → (is_pending s.promise_state ≡ true → P (modify_promise (settled is_reject value) p r))
      → P r
      → P (settle p value is_reject s r)
  unfolding settle
  settle-kept p value is_reject s r marks h = elim (Bool-cases (is_pending s.promise_state)) [
    | inl open_yet ↦ rw open_yet (
        enqueue_reactions-kept (if is_reject then s.reject_reactions else s.fulfill_reactions)
          is_reject value _ (report-kept p false (settled is_reject value s) _ (marks open_yet)))
    | inr done ↦ rw done h
  ]

  pub fulfill-kept :
      (p : ℕ) (value : JsValue) (is_reject : Bool) (r : Runtime)
      → ((s : JsPromiseData)
          → get_elem? r.promises p ≡ some s
          → is_pending s.promise_state ≡ true
          → P (modify_promise (settled is_reject value) p r))
      → P r
      → P (fulfill_or_reject_promise p value is_reject r)
  unfolding fulfill_or_reject_promise
  fulfill-kept p value is_reject r marks h = elim (Option-cases (get_elem? r.promises p)) [
    | inl missing ↦ rw (missing, fulfill_or_reject_promise) h
    | inr (s, found) ↦
        rw (found, fulfill_or_reject_promise) (settle-kept p value is_reject s r (marks s found) h)
  ]

  module _ (p : ℕ) (handles : (r : Runtime) → P r → P (modify_promise handled p r)) where
    pub react-kept :
        (a b : JsPromiseReactionData) (s : JsPromiseData) (r : Runtime)
        → P (modify_promise (add_reactions a b) p r)
        → P r
        → P (react p a b s r)
    unfolding react
    react-kept a b s r added h = elim (Bool-cases (is_pending s.promise_state)) [
      | inl open_yet ↦ rw open_yet added
      | inr done ↦ rw done (handles _ (enqueues _ _ (report-kept p true s r h)))
    ]

    pub set_handled-kept : (r : Runtime) → P r → P (js_promise_set_handled p r)
    unfolding js_promise_set_handled
    set_handled-kept r h = handles _ (tracker-kept p true r h)
