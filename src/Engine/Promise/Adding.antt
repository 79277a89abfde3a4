-- ===== src/Engine/Promise/Adding.antt =====
-- Handlers that `then` adds in .backup/quickjs.c before and after a promise is settled.
use cno_cli.Base.{
  ℕ, ◌≡◌, refl, sym, ap, ◌∙◌, Bool, true, false, some, List, [], ◌∷◌, ◌++◌, map, append_assoc,
  get_elem?, if◌then◌else◌,
}
use cno_cli.Engine.Promise.State.{
  Host, JsValue, pending, JsPromiseReactionData, JsPromiseData, Job, reaction_job, Runtime,
  modify_promise, report, is_pending, asked, malloc_granted,
}
use cno_cli.Engine.Promise.Settle.{
  settled, settle, fulfill_or_reject_promise, react, add_reactions, enqueue_reactions,
  perform_promise_then, handler_of,
}
use cno_cli.Engine.Promise.Places.{get_elem?-modify_self}
use cno_cli.Engine.Promise.Order.{
  job_of, reactions_of, report-quiet, IsQuiet, enqueue-jobs, fulfill_or_reject_promise-jobs,
}

-- The reaction that `then` makes of a handler.
abbrev pub reaction_of : JsValue → JsValue → JsValue → JsPromiseReactionData
reaction_of resolve reject handler = record {
  resolve = resolve;
  reject = reject;
  handler = handler_of handler;
}

enqueue_reactions-memory :
    (is_reject : Bool) (value : JsValue) (rds : List JsPromiseReactionData) (r : Runtime)
    → r.memory ≡ []
    → (enqueue_reactions rds is_reject value r).memory ≡ []
unfolding enqueue_reactions
enqueue_reactions-memory is_reject value [] r h = h
enqueue_reactions-memory is_reject value (rd ∷ rds) r h =
    enqueue_reactions-memory is_reject value rds _
      (enqueue-jobs (reaction_job rd is_reject value) r h).1

fulfill-memory :
    ⦃host : Host⦄ (p : ℕ) (value : JsValue) (is_reject : Bool) (s : JsPromiseData) (r : Runtime)
    → IsQuiet host
    → get_elem? r.promises p ≡ some s
    → s.promise_state ≡ pending
    → r.memory ≡ []
    → (fulfill_or_reject_promise p value is_reject r).memory ≡ []
unfolding fulfill_or_reject_promise settle modify_promise
fulfill-memory p value is_reject s r quiet found open_yet memory =
    let e : is_pending s.promise_state ≡ true = rw open_yet refl in
    let r1 = modify_promise (settled is_reject value) p r in
    rw (found, fulfill_or_reject_promise, e)
      (enqueue_reactions-memory is_reject value (reactions_of is_reject s)
        (report p false (settled is_reject value s) r1)
        ((report-quiet quiet p false (settled is_reject value s) r1).1 ∙ memory))

malloc_granted-memory : (r : Runtime) → r.memory ≡ [] → malloc_granted r ≡ true
malloc_granted-memory r h = rw h refl

rest_of-nil :
    (l : List Bool) → l ≡ [] → (elim l as (λ _. List Bool) [ [] ↦ [] | answer ∷ rest ↦ rest ]) ≡ l
rest_of-nil [] h = refl
rest_of-nil (x ∷ l) h = cc

asked-memory : (r : Runtime) → r.memory ≡ [] → asked r ≡ r
asked-memory r h = λ i. record r { memory = rest_of-nil r.memory h i }

-- With memory granted the two reactions are allocated.
then-react :
    ⦃host : Host⦄ (p : ℕ) (s : JsPromiseData) (a b resolve reject : JsValue) (r : Runtime)
    → r.memory ≡ []
    → (perform_promise_then p s a b resolve reject r).0
      ≡ react p
          (record { resolve = resolve; reject = reject; handler = handler_of a })
          (record { resolve = resolve; reject = reject; handler = handler_of b })
          s
          r
unfolding perform_promise_then
then-react p s a b resolve reject r memory =
    rw
      (
        malloc_granted-memory r memory,
        ap malloc_granted (asked-memory r memory) ∙ malloc_granted-memory r memory,
      )
      (ap
        (react p (record { resolve = resolve; reject = reject; handler = handler_of a })
          (record { resolve = resolve; reject = reject; handler = handler_of b }) s)
        (ap asked (asked-memory r memory) ∙ asked-memory r memory))

react-settled :
    ⦃host : Host⦄ (p : ℕ) (on_fulfilled on_rejected : JsPromiseReactionData) (is_reject : Bool)
    (value : JsValue) (s : JsPromiseData) (r : Runtime)
    → IsQuiet host
    → r.memory ≡ []
    → (react p on_fulfilled on_rejected (settled is_reject value s) r).job_list
      ≡ r.job_list ++ job_of is_reject value (if is_reject then on_rejected else on_fulfilled) ∷ []
unfolding react modify_promise
react-settled p on_fulfilled on_rejected true value s r quiet memory =
    (enqueue-jobs (job_of true value on_rejected) (report p true (settled true value s) r)
      ((report-quiet quiet p true (settled true value s) r).1 ∙ memory)).0
    ∙ ap (λ l. l ++ job_of true value on_rejected ∷ [])
        ((report-quiet quiet p true (settled true value s) r).0)
react-settled p on_fulfilled on_rejected false value s r quiet memory =
    (enqueue-jobs (job_of false value on_fulfilled) (report p true (settled false value s) r)
      ((report-quiet quiet p true (settled false value s) r).1 ∙ memory)).0
    ∙ ap (λ l. l ++ job_of false value on_fulfilled ∷ [])
        ((report-quiet quiet p true (settled false value s) r).0)

added :
    (is_reject : Bool) (on_fulfilled on_rejected : JsPromiseReactionData) (s : JsPromiseData)
    → reactions_of is_reject (add_reactions on_fulfilled on_rejected s)
      ≡ reactions_of is_reject s ++ (if is_reject then on_rejected else on_fulfilled) ∷ []
added true on_fulfilled on_rejected s = refl
added false on_fulfilled on_rejected s = refl

map-append_one :
    (f : JsPromiseReactionData → Job) (l : List JsPromiseReactionData) (x : JsPromiseReactionData)
    → map f (l ++ x ∷ []) ≡ map f l ++ f x ∷ []
map-append_one f [] x = refl
map-append_one f (y ∷ l) x = ap (λ t. f y ∷ t) (map-append_one f l x)

module _ ⦃host : Host⦄ (quiet : IsQuiet host) (p : ℕ) (s : JsPromiseData)
    (a b resolve reject value : JsValue) (is_reject : Bool) (r : Runtime)
    (found : get_elem? r.promises p ≡ some s) (open_yet : s.promise_state ≡ pending)
    (memory : r.memory ≡ []) where
  abbrev on_fulfilled : JsPromiseReactionData
  on_fulfilled = record { resolve = resolve; reject = reject; handler = handler_of a }

  abbrev on_rejected : JsPromiseReactionData
  on_rejected = record { resolve = resolve; reject = reject; handler = handler_of b }

  abbrev chosen : JsPromiseReactionData
  chosen = if is_reject then on_rejected else on_fulfilled

  -- The queue in both orders.
  abbrev queue : List Job
  queue =
      (r.job_list ++ map (job_of is_reject value) (reactions_of is_reject s))
      ++ job_of is_reject value chosen ∷ []

  then_first :
      (fulfill_or_reject_promise p value is_reject
        (perform_promise_then p s a b resolve reject r).0).job_list
      ≡ queue
  unfolding react modify_promise
  then_first =
      let e : is_pending s.promise_state ≡ true = rw open_yet refl in
      let r1 = modify_promise (add_reactions on_fulfilled on_rejected) p r in
      let reacts : (perform_promise_then p s a b resolve reject r).0
          ≡ modify_promise (add_reactions on_fulfilled on_rejected) p r =
        then-react p s a b resolve reject r memory ∙ rw e refl in
      ap (λ t. (fulfill_or_reject_promise p value is_reject t).job_list) reacts
      ∙ (fulfill_or_reject_promise-jobs p value is_reject (add_reactions on_fulfilled on_rejected s)
          r1 quiet
          (get_elem?-modify_self (add_reactions on_fulfilled on_rejected) p r.promises s found)
          open_yet memory).0
      ∙ ap (λ l. r.job_list ++ map (job_of is_reject value) l)
          (added is_reject on_fulfilled on_rejected s)
      ∙ ap (λ l. r.job_list ++ l)
          (map-append_one (job_of is_reject value) (reactions_of is_reject s) chosen)
      ∙ sym (
          append_assoc r.job_list (map (job_of is_reject value) (reactions_of is_reject s))
            (job_of is_reject value chosen ∷ []))

  settle_first :
      (perform_promise_then p
        (settled is_reject value s)
        a
        b
        resolve
        reject
        (fulfill_or_reject_promise p value is_reject r)).0.job_list
      ≡ queue
  settle_first =
      let r1 = fulfill_or_reject_promise p value is_reject r in
      let jobs =
        (fulfill_or_reject_promise-jobs p value is_reject s r quiet found open_yet memory).0 in
      let granted_after = fulfill-memory p value is_reject s r quiet found open_yet memory in
      ap (λ t. t.job_list)
        (then-react p (settled is_reject value s) a b resolve reject r1 granted_after)
      ∙ react-settled p on_fulfilled on_rejected is_reject value s r1 quiet granted_after
      ∙ ap (λ l. l ++ job_of is_reject value chosen ∷ []) jobs

-- With memory granted and a tracker of the host that only takes note, the queue of jobs is the same
-- whether the handlers of `then` are added to a pending promise that is then settled, or to the
-- settled promise: behind the jobs that waited stand those of the reactions added before, in order,
-- and last that of the handler that applies.
pub then-settle :
    ⦃host : Host⦄ (p : ℕ) (s : JsPromiseData) (a b resolve reject value : JsValue)
    (is_reject : Bool) (r : Runtime)
    → IsQuiet host
    → get_elem? r.promises p ≡ some s
    → s.promise_state ≡ pending
    → r.memory ≡ []
    → let queue =
        (r.job_list ++ map (job_of is_reject value) (reactions_of is_reject s))
        ++ job_of is_reject value (reaction_of resolve reject (if is_reject then b else a)) ∷ [] in
      ((fulfill_or_reject_promise p value is_reject
          (perform_promise_then p s a b resolve reject r).0).job_list
        ≡ queue)
      × ((perform_promise_then p
            (settled is_reject value s)
            a
            b
            resolve
            reject
            (fulfill_or_reject_promise p value is_reject r)).0.job_list
          ≡ queue)
then-settle p s a b resolve reject value true r quiet found open_yet memory = (
  then_first quiet p s a b resolve reject value true r found open_yet memory,
  settle_first quiet p s a b resolve reject value true r found open_yet memory,
)
then-settle p s a b resolve reject value false r quiet found open_yet memory = (
  then_first quiet p s a b resolve reject value false r found open_yet memory,
  settle_first quiet p s a b resolve reject value false r found open_yet memory,
)
