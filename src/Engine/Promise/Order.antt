-- ===== src/Engine/Promise/Order.antt =====
-- Which jobs the promises of .backup/quickjs.c put on the queue, and in which order.
use cno_cli.Base.{
  ℕ, ◌≡◌, refl, sym, ap, ◌∙◌, Bool, true, false, some, List, [], ◌∷◌, ◌++◌, map, append-nil,
  append_assoc, get_elem?, if◌then◌else◌, ◌&&◌, not, Bool-cases, inl, inr,
}
use cno_cli.Engine.Promise.State.{
  Host, is_rejected, JsValue, pending, JsPromiseReactionData, JsPromiseData, Job, reaction_job,
  Runtime, js_enqueue_job, modify_promise, report, is_pending,
}
use cno_cli.Engine.Promise.Settle.{settled, settle, fulfill_or_reject_promise, enqueue_reactions}
use cno_cli.Engine.Promise.Places.{get_elem?-modify_self, enqueue_reactions-promises}

-- The job of one reaction.
abbrev pub job_of : Bool → JsValue → JsPromiseReactionData → Job
job_of is_reject value rd = reaction_job rd is_reject value

-- The reactions of the kind in which the promise is settled.
abbrev pub reactions_of : Bool → JsPromiseData → List JsPromiseReactionData
reactions_of is_reject s = if is_reject then s.reject_reactions else s.fulfill_reactions

-- A tracker that only takes note: it leaves the jobs, the promises and the allocator alone.
abbrev pub IsQuiet : Host → Type 0
IsQuiet host =
    (p : ℕ) (is_handled : Bool) (r : Runtime)
    → ((host.tracker p is_handled r).job_list ≡ r.job_list)
      × ((host.tracker p is_handled r).memory ≡ r.memory)
      × ((host.tracker p is_handled r).promises ≡ r.promises)

pub report-quiet :
    ⦃host : Host⦄
    → IsQuiet host
    → (p : ℕ) (said : Bool) (s : JsPromiseData) (r : Runtime)
    → ((report p said s r).job_list ≡ r.job_list)
      × ((report p said s r).memory ≡ r.memory)
      × ((report p said s r).promises ≡ r.promises)
unfolding report
report-quiet quiet p said s r =
    elim (Bool-cases (is_rejected s.promise_state && not s.is_handled && r.has_tracker)) [
      | inl told ↦ rw told (quiet p said (record r { reports = (p, said) ∷ r.reports }))
      | inr untold ↦ rw untold (refl, refl, refl)
    ]

pub enqueue-jobs :
    (job : Job) (r : Runtime)
    → r.memory ≡ []
    → ((js_enqueue_job job r).job_list ≡ r.job_list ++ job ∷ [])
      × ((js_enqueue_job job r).memory ≡ [])
unfolding js_enqueue_job
enqueue-jobs job r h = (rw h refl, rw h refl)

enqueue_reactions-jobs :
    (is_reject : Bool) (value : JsValue) (rds : List JsPromiseReactionData) (r : Runtime)
    → r.memory ≡ []
    → (enqueue_reactions rds is_reject value r).job_list
      ≡ r.job_list ++ map (job_of is_reject value) rds
unfolding enqueue_reactions
enqueue_reactions-jobs is_reject value [] r h = sym (append-nil r.job_list)
enqueue_reactions-jobs is_reject value (rd ∷ rds) r h =
    let (jobs, memory) = enqueue-jobs (reaction_job rd is_reject value) r h in
    enqueue_reactions-jobs is_reject value rds (js_enqueue_job (reaction_job rd is_reject value) r)
      memory
    ∙ ap (λ l. l ++ map (job_of is_reject value) rds) jobs
    ∙ append_assoc r.job_list (reaction_job rd is_reject value ∷ [])
        (map (job_of is_reject value) rds)

-- With memory granted and a tracker of the host that only takes note, settling a pending promise
-- puts one job for each of its reactions of that kind at the end of the queue, in the order in which
-- they were added, with the value, and leaves the promise settled with no reactions.
pub fulfill_or_reject_promise-jobs :
    ⦃host : Host⦄ (p : ℕ) (value : JsValue) (is_reject : Bool) (s : JsPromiseData) (r : Runtime)
    → IsQuiet host
    → get_elem? r.promises p ≡ some s
    → s.promise_state ≡ pending
    → r.memory ≡ []
    → ((fulfill_or_reject_promise p value is_reject r).job_list
        ≡ r.job_list ++ map (job_of is_reject value) (reactions_of is_reject s))
      × (get_elem? (fulfill_or_reject_promise p value is_reject r).promises p
          ≡ some (settled is_reject value s))
unfolding fulfill_or_reject_promise settle modify_promise
fulfill_or_reject_promise-jobs p value is_reject s r quiet found open_yet memory =
    let e : is_pending s.promise_state ≡ true = rw open_yet refl in
    let after = settled is_reject value s in
    let r1 = modify_promise (settled is_reject value) p r in
    let (jobs, asks, promises) =
      report-quiet quiet p false (settled is_reject value s)
        (modify_promise (settled is_reject value) p r) in
    (
      rw (found, fulfill_or_reject_promise, e)
          (enqueue_reactions-jobs is_reject value (reactions_of is_reject s)
              (report p false after r1) (asks ∙ memory)
            ∙ ap (λ l. l ++ map (job_of is_reject value) (reactions_of is_reject s)) jobs),
      rw (found, fulfill_or_reject_promise, e)
          (ap (λ l. get_elem? l p)
              (enqueue_reactions-promises is_reject value (reactions_of is_reject s)
                  (report p false after r1)
                ∙ promises)
            ∙ get_elem?-modify_self (settled is_reject value) p r.promises s found),
    )
