-- ===== src/Engine/Promise/Tests.antt =====
-- Runs of the promises of .backup/quickjs.c, and its theorems at concrete scripts.
use cno_cli.Base.{◌≡◌, refl, true, false, some, [], ◌∷◌, ◌++◌, map, get_elem?, if◌then◌else◌}
use cno_cli.Engine.Promise.State.{
  Host, undefined, primitive, user_function, resolving, Runtime, returns, rejected,
}
use cno_cli.Engine.Promise.Settle.{
  fulfill_or_reject_promise, settled, perform_promise_then, js_promise_resolve_function_call,
}
use cno_cli.Engine.Promise.Operations.{
  new_promise, js_execute_pending_job, js_promise_then, if_some, if_returns, allocate,
  js_promise_constructor,
}
use cno_cli.Engine.Promise.Scripts.{
  Tracker, silent, runs, host_of, construct, promise_then, call_value, execute_pending_job,
  intrinsic, Code, ends, also, run_code,
}
use cno_cli.Engine.Promise.Settled.{run_code-IsSettled, IsSettled}
use cno_cli.Engine.Promise.Once.{resolve_twice}
use cno_cli.Engine.Promise.Adding.{then-settle, reaction_of}
use cno_cli.Engine.Promise.Order.{fulfill_or_reject_promise-jobs, job_of, reactions_of, IsQuiet}

abbrev at_start : Runtime
at_start = record {
  promises = [];
  already_resolved = [];
  job_list = [];
  reports = [];
  has_tracker = true;
  memory = [];
}

abbrev nothing : Code
nothing = ends (returns undefined)

-- `new Promise((_, reject) => reject(7))`, then a handler for the fulfilled case only, and one job.
abbrev rejects : Code
rejects =
    also
      (construct (user_function 1) nothing
        (also (call_value (resolving 0 0 true) (primitive 7) nothing) nothing) nothing)
      (also (promise_then 0 intrinsic (user_function 2) undefined)
        (also (execute_pending_job nothing nothing) nothing))

-- A tracker that only takes note.
abbrev noting : Host
noting = host_of silent

noting-IsQuiet : IsQuiet noting
unfolding host_of
noting-IsQuiet p is_handled r = (refl, refl, refl)

-- A tracker that adds a handler where it is told that there is none.
abbrev answering : Tracker
answering =
    runs
      (λ p is_handled r.
        if is_handled
        then nothing
        else also (promise_then p intrinsic undefined (user_function 3)) nothing)
      silent

-- The handler passes the rejection on to the promise of `then`, which nobody handles.
rejects_reports :
    (run_code ⦃host = noting⦄ rejects at_start).0.reports ≡ (1, false) ∷ (0, true) ∷ (0, false) ∷ []
unfolding run_code js_execute_pending_job js_promise_then if_some if_returns allocate
    js_promise_constructor host_of
rejects_reports = refl

-- The tracker is called again while its handler is added.
answered_reports :
    (run_code ⦃host = host_of answering⦄ rejects at_start).0.reports ≡ (0, true) ∷ (0, false) ∷ []
unfolding run_code js_execute_pending_job js_promise_then if_some if_returns allocate
    js_promise_constructor host_of
answered_reports = refl

-- One promise that is pending, and its flag.
abbrev one_pending : Runtime
one_pending = record at_start { promises = new_promise ∷ []; already_resolved = false ∷ [] }

abbrev one_rejected : Runtime
one_rejected = record at_start {
  promises = record new_promise { promise_state = rejected; promise_result = primitive 7 } ∷ [];
}

run_code-IsSettled_example :
    IsSettled 0 true
      (primitive 7)
      (run_code ⦃host = host_of answering⦄ rejects one_rejected).0.promises
run_code-IsSettled_example =
    run_code-IsSettled answering rejects 0 true (primitive 7) one_rejected (_, refl, refl, refl)

resolve_twice_example :
    js_promise_resolve_function_call ⦃host = host_of answering⦄ 0 0 true
      (primitive 8)
      (run_code ⦃host = host_of answering⦄ nothing)
      (run_code ⦃host = host_of answering⦄ rejects (
        js_promise_resolve_function_call ⦃host = host_of answering⦄ 0 0 false
          (primitive 7)
          (run_code ⦃host = host_of answering⦄ nothing)
          one_pending)).0
    ≡ (run_code ⦃host = host_of answering⦄ rejects (
        js_promise_resolve_function_call ⦃host = host_of answering⦄ 0 0 false
          (primitive 7)
          (run_code ⦃host = host_of answering⦄ nothing)
          one_pending)).0
resolve_twice_example =
    resolve_twice answering 0 0 false false true (primitive 7) (primitive 8) nothing rejects nothing
      one_pending refl

then-settle_example :
    let queue =
      ([] ++ map (job_of true (primitive 7)) (reactions_of true new_promise))
      ++ job_of true
          (primitive 7)
          (reaction_of (resolving 1 1 false) (resolving 1 1 true) undefined)
        ∷ [] in
    ((fulfill_or_reject_promise ⦃host = noting⦄ 0
        (primitive 7)
        true
        (perform_promise_then ⦃host = noting⦄ 0 new_promise
          (user_function 2)
          undefined
          (resolving 1 1 false)
          (resolving 1 1 true)
          one_pending).0).job_list
      ≡ queue)
    × ((perform_promise_then ⦃host = noting⦄ 0
          (settled true (primitive 7) new_promise)
          (user_function 2)
          undefined
          (resolving 1 1 false)
          (resolving 1 1 true)
          (fulfill_or_reject_promise ⦃host = noting⦄ 0 (primitive 7) true one_pending)).0.job_list
        ≡ queue)
then-settle_example =
    then-settle ⦃host = noting⦄ 0 new_promise (user_function 2) undefined (resolving 1 1 false)
      (resolving 1 1 true) (primitive 7) true one_pending noting-IsQuiet refl refl refl

fulfill_or_reject_promise-jobs_example :
    ((fulfill_or_reject_promise ⦃host = noting⦄ 0 (primitive 7) true one_pending).job_list
      ≡ [] ++ map (job_of true (primitive 7)) (reactions_of true new_promise))
    × (get_elem?
          (fulfill_or_reject_promise ⦃host = noting⦄ 0 (primitive 7) true one_pending).promises
          0
        ≡ some (settled true (primitive 7) new_promise))
fulfill_or_reject_promise-jobs_example =
    fulfill_or_reject_promise-jobs ⦃host = noting⦄ 0 (primitive 7) true new_promise one_pending
      noting-IsQuiet refl refl refl
