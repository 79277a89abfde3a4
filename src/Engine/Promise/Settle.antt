-- ===== src/Engine/Promise/Settle.antt =====
-- Settling a promise, reacting to it, and its resolving functions, of .backup/quickjs.c. No promise
-- hook is set.
use cno_cli.Base.{
  ℕ, Bool, true, false, none, some, List, [], ◌∷◌, ◌++◌, get_elem?, not, ◌&&◌, ◌||◌, if◌then◌else◌,
}
use cno_cli.Engine.Promise.State.{
  Host, JsValue, undefined, type_error, js_is_object, js_is_function, is_promise, JsPromiseState,
  fulfilled, rejected, JsPromiseReactionData, JsPromiseData, reaction_job, thenable_job, Runtime,
  Completion, returns, throws, Callee, malloc_granted, asked, js_enqueue_job, modify_promise,
  modify, is_rejected, is_pending, report, handled,
}

-- The jobs of a list of reactions, in its order.
unfoldable pub enqueue_reactions : List JsPromiseReactionData → Bool → JsValue → Runtime → Runtime
unfolding js_enqueue_job
enqueue_reactions [] is_reject value r = r
enqueue_reactions (rd ∷ rds) is_reject value r =
    enqueue_reactions rds is_reject value (js_enqueue_job (reaction_job rd is_reject value) r)

-- `JS_PROMISE_FULFILLED + is_reject`
abbrev pub settled_state : Bool → JsPromiseState
settled_state is_reject = if is_reject then rejected else fulfilled

abbrev pub settled : Bool → JsValue → JsPromiseData → JsPromiseData
settled is_reject value s = record s {
  promise_state = settled_state is_reject;
  promise_result = value;
  fulfill_reactions = [];
  reject_reactions = [];
}

module _ ⦃host : Host⦄ where
  -- A promise that is there. The host's tracker runs before the jobs are queued; the reactions are those
  -- of before, since no code adds a reaction to a promise that is settled.
  unfoldable pub settle : ℕ → JsValue → Bool → JsPromiseData → Runtime → Runtime
  unfolding modify_promise enqueue_reactions report
  settle p value is_reject s r =
      if is_pending s.promise_state
      then enqueue_reactions (if is_reject then s.reject_reactions else s.fulfill_reactions)
          is_reject value
          (report p false (settled is_reject value s)
            (modify_promise (settled is_reject value) p r))
      else r

  unfoldable pub fulfill_or_reject_promise : ℕ → JsValue → Bool → Runtime → Runtime
  unfolding settle
  fulfill_or_reject_promise p value is_reject r = elim (get_elem? r.promises p) [
    | none ↦ r
    | some s ↦ settle p value is_reject s r
  ]

-- A handler that is no function counts as undefined.
abbrev pub handler_of : JsValue → JsValue
handler_of h = if js_is_function h then h else undefined

abbrev pub add_reactions :
    JsPromiseReactionData → JsPromiseReactionData → JsPromiseData → JsPromiseData
add_reactions on_fulfilled on_rejected s = record s {
  fulfill_reactions = s.fulfill_reactions ++ on_fulfilled ∷ [];
  reject_reactions = s.reject_reactions ++ on_rejected ∷ [];
  is_handled = true;
}

module _ ⦃host : Host⦄ where
  -- Both reactions are allocated: what `perform_promise_then` does with them.
  unfoldable pub react :
      ℕ → JsPromiseReactionData → JsPromiseReactionData → JsPromiseData → Runtime → Runtime
  unfolding modify_promise js_enqueue_job report
  react p on_fulfilled on_rejected s r =
      if is_pending s.promise_state
      then modify_promise (add_reactions on_fulfilled on_rejected) p r
      else (let is_reject = is_rejected s.promise_state in
          modify_promise handled p (
            js_enqueue_job
              (reaction_job (if is_reject then on_rejected else on_fulfilled) is_reject
                s.promise_result)
              (report p true s r)))

  -- Whether it succeeds. Its callers have looked up the promise s.
  unfoldable pub perform_promise_then :
      ℕ → JsPromiseData → JsValue → JsValue → JsValue → JsValue → Runtime → Runtime × Bool
  unfolding react
  perform_promise_then p s on_fulfilled on_rejected resolve reject r =
      if malloc_granted r && malloc_granted (asked r)
      then (
        react p (record { resolve = resolve; reject = reject; handler = handler_of on_fulfilled })
            (record { resolve = resolve; reject = reject; handler = handler_of on_rejected }) s
            (asked (asked r)),
        true,
      )
      else (if malloc_granted r then asked (asked r) else asked r, false)

  -- `then` is the lookup of the property `then` of the resolution.
  unfoldable pub after_lookup : ℕ → JsValue → Runtime × Completion → Runtime
  unfolding fulfill_or_reject_promise js_enqueue_job
  after_lookup p resolution (r, throws error) = fulfill_or_reject_promise p error true r
  after_lookup p resolution (r, returns then_value) =
      if js_is_function then_value
      then js_enqueue_job (thenable_job p resolution then_value) r
      else fulfill_or_reject_promise p resolution false r

  -- A call that finds `already_resolved` false, after it has set it.
  unfoldable pub resolve_promise : ℕ → Bool → JsValue → Callee → Runtime → Runtime
  unfolding fulfill_or_reject_promise after_lookup
  resolve_promise p is_reject resolution get_then r =
      if is_reject || not (js_is_object resolution)
      then fulfill_or_reject_promise p resolution is_reject r
      else if is_promise p resolution
      then fulfill_or_reject_promise p type_error true r
      else after_lookup p resolution (get_then r)

  unfoldable pub js_promise_resolve_function_call :
      ℕ → ℕ → Bool → JsValue → Callee → Runtime → Runtime
  unfolding resolve_promise modify
  js_promise_resolve_function_call flag p is_reject resolution get_then r =
      elim (get_elem? r.already_resolved flag) [
        | some false ↦
            resolve_promise p is_reject resolution get_then
              (record r { already_resolved = modify (λ _. true) flag r.already_resolved })
        | other ↦ r
      ]
