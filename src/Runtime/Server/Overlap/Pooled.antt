-- ===== src/Runtime/Server/Overlap/Pooled.antt =====
-- What the pool of a server whose requests overlap is given.
use ts_plugins.Common.{
  ℕ, ◌≡◌, refl, sym, ap, ◌∙◌, ◌⊎◌, inl, inr, true, Bool-cases, Option, none, some, List, [], ◌∷◌,
  ◌++◌, All, All-map, All-taken,
}
use mathlib.Core.Path.{subst}
use ts_plugins.Runtime.Values.{Value}
use ts_plugins.Runtime.Metrics.{RuntimeMetrics}
use ts_plugins.Runtime.Dispatcher.{
  Settled, resolved, rejected, refused, started, Purpose, initializing, serving, caught, error,
}
use ts_plugins.Runtime.Dispatcher.Calls.{Call, returned_inits}
use ts_plugins.Runtime.Server.{WorkerPoolTask, Server, is_init_method, timeout_message, Readings}
use ts_plugins.Runtime.Server.Overlap.Arrival.{
  Arrived, answers, enters, joins, arrive_found-Arrived, after_result-IsReply, last_after,
}
use ts_plugins.Runtime.Server.Overlap.{Task, ServerWorld, arrive, respond, end_call, with_calls}
use ts_plugins.Runtime.Server.Overlap.Steps.{
  ServerStep, arrives, call_ends, pool_ends, times_out, abandoned_ends, responds, ServerReach,
  starts, goes_on,
}

-- There is no request, or it is one of these.
pub IsInitOf : Option Value → List Value → Type 0
IsInitOf request [] = request ≡ none
IsInitOf request (init ∷ inits) = (request ≡ some init) ⊎ IsInitOf request inits

none-IsInitOf : (inits : List Value) → IsInitOf none inits
unfolding IsInitOf
none-IsInitOf [] = refl
none-IsInitOf (_ ∷ inits) = inr (none-IsInitOf inits)

later-IsInitOf :
    (o : Option Value) (purpose : Purpose) (request : Value) (settled : Settled)
    (inits : List Value)
    → IsInitOf o inits
    → IsInitOf o (returned_inits purpose request settled inits)
unfolding IsInitOf
later-IsInitOf o initializing request (resolved result) inits h = inr h
later-IsInitOf o initializing request (rejected thrown) inits h = h
later-IsInitOf o serving request settled inits h = h

returned-IsInitOf :
    (purpose : Purpose) (request : Value) (settled : Settled) (inits : List Value) (result : Value)
    → purpose ≡ initializing
    → settled ≡ resolved result
    → IsInitOf (some request) (returned_inits purpose request settled inits)
unfolding IsInitOf
returned-IsInitOf initializing request (resolved _) inits result e e' = inl refl
returned-IsInitOf initializing request (rejected thrown) inits result e e' = cc
returned-IsInitOf serving request settled inits result e e' = cc

module _ {ℓ} {Schema H : Type ℓ} (server : Server Schema H) where
  -- A task of `Init` waits for a call of `initialize` with its request.
  abbrev IsCalled : Task Schema → Type 0
  IsCalled task =
      is_init_method server task.method ≡ true
      → (call : Call) × (task.call ≡ some call)
        × (call.purpose ≡ initializing)
        × (call.request ≡ task.request)

  abbrev IsReturned : List Value → Task Schema × Settled → Type 0
  IsReturned inits (task, settled) =
      is_init_method server task.method ≡ true
      → (result : Value) → settled ≡ resolved result
      → IsInitOf (some task.request) inits

  abbrev IsGiven : List Value → WorkerPoolTask Schema → Type 0
  IsGiven inits task = IsInitOf task.init_request inits

  record KeepsInits (w : ServerWorld Schema) : Type ℓ where
    last : IsInitOf w.server.last_init_request w.calls.inits
    given : All (IsGiven w.calls.inits) w.pooled
    waiting : All IsCalled w.awaited
    due : All (IsReturned w.calls.inits) w.ended

  -- More `Init` calls have returned.
  later-IsGiven :
      (purpose : Purpose) (request : Value) (settled : Settled) (inits : List Value)
      (tasks : List (WorkerPoolTask Schema))
      → All (IsGiven inits) tasks
      → All (IsGiven (returned_inits purpose request settled inits)) tasks
  later-IsGiven purpose request settled inits =
      All-map (λ task h. later-IsInitOf _ purpose request settled inits h)

  later-IsReturned :
      (purpose : Purpose) (request : Value) (settled : Settled) (inits : List Value)
      (tasks : List (Task Schema × Settled))
      → All (IsReturned inits) tasks
      → All (IsReturned (returned_inits purpose request settled inits)) tasks
  later-IsReturned purpose request settled inits =
      All-map
        (λ task h init result e. later-IsInitOf _ purpose request settled inits (h init result e))

  caught-IsReturned :
      (task : Task Schema) (call : Call) (settled : Settled) (inits : List Value)
      → IsCalled task
      → task.call ≡ some call
      → IsReturned (returned_inits call.purpose call.request settled inits) (task, settled)
  caught-IsReturned task call settled inits called here init result e =
      let (other, there, purpose, request) = called init in
      let same : other ≡ call = cc in
      let mine : call.request ≡ task.request = ap (λ c. c.request) (sym same) ∙ request in
      subst
        (λ value. IsInitOf (some value) (returned_inits call.purpose call.request settled inits))
        mine
        (returned-IsInitOf call.purpose call.request settled inits result
          (ap (λ c. c.purpose) (sym same) ∙ purpose) e)

  refused-IsReturned :
      (task : Task Schema) (settled : Settled) (inits : List Value)
      → IsCalled task
      → task.call ≡ none
      → IsReturned inits (task, settled)
  refused-IsReturned task settled inits called here init result e =
      let (call, there, purpose, request) = called init in cc

  last_after-IsInitOf :
      (task : Task Schema) (settled : Settled) (last : Option Value) (inits : List Value)
      → IsInitOf last inits
      → IsReturned inits (task, settled)
      → IsInitOf (last_after server task.method task.request settled last) inits
  last_after-IsInitOf task (rejected thrown) last inits h due = h
  last_after-IsInitOf task (resolved result) last inits h due =
      elim (Bool-cases (is_init_method server task.method)) [
        | inl init ↦ rw init (due init result refl)
        | inr other ↦ rw other h
      ]

  Arrived-KeepsInits :
      (v w : ServerWorld Schema) (request_id : ℕ)
      → Arrived server v request_id w
      → KeepsInits v
      → KeepsInits w
  Arrived-KeepsInits v w request_id (answers reply r) h = record {
    last = subst (λ last. IsInitOf last v.calls.inits) (sym r.last_init_request) h.last;
    given = h.given;
    waiting = h.waiting;
    due = h.due;
  }
  Arrived-KeepsInits v w request_id
        (enters state method request trace_context purpose (refused message, after) kept step init)
        h =
      record {
        last = subst (λ last. IsInitOf last v.calls.inits) (sym kept.last_init) h.last;
        given = h.given;
        waiting = h.waiting;
        due = ((λ e result e'. cc), h.due);
      }
  Arrived-KeepsInits v w request_id
        (enters state method request trace_context purpose
          (started handler context, after)
          kept
          step
          init)
        h =
      record {
        last = subst (λ last. IsInitOf last v.calls.inits) (sym kept.last_init) h.last;
        given = h.given;
        waiting = ((λ e. (_, refl, init e, refl)), h.waiting);
        due = h.due;
      }
  Arrived-KeepsInits v w request_id (joins state method request trace_context kept other) h =
      let last : IsInitOf state.last_init_request v.calls.inits =
        subst (λ last. IsInitOf last v.calls.inits) (sym kept.last_init) h.last in
      record { last = last; given = (last, h.given); waiting = ((λ e. cc), h.waiting); due = h.due }

  end_call-KeepsInits :
      (w : ServerWorld Schema) (pending : List Call) (call : Call) (settled : Settled)
      → KeepsInits w
      → KeepsInits (with_calls w (end_call w.calls pending call settled))
  unfolding end_call
  end_call-KeepsInits w pending call settled h = record {
    last = later-IsInitOf _ call.purpose call.request settled w.calls.inits h.last;
    given = later-IsGiven call.purpose call.request settled w.calls.inits w.pooled h.given;
    waiting = h.waiting;
    due = later-IsReturned call.purpose call.request settled w.calls.inits w.ended h.due;
  }

  -- A task is awaited no more.
  task_ends-KeepsInits :
      (w : ServerWorld Schema) (earlier later : List (Task Schema)) (task : Task Schema)
      (settled : Settled)
      → w.awaited ≡ earlier ++ task ∷ later
      → (IsCalled task → IsReturned w.calls.inits (task, settled))
      → KeepsInits w
      → KeepsInits (record w { awaited = earlier ++ later; ended = (task, settled) ∷ w.ended })
  task_ends-KeepsInits w earlier later task settled e f h =
      let (called, waiting) = All-taken IsCalled w.awaited earlier later task e h.waiting in
      record { last = h.last; given = h.given; waiting = waiting; due = (f called, h.due) }

  respond-KeepsInits :
      (w : ServerWorld Schema) (task : Task Schema) (settled : Settled) (readings : Readings)
      → IsReturned w.calls.inits (task, settled)
      → KeepsInits w
      → KeepsInits (respond server w task settled readings)
  unfolding respond
  respond-KeepsInits w task settled readings returned h =
      let replied =
        after_result-IsReply server w.server task.request_id task.method task.request
          task.trace_context readings settled in
      record {
        last =
            subst (λ last. IsInitOf last w.calls.inits) (sym replied.last_init_request)
              (last_after-IsInitOf task settled w.server.last_init_request w.calls.inits h.last
                returned);
        given = h.given;
        waiting = h.waiting;
        due = h.due;
      }

  step-KeepsInits : (v w : ServerWorld Schema) → ServerStep server v w → KeepsInits v → KeepsInits w
  unfolding arrive end_call
  step-KeepsInits v w (arrives u request_id method_id payload trace_context readings) h =
      Arrived-KeepsInits (record u { received = request_id ∷ u.received }) _ request_id
        (arrive_found-Arrived server _ request_id method_id payload trace_context readings _)
        (record { last = h.last; given = h.given; waiting = h.waiting; due = h.due })
  step-KeepsInits v w (call_ends u before after call settled earlier later task e e' e'') h =
      task_ends-KeepsInits _ earlier later task _ e'
        (λ called. caught-IsReturned task call _ u.calls.inits called e'')
        (end_call-KeepsInits u (before ++ after) call (caught call.context settled) h)
  step-KeepsInits v w (pool_ends u settled earlier later task e e') h =
      task_ends-KeepsInits u earlier later task settled e
        (λ called. refused-IsReturned task settled u.calls.inits called e') h
  step-KeepsInits v w (times_out u timeout_ms earlier later task e e') h =
      let ended =
        task_ends-KeepsInits u earlier later task
          (rejected (error (timeout_message server task.method))) e (λ called init result late. cc)
          h in
      record { last = ended.last; given = ended.given; waiting = ended.waiting; due = ended.due }
  step-KeepsInits v w (abandoned_ends u before after call settled earlier later e e') h =
      let ended = end_call-KeepsInits u (before ++ after) call (caught call.context settled) h in
      record { last = ended.last; given = ended.given; waiting = ended.waiting; due = ended.due }
  step-KeepsInits v w (responds u readings earlier later task settled e) h =
      let (returned, due) =
        All-taken (IsReturned u.calls.inits) u.ended earlier later (task, settled) e h.due in
      respond-KeepsInits _ task settled readings returned
        (record { last = h.last; given = h.given; waiting = h.waiting; due = due })

  -- However requests overlap, the `Init` request that a task of the pool carries is one whose call
  -- has returned without an error, if it carries any; so is the one that the server keeps for the
  -- next task.
  pub pooled_init_returned :
      (metrics : Option RuntimeMetrics) (w : ServerWorld Schema)
      → ServerReach server metrics w
      → IsInitOf w.server.last_init_request w.calls.inits
        × All (λ task. IsInitOf task.init_request w.calls.inits) w.pooled
  pooled_init_returned metrics w r = let kept = along w r in (kept.last, kept.given)
    where
      along : (w : ServerWorld Schema) → ServerReach server metrics w → KeepsInits w
      along w starts = record { last = none-IsInitOf []; given = tt; waiting = tt; due = tt }
      along w (goes_on {v = v} r step) = step-KeepsInits v w step (along v r)
