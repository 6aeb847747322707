-- ===== src/Tests/Overlaps.antt =====
-- A run of a socket server of packages/plugin-runtime/src/socket-server.ts that has a pool, and the
-- theorems about such runs at it: `Init` comes, its call returns, it is answered, and `Add` comes.
use ts_plugins.Common.{ℕ, ◌+◌, ◌≡◌, refl, none, some, [], ◌∷◌, ◌++◌, All, map, true}
use ts_plugins.Common.Maps
use ts_plugins.Common.Texts.{decimal}
use ts_plugins.Runtime.Values.{undefined}
use ts_plugins.Runtime.Tracing.{extract_trace_context}
use ts_plugins.Runtime.Dispatcher.{
  Settled, resolved, rejected, error, begin_method, finish, complete_init, method_by_id, caught,
}
use ts_plugins.Runtime.Dispatcher.Validation.{handler_of}
use ts_plugins.Runtime.Server.{Server, after_result, catch_error, timeout_message}
use ts_plugins.Runtime.Server.Overlap.{
  Task, ServerWorld, first_world, with_calls, task_of, end_call, arrive, respond,
}
use ts_plugins.Runtime.Server.Overlap.Steps.{
  arrives, call_ends, responds, times_out, abandoned_ends, ServerReach, starts, goes_on,
}
use ts_plugins.Runtime.Server.Overlap.Answered.{tally, reply_id, task_id, ended_id, replies_once}
use ts_plugins.Runtime.Server.Overlap.Pooled.{IsInitOf, pooled_init_returned}
use ts_plugins.Tests.Plugins.{calc, init_call, server, readings}

abbrev pooling : Server ℕ ℕ
pooling = record server { pool = some (λ task ms. none) }

abbrev init_comes : ServerWorld ℕ
init_comes = arrive pooling (first_world none) 1 1 [] none readings

abbrev init_task : Task ℕ
init_task = task_of 1 calc.init_method undefined none (some init_call)

abbrev init_ends : ServerWorld ℕ
init_ends =
    record (with_calls init_comes
      (end_call init_comes.calls [] init_call (caught init_call.context (resolved undefined)))) {
        awaited = [];
        ended = (init_task, caught init_call.context (resolved undefined)) ∷ init_comes.ended;
      }

abbrev init_answered : ServerWorld ℕ
init_answered =
    respond pooling (record init_ends { ended = [] }) init_task
      (caught init_call.context (resolved undefined)) readings

abbrev add_comes : ServerWorld ℕ
add_comes = arrive pooling init_answered 2 2 [] none readings

init_is_awaited :
    (init_comes.calls.pending ≡ [] ++ init_call ∷ []) × (init_comes.awaited ≡ [] ++ init_task ∷ [])
unfolding arrive begin_method method_by_id handler_of extract_trace_context Maps.get decimal
init_is_awaited = (refl, refl)

none_had_ended : init_comes.ended ≡ []
unfolding arrive begin_method method_by_id handler_of extract_trace_context Maps.get decimal
none_had_ended = refl

reaches_add : ServerReach pooling none add_comes
unfolding arrive begin_method method_by_id handler_of extract_trace_context Maps.get decimal
reaches_add =
    goes_on
      (goes_on
        (goes_on (goes_on starts (arrives (first_world none) 1 1 [] none readings)) (
          call_ends init_comes [] [] init_call (resolved undefined) [] [] init_task
            init_is_awaited.0 init_is_awaited.1 refl))
        (responds init_ends readings [] [] init_task (caught init_call.context (resolved undefined))
          refl))
      (arrives init_answered 2 2 [] none readings)

add_is_pooled : map (λ task. task.init_request) add_comes.pooled ≡ some undefined ∷ []
unfolding arrive begin_method method_by_id handler_of extract_trace_context Maps.get decimal respond
    after_result end_call finish complete_init
add_is_pooled = refl

-- `Init` times out and is answered; then its call returns.
abbrev too_late : Settled
too_late = rejected (error (timeout_message pooling calc.init_method))

abbrev init_is_late : ServerWorld ℕ
init_is_late = record init_comes {
  awaited = [];
  ended = (init_task, too_late) ∷ init_comes.ended;
  abandoned = init_call ∷ init_comes.abandoned;
}

abbrev init_fails : ServerWorld ℕ
init_fails = respond pooling (record init_is_late { ended = [] }) init_task too_late readings

abbrev late_init : ServerWorld ℕ
late_init =
    record (with_calls init_fails
      (end_call init_fails.calls [] init_call (caught init_call.context (resolved undefined)))) {
        abandoned = [];
      }

reaches_late_init : ServerReach pooling none late_init
unfolding arrive begin_method method_by_id handler_of extract_trace_context Maps.get decimal respond
    after_result catch_error
reaches_late_init =
    goes_on
      (goes_on
        (goes_on (goes_on starts (arrives (first_world none) 1 1 [] none readings))
          (times_out init_comes 1000 [] [] init_task init_is_awaited.1 refl))
        (responds init_is_late readings [] [] init_task too_late refl))
      (abandoned_ends init_fails [] [] init_call (resolved undefined) [] [] refl refl)

late_init_initializes :
    (late_init.server.dispatcher.initialized ≡ true) × (late_init.server.last_init_request ≡ none)
unfolding arrive begin_method method_by_id handler_of extract_trace_context Maps.get decimal respond
    after_result catch_error end_call finish complete_init
late_init_initializes = (refl, refl)

replies_once_example :
    tally (λ i. i) 1 add_comes.received
    ≡ tally reply_id 1 add_comes.replies
      + tally task_id 1 add_comes.awaited
      + tally ended_id 1 add_comes.ended
replies_once_example = replies_once pooling 1 none add_comes reaches_add

pooled_init_returned_example :
    IsInitOf add_comes.server.last_init_request add_comes.calls.inits
    × All (λ task. IsInitOf task.init_request add_comes.calls.inits) add_comes.pooled
pooled_init_returned_example = pooled_init_returned pooling none add_comes reaches_add
