-- ===== src/Runtime/Dispatcher/Calls.antt =====
-- Many requests on one dispatcher of dispatcher.ts: each begins at any time, and its handler
-- settles, if ever, at any later time.
pub mod Sound
use ts_plugins.Common.{
  ℕ, ◌+◌, ◌-◌, ◌≤◌, ◌<◌, ◌≡◌, ◌≢◌, refl, ap, sym, ◌∙◌, Bool, true, false, Option, none, some, arith,
  Text, text_eq, ◌==◌, ◌⊎◌, inl, inr, Bool-cases, List, [], ◌∷◌, ◌++◌, All, JsMap, codes,
  if◌then◌else◌, Option-cases, length,
}
use mathlib.Core.Path.{subst}
use ts_plugins.Common.Texts.{append_cancel, decimal, decimal_injective}
use ts_plugins.Protocol.{TraceContext}
use ts_plugins.Codegen.Contract.{PluginMethodDefinition}
use ts_plugins.Runtime.Values.{Value, derive_config_snapshot}
use ts_plugins.Runtime.Dispatcher.{
  Settled, resolved, rejected, RequestContext, DispatcherState, initial_state, PluginDispatcher,
  Begun, refused, started, Purpose, initializing, serving, request_id_of, complete_init,
  begin_method, begin_with, invoke_found, begin_invoke, finish, method_by_id,
}
use ts_plugins.Runtime.Dispatcher.Validation.{handler_of}

-- A call of a handler: its request, what it is for and the context it has.
pub record Call : Type 0 where
  pub purpose : Purpose
  pub request : Value
  pub context : RequestContext

-- The calls ever started, those that have not settled, and the requests of the `Init` calls that
-- have returned; the newest first.
pub record World : Type 0 where
  pub state : DispatcherState
  pub calls : List Call
  pub pending : List Call
  pub inits : List Value

module _ {ℓ} {H : Type ℓ} where
  -- `invoke` or `initialize` has come to its handler, or to an error.
  abbrev pub begun : World → Purpose → Value → Begun H × DispatcherState → World
  begun w purpose request (refused message, state) = record w { state = state }
  begun w purpose request (started handler context, state) =
      let call : Call = record { purpose = purpose; request = request; context = context } in
      record w { state = state; calls = call ∷ w.calls; pending = call ∷ w.pending }

abbrev pub returned_inits : Purpose → Value → Settled → List Value → List Value
returned_inits initializing request (resolved _) inits = request ∷ inits
returned_inits _ _ _ inits = inits

module _ {ℓ} {Schema H : Type ℓ} (d : PluginDispatcher Schema H) where
  pub data Step : World → World → Type 0 where
    initialize_begins :
        (w : World) (request : Value) (trace_context : Option TraceContext)
        → Step w (begun w initializing request (begin_method d w.state d.init_method trace_context))
    invoke_begins :
        (w : World) (id : ℕ) (request : Value) (trace_context : Option TraceContext)
        → Step w (
            begun w
              (begin_invoke d w.state id trace_context).0
              request
              (begin_invoke d w.state id trace_context).1)
    settles :
        (w : World) (before after : List Call) (call : Call) (settled : Settled)
        → w.pending ≡ before ++ call ∷ after
        → Step w (record w {
          state = finish call.purpose w.state call.request settled;
          pending = before ++ after;
          inits = returned_inits call.purpose call.request settled w.inits;
        })

  pub data Reach : World → Type 0 where
    begin : Reach (record { state = initial_state; calls = []; pending = []; inits = [] })
    next : {u v : World} → Reach u → Step u v → Reach v

-- The configuration is the one of an `Init` that has returned, or still empty.
pub IsConfigOf : JsMap Text Text → List Value → Type 0
IsConfigOf config [] = config ≡ []
IsConfigOf config (request ∷ inits) =
    (config ≡ derive_config_snapshot request) ⊎ IsConfigOf config inits

abbrev pub last_config : List Value → JsMap Text Text
last_config [] = []
last_config (request ∷ inits) = derive_config_snapshot request

abbrev pub any_init : List Value → Bool
any_init [] = false
any_init (_ ∷ _) = true

-- A call that serves a request was let in after an `Init` had returned.
abbrev pub IsLetIn : List Value → Call → Type 0
IsLetIn inits call =
    (call.purpose ≡ serving → any_init inits ≡ true) × IsConfigOf call.context.config inits

-- The calls have numbered request ids, below the bound and rising with time.
pub AreNumbered : Text → ℕ → List Call → Type 0
AreNumbered plugin_id bound [] = Unit
AreNumbered plugin_id bound (call ∷ calls) =
    (n : ℕ) × (call.context.request_id ≡ request_id_of plugin_id n)
    × (n < bound)
    × AreNumbered plugin_id n calls

-- No two of them have the same request id.
pub HaveDistinctIds : List Call → Type 0
HaveDistinctIds [] = Unit
HaveDistinctIds (call ∷ calls) =
    All (λ older. older.context.request_id ≢ call.context.request_id) calls × HaveDistinctIds calls
