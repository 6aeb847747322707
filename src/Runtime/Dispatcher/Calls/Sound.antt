-- ===== src/Runtime/Dispatcher/Calls/Sound.antt =====
-- What holds of every run of many requests on one dispatcher of dispatcher.ts.
use ts_plugins.Common.{
  ℕ, ◌+◌, ◌≤◌, ◌≡◌, ◌≢◌, refl, sym, ◌∙◌, Bool, true, false, Option, none, some, arith, Text,
  text_eq, ◌==◌, inl, inr, List, [], ◌∷◌, ◌++◌, All, codes, if◌then◌else◌,
}
use mathlib.Core.Path.{subst}
use ts_plugins.Common.Texts.{append_cancel, decimal_injective}
use ts_plugins.Protocol.{TraceContext}
use ts_plugins.Codegen.Contract.{PluginMethodDefinition}
use ts_plugins.Runtime.Tracing.{Extracted, absent, valid, invalid}
use ts_plugins.Runtime.Values.{Value}
use ts_plugins.Runtime.Dispatcher.{
  Settled, resolved, rejected, DispatcherState, PluginDispatcher, Begun, Purpose, initializing,
  serving, request_id_of, complete_init, begin_method, begin_with, begin_extracted, context_of,
  counted, started, invoke_found, begin_invoke, finish, method_by_id,
}
use ts_plugins.Runtime.Dispatcher.Validation.{handler_of}
use ts_plugins.Runtime.Dispatcher.Calls.{
  Call, World, begun, returned_inits, Step, initialize_begins, invoke_begins, settles, Reach, begin,
  next, IsConfigOf, last_config, any_init, IsLetIn, AreNumbered, HaveDistinctIds,
}

IsConfigOf-last : (inits : List Value) → IsConfigOf (last_config inits) inits
unfolding IsConfigOf
IsConfigOf-last [] = refl
IsConfigOf-last (request ∷ inits) = inl refl

IsLetIn-more :
    (inits : List Value) (request : Value) (calls : List Call)
    → All (IsLetIn inits) calls
    → All (IsLetIn (request ∷ inits)) calls
unfolding IsConfigOf
IsLetIn-more inits request [] h = tt
IsLetIn-more inits request (call ∷ calls) h =
    ((λ _. refl, inr h.0.1), IsLetIn-more inits request calls h.1)

AreNumbered-more :
    (plugin_id : Text) (bound more : ℕ) (calls : List Call)
    → bound ≤ more
    → AreNumbered plugin_id bound calls
    → AreNumbered plugin_id more calls
unfolding AreNumbered
AreNumbered-more plugin_id bound more [] le h = tt
AreNumbered-more plugin_id bound more (call ∷ calls) le (n, named, less, rest) =
    (n, named, omega arith, rest)

if_case {ℓ ℓ'} :
    {A : Type ℓ} (P : A → Type ℓ') (b : Bool) (x y : A)
    → (b ≡ true → P x)
    → P y
    → P (if b then x else y)
if_case P true x y px py = px refl
if_case P false x y px py = py

module _ {ℓ} {Schema H : Type ℓ} (d : PluginDispatcher Schema H) where
  pub record IsSound (w : World) : Type 0 where
    pub knows_init : w.state.initialized ≡ any_init w.inits
    pub knows_config : w.state.config_snapshot ≡ last_config w.inits
    pub let_in : All (IsLetIn w.inits) w.calls
    pub numbered : AreNumbered d.plugin_id (w.state.request_counter + 1) w.calls

  same_state : (w : World) → IsSound w → IsSound (record w { state = w.state })
  same_state w h = record {
    knows_init = h.knows_init;
    knows_config = h.knows_config;
    let_in = h.let_in;
    numbered = h.numbered;
  }

  counted-IsSound : (w : World) → IsSound w → IsSound (record w { state = counted w.state })
  counted-IsSound w h = record {
    knows_init = h.knows_init;
    knows_config = h.knows_config;
    let_in = h.let_in;
    numbered =
        AreNumbered-more d.plugin_id (w.state.request_counter + 1) (w.state.request_counter + 1 + 1)
          w.calls (omega arith) h.numbered;
  }

  started-IsSound :
      (w : World) (purpose : Purpose) (request : Value) (method : PluginMethodDefinition Schema)
      (trace_context : Option TraceContext) (handler : H)
      → IsSound w
      → (purpose ≡ serving → any_init w.inits ≡ true)
      → IsSound (
          begun w purpose request
            (started handler (context_of d w.state method trace_context), counted w.state))
  unfolding AreNumbered
  started-IsSound w purpose request method trace_context handler h allowed = record {
    knows_init = h.knows_init;
    knows_config = h.knows_config;
    let_in = (
      (
        allowed,
        subst (λ config. IsConfigOf config w.inits) (sym h.knows_config) (IsConfigOf-last w.inits),
      ),
      h.let_in,
    );
    numbered = (w.state.request_counter + 1, refl, omega arith, h.numbered);
  }

  begin_extracted-IsSound :
      (w : World) (purpose : Purpose) (request : Value) (method : PluginMethodDefinition Schema)
      (handler : H) (extracted : Extracted)
      → IsSound w
      → (purpose ≡ serving → any_init w.inits ≡ true)
      → IsSound (begun w purpose request (begin_extracted d w.state method handler extracted))
  begin_extracted-IsSound w purpose request method handler absent h allowed =
      started-IsSound w purpose request method none handler h allowed
  begin_extracted-IsSound w purpose request method handler (valid c) h allowed =
      started-IsSound w purpose request method (some c) handler h allowed
  begin_extracted-IsSound w purpose request method handler (invalid message) h allowed =
      counted-IsSound w h

  begin_with-IsSound :
      (w : World) (purpose : Purpose) (request : Value) (method : PluginMethodDefinition Schema)
      (trace_context : Option TraceContext) (found : Option H)
      → IsSound w
      → (purpose ≡ serving → any_init w.inits ≡ true)
      → IsSound (begun w purpose request (begin_with d w.state method trace_context found))
  begin_with-IsSound w purpose request method trace_context none h allowed = same_state w h
  begin_with-IsSound w purpose request method trace_context (some handler) h allowed =
      begin_extracted-IsSound w purpose request method handler _ h allowed

  begin_method-IsSound :
      (w : World) (purpose : Purpose) (request : Value) (method : PluginMethodDefinition Schema)
      (trace_context : Option TraceContext)
      → IsSound w
      → (purpose ≡ serving → any_init w.inits ≡ true)
      → IsSound (begun w purpose request (begin_method d w.state method trace_context))
  unfolding begin_method
  begin_method-IsSound w purpose request method trace_context =
      begin_with-IsSound w purpose request method trace_context
        (handler_of d.handlers method.local_name)

  initializing_ne : initializing ≢ serving
  initializing_ne e = cc

  invoke_found-IsSound :
      (w : World) (id : ℕ) (request : Value) (trace_context : Option TraceContext)
      (found : Option (PluginMethodDefinition Schema))
      → IsSound w
      → let (purpose, b) = invoke_found d w.state id trace_context found in
        IsSound (begun w purpose request b)
  invoke_found-IsSound w id request trace_context none h = same_state w h
  invoke_found-IsSound w id request trace_context (some method) h =
      if_case (λ (r : Purpose × (Begun H × DispatcherState)). IsSound (begun w r.0 request r.1))
        (method.name == codes "Init") _ _
        (λ _.
          begin_method-IsSound w initializing request d.init_method trace_context h
            (λ e. absurd (initializing_ne e)))
        (if_case (λ (r : Purpose × (Begun H × DispatcherState)). IsSound (begun w r.0 request r.1))
          w.state.initialized _ _
          (λ ready.
            begin_method-IsSound w serving request method trace_context h
              (λ _. sym h.knows_init ∙ ready))
          (same_state w h))

  finish-IsSound :
      (w : World) (pending : List Call) (purpose : Purpose) (request : Value) (settled : Settled)
      → IsSound w
      → IsSound (record w {
        state = finish purpose w.state request settled;
        pending = pending;
        inits = returned_inits purpose request settled w.inits;
      })
  unfolding finish complete_init
  finish-IsSound w pending serving request settled h = record {
    knows_init = h.knows_init;
    knows_config = h.knows_config;
    let_in = h.let_in;
    numbered = h.numbered;
  }
  finish-IsSound w pending initializing request (rejected _) h = record {
    knows_init = h.knows_init;
    knows_config = h.knows_config;
    let_in = h.let_in;
    numbered = h.numbered;
  }
  finish-IsSound w pending initializing request (resolved _) h = record {
    knows_init = refl;
    knows_config = refl;
    let_in = IsLetIn-more w.inits request w.calls h.let_in;
    numbered = h.numbered;
  }

  Step-IsSound : {u v : World} → Step d u v → IsSound u → IsSound v
  Step-IsSound (initialize_begins w request trace_context) h =
      begin_method-IsSound w initializing request d.init_method trace_context h
        (λ e. absurd (initializing_ne e))
  Step-IsSound (invoke_begins w id request trace_context) h =
      unfold begin_invoke in
      invoke_found-IsSound w id request trace_context (method_by_id d.methods id) h
  Step-IsSound (settles w before after call settled e) h =
      finish-IsSound w (before ++ after) call.purpose call.request settled h

  pub Reach-IsSound : {w : World} → Reach d w → IsSound w
  Reach-IsSound begin = record {
    knows_init = refl;
    knows_config = refl;
    let_in = tt;
    numbered = unfold AreNumbered in tt;
  }
  Reach-IsSound (next r st) = Step-IsSound st (Reach-IsSound r)

  -- However calls and their ends interleave: a request other than `Init` reaches its handler only
  -- after an `Init` has returned, and the configuration that a handler sees is that of one of the
  -- `Init` requests that have returned, or empty.
  pub calls_after_init : (w : World) → Reach d w → All (IsLetIn w.inits) w.calls
  calls_after_init w r = (Reach-IsSound r).let_in

request_id_of_injective :
    (plugin_id : Text) (m n : ℕ) → request_id_of plugin_id m ≡ request_id_of plugin_id n → m ≡ n
request_id_of_injective plugin_id m n e =
    decimal_injective m n (append_cancel (codes "-") _ _ (append_cancel plugin_id _ _ e))

older_ids :
    (plugin_id id : Text) (n : ℕ) (calls : List Call)
    → AreNumbered plugin_id n calls
    → id ≡ request_id_of plugin_id n
    → All (λ older. older.context.request_id ≢ id) calls
unfolding AreNumbered
older_ids plugin_id id n calls h e = go n calls h (omega arith)
  where
    go :
        (bound : ℕ) (calls : List Call)
        → AreNumbered plugin_id bound calls
        → bound ≤ n
        → All (λ older. older.context.request_id ≢ id) calls
    go bound [] h below = tt
    go bound (call ∷ calls) (m, named, less, rest) below = (
      λ same.
          (let m_n = request_id_of_injective plugin_id m n (sym named ∙ same ∙ e) in omega arith),
      go m calls rest (omega arith),
    )

AreNumbered-HaveDistinctIds :
    (plugin_id : Text) (bound : ℕ) (calls : List Call)
    → AreNumbered plugin_id bound calls
    → HaveDistinctIds calls
unfolding AreNumbered HaveDistinctIds
AreNumbered-HaveDistinctIds plugin_id bound [] h = tt
AreNumbered-HaveDistinctIds plugin_id bound (call ∷ calls) (m, named, less, rest) = (
  older_ids plugin_id call.context.request_id m calls rest named,
  AreNumbered-HaveDistinctIds plugin_id m calls rest,
)

-- However calls and their ends interleave, no two calls of handlers have the same request id.
pub request_ids_distinct {ℓ} :
    {Schema H : Type ℓ} (d : PluginDispatcher Schema H) (w : World)
    → Reach d w
    → HaveDistinctIds w.calls
request_ids_distinct d w r =
    AreNumbered-HaveDistinctIds d.plugin_id (w.state.request_counter + 1) w.calls
      (Reach-IsSound d r).numbered
