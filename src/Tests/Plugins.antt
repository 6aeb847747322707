-- ===== src/Tests/Plugins.antt =====
-- Runs of packages/plugin-codegen/src and of the dispatcher and the socket server of
-- packages/plugin-runtime/src, and the theorems about them at concrete inputs. A schema of the
-- runs is a number, and a message of any schema is the value `undefined`.
use ts_plugins.Common.{
  ℕ, ◌≡◌, refl, false, none, some, List, [], ◌∷◌, ◌++◌, length, All, text_eq, Text, codes,
}
use ts_plugins.Common.Maps
use ts_plugins.Common.Texts.{decimal}
use ts_plugins.Protocol.{
  TraceContext, WireEnvelope, rpc_request, control, pong, create_framework_error_envelope,
  decode_failed,
}
use ts_plugins.Codegen.Contract.{
  MethodLike, ServiceLike, PluginMethodDefinition, PluginServiceDefinition, unary, define_service,
  last_index_of,
}
use ts_plugins.Runtime.Values.{undefined}
use ts_plugins.Runtime.Tracing.{PartialTraceContext, extract_trace_context, valid}
use ts_plugins.Runtime.Metrics.{empty_metrics}
use ts_plugins.Runtime.Dispatcher.{
  resolved, RequestContext, initial_state, PluginDispatcher, begin_invoke, begin_method,
  initializing, complete_init, finish, method_by_id,
}
use ts_plugins.Runtime.Dispatcher.Validation.{Handlers, handler_of}
use ts_plugins.Runtime.Dispatcher.Calls.{
  World, Call, initialize_begins, invoke_begins, settles, Reach, begin, next, IsLetIn,
  HaveDistinctIds, begun,
}
use ts_plugins.Runtime.Dispatcher.Calls.Sound.{calls_after_init, request_ids_distinct}
use ts_plugins.Runtime.Server.{
  Server, ServerState, Readings, reply, coded, with_timeout, handle_envelope,
}
use ts_plugins.Runtime.Server.Replies.{IsReplyTo, handle_envelope-IsReplyTo}
use ts_plugins.Runtime.Server.Counted.{is_request}

abbrev method_like : Text → Text → MethodLike ℕ
method_like name local_name = record {
  name = name;
  local_name = local_name;
  method_kind = unary;
  input_type_name = codes "calc.v1.In";
  output_type_name = codes "calc.v1.Out";
  input = 1;
  output = 2;
}

abbrev calc_service : ServiceLike ℕ
calc_service = record {
  type_name = codes "calc.v1.Calc";
  name = codes "Calc";
  methods =
      method_like (codes "Init") (codes "init") ∷ method_like (codes "Add") (codes "add") ∷ [];
}

abbrev calc_definition : PluginServiceDefinition ℕ
calc_definition = define_service calc_service

no_dot : last_index_of b'.' calc_service.name ≡ none
unfolding last_index_of
no_dot = refl

abbrev trace_text : PartialTraceContext
trace_text = record {
  trace_id = some (codes "0123456789ABCDEF0123456789abcdef");
  span_id = some (codes "0123456789abcdef");
  trace_flags = some 1;
}

abbrev trace : TraceContext
trace = record {
  trace_id = codes "0123456789abcdef0123456789abcdef";
  span_id = codes "0123456789abcdef";
  trace_flags = 1;
}

trace_is_valid : extract_trace_context (some trace_text) ≡ valid trace
unfolding extract_trace_context
trace_is_valid = refl

-- A handler is the number of milliseconds it takes.
abbrev handlers : Handlers ℕ
handlers = record {
  own = (codes "init", some 5) ∷ (codes "add", some 7) ∷ [];
  inherited = (codes "toString", some 0) ∷ [];
}

abbrev methods : List (PluginMethodDefinition ℕ)
methods = calc_definition.methods

abbrev method : Text → Text → ℕ → PluginMethodDefinition ℕ
method name local_name id = record {
  name = name;
  local_name = local_name;
  canonical_name = codes "calc.v1.Calc/" ++ name;
  method_id = id;
  input_type = codes "calc.v1.In";
  output_type = codes "calc.v1.Out";
  input_schema = some 1;
  output_schema = some 2;
}

abbrev pub calc : PluginDispatcher ℕ ℕ
calc = record {
  plugin_id = codes "calc";
  version = codes "1.0.0";
  service_type_name = codes "calc.v1.Calc";
  runtime_instance_id = codes "calc-runtime";
  methods = method (codes "Init") (codes "init") 1 ∷ method (codes "Add") (codes "add") 2 ∷ [];
  handlers = handlers;
  init_method = method (codes "Init") (codes "init") 1;
}

abbrev context : ℕ → Text → Text → RequestContext
context id name request_id = record {
  plugin_id = codes "calc";
  version = codes "1.0.0";
  service = codes "calc.v1.Calc";
  method_id = id;
  method_name = name;
  canonical_name = codes "calc.v1.Calc/" ++ name;
  request_id = request_id;
  runtime_instance_id = codes "calc-runtime";
  config = [];
  trace_context = none;
}

abbrev pub init_call : Call
init_call = record {
  purpose = initializing;
  request = undefined;
  context = context 1 (codes "Init") (codes "calc-1");
}

abbrev world0 : World
world0 = record { state = initial_state; calls = []; pending = []; inits = [] }

-- `Init` begins and returns, then `Add` begins.
abbrev world1 : World
world1 = begun world0 initializing undefined (begin_method calc initial_state calc.init_method none)

init_is_pending : world1.pending ≡ [] ++ init_call ∷ []
unfolding begin_method handler_of extract_trace_context Maps.get decimal
init_is_pending = refl

abbrev world2 : World
world2 = record world1 {
  state = finish initializing world1.state undefined (resolved undefined);
  pending = [];
  inits = undefined ∷ [];
}

abbrev world3 : World
world3 =
    let (purpose, b) = begin_invoke calc world2.state 2 none in begun world2 purpose undefined b

add_is_called : length world3.calls ≡ 2
unfolding begin_method begin_invoke finish complete_init method_by_id handler_of
    extract_trace_context Maps.get decimal
add_is_called = refl

reaches_add : Reach calc world3
unfolding begin_method handler_of extract_trace_context Maps.get decimal
reaches_add =
    next
      (next (next begin (initialize_begins world0 undefined none))
        (settles world1 [] [] init_call (resolved undefined) init_is_pending))
      (invoke_begins world2 2 undefined none)

calls_after_init_example : All (IsLetIn world3.inits) world3.calls
calls_after_init_example = calls_after_init calc world3 reaches_add

request_ids_distinct_example : HaveDistinctIds world3.calls
request_ids_distinct_example = request_ids_distinct calc world3 reaches_add

abbrev pub server : Server ℕ ℕ
server = record {
  dispatcher = calc;
  init_timeout_ms = some 1000;
  request_timeout_ms = some 6;
  run = λ ms request context. some (ms, resolved undefined);
  pool = none;
  decode = λ schema bytes. coded undefined;
  encode = λ schema value. coded [];
}

abbrev fresh_server : ServerState
fresh_server = record {
  dispatcher = initial_state;
  last_init_request = none;
  metrics = some empty_metrics;
}

abbrev ready_server : ServerState
ready_server = record fresh_server { dispatcher = world2.state; last_init_request = some undefined }

abbrev pub readings : Readings
readings = record { queue_before = 0; queue_after = 0; latency_ms = 6; settles_first = false }

abbrev add_request : WireEnvelope
add_request = record {
  protocol_version = 1;
  request_id = 41;
  trace_context = some trace;
  body = rpc_request 2 [];
}

abbrev pong_request : WireEnvelope
pong_request = record add_request { body = control pong }

-- `Add` takes 7 milliseconds and times out after 6.
add_times_out :
    (handle_envelope server ready_server add_request readings).0
    ≡ reply (
        create_framework_error_envelope 41 decode_failed
          (codes "calc.v1.Calc/Add timed out after 6ms")
          (some trace))
unfolding handle_envelope begin_method begin_invoke method_by_id handler_of finish complete_init
    with_timeout extract_trace_context Maps.get decimal
add_times_out = refl

handle_envelope-IsReplyTo_example :
    IsReplyTo 41 (some trace) (handle_envelope server ready_server add_request readings).0
handle_envelope-IsReplyTo_example =
    handle_envelope-IsReplyTo server ready_server add_request readings

pong_is_no_request : is_request server pong_request ≡ false
pong_is_no_request = refl
