-- ===== src/Examples/Rpc.antt =====
-- Remote calls at concrete inputs. The world is the number of messages that were sent.
use magpie_cpp.Prelude.Map
use magpie_cpp.Prelude.Map.{Map}
use magpie_cpp.Rpc
use magpie_cpp.Rpc.EndToEnd
use magpie_cpp.Schema.JsonRpc.{internal_error, MethodEntry, dispatch}
use magpie_cpp.Prelude.{String, ◌≡◌, ℕ, ◌∷◌, ◌+◌, some, refl, false, []}
use magpie_cpp.Prelude.Result.{Eff, what, timeout_error, throw, ok, json_rpc_error, ack_timeout}
use magpie_cpp.Value.{Value, Dict, null, empty, dict}

abbrev Handler : Type 0
Handler = Dict → Eff ℕ Value

abbrev apply : Handler → Dict → Eff ℕ Value
apply h = h

abbrev failing : Handler
failing params sent = (throw (timeout_error ack_timeout "no ack"), sent + 1)

abbrev methods : Map (MethodEntry Handler)
methods =
    (
      "fail",
      record {
        handler = some failing;
        description = "";
        input_schema = null;
        output_schema = null;
      },
    )
    ∷ []

abbrev transport : Rpc.RequesterTransport ℕ
transport = record {
  transport_call = λ request timeout. dispatch apply methods request;
  transport_close = λ w. (ok tt, w + 1);
}

abbrev client : Rpc.RpcRequester ℕ
client = record {
  name = "client";
  schema = some (EndToEnd.json_rpc_schema apply methods);
  closed = false;
}

call_method-runs_handler_example :
    Rpc.call_method transport client "id1" "fail" empty 0 3
    ≡ (throw (json_rpc_error internal_error "no ack"), 4)
unfolding Map.find what
call_method-runs_handler_example =
    EndToEnd.call_method-runs_handler apply methods transport client "id1" "fail" empty 0 3 _
      failing refl refl (λ request w. refl) refl refl

-- A server that always receives `null` and counts what it sends.
abbrev server_transport : Rpc.ResponderTransport ℕ String
server_transport = record {
  transport_recv = λ timeout w. (ok (null, "client"), w);
  transport_send = λ response ctx w. (ok tt, w + 1);
  transport_close = λ w. (ok tt, w);
}

abbrev echo_schema : Rpc.BaseSchema ℕ
echo_schema = record {
  dispatch = λ request w. (ok request, w);
  wrap = λ id method params. dict params;
  unwrap = λ response. ok response;
}

abbrev server : Rpc.RpcResponder ℕ
server = record { name = "server"; schema = some echo_schema; closed = false }
