-- ===== src/Rpc.antt =====
-- The transport-independent ends of a remote call: src/transport/rpc_requester.cpp and
-- src/transport/rpc_responder.cpp. The subclass's transport functions are parameters, which act
-- on a world `W`. A timeout is the bit pattern of its double, and is only passed on.
pub mod Lifecycle
pub mod EndToEnd
use magpie_cpp.Prelude.{Bool, if◌then◌else◌, Option, true, some, none, false, ℕ, String, ◌<>◌}
use magpie_cpp.Prelude.Result.{◌>>=◌, Result, Eff, timeout_error, throw, std_error, ok}
use magpie_cpp.Value.{is_null, Dict, Value}

-- BaseSchema of include/magpie/schema/base_schema.hpp. The first argument of `wrap` is the id
-- that it takes from getUniqueId().
pub record BaseSchema (W : Type 0) : Type 0 where
  pub dispatch : Value → Eff W Value
  pub wrap : String → String → Dict → Value
  pub unwrap : Value → Result Value

-- RpcRequester's virtual functions.
pub record RequesterTransport (W : Type 0) : Type 0 where
  pub transport_call : Value → ℕ → Eff W Value
  pub transport_close : Eff W (Unit {0})

pub record RpcRequester (W : Type 0) : Type 0 where
  pub name : String
  pub schema : Option (BaseSchema W)
  pub closed : Bool

-- RpcResponder's virtual functions; `C` is the ClientContext.
pub record ResponderTransport (W C : Type 0) : Type 0 where
  pub transport_recv : ℕ → Eff W (Value × C)
  pub transport_send : Value → C → Eff W (Unit {0})
  pub transport_close : Eff W (Unit {0})

pub record RpcResponder (W : Type 0) : Type 0 where
  pub name : String
  pub schema : Option (BaseSchema W)
  pub closed : Bool

abbrev closed_error : {A : Type 0} → String → Result A
closed_error name = throw (std_error (name <> " is closed"))

module _ {W : Type 0} (transport : RequesterTransport W) where
  -- RpcRequester::call(request, timeout). What it catches it throws again.
  unfoldable pub call_request : RpcRequester W → Value → ℕ → Eff W Value
  call_request r request timeout w =
      if r.closed then (closed_error r.name, w) else transport.transport_call request timeout w

  unfoldable pub call_schema :
      RpcRequester W → Option (BaseSchema W) → String → String → Dict → ℕ → Eff W Value
  call_schema r none id method params timeout w =
      (throw (std_error (r.name <> ": schema-based call requires a schema set at construction")), w)
  call_schema r (some schema) id method params timeout w =
      let (response, w') = transport.transport_call (schema.wrap id method params) timeout w in
      (do v ← response; schema.unwrap v, w')

  -- RpcRequester::call(method, params, timeout)
  unfoldable pub call_method : RpcRequester W → String → String → Dict → ℕ → Eff W Value
  unfolding call_schema
  call_method r id method params timeout w =
      if r.closed
      then (closed_error r.name, w)
      else call_schema r r.schema id method params timeout w

  -- RpcRequester::close: what transportClose throws is dropped.
  unfoldable pub close_requester : RpcRequester W → W → RpcRequester W × W
  close_requester r w =
      if r.closed then (r, w) else (record r { closed = true }, (transport.transport_close w).1)

module _ {W C : Type 0} (transport : ResponderTransport W C) where
  unfoldable pub send_response : Value → C → Eff W Bool
  send_response response ctx w =
      let (sent, w') = transport.transport_send response ctx w in (do _ ← sent; ok true, w')

  -- With a schema, a null response is not sent.
  unfoldable pub send_unless_null : Result Value → C → Eff W Bool
  unfolding send_response is_null
  send_unless_null (throw e) ctx w = (throw e, w)
  send_unless_null (ok response) ctx w =
      if is_null response then (ok true, w) else send_response response ctx w

  unfoldable pub send_result : Result Value → C → Eff W Bool
  unfolding send_response
  send_result (throw e) ctx w = (throw e, w)
  send_result (ok response) ctx w = send_response response ctx w

  -- What happens to a request that was received. Neither a handler nor a schema cannot be: the
  -- test stands before the receive.
  unfoldable pub serve_request :
      RpcResponder W → Option (BaseSchema W) → Option (Value → Eff W Value) → Value → C → Eff W Bool
  unfolding send_unless_null send_result
  serve_request r (some schema) handler request ctx w =
      let (response, w') = schema.dispatch request w in send_unless_null response ctx w'
  serve_request r none (some handler) request ctx w =
      let (response, w') = handler request w in send_result response ctx w'
  serve_request r none none request ctx w =
      (throw (std_error (r.name <> ": handler is required when no schema is set")), w)

  unfoldable pub serve_received :
      RpcResponder W → Option (Value → Eff W Value) → Result (Value × C) → Eff W Bool
  unfolding serve_request
  serve_received r handler (ok (request, ctx)) w = serve_request r r.schema handler request ctx w
  serve_received r handler (throw (timeout_error kind m)) w = (ok false, w)
  serve_received r handler (throw e) w = (throw e, w)

  abbrev lacks_both : RpcResponder W → Option (Value → Eff W Value) → Bool
  lacks_both r handler = elim handler [
    | some h ↦ false
    | none ↦ elim r.schema [ some s ↦ false | none ↦ true ]
  ]

  -- RpcResponder::handleOnce, which `respond` calls
  unfoldable pub handle_once : RpcResponder W → Option (Value → Eff W Value) → ℕ → Eff W Bool
  unfolding serve_received
  handle_once r handler timeout w =
      if r.closed
      then (closed_error r.name, w)
      else if lacks_both r handler
      then (throw (std_error (r.name <> ": handler is required when no schema is set")), w)
      else let (received, w') = transport.transport_recv timeout w in
        serve_received r handler received w'

  -- RpcResponder::close
  unfoldable pub close_responder : RpcResponder W → W → RpcResponder W × W
  close_responder r w =
      if r.closed then (r, w) else (record r { closed = true }, (transport.transport_close w).1)
