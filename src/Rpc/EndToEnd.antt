-- ===== src/Rpc/EndToEnd.antt =====
-- A call by name, from the client's `call` through the dispatch on the server and back.
use magpie_cpp.Prelude.Map
use magpie_cpp.Prelude.Map.{Map}
use magpie_cpp.Prelude.{ap, ℕ, arith, ◌≡◌, String, Option, some, refl, none, false}
use magpie_cpp.Prelude.Result.{
  ◌>>=◌, what, Eff, Result, Exception, unknown, timeout_error, throw, std_error, ok, json_rpc_error,
}
use magpie_cpp.Value.{find, Value, Dict, string}
use magpie_cpp.Schema.JsonRpc.{
  wrap, dispatch, unwrap, internal_error, MethodEntry, make_error, make_result, reply,
}
use magpie_cpp.Prelude.Int.{to_int32-eq_of_IsInt32, IsInt32, ℤ}
use magpie_cpp.Schema.JsonRpc.Dispatch.{dispatch-wrap}
use magpie_cpp.Rpc.{RpcRequester, RequesterTransport, call_method, BaseSchema}

-- JsonRpcSchema as a BaseSchema.
unfoldable pub json_rpc_schema :
    {W H : Type 0} → (H → Dict → Eff W Value) → Map (MethodEntry H) → BaseSchema W
json_rpc_schema invoke methods = record {
  dispatch = dispatch invoke methods;
  wrap = wrap;
  unwrap = unwrap;
}

-- What a client gets to see of a handler's result: the value, or the text of the exception under
-- the code of an internal error.
abbrev seen_exception : Exception → Option String → Result Value
seen_exception e none = throw e
seen_exception e (some msg) = throw (json_rpc_error internal_error msg)

abbrev pub seen : Result Value → Result Value
seen (ok v) = ok v
seen (throw e) = seen_exception e (what e)

unwrap-make_result : (id result : Value) → unwrap (make_result id result) ≡ ok result
unfolding unwrap make_result find
unwrap-make_result id result = refl

unwrap-make_error :
    (id : Value) (code : ℤ) (msg : String)
    → IsInt32 code
    → unwrap (make_error id code msg) ≡ throw (json_rpc_error code msg)
unfolding unwrap make_error find
unwrap-make_error id code msg h = rw (to_int32-eq_of_IsInt32 code h)

unwrap-reply : (id : String) (r : Result Value) → (do v ← reply (string id) r; unwrap v) ≡ seen r
unfolding reply what
unwrap-reply id (ok v) = unwrap-make_result (string id) v
unwrap-reply id (throw unknown) = refl
unwrap-reply id (throw (std_error m)) = unwrap-make_error (string id) internal_error m (omega arith)
unwrap-reply id (throw (timeout_error k m)) =
    unwrap-make_error (string id) internal_error m (omega arith)
unwrap-reply id (throw (json_rpc_error c m)) =
    unwrap-make_error (string id) internal_error m (omega arith)

module _ {W H : Type 0} (invoke : H → Dict → Eff W Value) (methods : Map (MethodEntry H)) where
  -- Where the transport brings the client's envelope to the server's dispatch and the answer
  -- back, a call of a registered method runs its handler once, on the parameters of the call, and
  -- returns its value, or throws a JsonRpcError with the text of what the handler threw.
  pub call_method-runs_handler :
      (transport : RequesterTransport W) (r : RpcRequester W) (id name : String) (params : Dict)
      (timeout : ℕ) (w : W) (e : MethodEntry H) (h : H)
      → r.closed ≡ false
      → r.schema ≡ some (json_rpc_schema invoke methods)
      → ((request : Value) (w₁ : W)
          → transport.transport_call request timeout w₁ ≡ dispatch invoke methods request w₁)
      → Map.find name methods ≡ some e
      → e.handler ≡ some h
      → call_method transport r id name params timeout w
        ≡ (seen (invoke h params w).0, (invoke h params w).1)
  unfolding call_method json_rpc_schema
  call_method-runs_handler transport r id name params timeout w e h opened has delivers found
        bound =
      rw (opened, has, delivers, dispatch-wrap invoke methods id name params w e h found bound)
        (ap (λ (s : Result Value). (s, (invoke h params w).1))
          (unwrap-reply id (invoke h params w).0))
