-- ===== src/Schema/JsonRpc.antt =====
-- JsonRpcSchema of src/schema/json_rpc_schema.cpp: the method table, the client's envelopes and
-- the dispatch of requests. A handler acts on a world `W` (its own state and all that it calls).
-- How a handler is held is a parameter `H`, with `invoke` to call it: a std::function for
-- JsonRpcSchema itself, and the handlers of Mcp for its subclass.
pub mod Dispatch
pub mod Batch
use magpie_cpp.Prelude.{ℕ, String, ◌<>◌, Bool, Option, none, some, if◌then◌else◌}
use magpie_cpp.Prelude.Int.{ℤ, negsuc, to_int32}
use magpie_cpp.Prelude.Map
use magpie_cpp.Prelude.Map.{Map}
use magpie_cpp.Prelude.Result.{
  Exception, std_error, json_rpc_error, what, Result, ok, throw, ◌>>=◌, Eff,
}
use magpie_cpp.Value.{
  Value, Values, Dict, null, int, string, list, dict, nil, empty, entry, find, set, is_null,
  is_empty, push_back, as_int, as_string,
}

-- The error codes of json_rpc_schema.hpp: -32600, -32601, -32602 and -32603.
abbrev pub invalid_request : ℤ
invalid_request = negsuc 32599

abbrev pub method_not_found : ℤ
method_not_found = negsuc 32600

abbrev pub invalid_params : ℤ
invalid_params = negsuc 32601

abbrev pub internal_error : ℤ
internal_error = negsuc 32602

pub record MethodEntry (H : Type 0) : Type 0 where
  pub handler : Option H
  pub description : String
  pub input_schema : Value
  pub output_schema : Value

abbrev pub object_schema : Value
object_schema = dict (entry "type" (string "object") empty)

-- JsonRpcSchema::register_method
unfoldable pub register_method :
    {H : Type 0}
    → String
    → Option H
    → String
    → Value
    → Value
    → Map (MethodEntry H)
    → Map (MethodEntry H)
unfolding is_null
register_method name handler description input_schema output_schema methods =
    Map.set name
      (record {
        handler = handler;
        description = description;
        input_schema = if is_null input_schema then object_schema else input_schema;
        output_schema = output_schema;
      })
      methods

-- JsonRpcSchema::set_handler; `found` is what the table holds.
unfoldable pub set_found :
    {H : Type 0}
    → String
    → Option H
    → Map (MethodEntry H)
    → Option (MethodEntry H)
    → Result (Map (MethodEntry H))
set_found name handler methods none =
    throw (std_error ("JsonRpcSchema: method '" <> (name <> "' is not registered")))
set_found name handler methods (some e) = ok (Map.set name (record e { handler = handler }) methods)

unfoldable pub set_handler :
    {H : Type 0} → String → Option H → Map (MethodEntry H) → Result (Map (MethodEntry H))
unfolding set_found
set_handler name handler methods = set_found name handler methods (Map.find name methods)

-- JsonRpcSchema::wrap; the id is what getUniqueId() returned.
unfoldable pub wrap : String → String → Dict → Value
unfolding set is_empty
wrap id method params =
    let req : Dict =
      set "id" (string id) (set "method" (string method) (set "jsonrpc" (string "2.0") empty)) in
    dict (if is_empty params then req else set "params" (dict params) req)

-- The code and the message of an error object; each may have a wrong type.
unfoldable pub code_of : Option Value → Result ℤ
unfolding as_int to_int32
code_of none = ok internal_error
code_of (some c) = do z ← as_int c; ok (to_int32 z)

unfoldable pub message_of : Option Value → Result String
unfolding as_string
message_of none = ok "Unknown error"
message_of (some m) = as_string m

unfoldable pub raise_error : Dict → Result Value
unfolding code_of message_of
raise_error err = do
  code ← code_of (find "code" err)
  msg ← message_of (find "message" err)
  throw (json_rpc_error code msg)

unfoldable pub or_null : Option Value → Value
or_null none = null
or_null (some v) = v

-- JsonRpcSchema::unwrap
unfoldable pub unwrap_fields : Option Value → Dict → Result Value
unfolding raise_error or_null
unwrap_fields (some (dict err)) d = raise_error err
unwrap_fields _ d = ok (or_null (find "result" d))

unfoldable pub unwrap : Value → Result Value
unfolding unwrap_fields
unwrap (dict d) = unwrap_fields (find "error" d) d
unwrap _ = throw (json_rpc_error invalid_request "Invalid response: not an object")

unfoldable pub make_error : Value → ℤ → String → Value
unfolding set
make_error id code msg = dict (
    set "id" id (
      set "error" (dict (set "message" (string msg) (set "code" (int code) empty)))
        (set "jsonrpc" (string "2.0") empty)))

unfoldable pub make_result : Value → Value → Value
unfolding set
make_result id result =
    dict (set "id" id (set "result" result (set "jsonrpc" (string "2.0") empty)))

-- What is sent for a handler that returned or threw.
unfoldable pub reply_exception : Value → Exception → Option String → Result Value
reply_exception id e none = throw e
reply_exception id e (some msg) = ok (make_error id internal_error msg)

unfoldable pub reply : Value → Result Value → Result Value
unfolding reply_exception is_null what
reply id (ok result) = ok (if is_null id then null else make_result id result)
reply id (throw e) = reply_exception id e (what e)

-- Nothing for a notification, and else an error.
unfoldable pub not_found : Value → String → Value
unfolding is_null
not_found id msg = if is_null id then null else make_error id method_not_found msg

-- The list of the responses, or null if there are none.
unfoldable pub batch_reply : Values → Value
batch_reply nil = null
batch_reply responses = list responses

module _ {W H : Type 0} (invoke : H → Dict → Eff W Value) (methods : Map (MethodEntry H)) where
  unfoldable pub run_handler : Value → H → Dict → Eff W Value
  unfolding reply
  run_handler id h params w = let (r, w') = invoke h params w in (reply id r, w')

  unfoldable pub with_params : Value → H → Option Value → Eff W Value
  unfolding run_handler
  with_params id h none w = run_handler id h empty w
  with_params id h (some (dict params)) w = run_handler id h params w
  with_params id h (some _) w = (ok (make_error id invalid_params "'params' must be an object"), w)

  unfoldable pub with_handler : Value → String → Option H → Dict → Eff W Value
  unfolding with_params not_found
  with_handler id name none d w = (ok (not_found id ("Method not implemented: " <> name)), w)
  with_handler id name (some h) d w = with_params id h (find "params" d) w

  unfoldable pub with_entry : Value → String → Option (MethodEntry H) → Dict → Eff W Value
  unfolding with_handler
  with_entry id name none d w = (ok (not_found id ("Method not found: " <> name)), w)
  with_entry id name (some e) d w = with_handler id name e.handler d w

  unfoldable pub with_method : Value → Option Value → Dict → Eff W Value
  unfolding with_entry
  with_method id (some (string name)) d w = with_entry id name (Map.find name methods) d w
  with_method id _ d w = (ok (make_error id invalid_request "Missing or invalid 'method' field"), w)

  -- JsonRpcSchema::dispatch_single
  unfoldable pub dispatch_single : Value → Eff W Value
  unfolding with_method or_null
  dispatch_single (dict d) w = with_method (or_null (find "id" d)) (find "method" d) d w
  dispatch_single _ w = (ok (make_error null invalid_request "Request must be an object"), w)

  -- The loop of a batch, with the responses so far.
  unfoldable pub dispatch_items : Values → Values → Eff W Values
  unfolding dispatch_single is_null push_back
  dispatch_items Values.nil responses w = (ok responses, w)
  dispatch_items (Values.cons item rest) responses w =
      let (r, w') = dispatch_single item w in
      elim r [
        | ok v ↦ dispatch_items rest (if is_null v then responses else push_back responses v) w'
        | throw e ↦ (throw e, w')
      ]

  -- JsonRpcSchema::dispatch
  unfoldable pub dispatch : Value → Eff W Value
  unfolding dispatch_items dispatch_single batch_reply
  dispatch (list items) w =
      let (r, w') = dispatch_items items nil w in (do responses ← r; ok (batch_reply responses), w')
  dispatch request w = dispatch_single request w
