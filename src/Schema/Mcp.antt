-- ===== src/Schema/Mcp.antt =====
-- McpSchema of src/schema/mcp_schema.cpp: the MCP methods and the tools on top of JsonRpcSchema.
-- The lambdas that capture `this` are constructors of `McpHandler`, which `invoke` interprets.
pub mod Tools
pub mod Calls
use mathlib.Core.Option
use magpie_cpp.Prelude.Map
use magpie_cpp.Prelude.Map.{Map}
use magpie_cpp.Schema.JsonRpc
use magpie_cpp.Schema.JsonRpc.{MethodEntry, object_schema}
use magpie_cpp.Prelude.{
  zero, ◌∷◌, not, ◌<>◌, ◌&&◌, ◌||◌, ◌==◌, suc, if◌then◌else◌, Bool, ℕ, Option, String, true, some,
  none, false, [],
}
use magpie_cpp.Value.{
  find, set, Values, is_null, Value, Dict, string, null, nil, list, int, entry, empty, double, dict,
  cons, bool,
}
use magpie_cpp.Prelude.Result.{what, ◌>>=◌, Result, Eff, Exception, unknown, throw, std_error, ok}
use magpie_cpp.Value.Debug.{to_debug_string, NumberPrinter}
use magpie_cpp.Prelude.Int.{ℤ}

pub data McpHandler (W : Type 0) : Type 0 where
  user : (Dict → Eff W Value) → McpHandler W
  initialize notified ping tools_list tools_call : McpHandler W

pub record ToolMeta : Type 0 where
  pub description : String
  pub input_schema : Value
  pub output_schema : Value

pub record McpSchema (W : Type 0) : Type 0 where
  pub methods : Map (MethodEntry (McpHandler W))
  pub tools : Map ToolMeta
  pub server_name : String
  pub server_version : String

-- MCP_PROTOCOL_VERSION
abbrev pub mcp_protocol_version : String
mcp_protocol_version = "2024-11-05"

-- BUILTIN_METHODS.count(name)
unfoldable pub is_builtin : String → Bool
is_builtin name =
    (name == "initialize")
    || ((name == "notifications/initialized")
        || ((name == "notifications/cancelled")
            || ((name == "tools/list") || ((name == "tools/call") || (name == "ping")))))

abbrev builtin_entry : {W : Type 0} → McpHandler W → String → Value → MethodEntry (McpHandler W)
builtin_entry handler description input_schema = record {
  handler = some handler;
  description = description;
  input_schema = input_schema;
  output_schema = null;
}

-- The input schema of tools/call: an object with a required "name" and with "arguments".
abbrev typed : String → Value
typed t = dict (entry "type" (string t) empty)

abbrev call_schema : Value
call_schema = dict (
    entry "properties"
      (dict (entry "arguments" (typed "object") (entry "name" (typed "string") empty)))
      (entry "required" (list (cons (string "name") nil)) (entry "type" (string "object") empty)))

-- McpSchema::register_builtins
unfoldable pub register_builtins :
    {W : Type 0} → Map (MethodEntry (McpHandler W)) → Map (MethodEntry (McpHandler W))
register_builtins methods =
    Map.set "tools/call" (builtin_entry tools_call "Call a tool by name" call_schema) (
      Map.set "tools/list" (builtin_entry tools_list "List available MCP tools" object_schema) (
        Map.set "ping" (builtin_entry ping "MCP ping" object_schema) (
          Map.set "notifications/cancelled" (builtin_entry notified "" object_schema) (
            Map.set "notifications/initialized" (builtin_entry notified "" object_schema) (
              Map.set "initialize"
                (builtin_entry initialize "MCP initialize handshake" object_schema) methods)))))

-- McpSchema::McpSchema
unfoldable pub new_schema : {W : Type 0} → String → String → McpSchema W
unfolding register_builtins
new_schema name version = record {
  methods = register_builtins [];
  tools = [];
  server_name = name;
  server_version = version;
}

-- tools_[name], from the entry that methods_.at(name) gives back
unfoldable pub with_tool :
    {W : Type 0} → String → Option (MethodEntry (McpHandler W)) → McpSchema W → Result (McpSchema W)
with_tool name none s = throw (std_error "_Map_base::at")
with_tool name (some e) s = ok (record s {
  tools =
      Map.set name
        (record {
          description = e.description;
          input_schema = e.input_schema;
          output_schema = e.output_schema;
        })
        s.tools;
})

-- McpSchema::register_method
unfoldable pub register_method :
    {W : Type 0}
    → String
    → Option (Dict → Eff W Value)
    → String
    → Value
    → Value
    → McpSchema W
    → Result (McpSchema W)
unfolding JsonRpc.register_method is_builtin with_tool
register_method name handler description input_schema output_schema s =
    let methods =
      JsonRpc.register_method name (Option.map user handler) description input_schema output_schema
        s.methods in
    let s' = record s { methods = methods } in
    if is_builtin name then ok s' else with_tool name (Map.find name methods) s'

-- JsonRpcSchema::set_handler on this schema
unfoldable pub set_handler :
    {W : Type 0} → String → Option (Dict → Eff W Value) → McpSchema W → Result (McpSchema W)
unfolding JsonRpc.set_handler
set_handler name handler s = do
  methods ← JsonRpc.set_handler name (Option.map user handler) s.methods
  ok (record s { methods = methods })

-- McpSchema::mcp_initialize
unfoldable pub mcp_initialize : {W : Type 0} → McpSchema W → Value
mcp_initialize s = dict (
    entry "capabilities" (dict (entry "tools" (dict empty) empty)) (
      entry "protocolVersion" (string mcp_protocol_version) (
        entry "serverInfo"
          (dict
            (entry "name" (string s.server_name) (entry "version" (string s.server_version) empty)))
          empty)))

-- One element of the list of tools.
unfoldable pub tool_entry : String → ToolMeta → Value
unfolding is_null set
tool_entry name meta =
    let d : Dict =
      set "inputSchema" meta.input_schema
        (set "description" (string meta.description) (set "name" (string name) empty)) in
    dict (if is_null meta.output_schema then d else set "outputSchema" meta.output_schema d)

unfoldable pub tool_entries : Map ToolMeta → Values
unfolding tool_entry
tool_entries [] = nil
tool_entries ((name, meta) ∷ rest) = cons (tool_entry name meta) (tool_entries rest)

-- McpSchema::mcp_tools_list
unfoldable pub mcp_tools_list : {W : Type 0} → McpSchema W → Value
unfolding tool_entries
mcp_tools_list s = dict (entry "tools" (list (tool_entries s.tools)) empty)

-- {"content": [{"type": "text", "text": text}], "isError": is_error}
unfoldable pub content : String → Bool → Dict
content text is_error =
    entry "content"
      (list (cons (dict (entry "text" (string text) (entry "type" (string "text") empty))) nil))
      (entry "isError" (bool is_error) empty)

unfoldable pub is_dict : Value → Bool
is_dict (dict d) = true
is_dict _ = false

unfoldable pub dict_or_empty : Option Value → Dict
dict_or_empty (some (dict d)) = d
dict_or_empty _ = empty

-- What std::to_string and a stream make of a number.
pub record Printers : Type 0 where
  pub stream : NumberPrinter
  pub int_to_string : ℤ → String
  pub double_to_string : ℕ → String

-- meth_it->second.handler, if the method is there
unfoldable pub handler_of :
    {W : Type 0} → Option (MethodEntry (McpHandler W)) → Option (McpHandler W)
handler_of none = none
handler_of (some e) = e.handler

module _ (print : Printers) where
  -- The text of a tool's result.
  unfoldable pub result_text : Value → String
  unfolding to_debug_string
  result_text null = "null"
  result_text (bool b) = if b then "true" else "false"
  result_text (int z) = print.int_to_string z
  result_text (double x) = print.double_to_string x
  result_text (string s) = s
  result_text v = to_debug_string print.stream v 0

  unfoldable pub tool_exception : Exception → Option String → Result Value
  unfolding content
  tool_exception e none = throw e
  tool_exception e (some msg) = ok (dict (content msg true))

  -- The response for a tool that returned or threw.
  unfoldable pub tool_response : ToolMeta → Result Value → Result Value
  unfolding content result_text is_dict is_null set tool_exception what
  tool_response meta (throw e) = tool_exception e (what e)
  tool_response meta (ok result) =
      let d : Dict = content (result_text result) false in
      ok (
        dict (
          if is_dict result && not (is_null meta.output_schema)
          then set "structuredContent" result d
          else d))

  module _ {W : Type 0} (call : McpHandler W → Dict → Eff W Value) (s : McpSchema W) where
    unfoldable pub call_tool : String → Option ToolMeta → Option (McpHandler W) → Dict → Eff W Value
    unfolding tool_response dict_or_empty
    call_tool name (some meta) (some h) params w =
        let (r, w') = call h (dict_or_empty (find "arguments" params)) w in
        (tool_response meta r, w')
    call_tool name _ _ params w = (ok (dict (content ("Unknown tool: " <> name) true)), w)

    unfoldable pub call_named : Option Value → Dict → Eff W Value
    unfolding call_tool handler_of
    call_named (some (string name)) params w =
        call_tool name (Map.find name s.tools) (handler_of (Map.find name s.methods)) params w
    call_named _ params w = (ok (dict (content "'name' is required" true)), w)

    -- McpSchema::mcp_tools_call
    unfoldable pub mcp_tools_call : Dict → Eff W Value
    unfolding call_named
    mcp_tools_call params w = call_named (find "name" params) params w

  -- Calling what a method entry holds. The depth bounds how often tools/call can call itself as a
  -- tool; Schema/Mcp/Tools.antt shows that it never does.
  unfoldable pub invoke : {W : Type 0} → ℕ → McpSchema W → McpHandler W → Dict → Eff W Value
  unfolding mcp_initialize mcp_tools_list mcp_tools_call
  invoke zero s h params w = (throw unknown, w)
  invoke (suc n) s (user f) params w = f params w
  invoke (suc n) s initialize params w = (ok (mcp_initialize s), w)
  invoke (suc n) s notified params w = (ok null, w)
  invoke (suc n) s ping params w = (ok (dict empty), w)
  invoke (suc n) s tools_list params w = (ok (mcp_tools_list s), w)
  invoke (suc n) s tools_call params w = mcp_tools_call (invoke n s) s params w

  -- McpSchema's dispatch
  unfoldable pub mcp_dispatch : {W : Type 0} → McpSchema W → Value → Eff W Value
  unfolding invoke
  mcp_dispatch s = JsonRpc.dispatch (invoke 2 s) s.methods
