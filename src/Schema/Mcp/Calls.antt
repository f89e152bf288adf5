-- ===== src/Schema/Mcp/Calls.antt =====
-- What a call of a tool returns: src/schema/mcp_schema.cpp.
use magpie_cpp.Prelude.Map
use magpie_cpp.Prelude.Map.{map_laws}
use magpie_cpp.Schema.Mcp.{
  content, ToolMeta, McpHandler, mcp_dispatch, user, call_named, dict_or_empty, tool_response,
  is_builtin, McpSchema, invoke, Printers, tools_call, register_method,
}
use magpie_cpp.Schema.JsonRpc.Dispatch.{dispatch-wrap}
use magpie_cpp.Prelude.{
  eq_iff, arith, eq_refl, if◌then◌else◌, Bool-cases, ◌≡◌, ◌⊎◌, ◌≢◌, ℕ, Option, String, true, suc,
  some, inr, inl, false,
}
use magpie_cpp.Value.{dict, is_null, find, Value, Dict, string}
use magpie_cpp.Prelude.Result.{what, Exception, throw, ok, Ensures, Eff}
use magpie_cpp.Schema.JsonRpc.{make_result, wrap, MethodEntry, reply, object_schema}

module _ (print : Printers) {W : Type 0} (name : String) where
  -- Registering a method under a name of its own makes it a tool: tools/call with that name runs
  -- the handler on the arguments of the call (none where they are missing or no object), and
  -- answers with its result or its exception.
  pub register_method-tools_call :
      (f : Dict → Eff W Value) (description : String) (input_schema output_schema : Value)
      (s : McpSchema W) (n : ℕ) (params : Dict) (w : W)
      → is_builtin name ≡ false
      → find "name" params ≡ some (string name)
      → Ensures
          (λ s'. invoke print (suc (suc n)) s' tools_call params w ≡ (
            tool_response print
                (record {
                  description = description;
                  input_schema = if is_null input_schema then object_schema else input_schema;
                  output_schema = output_schema;
                })
                (f (dict_or_empty (find "arguments" params)) w).0,
            (f (dict_or_empty (find "arguments" params)) w).1,
          ))
          (register_method name (some f) description input_schema output_schema s)
  unfolding register_method invoke
  register_method-tools_call f description input_schema output_schema s n params w own named =
      rw (own, Map.find-set, eq_refl)
        (rw (named, call_named, Map.find-set, eq_refl, Map.find-set, eq_refl))

  -- Registering a method succeeds and leaves every other tool as it was; under the name of an MCP
  -- method it leaves all of them.
  pub register_method-other_tools :
      (handler : Option (Dict → Eff W Value)) (description : String)
      (input_schema output_schema : Value) (s : McpSchema W) (j : String)
      → ((j ≢ name) ⊎ (is_builtin name ≡ true))
      → Ensures
          (λ s'. Map.find j s'.tools ≡ Map.find j s.tools)
          (register_method name handler description input_schema output_schema s)
  unfolding register_method
  register_method-other_tools handler description input_schema output_schema s j (inr e) = rw e
  register_method-other_tools handler description input_schema output_schema s j (inl other) =
      elim (Bool-cases (is_builtin name)) [
        | inl e ↦ rw e
        | inr e ↦ rw (e, Map.find-set, eq_refl) (simp map_laws (ground (arith, eq_iff name j)))
      ]

  -- A tool that throws is no JSON-RPC error: the client gets a result that is marked as an error
  -- and holds the text of the exception.
  pub mcp_dispatch-tool_error :
      (s : McpSchema W) (id : String) (params : Dict) (w : W)
      (caller tool : MethodEntry (McpHandler W)) (meta : ToolMeta) (f : Dict → Eff W Value)
      (x : Exception) (msg : String)
      → Map.find "tools/call" s.methods ≡ some caller
      → caller.handler ≡ some tools_call
      → find "name" params ≡ some (string name)
      → Map.find name s.tools ≡ some meta
      → Map.find name s.methods ≡ some tool
      → tool.handler ≡ some (user f)
      → (f (dict_or_empty (find "arguments" params)) w).0 ≡ throw x
      → what x ≡ some msg
      → (mcp_dispatch print s (wrap id "tools/call" params) w).0
        ≡ ok (make_result (string id) (dict (content msg true)))
  unfolding mcp_dispatch reply
  mcp_dispatch-tool_error s id params w caller tool meta f x msg has calls named listed found runs
        threw says =
      rw (
        dispatch-wrap (invoke print 2 s) s.methods id "tools/call" params w caller tools_call has
            calls,
        named,
        listed,
        found,
        runs,
        threw,
        says,
      )
