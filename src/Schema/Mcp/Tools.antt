-- ===== src/Schema/Mcp/Tools.antt =====
-- The tools of src/schema/mcp_schema.cpp: which handlers they reach, and what a call returns.
use mathlib.Core.Option
use magpie_cpp.Prelude.Map
use magpie_cpp.Prelude.Map.{map_laws}
use magpie_cpp.Prelude.{
  ◌<>◌, ℕ, suc, refl, eq_iff, arith, eq_refl, Bool-cases, ◌≡◌, String, Option, some, none, inr, inl,
  false,
}
use magpie_cpp.Prelude.Result.{throw, std_error, Ensures, Eff}
use magpie_cpp.Schema.Mcp.{
  invoke, call_named, handler_of, call_tool, Printers, set_handler, tools_call, register_method,
  is_builtin, ToolMeta, McpHandler, new_schema, McpSchema, user,
}
use magpie_cpp.Schema.JsonRpc.{MethodEntry}
use magpie_cpp.Value.{find, string, Value, Dict}

-- A registered method whose handler, if it has one, came from the user.
abbrev pub HandlerIsUser : {W : Type 0} → Option (McpHandler W) → Type 0
HandlerIsUser none = Unit
HandlerIsUser (some (user f)) = Unit
HandlerIsUser (some _) = ⊥

abbrev pub EntryIsUser : {W : Type 0} → Option (MethodEntry (McpHandler W)) → Type 0
EntryIsUser none = ⊥
EntryIsUser (some e) = HandlerIsUser e.handler

-- Every tool is a registered method of the user, and none has the name of an MCP method.
pub record ToolsAreUser {W : Type 0} (s : McpSchema W) : Type 0 where
  pub at :
      (name : String) (meta : ToolMeta)
      → Map.find name s.tools ≡ some meta
      → (is_builtin name ≡ false) × EntryIsUser (Map.find name s.methods)

pub new_schema-ToolsAreUser :
    {W : Type 0} (name version : String) → ToolsAreUser {W = W} (new_schema name version)
unfolding new_schema Map.find
new_schema-ToolsAreUser name version = record { at = λ j meta h. cc }

map-user-HandlerIsUser :
    {W : Type 0} (h : Option (Dict → Eff W Value)) → HandlerIsUser (Option.map user h)
map-user-HandlerIsUser none = tt
map-user-HandlerIsUser (some f) = tt

module _ {W : Type 0} (name : String) (handler : Option (Dict → Eff W Value)) where
  -- A write of a user's entry to the method table.
  user_entry-at :
      (e : MethodEntry (McpHandler W)) (s : McpSchema W) (j : String) (meta : ToolMeta)
      → HandlerIsUser e.handler
      → ToolsAreUser s
      → Map.find j s.tools ≡ some meta
      → (is_builtin j ≡ false) × EntryIsUser (Map.find j (Map.set name e s.methods))
  user_entry-at e s j meta user_handler v h =
      simp map_laws (ground (arith, v.at j meta h, eq_iff name j))

  -- The same with a write to the tools.
  user_tool-at :
      (e : MethodEntry (McpHandler W)) (t : ToolMeta) (s : McpSchema W) (j : String)
      (meta : ToolMeta)
      → is_builtin name ≡ false
      → HandlerIsUser e.handler
      → ToolsAreUser s
      → Map.find j (Map.set name t s.tools) ≡ some meta
      → (is_builtin j ≡ false) × EntryIsUser (Map.find j (Map.set name e s.methods))
  user_tool-at e t s j meta own user_handler v h =
      simp map_laws (ground (arith, v.at j meta, simp map_laws at h, eq_iff name j))

  -- Registering a method, with a handler or with none, under whatever name, succeeds and keeps
  -- the tools the user's own.
  pub register_method-ToolsAreUser :
      (description : String) (input_schema output_schema : Value) (s : McpSchema W)
      → ToolsAreUser s
      → Ensures ToolsAreUser (register_method name handler description input_schema output_schema s)
  unfolding register_method
  register_method-ToolsAreUser description input_schema output_schema s v =
      elim (Bool-cases (is_builtin name)) [
        | inl e ↦ rw e (record {
          at = λ j meta h. user_entry-at _ s j meta (map-user-HandlerIsUser handler) v h;
        })
        | inr e ↦
            rw (e, Map.find-set, eq_refl)
              (record {
                at = λ j meta h. user_tool-at _ _ s j meta e (map-user-HandlerIsUser handler) v h;
              })
      ]

  -- Attaching a handler to a registered name, also that of an MCP method, succeeds and keeps the
  -- tools the user's own.
  pub set_handler-ToolsAreUser :
      (s : McpSchema W) (e : MethodEntry (McpHandler W))
      → ToolsAreUser s
      → Map.find name s.methods ≡ some e
      → Ensures ToolsAreUser (set_handler name handler s)
  unfolding set_handler
  set_handler-ToolsAreUser s e v found =
      rw found
        (record { at = λ j meta h. user_entry-at _ s j meta (map-user-HandlerIsUser handler) v h })

  -- Whatever is registered, and whatever handler is attached to a registered name, also that of an
  -- MCP method: both succeed and keep the tools the user's own.
  pub registration-ToolsAreUser :
      (description : String) (input_schema output_schema : Value) (s : McpSchema W)
      (e : MethodEntry (McpHandler W))
      → ToolsAreUser s
      → Map.find name s.methods ≡ some e
      → Ensures ToolsAreUser (register_method name handler description input_schema output_schema s)
        × Ensures ToolsAreUser (set_handler name handler s)
  registration-ToolsAreUser description input_schema output_schema s e v found = (
    register_method-ToolsAreUser description input_schema output_schema s v,
    set_handler-ToolsAreUser s e v found,
  )

  pub set_handler-unregistered :
      (s : McpSchema W)
      → Map.find name s.methods ≡ none
      → set_handler name handler s
        ≡ throw (std_error ("JsonRpcSchema: method '" <> (name <> "' is not registered")))
  unfolding set_handler
  set_handler-unregistered s missing = rw missing

module _ (print : Printers) {W : Type 0} (s : McpSchema W) (v : ToolsAreUser s) where
  call_tool-depth :
      (n : ℕ) (name : String) (tool : Option ToolMeta) (h : Option (McpHandler W)) (params : Dict)
      (w : W)
      → ((meta : ToolMeta) → tool ≡ some meta → HandlerIsUser h)
      → call_tool print (invoke print (suc n) s) s name tool h params w
        ≡ call_tool print (invoke print 1 s) s name tool h params w
  unfolding call_tool invoke
  call_tool-depth n name none h params w user_only = refl
  call_tool-depth n name (some meta) none params w user_only = refl
  call_tool-depth n name (some meta) (some (user f)) params w user_only = refl
  call_tool-depth n name (some meta) (some _) params w user_only = absurd (user_only meta refl)

  handler_of-user :
      (e : Option (MethodEntry (McpHandler W))) → EntryIsUser e → HandlerIsUser (handler_of e)
  unfolding handler_of
  handler_of-user none h = tt
  handler_of-user (some e) h = h

  call_named-depth :
      (n : ℕ) (name : Option Value) (params : Dict) (w : W)
      → call_named print (invoke print (suc n) s) s name params w
        ≡ call_named print (invoke print 1 s) s name params w
  unfolding call_named
  call_named-depth n (some (string name)) params w =
      call_tool-depth n name _ _ params w
        λ meta h. handler_of-user (Map.find name s.methods) (v.at name meta h).1
  call_named-depth n _ params w = refl

  -- No tool is itself a call of a tool: two levels of calls are enough, whatever is called.
  pub invoke-depth :
      (n : ℕ) (h : McpHandler W) (params : Dict) (w : W)
      → invoke print (suc (suc n)) s h params w ≡ invoke print 2 s h params w
  unfolding invoke
  invoke-depth n tools_call params w = call_named-depth n (find "name" params) params w
  invoke-depth n _ params w = refl
