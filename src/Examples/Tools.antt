-- ===== src/Examples/Tools.antt =====
-- MCP tools at concrete inputs. The world is the number of calls that were made.

use magpie_cpp.Schema.Mcp
use magpie_cpp.Schema.Mcp.Tools
use magpie_cpp.Schema.Mcp.Calls
use magpie_cpp.Prelude.{◌+◌, ◌∷◌, ◌≡◌, ℕ, some, refl, []}
use magpie_cpp.Value.{Value, is_null, find, Dict, string, null, entry, empty, dict}
use magpie_cpp.Prelude.Result.{Eff, Ensures, throw, std_error, ok}
use magpie_cpp.Schema.Mcp.{user, tools_call}
use magpie_cpp.Schema.JsonRpc.{object_schema}

abbrev print : Mcp.Printers
print = record {
  stream = record { of_int = λ z. "i"; of_double = λ x. "d"; of_size = λ n. "n" };
  int_to_string = λ z. "i";
  double_to_string = λ x. "d";
}

abbrev echo : Dict → Eff ℕ Value
echo params calls = (ok (dict params), calls + 1)

abbrev failing : Dict → Eff ℕ Value
failing params calls = (throw (std_error "motor stuck"), calls + 1)

abbrev robot : Mcp.McpSchema ℕ
robot = record {
  methods =
      (
        "tools/call",
        record {
          handler = some tools_call;
          description = "Call a tool by name";
          input_schema = null;
          output_schema = null;
        },
      )
      ∷ (
        "fail",
        record {
          handler = some (user failing);
          description = "always throws";
          input_schema = null;
          output_schema = null;
        },
      )
      ∷ [];
  tools =
      ("fail", record { description = "always throws"; input_schema = null; output_schema = null })
      ∷ [];
  server_name = "robot";
  server_version = "1.0.0";
}

abbrev bare : Mcp.McpSchema ℕ
bare = Mcp.new_schema "robot" "1.0.0"

bare-ToolsAreUser : Tools.ToolsAreUser bare
bare-ToolsAreUser = Tools.new_schema-ToolsAreUser "robot" "1.0.0"

call_fail : Dict
call_fail = entry "name" (string "fail") empty

register_method-tools_call_example :
    Ensures
      (λ s'. Mcp.invoke print 2 s' tools_call (entry "name" (string "echo") empty) 0 ≡ (
        Mcp.tool_response print
            (record { description = "d"; input_schema = object_schema; output_schema = null })
            (ok (dict empty)),
        1,
      ))
      (Mcp.register_method "echo" (some echo) "d" null null bare)
unfolding Mcp.is_builtin find is_null Mcp.dict_or_empty
register_method-tools_call_example =
    Calls.register_method-tools_call print "echo" echo "d" null null bare 0
      (entry "name" (string "echo") empty) 0 refl refl
