-- ===== src/Value/Debug.antt =====
-- Value::toDebugString of src/serializer/value.cpp. How a stream prints a number is a parameter.
use magpie_cpp.Value.{
  string, null, nil, list, int, entry, empty, double, dict, cons, bool, binary, Value, Values, Dict,
}
use magpie_cpp.Prelude.Int.{ℤ}
use magpie_cpp.Prelude.{zero, ◌+◌, length, ◌<>◌, if◌then◌else◌, suc, String, ℕ}

pub record NumberPrinter : Type 0 where
  pub of_int : ℤ → String
  pub of_double : ℕ → String
  pub of_size : ℕ → String

-- indentStr
unfoldable pub indent_str : ℕ → String
indent_str zero = ""
indent_str (suc n) = " " <> indent_str n

-- Whether a comma follows an element.
unfoldable pub comma_before : Values → String
comma_before nil = ""
comma_before (cons v l) = ","

unfoldable pub comma_before_entry : Dict → String
comma_before_entry empty = ""
comma_before_entry (entry k v d) = ","

module _ (print : NumberPrinter) where
  unfoldable mutual
    unfolding indent_str comma_before comma_before_entry

    pub to_debug_string : Value → ℕ → String
    to_debug_string null indent = "null"
    to_debug_string (bool b) indent = if b then "true" else "false"
    to_debug_string (int z) indent = print.of_int z
    to_debug_string (double x) indent = print.of_double x
    to_debug_string (string s) indent = "\"" <> (s <> "\"")
    to_debug_string (binary b) indent = "<binary:" <> (print.of_size (length b) <> " bytes>")
    to_debug_string (list l) indent = "[\n" <> (debug_items l indent <> (indent_str indent <> "]"))
    to_debug_string (dict d) indent =
        "{\n" <> (debug_entries d indent <> (indent_str indent <> "}"))

    pub debug_items : Values → ℕ → String
    debug_items nil indent = ""
    debug_items (cons v l) indent =
        indent_str indent
        <> ("  "
            <> (to_debug_string v (indent + 2)
                <> (comma_before l <> ("\n" <> debug_items l indent))))

    pub debug_entries : Dict → ℕ → String
    debug_entries empty indent = ""
    debug_entries (entry k v d) indent =
        indent_str indent
        <> ("  \""
            <> (k
                <> ("\": "
                    <> (to_debug_string v (indent + 2)
                        <> (comma_before_entry d <> ("\n" <> debug_entries d indent))))))
