-- ===== src/Examples/Schema.antt =====
-- Requests and tools at concrete inputs. The world is the number of calls that were made.
use magpie_cpp.Prelude.Map
use magpie_cpp.Prelude.Map.{Map}
use magpie_cpp.Schema.JsonRpc.{reply, wrap, dispatch, dispatch_single, MethodEntry}
use magpie_cpp.Schema.JsonRpc.Dispatch
use magpie_cpp.Schema.JsonRpc.Batch
use magpie_cpp.Prelude.{ℕ, ◌≡◌, ◌∷◌, ◌+◌, some, refl, []}
use magpie_cpp.Value.{Value, Values, Dict, string, null, nil, list, int, entry, empty, dict, cons}
use magpie_cpp.Prelude.Result.{◌>>=◌, Eff, throw, std_error, ok}
use magpie_cpp.Prelude.Int.{pos}

abbrev Handler : Type 0
Handler = Dict → Eff ℕ Value

abbrev apply : Handler → Dict → Eff ℕ Value
apply h = h

abbrev echo : Handler
echo params calls = (ok (dict params), calls + 1)

abbrev failing : Handler
failing params calls = (throw (std_error "motor stuck"), calls + 1)

abbrev echo_entry : MethodEntry Handler
echo_entry = record {
  handler = some echo;
  description = "returns its parameters";
  input_schema = null;
  output_schema = null;
}

abbrev failing_entry : MethodEntry Handler
failing_entry = record {
  handler = some failing;
  description = "always throws";
  input_schema = null;
  output_schema = null;
}

abbrev methods : Map (MethodEntry Handler)
methods = ("echo", echo_entry) ∷ ("fail", failing_entry) ∷ []

abbrev one_param : Dict
one_param = entry "a" (int (pos 3)) empty

-- {"method": "fail"}: a notification.
abbrev notification : Dict
notification = entry "method" (string "fail") empty

dispatch_single-Answers_example :
    Dispatch.Answers
      (Dispatch.request_id (dict notification))
      (dispatch_single apply methods (dict notification) 0).0
dispatch_single-Answers_example =
    Dispatch.dispatch_single-Answers apply methods (dict notification) 0

dispatch-wrap_example :
    dispatch apply methods (wrap "id1" "echo" one_param) 5
    ≡ (reply (string "id1") (ok (dict one_param)), 6)
unfolding Map.find
dispatch-wrap_example =
    Dispatch.dispatch-wrap apply methods "id1" "echo" one_param 5 echo_entry echo refl refl

abbrev two_requests : Values
two_requests = cons (dict notification) (cons (int (pos 1)) nil)

dispatch-batch_example : dispatch apply methods (list two_requests) 0 ≡ (
  (do
    vs ← (Batch.run_all apply methods two_requests 0).0
    ok (Batch.reply_of (Batch.answers_of vs))),
  (Batch.run_all apply methods two_requests 0).1,
)
dispatch-batch_example = Batch.dispatch-batch apply methods two_requests 0
