-- ===== src/Schema/JsonRpc/Dispatch.antt =====
-- What the dispatch of src/schema/json_rpc_schema.cpp promises its clients.
use magpie_cpp.Prelude.Map
use magpie_cpp.Prelude.Map.{Map}
use magpie_cpp.Value.{empty, string, null, find, Dict, is_null, Value}
use magpie_cpp.Prelude.{
  refl, ◌⊎◌, none, Option, inr, Bool-cases, inl, some, String, true, if◌then◌else◌, ◌≡◌,
}
use magpie_cpp.Prelude.Result.{
  what, Exception, unknown, json_rpc_error, timeout_error, std_error, throw, ok, Eff, Result,
}
use magpie_cpp.Schema.JsonRpc.{
  with_handler, internal_error, entry, wrap, dispatch, dispatch_single, with_method, with_entry,
  with_params, method_not_found, MethodEntry, dict, or_null, not_found, reply, make_result,
  make_error,
}
use magpie_cpp.Prelude.Int.{ℤ}

-- An answer to a request with this id: silence only where the id is null, and else an envelope
-- with that id and with either a result or an error object.
abbrev pub IsAnswer : Value → Value → Type 0
IsAnswer id null = id ≡ null
IsAnswer id (dict d) =
    (find "jsonrpc" d ≡ some (string "2.0"))
    × (find "id" d ≡ some id)
    × (((r : Value) × (find "result" d ≡ some r) × (find "error" d ≡ none))
        ⊎ ((e : Dict) × (find "error" d ≡ some (dict e)) × (find "result" d ≡ none)))
IsAnswer id _ = ⊥

-- The same of a call's result; an exception leaves dispatch unanswered.
abbrev pub Answers : Value → Result Value → Type 0
Answers id (ok v) = IsAnswer id v
Answers id (throw e) = Unit

make_error-IsAnswer : (id : Value) (code : ℤ) (msg : String) → IsAnswer id (make_error id code msg)
unfolding make_error find
make_error-IsAnswer id code msg = (refl, refl, inr (_, refl, refl))

make_result-IsAnswer : (id result : Value) → IsAnswer id (make_result id result)
unfolding make_result find
make_result-IsAnswer id result = (refl, refl, inl (result, refl, refl))

eq-null_of_is_null : (v : Value) → is_null v ≡ true → v ≡ null
unfolding is_null
eq-null_of_is_null null h = refl
eq-null_of_is_null _ h = cc

silent_or : (id v : Value) → IsAnswer id v → IsAnswer id (if is_null id then null else v)
silent_or id v answer = elim (Bool-cases (is_null id)) [
  | inl e ↦ rw e (eq-null_of_is_null id e)
  | inr e ↦ rw e answer
]

reply-Answers : (id : Value) (r : Result Value) → Answers id (reply id r)
unfolding reply
reply-Answers id (ok v) = silent_or id _ (make_result-IsAnswer id v)
reply-Answers id (throw unknown) = tt
reply-Answers id (throw (std_error m)) = make_error-IsAnswer id internal_error m
reply-Answers id (throw (timeout_error k m)) = make_error-IsAnswer id internal_error m
reply-Answers id (throw (json_rpc_error c m)) = make_error-IsAnswer id internal_error m

not_found-IsAnswer : (id : Value) (msg : String) → IsAnswer id (not_found id msg)
unfolding not_found
not_found-IsAnswer id msg = silent_or id _ (make_error-IsAnswer id method_not_found msg)

-- The id of a request: null where it is left out, and for what is no object.
unfoldable pub request_id : Value → Value
unfolding or_null
request_id (dict d) = or_null (find "id" d)
request_id _ = null

module _ {W H : Type 0} (invoke : H → Dict → Eff W Value) (methods : Map (MethodEntry H)) where
  with_params-Answers :
      (id : Value) (h : H) (p : Option Value) (w : W)
      → Answers id (with_params invoke methods id h p w).0
  unfolding with_params
  with_params-Answers id h none w = reply-Answers id _
  with_params-Answers id h (some (dict p)) w = reply-Answers id _
  with_params-Answers id h (some _) w = make_error-IsAnswer id _ _

  with_entry-Answers :
      (id : Value) (name : String) (found : Option (MethodEntry H)) (d : Dict) (w : W)
      → Answers id (with_entry invoke methods id name found d w).0
  unfolding with_entry
  with_entry-Answers id name none d w = not_found-IsAnswer id _
  with_entry-Answers id name (some e) d w = with_handler-Answers e.handler
    where
      with_handler-Answers :
          (h : Option H) → Answers id (with_handler invoke methods id name h d w).0
      with_handler-Answers none = not_found-IsAnswer id _
      with_handler-Answers (some h) = with_params-Answers id h (find "params" d) w

  with_method-Answers :
      (id : Value) (method : Option Value) (d : Dict) (w : W)
      → Answers id (with_method invoke methods id method d w).0
  unfolding with_method
  with_method-Answers id (some (string name)) d w = with_entry-Answers id name _ d w
  with_method-Answers id _ d w = make_error-IsAnswer id _ _

  -- Whatever the request, the method table and the handlers: if dispatch_single returns, it has
  -- answered the request's id, and it is silent only where that id is null or missing.
  pub dispatch_single-Answers :
      (request : Value) (w : W)
      → Answers (request_id request) (dispatch_single invoke methods request w).0
  unfolding dispatch_single request_id
  dispatch_single-Answers (dict d) w = with_method-Answers _ (find "method" d) d w
  dispatch_single-Answers _ w = make_error-IsAnswer _ _ _

  -- A request that carries the envelope of `wrap` reaches the handler with the parameters that
  -- were wrapped, also where there were none.
  pub dispatch-wrap :
      (id name : String) (params : Dict) (w : W) (e : MethodEntry H) (h : H)
      → Map.find name methods ≡ some e
      → e.handler ≡ some h
      → dispatch invoke methods (wrap id name params) w
        ≡ (reply (string id) (invoke h params w).0, (invoke h params w).1)
  unfolding dispatch wrap find
  dispatch-wrap id name empty w e h found has = rw (found, has)
  dispatch-wrap id name (entry k v d) w e h found has = rw (found, has)

  -- A request without an id (a notification) whose handler throws is answered all the same, with
  -- an error object whose id is null.
  pub dispatch-notification_error :
      (d : Dict) (w : W) (name msg : String) (e : MethodEntry H) (h : H) (x : Exception)
      → find "id" d ≡ none
      → find "method" d ≡ some (string name)
      → find "params" d ≡ none
      → Map.find name methods ≡ some e
      → e.handler ≡ some h
      → (invoke h empty w).0 ≡ throw x
      → what x ≡ some msg
      → (dispatch invoke methods (dict d) w).0 ≡ ok (make_error null internal_error msg)
  unfolding dispatch
  dispatch-notification_error d w name msg e h x no_id method no_params found has threw says =
      rw (no_id, method, found, has, no_params, threw, says)

  -- A notification that names no registered method, or one with no handler yet, is passed over in
  -- silence.
  pub dispatch-notification_unknown :
      (d : Dict) (w : W) (name : String)
      → find "id" d ≡ none
      → find "method" d ≡ some (string name)
      → ((Map.find name methods ≡ none)
          ⊎ ((e : MethodEntry H) × (Map.find name methods ≡ some e) × (e.handler ≡ none)))
      → dispatch invoke methods (dict d) w ≡ (ok null, w)
  unfolding dispatch
  dispatch-notification_unknown d w name no_id method (inl e) = rw (no_id, method, e)
  dispatch-notification_unknown d w name no_id method (inr (e, found, bare)) =
      rw (no_id, method, found, bare)
