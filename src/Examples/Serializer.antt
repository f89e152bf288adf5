-- ===== src/Examples/Serializer.antt =====
-- A msgpack that keeps the calls as they are and reads them from the back with a stack.
use magpie_cpp.Prelude.{
  arith, ◌∙◌, sym, ap, ◌≡◌, String, text_ltb, ◌++◌, Bool, ◌∷◌, List, ℕ, zero, true, suc, refl,
  false, [],
}
use magpie_cpp.Serializer.{
  serialize, deserialize, MsgFields, MsgObjects, Msgpack, MsgObject, PackCall, str,
  positive_integer, pack_string, pack_nil, pack_map, pack_int64, pack_double, pack_bool,
  pack_bin_body, pack_bin, pack_array, object, no_objects, no_fields, nil_object, negative_integer,
  msg_field, map_object, float64, boolean, bin, array,
}
use magpie_cpp.Value.{Value, string, nil, list, int, entry, empty, dict, cons, bool, binary}
use magpie_cpp.Prelude.Int.{pos, negsuc}
use magpie_cpp.Serializer.RoundTrip.{
  WritesFields, WritesItems, Writes, ValueIsValid, ReadsBack, writes_str, writes_pos, writes_nil,
  writes_neg, writes_map, writes_double, writes_bool, writes_bin, writes_array, one_pair, one_item,
  no_pairs, no_items,
}
use magpie_cpp.Prelude.Result.{Result, throw, std_error, ok}
use magpie_cpp.Serializer.Decode.{deserialize-serialize}

take_objects : ℕ → List MsgObject → MsgObjects
take_objects zero stack = no_objects
take_objects (suc n) [] = no_objects
take_objects (suc n) (o ∷ stack) = object o (take_objects n stack)

drop_objects : ℕ → List MsgObject → List MsgObject
drop_objects zero stack = stack
drop_objects (suc n) [] = []
drop_objects (suc n) (o ∷ stack) = drop_objects n stack

take_fields : ℕ → List MsgObject → MsgFields
take_fields zero stack = no_fields
take_fields (suc n) (k ∷ o ∷ stack) = msg_field k o (take_fields n stack)
take_fields (suc n) _ = no_fields

drop_fields : ℕ → List MsgObject → List MsgObject
drop_fields zero stack = stack
drop_fields (suc n) (k ∷ o ∷ stack) = drop_fields n stack
drop_fields (suc n) _ = []

push_call : PackCall → List MsgObject → List MsgObject
unfolding take_objects drop_objects take_fields drop_fields
push_call pack_nil stack = nil_object ∷ stack
push_call (pack_bool b) stack = boolean b ∷ stack
push_call (pack_int64 (pos n)) stack = positive_integer n ∷ stack
push_call (pack_int64 (negsuc n)) stack = negative_integer (negsuc n) ∷ stack
push_call (pack_double d) stack = float64 d ∷ stack
push_call (pack_string s) stack = str s ∷ stack
push_call (pack_bin n) stack = stack
push_call (pack_bin_body b) stack = bin b ∷ stack
push_call (pack_array n) stack = array (take_objects n stack) ∷ drop_objects n stack
push_call (pack_map n) stack = map_object (take_fields n stack) ∷ drop_fields n stack

stack_of : List PackCall → List MsgObject
unfolding push_call
stack_of [] = []
stack_of (c ∷ cs) = push_call c (stack_of cs)

top_of : List MsgObject → Result MsgObject
top_of [] = throw (std_error "insufficient bytes")
top_of (o ∷ stack) = ok o

text_of_object : MsgObject → Result String
text_of_object (str s) = ok s
text_of_object _ = throw (std_error "std::bad_cast")

none_written : List PackCall → Bool
none_written [] = true
none_written (c ∷ cs) = false

model : Msgpack (List PackCall)
unfolding top_of stack_of text_of_object none_written
model = record {
  written = λ calls. calls;
  no_bytes = none_written;
  unpack = λ calls. top_of (stack_of calls);
  convert = text_of_object;
}

append-regroup : (a b c : List PackCall) → ((a ++ b) ++ c) ≡ (a ++ (b ++ c))
append-regroup [] b c = refl
append-regroup (x ∷ a) b c = rw (append-regroup a b c) refl

mutual
  unfolding stack_of push_call take_objects drop_objects take_fields drop_fields

  stack_of-Writes :
      {c : List PackCall} {o : MsgObject} (rest : List PackCall)
      → Writes c o
      → stack_of (c ++ rest) ≡ (o ∷ stack_of rest)
  stack_of-Writes rest writes_nil = refl
  stack_of-Writes rest (writes_bool b) = refl
  stack_of-Writes rest (writes_pos n h) = refl
  stack_of-Writes rest (writes_neg n) = refl
  stack_of-Writes rest (writes_double d) = refl
  stack_of-Writes rest (writes_str s) = refl
  stack_of-Writes rest (writes_bin b) = refl
  stack_of-Writes rest (writes_array w) = let h = stack_of-WritesItems rest w in rw (h.0, h.1) refl
  stack_of-Writes rest (writes_map w) = let h = stack_of-WritesFields rest w in rw (h.0, h.1) refl

  stack_of-WritesItems :
      {n : ℕ} {c : List PackCall} {items : MsgObjects} (rest : List PackCall)
      → WritesItems n c items
      → (take_objects n (stack_of (c ++ rest)) ≡ items)
        × (drop_objects n (stack_of (c ++ rest)) ≡ stack_of rest)
  stack_of-WritesItems rest no_items = (refl, refl)
  stack_of-WritesItems rest (one_item {n} {c} {cs} {o} w ws) =
      let h = stack_of-WritesItems rest ws in
      rw (append-regroup c cs rest, stack_of-Writes (cs ++ rest) w) (rw h.0 refl, h.1)

  stack_of-WritesFields :
      {n : ℕ} {c : List PackCall} {fields : MsgFields} (rest : List PackCall)
      → WritesFields n c fields
      → (take_fields n (stack_of (c ++ rest)) ≡ fields)
        × (drop_fields n (stack_of (c ++ rest)) ≡ stack_of rest)
  stack_of-WritesFields rest no_pairs = (refl, refl)
  stack_of-WritesFields rest (one_pair {n} {c} {cs} {k} {o} w ws) =
      let h = stack_of-WritesFields rest ws in
      rw (append-regroup c cs rest, stack_of-Writes (cs ++ rest) w) (rw h.0 refl, h.1)

append_nothing : (c : List PackCall) → (c ++ []) ≡ c
append_nothing [] = refl
append_nothing (x ∷ c) = rw (append_nothing c) refl

model-reads : (c : List PackCall) (o : MsgObject) → Writes c o → top_of (stack_of c) ≡ ok o
unfolding top_of
model-reads c o w = ap top_of (ap stack_of (sym (append_nothing c)) ∙ stack_of-Writes [] w)

none_written-Writes : (c : List PackCall) (o : MsgObject) → Writes c o → none_written c ≡ false
unfolding none_written stack_of top_of
none_written-Writes [] o w = cc (model-reads [] o w)
none_written-Writes (x ∷ c) o w = refl

model-ReadsBack : ReadsBack model
unfolding model text_of_object
model-ReadsBack = record {
  reads = model-reads;
  some_bytes = none_written-Writes;
  converts = λ s. refl;
}

abbrev message : Value
message = dict (
    entry "ack" (bool true) (
      entry "payload" (list (cons (int (negsuc 4)) (cons (string "x") nil)))
        (entry "rid" (binary (1 ∷ 2 ∷ [])) empty)))

deserialize-serialize_example : deserialize model (serialize model message) ≡ message
unfolding ValueIsValid text_ltb
deserialize-serialize_example =
    deserialize-serialize model message model-ReadsBack
      ((refl, (refl, tt)), tt, ((refl, tt), (omega arith, (tt, tt)), (tt, tt, tt)))
