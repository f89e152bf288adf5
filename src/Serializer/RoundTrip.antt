-- ===== src/Serializer/RoundTrip.antt =====
-- What serialize wrote is read back: src/serializer/msgpack_serializer.cpp.

use magpie_cpp.Prelude.{
  ◌++◌, length, ◌^◌, ◌<◌, ℕ, Bool, text_ltb, ◌≡◌, ◌∷◌, String, List, true, suc, false, [],
}
use magpie_cpp.Serializer.{
  pack_entries, dict_size, pack_values, MsgFields, values_size, MsgObjects, MsgObject, PackCall,
  pack_value, Msgpack, str, positive_integer, pack_string, pack_nil, pack_map, pack_int64,
  pack_double, pack_bool, pack_bin_body, pack_bin, pack_array, object, no_objects, no_fields,
  nil_object, negative_integer, msg_field, map_object, float64, boolean, bin, array,
}
use magpie_cpp.Value.{
  Values, Dict, Value, string, null, nil, list, int, entry, empty, double, dict, cons, bool, binary,
}
use magpie_cpp.Prelude.Int.{FitsBits, pos, negsuc}
use magpie_cpp.Prelude.Result.{ok}

-- What msgpack's documentation says of the packer: the calls that write an object. An array or a
-- map is its size and then what it holds; an integer takes the sign's form.
mutual
  pub data Writes : List PackCall → MsgObject → Type 0 where
    writes_nil : Writes (pack_nil ∷ []) nil_object
    writes_bool : (b : Bool) → Writes (pack_bool b ∷ []) (boolean b)
    writes_pos : (n : ℕ) → n < 2 ^ 63 → Writes (pack_int64 (pos n) ∷ []) (positive_integer n)
    writes_neg : (n : ℕ) → Writes (pack_int64 (negsuc n) ∷ []) (negative_integer (negsuc n))
    writes_double : (d : ℕ) → Writes (pack_double d ∷ []) (float64 d)
    writes_str : (s : String) → Writes (pack_string s ∷ []) (str s)
    writes_bin : (b : List ℕ) → Writes (pack_bin (length b) ∷ pack_bin_body b ∷ []) (bin b)
    writes_array :
        {n : ℕ} {calls : List PackCall} {items : MsgObjects}
        → WritesItems n calls items
        → Writes (pack_array n ∷ calls) (array items)
    writes_map :
        {n : ℕ} {calls : List PackCall} {fields : MsgFields}
        → WritesFields n calls fields
        → Writes (pack_map n ∷ calls) (map_object fields)

  pub data WritesItems : ℕ → List PackCall → MsgObjects → Type 0 where
    no_items : WritesItems 0 [] no_objects
    one_item :
        {n : ℕ} {c cs : List PackCall} {o : MsgObject} {items : MsgObjects}
        → Writes c o
        → WritesItems n cs items
        → WritesItems (suc n) (c ++ cs) (object o items)

  pub data WritesFields : ℕ → List PackCall → MsgFields → Type 0 where
    no_pairs : WritesFields 0 [] no_fields
    one_pair :
        {n : ℕ} {c cs : List PackCall} {k : String} {o : MsgObject} {fields : MsgFields}
        → Writes c o
        → WritesFields n cs fields
        → WritesFields (suc n) (pack_string k ∷ (c ++ cs)) (msg_field (str k) o fields)

-- What the theorem asks of msgpack-c: unpack gives the object that the packer wrote, in at least
-- one byte, and a text converts to itself.
pub record ReadsBack {B : Type 0} (msgpack : Msgpack B) : Type 0 where
  pub reads :
      (c : List PackCall) (o : MsgObject) → Writes c o → msgpack.unpack (msgpack.written c) ≡ ok o
  pub some_bytes :
      (c : List PackCall) (o : MsgObject)
      → Writes c o
      → msgpack.no_bytes (msgpack.written c) ≡ false
  pub converts : (s : String) → msgpack.convert (str s) ≡ ok s

-- The keys of a dict stand in their order, each below all behind it, as in a std::map.
abbrev pub Below : String → Dict → Type 0
Below k empty = Unit
Below k (entry j v d) = (text_ltb k j ≡ true) × Below k d

unfoldable mutual
  -- Integers are 64-bit, and dicts are in the order of their keys.
  pub ValueIsValid : Value → Type 0
  ValueIsValid (int z) = FitsBits 63 z
  ValueIsValid (list l) = ValuesIsValid l
  ValueIsValid (dict d) = DictIsValid d
  ValueIsValid _ = Unit

  pub ValuesIsValid : Values → Type 0
  ValuesIsValid nil = Unit
  ValuesIsValid (cons v l) = ValueIsValid v × ValuesIsValid l

  pub DictIsValid : Dict → Type 0
  DictIsValid empty = Unit
  DictIsValid (entry k v d) = Below k d × ValueIsValid v × DictIsValid d

unfoldable mutual
  pub object_of : Value → MsgObject
  object_of null = nil_object
  object_of (bool b) = boolean b
  object_of (int (pos n)) = positive_integer n
  object_of (int (negsuc n)) = negative_integer (negsuc n)
  object_of (double d) = float64 d
  object_of (string s) = str s
  object_of (binary b) = bin b
  object_of (list l) = array (objects_of l)
  object_of (dict d) = map_object (fields_of d)

  pub objects_of : Values → MsgObjects
  objects_of nil = no_objects
  objects_of (cons v l) = object (object_of v) (objects_of l)

  pub fields_of : Dict → MsgFields
  fields_of empty = no_fields
  fields_of (entry k v d) = msg_field (str k) (object_of v) (fields_of d)

mutual
  unfolding pack_value object_of ValueIsValid

  pub pack_value-Writes : (v : Value) → ValueIsValid v → Writes (pack_value v) (object_of v)
  pack_value-Writes null h = writes_nil
  pack_value-Writes (bool b) h = writes_bool b
  pack_value-Writes (int (pos n)) h = writes_pos n h
  pack_value-Writes (int (negsuc n)) h = writes_neg n
  pack_value-Writes (double d) h = writes_double d
  pack_value-Writes (string s) h = writes_str s
  pack_value-Writes (binary b) h = writes_bin b
  pack_value-Writes (list l) h = writes_array (pack_values-WritesItems l h)
  pack_value-Writes (dict d) h = writes_map (pack_entries-WritesFields d h)

  pack_values-WritesItems :
      (l : Values) → ValuesIsValid l → WritesItems (values_size l) (pack_values l) (objects_of l)
  pack_values-WritesItems nil h = no_items
  pack_values-WritesItems (cons v l) h =
      one_item (pack_value-Writes v h.0) (pack_values-WritesItems l h.1)

  pack_entries-WritesFields :
      (d : Dict) → DictIsValid d → WritesFields (dict_size d) (pack_entries d) (fields_of d)
  pack_entries-WritesFields empty h = no_pairs
  pack_entries-WritesFields (entry k v d) h =
      one_pair (pack_value-Writes v h.1) (pack_entries-WritesFields d h.2)
