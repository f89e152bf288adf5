-- ===== src/Serializer.antt =====
-- MsgpackSerializer, src/serializer/msgpack_serializer.cpp. msgpack-c is third-party code: the
-- packer is the list of the calls that are made of it, and `MsgObject` is msgpack::object, the tree
-- that msgpack::unpack gives. Both kinds of float stand in via.f64.
pub mod RoundTrip
pub mod Decode
use magpie_cpp.Value
use magpie_cpp.Prelude.{
  ◌-◌, ltb, if◌then◌else◌, ◌^◌, ◌++◌, ◌%◌, length, ◌∷◌, String, List, ℕ, Bool, suc, [],
}
use magpie_cpp.Value.{
  Value, Dict, Values, string, null, nil, list, int, entry, empty, double, dict, cons, bool, binary,
}
use magpie_cpp.Prelude.Int.{ℤ, pos, negsuc}
use magpie_cpp.Prelude.Result.{◌>>=◌, Result, throw, ok}

mutual
  pub data MsgObject : Type 0 where
    nil_object ext_object : MsgObject
    boolean : Bool → MsgObject
    positive_integer : ℕ → MsgObject
    negative_integer : ℤ → MsgObject
    float32 float64 : ℕ → MsgObject
    str : String → MsgObject
    bin : List ℕ → MsgObject
    array : MsgObjects → MsgObject
    map_object : MsgFields → MsgObject

  pub data MsgObjects : Type 0 where
    no_objects : MsgObjects
    object : MsgObject → MsgObjects → MsgObjects

  -- The keys and values of a map.
  pub data MsgFields : Type 0 where
    no_fields : MsgFields
    msg_field : MsgObject → MsgObject → MsgFields → MsgFields

-- The calls of msgpack::packer.
pub data PackCall : Type 0 where
  pack_nil : PackCall
  pack_bool : Bool → PackCall
  pack_int64 : ℤ → PackCall
  pack_double : ℕ → PackCall
  pack_string : String → PackCall
  pack_bin pack_array pack_map : ℕ → PackCall
  pack_bin_body : List ℕ → PackCall

-- list.size()
unfoldable pub values_size : Values → ℕ
values_size nil = 0
values_size (cons v l) = suc (values_size l)

-- dict.size()
unfoldable pub dict_size : Dict → ℕ
dict_size empty = 0
dict_size (entry k v d) = suc (dict_size d)

unfoldable mutual
  unfolding values_size dict_size

  -- MsgpackSerializer::packValue
  pub pack_value : Value → List PackCall
  pack_value null = pack_nil ∷ []
  pack_value (bool b) = pack_bool b ∷ []
  pack_value (int z) = pack_int64 z ∷ []
  pack_value (double d) = pack_double d ∷ []
  pack_value (string s) = pack_string s ∷ []
  pack_value (binary b) = pack_bin (length b) ∷ pack_bin_body b ∷ []
  pack_value (list l) = pack_array (values_size l) ∷ pack_values l
  pack_value (dict d) = pack_map (dict_size d) ∷ pack_entries d

  pub pack_values : Values → List PackCall
  pack_values nil = []
  pack_values (cons v l) = pack_value v ++ pack_values l

  pub pack_entries : Dict → List PackCall
  pack_entries empty = []
  pack_entries (entry k v d) = pack_string k ∷ (pack_value v ++ pack_entries d)

-- static_cast<std::int64_t>(std::uint64_t)
unfoldable pub to_int64 : ℕ → ℤ
to_int64 n = let low = n % 2 ^ 64 in if ltb low (2 ^ 63) then pos low else negsuc (2 ^ 64 - 1 - low)

-- `convert` is msgpack's conversion of a key to a std::string, which may throw.
module _ (convert : MsgObject → Result String) where
  unfoldable mutual
    unfolding to_int64 Value.set

    -- MsgpackSerializer::valueFromObject
    pub value_from_object : MsgObject → Result Value
    value_from_object nil_object = ok null
    value_from_object (boolean b) = ok (bool b)
    value_from_object (positive_integer n) = ok (int (to_int64 n))
    value_from_object (negative_integer z) = ok (int z)
    value_from_object (float32 d) = ok (double d)
    value_from_object (float64 d) = ok (double d)
    value_from_object (str s) = ok (string s)
    value_from_object (bin b) = ok (binary b)
    value_from_object (array items) = do l ← values_from_objects items; ok (list l)
    value_from_object (map_object fields) = do d ← dict_from_fields empty fields; ok (dict d)
    value_from_object ext_object = ok null

    pub values_from_objects : MsgObjects → Result Values
    values_from_objects no_objects = ok nil
    values_from_objects (object o items) = do
      v ← value_from_object o
      l ← values_from_objects items
      ok (cons v l)

    -- The loop over the pairs of a map. dict[key] = … evaluates its right side first, but which of
    -- the two throws makes no difference to a caller that drops the exception.
    pub dict_from_fields : Dict → MsgFields → Result Dict
    dict_from_fields d no_fields = ok d
    dict_from_fields d (msg_field k o fields) = do
      key ← convert k
      v ← value_from_object o
      dict_from_fields (Value.set key v d) fields

-- What the serializer calls of msgpack-c, over a type of byte vectors: the bytes that calls of a
-- packer write, size() == 0, msgpack::unpack, which may throw, and the conversion.
pub record Msgpack (B : Type 0) : Type 0 where
  pub written : List PackCall → B
  pub no_bytes : B → Bool
  pub unpack : B → Result MsgObject
  pub convert : MsgObject → Result String

-- Every exception is caught and logged.
unfoldable pub value_or_null : Result Value → Value
value_or_null (ok v) = v
value_or_null (throw e) = null

module _ {B : Type 0} (msgpack : Msgpack B) where
  -- MsgpackSerializer::serialize
  unfoldable pub serialize : Value → B
  unfolding pack_value
  serialize v = msgpack.written (pack_value v)

  unfoldable pub unpacked : Result MsgObject → Result Value
  unfolding value_from_object
  unpacked r = do o ← r; value_from_object msgpack.convert o

  -- MsgpackSerializer::deserialize, of a pointer that is not null.
  unfoldable pub deserialize : B → Value
  unfolding value_or_null unpacked
  deserialize bytes =
      if msgpack.no_bytes bytes then null else value_or_null (unpacked (msgpack.unpack bytes))
