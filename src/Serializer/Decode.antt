-- ===== src/Serializer/Decode.antt =====
-- valueFromObject gives back the value of an object: src/serializer/msgpack_serializer.cpp.
use magpie_cpp.Value
use magpie_cpp.Prelude.{
  ap, ◌∙◌, eq_iff, Bool-cases, ◌==◌, arith, ◌≡◌, String, text_ltb, true, refl, inr, inl, false,
}
use magpie_cpp.Value.{
  Values, Value, Dict, string, null, nil, list, int, entry, empty, double, dict, cons, bool, binary,
}
use magpie_cpp.Prelude.Int.{pos, negsuc}
use magpie_cpp.Prelude.Result.{Result, ok}
use magpie_cpp.Serializer.{
  dict_from_fields, values_from_objects, pack_value, to_int64, Msgpack, value_from_object,
  serialize, deserialize, MsgObject, str,
}
use magpie_cpp.Serializer.RoundTrip.{
  fields_of, DictIsValid, objects_of, ValuesIsValid, pack_value-Writes, ValueIsValid, ReadsBack,
  object_of, Below,
}

text_ltb_irrefl : (s : String) → text_ltb s s ≡ false
unfolding text_ltb
text_ltb_irrefl String.[] = refl
text_ltb_irrefl (String.◌∷◌ c s) = ground (arith, text_ltb_irrefl s)

text_ltb_asym : (s t : String) → text_ltb s t ≡ true → text_ltb t s ≡ false
unfolding text_ltb
text_ltb_asym String.[] String.[] h = refl
text_ltb_asym String.[] (String.◌∷◌ d t) h = refl
text_ltb_asym (String.◌∷◌ c s) String.[] h = cc
text_ltb_asym (String.◌∷◌ c s) (String.◌∷◌ d t) h = ground (arith, text_ltb_asym s t)

text_ltb-ne : (s t : String) → text_ltb s t ≡ true → (s == t) ≡ false
text_ltb-ne s t h = elim (Bool-cases (s == t)) [
  | inl same ↦ ground (arith, h, text_ltb_irrefl t, rw ((eq_iff s t).0 same) at h)
  | inr other ↦ other
]

-- An entry behind all others.
snoc : Dict → String → Value → Dict
snoc empty k v = entry k v empty
snoc (entry j w d) k v = entry j w (snoc d k v)

append_dict : Dict → Dict → Dict
append_dict empty e = e
append_dict (entry j w d) e = entry j w (append_dict d e)

append_dict-empty : (d : Dict) → append_dict d empty ≡ d
unfolding append_dict
append_dict-empty empty = refl
append_dict-empty (entry k v d) = rw (append_dict-empty d) refl

append_dict-snoc :
    (acc d : Dict) (k : String) (v : Value)
    → append_dict (snoc acc k v) d ≡ append_dict acc (entry k v d)
unfolding append_dict snoc
append_dict-snoc empty d k v = refl
append_dict-snoc (entry j w acc) d k v = rw (append_dict-snoc acc d k v) refl

abbrev AllBelow : Dict → String → Type 0
AllBelow empty k = Unit
AllBelow (entry j w d) k = (text_ltb j k ≡ true) × AllBelow d k

abbrev Separated : Dict → Dict → Type 0
Separated acc empty = Unit
Separated acc (entry k v d) = AllBelow acc k × Separated acc d

set-snoc : (acc : Dict) (k : String) (v : Value) → AllBelow acc k → Value.set k v acc ≡ snoc acc k v
unfolding Value.set snoc
set-snoc empty k v h = refl
set-snoc (entry j w d) k v h =
    rw (text_ltb-ne j k h.0, text_ltb_asym j k h.0, set-snoc d k v h.1) refl

AllBelow-snoc :
    (acc : Dict) (j k : String) (v : Value)
    → AllBelow acc k
    → text_ltb j k ≡ true
    → AllBelow (snoc acc j v) k
unfolding snoc
AllBelow-snoc empty j k v h b = (b, tt)
AllBelow-snoc (entry i w d) j k v h b = (h.0, AllBelow-snoc d j k v h.1 b)

Separated-snoc :
    (acc d : Dict) (k : String) (v : Value)
    → Separated acc d
    → Below k d
    → Separated (snoc acc k v) d
Separated-snoc acc empty k v h b = tt
Separated-snoc acc (entry j w d) k v h b =
    (AllBelow-snoc acc k j v h.0 b.0, Separated-snoc acc d k v h.1 b.1)

empty-Separated : (d : Dict) → Separated empty d
empty-Separated empty = tt
empty-Separated (entry k v d) = (tt, empty-Separated d)

module _ (convert : MsgObject → Result String)
    (converts : (s : String) → convert (str s) ≡ ok s) where
  mutual
    unfolding value_from_object object_of ValueIsValid to_int64 append_dict

    value_from_object-object_of :
        (v : Value) → ValueIsValid v → value_from_object convert (object_of v) ≡ ok v
    value_from_object-object_of null h = refl
    value_from_object-object_of (bool b) h = refl
    value_from_object-object_of (int (pos n)) h = ground arith
    value_from_object-object_of (int (negsuc n)) h = refl
    value_from_object-object_of (double d) h = refl
    value_from_object-object_of (string s) h = refl
    value_from_object-object_of (binary b) h = refl
    value_from_object-object_of (list l) h = rw (values_from_objects-objects_of l h) refl
    value_from_object-object_of (dict d) h =
        rw (dict_from_fields-fields_of empty d h (empty-Separated d)) refl

    values_from_objects-objects_of :
        (l : Values) → ValuesIsValid l → values_from_objects convert (objects_of l) ≡ ok l
    values_from_objects-objects_of nil h = refl
    values_from_objects-objects_of (cons v l) h =
        rw (value_from_object-object_of v h.0, values_from_objects-objects_of l h.1) refl

    dict_from_fields-fields_of :
        (acc d : Dict)
        → DictIsValid d
        → Separated acc d
        → dict_from_fields convert acc (fields_of d) ≡ ok (append_dict acc d)
    dict_from_fields-fields_of acc empty h s = rw (append_dict-empty acc) refl
    dict_from_fields-fields_of acc (entry k v d) h s =
        rw (converts k, value_from_object-object_of v h.1, set-snoc acc k v s.0)
          (dict_from_fields-fields_of (snoc acc k v) d h.2 (Separated-snoc acc d k v s.1 h.0)
            ∙ ap ok (append_dict-snoc acc d k v))

-- A value whose integers are 64-bit and whose dicts are in the order of their keys comes back from
-- its serialization unchanged, where msgpack-c reads back what it wrote.
pub deserialize-serialize :
    {B : Type 0} (msgpack : Msgpack B) (v : Value)
    → ReadsBack msgpack
    → ValueIsValid v
    → deserialize msgpack (serialize msgpack v) ≡ v
unfolding deserialize serialize
deserialize-serialize msgpack v back valid = rw (
  back.some_bytes (pack_value v) (object_of v) (pack_value-Writes v valid),
  back.reads (pack_value v) (object_of v) (pack_value-Writes v valid),
  value_from_object-object_of msgpack.convert back.converts v valid,
)
