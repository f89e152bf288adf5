-- ===== src/Value.antt =====
-- The class Value of include/magpie/serializer/value.hpp. The C++ object keeps one field for each
-- type beside a tag; here the tag is the constructor. A double is its 64-bit pattern. `std::map`
-- is a list in the order of its keys.
pub mod Debug
use magpie_cpp.Prelude.{
  ℕ, String, ◌≡◌, refl, Bool, true, false, Option, none, some, List, arith, ◌==◌, eq_iff, text_ltb,
  if◌then◌else◌,
}
use magpie_cpp.Prelude.Int.{ℤ}
use magpie_cpp.Prelude.Result.{Result, ok, throw, std_error}

mutual
  pub data Value : Type 0 where
    null : Value
    bool : Bool → Value
    int : ℤ → Value
    double : ℕ → Value
    string : String → Value
    binary : List ℕ → Value
    list : Values → Value
    dict : Dict → Value

  -- Value::List
  pub data Values : Type 0 where
    nil : Values
    cons : Value → Values → Values

  -- Value::Dict
  pub data Dict : Type 0 where
    empty : Dict
    entry : String → Value → Dict → Dict

-- Value::Type
pub data ValueType : Type 0 where
  null_type bool_type int_type double_type string_type binary_type list_type dict_type : ValueType

unfoldable pub type_of : Value → ValueType
type_of null = null_type
type_of (bool b) = bool_type
type_of (int z) = int_type
type_of (double d) = double_type
type_of (string s) = string_type
type_of (binary b) = binary_type
type_of (list l) = list_type
type_of (dict d) = dict_type

-- v.type() == Value::Type::Null
unfoldable pub is_null : Value → Bool
is_null null = true
is_null _ = false

unfoldable pub as_bool : Value → Result Bool
as_bool (bool b) = ok b
as_bool _ = throw (std_error "Value: not a bool")

unfoldable pub as_int : Value → Result ℤ
as_int (int z) = ok z
as_int _ = throw (std_error "Value: not an int")

-- `of_int` is static_cast<double>(std::int64_t).
unfoldable pub as_double : (ℤ → ℕ) → Value → Result ℕ
as_double of_int (double d) = ok d
as_double of_int (int z) = ok (of_int z)
as_double of_int _ = throw (std_error "Value: not a double")

unfoldable pub as_string : Value → Result String
as_string (string s) = ok s
as_string _ = throw (std_error "Value: not a string")

unfoldable pub as_binary : Value → Result (List ℕ)
as_binary (binary b) = ok b
as_binary _ = throw (std_error "Value: not binary")

unfoldable pub as_list : Value → Result Values
as_list (list l) = ok l
as_list _ = throw (std_error "Value: not a list")

unfoldable pub as_dict : Value → Result Dict
as_dict (dict d) = ok d
as_dict _ = throw (std_error "Value: not a dict")

-- it = d.find(k)
unfoldable pub find : String → Dict → Option Value
find k empty = none
find k (entry j v d) = if j == k then some v else find k d

-- d[k] = v, in the order of the keys
unfoldable pub set : String → Value → Dict → Dict
unfolding text_ltb
set k v empty = entry k v empty
set k v (entry j w d) =
    let rest = set k v d in
    if j == k then entry k v d else if text_ltb k j then entry k v (entry j w d) else entry j w rest

-- d.empty()
unfoldable pub is_empty : Dict → Bool
is_empty empty = true
is_empty (entry k v d) = false

-- l.push_back(v)
unfoldable pub push_back : Values → Value → Values
push_back nil v = cons v nil
push_back (cons w l) v = cons w (push_back l v)

-- A lookup after a write, with no condition on the order of the keys.
pub find-set :
    (k j : String) (v : Value) (d : Dict)
    → find j (set k v d) ≡ (if k == j then some v else find j d)
unfolding find set
find-set k j v empty = refl
find-set k j v (entry i w d) = ground (arith, find-set k j v d, eq_iff i k, eq_iff i j, eq_iff k j)

pub ruleset dict_laws = (find-set)
