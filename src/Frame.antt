-- ===== src/Frame.antt =====
-- The base class of src/frames/frame.cpp and include/magpie/frames/frame.hpp: the metadata that
-- every frame has, and how a field is read from a dict.
pub mod Body
pub mod Registry
use magpie_cpp.Prelude.{ℕ, String, Option, none, some, List}
use magpie_cpp.Prelude.Int.{ℤ, pos, to_int32}
use magpie_cpp.Value.{Value, Dict, bool, int, double, string, binary, find, set}

pub record Frame : Type 0 where
  pub gid : String
  pub id : ℤ
  pub name : String
  pub timestamp : String

-- What the constructor takes from getUniqueId() and from the clock.
pub record Fresh : Type 0 where
  pub unique_id : String
  pub utc_timestamp : String

-- Frame::Frame()
unfoldable pub new_frame : Fresh → Frame
new_frame fresh = record {
  gid = fresh.unique_id;
  id = pos 0;
  name = "Frame";
  timestamp = fresh.utc_timestamp;
}

-- Frame::toDict: writes into a dict that may hold entries already.
unfoldable pub base_to_dict : Frame → Dict → Dict
base_to_dict f out =
    set "timestamp" (string f.timestamp)
      (set "name" (string f.name) (set "id" (int f.id) (set "gid" (string f.gid) out)))

-- The entry if it is of the type wanted, and else what the field was.
unfoldable pub string_or : String → Option Value → String
string_or old (some (string s)) = s
string_or old _ = old

unfoldable pub int_or : ℤ → Option Value → ℤ
int_or old (some (int z)) = z
int_or old _ = old

unfoldable pub int32_or : ℤ → Option Value → ℤ
unfolding to_int32
int32_or old (some (int z)) = to_int32 z
int32_or old _ = old

unfoldable pub binary_or : List ℕ → Option Value → List ℕ
binary_or old (some (binary b)) = b
binary_or old _ = old

-- Frame::loadFromDict
unfoldable pub base_load : Frame → Dict → Frame
unfolding string_or int_or
base_load f d = record {
  gid = string_or f.gid (find "gid" d);
  id = int_or f.id (find "id" d);
  name = string_or f.name (find "name" d);
  timestamp = string_or f.timestamp (find "timestamp" d);
}
