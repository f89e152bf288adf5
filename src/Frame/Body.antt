-- ===== src/Frame/Body.antt =====
-- The frame classes: src/frames/primitive_frames.cpp, audio_frame.cpp, audio_frame_flac.cpp,
-- image_frame.cpp and image_frame_jpeg.cpp. A frame object is the metadata and the fields that
-- its class adds; the constructor of `Body` is the dynamic type, so virtual calls are clauses.
use magpie_cpp.Prelude.{ℕ, String, Bool, Option, some, List}
use magpie_cpp.Prelude.Int.{ℤ, is_nonzero}
use magpie_cpp.Value.{Value, Values, Dict, bool, int, double, string, binary, list, dict, find, set}
use magpie_cpp.Frame.{Frame, base_to_dict, base_load, string_or, int32_or, binary_or}

-- The fields of AudioFrameRaw, which AudioFrameFlac inherits.
pub record Audio : Type 0 where
  pub samples : List ℕ
  pub channels : ℤ
  pub sample_rate : ℤ
  pub bit_depth : ℤ
  pub format : String

-- The fields of ImageFrameRaw, which ImageFrameJpeg inherits.
pub record Image : Type 0 where
  pub pixels : List ℕ
  pub format : String
  pub width : ℤ
  pub height : ℤ
  pub channels : ℤ
  pub pixel_format : String

pub data Body : Type 0 where
  bool_frame : Bool → Body
  int_frame : ℤ → Body
  float_frame : ℕ → Body
  string_frame : String → Body
  bytes_frame : List ℕ → Body
  dict_frame : Dict → Body
  list_frame : Values → Body
  audio_raw : Audio → Body
  audio_flac : Audio → Body
  image_raw : Image → Body
  image_jpeg : Image → Body

pub record FrameObject : Type 0 where
  pub base : Frame
  pub body : Body

-- The name under which a class is registered, and which its constructors give it.
unfoldable pub class_name : Body → String
class_name (bool_frame _) = "BoolFrame"
class_name (int_frame _) = "IntFrame"
class_name (float_frame _) = "FloatFrame"
class_name (string_frame _) = "StringFrame"
class_name (bytes_frame _) = "BytesFrame"
class_name (dict_frame _) = "DictFrame"
class_name (list_frame _) = "ListFrame"
class_name (audio_raw _) = "AudioFrameRaw"
class_name (audio_flac _) = "AudioFrameFlac"
class_name (image_raw _) = "ImageFrameRaw"
class_name (image_jpeg _) = "ImageFrameJpeg"

-- AudioFrameRaw::toDict without the call of the base
unfoldable pub audio_to_dict : Audio → Dict → Dict
audio_to_dict a out = set "data" (binary a.samples) (
    set "format" (string a.format) (
      set "bit_depth" (int a.bit_depth)
        (set "sample_rate" (int a.sample_rate) (set "channels" (int a.channels) out))))

-- ImageFrameRaw::toDict without the call of the base
unfoldable pub image_to_dict : Image → Dict → Dict
image_to_dict i out = set "pixel_format" (string i.pixel_format) (
    set "channels" (int i.channels) (
      set "height" (int i.height) (
        set "width" (int i.width)
          (set "format" (string i.format) (set "data" (binary i.pixels) out)))))

unfoldable pub body_to_dict : Body → Dict → Dict
unfolding audio_to_dict image_to_dict
body_to_dict (bool_frame v) out = set "value" (bool v) out
body_to_dict (int_frame v) out = set "value" (int v) out
body_to_dict (float_frame v) out = set "value" (double v) out
body_to_dict (string_frame v) out = set "value" (string v) out
body_to_dict (bytes_frame v) out = set "value" (binary v) out
body_to_dict (dict_frame v) out = set "value" (dict v) out
body_to_dict (list_frame v) out = set "value" (list v) out
body_to_dict (audio_raw a) out = audio_to_dict a out
body_to_dict (audio_flac a) out = set "format" (string "FLAC") (audio_to_dict a out)
body_to_dict (image_raw i) out = image_to_dict i out
body_to_dict (image_jpeg i) out = set "format" (string "jpeg") (image_to_dict i out)

-- frame.toDict(out)
unfoldable pub to_dict : FrameObject → Dict → Dict
unfolding base_to_dict body_to_dict
to_dict f out = body_to_dict f.body (base_to_dict f.base out)

-- AudioFrameRaw::loadFromDict without the call of the base
unfoldable pub audio_load : Audio → Dict → Audio
unfolding string_or int32_or binary_or
audio_load a d = record {
  samples = binary_or a.samples (find "data" d);
  channels = int32_or a.channels (find "channels" d);
  sample_rate = int32_or a.sample_rate (find "sample_rate" d);
  bit_depth = int32_or a.bit_depth (find "bit_depth" d);
  format = string_or a.format (find "format" d);
}

-- ImageFrameRaw::loadFromDict without the call of the base
unfoldable pub image_load : Image → Dict → Image
unfolding string_or int32_or binary_or
image_load i d = record {
  pixels = binary_or i.pixels (find "data" d);
  format = string_or i.format (find "format" d);
  width = int32_or i.width (find "width" d);
  height = int32_or i.height (find "height" d);
  channels = int32_or i.channels (find "channels" d);
  pixel_format = string_or i.pixel_format (find "pixel_format" d);
}

unfoldable pub bool_or : Bool → Option Value → Bool
unfolding is_nonzero
bool_or old (some (bool b)) = b
bool_or old (some (int z)) = is_nonzero z
bool_or old _ = old

unfoldable pub dict_or : Dict → Option Value → Dict
dict_or old (some (dict d)) = d
dict_or old _ = old

unfoldable pub list_or : Values → Option Value → Values
list_or old (some (list l)) = l
list_or old _ = old

-- The encoded frames set their name again after the base has loaded it.
unfoldable pub name_after_load : Body → Frame → Frame
name_after_load (audio_flac _) f = record f { name = "AudioFrameFlac" }
name_after_load (image_jpeg _) f = record f { name = "ImageFrameJpeg" }
name_after_load _ f = f

-- The conversions between std::int64_t and double are the compiler's.
pub record Doubles : Type 0 where
  pub of_int : ℤ → ℕ
  pub to_int : ℕ → ℤ

module _ (doubles : Doubles) where
  unfoldable pub int64_or : ℤ → Option Value → ℤ
  int64_or old (some (int z)) = z
  int64_or old (some (double x)) = doubles.to_int x
  int64_or old _ = old

  unfoldable pub double_or : ℕ → Option Value → ℕ
  double_or old (some (double x)) = x
  double_or old (some (int z)) = doubles.of_int z
  double_or old _ = old

  unfoldable pub body_load : Body → Dict → Body
  unfolding bool_or int64_or double_or string_or binary_or dict_or list_or audio_load image_load
  body_load (bool_frame v) d = bool_frame (bool_or v (find "value" d))
  body_load (int_frame v) d = int_frame (int64_or v (find "value" d))
  body_load (float_frame v) d = float_frame (double_or v (find "value" d))
  body_load (string_frame v) d = string_frame (string_or v (find "value" d))
  body_load (bytes_frame v) d = bytes_frame (binary_or v (find "value" d))
  body_load (dict_frame v) d = dict_frame (dict_or v (find "value" d))
  body_load (list_frame v) d = list_frame (list_or v (find "value" d))
  body_load (audio_raw a) d = audio_raw (audio_load a d)
  body_load (audio_flac a) d = audio_flac (record (audio_load a d) { format = "FLAC" })
  body_load (image_raw i) d = image_raw (image_load i d)
  body_load (image_jpeg i) d = image_jpeg (record (image_load i d) { format = "jpeg" })

  -- frame.loadFromDict(d)
  unfoldable pub load_from_dict : FrameObject → Dict → FrameObject
  unfolding base_load body_load name_after_load
  load_from_dict f d = record {
    base = name_after_load f.body (base_load f.base d);
    body = body_load f.body d;
  }

-- frame.clone(): the copy constructor
unfoldable pub clone : FrameObject → Option FrameObject
clone f = some f
