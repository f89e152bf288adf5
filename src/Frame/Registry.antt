-- ===== src/Frame/Registry.antt =====
-- The registry of frame types: Frame::registerType, Frame::unregisterType and Frame::fromDict of
-- src/frames/frame.cpp, with the default constructors and the Registrar objects of the classes.
pub mod RoundTrip
use magpie_cpp.Prelude.{
  ℕ, String, ◌≡◌, Bool, false, Option, none, some, List, [], arith, ◌==◌, if◌then◌else◌,
}
use magpie_cpp.Prelude.Int.{ℤ, pos}
use magpie_cpp.Prelude.Map
use magpie_cpp.Prelude.Map.{Map, map_laws}
use magpie_cpp.Value.{Value, Dict, nil, empty, string, find}
use magpie_cpp.Frame.{Frame, Fresh, new_frame}
use magpie_cpp.Frame.Body.{
  Audio, Image, Body, FrameObject, Doubles, bool_frame, int_frame, float_frame, string_frame,
  bytes_frame, dict_frame, list_frame, audio_raw, audio_flac, image_raw, image_jpeg, class_name,
  load_from_dict,
}

-- `none` is a factory that returns null.
abbrev pub Factory : Type 0
Factory = Fresh → Option FrameObject

abbrev pub Registry : Type 0
Registry = Map Factory

unfoldable pub register_type : String → Factory → Registry → Registry
register_type name factory registry = Map.set name factory registry

unfoldable pub unregister_type : String → Registry → Registry
unregister_type name registry = Map.erase name registry

-- The default member values of AudioFrameRaw and ImageFrameRaw.
abbrev new_audio : String → Audio
new_audio format = record {
  samples = [];
  channels = pos 1;
  sample_rate = pos 16000;
  bit_depth = pos 16;
  format = format;
}

abbrev new_image : String → Image
new_image format = record {
  pixels = [];
  format = format;
  width = pos 0;
  height = pos 0;
  channels = pos 0;
  pixel_format = "";
}

-- The fields of a frame that its default constructor has just made, for the class of a body. The
-- pattern of a double whose value is 0.0 is 0.
unfoldable pub default_body : Body → Body
default_body (bool_frame _) = bool_frame false
default_body (int_frame _) = int_frame (pos 0)
default_body (float_frame _) = float_frame 0
default_body (string_frame _) = string_frame ""
default_body (bytes_frame _) = bytes_frame []
default_body (dict_frame _) = dict_frame empty
default_body (list_frame _) = list_frame nil
default_body (audio_raw _) = audio_raw (new_audio "PCM")
default_body (audio_flac _) = audio_flac (new_audio "FLAC")
default_body (image_raw _) = image_raw (new_image "raw")
default_body (image_jpeg _) = image_jpeg (new_image "jpeg")

-- The factory of the class of a body: it calls the default constructor.
unfoldable pub factory_of : Body → Factory
unfolding new_frame class_name default_body
factory_of b fresh =
    some (record { base = record (new_frame fresh) { name = class_name b }; body = default_body b })

-- What a Registrar does.
unfoldable pub register_class : Body → Registry → Registry
unfolding class_name register_type
register_class b registry = register_type (class_name b) (factory_of b) registry

-- The static Registrar objects, one for each class, in one of the orders they may run in.
unfoldable pub builtin_registry : Registry
unfolding register_class default_body
builtin_registry = register_class (bool_frame false) (
    register_class (int_frame (pos 0)) (
      register_class (float_frame 0) (
        register_class (string_frame "") (
          register_class (bytes_frame []) (
            register_class (dict_frame empty) (
              register_class (list_frame nil) (
                register_class (audio_raw (new_audio "PCM")) (
                  register_class (audio_flac (new_audio "FLAC")) (
                    register_class (image_raw (new_image "raw"))
                      (register_class (image_jpeg (new_image "jpeg")) []))))))))))

-- ftIt->second() and loadFromDict
unfoldable pub load_made : Doubles → Option FrameObject → Dict → Option FrameObject
load_made doubles none d = none
load_made doubles (some frame) d = some (load_from_dict doubles frame d)

unfoldable pub build : Doubles → Option Factory → Fresh → Dict → Option FrameObject
unfolding load_made
build doubles none fresh d = none
build doubles (some factory) fresh d = load_made doubles (factory fresh) d

-- Frame::fromDict; `none` is the null pointer.
unfoldable pub from_named : Doubles → Registry → Fresh → Dict → Option Value → Option FrameObject
unfolding build
from_named doubles registry fresh d (some (string name)) =
    build doubles (Map.find name registry) fresh d
from_named doubles registry fresh d _ = none

unfoldable pub from_dict : Doubles → Registry → Fresh → Dict → Option FrameObject
unfolding from_named
from_dict doubles registry fresh d = from_named doubles registry fresh d (find "name" d)
