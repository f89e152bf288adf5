-- ===== src/Frame/Registry/RoundTrip.antt =====
-- Encoding a frame into a dict and decoding it again.
use magpie_cpp.Prelude.{◌≡◌, refl, Option, inl, inr, some, arith, ap, ◌∙◌, ◌⊎◌, ◌↔◌, none}
use magpie_cpp.Prelude.Int.{ℤ, IsInt32, to_int32-eq_of_IsInt32}
use magpie_cpp.Prelude.Map
use magpie_cpp.Prelude.Map.{map_laws}
use magpie_cpp.Value.{Value, Dict, int, string, find, dict_laws}
use magpie_cpp.Frame.{Frame, Fresh, int32_or, base_to_dict, base_load}
use magpie_cpp.Frame.Body.{
  Audio, Image, Body, FrameObject, Doubles, bool_frame, audio_raw, audio_flac, image_raw,
  image_jpeg, class_name, to_dict, load_from_dict, name_after_load, body_to_dict, body_load,
}
use magpie_cpp.Frame.Registry.{
  from_named, build, Registry, Factory, builtin_registry, factory_of, default_body, from_dict,
}

-- The `int` members of a frame are 32-bit.
pub record AudioFits (a : Audio) : Type 0 where
  pub channels_fit : IsInt32 a.channels
  pub rate_fits : IsInt32 a.sample_rate
  pub depth_fits : IsInt32 a.bit_depth

pub record ImageFits (i : Image) : Type 0 where
  pub width_fits : IsInt32 i.width
  pub height_fits : IsInt32 i.height
  pub channels_fit : IsInt32 i.channels

-- The members are of their C++ types, and an encoded frame has the format of its class.
abbrev pub BodyIsValid : Body → Type 0
BodyIsValid (audio_raw a) = AudioFits a
BodyIsValid (audio_flac a) = AudioFits a × (a.format ≡ "FLAC")
BodyIsValid (image_raw i) = ImageFits i
BodyIsValid (image_jpeg i) = ImageFits i × (i.format ≡ "jpeg")
BodyIsValid _ = Unit

pub record IsValid (f : FrameObject) : Type 0 where
  pub named : f.base.name ≡ class_name f.body
  pub body_valid : BodyIsValid f.body

-- No class overwrites the keys of the metadata.
base_load-to_dict :
    (b : Body) (f g : Frame) (out : Dict) → base_load g (body_to_dict b (base_to_dict f out)) ≡ f
unfolding base_load base_to_dict body_to_dict
base_load-to_dict (bool_frame v) f g out = simp dict_laws
base_load-to_dict _ f g out = simp dict_laws

find-name-body_to_dict :
    (b : Body) (f : Frame) (out : Dict)
    → find "name" (body_to_dict b (base_to_dict f out)) ≡ some (string f.name)
unfolding base_to_dict body_to_dict
find-name-body_to_dict (bool_frame v) f out = simp dict_laws
find-name-body_to_dict _ f out = simp dict_laws

pub find-name-to_dict :
    (f : FrameObject) (out : Dict) → find "name" (to_dict f out) ≡ some (string f.base.name)
unfolding to_dict
find-name-to_dict f out = find-name-body_to_dict f.body f.base out

-- A 32-bit member comes back from its 64-bit entry.
int32_or-int : (old z : ℤ) → IsInt32 z → int32_or old (some (int z)) ≡ z
unfolding int32_or
int32_or-int old z h = to_int32-eq_of_IsInt32 z h

body_load-to_dict :
    (doubles : Doubles) (b : Body) (out : Dict)
    → BodyIsValid b
    → body_load doubles (default_body b) (body_to_dict b out) ≡ b
unfolding body_load default_body body_to_dict
body_load-to_dict doubles (audio_raw a) out v = simp (
  dict_laws,
  int32_or-int _ _ v.channels_fit,
  int32_or-int _ _ v.rate_fits,
  int32_or-int _ _ v.depth_fits,
)
body_load-to_dict doubles (audio_flac a) out v =
    simp
      (
        dict_laws,
        int32_or-int _ _ v.0.channels_fit,
        int32_or-int _ _ v.0.rate_fits,
        int32_or-int _ _ v.0.depth_fits,
      )
      (ground (arith, v.1))
body_load-to_dict doubles (image_raw i) out v = simp (
  dict_laws,
  int32_or-int _ _ v.channels_fit,
  int32_or-int _ _ v.width_fits,
  int32_or-int _ _ v.height_fits,
)
body_load-to_dict doubles (image_jpeg i) out v =
    simp
      (
        dict_laws,
        int32_or-int _ _ v.0.channels_fit,
        int32_or-int _ _ v.0.width_fits,
        int32_or-int _ _ v.0.height_fits,
      )
      (ground (arith, v.1))
body_load-to_dict doubles _ out v = simp dict_laws

-- The class name that the encoded frames set again is the one they had.
name_after_load-named :
    (b : Body) (f : Frame) → f.name ≡ class_name b → name_after_load (default_body b) f ≡ f
unfolding name_after_load default_body class_name
name_after_load-named (audio_flac a) f h = ground (arith, h)
name_after_load-named (image_jpeg a) f h = ground (arith, h)
name_after_load-named _ f h = refl

-- Loading into a new object of the frame's class, whatever its metadata.
load_from_dict-to_dict :
    (doubles : Doubles) (f : FrameObject) (new : Frame) (out : Dict)
    → IsValid f
    → load_from_dict doubles (record { base = new; body = default_body f.body }) (to_dict f out) ≡ f
unfolding load_from_dict to_dict
load_from_dict-to_dict doubles f new out v = ground (
  arith,
  base_load-to_dict f.body f.base new out,
  body_load-to_dict doubles f.body (base_to_dict f.base out) v.body_valid,
  name_after_load-named f.body f.base v.named,
)

-- Decoding what a valid frame was encoded to, into whatever dict, gives that frame, in any
-- registry in which its class is registered.
pub from_dict-to_dict :
    (doubles : Doubles) (registry : Registry) (fresh : Fresh) (f : FrameObject) (out : Dict)
    → IsValid f
    → Map.find (class_name f.body) registry ≡ some (factory_of f.body)
    → from_dict doubles registry fresh (to_dict f out) ≡ some f
unfolding from_dict factory_of
from_dict-to_dict doubles registry fresh f out v registered =
    rw (find-name-to_dict f out ∙ ap (λ name. some (string name)) v.named, registered)
      (ap some (load_from_dict-to_dict doubles f _ out v))

-- Every frame class of the library is in the registry that the static Registrar objects fill.
pub find-builtin_registry :
    (b : Body) → Map.find (class_name b) builtin_registry ≡ some (factory_of b)
unfolding builtin_registry factory_of
find-builtin_registry (bool_frame v) = simp map_laws
find-builtin_registry _ = simp map_laws

-- The null pointer is returned exactly when the name is missing or no text, when no type is
-- registered under it, or when its factory returns null.
abbrev pub CannotBuild : Registry → Fresh → Option Value → Type 0
CannotBuild registry fresh (some (string name)) =
    (Map.find name registry ≡ none)
    ⊎ ((factory : Factory) × (Map.find name registry ≡ some factory) × (factory fresh ≡ none))
CannotBuild registry fresh _ = Unit {0}

module _ (doubles : Doubles) (fresh : Fresh) (d : Dict) where
  build-none :
      (found : Option Factory)
      → (build doubles found fresh d ≡ none)
        ↔ ((found ≡ none) ⊎ ((factory : Factory) × (found ≡ some factory) × (factory fresh ≡ none)))
  unfolding build
  build-none none = (λ h. inl refl, λ h. refl)
  build-none (some factory) = (
    λ h. inr (factory, refl, (ground arith)),
    elim [
      | inl e ↦ cc
      | inr (other, same, null) ↦ ground (arith, ap (λ o. build doubles o fresh d) same)
    ],
  )

  from_named-none :
      (registry : Registry) (name : Option Value)
      → (from_named doubles registry fresh d name ≡ none) ↔ CannotBuild registry fresh name
  unfolding from_named
  from_named-none registry (some (string name)) = build-none (Map.find name registry)
  from_named-none registry _ = (λ h. tt, λ h. refl)

-- Decoding gives no frame exactly if the dict has no name, its name is no string or a name that is
-- not registered, or the factory gives none.
pub from_dict-none :
    (doubles : Doubles) (registry : Registry) (fresh : Fresh) (d : Dict)
    → (from_dict doubles registry fresh d ≡ none) ↔ CannotBuild registry fresh (find "name" d)
unfolding from_dict
from_dict-none doubles registry fresh d = from_named-none doubles fresh d registry (find "name" d)
