-- ===== src/Webrtc/Streams/MediaChannel.antt =====
-- Frames over the channel for media: src/transport/webrtc/webrtc_stream_writer.cpp,
-- webrtc_connection.cpp and webrtc_stream_reader.cpp.
use magpie_cpp.Value
use magpie_cpp.Prelude.Map
use magpie_cpp.Prelude.{
  eq_iff, Bool-cases, ◌∷◌, ◌==◌, if◌then◌else◌, Bool, ℕ, ◌⊎◌, Option, ◌≡◌, text_ltb, String, true,
  some, refl, inr, inl, false, [],
}
use magpie_cpp.Frame.Body.{
  to_dict, class_name, FrameObject, Body, Doubles, string_frame, list_frame, int_frame, image_raw,
  image_jpeg, float_frame, dict_frame, bytes_frame, bool_frame, audio_raw, audio_flac,
}
use magpie_cpp.Value.{Dict, empty, dict}
use magpie_cpp.Prelude.Result.{ok}
use magpie_cpp.Webrtc.Streams.{
  webrtc_read, WebrtcStreamReader, SendCall, write_media, reader_change, write_kind, topic_envelope,
  webrtc_write, media_kind, over_media,
}
use magpie_cpp.Webrtc.Routing.{run_each, Callbacks, by_media_kind, on_media_message, run_frame}
use magpie_cpp.Frame.Registry.{factory_of, Registry}
use magpie_cpp.Webrtc.Streams.Delivery.{read-run_frame, take_invocations, reader_callbacks}
use magpie_cpp.Frame.{Fresh}
use magpie_cpp.Mqtt.Requester.{text_of}
use magpie_cpp.Webrtc.Callbacks.{put_handle, change_callbacks}
use magpie_cpp.Mqtt.Connection.{erase_handle}
use magpie_cpp.Frame.Registry.RoundTrip.{IsValid}

module _ (doubles : Doubles) (registry : Registry) (fresh : Fresh) where
  -- What the writer sends over the media channel comes to the peer with the callbacks.
  unfoldable pub carried_as_media :
      Option SendCall → Callbacks (Unit {0}) → WebrtcStreamReader → WebrtcStreamReader
  unfolding take_invocations on_media_message
  carried_as_media (some (over_media v)) c r =
      take_invocations doubles registry fresh (on_media_message (ok v) c) r
  carried_as_media _ c r = r

kind_envelope-routed :
    {C : Type 0} (kind topic : String) (d : Dict) (c : Callbacks C)
    → on_media_message (ok (topic_envelope "kind" kind topic (dict d))) c
      ≡ by_media_kind c (some kind) (some (dict d))
unfolding on_media_message topic_envelope Value.set Value.find text_of text_ltb
kind_envelope-routed kind topic d c = refl

by_media_kind-reader_callbacks :
    (h : ℕ) (topic kind : String) (d : Dict)
    → (kind ≡ "video") ⊎ (kind ≡ "audio")
    → by_media_kind (reader_callbacks h topic) (some kind) (some (dict d))
      ≡ (if topic == kind then run_frame tt (dict d) ∷ [] else [])
unfolding by_media_kind reader_callbacks reader_change change_callbacks put_handle erase_handle
    run_each
by_media_kind-reader_callbacks h topic kind d (inl k) = rw k (elim (Bool-cases (topic == "video")) [
  | inl v ↦ simp v refl
  | inr v ↦ elim (Bool-cases (topic == "audio")) [
    | inl a ↦ simp (v, a) refl
    | inr a ↦ simp (v, a) refl
  ]
])
by_media_kind-reader_callbacks h topic kind d (inr k) = rw k (elim (Bool-cases (topic == "audio")) [
  | inl a ↦ rw ((eq_iff topic "audio").0 a) refl
  | inr a ↦ elim (Bool-cases (topic == "video")) [
    | inl v ↦ simp (v, a) refl
    | inr v ↦ simp (v, a) refl
  ]
])

media_kind-known :
    (b : Body) (kind : String) → media_kind b ≡ some kind → (kind ≡ "video") ⊎ (kind ≡ "audio")
unfolding media_kind
media_kind-known (image_raw i) kind e = inl cc
media_kind-known (image_jpeg i) kind e = inl cc
media_kind-known (audio_raw a) kind e = inr cc
media_kind-known (audio_flac a) kind e = inr cc
media_kind-known (bool_frame v) kind e = cc
media_kind-known (int_frame v) kind e = cc
media_kind-known (float_frame v) kind e = cc
media_kind-known (string_frame v) kind e = cc
media_kind-known (bytes_frame v) kind e = cc
media_kind-known (dict_frame v) kind e = cc
media_kind-known (list_frame v) kind e = cc

-- A valid image or audio frame of a registered class that goes over the media channel is read by the
-- reader of its topic, which is open and has read all before it, only if that topic is the name of its
-- kind, "video" or "audio": under any other topic that reader has nothing to read.
pub webrtc_read-media_channel :
    (doubles : Doubles) (registry : Registry) (fresh : Fresh) (f : FrameObject)
    (kind topic : String) (h : ℕ) (expired : Bool) (r : WebrtcStreamReader)
    → IsValid f
    → Map.find (class_name f.body) registry ≡ some (factory_of f.body)
    → media_kind f.body ≡ some kind
    → r.data_closed ≡ false
    → r.data_queue ≡ []
    → r.topic_filter ≡ topic
    → (webrtc_read expired (
        carried_as_media doubles registry fresh
          (webrtc_write true f topic)
          (reader_callbacks h topic)
          r)).0
      ≡ (if topic == kind then some (ok (some (f, topic))) else (webrtc_read expired r).0)
unfolding webrtc_write write_kind write_media carried_as_media
webrtc_read-media_channel doubles registry fresh f kind topic h expired r valid known has_kind
      is_open drained same =
    let heard =
      by_media_kind-reader_callbacks h topic kind (to_dict f empty)
        (media_kind-known f.body kind has_kind) in
    simp (has_kind, kind_envelope-routed, heard)
      (elim (Bool-cases (topic == kind)) [
        | inl e ↦ simp e (
            read-run_frame doubles registry fresh h topic f expired r valid known is_open drained
              same)
        | inr e ↦ simp e (unfold take_invocations in refl)
      ])
