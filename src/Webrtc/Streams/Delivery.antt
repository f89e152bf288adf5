-- ===== src/Webrtc/Streams/Delivery.antt =====
-- From a writer to a reader: src/transport/webrtc/webrtc_stream_writer.cpp, webrtc_connection.cpp and
-- webrtc_stream_reader.cpp.
use magpie_cpp.Value
use magpie_cpp.Prelude.Map
use magpie_cpp.Prelude.{
  arith, Bool-cases, eq_refl, ◌||◌, ◌⊎◌, ◌∷◌, List, ◌==◌, ◌≡◌, text_ltb, not, Option, Bool, String,
  ℕ, true, some, refl, none, inr, inl, false, [],
}
use magpie_cpp.Value.{empty, Dict, dict}
use magpie_cpp.Prelude.Result.{ok}
use magpie_cpp.Webrtc.Streams.{
  webrtc_write, write_media, write_kind, make_frame, enqueue_made, webrtc_read_woken, webrtc_read,
  WebrtcStreamReader, SendCall, on_data_frame, on_media_frame, topic_envelope, reader_change,
  media_kind, over_data,
}
use magpie_cpp.Webrtc.Routing.{
  run_each, Invocation, held, by_kind, to_media, to_topic, on_data_message, Callbacks, run_message,
  run_frame, run_data,
}
use magpie_cpp.Webrtc.Callbacks.{put_handle, put_under, change_callbacks}
use magpie_cpp.Frame.Body.{to_dict, class_name, FrameObject, Body, Doubles}
use magpie_cpp.Frame.Registry.{factory_of, Registry}
use magpie_cpp.Frame.{Fresh}
use magpie_cpp.Mqtt.Requester.{text_of}
use magpie_cpp.Mqtt.Connection.{erase_handle}
use magpie_cpp.Frame.Registry.RoundTrip.{find-name-to_dict, from_dict-to_dict, IsValid}
use magpie_cpp.Stream.{emplace_back}

-- The connection of a reader and of nothing else.
abbrev pub no_callbacks : Callbacks (Unit {0})
no_callbacks = record {
  pub_callbacks = [];
  rpc_req_callbacks = [];
  rpc_rep_callbacks = [];
  video_callbacks = [];
  audio_callbacks = [];
}

unfoldable pub reader_callbacks : ℕ → String → Callbacks (Unit {0})
unfolding change_callbacks reader_change
reader_callbacks handle topic = change_callbacks false handle (reader_change topic tt) no_callbacks

-- The frame goes over the data channel, to a topic under which a reader registers a callback for
-- frames of its kind.
unfoldable pub kind_reaches : Option String → String → Bool
kind_reaches (some kind) topic = not (topic == "")
kind_reaches none topic = not (topic == "" || (topic == "video" || topic == "audio"))

unfoldable pub reaches : Body → String → Bool
unfolding media_kind kind_reaches
reaches b topic = kind_reaches (media_kind b) topic

module _ (doubles : Doubles) (registry : Registry) (fresh : Fresh) where
  -- The reader's callback is run.
  unfoldable pub take_invocations :
      List (Invocation (Unit {0})) → WebrtcStreamReader → WebrtcStreamReader
  unfolding on_media_frame on_data_frame
  take_invocations [] r = r
  take_invocations (run_data cb v topic ∷ rest) r =
      take_invocations rest (on_data_frame doubles registry fresh v topic r)
  take_invocations (run_frame cb v ∷ rest) r =
      take_invocations rest (on_media_frame doubles registry fresh v r)
  take_invocations (run_message cb v ∷ rest) r = take_invocations rest r

  -- What the writer sends over the data channel carried at the peer with the callbacks.
  unfoldable pub carried :
      Option SendCall → Callbacks (Unit {0}) → WebrtcStreamReader → WebrtcStreamReader
  unfolding take_invocations on_data_message
  carried (some (over_data v)) c r = take_invocations (on_data_message (ok v) c) r
  carried _ c r = r

pub_envelope-routed :
    {C : Type 0} (topic : String) (d : Dict) (c : Callbacks C)
    → on_data_message (ok (topic_envelope "type" "pub" topic (dict d))) c
      ≡ to_topic c (some topic) (some (dict d))
unfolding on_data_message by_kind topic_envelope Value.set Value.find text_of text_ltb
pub_envelope-routed topic d c = refl

media_envelope-routed :
    {C : Type 0} (topic : String) (d : Dict) (c : Callbacks C)
    → on_data_message (ok (topic_envelope "type" "media" topic (dict d))) c
      ≡ to_media c (some topic) (some (dict d))
unfolding on_data_message by_kind topic_envelope Value.set Value.find text_of text_ltb
media_envelope-routed topic d c = refl

to_topic-reader_callbacks :
    (h : ℕ) (topic : String) (d : Dict)
    → (topic == "video") ≡ false
    → (topic == "audio") ≡ false
    → to_topic (reader_callbacks h topic) (some topic) (some (dict d))
      ≡ (run_data tt (dict d) topic ∷ [])
unfolding to_topic reader_callbacks reader_change change_callbacks put_under put_handle Map.set
    Map.find held erase_handle run_each
to_topic-reader_callbacks h topic d v a = simp (v, a, eq_refl topic) refl

to_media-reader_callbacks :
    (h : ℕ) (topic : String) (d : Dict)
    → (to_media (reader_callbacks h topic) (some topic) (some (dict d))
        ≡ (run_frame tt (dict d) ∷ []))
      ⊎ (to_media (reader_callbacks h topic) (some topic) (some (dict d))
          ≡ (run_data tt (dict d) topic ∷ []))
unfolding to_media put_under held Map.find Map.set reader_callbacks reader_change change_callbacks
    put_handle erase_handle run_each
to_media-reader_callbacks h topic d = elim (Bool-cases (topic == "video")) [
  | inl v ↦ inl (simp v refl)
  | inr v ↦ elim (Bool-cases (topic == "audio")) [
    | inl a ↦ inl (simp (v, a) refl)
    | inr a ↦ inr (simp (v, a, eq_refl topic) refl)
  ]
]

module _ (doubles : Doubles) (registry : Registry) (fresh : Fresh) (h : ℕ) (topic : String) where
  written-carried :
      (kind : Option String) (d : Dict) (r : WebrtcStreamReader)
      → kind_reaches kind topic ≡ true
      → (carried doubles registry fresh
            (write_kind false kind topic (dict d))
            (reader_callbacks h topic)
            r
          ≡ take_invocations doubles registry fresh (run_frame tt (dict d) ∷ []) r)
        ⊎ (carried doubles registry fresh
              (write_kind false kind topic (dict d))
              (reader_callbacks h topic)
              r
            ≡ take_invocations doubles registry fresh (run_data tt (dict d) topic ∷ []) r)
  unfolding kind_reaches carried write_kind write_media
  written-carried none d r e =
      let named : (topic == "") ≡ false = ground arith in
      let no_video : (topic == "video") ≡ false = ground arith in
      let no_audio : (topic == "audio") ≡ false = ground arith in
      inr (
        simp (named, pub_envelope-routed, to_topic-reader_callbacks h topic d no_video no_audio)
          refl)
  written-carried (some kind) d r e =
      let named : (topic == "") ≡ false = ground arith in
      elim (to_media-reader_callbacks h topic d) [
        | inl p ↦ inl (simp (named, media_envelope-routed, p) refl)
        | inr p ↦ inr (simp (named, media_envelope-routed, p) refl)
      ]

  module _ (f : FrameObject) (expired : Bool) (r : WebrtcStreamReader) (valid : IsValid f)
      (known : Map.find (class_name f.body) registry ≡ some (factory_of f.body))
      (is_open : r.data_closed ≡ false) (drained : r.data_queue ≡ [])
      (same : r.topic_filter ≡ topic) where
    pub read-run_frame :
        (webrtc_read expired (
          take_invocations doubles registry fresh (run_frame tt (dict (to_dict f empty)) ∷ []) r)).0
        ≡ some (ok (some (f, topic)))
    unfolding webrtc_read webrtc_read_woken take_invocations on_media_frame enqueue_made
        emplace_back
    read-run_frame =
        simp (is_open, drained, same, from_dict-to_dict doubles registry fresh f empty valid known)
          refl

    make_frame-to_dict :
        make_frame doubles registry fresh
          (to_dict f empty)
          (text_of (Value.find "name" (to_dict f empty)))
        ≡ some f
    unfolding make_frame text_of
    make_frame-to_dict =
        rw (find-name-to_dict f empty)
          (from_dict-to_dict doubles registry fresh f empty valid known)

    read-run_data :
        (webrtc_read expired (
          take_invocations doubles registry fresh
            (run_data tt (dict (to_dict f empty)) topic ∷ [])
            r)).0
        ≡ some (ok (some (f, topic)))
    unfolding webrtc_read webrtc_read_woken take_invocations on_data_frame enqueue_made emplace_back
    read-run_data = simp (is_open, drained, make_frame-to_dict) refl

-- A valid frame of a registered class that a writer sends over the data channel, under a topic for
-- frames of its kind, runs the callback that a reader of this topic has registered: the reader, if it
-- is open and has read all before it, reads that frame, with its topic.
pub webrtc_read-webrtc_write :
    (doubles : Doubles) (registry : Registry) (fresh : Fresh) (f : FrameObject) (topic : String)
    (h : ℕ) (expired : Bool) (r : WebrtcStreamReader)
    → IsValid f
    → Map.find (class_name f.body) registry ≡ some (factory_of f.body)
    → reaches f.body topic ≡ true
    → r.data_closed ≡ false
    → r.data_queue ≡ []
    → r.topic_filter ≡ topic
    → (webrtc_read expired (
        carried doubles registry fresh (webrtc_write false f topic) (reader_callbacks h topic) r)).0
      ≡ some (ok (some (f, topic)))
unfolding reaches webrtc_write
webrtc_read-webrtc_write doubles registry fresh f topic h expired r valid known fits is_open drained
      same =
    elim (written-carried doubles registry fresh h topic (media_kind f.body) (to_dict f empty) r
      fits) [
        | inl p ↦ rw p (
            read-run_frame doubles registry fresh h topic f expired r valid known is_open drained
              same)
        | inr p ↦ rw p (
            read-run_data doubles registry fresh h topic f expired r valid known is_open drained
              same)
      ]
