-- ===== src/Mqtt/Streams.antt =====
-- Frames over MQTT: src/transport/mqtt/mqtt_stream_writer.cpp and
-- src/transport/mqtt/mqtt_stream_reader.cpp. The serializer is an argument.
use magpie_cpp.Prelude.Map
use magpie_cpp.Prelude.{
  ap, not, eqb, arith, ◌≡◌, ◌||◌, ◌<>◌, if◌then◌else◌, ◌∷◌, ℕ, Option, List, Bool, String, true,
  some, refl, none, false, [],
}
use magpie_cpp.Value.{Value, empty, dict}
use magpie_cpp.Prelude.Result.{what, Result, Exception, timeout_error, throw, plain_timeout, ok}
use magpie_cpp.Prelude.Int.{ℤ, pos, negsuc}
use magpie_cpp.Mqtt.Connection.{ClientCall, Connection, resolve_qos, publish_message, publish}
use magpie_cpp.Stream.{emplace_back}
use magpie_cpp.Frame.Body.{class_name, FrameObject, Doubles, to_dict}
use magpie_cpp.Frame.Registry.{factory_of, from_dict, Registry}
use magpie_cpp.Frame.{Fresh}
use magpie_cpp.Frame.Registry.RoundTrip.{from_dict-to_dict, IsValid}

pub record MqttStreamReader : Type 0 where
  pub name : String
  pub mqtt_closed : Bool
  pub mqtt_queue : List (String × List ℕ)

-- MqttStreamReader::onMessage
unfoldable pub on_stream_message : String → List ℕ → MqttStreamReader → MqttStreamReader
unfolding emplace_back
on_stream_message topic payload r =
    if r.mqtt_closed
    then r
    else record r { mqtt_queue = emplace_back (topic, payload) r.mqtt_queue }

module _ {C : Type 0} where
  -- retain_, as the constructor finds it: an argument below 0 stands for the connection's default.
  unfoldable pub writer_retain : ℤ → Connection C → Bool
  writer_retain (pos n) c = not (eqb n 0)
  writer_retain (negsuc n) c = c.publish_retain

  unfoldable pub publish_bytes :
      Result (List ℕ) → String → ℤ → Bool → Connection C → List ClientCall
  unfolding publish_message resolve_qos
  publish_bytes (throw e) topic qos retain c = []
  publish_bytes (ok bytes) topic qos retain c =
      publish_message topic bytes (resolve_qos c.publish_qos qos) (retain || c.publish_retain) c

  -- MqttStreamWriter::transportWrite: what it asks of the client; exceptions are only logged.
  unfoldable pub write_frame :
      (Value → Result (List ℕ)) → FrameObject → String → ℤ → Bool → Connection C → List ClientCall
  unfolding publish_bytes to_dict
  write_frame serialize f topic qos retain c =
      publish_bytes (serialize (dict (to_dict f empty))) topic qos retain c

-- What fromDict gave, with the topic; a null pointer is dropped.
unfoldable pub with_topic : String → Option FrameObject → Option (FrameObject × String)
with_topic topic none = none
with_topic topic (some f) = some (f, topic)

unfoldable pub dropped : Exception → Option String → Result (Option (FrameObject × String))
dropped e none = throw e
dropped e (some reason) = ok none

module _ (doubles : Doubles) (registry : Registry) (fresh : Fresh) where
  -- The try block of transportReadBlocking.
  unfoldable pub decode_frame : String → Result Value → Result (Option (FrameObject × String))
  unfolding from_dict with_topic dropped what
  decode_frame topic (ok (dict d)) = ok (with_topic topic (from_dict doubles registry fresh d))
  decode_frame topic (ok _) = ok none
  decode_frame topic (throw e) = dropped e (what e)

  -- transportReadBlocking behind its first check, each time its thread wakes; `none` waits on.
  unfoldable pub read_stream_woken :
      (List ℕ → Result Value)
      → Bool
      → MqttStreamReader
      → Option (Result (Option (FrameObject × String))) × MqttStreamReader
  unfolding decode_frame
  read_stream_woken deserialize expired r = next r.mqtt_queue
    where
      next :
          List (String × List ℕ)
          → Option (Result (Option (FrameObject × String))) × MqttStreamReader
      next ((topic, payload) ∷ rest) =
          (some (decode_frame topic (deserialize payload)), record r { mqtt_queue = rest })
      next [] =
          if r.mqtt_closed
          then (some (ok none), r)
          else if expired
          then (some (throw (timeout_error plain_timeout (r.name <> ": no data received"))), r)
          else (none, r)

  -- MqttStreamReader::transportReadBlocking
  unfoldable pub read_stream :
      (List ℕ → Result Value)
      → Bool
      → MqttStreamReader
      → Option (Result (Option (FrameObject × String))) × MqttStreamReader
  unfolding read_stream_woken
  read_stream deserialize expired r =
      if r.mqtt_closed then (some (ok none), r) else read_stream_woken deserialize expired r

-- MqttStreamReader::transportClose, but for the subscription.
unfoldable pub close_stream : MqttStreamReader → MqttStreamReader
close_stream r = record r { mqtt_closed = true }

unfoldable pub is_positive : ℤ → Bool
is_positive (pos n) = not (eqb n 0)
is_positive (negsuc n) = false

-- The two times that the default is consulted.
retained :
    {C : Type 0} (retain : ℤ) (c : Connection C)
    → ((writer_retain retain c || c.publish_retain) || c.publish_retain)
      ≡ (is_positive retain || c.publish_retain)
unfolding writer_retain is_positive
retained (pos n) c = ground arith
retained (negsuc n) c = ground arith

-- A valid frame of a registered class that a writer sends is published once, retained if the
-- writer was made with a retain above 0 or the connection retains by default, which a writer that
-- was made with a retain of 0 does not override; and a reader that is open and has read all before
-- it and receives these bytes reads that frame, with its topic; the serializer is asked to give
-- back the one dict that it was given.
pub read_stream-write_frame :
    {C : Type 0} (serialize : Value → Result (List ℕ)) (deserialize : List ℕ → Result Value)
    (doubles : Doubles) (registry : Registry) (fresh : Fresh) (f : FrameObject) (topic : String)
    (retain : ℤ) (expired : Bool) (c : Connection C) (r : MqttStreamReader) (bytes : List ℕ)
    (qos : ℕ)
    → IsValid f
    → Map.find (class_name f.body) registry ≡ some (factory_of f.body)
    → serialize (dict (to_dict f empty)) ≡ ok bytes
    → deserialize bytes ≡ ok (dict (to_dict f empty))
    → r.mqtt_closed ≡ false
    → r.mqtt_queue ≡ []
    → (write_frame serialize f topic (pos qos) (writer_retain retain c) c
        ≡ (publish topic bytes (pos qos) (is_positive retain || c.publish_retain) ∷ []))
      × ((read_stream doubles registry fresh deserialize expired
            (on_stream_message topic bytes r)).0
          ≡ some (ok (some (f, topic))))
unfolding write_frame is_positive writer_retain publish_bytes publish_message resolve_qos
    read_stream read_stream_woken on_stream_message decode_frame emplace_back with_topic
read_stream-write_frame serialize deserialize doubles registry fresh f topic retain expired c r
      bytes qos valid known sent received is_open drained =
    (
      rw sent (ap (λ b. publish topic bytes (pos qos) b ∷ []) (retained retain c)),
      simp
          (is_open, drained, received, from_dict-to_dict doubles registry fresh f empty valid known)
          refl,
    )
