-- ===== src/Mqtt/Connection.antt =====
-- The subscriptions of MqttConnection, src/transport/mqtt/mqtt_connection.cpp. What is asked of
-- the MQTT client library comes back as a list of calls; their failures are only logged. Whether
-- the client is connected is an argument of each operation.
pub mod Broker
pub mod Session
pub mod Delivery
use mathlib.Core.Option
use magpie_cpp.Prelude.Map
use magpie_cpp.Prelude.Map.{Map}
use magpie_cpp.Prelude.{
  ◌&&◌, ◌^◌, ◌++◌, ◌%◌, eqb, ◌||◌, ◌+◌, if◌then◌else◌, ◌∷◌, Bool, Option, List, ℕ, String, true,
  some, none, false, [],
}
use magpie_cpp.Prelude.Int.{ℤ, pos, negsuc}
use magpie_cpp.Mqtt.Topic.{topic_matches}

pub data ClientCall : Type 0 where
  subscribe : String → ℤ → ClientCall
  unsubscribe : String → ClientCall
  publish : String → List ℕ → ℤ → Bool → ClientCall

-- Impl::TopicEntry; a callback has its handle.
pub record TopicEntry (C : Type 0) : Type 0 where
  pub qos : ℤ
  pub callbacks : List (ℕ × C)

-- The parts of Impl and of MqttOptions::defaults that the operations read.
pub record Connection (C : Type 0) : Type 0 where
  pub subscriptions : Map (TopicEntry C)
  pub next_handle : ℕ
  pub publish_qos : ℤ
  pub subscribe_qos : ℤ
  pub publish_retain : Bool

-- (qos < 0) ? default : qos
unfoldable pub resolve_qos : ℤ → ℤ → ℤ
resolve_qos default (pos n) = pos n
resolve_qos default (negsuc n) = default

-- callbacks.erase(handle)
unfoldable pub erase_handle : {C : Type 0} → ℕ → List (ℕ × C) → List (ℕ × C)
erase_handle handle [] = []
erase_handle handle ((h, cb) ∷ rest) =
    let kept = erase_handle handle rest in if eqb h handle then kept else (h, cb) ∷ kept

unfoldable pub has_none : {C : Type 0} → List (ℕ × C) → Bool
has_none [] = true
has_none (x ∷ xs) = false

-- subscriptions[filter], and whether its entry has no callbacks yet.
unfoldable pub entry_or_new : {C : Type 0} → Option (TopicEntry C) → TopicEntry C
entry_or_new none = record { qos = pos 1; callbacks = [] }
entry_or_new (some e) = e

-- callbacks[handle] = callback, for a new handle
unfoldable pub join_entry : {C : Type 0} → ℤ → ℕ → C → TopicEntry C → TopicEntry C
unfolding has_none
join_entry qos handle callback e = record {
  qos = if has_none e.callbacks then qos else e.qos;
  callbacks = (handle, callback) ∷ erase_handle handle e.callbacks;
}

module _ {C : Type 0} where
  -- MqttConnection::addSubscription: the connection after it, the handle, and the calls.
  unfoldable pub add_subscription :
      Bool → String → C → ℤ → Connection C → Connection C × ℕ × List ClientCall
  unfolding resolve_qos entry_or_new join_entry has_none
  add_subscription connected filter callback qos c =
      let resolved = resolve_qos c.subscribe_qos qos in
      let e = entry_or_new (Map.find filter c.subscriptions) in
      (
        record c {
          subscriptions =
              Map.set filter (join_entry resolved c.next_handle callback e) c.subscriptions;
          next_handle = (c.next_handle + 1) % 2 ^ 64;
        },
        c.next_handle,
        (if has_none e.callbacks && connected then subscribe filter resolved ∷ [] else []),
      )

  -- The entry without the handle, if a callback is left.
  unfoldable pub leave_entry : ℕ → TopicEntry C → Option (TopicEntry C)
  unfolding erase_handle has_none
  leave_entry handle e =
      let kept = erase_handle handle e.callbacks in
      if has_none kept then none else some (record e { callbacks = kept })

  unfoldable pub store_left :
      Bool → String → Connection C → Option (TopicEntry C) → Connection C × List ClientCall
  store_left connected filter c (some e) =
      (record c { subscriptions = Map.set filter e c.subscriptions }, [])
  store_left connected filter c none = (
    record c { subscriptions = Map.erase filter c.subscriptions },
    (if connected then unsubscribe filter ∷ [] else []),
  )

  unfoldable pub remove_found :
      Bool → String → ℕ → Connection C → Option (TopicEntry C) → Connection C × List ClientCall
  unfolding leave_entry store_left
  remove_found connected filter handle c none = (c, [])
  remove_found connected filter handle c (some e) =
      store_left connected filter c (leave_entry handle e)

  -- MqttConnection::removeSubscription
  unfoldable pub remove_subscription :
      Bool → String → ℕ → Connection C → Connection C × List ClientCall
  unfolding remove_found
  remove_subscription connected filter handle c =
      remove_found connected filter handle c (Map.find filter c.subscriptions)

  unfoldable pub subscribe_all : Map (TopicEntry C) → List ClientCall
  subscribe_all [] = []
  subscribe_all ((filter, e) ∷ rest) = subscribe filter e.qos ∷ subscribe_all rest

  -- Impl::onConnected
  unfoldable pub on_connected : Connection C → List ClientCall
  unfolding subscribe_all
  on_connected c = subscribe_all c.subscriptions

  unfoldable pub matching : String → Map (TopicEntry C) → List (ℕ × C)
  unfolding topic_matches
  matching topic [] = []
  matching topic ((filter, e) ∷ rest) =
      (if topic_matches filter topic then e.callbacks else []) ++ matching topic rest

  -- Impl::onMessage: the callbacks that it runs, each with the topic and the payload.
  unfoldable pub on_message : String → Connection C → List (ℕ × C)
  unfolding matching
  on_message topic c = matching topic c.subscriptions

  -- MqttConnection::publish
  unfoldable pub publish_message : String → List ℕ → ℤ → Bool → Connection C → List ClientCall
  unfolding resolve_qos
  publish_message topic payload qos retain c =
      publish topic payload (resolve_qos c.publish_qos qos) (retain || c.publish_retain) ∷ []
