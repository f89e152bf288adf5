-- ===== src/Mqtt/Connection/Broker.antt =====
-- The registry of src/transport/mqtt/mqtt_connection.cpp against the subscriptions that the broker
-- holds for the client: what each call of the client does there, if it arrives.
use magpie_cpp.Prelude.Map
use magpie_cpp.Prelude.Map.{Map, Distinct, map_laws}
use magpie_cpp.Prelude.{
  ◌++◌, Bool, Option-cases, eq_iff, arith, Bool-cases, inr, inl, ℕ, ◌≡◌, String, ◌∷◌, Option, List,
  true, some, refl, none, [],
}
use magpie_cpp.Mqtt.Connection.{
  remove_found, on_connected, join_entry, erase_handle, entry_or_new, leave_entry, has_none,
  store_left, TopicEntry, subscribe_all, remove_subscription, add_subscription, Connection,
  ClientCall, unsubscribe, subscribe, publish,
}
use magpie_cpp.Prelude.Int.{ℤ}

-- The broker's view: a filter and the quality of service that was granted.
abbrev pub Broker : Type 0
Broker = Map ℤ

unfoldable pub apply_call : Broker → ClientCall → Broker
apply_call b (subscribe filter qos) = Map.set filter qos b
apply_call b (unsubscribe filter) = Map.erase filter b
apply_call b (publish topic payload qos retain) = b

unfoldable pub apply_calls : Broker → List ClientCall → Broker
apply_calls b [] = b
apply_calls b (call ∷ calls) = apply_calls (apply_call b call) calls

pub apply_calls-append :
    (b : Broker) (calls more : List ClientCall)
    → apply_calls b (calls ++ more) ≡ apply_calls (apply_calls b calls) more
unfolding apply_calls
apply_calls-append b [] more = refl
apply_calls-append b (call ∷ calls) more = apply_calls-append (apply_call b call) calls more

module _ {C : Type 0} where
  abbrev pub qos_of : Option (TopicEntry C) → Option ℤ
  qos_of none = none
  qos_of (some e) = some e.qos

  -- The broker has each registered filter, at the quality that the registry notes, and no other.
  abbrev pub Synced : Connection C → Broker → Type 0
  Synced c b = (filter : String) → Map.find filter b ≡ qos_of (Map.find filter c.subscriptions)

  -- A subscription that is added while the client is connected keeps the broker in step.
  pub add_subscription-Synced :
      (filter : String) (callback : C) (qos : ℤ) (c : Connection C) (b : Broker)
      → Synced c b
      → let (c', handle, calls) = add_subscription true filter callback qos c in
        Synced c' (apply_calls b calls)
  unfolding add_subscription apply_calls apply_call join_entry entry_or_new has_none
  add_subscription-Synced filter callback qos c b synced j =
      elim (Bool-cases (has_none (entry_or_new (Map.find filter c.subscriptions)).callbacks)) [
        | inl e ↦ rw e (simp map_laws (ground (arith, synced j, eq_iff filter j)))
        | inr e ↦ rw e (simp map_laws (ground (arith, e, synced j, synced filter, eq_iff filter j)))
      ]

  pub remove_subscription-Synced :
      (filter : String) (handle : ℕ) (c : Connection C) (b : Broker)
      → Synced c b
      → let (c', calls) = remove_subscription true filter handle c in
        Synced c' (apply_calls b calls)
  unfolding remove_subscription apply_calls apply_call
  remove_subscription-Synced filter handle c b synced j =
      elim (Option-cases (Map.find filter c.subscriptions)) [
        | inl missing ↦ rw missing (synced j)
        | inr (e, found) ↦ rw found (left e found)
      ]
    where
      left :
          (e : TopicEntry C)
          → Map.find filter c.subscriptions ≡ some e
          → let (c', calls) = store_left true filter c (leave_entry handle e) in
            Map.find j (apply_calls b calls) ≡ qos_of (Map.find j c'.subscriptions)
      left e found = elim (Bool-cases (has_none (erase_handle handle e.callbacks))) [
        | inl none_left ↦ rw (none_left, leave_entry) (simp map_laws (ground (arith, synced j)))
        | inr some_left ↦
            rw (some_left, leave_entry)
              (simp map_laws (ground (arith, synced j, synced filter, eq_iff filter j)))
      ]

  -- What the replay of the registry leaves at a filter.
  abbrev after_replay : Option (TopicEntry C) → Option ℤ → Option ℤ
  after_replay none old = old
  after_replay (some e) old = some e.qos

  find-subscribe_all :
      (filter : String) (m : Map (TopicEntry C)) (b : Broker)
      → Distinct m
      → Map.find filter (apply_calls b (subscribe_all m))
        ≡ after_replay (Map.find filter m) (Map.find filter b)
  unfolding apply_calls apply_call subscribe_all Map.find
  find-subscribe_all filter [] b d = unfold Map.find in refl
  find-subscribe_all filter ((k, e) ∷ m) b d =
      rw (find-subscribe_all filter m (Map.set k e.qos b) d.1)
        (simp map_laws (ground (arith, eq_iff k filter)))

  -- When a connection is made with a clean session, the broker comes to hold what is registered.
  pub on_connected-Synced :
      (c : Connection C) → Distinct c.subscriptions → Synced c (apply_calls [] (on_connected c))
  unfolding on_connected Map.find
  on_connected-Synced c d j =
      rw (find-subscribe_all j c.subscriptions [] d)
        (after_replay-nothing (Map.find j c.subscriptions))
    where
      after_replay-nothing : (o : Option (TopicEntry C)) → after_replay o none ≡ qos_of o
      after_replay-nothing none = refl
      after_replay-nothing (some e) = refl

  pub add_subscription-Distinct :
      (connected : Bool) (filter : String) (callback : C) (qos : ℤ) (c : Connection C)
      → Distinct c.subscriptions
      → Distinct (add_subscription connected filter callback qos c).0.subscriptions
  unfolding add_subscription
  add_subscription-Distinct connected filter callback qos c d =
      Map.set-Distinct filter _ c.subscriptions d

  store_left-Distinct :
      (connected : Bool) (filter : String) (c : Connection C) (left : Option (TopicEntry C))
      → Distinct c.subscriptions
      → Distinct (store_left connected filter c left).0.subscriptions
  unfolding store_left
  store_left-Distinct connected filter c none d = Map.erase-Distinct filter c.subscriptions d
  store_left-Distinct connected filter c (some e) d = Map.set-Distinct filter e c.subscriptions d

  pub remove_subscription-Distinct :
      (connected : Bool) (filter : String) (handle : ℕ) (c : Connection C)
      → Distinct c.subscriptions
      → Distinct (remove_subscription connected filter handle c).0.subscriptions
  unfolding remove_subscription
  remove_subscription-Distinct connected filter handle c d = go (Map.find filter c.subscriptions)
    where
      go :
          (o : Option (TopicEntry C))
          → Distinct (remove_found connected filter handle c o).0.subscriptions
      go none = d
      go (some e) = store_left-Distinct connected filter c (leave_entry handle e) d
