-- ===== src/Mqtt/Connection/Delivery.antt =====
-- Which callbacks a message reaches: src/transport/mqtt/mqtt_connection.cpp.
use magpie_cpp.Prelude.Map
use magpie_cpp.Prelude.Map.{Distinct, Map, map_laws}
use magpie_cpp.Prelude.{
  Option-cases, some, none, sym, ◌∙◌, ap, ◌==◌, Bool-cases, true, inr, inl, eq_refl, eq_iff, ◌&&◌,
  ◌∷◌, arith, eqb, if◌then◌else◌, ◌||◌, String, ◌≡◌, ◌++◌, Bool, List, ℕ, refl, false, [],
}
use magpie_cpp.Mqtt.Connection.{
  remove_subscription, has_none, leave_entry, store_left, resolve_qos, join_entry, Connection,
  TopicEntry, add_subscription, entry_or_new, on_message, matching, erase_handle,
}
use magpie_cpp.Prelude.Int.{ℤ}
use magpie_cpp.Mqtt.Topic.{topic_matches}

-- Whether a callback with this handle is among those that run.
unfoldable pub has_handle : {C : Type 0} → ℕ → List (ℕ × C) → Bool
has_handle handle [] = false
has_handle handle ((h, cb) ∷ rest) = eqb h handle || has_handle handle rest

nothing_left : (b x : Bool) → ((b && false) || x) ≡ x
nothing_left true x = refl
nothing_left false x = refl

or_left_comm : (a b c : Bool) → (a || (b || c)) ≡ (b || (a || c))
or_left_comm a b c = ground arith

module _ {C : Type 0} where
  has_handle-append :
      (h : ℕ) (xs ys : List (ℕ × C))
      → has_handle h (xs ++ ys) ≡ (has_handle h xs || has_handle h ys)
  unfolding has_handle
  has_handle-append h [] ys = refl
  has_handle-append h ((g, cb) ∷ xs) ys = ground (arith, has_handle-append h xs ys)

  has_handle-erase_handle :
      (h j : ℕ) (xs : List (ℕ × C))
      → has_handle j (erase_handle h xs) ≡ (if eqb h j then false else has_handle j xs)
  unfolding has_handle erase_handle
  has_handle-erase_handle h j [] = ground arith
  has_handle-erase_handle h j ((g, cb) ∷ xs) = ground (arith, has_handle-erase_handle h j xs)

  -- A write to the registry that adds the handle, if `b` says so, to the entry of a filter.
  has_handle-matching-set :
      (topic filter : String) (j : ℕ) (b : Bool) (e : TopicEntry C) (m : Map (TopicEntry C))
      → has_handle j e.callbacks ≡ (b || has_handle j (entry_or_new (Map.find filter m)).callbacks)
      → has_handle j (matching topic (Map.set filter e m))
        ≡ ((b && topic_matches filter topic) || has_handle j (matching topic m))
  unfolding matching Map.set Map.find entry_or_new has_handle
  has_handle-matching-set topic filter j b e [] same =
      ground (arith, has_handle-append j e.callbacks [])
  has_handle-matching-set topic filter j b e ((k, f) ∷ m) same = ground (
    arith,
    eq_iff k filter,
    has_handle-matching-set topic filter j b e m,
    has_handle-append j e.callbacks (matching topic m),
    has_handle-append j f.callbacks (matching topic m),
    has_handle-append j f.callbacks (matching topic (Map.set filter e m)),
  )

  has_handle-join_entry :
      (j h : ℕ) (qos : ℤ) (callback : C) (e : TopicEntry C)
      → has_handle j (join_entry qos h callback e).callbacks ≡ (eqb h j || has_handle j e.callbacks)
  unfolding join_entry has_handle
  has_handle-join_entry j h qos callback e = ground (arith, has_handle-erase_handle h j e.callbacks)

  -- The callbacks that a message runs after a subscription was added are those that it ran
  -- before, and the new one exactly when its filter matches the topic.
  pub on_message-add_subscription :
      (is_connected : Bool) (filter topic : String) (callback : C) (qos : ℤ) (c : Connection C)
      (j : ℕ)
      → has_handle j (on_message topic (add_subscription is_connected filter callback qos c).0)
        ≡ ((eqb c.next_handle j && topic_matches filter topic) || has_handle j (on_message topic c))
  unfolding on_message add_subscription
  on_message-add_subscription is_connected filter topic callback qos c j =
      has_handle-matching-set topic filter j (eqb c.next_handle j) _ c.subscriptions (
        has_handle-join_entry j c.next_handle (resolve_qos c.subscribe_qos qos) callback
          (entry_or_new (Map.find filter c.subscriptions)))

  -- The registry apart from one filter.
  has_handle-matching-erase :
      (topic filter : String) (j : ℕ) (m : Map (TopicEntry C))
      → Distinct m
      → has_handle j (matching topic m) ≡ (
          (topic_matches filter topic && has_handle j (entry_or_new (Map.find filter m)).callbacks)
          || has_handle j (matching topic (Map.erase filter m)))
  unfolding matching Map.erase Map.find entry_or_new has_handle
  has_handle-matching-erase topic filter j [] d = ground arith
  has_handle-matching-erase topic filter j ((k, f) ∷ m) d = elim (Bool-cases (k == filter)) [
    | inl e ↦ rw e (
        rw ((eq_iff k filter).0 e, chosen)
          (ap (λ b. (topic_matches filter topic && has_handle j f.callbacks) || b)
            (has_handle-matching-erase topic filter j m d.1
              ∙ rw (rw ((eq_iff k filter).0 e) at d.0)
                  (nothing_left (topic_matches filter topic) _))))
    | inr e ↦
        rw (e, chosen, chosen, has_handle-matching-erase topic filter j m d.1)
          (or_left_comm (topic_matches k topic && has_handle j f.callbacks) _ _)
  ]
    where
      chosen :
          (b : Bool) (xs ys : List (ℕ × C))
          → has_handle j ((if b then xs else []) ++ ys)
            ≡ ((b && has_handle j xs) || has_handle j ys)
      chosen true xs ys = has_handle-append j xs ys
      chosen false xs ys = refl

  erase-set :
      (k : String) (e : TopicEntry C) (m : Map (TopicEntry C))
      → Map.erase k (Map.set k e m) ≡ Map.erase k m
  unfolding Map.erase Map.set
  erase-set k e [] = rw (eq_refl k)
  erase-set k e ((j, f) ∷ m) = ground (arith, eq_refl k, eq_iff j k, erase-set k e m)

  has_handle-has_none : (j : ℕ) (xs : List (ℕ × C)) → has_none xs ≡ true → has_handle j xs ≡ false
  unfolding has_handle has_none
  has_handle-has_none j [] h = refl
  has_handle-has_none j (x ∷ xs) h = cc

  -- The registry after an entry of it is replaced.
  has_handle-matching_replaced :
      (topic filter : String) (j : ℕ) (e : TopicEntry C) (m : Map (TopicEntry C))
      → Distinct m
      → has_handle j (matching topic (Map.set filter e m)) ≡ (
          (topic_matches filter topic && has_handle j e.callbacks)
          || has_handle j (matching topic (Map.erase filter m)))
  unfolding entry_or_new
  has_handle-matching_replaced topic filter j e m d =
      has_handle-matching-erase topic filter j (Map.set filter e m) (Map.set-Distinct filter e m d)
      ∙ rw (Map.find-set filter filter e m, eq_refl filter, erase-set filter e m) refl

  left_callbacks :
      (topic filter : String) (handle j : ℕ) (online : Bool) (c : Connection C) (e : TopicEntry C)
      → Distinct c.subscriptions
      → has_handle j
          (matching topic (store_left online filter c (leave_entry handle e)).0.subscriptions)
        ≡ ((topic_matches filter topic && has_handle j (erase_handle handle e.callbacks))
            || has_handle j (matching topic (Map.erase filter c.subscriptions)))
  unfolding leave_entry store_left
  left_callbacks topic filter handle j online c e d =
      elim (Bool-cases (has_none (erase_handle handle e.callbacks))) [
        | inl gone ↦
            rw (gone, has_handle-has_none j (erase_handle handle e.callbacks) gone)
              (sym (nothing_left (topic_matches filter topic) _))
        | inr kept ↦ rw kept (
            has_handle-matching_replaced topic filter j
              (record e { callbacks = erase_handle handle e.callbacks }) c.subscriptions d)
      ]

  -- After a cancellation a message runs what it ran before, but for the cancelled callback: that
  -- one runs only if another filter holds it too, which no handle of addSubscription does.
  pub on_message-remove_subscription :
      (online : Bool) (filter topic : String) (handle j : ℕ) (c : Connection C)
      → Distinct c.subscriptions
      → has_handle j (on_message topic (remove_subscription online filter handle c).0) ≡ (
          if eqb handle j
          then has_handle j (matching topic (Map.erase filter c.subscriptions))
          else has_handle j (on_message topic c))
  unfolding remove_subscription on_message entry_or_new has_handle
  on_message-remove_subscription online filter topic handle j c d =
      elim (Option-cases (Map.find filter c.subscriptions)) [
        | inl missing ↦ rw missing (unchanged missing)
        | inr (e, found) ↦ rw found (changed e found)
      ]
    where
      parts : has_handle j (on_message topic c) ≡ (
          (topic_matches filter topic
            && has_handle j (entry_or_new (Map.find filter c.subscriptions)).callbacks)
          || has_handle j (matching topic (Map.erase filter c.subscriptions)))
      parts = has_handle-matching-erase topic filter j c.subscriptions d

      unchanged :
          Map.find filter c.subscriptions ≡ none
          → has_handle j (on_message topic c) ≡ (
              if eqb handle j
              then has_handle j (matching topic (Map.erase filter c.subscriptions))
              else has_handle j (on_message topic c))
      unchanged missing = ground (
        arith,
        rw missing at parts,
        nothing_left (topic_matches filter topic)
            (has_handle j (matching topic (Map.erase filter c.subscriptions))),
      )

      changed :
          (e : TopicEntry C)
          → Map.find filter c.subscriptions ≡ some e
          → has_handle j (on_message topic (store_left online filter c (leave_entry handle e)).0)
            ≡ (if eqb handle j
                then has_handle j (matching topic (Map.erase filter c.subscriptions))
                else has_handle j (on_message topic c))
      changed e found = ground (
        arith,
        left_callbacks topic filter handle j online c e d,
        has_handle-erase_handle handle j e.callbacks,
        rw found at parts,
        nothing_left (topic_matches filter topic)
            (has_handle j (matching topic (Map.erase filter c.subscriptions))),
      )
