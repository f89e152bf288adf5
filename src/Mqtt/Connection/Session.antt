-- ===== src/Mqtt/Connection/Session.antt =====
-- A connection of src/transport/mqtt/mqtt_connection.cpp and its broker over time. The registry changes
-- under subMutex, and the client is called behind it: the calls that are under way stand in a
-- list, from which any may arrive next, and each arrives or fails, which is only logged.
use magpie_cpp.Prelude.Map.{Distinct}
use magpie_cpp.Prelude.{
  ℕ, zero, suc, Bool, true, false, String, List, [], ◌∷◌, ◌++◌, Option, none, some, ◌≡◌,
  if◌then◌else◌,
}
use magpie_cpp.Mqtt.Connection.{
  ClientCall, Connection, add_subscription, on_connected, remove_subscription,
}
use magpie_cpp.Mqtt.Connection.Broker.{
  Broker, Synced, add_subscription-Distinct, add_subscription-Synced, apply_calls,
  apply_calls-append, on_connected-Synced, remove_subscription-Distinct, remove_subscription-Synced,
}
use magpie_cpp.Prelude.Int.{ℤ}

-- Calls of addSubscription and removeSubscription up to their release of subMutex; the k-th call of
-- the client that is under way, and whether it fails; and the network.
pub data Event (C : Type 0) : Type 0 where
  add : String → C → ℤ → Event C
  remove : String → ℕ → Event C
  arrives : ℕ → Bool → Event C
  connected : Event C
  connection_lost : Event C

-- The connection, the calls under way, and the broker's view while the client is connected.
pub record Session (C : Type 0) : Type 0 where
  pub connection : Connection C
  pub under_way : List ClientCall
  pub broker : Option Broker

unfoldable pub without : ℕ → List ClientCall → List ClientCall
without k [] = []
without zero (call ∷ calls) = calls
without (suc k) (call ∷ calls) = call ∷ without k calls

unfoldable pub nth_call : ℕ → List ClientCall → List ClientCall
nth_call k [] = []
nth_call zero (call ∷ calls) = call ∷ []
nth_call (suc k) (call ∷ calls) = nth_call k calls

-- A client that is not connected is not called.
unfoldable pub reached : Bool → Option Broker → List ClientCall → Option Broker
unfolding apply_calls
reached fails none calls = none
reached fails (some b) calls = some (if fails then b else apply_calls b calls)

module _ {C : Type 0} where
  unfoldable pub session_step : Session C → Event C → Session C
  unfolding add_subscription remove_subscription on_connected without nth_call reached
  session_step s (add filter callback qos) =
      let (c', handle, calls) = add_subscription true filter callback qos s.connection in
      record { connection = c'; under_way = s.under_way ++ calls; broker = s.broker }
  session_step s (remove filter handle) =
      let (c', calls) = remove_subscription true filter handle s.connection in
      record { connection = c'; under_way = s.under_way ++ calls; broker = s.broker }
  session_step s (arrives k fails) = record s {
    under_way = without k s.under_way;
    broker = reached fails s.broker (nth_call k s.under_way);
  }
  session_step s connected = record s {
    under_way = s.under_way ++ on_connected s.connection;
    broker = some [];
  }
  session_step s connection_lost = record s { broker = none }

  unfoldable pub session_run : Session C → List (Event C) → Session C
  unfolding session_step
  session_run s [] = s
  session_run s (e ∷ es) = session_run (session_step s e) es

  -- The calls arrive in the order of the changes and none fails, and a connection is made only when
  -- none is under way.
  abbrev pub InOrder : Session C → Event C → Type 0
  InOrder s (arrives k fails) = (k ≡ 0) × (fails ≡ false)
  InOrder s connected = s.under_way ≡ []
  InOrder s _ = Unit {0}

  abbrev pub AreInOrder : Session C → List (Event C) → Type 0
  AreInOrder s [] = Unit
  AreInOrder s (e ∷ es) = InOrder s e × AreInOrder (session_step s e) es

  -- Behind the calls under way, the broker has what is registered.
  abbrev pub InStep : Connection C → List ClientCall → Option Broker → Type 0
  InStep c calls none = Unit
  InStep c calls (some b) = Synced c (apply_calls b calls)

  pub record SessionIsSynced (s : Session C) : Type 0 where
    pub distinct : Distinct s.connection.subscriptions
    pub in_step : InStep s.connection s.under_way s.broker

  add-InStep :
      (filter : String) (callback : C) (qos : ℤ) (c : Connection C) (calls : List ClientCall)
      (o : Option Broker)
      → InStep c calls o
      → InStep
          (add_subscription true filter callback qos c).0
          (calls ++ (add_subscription true filter callback qos c).2)
          o
  add-InStep filter callback qos c calls none i = tt
  add-InStep filter callback qos c calls (some b) i =
      rw (apply_calls-append b calls (add_subscription true filter callback qos c).2)
        (add_subscription-Synced filter callback qos c (apply_calls b calls) i)

  remove-InStep :
      (filter : String) (handle : ℕ) (c : Connection C) (calls : List ClientCall)
      (o : Option Broker)
      → InStep c calls o
      → InStep
          (remove_subscription true filter handle c).0
          (calls ++ (remove_subscription true filter handle c).1)
          o
  remove-InStep filter handle c calls none i = tt
  remove-InStep filter handle c calls (some b) i =
      rw (apply_calls-append b calls (remove_subscription true filter handle c).1)
        (remove_subscription-Synced filter handle c (apply_calls b calls) i)

  arrives-InStep :
      (c : Connection C) (calls : List ClientCall) (o : Option Broker)
      → InStep c calls o
      → InStep c (without 0 calls) (reached false o (nth_call 0 calls))
  unfolding without nth_call reached apply_calls
  arrives-InStep c [] none i = tt
  arrives-InStep c (call ∷ calls) none i = tt
  arrives-InStep c [] (some b) i = i
  arrives-InStep c (call ∷ calls) (some b) i = i

  session_step-SessionIsSynced :
      (s : Session C) (e : Event C)
      → InOrder s e
      → SessionIsSynced s
      → SessionIsSynced (session_step s e)
  unfolding session_step
  session_step-SessionIsSynced s (add filter callback qos) k v = record {
    distinct = add_subscription-Distinct true filter callback qos s.connection v.distinct;
    in_step = add-InStep filter callback qos s.connection s.under_way s.broker v.in_step;
  }
  session_step-SessionIsSynced s (remove filter handle) k v = record {
    distinct = remove_subscription-Distinct true filter handle s.connection v.distinct;
    in_step = remove-InStep filter handle s.connection s.under_way s.broker v.in_step;
  }
  session_step-SessionIsSynced s (arrives n fails) k v = record {
    distinct = v.distinct;
    in_step = rw (k.0, k.1) (arrives-InStep s.connection s.under_way s.broker v.in_step);
  }
  session_step-SessionIsSynced s connected k v = record {
    distinct = v.distinct;
    in_step = rw k (on_connected-Synced s.connection v.distinct);
  }
  session_step-SessionIsSynced s connection_lost k v = record {
    distinct = v.distinct;
    in_step = tt;
  }

  -- After any history of subscriptions, cancellations, losses of the connection and reconnections
  -- with a clean session, in which the calls of the client arrive in the order of the changes that
  -- made them, none fails, and a connection is made only when none is under way: while the client is
  -- connected, the broker holds, once the calls under way have arrived, exactly the filters that are
  -- registered, each at the quality of service that the registry notes.
  pub session_run-SessionIsSynced :
      (s : Session C) (es : List (Event C))
      → AreInOrder s es
      → SessionIsSynced s
      → SessionIsSynced (session_run s es)
  unfolding session_run
  session_run-SessionIsSynced s [] ks v = v
  session_run-SessionIsSynced s (e ∷ es) ks v =
      session_run-SessionIsSynced (session_step s e) es ks.1
        (session_step-SessionIsSynced s e ks.0 v)
