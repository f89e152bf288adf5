-- ===== src/Rpc/Lifecycle.antt =====
-- Closing, and what a responder sends: src/transport/rpc_requester.cpp and rpc_responder.cpp.
use magpie_cpp.Prelude.{arith, if◌then◌else◌, String, ◌<>◌, ℕ, ◌≡◌, Option, true, some, none, false}
use magpie_cpp.Prelude.Result.{◌>>=◌, TimeoutKind, Eff, timeout_error, throw, std_error, ok}
use magpie_cpp.Rpc.{
  BaseSchema, call_method, call_request, handle_once, close_requester, RpcResponder, RpcRequester,
  ResponderTransport, RequesterTransport,
}
use magpie_cpp.Value.{is_null, Dict, Value}

module _ {W : Type 0} (transport : RequesterTransport W) where
  -- A closed requester refuses both kinds of call without a use of the transport, and closing it
  -- again does nothing.
  abbrev pub Refuses : RpcRequester W → W → Type 0
  Refuses r w =
      (close_requester transport r w ≡ (r, w))
      × ((request : Value) (timeout : ℕ)
          → call_request transport r request timeout w
            ≡ (throw (std_error (r.name <> " is closed")), w))
      × ((id method : String) (params : Dict) (timeout : ℕ)
          → call_method transport r id method params timeout w
            ≡ (throw (std_error (r.name <> " is closed")), w))

  closed-Refuses : (r : RpcRequester W) (w : W) → r.closed ≡ true → Refuses r w
  unfolding close_requester call_request call_method
  closed-Refuses r w e = (rw e, λ request timeout. rw e, λ id method params timeout. rw e)

  closed-close_requester :
      (r : RpcRequester W) (w : W) → (close_requester transport r w).0.closed ≡ true
  unfolding close_requester
  closed-close_requester r w = ground arith

  -- After close, whatever the requester was before and whatever world it is used in: both kinds of
  -- call throw that it is closed and leave the world alone, and so does another close.
  pub close_requester-Refuses :
      (r : RpcRequester W) (w w' : W) → Refuses (close_requester transport r w).0 w'
  close_requester-Refuses r w w' = closed-Refuses _ w' (closed-close_requester r w)

module _ {W C : Type 0} (transport : ResponderTransport W C) (r : RpcResponder W) where
  -- An open responder with a schema sends what the schema answers, once, to the client that asked;
  -- it sends nothing where the schema answers null, and reports a request in both cases.
  pub handle_once-schema :
      (handler : Option (Value → Eff W Value)) (timeout : ℕ) (w w₁ w₂ : W) (schema : BaseSchema W)
      (request response : Value) (ctx : C)
      → r.closed ≡ false
      → r.schema ≡ some schema
      → transport.transport_recv timeout w ≡ (ok (request, ctx), w₁)
      → schema.dispatch request w₁ ≡ (ok response, w₂)
      → handle_once transport r handler timeout w ≡ (
          if is_null response then (ok true, w₂) else (
            (do _ ← (transport.transport_send response ctx w₂).0; ok true),
            (transport.transport_send response ctx w₂).1,
          ))
  unfolding handle_once
  handle_once-schema none timeout w w₁ w₂ schema request response ctx opened has got answered =
      rw (opened, has, got, answered)
  handle_once-schema (some h) timeout w w₁ w₂ schema request response ctx opened has got answered =
      rw (opened, got, has, answered)

  -- A receive that times out is no error: the responder reports that it served nothing.
  pub handle_once-timeout :
      (h : Value → Eff W Value) (timeout : ℕ) (w w₁ : W) (kind : TimeoutKind) (m : String)
      → r.closed ≡ false
      → transport.transport_recv timeout w ≡ (throw (timeout_error kind m), w₁)
      → handle_once transport r (some h) timeout w ≡ (ok false, w₁)
  unfolding handle_once
  handle_once-timeout h timeout w w₁ kind m opened got = rw (opened, got)
