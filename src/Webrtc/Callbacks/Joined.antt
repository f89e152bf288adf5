-- ===== src/Webrtc/Callbacks/Joined.antt =====
-- What a peer has of the callbacks of its group, src/transport/webrtc/webrtc_connection.cpp.
use magpie_cpp.Prelude.Map
use magpie_cpp.Prelude.{
  true, sym, if◌then◌else◌, Option-cases, eq_iff, eq_refl, ap, ◌==◌, ◌∙◌, Bool-cases, ◌∷◌, ◌≡◌, ℕ,
  List, String, refl, inr, inl, [],
}
use magpie_cpp.Webrtc.Callbacks.{
  plain, noting, Change, routed, change_callbacks, put_handle, Routed, register_callbacks,
  with_handlers, drop_under, drop_found, store_kept, put_under, map_handles, map_values,
  remove_video, remove_request, remove_reply, remove_pub, remove_audio, add_video, add_request,
  add_reply, add_pub, add_audio,
}
use magpie_cpp.Mqtt.Connection.{erase_handle, has_none}
use magpie_cpp.Webrtc.Routing.{Callbacks, held}
use magpie_cpp.Prelude.Map.{Map, Distinct, map_laws}
use magpie_cpp.Webrtc.Callbacks.Laws.{
  map_values-set, map_values-erase, map_handles-erase_handle, map_handles-put_handle,
  find-map_values, held-map, map_values-put_under, map_values-drop_under,
}

-- What a key holds behind put_under, drop_under and with_handlers.
module _ {A : Type 0} where
  held_under-put_under :
      (k j : String) (h : ℕ) (a : A) (m : Map (List (ℕ × A)))
      → held (Map.find j (put_under k h a m))
        ≡ (if k == j then put_handle h a (held (Map.find k m)) else held (Map.find j m))
  unfolding put_under held
  held_under-put_under k j h a m = elim (Bool-cases (k == j)) [
    | inl e ↦ simp (map_laws, e) refl
    | inr e ↦ simp (map_laws, e) refl
  ]

  held_under-drop_under :
      (k j : String) (h : ℕ) (m : Map (List (ℕ × A)))
      → held (Map.find j (drop_under true k h m))
        ≡ (if k == j then erase_handle h (held (Map.find k m)) else held (Map.find j m))
  unfolding drop_under drop_found store_kept held
  held_under-drop_under k j h m = elim (Option-cases (Map.find k m)) [
    | inl missing ↦ elim (Bool-cases (k == j)) [
      | inl e ↦ rw (← (eq_iff k j).0 e) (simp (missing, eq_refl) (unfold erase_handle in refl))
      | inr e ↦ simp (missing, e) refl
    ]
    | inr (l, found) ↦ elim (Bool-cases (k == j)) [
      | inl e ↦ simp (found, map_laws, e) refl
      | inr e ↦ simp (found, map_laws, e) refl
    ]
  ]

  held_under-with_handlers :
      (j : String) (m : Map (List (ℕ × A)))
      → Distinct m
      → held (Map.find j (with_handlers m)) ≡ held (Map.find j m)
  unfolding with_handlers Map.find held has_none
  held_under-with_handlers j [] d = refl
  held_under-with_handlers j ((k, []) ∷ m) d = elim (Bool-cases (k == j)) [
    | inl e ↦ simp e (
        held_under-with_handlers j m d.1
        ∙ ap held (ap (λ i. Map.find i m) (sym ((eq_iff k j).0 e)) ∙ d.0))
    | inr e ↦ simp e (held_under-with_handlers j m d.1)
  ]
  held_under-with_handlers j ((k, x ∷ l) ∷ m) d = elim (Bool-cases (k == j)) [
    | inl e ↦ simp e refl
    | inr e ↦ simp e (held_under-with_handlers j m d.1)
  ]

-- The callbacks of a peer are those of its group, the ones of requests with the note of the peer
-- they come from. A service that has no callbacks may have an entry in one and none in the other.
pub record IsCopy {C : Type 0} (remote : String) (own : Callbacks C) (c : Callbacks (Routed C))
    : Type 0 where
  pub same_pub : c.pub_callbacks ≡ map_values (map_handles plain) own.pub_callbacks
  pub same_requests :
      (service : String)
      → held (Map.find service c.rpc_req_callbacks)
        ≡ map_handles (noting remote) (held (Map.find service own.rpc_req_callbacks))
  pub same_replies : c.rpc_rep_callbacks ≡ map_values plain own.rpc_rep_callbacks
  pub same_video : c.video_callbacks ≡ map_handles plain own.video_callbacks
  pub same_audio : c.audio_callbacks ≡ map_handles plain own.audio_callbacks

-- A copy that is made as a peer joins.
pub register_callbacks-IsCopy :
    {C : Type 0} (remote : String) (own : Callbacks C)
    → Distinct own.rpc_req_callbacks
    → IsCopy remote own (register_callbacks remote own)
unfolding register_callbacks
register_callbacks-IsCopy remote own d = record {
  same_pub = refl;
  same_requests = λ service.
      rw
        (find-map_values (map_handles (noting remote)) service
          (with_handlers own.rpc_req_callbacks))
        (held-map (noting remote) (Map.find service (with_handlers own.rpc_req_callbacks))
          ∙ ap (map_handles (noting remote))
              (held_under-with_handlers service own.rpc_req_callbacks d));
  same_replies = refl;
  same_video = refl;
  same_audio = refl;
}

-- A change of the requests.
put_under-same :
    {A B : Type 0} (f : A → B) (k j : String) (h : ℕ) (a : A) (m : Map (List (ℕ × A)))
    (n : Map (List (ℕ × B)))
    → ((i : String) → held (Map.find i n) ≡ map_handles f (held (Map.find i m)))
    → held (Map.find j (put_under k h (f a) n))
      ≡ map_handles f (held (Map.find j (put_under k h a m)))
put_under-same f k j h a m n same =
    rw (held_under-put_under k j h (f a) n, held_under-put_under k j h a m)
      (elim (Bool-cases (k == j)) [
        | inl e ↦ rw e (
            ap (put_handle h (f a)) (same k)
            ∙ sym (map_handles-put_handle f h a (held (Map.find k m))))
        | inr e ↦ rw e (same j)
      ])

drop_under-same :
    {A B : Type 0} (f : A → B) (k j : String) (h : ℕ) (m : Map (List (ℕ × A)))
    (n : Map (List (ℕ × B)))
    → ((i : String) → held (Map.find i n) ≡ map_handles f (held (Map.find i m)))
    → held (Map.find j (drop_under true k h n))
      ≡ map_handles f (held (Map.find j (drop_under true k h m)))
drop_under-same f k j h m n same =
    rw (held_under-drop_under k j h n, held_under-drop_under k j h m)
      (elim (Bool-cases (k == j)) [
        | inl e ↦ rw e (
            ap (erase_handle h) (same k) ∙ sym (map_handles-erase_handle f h (held (Map.find k m))))
        | inr e ↦ rw e (same j)
      ])

-- A change of the group's callbacks and the routed change of a copy.
pub change_callbacks-IsCopy :
    {C : Type 0} (remote : String) (h : ℕ) (ch : Change C) (own : Callbacks C)
    (c : Callbacks (Routed C))
    → IsCopy remote own c
    → IsCopy remote (change_callbacks true h ch own) (change_callbacks true h (routed remote ch) c)
unfolding change_callbacks routed
change_callbacks-IsCopy remote h (add_pub topic cb) own c s = record {
  same_pub =
      ap (put_under topic h (plain cb)) s.same_pub
      ∙ sym (map_values-put_under plain topic h cb own.pub_callbacks);
  same_requests = s.same_requests;
  same_replies = s.same_replies;
  same_video = s.same_video;
  same_audio = s.same_audio;
}
change_callbacks-IsCopy remote h (remove_pub topic i) own c s = record {
  same_pub =
      ap (drop_under true topic i) s.same_pub
      ∙ sym (map_values-drop_under plain true topic i own.pub_callbacks);
  same_requests = s.same_requests;
  same_replies = s.same_replies;
  same_video = s.same_video;
  same_audio = s.same_audio;
}
change_callbacks-IsCopy remote h (add_request service cb) own c s = record {
  same_requests = λ j.
      put_under-same (noting remote) service j h cb own.rpc_req_callbacks c.rpc_req_callbacks
        s.same_requests;
  same_pub = s.same_pub;
  same_replies = s.same_replies;
  same_video = s.same_video;
  same_audio = s.same_audio;
}
change_callbacks-IsCopy remote h (remove_request service i) own c s = record {
  same_requests = λ j.
      drop_under-same (noting remote) service j i own.rpc_req_callbacks c.rpc_req_callbacks
        s.same_requests;
  same_pub = s.same_pub;
  same_replies = s.same_replies;
  same_video = s.same_video;
  same_audio = s.same_audio;
}
change_callbacks-IsCopy remote h (add_reply rid cb) own c s = record {
  same_replies =
      ap (Map.set rid (plain cb)) s.same_replies
      ∙ sym (map_values-set plain rid cb own.rpc_rep_callbacks);
  same_pub = s.same_pub;
  same_requests = s.same_requests;
  same_video = s.same_video;
  same_audio = s.same_audio;
}
change_callbacks-IsCopy remote h (remove_reply rid) own c s = record {
  same_replies =
      ap (Map.erase rid) s.same_replies ∙ sym (map_values-erase plain rid own.rpc_rep_callbacks);
  same_pub = s.same_pub;
  same_requests = s.same_requests;
  same_video = s.same_video;
  same_audio = s.same_audio;
}
change_callbacks-IsCopy remote h (add_video cb) own c s = record {
  same_video =
      ap (put_handle h (plain cb)) s.same_video
      ∙ sym (map_handles-put_handle plain h cb own.video_callbacks);
  same_pub = s.same_pub;
  same_requests = s.same_requests;
  same_replies = s.same_replies;
  same_audio = s.same_audio;
}
change_callbacks-IsCopy remote h (remove_video i) own c s = record {
  same_video =
      ap (erase_handle i) s.same_video ∙ sym (map_handles-erase_handle plain i own.video_callbacks);
  same_pub = s.same_pub;
  same_requests = s.same_requests;
  same_replies = s.same_replies;
  same_audio = s.same_audio;
}
change_callbacks-IsCopy remote h (add_audio cb) own c s = record {
  same_audio =
      ap (put_handle h (plain cb)) s.same_audio
      ∙ sym (map_handles-put_handle plain h cb own.audio_callbacks);
  same_pub = s.same_pub;
  same_requests = s.same_requests;
  same_replies = s.same_replies;
  same_video = s.same_video;
}
change_callbacks-IsCopy remote h (remove_audio i) own c s = record {
  same_audio =
      ap (erase_handle i) s.same_audio ∙ sym (map_handles-erase_handle plain i own.audio_callbacks);
  same_pub = s.same_pub;
  same_requests = s.same_requests;
  same_replies = s.same_replies;
  same_video = s.same_video;
}

drop_under-Distinct :
    {A : Type 0} (k : String) (h : ℕ) (m : Map (List (ℕ × A)))
    → Distinct m
    → Distinct (drop_under true k h m)
unfolding drop_under drop_found store_kept
drop_under-Distinct k h m d = elim (Option-cases (Map.find k m)) [
  | inl missing ↦ rw missing d
  | inr (l, found) ↦ rw found (Map.set-Distinct k (erase_handle h l) m d)
]

pub change_callbacks-Distinct :
    {C : Type 0} (h : ℕ) (ch : Change C) (own : Callbacks C)
    → Distinct own.rpc_req_callbacks
    → Distinct (change_callbacks true h ch own).rpc_req_callbacks
unfolding change_callbacks put_under
change_callbacks-Distinct h (add_pub topic cb) own d = d
change_callbacks-Distinct h (remove_pub topic i) own d = d
change_callbacks-Distinct h (add_request service cb) own d =
    Map.set-Distinct service _ own.rpc_req_callbacks d
change_callbacks-Distinct h (remove_request service i) own d =
    drop_under-Distinct service i own.rpc_req_callbacks d
change_callbacks-Distinct h (add_reply rid cb) own d = d
change_callbacks-Distinct h (remove_reply rid) own d = d
change_callbacks-Distinct h (add_video cb) own d = d
change_callbacks-Distinct h (remove_video i) own d = d
change_callbacks-Distinct h (add_audio cb) own d = d
change_callbacks-Distinct h (remove_audio i) own d = d
