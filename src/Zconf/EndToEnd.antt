-- ===== src/Zconf/EndToEnd.antt =====
-- From advertise to resolve_node, src/discovery/zconf_discovery.cpp: a node that announces itself
-- is found by every discovery of its service type that takes the announcement in.
use magpie_cpp.Prelude.Table
use magpie_cpp.Prelude.{
  All, inl, inr, suc, map, ap, ◌∙◌, ◌^◌, Option, ◌%◌, List, eqb, ◌≡◌, ◌∷◌, ◌++◌, ℕ, some, refl,
  false, [],
}
use magpie_cpp.Zconf.Advertise.{
  chosen_ips, Advertiser, advertise, send_announce, payload_or_braces, sent_txt, address_records,
  Message, AddressCodec, SentRecord, sent_srv, sent_ptr,
}
use magpie_cpp.Zconf.Records.{
  handle_records, ResourceRecord, node_entry, expire_at, learn_service, learn_instance,
  handle_record, txt_data,
}
use magpie_cpp.Zconf.{NodeInfo, Discovery, empty_list}
use magpie_cpp.Prelude.Bytes.{codes, Bytes}
use magpie_cpp.Zconf.Text.{ensure_trailing_dot-append, ensure_trailing_dot, to_lower}
use magpie_cpp.Zconf.Wire.{stamp, Delivers, heard, FitsWire, IsNoText, is_text}
use magpie_cpp.Zconf.Announced.{IsAddress, address_records-IsAddress, addresses-heard, Knows}
use magpie_cpp.Prelude.Table.{find-set_self, push_each_new}
use magpie_cpp.Zconf.Handled.{
  not_empty-append, handle_record-srv, handle_record-ptr, handle_record-txt, instance_of,
}
use magpie_cpp.Zconf.Entries.{
  learn_service-Knows, learn_text-entry, held_ips-learn_instance, node_entry-learn_instance,
  received, announced_entry, held_ips,
}

-- nodes_.find(id)
abbrev pub find_node : Bytes → Discovery → Option NodeInfo
find_node id d = Table.find id d.nodes

ensure_trailing_dot-local :
    (id : Bytes) → ensure_trailing_dot (id ++ codes ".local.") ≡ id ++ codes ".local."
ensure_trailing_dot-local id =
    ensure_trailing_dot-append id (codes "local.") (unfold ensure_trailing_dot in refl)

payload_or_braces-not_empty : (p : Bytes) → empty_list (payload_or_braces p) ≡ false
unfolding empty_list payload_or_braces
payload_or_braces-not_empty [] = refl
payload_or_braces-not_empty (c ∷ p) = refl

-- What advertise sends.
announcement :
    (codec : AddressCodec) (id : Bytes) (port : ℕ) (payload : Bytes) (ips enumerated : List Bytes)
    (st : Bytes) (a : Advertiser)
    → a.service_type ≡ st
    → ensure_trailing_dot st ≡ st
    → send_announce codec (advertise id port payload ips enumerated a)
      ≡ some (
        record { name = st; sent = sent_ptr (instance_of st id) },
        record { name = instance_of st id; sent = sent_srv (id ++ codes ".local.") port }
            ∷ record { name = instance_of st id; sent = sent_txt (codes "node_id") id }
            ∷ record {
              name = instance_of st id;
              sent = sent_txt (codes "payload") (payload_or_braces payload);
            }
            ∷ address_records codec (id ++ codes ".local.") 3 (chosen_ips ips enumerated),
      )
unfolding send_announce advertise
announcement codec id port payload ips enumerated st a same dotted =
    simp (same, ensure_trailing_dot-append id st dotted, ensure_trailing_dot-local id) refl

-- The addresses of an announcement are no TXT records.
IsAddress-IsNoText :
    (host : Bytes) (rs : List SentRecord) → All (IsAddress host) rs → All IsNoText rs
unfolding is_text
IsAddress-IsNoText host [] h = tt
IsAddress-IsNoText host (r ∷ rs) ((named, (a, inl e)), h) =
    (rw e refl, IsAddress-IsNoText host rs h)
IsAddress-IsNoText host (r ∷ rs) ((named, (a, inr e)), h) =
    (rw e refl, IsAddress-IsNoText host rs h)

module _ (codec : AddressCodec) (deliver : ℕ → Message → List ResourceRecord)
    (wire : Delivers codec deliver) (ttl : ℕ) (lives : eqb ttl 0 ≡ false) where
  heard_next :
      (times : ℕ → ℕ) (r : ResourceRecord) (rs : List ResourceRecord) (d after : Discovery)
      → handle_record (times 0) r d ≡ after
      → handle_records (stamp times (r ∷ rs)) d
        ≡ handle_records (stamp (λ i. times (suc i)) rs) after
  unfolding handle_records stamp
  heard_next times r rs d after e = ap (handle_records (stamp (λ i. times (suc i)) rs)) e

  -- Behind the PTR and the SRV record.
  service-Knows :
      (k i host : Bytes) (port first_ms second_ms : ℕ) (d : Discovery)
      → Knows host k
          (record {
            node_id = k;
            instance_name = i;
            host_qualified = host;
            port = port % 2 ^ 16;
            payload_json = (node_entry k d).payload_json;
            ips = held_ips k host d;
          })
          (learn_service k i host port second_ms (learn_instance k i first_ms d))
  service-Knows k i host port first_ms second_ms d =
      rw (node_entry-learn_instance k i first_ms d, held_ips-learn_instance k i host first_ms d) at
        (learn_service-Knows k i host port second_ms (learn_instance k i first_ms d))

  -- Behind the TXT record.
  text-found :
      (times : ℕ → ℕ) (id st payload : Bytes) (n : NodeInfo) (d : Discovery)
      → empty_list id ≡ false
      → d.service_type ≡ st
      → ensure_trailing_dot st ≡ st
      → empty_list payload ≡ false
      → find_node (to_lower id) d ≡ some n
      → find_node (to_lower id) (
          handle_records
            (stamp times (
              record {
                owner_name = instance_of st id;
                ttl = ttl;
                rdata = txt_data ((codes "node_id", id) ∷ (codes "payload", payload) ∷ []);
              }
              ∷ []))
            d)
        ≡ some (record n {
          node_id = to_lower id;
          instance_name = instance_of st id;
          payload_json = payload;
        })
  unfolding handle_records stamp
  text-found times id st payload n d named kind dotted paid known =
      ap (find_node (to_lower id))
        (handle_record-txt codec ttl lives id named (times 0) payload st d kind dotted paid)
      ∙ learn_text-entry (to_lower id) (instance_of st id) payload (expire_at (times 0) ttl) n d
          known

  announcement-heard :
      (times : ℕ → ℕ) (id : Bytes) (port : ℕ) (payload : Bytes) (ips : List Bytes) (d : Discovery)
      → empty_list id ≡ false
      → ensure_trailing_dot d.service_type ≡ d.service_type
      → empty_list d.service_type ≡ false
      → empty_list payload ≡ false
      → find_node (to_lower id) (
          handle_records
            (stamp times (
              heard codec ttl
                (record { name = d.service_type; sent = sent_ptr (instance_of d.service_type id) })
              ∷ heard codec ttl (record {
                name = instance_of d.service_type id;
                sent = sent_srv (id ++ codes ".local.") port;
              })
              ∷ (map (heard codec ttl) (address_records codec (id ++ codes ".local.") 3 ips)
                  ++ (record {
                    owner_name = instance_of d.service_type id;
                    ttl = ttl;
                    rdata = txt_data ((codes "node_id", id) ∷ (codes "payload", payload) ∷ []);
                  }
                      ∷ []))))
            d)
        ≡ some (announced_entry codec id port payload ips d)
  unfolding announced_entry
  announcement-heard times id port payload ips d named dotted typed paid =
      let k = to_lower id in
      let st = d.service_type in
      let i = instance_of st id in
      let host = id ++ codes ".local." in
      let rs = address_records codec host 3 ips in
      let text : ResourceRecord = record {
        owner_name = i;
        ttl = ttl;
        rdata = txt_data ((codes "node_id", id) ∷ (codes "payload", payload) ∷ []);
      } in
      let d1 : Discovery = learn_instance k i (expire_at (times 0) ttl) d in
      let d2 : Discovery = learn_service k i host port (expire_at (times 1) ttl) d1 in
      let n : NodeInfo = record {
        node_id = k;
        instance_name = i;
        host_qualified = host;
        port = port % 2 ^ 16;
        payload_json = (node_entry k d).payload_json;
        ips = held_ips k host d;
      } in
      let first : handle_record (times 0)
            (heard codec ttl (record { name = st; sent = sent_ptr i })) d
          ≡ d1 =
        handle_record-ptr codec ttl lives id named (times 0) d dotted typed in
      let second : handle_record (times 1)
            (heard codec ttl (record { name = i; sent = sent_srv host port })) d1
          ≡ d2 =
        handle_record-srv codec ttl lives id named (times 1) host port st d1
          (unfold learn_instance in refl) dotted (not_empty-append id b'.' (codes "local."))
          (unfold learn_instance in find-set_self i k d.instance_to_node) in
      let (after, later, same, known, kind) =
        addresses-heard codec deliver wire ttl lives rs (text ∷ []) (λ n. times (suc (suc n))) host
          k n d2 (not_empty-append id b'.' (codes "local."))
          (address_records-IsAddress codec host 3 ips)
          (service-Knows k i host port (expire_at (times 0) ttl) (expire_at (times 1) ttl) d) in
      let all =
        heard_next times _ _ d d1 first
        ∙ (heard_next (λ n. times (suc n)) _ _ d1 d2 second ∙ same) in
      ap (find_node k) all
      ∙ text-found later id st payload _ after named
          (kind ∙ unfold learn_service learn_instance in refl) dotted paid known.node_known

  pub announce-found :
      (times : ℕ → ℕ) (id : Bytes) (port : ℕ) (payload : Bytes) (ips enumerated : List Bytes)
      (a : Advertiser) (d : Discovery)
      → empty_list id ≡ false
      → a.service_type ≡ d.service_type
      → ensure_trailing_dot d.service_type ≡ d.service_type
      → empty_list d.service_type ≡ false
      → FitsWire (send_announce codec (advertise id port payload ips enumerated a))
      → find_node (to_lower id) (
          handle_records
            (stamp times (
              received
                (deliver ttl)
                (send_announce codec (advertise id port payload ips enumerated a))))
            d)
        ≡ some (
            announced_entry codec id port (payload_or_braces payload) (chosen_ips ips enumerated) d)
  unfolding received
  announce-found times id port payload ips enumerated a d named same dotted typed fits =
      let p = payload_or_braces payload in
      let shown = chosen_ips ips enumerated in
      let host = id ++ codes ".local." in
      let i = instance_of d.service_type id in
      let sent = announcement codec id port payload ips enumerated d.service_type a same dotted in
      let no_text =
        IsAddress-IsNoText host (address_records codec host 3 shown)
          (address_records-IsAddress codec host 3 shown) in
      let arrives =
        wire.texts_last ttl d.service_type i host i (codes "node_id") id (codes "payload") p port
          (address_records codec host 3 shown) no_text (rw sent at fits) in
      rw (sent, arrives)
        (announcement-heard times id port p shown d named dotted typed
          (payload_or_braces-not_empty payload))
