-- ===== src/Zconf/Announced.antt =====
-- send_announce_locked_ against handle_record, src/discovery/zconf_discovery.cpp: what a discovery
-- knows of a node whose announcement it has taken in.
use mathlib.Core.Option.{some-injective}
use magpie_cpp.Prelude.Table
use magpie_cpp.Prelude.Bytes.{Bytes}
use magpie_cpp.Prelude.{
  ap, ◌∙◌, ◌++◌, map, eqb, suc, false, sym, leb, Bool-cases, Option-cases, All, ◌⊎◌, ◌∷◌, ℕ, Option,
  ◌≡◌, List, some, refl, none, inr, inl, [],
}
use magpie_cpp.Zconf.Advertise.{
  Message, count_after, aaaa_data, address_or, SentData, address_records, push_record, parse_ip,
  SentRecord, AddressCodec, sent_aaaa, sent_a,
}
use magpie_cpp.Prelude.Table.{find-set_self, none-some, push_new}
use magpie_cpp.Zconf.{empty_list, Discovery, NodeInfo}
use magpie_cpp.Zconf.Text.{norm_host}
use magpie_cpp.Zconf.Records.{
  expire_at, address_of_node, address_of_host, handle_records, add_address, handle_record,
  take_data, take_address, ResourceRecord,
}
use magpie_cpp.Zconf.Wire.{stamp, heard, heard_data, Delivers}

-- The addresses of an announcement, as a listener prints them.
unfoldable pub printed_data : AddressCodec → SentData → Bytes
printed_data codec (sent_a addr) = codec.ntop4 addr
printed_data codec (sent_aaaa addr) = codec.ntop6 addr
printed_data codec _ = []

unfoldable pub add_printed : AddressCodec → List SentRecord → List Bytes → List Bytes
unfolding printed_data push_new
add_printed codec [] ips = ips
add_printed codec (r ∷ rs) ips = add_printed codec rs (push_new (printed_data codec r.sent) ips)

abbrev pub IsAddress : Bytes → SentRecord → Type 0
IsAddress host r = (r.name ≡ host) × ((a : Bytes) × ((r.sent ≡ sent_a a) ⊎ (r.sent ≡ sent_aaaa a)))

parse_ip-cases :
    (codec : AddressCodec) (ip : Bytes)
    → (parse_ip codec ip ≡ none)
      ⊎ ((a : Bytes) × ((parse_ip codec ip ≡ some (sent_a a))
            ⊎ (parse_ip codec ip ≡ some (sent_aaaa a))))
unfolding parse_ip address_or aaaa_data
parse_ip-cases codec ip = elim (Option-cases (codec.pton4 ip)) [
  | inr (a, e) ↦ inr (a, inl (rw e refl))
  | inl e ↦ elim (Option-cases (codec.pton6 ip)) [
    | inr (a, f) ↦ inr (a, inr (rw (e, f) refl))
    | inl f ↦ inl (rw (e, f) refl)
  ]
]

push_record-IsAddress :
    (host : Bytes) (o : Option SentData) (rs : List SentRecord)
    → ((o ≡ none) ⊎ ((a : Bytes) × ((o ≡ some (sent_a a)) ⊎ (o ≡ some (sent_aaaa a)))))
    → All (IsAddress host) rs
    → All (IsAddress host) (push_record host o rs)
unfolding push_record
push_record-IsAddress host none rs p h = h
push_record-IsAddress host (some body) rs (inl e) h = absurd (none-some body (sym e))
push_record-IsAddress host (some body) rs (inr (a, inl e)) h =
    ((refl, (a, inl (some-injective body (sent_a a) e))), h)
push_record-IsAddress host (some body) rs (inr (a, inr e)) h =
    ((refl, (a, inr (some-injective body (sent_aaaa a) e))), h)

pub address_records-IsAddress :
    (codec : AddressCodec) (host : Bytes) (n : ℕ) (ips : List Bytes)
    → All (IsAddress host) (address_records codec host n ips)
unfolding address_records
address_records-IsAddress codec host n [] = tt
address_records-IsAddress codec host n (ip ∷ ips) =
    let parsed = parse_ip codec ip in
    elim (Bool-cases (leb 32 n)) [
      | inl e ↦ rw e tt
      | inr e ↦ rw e (
          push_record-IsAddress host parsed _ (parse_ip-cases codec ip)
            (address_records-IsAddress codec host (count_after n parsed) ips))
    ]

-- A discovery that knows the node behind a host.
pub record Knows (host id : Bytes) (n : NodeInfo) (d : Discovery) : Type 0 where
  pub host_known : Table.find (norm_host host) d.host_to_node ≡ some id
  pub node_known : Table.find id d.nodes ≡ some n

module _ (codec : AddressCodec) (deliver : ℕ → Message → List ResourceRecord)
    (wire : Delivers codec deliver) (ttl : ℕ) (lives : eqb ttl 0 ≡ false) where
  take_address-known :
      (now : ℕ) (host id ip : Bytes) (n : NodeInfo) (d : Discovery)
      → empty_list ip ≡ false
      → Knows host id n d
      → take_address now host ttl ip d ≡ add_address id ip (expire_at now ttl) n d
  unfolding take_address address_of_host address_of_node
  take_address-known now host id ip n d e k = simp (e, k.host_known, k.node_known, lives) refl

  take_address-heard :
      (now : ℕ) (host id : Bytes) (n : NodeInfo) (d : Discovery) (body : SentData) (a : Bytes)
      → ((body ≡ sent_a a) ⊎ (body ≡ sent_aaaa a))
      → Knows host id n d
      → take_data now host ttl (heard_data codec body) d
        ≡ add_address id (printed_data codec body) (expire_at now ttl) n d
  unfolding take_data heard_data printed_data
  take_address-heard now host id n d body a (inl e) k =
      rw e (take_address-known now host id (codec.ntop4 a) n d (wire.ntop4_prints a) k)
  take_address-heard now host id n d body a (inr e) k =
      rw e (take_address-known now host id (codec.ntop6 a) n d (wire.ntop6_prints a) k)

  handle_record-address :
      (now : ℕ) (host id : Bytes) (n : NodeInfo) (d : Discovery) (r : SentRecord)
      → empty_list host ≡ false
      → IsAddress host r
      → Knows host id n d
      → handle_record now (heard codec ttl r) d
        ≡ add_address id (printed_data codec r.sent) (expire_at now ttl) n d
  unfolding handle_record heard
  handle_record-address now host id n d r e (named, (a, body)) k =
      simp (named, e) (take_address-heard now host id n d r.sent a body k)

  add_address-typed :
      (id ip : Bytes) (expire_ms : ℕ) (n : NodeInfo) (d : Discovery)
      → (add_address id ip expire_ms n d).service_type ≡ d.service_type
  unfolding add_address
  add_address-typed id ip expire_ms n d = refl

  add_address-Knows :
      (host id ip : Bytes) (expire_ms : ℕ) (n : NodeInfo) (d : Discovery)
      → Knows host id n d
      → Knows host id (record n { ips = push_new ip n.ips }) (add_address id ip expire_ms n d)
  unfolding add_address
  add_address-Knows host id ip expire_ms n d k = record {
    host_known = k.host_known;
    node_known = find-set_self id (record n { ips = push_new ip n.ips }) d.nodes;
  }

  -- The state behind the address records, and the times of the records after them.
  pub addresses-heard :
      (rs : List SentRecord) (rest : List ResourceRecord) (times : ℕ → ℕ) (host id : Bytes)
      (n : NodeInfo) (d : Discovery)
      → empty_list host ≡ false
      → All (IsAddress host) rs
      → Knows host id n d
      → (after : Discovery) × (later : ℕ → ℕ) × (handle_records
            (stamp times (map (heard codec ttl) rs ++ rest))
            d
          ≡ handle_records (stamp later rest) after)
        × Knows host id (record n { ips = add_printed codec rs n.ips }) after
        × (after.service_type ≡ d.service_type)
  unfolding handle_records stamp add_printed
  addresses-heard [] rest times host id n d e h k = (d, times, refl, k, refl)
  addresses-heard (r ∷ rs) rest times host id n d e h k =
      let ip = printed_data codec r.sent in
      let expire_ms = expire_at (times 0) ttl in
      let next : Discovery = add_address id ip expire_ms n d in
      let (after, later, same, known, typed) =
        addresses-heard rs rest (λ i. times (suc i)) host id (record n { ips = push_new ip n.ips })
          next e h.1 (add_address-Knows host id ip expire_ms n d k) in
      (
        after,
        later,
        ap (handle_records (stamp (λ i. times (suc i)) (map (heard codec ttl) rs ++ rest)))
              (handle_record-address (times 0) host id n d r e h.0 k)
            ∙ same,
        known,
        typed ∙ add_address-typed id ip expire_ms n d,
      )
