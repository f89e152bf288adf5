-- ===== src/Zconf/Advertise.antt =====
-- The service side of ZconfDiscovery, src/discovery/zconf_discovery.cpp: advertise,
-- stop_advertising, the records of an announcement and of a goodbye, and handle_question_. What is
-- handed to mdns.h to be sent is a result.
use magpie_cpp.Prelude.Bytes.{Bytes, codes, same_bytes}
use magpie_cpp.Prelude.{
  ◌||◌, not, ◌&&◌, leb, if◌then◌else◌, ◌++◌, List, ◌∷◌, Bool, ℕ, Option, true, suc, some, none,
  false, [],
}
use magpie_cpp.Zconf.Text.{to_lower, ends_with_case_insensitive, ensure_trailing_dot}
use magpie_cpp.Zconf.{empty_list}

-- inet_pton and inet_ntop, for the two families. An address is the bytes of in_addr or in6_addr.
pub record AddressCodec : Type 0 where
  pub pton4 : Bytes → Option Bytes
  pub pton6 : Bytes → Option Bytes
  pub ntop4 : Bytes → Bytes
  pub ntop6 : Bytes → Bytes

pub data SentData : Type 0 where
  sent_ptr : Bytes → SentData
  sent_srv : Bytes → ℕ → SentData
  sent_txt : Bytes → Bytes → SentData
  sent_a : Bytes → SentData
  sent_aaaa : Bytes → SentData

-- mdns_record_t, as far as the source fills it in.
pub record SentRecord : Type 0 where
  pub name : Bytes
  pub sent : SentData

pub record Advertiser : Type 0 where
  pub service_type : Bytes
  pub advertising : Bool
  pub adv_node_id : Bytes
  pub adv_port : ℕ
  pub adv_payload_json : Bytes
  pub adv_ips : List Bytes
  pub adv_instance : Bytes
  pub adv_host_qualified : Bytes

unfoldable pub new_advertiser : Bytes → Advertiser
new_advertiser service_type = record {
  service_type = ensure_trailing_dot service_type;
  advertising = false;
  adv_node_id = [];
  adv_port = 0;
  adv_payload_json = codes "{}";
  adv_ips = [];
  adv_instance = [];
  adv_host_qualified = [];
}

unfoldable pub payload_or_braces : Bytes → Bytes
payload_or_braces [] = codes "{}"
payload_or_braces (c ∷ p) = c ∷ p

unfoldable pub chosen_ips : List Bytes → List Bytes → List Bytes
chosen_ips [] enumerated = enumerated
chosen_ips (ip ∷ ips) enumerated = ip ∷ ips

-- advertise, before its announcement; the last argument is what it finds on the host's interfaces.
unfoldable pub advertise : Bytes → ℕ → Bytes → List Bytes → List Bytes → Advertiser → Advertiser
unfolding payload_or_braces chosen_ips
advertise id port payload ips enumerated a = record a {
  advertising = true;
  adv_node_id = id;
  adv_port = port;
  adv_payload_json = payload_or_braces payload;
  adv_ips = chosen_ips ips enumerated;
  adv_instance = ensure_trailing_dot (id ++ (b'.' ∷ a.service_type));
  adv_host_qualified = ensure_trailing_dot (id ++ codes ".local.");
}

unfoldable pub srv_record : Advertiser → SentRecord
srv_record a = record { name = a.adv_instance; sent = sent_srv a.adv_host_qualified a.adv_port }

unfoldable pub ptr_record : Advertiser → SentRecord
ptr_record a = record { name = a.service_type; sent = sent_ptr a.adv_instance }

unfoldable pub txt_record : Bytes → Bytes → Advertiser → SentRecord
txt_record key value a = record { name = a.adv_instance; sent = sent_txt key value }

unfoldable pub aaaa_data : Option Bytes → Option SentData
aaaa_data none = none
aaaa_data (some addr) = some (sent_aaaa addr)

unfoldable pub address_or : Option Bytes → Option SentData → Option SentData
address_or none otherwise = otherwise
address_or (some addr) otherwise = some (sent_a addr)

-- inet_pton by IPv4, and else by IPv6.
unfoldable pub parse_ip : AddressCodec → Bytes → Option SentData
unfolding address_or aaaa_data
parse_ip codec ip = address_or (codec.pton4 ip) (aaaa_data (codec.pton6 ip))

unfoldable pub push_record : Bytes → Option SentData → List SentRecord → List SentRecord
push_record host none later = later
push_record host (some body) later = record { name = host; sent = body } ∷ later

unfoldable pub count_after : ℕ → Option SentData → ℕ
count_after n none = n
count_after n (some body) = suc n

-- The loop over adv_ips_, behind `add_count` records: the array has room for 32.
unfoldable pub address_records : AddressCodec → Bytes → ℕ → List Bytes → List SentRecord
unfolding parse_ip push_record count_after
address_records codec host add_count [] = []
address_records codec host add_count (ip ∷ ips) =
    let parsed = parse_ip codec ip in
    let later = address_records codec host (count_after add_count parsed) ips in
    if leb 32 add_count then [] else push_record host parsed later

unfoldable pub additional_records : AddressCodec → Advertiser → List SentRecord
unfolding srv_record txt_record address_records
additional_records codec a =
    srv_record a
    ∷ txt_record (codes "node_id") a.adv_node_id a
    ∷ txt_record (codes "payload") a.adv_payload_json a
    ∷ address_records codec a.adv_host_qualified 3 a.adv_ips

-- A multicast: the answer and the additional records.
abbrev pub Message : Type 0
Message = SentRecord × List SentRecord

-- send_announce_locked_, for each service socket.
unfoldable pub send_announce : AddressCodec → Advertiser → Option Message
unfolding ptr_record additional_records
send_announce codec a =
    if a.advertising then some (ptr_record a, additional_records codec a) else none

-- send_goodbye_locked_
unfoldable pub send_goodbye : Advertiser → Option Message
unfolding ptr_record
send_goodbye a = if a.advertising then some (ptr_record a, []) else none

unfoldable pub stop_advertising : Advertiser → Option Message × Advertiser
unfolding send_goodbye
stop_advertising a =
    if a.advertising then (send_goodbye a, record a { advertising = false }) else (none, a)

-- The records that handle_question_ builds, by code of its own: its loop over adv_ips_, and all of
-- `additional`.
unfoldable pub answer_addresses : AddressCodec → Bytes → ℕ → List Bytes → List SentRecord
unfolding parse_ip push_record count_after
answer_addresses codec host add_count [] = []
answer_addresses codec host add_count (ip ∷ ips) =
    let parsed = parse_ip codec ip in
    let later = answer_addresses codec host (count_after add_count parsed) ips in
    if leb 32 add_count then [] else push_record host parsed later

unfoldable pub answer_records : AddressCodec → Advertiser → List SentRecord
unfolding answer_addresses
answer_records codec a =
    record { name = a.adv_instance; sent = sent_srv a.adv_host_qualified a.adv_port }
    ∷ record { name = a.adv_instance; sent = sent_txt (codes "node_id") a.adv_node_id }
    ∷ record { name = a.adv_instance; sent = sent_txt (codes "payload") a.adv_payload_json }
    ∷ answer_addresses codec a.adv_host_qualified 3 a.adv_ips

unfoldable pub answer_ptr : Advertiser → SentRecord
answer_ptr a = record { name = a.service_type; sent = sent_ptr a.adv_instance }

-- The record types that a question names, as far as handle_question_ tells them apart.
pub data QuestionType : Type 0 where
  ask_ptr ask_srv ask_txt ask_a ask_aaaa ask_any ask_other : QuestionType

unfoldable pub asks_ptr : QuestionType → Bool
asks_ptr ask_ptr = true
asks_ptr ask_any = true
asks_ptr _ = false

unfoldable pub asks_srv : QuestionType → Bool
asks_srv ask_srv = true
asks_srv ask_any = true
asks_srv _ = false

unfoldable pub asks_txt : QuestionType → Bool
asks_txt ask_txt = true
asks_txt ask_any = true
asks_txt _ = false

-- The test on additional[i] of the loop that answers A, AAAA and ANY.
unfoldable pub answers_address : QuestionType → SentData → Bool
answers_address ask_a (sent_a addr) = true
answers_address ask_aaaa (sent_aaaa addr) = true
answers_address ask_any body = true
answers_address _ _ = false

unfoldable pub first_answer : QuestionType → List SentRecord → Option SentRecord
unfolding answers_address
first_answer rtype [] = none
first_answer rtype (r ∷ rest) =
    let later = first_answer rtype rest in if answers_address rtype r.sent then some r else later

unfoldable pub with_additional : List SentRecord → Option SentRecord → Option Message
with_additional extra none = none
with_additional extra (some answer) = some (answer, extra)

unfoldable pub answer_host : AddressCodec → Bytes → QuestionType → Advertiser → Option Message
unfolding first_answer with_additional answer_records
answer_host codec qname rtype a =
    let extra = answer_records codec a in
    if same_bytes (to_lower (ensure_trailing_dot qname)) (to_lower a.adv_host_qualified)
    then with_additional extra (first_answer rtype extra)
    else none

unfoldable pub answer_instance : AddressCodec → Bytes → QuestionType → Advertiser → Option Message
unfolding asks_srv asks_txt srv_record txt_record answer_records answer_host
answer_instance codec qname rtype a =
    let extra = answer_records codec a in
    let is_instance =
      ends_with_case_insensitive qname a.service_type
      && same_bytes (to_lower qname) (to_lower a.adv_instance) in
    if is_instance && asks_srv rtype
    then some (srv_record a, extra)
    else if is_instance && asks_txt rtype
    then some (txt_record (codes "node_id") a.adv_node_id a, extra)
    else answer_host codec qname rtype a

-- handle_question_: what is answered, whether by unicast or multicast.
unfoldable pub handle_question : AddressCodec → Bytes → QuestionType → Advertiser → Option Message
unfolding empty_list asks_ptr answer_ptr answer_records answer_instance
handle_question codec qname rtype a =
    if not a.advertising || empty_list qname
    then none
    else if asks_ptr rtype && ends_with_case_insensitive qname a.service_type
    then some (answer_ptr a, answer_records codec a)
    else answer_instance codec qname rtype a
