-- ===== src/Zconf/Wire.antt =====
-- What mdns.h does with a multicast, the other end of which is handle_record: parameters of the
-- model, and the behaviour that src/discovery/zconf_discovery.cpp relies on.
use magpie_cpp.Prelude.Bytes.{Bytes}
use magpie_cpp.Prelude.{
  ◌++◌, ◌+◌, ◌^◌, ◌&&◌, not, Bool, true, eqb, ltb, leb, length, Option, some, none, All,
  if◌then◌else◌, map, ◌∷◌, ◌≡◌, List, ℕ, suc, false, [],
}
use magpie_cpp.Zconf.Records.{
  ResourceRecord, RecordData, txt_data, srv_data, ptr_data, address_data,
}
use magpie_cpp.Zconf.Advertise.{
  Message, SentRecord, SentData, AddressCodec, sent_txt, sent_srv, sent_ptr, sent_aaaa, sent_a,
}
use magpie_cpp.Zconf.{empty_list}

unfoldable pub heard_data : AddressCodec → SentData → RecordData
heard_data codec (sent_ptr i) = ptr_data i
heard_data codec (sent_srv host port) = srv_data host port
heard_data codec (sent_txt key value) = txt_data ((key, value) ∷ [])
heard_data codec (sent_a addr) = address_data (codec.ntop4 addr)
heard_data codec (sent_aaaa addr) = address_data (codec.ntop6 addr)

unfoldable pub heard : AddressCodec → ℕ → SentRecord → ResourceRecord
heard codec ttl r = record { owner_name = r.name; ttl = ttl; rdata = heard_data codec r.sent }

unfoldable pub is_text : SentData → Bool
is_text (sent_txt key value) = true
is_text _ = false

-- A name as mdns.h writes and reads it: labels of 1 to 63 bytes, each with a dot behind it; `n` bytes
-- of a label have been seen. The buffers for names have 256 bytes.
unfoldable pub labels_fit : ℕ → Bytes → Bool
labels_fit n [] = eqb n 0
labels_fit n (c ∷ s) =
    let next = labels_fit 0 s in
    let on = labels_fit (suc n) s in if eqb c b'.' then ltb 0 n && next else ltb n 63 && on

-- The number of labels, of which mdns.h reads 64.
unfoldable pub label_count : Bytes → ℕ
label_count [] = 0
label_count (c ∷ s) = let rest = label_count s in if eqb c b'.' then rest + 1 else rest

unfoldable pub name_fits : Bytes → Bool
unfolding labels_fit label_count
name_fits name =
    not (empty_list name) && labels_fit 0 name && ltb (length name) 255 && leb (label_count name) 64

-- The key of a TXT string is printable ASCII and has no equals sign.
unfoldable pub is_key : Bytes → Bool
is_key [] = true
is_key (c ∷ s) = let rest = is_key s in not (eqb c b'=') && leb 32 c && leb c 126 && rest

-- The length of key, equals sign and value is one byte.
unfoldable pub data_fits : SentData → Bool
unfolding name_fits is_key
data_fits (sent_ptr instance_name) = name_fits instance_name
data_fits (sent_srv host port) = name_fits host && ltb port (2 ^ 16)
data_fits (sent_txt key value) =
    not (empty_list key) && is_key key && ltb (length key + length value + 1) 256
data_fits _ = true

-- At most the bytes of a record, without compression of names.
unfoldable pub data_size : SentData → ℕ
data_size (sent_ptr instance_name) = length instance_name + 1
data_size (sent_srv host port) = length host + 7
data_size (sent_txt key value) = length key + length value + 2
data_size (sent_a addr) = 4
data_size (sent_aaaa addr) = 16

unfoldable pub records_fit : List SentRecord → Bool
unfolding name_fits data_fits
records_fit [] = true
records_fit (r ∷ rs) = let rest = records_fit rs in name_fits r.name && data_fits r.sent && rest

unfoldable pub records_size : List SentRecord → ℕ
unfolding data_size
records_size [] = 0
records_size (r ∷ rs) = length r.name + 11 + data_size r.sent + records_size rs

-- Names, strings and the buffer of 2048 bytes are large enough.
unfoldable pub message_fits : Message → Bool
unfolding records_fit records_size
message_fits (answer, extra) =
    records_fit (answer ∷ extra) && leb (12 + records_size (answer ∷ extra)) 2048

abbrev pub FitsWire : Option Message → Type 0
FitsWire none = Unit
FitsWire (some m) = message_fits m ≡ true

abbrev pub IsNoText : SentRecord → Type 0
IsNoText r = is_text r.sent ≡ false

-- A PTR answer, alone or with the SRV, TXT and other records of an announcement, if it fits: the two
-- TXT records of one name are one record, behind the others.
pub record Delivers (codec : AddressCodec) (deliver : ℕ → Message → List ResourceRecord)
    : Type 0 where
  pub answer_first :
      (ttl : ℕ) (name i : Bytes)
      → let answer : SentRecord = record { name = name; sent = sent_ptr i } in
        message_fits (answer, []) ≡ true → deliver ttl (answer, []) ≡ heard codec ttl answer ∷ []
  pub texts_last :
      (ttl : ℕ) (name i host n k v l w : Bytes) (port : ℕ) (others : List SentRecord)
      → let answer : SentRecord = record { name = name; sent = sent_ptr i } in
        let service : SentRecord = record { name = n; sent = sent_srv host port } in
        let extra =
          service
          ∷ record { name = n; sent = sent_txt k v }
          ∷ record { name = n; sent = sent_txt l w }
          ∷ others in
        All IsNoText others
        → message_fits (answer, extra) ≡ true
        → deliver ttl (answer, extra)
          ≡ heard codec ttl answer
            ∷ heard codec ttl service
            ∷ (map (heard codec ttl) others
                ++ (record { owner_name = n; ttl = ttl; rdata = txt_data ((k, v) ∷ (l, w) ∷ []) }
                    ∷ []))
  pub ntop4_prints : (addr : Bytes) → empty_list (codec.ntop4 addr) ≡ false
  pub ntop6_prints : (addr : Bytes) → empty_list (codec.ntop6 addr) ≡ false

-- Records with the times at which they are handled.
unfoldable pub stamp : (ℕ → ℕ) → List ResourceRecord → List (ℕ × ResourceRecord)
stamp times [] = []
stamp times (r ∷ rs) = (times 0, r) ∷ stamp (λ n. times (suc n)) rs
