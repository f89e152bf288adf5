-- ===== src/Zconf/Interfaces.antt =====
-- The host's interfaces in src/discovery/zconf_discovery.cpp (the build for POSIX): the addresses
-- that enumerate_ifaces opens sockets for, and those that advertise collects when it is given none.
-- getifaddrs is a parameter: its list is an argument.

use magpie_cpp.Prelude.Bytes.{same_bytes_iff, same_bytes, Bytes, codes}
use magpie_cpp.Prelude.{
  ltb, arith, ◌||◌, eqb, Bool-cases, ◌≡◌, if◌then◌else◌, not, ◌&&◌, List, ◌∷◌, Bool, ℕ, true, refl,
  inr, inl, false, [],
}
use magpie_cpp.Zconf.Advertise.{AddressCodec}
use magpie_cpp.Prelude.Table.{has}
use magpie_cpp.Zconf.{starts_with}

pub data InterfaceAddress : Type 0 where
  no_address other_family : InterfaceAddress
  ipv4_address : Bytes → InterfaceAddress
  ipv6_address : Bytes → ℕ → InterfaceAddress

-- ifaddrs, as far as it is read; an ipv6_address has its sin6_scope_id.
pub record Interface : Type 0 where
  pub ifa_name : Bytes
  pub up : Bool
  pub multicast : Bool
  pub point_to_point : Bool
  pub loopback : Bool
  pub ifa_addr : InterfaceAddress

unfoldable pub has_address : InterfaceAddress → Bool
has_address no_address = false
has_address _ = true

unfoldable pub is_good_iface : Interface → Bool
unfolding has_address
is_good_iface i =
    has_address i.ifa_addr && (i.up && i.multicast) && not i.point_to_point && not i.loopback

-- ::1 and ::ffff:127.0.0.1
abbrev pub localhost : Bytes
localhost = 0 ∷ 0 ∷ 0 ∷ 0 ∷ 0 ∷ 0 ∷ 0 ∷ 0 ∷ 0 ∷ 0 ∷ 0 ∷ 0 ∷ 0 ∷ 0 ∷ 0 ∷ 1 ∷ []

abbrev pub localhost_mapped : Bytes
localhost_mapped = 0 ∷ 0 ∷ 0 ∷ 0 ∷ 0 ∷ 0 ∷ 0 ∷ 0 ∷ 0 ∷ 0 ∷ 255 ∷ 255 ∷ 127 ∷ 0 ∷ 0 ∷ 1 ∷ []

unfoldable pub opens_socket : InterfaceAddress → Bool
unfolding same_bytes
opens_socket no_address = false
opens_socket other_family = false
opens_socket (ipv4_address addr) = not (same_bytes addr (127 ∷ 0 ∷ 0 ∷ 1 ∷ []))
opens_socket (ipv6_address addr scope) =
    eqb scope 0 && not (same_bytes addr localhost) && not (same_bytes addr localhost_mapped)

unfoldable pub enumerate_ifaces : List Interface → List InterfaceAddress
unfolding is_good_iface opens_socket
enumerate_ifaces [] = []
enumerate_ifaces (i ∷ rest) =
    let later = enumerate_ifaces rest in
    if is_good_iface i && opens_socket i.ifa_addr then i.ifa_addr ∷ later else later

-- strcmp(name, "docker0") == 0, and strncmp for the other names
unfoldable pub is_bad_virtual_iface_name : Bytes → Bool
unfolding same_bytes starts_with
is_bad_virtual_iface_name name =
    same_bytes name (codes "docker0")
    || starts_with (codes "br-") name
    || starts_with (codes "veth") name
    || starts_with (codes "virbr") name
    || starts_with (codes "tun") name
    || starts_with (codes "wg") name

unfoldable pub push_address : AddressCodec → InterfaceAddress → List Bytes → List Bytes
push_address codec (ipv4_address addr) later = codec.ntop4 addr ∷ later
push_address codec (ipv6_address addr scope) later = codec.ntop6 addr ∷ later
push_address codec _ later = later

unfoldable pub host_ips : AddressCodec → List Interface → List Bytes
unfolding has_address is_bad_virtual_iface_name push_address
host_ips codec [] = []
host_ips codec (i ∷ rest) =
    let later = host_ips codec rest in
    if has_address i.ifa_addr && i.up && not (is_bad_virtual_iface_name i.ifa_name)
    then push_address codec i.ifa_addr later
    else later

-- std::string's operator<
unfoldable pub bytes_ltb : Bytes → Bytes → Bool
bytes_ltb s [] = false
bytes_ltb [] (d ∷ t) = true
bytes_ltb (c ∷ s) (d ∷ t) = if eqb c d then bytes_ltb s t else ltb c d

-- std::sort, and std::unique with erase, in one pass of insertions: equal texts are one.
unfoldable pub insert_unique : Bytes → List Bytes → List Bytes
unfolding same_bytes bytes_ltb
insert_unique t [] = t ∷ []
insert_unique t (x ∷ xs) =
    let rest = insert_unique t xs in
    if same_bytes x t then x ∷ xs else if bytes_ltb t x then t ∷ x ∷ xs else x ∷ rest

unfoldable pub sort_unique : List Bytes → List Bytes
unfolding insert_unique
sort_unique [] = []
sort_unique (t ∷ ts) = insert_unique t (sort_unique ts)

-- What advertise takes when it is given no address.
unfoldable pub enumerated_ips : AddressCodec → List Interface → List Bytes
unfolding host_ips sort_unique
enumerated_ips codec interfaces = sort_unique (host_ips codec interfaces)

has-insert_unique :
    (k t : Bytes) (xs : List Bytes) → has k (insert_unique t xs) ≡ (same_bytes t k || has k xs)
unfolding has insert_unique
has-insert_unique k t [] = refl
has-insert_unique k t (x ∷ xs) =
    ground
      (arith, has-insert_unique k t xs, same_bytes_iff x t, same_bytes_iff x k, same_bytes_iff t k)

-- A text is before the first of a list.
abbrev pub First : Bytes → List Bytes → Type 0
First x [] = Unit
First x (y ∷ ys) = bytes_ltb x y ≡ true

-- Each text is before the next.
abbrev pub Ascending : List Bytes → Type 0
Ascending [] = Unit
Ascending (x ∷ xs) = (First x xs) × Ascending xs

bytes_ltb-total :
    (s t : Bytes) → bytes_ltb s t ≡ false → same_bytes t s ≡ false → bytes_ltb t s ≡ true
unfolding bytes_ltb same_bytes
bytes_ltb-total [] [] b e = ground (arith, e)
bytes_ltb-total [] (d ∷ t) b e = ground (arith, b)
bytes_ltb-total (c ∷ s) [] b e = refl
bytes_ltb-total (c ∷ s) (d ∷ t) b e = ground (arith, b, e, bytes_ltb-total s t)

First-insert_unique :
    (x t : Bytes) (xs : List Bytes)
    → bytes_ltb x t ≡ true
    → First x xs
    → First x (insert_unique t xs)
unfolding insert_unique
First-insert_unique x t [] b f = b
First-insert_unique x t (y ∷ ys) b f = elim (Bool-cases (same_bytes y t)) [
  | inl s ↦ rw s f
  | inr s ↦ rw s (elim (Bool-cases (bytes_ltb t y)) [ inl c ↦ rw c b | inr c ↦ rw c f ])
]

insert_unique-Ascending :
    (t : Bytes) (xs : List Bytes) → Ascending xs → Ascending (insert_unique t xs)
unfolding insert_unique
insert_unique-Ascending t [] a = (tt, tt)
insert_unique-Ascending t (x ∷ xs) a = elim (Bool-cases (same_bytes x t)) [
  | inl s ↦ rw s a
  | inr s ↦ rw s (elim (Bool-cases (bytes_ltb t x)) [
    | inl b ↦ rw b (b, a)
    | inr b ↦
        rw b (
          First-insert_unique x t xs (bytes_ltb-total t x b s) a.0,
          insert_unique-Ascending t xs a.1,
        )
  ])
]

sort_unique-Ascending : (ts : List Bytes) → Ascending (sort_unique ts)
unfolding sort_unique
sort_unique-Ascending [] = tt
sort_unique-Ascending (t ∷ ts) =
    insert_unique-Ascending t (sort_unique ts) (sort_unique-Ascending ts)

has-sort_unique : (k : Bytes) (ts : List Bytes) → has k (sort_unique ts) ≡ has k ts
unfolding sort_unique has
has-sort_unique k [] = refl
has-sort_unique k (t ∷ ts) =
    ground (arith, has-insert_unique k t (sort_unique ts), has-sort_unique k ts)

-- The collected addresses are in ascending order, so each is there once, and are those of the
-- interfaces that are up and not virtual.
pub enumerated_ips_lem :
    (codec : AddressCodec) (interfaces : List Interface)
    → Ascending (enumerated_ips codec interfaces)
      × ((ip : Bytes)
          → has ip (enumerated_ips codec interfaces) ≡ has ip (host_ips codec interfaces))
unfolding enumerated_ips
enumerated_ips_lem codec interfaces = (
  sort_unique-Ascending (host_ips codec interfaces),
  λ ip. has-sort_unique ip (host_ips codec interfaces),
)
