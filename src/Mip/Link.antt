-- ===== src/Mip/Link.antt =====
-- The ARP cache, the interfaces and the frames of mip_daemon.c. What `getifaddrs` reports is an
-- argument, `IfAddr` for each of its entries; `sendmsg` is taken to succeed.
pub mod CacheLaws
pub mod Bounds
use in_lib.Base.{
  ℕ, zero, suc, ◌+◌, ◌≡◌, Bool, true, false, not, ◌&&◌, List, [], ◌∷◌, ◌++◌, Option, none, some,
  ltb, ◌==◌, if◌then◌else◌, length, get_elem?, Byte, Run, ret, failed, overrun, no_fuel, ◌>>=◌,
}

-- An entry of `getifaddrs`: whether it is an AF_PACKET address, whether its name is "lo", and of
-- its `sockaddr_ll` the index and the address.
pub record IfAddr : Type 0 where
  pub af_packet : Bool
  pub is_lo : Bool
  pub ifindex : ℕ
  pub sll_addr : List Byte

-- `struct cache`; of the interface only its index is used.
pub record CacheEntry : Type 0 where
  pub mip : ℕ
  pub iface : ℕ
  pub mac : List Byte

-- `cache_table[0]` up to `cache_table[cache_current_len - 1]`.
abbrev pub CacheTable : Type 0
CacheTable = List CacheEntry

abbrev pub cache_table_len : ℕ
cache_table_len = 4

abbrev pub max_if : ℕ
max_if = 4

abbrev pub broadcast_mac : List Byte
broadcast_mac = 0xFF ∷ 0xFF ∷ 0xFF ∷ 0xFF ∷ 0xFF ∷ 0xFF ∷ []

-- An Ethernet frame that goes out through the raw socket.
pub record Frame : Type 0 where
  pub out_if : ℕ
  pub dst_addr : List Byte
  pub src_addr : List Byte
  pub eth_protocol : List Byte
  pub contents : List Byte

-- What the daemon does to its sockets.
pub data Output : Type 0 where
  frame : Frame → Output
  write : ℕ → List Byte → Output
  close : ℕ → Output

abbrev pub Outputs : Type 0
Outputs = List Output

-- The index, or `none` for -1.
unfoldable pub check_cache : ℕ → CacheTable → Option ℕ
check_cache mip [] = none
check_cache mip (entry ∷ rest) =
    let later = check_cache mip rest in
    if entry.mip == mip then some 0 else elim later [ none ↦ none | some i ↦ some (suc i) ]

-- `cache_table[index]`.
unfoldable pub cache_at : CacheTable → ℕ → Run CacheEntry
cache_at table index = elim (get_elem? table index) [ none ↦ overrun | some entry ↦ ret entry ]

-- A full cache ends the process.
unfoldable pub cache : ℕ → ℕ → List Byte → CacheTable → Run CacheTable
cache mip s_addr mac table =
    if ltb (length table) cache_table_len
    then ret (table ++ (record { mip = mip; iface = s_addr; mac = mac } ∷ []))
    else failed

-- Entries are counted from 1.
unfoldable pub get_mac_from_index : ℕ → ℕ → List IfAddr → Run (List Byte)
get_mac_from_index index counter [] = failed
get_mac_from_index index counter (ifp ∷ rest) =
    let later = get_mac_from_index index (counter + 1) rest in
    if counter == index then ret ifp.sll_addr else later

-- The interfaces of the `for` loop.
unfoldable pub local_interfaces : List IfAddr → List ℕ
local_interfaces [] = []
local_interfaces (ifp ∷ rest) =
    let later = local_interfaces rest in
    if ifp.af_packet && not ifp.is_lo then ifp.ifindex ∷ later else later

-- The array `senders_iface` holds `MAX_IF` of them, and is not checked.
unfoldable pub get_mac_from_interface : List IfAddr → Run (List ℕ)
unfolding local_interfaces
get_mac_from_interface ifaces =
    if ltb max_if (length (local_interfaces ifaces)) then overrun else ret (local_interfaces ifaces)

-- `0x88B5`, high byte first.
unfoldable pub send_raw_packet : List IfAddr → ℕ → List Byte → List Byte → Run Output
unfolding get_mac_from_index
send_raw_packet ifaces so_name buf dst_mac = get_mac_from_index so_name 1 ifaces >>= λ src. ret (
    frame (record {
      out_if = so_name;
      dst_addr = dst_mac;
      src_addr = src;
      eth_protocol = 0x88 ∷ 0xB5 ∷ [];
      contents = buf;
    }))

-- The `for` loops that send one packet through each interface.
unfoldable pub send_each : List IfAddr → List ℕ → List Byte → Run Outputs
unfolding send_raw_packet
send_each ifaces [] buf = ret []
send_each ifaces (so_name ∷ rest) buf = send_raw_packet ifaces so_name buf broadcast_mac >>= λ out.
    send_each ifaces rest buf >>= λ more. ret (out ∷ more)

unfoldable pub broadcast : List IfAddr → List Byte → Run Outputs
unfolding send_each get_mac_from_interface
broadcast ifaces buf = get_mac_from_interface ifaces >>= λ found. send_each ifaces found buf
