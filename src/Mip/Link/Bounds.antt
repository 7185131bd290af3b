-- ===== src/Mip/Link/Bounds.antt =====
-- mip_daemon.c: how long the frames are that are sent.
use in_lib.Base.{
  ltb, ℕ, ◌+◌, ◌≤◌, inl, inr, List, [], ◌∷◌, ◌==◌, length, Byte, Bool-cases, All, ret, ◌>>=◌, Ends,
  Ends->>=,
}
use in_lib.Mip.Link.{
  IfAddr, Output, frame, write, close, Outputs, get_mac_from_index, send_raw_packet, send_each,
  broadcast, get_mac_from_interface, local_interfaces, max_if, broadcast_mac,
}

-- The longest packet that a header of nine bits for its words can have.
abbrev pub max_frame : ℕ
max_frame = 2048

abbrev pub Short : Output → Type 0
Short (frame f) = length f.contents ≤ max_frame
Short (write fd bytes) = Unit
Short (close fd) = Unit

abbrev pub AllShort : Outputs → Type 0
AllShort = All Short

get_mac_from_index-Ends :
    (index counter : ℕ) (ifaces : List IfAddr)
    → Ends (λ _. Unit) (get_mac_from_index index counter ifaces)
unfolding get_mac_from_index
get_mac_from_index-Ends index counter [] = tt
get_mac_from_index-Ends index counter (ifp ∷ rest) =
    let later = get_mac_from_index-Ends index (counter + 1) rest in
    elim (Bool-cases (counter == index)) [ inl hit ↦ rw hit tt | inr miss ↦ rw miss later ]

pub send_raw_packet-Short :
    (ifaces : List IfAddr) (so_name : ℕ) (buf mac : List Byte)
    → length buf ≤ max_frame
    → Ends Short (send_raw_packet ifaces so_name buf mac)
unfolding send_raw_packet
send_raw_packet-Short ifaces so_name buf mac h =
    Ends->>= (λ _. Unit) Short _ _ (get_mac_from_index-Ends so_name 1 ifaces) (λ src _. h)

-- One frame, if any.
pub send_one-Short :
    (ifaces : List IfAddr) (so_name : ℕ) (buf mac : List Byte)
    → length buf ≤ max_frame
    → Ends AllShort (send_raw_packet ifaces so_name buf mac >>= λ out. ret (out ∷ []))
send_one-Short ifaces so_name buf mac h =
    Ends->>= Short AllShort _ _ (send_raw_packet-Short ifaces so_name buf mac h)
      (λ out short. (short, tt))

pub broadcast-Short :
    (ifaces : List IfAddr) (buf : List Byte)
    → length buf ≤ max_frame
    → Ends AllShort (broadcast ifaces buf)
unfolding broadcast get_mac_from_interface send_each
broadcast-Short ifaces buf h = elim (Bool-cases (ltb max_if (length (local_interfaces ifaces)))) [
  | inl many ↦ rw (broadcast, get_mac_from_interface, many) tt
  | inr few ↦ rw (broadcast, get_mac_from_interface, few) (each (local_interfaces ifaces))
]
  where
    each : (found : List ℕ) → Ends AllShort (send_each ifaces found buf)
    each [] = tt
    each (so_name ∷ rest) =
        Ends->>= Short AllShort _ _ (send_raw_packet-Short ifaces so_name buf broadcast_mac h)
          (λ out short. Ends->>= AllShort AllShort _ _ (each rest) (λ more all. (short, all)))
