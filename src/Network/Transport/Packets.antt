-- ===== src/Network/Transport/Packets.antt =====
-- What the receiver makes of a packet that carries a message.
use in_lib.Base.{
  ℕ, ◌+◌, ◌<◌, ◌≡◌, refl, ap₂, ◌∙◌, List, [], ◌∷◌, Option, none, some, length, get_or, Byte, Run,
  ret, overrun, ◌/◌, ◌%◌,
}
use in_lib.Packet.{of_bytes}
use in_lib.Miptp.Host.{Host, Write, SeqLink, field_of, seq_limit}
use in_lib.Miptp.Send.{send_ack}
use in_lib.Miptp.Send.Window.{node_for}
use in_lib.Miptp.Receive.{receive_data, accept, app_message}
use in_lib.Network.Messages.{
  carried, handed_over, carried-handed_over, seq-carried, port-carried, length-carried,
}

module _ (mip_daemon app_fd rc : ℕ) (buffer : List Byte) (receiver : Host) where
  abbrev port_of : ℕ
  port_of = get_or (of_bytes buffer).msg 0 0

  abbrev seq_of : ℕ
  seq_of = field_of (of_bytes buffer).msg / 4

  -- The acknowledgement is the same whether the packet is accepted or not.
  abbrev pub reply : Write
  reply =
      send_ack mip_daemon (get_or (of_bytes buffer).msg 0 0) (of_bytes buffer).mip
        (field_of (of_bytes buffer).msg / 4) (get_or (of_bytes buffer).msg 1 0)

  pub receive_data_ignored :
      accept
          (of_bytes buffer).mip
          (get_or (of_bytes buffer).msg 0 0)
          (field_of (of_bytes buffer).msg / 4)
          receiver.seq_link
        ≡ ret none
      → receive_data mip_daemon app_fd buffer rc receiver ≡ ret (receiver, reply ∷ [])
  unfolding receive_data
  receive_data_ignored e = rw (receive_data, e) refl

  pub receive_data_taken :
      (links : List SeqLink) (handed : List Byte)
      → accept
          (of_bytes buffer).mip
          (get_or (of_bytes buffer).msg 0 0)
          (field_of (of_bytes buffer).msg / 4)
          receiver.seq_link
        ≡ ret (some links)
      → app_message buffer rc
          (field_of (of_bytes buffer).msg % 4)
          (of_bytes buffer).mip
          (get_or (of_bytes buffer).msg 0 0)
        ≡ ret handed
      → receive_data mip_daemon app_fd buffer rc receiver
        ≡ ret (
          record receiver { seq_link = links },
          reply ∷ record { fd = app_fd; bytes = handed } ∷ [],
        )
  unfolding receive_data
  receive_data_taken links handed e f = rw (receive_data, e, f) refl

  pub receive_data_overrun :
      accept
          (of_bytes buffer).mip
          (get_or (of_bytes buffer).msg 0 0)
          (field_of (of_bytes buffer).msg / 4)
          receiver.seq_link
        ≡ overrun
      → receive_data mip_daemon app_fd buffer rc receiver ≡ overrun
  unfolding receive_data
  receive_data_overrun e = rw (receive_data, e) refl

module _ (bytes stack : List Byte) (time src k : ℕ) (host : Host) (long : length bytes ≡ 2 + k)
    (small : host.seq_send < seq_limit) (mip_daemon app_fd : ℕ) (receiver : Host) where
  abbrev p : List Byte
  p = carried src (node_for bytes stack time host)

  -- What `accept` says of the packet's bytes, from what it says of the sender's port and number.
  accept-carried :
      (r : Run (Option (List SeqLink)))
      → accept src host.port host.seq_send receiver.seq_link ≡ r
      → accept src (get_or (of_bytes p).msg 0 0) (field_of (of_bytes p).msg / 4) receiver.seq_link
        ≡ r
  accept-carried r e =
      ap₂ (λ port seq. accept src port seq receiver.seq_link)
        (port-carried bytes stack time src k host long)
        (seq-carried bytes stack time src k host long small)
      ∙ e

  pub carried_ignored :
      accept src host.port host.seq_send receiver.seq_link ≡ ret none
      → receive_data mip_daemon app_fd p (length p) receiver
        ≡ ret (receiver, reply mip_daemon app_fd (length p) p receiver ∷ [])
  carried_ignored e =
      receive_data_ignored mip_daemon app_fd (length p) p receiver (accept-carried (ret none) e)

  pub carried_taken :
      (links : List SeqLink)
      → accept src host.port host.seq_send receiver.seq_link ≡ ret (some links)
      → receive_data mip_daemon app_fd p (length p) receiver
        ≡ ret (
          record receiver { seq_link = links },
          reply mip_daemon app_fd (length p) p receiver
              ∷ record { fd = app_fd; bytes = handed_over bytes src host.port }
              ∷ [],
        )
  carried_taken links e =
      receive_data_taken mip_daemon app_fd (length p) p receiver links
        (handed_over bytes src host.port) (accept-carried (ret (some links)) e)
        (ap₂ (λ rc port. app_message p rc (field_of (of_bytes p).msg % 4) src port)
            (length-carried bytes stack time src k host long)
            (port-carried bytes stack time src k host long)
          ∙ carried-handed_over bytes stack time src host.port k host long)

  pub carried_overrun :
      accept src host.port host.seq_send receiver.seq_link ≡ overrun
      → receive_data mip_daemon app_fd p (length p) receiver ≡ overrun
  carried_overrun e =
      receive_data_overrun mip_daemon app_fd (length p) p receiver (accept-carried overrun e)
