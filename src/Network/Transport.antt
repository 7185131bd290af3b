-- ===== src/Network/Transport.antt =====
-- One application of MIPTP and one receiver of its messages, with the network between them: the
-- handlers of miptp_utils.c at both ends, called in any order. What was sent stays in the network
-- for ever and may arrive any number of times, in any order, or never.
pub mod Invariant
pub mod Packets
pub mod Links
pub mod Keeps
pub mod Order
pub mod Rounds
pub mod Progress
mod Tests
use in_lib.Base.{
  ℕ, ◌+◌, ◌<◌, ◌≡◌, List, [], ◌∷◌, ◌++◌, map, some, length, get_or, get_elem?, take, drop, Byte,
  ret, ◌/◌,
}
use in_lib.Packet.{of_bytes}
use in_lib.Miptp.Host.{Host, Write, Writes, field_of, seq_limit}
use in_lib.Miptp.Send.{forward_to_mip, resend_window}
use in_lib.Miptp.Receive.{receive_ack, receive_data}

pub record Transport : Type 0 where
  pub sender : Host
  pub receiver : Host
  pub packets : List (List Byte)
  pub acks : List (List Byte)
  pub submitted : List (List Byte)
  pub delivered : List (List Byte)

-- A packet that was written, as the far daemon reads it: the source in front, and no TTL.
abbrev pub arriving : ℕ → Writes → List (List Byte)
arriving mip = map (λ (w : Write). mip ∷ 0 ∷ drop 2 w.bytes)

-- What the handlers' results do to the state. The writes of `receive_data` are the acknowledgement
-- and then what the application is handed.
abbrev pub after_send : ℕ → Transport → List Byte → Host × Writes → Transport
after_send src s bytes r = record s {
  sender = r.0;
  packets = arriving src r.1 ++ s.packets;
  submitted = s.submitted ++ (bytes ∷ []);
}

abbrev pub after_timeout : ℕ → ℕ → ℕ → Transport → Transport
after_timeout src mip_daemon time s =
    let r = resend_window mip_daemon time s.sender.message_queue in
    record s {
      sender = record s.sender { message_queue = r.0 };
      packets = arriving src r.1 ++ s.packets;
    }

abbrev pub after_packet : ℕ → Transport → Host × Writes → Transport
after_packet dst s r = record s {
  receiver = r.0;
  acks = arriving dst (take 1 r.1) ++ s.acks;
  delivered = s.delivered ++ map (λ (w : Write). w.bytes) (drop 1 r.1);
}

abbrev pub after_ack : ℕ → Transport → Host × Writes → Transport
after_ack src s r = record s { sender = r.0; packets = arriving src r.1 ++ s.packets }

-- The sender is on host `src`, the receiver on host `dst`. The messages are for `dst` alone, and
-- the numbers are not yet to wrap.
pub data Step (src dst mip_daemon app_fd : ℕ) (s : Transport) : Transport → Type 0 where
  send :
      (bytes stack : List Byte) (time k : ℕ) (r : Host × Writes)
      → length bytes ≡ 2 + k
      → get_or bytes 0 0 ≡ dst
      → s.sender.seq_send < seq_limit
      → forward_to_mip mip_daemon bytes stack time s.sender ≡ ret r
      → Step src dst mip_daemon app_fd s (after_send src s bytes r)
  timeout : (time : ℕ) → Step src dst mip_daemon app_fd s (after_timeout src mip_daemon time s)
  packet :
      (i : ℕ) (p : List Byte) (r : Host × Writes)
      → get_elem? s.packets i ≡ some p
      → receive_data mip_daemon app_fd p (length p) s.receiver ≡ ret r
      → Step src dst mip_daemon app_fd s (after_packet dst s r)
  ack :
      (i time : ℕ) (a : List Byte) (r : Host × Writes)
      → get_elem? s.acks i ≡ some a
      → receive_ack mip_daemon time (field_of (of_bytes a).msg / 4) s.sender ≡ ret r
      → Step src dst mip_daemon app_fd s (after_ack src s r)

-- Both ends have just started, with nothing sent; the receiver may know other senders.
abbrev pub start : Host → Host → Transport
start sender receiver = record {
  sender = record sender { message_queue = [] };
  receiver = receiver;
  packets = [];
  acks = [];
  submitted = [];
  delivered = [];
}

pub data Reach (src dst mip_daemon app_fd : ℕ) (s : Transport) : Transport → Type 0 where
  started : Reach src dst mip_daemon app_fd s s
  later :
      {t u : Transport}
      → Reach src dst mip_daemon app_fd s t
      → Step src dst mip_daemon app_fd t u
      → Reach src dst mip_daemon app_fd s u
