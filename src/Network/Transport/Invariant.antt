-- ===== src/Network/Transport/Invariant.antt =====
-- What holds of every packet in the network and of the receiver's link.
use in_lib.Base.{
  ℕ, zero, suc, ◌+◌, ◌<◌, ◌≡◌, refl, ◌⊎◌, List, [], ◌∷◌, ◌++◌, map, none, some, length, get_elem?,
  Byte, All, All-mono,
}
use in_lib.Miptp.Host.{Host, SeqLink, seq_limit}
use in_lib.Miptp.Send.Window.{node_for}
use in_lib.Miptp.Receive.{seq_exp}
use in_lib.Network.Messages.{carried, handed_over}
use in_lib.Network.Transport.{Transport}

-- A packet carries a message that was submitted, under its number: `base` is the first.
pub record Carries (src base port : ℕ) (submitted : List (List Byte)) (p : List Byte) : Type 0 where
  pub index : ℕ
  pub more : ℕ
  pub time : ℕ
  pub bytes : List Byte
  pub stack : List Byte
  pub host : Host
  pub nth : get_elem? submitted index ≡ some bytes
  pub long : length bytes ≡ 2 + more
  pub from : host.port ≡ port
  pub number : host.seq_send ≡ base + index
  pub small : base + index < seq_limit
  pub packet : p ≡ carried src (node_for bytes stack time host)

get_elem?-append :
    (xs ys : List (List Byte)) (i : ℕ) (x : List Byte)
    → get_elem? xs i ≡ some x
    → get_elem? (xs ++ ys) i ≡ some x
get_elem?-append [] ys i x h = absurd (cc)
get_elem?-append (y ∷ xs) ys zero x h = h
get_elem?-append (y ∷ xs) ys (suc i) x h = get_elem?-append xs ys i x h

pub get_elem?-snoc :
    (xs : List (List Byte)) (x : List Byte) → get_elem? (xs ++ (x ∷ [])) (length xs) ≡ some x
get_elem?-snoc [] x = refl
get_elem?-snoc (y ∷ xs) x = get_elem?-snoc xs x

module _ (src base port : ℕ) where
  -- What was submitted later makes no difference.
  pub Carries-append :
      (submitted more : List (List Byte)) (p : List Byte)
      → Carries src base port submitted p
      → Carries src base port (submitted ++ more) p
  Carries-append submitted more p c = record {
    index = c.index;
    more = c.more;
    time = c.time;
    bytes = c.bytes;
    stack = c.stack;
    host = c.host;
    nth = get_elem?-append submitted more c.index c.bytes c.nth;
    long = c.long;
    from = c.from;
    number = c.number;
    small = c.small;
    packet = c.packet;
  }

  pub All-Carries-append :
      (submitted more ps : List (List Byte))
      → All (Carries src base port submitted) ps
      → All (Carries src base port (submitted ++ more)) ps
  All-Carries-append submitted more ps h =
      All-mono _ _ ps (λ p c. Carries-append submitted more p c) h

  -- The sender's application got `delivered` out of a run of messages that were submitted one after
  -- the other; the link of the receiver expects the number behind them.
  abbrev pub InOrder : List SeqLink → List (List Byte) → List (List Byte) → Type 0
  InOrder links submitted delivered =
      ((seq_exp links src port ≡ none) × (delivered ≡ []))
      ⊎ ((i : ℕ) × (before run after : List (List Byte)) × (seq_exp links src port
            ≡ some (i, base + (length before + length run)))
          × (submitted ≡ before ++ (run ++ after))
          × (delivered ≡ map (λ (b : List Byte). handed_over b src port) run))

  pub record Inv (s : Transport) : Type 0 where
    pub packets : All (Carries src base port s.submitted) s.packets
    pub queue : All (λ n. Carries src base port s.submitted (carried src n)) s.sender.message_queue
    pub from : s.sender.port ≡ port
    pub next : s.sender.seq_send ≡ base + length s.submitted
    pub view : InOrder s.receiver.seq_link s.submitted s.delivered
