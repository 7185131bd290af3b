-- ===== src/Network/Messages.antt =====
-- What the transport layer of miptp_utils.c packs around a message at one end and takes off at the
-- other. `Network.Passage` has the way between them, through the MIP daemons.
use in_lib.Base.{
  ℕ, ◌+◌, ◌-◌, ◌/◌, ◌%◌, ◌≡◌, refl, sym, ap, ◌∙◌, false, List, [], ◌∷◌, ◌++◌, ltb, length, get_or,
  drop, Byte, first_bytes, align4, overlay, length-drop, first_bytes_self, first_bytes_prefix,
  first_bytes-first_bytes, first_bytes_split, first_bytes_pad, first_two, drop-first_bytes, ret,
  arith,
}
use in_lib.Base.{◌==◌, if◌then◌else◌, Bool-cases, inl, inr, eq_of_==}
use in_lib.Base.{◌<◌, length-first_bytes}
use in_lib.Packet.{to_bytes, of_bytes}
use in_lib.Miptp.Host.{MessageNode, Host, seq_limit, seq_field, field_of}
use in_lib.Miptp.Send.{message_for}
use in_lib.Miptp.Send.Window.{node_for}
use in_lib.Miptp.Receive.{app_message}

-- What the far transport daemon reads of a written node: the source and a zero in front.
abbrev pub carried : ℕ → MessageNode → List Byte
carried src_mip node = src_mip ∷ 0 ∷ drop 2 (first_bytes node.size (to_bytes node.packet))

module _ (bytes stack : List Byte) (time src_mip k : ℕ) (host : Host)
    (len : length bytes ≡ 2 + k) where
  abbrev pub node : MessageNode
  node = node_for bytes stack time host

  abbrev field : ℕ
  field = seq_field host.seq_send ((6 + length bytes) % 4)

  abbrev header : List Byte
  header =
      get_or (overlay bytes stack) 0 0
      ∷ 0
      ∷ host.port
      ∷ get_or (overlay bytes stack) 1 0
      ∷ field / 256
      ∷ field % 256
      ∷ []

  carried-eq :
      carried src_mip node
      ≡ src_mip ∷ 0 ∷ drop 2 (header ++ first_bytes (align4 (6 + length bytes) - 6) bytes)
  unfolding message_for
  carried-eq =
      ap (λ w. src_mip ∷ 0 ∷ drop 2 w)
        (ap (λ b. first_bytes (align4 (6 + length bytes)) (header ++ b))
            (first_bytes_prefix bytes (drop (length bytes) stack) (length bytes) refl)
          ∙ first_bytes_split header bytes (align4 (6 + length bytes))
              (align4 (6 + length bytes) - 6) (ground arith))

  app_message-carried :
      (src_port : ℕ)
      → app_message
          (carried src_mip node)
          (align4 (6 + length bytes))
          ((6 + length bytes) % 4)
          src_mip
          src_port
        ≡ ret (
            first_bytes
              (align4 (6 + length bytes) - (6 + (6 + length bytes) % 4))
              (src_mip ∷ src_port ∷ drop 2 bytes))
  unfolding app_message
  app_message-carried src_port =
      let size : ℕ = align4 (6 + length bytes) in
      let rest : ℕ = (6 + length bytes) % 4 in
      let enough : ltb size (6 + rest) ≡ false = ground arith in
      let count : size - (6 + rest) ≡ 2 + (size - (8 + rest)) = ground arith in
      rw (app_message, enough)
        (ap (λ c. ret (first_bytes (size - (6 + rest)) (src_mip ∷ src_port ∷ drop 8 c))) carried-eq
          ∙ ap (λ c. ret (first_bytes (size - (6 + rest)) (src_mip ∷ src_port ∷ c)))
              (drop-first_bytes 2 (size - 6) bytes)
          ∙ ap ret (
              first_two src_mip src_port (first_bytes (size - 6 - 2) (drop 2 bytes)) _ _ count
              ∙ ap (λ b. src_mip ∷ src_port ∷ b)
                  (first_bytes-first_bytes (size - (8 + rest)) (size - 6 - 2) (drop 2 bytes)
                    (ground arith))
              ∙ sym (first_two src_mip src_port (drop 2 bytes) _ _ count)))

  field-carried : field_of (of_bytes (carried src_mip node)).msg ≡ field
  field-carried = ap (λ c. field_of (of_bytes c).msg) carried-eq ∙ omega arith

  pub padding-carried : field_of (of_bytes (carried src_mip node)).msg % 4 ≡ (6 + length bytes) % 4
  padding-carried = omega (arith, field-carried)

  pub seq-carried :
      host.seq_send < seq_limit → field_of (of_bytes (carried src_mip node)).msg / 4 ≡ host.seq_send
  seq-carried small = omega (arith, field-carried)

  pub port-carried : get_or (of_bytes (carried src_mip node)).msg 0 0 ≡ host.port
  port-carried = ap (λ c. get_or (of_bytes c).msg 0 0) carried-eq

  pub target-carried :
      get_or (of_bytes (carried src_mip node)).msg 1 0 ≡ get_or (overlay bytes stack) 1 0
  target-carried = ap (λ c. get_or (of_bytes c).msg 1 0) carried-eq

  pub length-carried : length (carried src_mip node) ≡ node.size
  unfolding message_for
  length-carried = omega (
    arith,
    length-drop {0} 2 (first_bytes node.size (to_bytes node.packet)),
    length-first_bytes node.size (to_bytes node.packet),
  )

-- What the application at the far end is handed, for a message that its receiver expects: `extra`
-- bytes more, or `lost` bytes less, than the message with its source in front.
unfoldable pub handed_over : List Byte → ℕ → ℕ → List Byte
handed_over bytes src_mip src_port =
    let whole = src_mip ∷ src_port ∷ drop 2 bytes in
    let over = (6 + length bytes) % 4 in
    if over == 1
    then whole ++ (0 ∷ 0 ∷ [])
    else if over == 3
    then first_bytes (length bytes - 2) whole
    else whole

-- What `app_message` takes out of the carried node of a message of at least two bytes.
pub carried-handed_over :
    (bytes stack : List Byte) (time src_mip src_port k : ℕ) (host : Host)
    → length bytes ≡ 2 + k
    → let node = message_for (overlay bytes stack) (length bytes) time host in
      app_message
        (carried src_mip node)
        node.size
        (field_of (of_bytes (carried src_mip node)).msg % 4)
        src_mip
        src_port
      ≡ ret (handed_over bytes src_mip src_port)
unfolding message_for handed_over
carried-handed_over bytes stack time src_mip src_port k host len =
    let whole = src_mip ∷ src_port ∷ drop 2 bytes in
    let total : length whole ≡ length bytes = omega (arith, length-drop 2 bytes) in
    let handed =
      ap
        (λ p.
          app_message (carried src_mip (node bytes stack time src_mip k host len))
            (align4 (6 + length bytes)) p src_mip src_port)
        (padding-carried bytes stack time src_mip k host len)
      ∙ app_message-carried bytes stack time src_mip k host len src_port in
    let size : ℕ = align4 (6 + length bytes) - (6 + (6 + length bytes) % 4) in
    elim (Bool-cases ((6 + length bytes) % 4 == 1)) [
      | inl one ↦
          let over : (6 + length bytes) % 4 ≡ 1 = eq_of_== _ _ one in
          let more : size ≡ length whole + 2 = ground arith in
          rw (handed_over, one)
            (handed ∙ ap (λ n. ret (first_bytes n whole)) more ∙ ap ret (first_bytes_pad whole 2))
      | inr ne ↦ elim (Bool-cases ((6 + length bytes) % 4 == 3)) [
        | inl three ↦
            let over : (6 + length bytes) % 4 ≡ 3 = eq_of_== _ _ three in
            let less : size ≡ length bytes - 2 = ground arith in
            rw (handed_over, ne, three) (handed ∙ ap (λ n. ret (first_bytes n whole)) less)
        | inr even ↦
            let same : size ≡ length whole = ground arith in
            rw (handed_over, ne, even)
              (handed ∙ ap (λ n. ret (first_bytes n whole)) same ∙ ap ret (first_bytes_self whole))
      ]
    ]

pub handed_over_even :
    (bytes : List Byte) (src_mip src_port : ℕ)
    → length bytes % 2 ≡ 0
    → handed_over bytes src_mip src_port ≡ src_mip ∷ src_port ∷ drop 2 bytes
unfolding handed_over
handed_over_even bytes src_mip src_port even = ground arith
