-- ===== src/Miptp/Receive/InOrder.antt =====
-- The receiving end: what it accepts from a link, and when it stops accepting.
use in_lib.Base.{
  ℕ, zero, suc, ◌+◌, ◌/◌, ◌≤◌, ◌<◌, ◌≡◌, refl, ap, ◌∙◌, List, [], ◌∷◌, none, some, inl, inr, ◌==◌,
  if◌then◌else◌, Bool-cases, ==-ne, eq_of_==, length, get_or, Byte, Run, ret, ◌>>=◌, arith,
}
use in_lib.Packet.{of_bytes}
use in_lib.Miptp.Host.{SeqLink, Host, field_of, next_seq, seq_limit}
use in_lib.Miptp.Send.{send_ack}
use in_lib.Miptp.Receive.{seq_exp, advance, accept, receive_data}

-- The numbers that are accepted out of those that arrive from one link, in their order.
unfoldable pub accepted : ℕ → ℕ → List ℕ → List SeqLink → Run (List ℕ × List SeqLink)
accepted mip port [] links = ret ([], links)
accepted mip port (seq ∷ more) links = accept mip port seq links >>= λ r. elim r [
  | none ↦ accepted mip port more links
  | some links' ↦ accepted mip port more links' >>= λ q. ret (seq ∷ q.0, q.1)
]

-- `from`, `from + 1`, up to `n` numbers.
abbrev pub consecutive : ℕ → ℕ → List ℕ
consecutive from zero = []
consecutive from (suc n) = from ∷ consecutive (from + 1) n

pub seq_exp-advance :
    (links : List SeqLink) (mip port i e : ℕ)
    → seq_exp links mip port ≡ some (i, e)
    → seq_exp (advance links i) mip port ≡ some (i, next_seq e)
unfolding seq_exp next_seq
seq_exp-advance [] mip port i e h = absurd (cc)
seq_exp-advance (l ∷ links) mip port zero e h = ground arith
seq_exp-advance (l ∷ links) mip port (suc i) e h =
    ground (arith, seq_exp-advance links mip port i e)

pub accept_known :
    (mip port i e seq : ℕ) (links : List SeqLink)
    → seq_exp links mip port ≡ some (i, e)
    → accept mip port seq links ≡ ret (if seq == e then some (advance links i) else none)
unfolding accept
accept_known mip port i e seq links h = rw (accept, h) refl

pub next_seq-lt : (e : ℕ) → e < seq_limit → next_seq e ≡ e + 1
unfolding next_seq
next_seq-lt e h = ground arith

-- From a link that expects `e`, whatever arrives (lost, repeated, out of order), the numbers
-- accepted are `e`, `e + 1` and so on without a gap or a repetition, and the link then expects the
-- number behind them; as long as the numbers stay within 14 bits.
pub accepted_in_order :
    (mip port i e : ℕ) (arrivals : List ℕ) (links : List SeqLink)
    → seq_exp links mip port ≡ some (i, e)
    → e + length arrivals ≤ seq_limit
    → (n : ℕ) × (links' : List SeqLink) × (accepted mip port arrivals links
        ≡ ret (consecutive e n, links'))
      × (seq_exp links' mip port ≡ some (i, e + n))
unfolding accepted
accepted_in_order mip port i e [] links h b =
    (0, links, refl, h ∙ ap (λ k. some (i, k)) (omega arith))
accepted_in_order mip port i e (seq ∷ more) links h b = elim (Bool-cases (seq == e)) [
  | inl hit ↦
      let (n, links', run, known) =
        accepted_in_order mip port i (e + 1) more (advance links i)
          (seq_exp-advance links mip port i e h
            ∙ ap (λ k. some (i, k)) (next_seq-lt e (omega arith)))
          (omega arith) in
      (
        suc n,
        links',
        rw (accepted, accept_known mip port i e seq links h, hit, run)
            (ap (λ k. ret (k ∷ consecutive (e + 1) n, links')) (eq_of_== seq e hit)),
        known ∙ ap (λ k. some (i, k)) (omega arith),
      )
  | inr miss ↦
      let (n, links', run, known) = accepted_in_order mip port i e more links h (omega arith) in
      (n, links', rw (accepted, accept_known mip port i e seq links h, miss, run) refl, known)
]

-- A link that expects `1 << 14` accepts nothing more, since no number in two bytes of the wire is
-- that large. The packet is acknowledged all the same, and none is handed to the application.
pub link_stalls :
    (mip_daemon app_fd rc i : ℕ) (buffer : List Byte) (host : Host)
    → get_or (of_bytes buffer).msg 2 0 < 256
    → get_or (of_bytes buffer).msg 3 0 < 256
    → seq_exp host.seq_link (of_bytes buffer).mip (get_or (of_bytes buffer).msg 0 0)
      ≡ some (i, seq_limit)
    → receive_data mip_daemon app_fd buffer rc host
      ≡ ret (
        host,
        send_ack mip_daemon
              (get_or (of_bytes buffer).msg 0 0)
              (of_bytes buffer).mip
              (field_of (of_bytes buffer).msg / 4)
              (get_or (of_bytes buffer).msg 1 0)
            ∷ [],
      )
unfolding receive_data
link_stalls mip_daemon app_fd rc i buffer host a b e =
    rw
      (
        receive_data,
        accept_known (of_bytes buffer).mip (get_or (of_bytes buffer).msg 0 0) i seq_limit
            (field_of (of_bytes buffer).msg / 4) host.seq_link e,
        ==-ne (field_of (of_bytes buffer).msg / 4) seq_limit (omega arith),
      )
      refl
