-- ===== src/Network/Transport/Links.antt =====
-- The receiver's link before and after a packet, and the run of messages that it has accepted.
use in_lib.Base.{
  ℕ, zero, suc, ◌+◌, ◌<◌, ◌≡◌, refl, sym, ap, ◌∙◌, true, false, ltb, List, [], ◌∷◌, ◌++◌,
  append_assoc, none, some, length, get_elem?, Byte, ret, overrun, arith,
}
use Prim.Native.Nat.add
use in_lib.Packet.{max_links}
use in_lib.Miptp.Host.{SeqLink, next_seq, seq_limit}
use in_lib.Miptp.Receive.{seq_exp, accept}
use in_lib.Miptp.Receive.InOrder.{next_seq-lt}

seq_exp-snoc :
    (links : List SeqLink) (l : SeqLink) (mip port : ℕ)
    → seq_exp links mip port ≡ none
    → l.port ≡ port
    → l.mip ≡ mip
    → seq_exp (links ++ (l ∷ [])) mip port ≡ some (length links, l.seq)
unfolding seq_exp
seq_exp-snoc [] l mip port h p m = ground arith
seq_exp-snoc (k ∷ links) l mip port h p m = ground (arith, seq_exp-snoc links l mip port)

-- The first packet of a sender makes a link, whatever its number is.
abbrev pub first_link : ℕ → ℕ → ℕ → SeqLink
first_link mip port seq = record { port = port; mip = mip; seq = next_seq seq }

pub accept_first :
    (mip port seq : ℕ) (links : List SeqLink)
    → seq_exp links mip port ≡ none
    → seq < seq_limit
    → ltb (length links) max_links ≡ true
    → (accept mip port seq links ≡ ret (some (links ++ (first_link mip port seq ∷ []))))
      × (seq_exp (links ++ (first_link mip port seq ∷ [])) mip port ≡ some (length links, seq + 1))
unfolding accept
accept_first mip port seq links h small room = (
  rw (accept, h, room) refl,
  seq_exp-snoc links (first_link mip port seq) mip port h refl refl
      ∙ ap (λ e. some (length links, e)) (next_seq-lt seq small),
)

pub accept_full :
    (mip port seq : ℕ) (links : List SeqLink)
    → seq_exp links mip port ≡ none
    → ltb (length links) max_links ≡ false
    → accept mip port seq links ≡ overrun
unfolding accept
accept_full mip port seq links h full = rw (accept, h, full) refl

-- A list at one of its elements.
pub split_at :
    (xs : List (List Byte)) (k : ℕ) (b : List Byte)
    → get_elem? xs k ≡ some b
    → (before after : List (List Byte)) × (xs ≡ before ++ (b ∷ after)) × (length before ≡ k)
split_at [] k b h = absurd (cc)
split_at (x ∷ xs) zero b h = ([], xs, cc, refl)
split_at (x ∷ xs) (suc k) b h =
    let (before, after, e, n) = split_at xs k b h in (x ∷ before, after, ap (◌∷◌ x) e, ap suc n)

get_elem?-length_append :
    (xs ys : List (List Byte)) (i : ℕ) → get_elem? (xs ++ ys) (length xs + i) ≡ get_elem? ys i
get_elem?-length_append [] ys i = ap (get_elem? ys) (omega arith)
get_elem?-length_append (x ∷ xs) ys i =
    ap (get_elem? (x ∷ (xs ++ ys))) (add.suc (length xs) i) ∙ get_elem?-length_append xs ys i

-- The message behind the run is the first of what follows.
pub next_message :
    (submitted before run after : List (List Byte)) (b : List Byte)
    → submitted ≡ before ++ (run ++ after)
    → get_elem? submitted (length before + length run) ≡ some b
    → (rest : List (List Byte)) × (submitted ≡ before ++ ((run ++ (b ∷ [])) ++ rest))
next_message submitted before run after b split nth =
    let at : get_elem? after 0 ≡ some b =
      sym (
        ap (λ l. get_elem? l (length before + length run)) split
        ∙ get_elem?-length_append before (run ++ after) (length run)
        ∙ ap (get_elem? (run ++ after)) (omega arith)
        ∙ get_elem?-length_append run after 0)
      ∙ nth in
    by_after after split at
  where
    by_after :
        (after' : List (List Byte))
        → submitted ≡ before ++ (run ++ after')
        → get_elem? after' 0 ≡ some b
        → (rest : List (List Byte)) × (submitted ≡ before ++ ((run ++ (b ∷ [])) ++ rest))
    by_after [] e h = absurd (cc)
    by_after (x ∷ rest) e h =
        let same : x ≡ b = cc in
        (
          rest,
          e
              ∙ ap (λ y. before ++ (run ++ (y ∷ rest))) same
              ∙ ap (λ l. before ++ l) (sym (append_assoc run (b ∷ []) rest)),
        )
