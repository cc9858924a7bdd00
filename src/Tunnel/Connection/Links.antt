-- ===== src/Tunnel/Connection/Links.antt =====
-- The link map of TunnelConnection in StdioTunnel.h: what `find` gives after `erase` and after an
-- assignment.
use tun.Prelude.{
  ℕ, ◌≡◌, ◌≢◌, refl, subst, List, [], ◌∷◌, none, some, arith, All, ◌==◌, if◌then◌else◌, Bool-cases,
  inl, inr,
}
use tun.Tunnel.Link.{ConnectionLink}
use tun.Tunnel.Connection.{find_link, erase_link, put_link}

-- `std::map` has each key once.
abbrev pub IsMap : List ConnectionLink → Type 0
IsMap [] = Unit
IsMap (l ∷ ls) = All (λ (m : ConnectionLink). m.link_id ≢ l.link_id) ls × IsMap ls

pub find_link-put_link :
    (l : ConnectionLink) (i : ℕ) (ls : List ConnectionLink)
    → find_link i (put_link l ls) ≡ (if l.link_id == i then some l else find_link i ls)
unfolding find_link put_link
find_link-put_link l i [] = refl
find_link-put_link l i (m ∷ ls) = ground (arith, find_link-put_link l i ls)

pub find_link-put_link_self :
    (l : ConnectionLink) (ls : List ConnectionLink) → find_link l.link_id (put_link l ls) ≡ some l
find_link-put_link_self l ls = ground (arith, find_link-put_link l l.link_id ls)

pub find_link-id :
    (i : ℕ) (ls : List ConnectionLink) (l : ConnectionLink)
    → find_link i ls ≡ some l
    → l.link_id ≡ i
unfolding find_link
find_link-id i [] l e = cc
find_link-id i (m ∷ ls) l e = ground (arith, find_link-id i ls l)

find_link-missing :
    (i : ℕ) (ls : List ConnectionLink)
    → All (λ (m : ConnectionLink). m.link_id ≢ i) ls
    → find_link i ls ≡ none
unfolding find_link
find_link-missing i [] h = refl
find_link-missing i (m ∷ ls) h = ground (arith, h.0, find_link-missing i ls h.1)

pub find_link-erase_link :
    (i : ℕ) (ls : List ConnectionLink) → IsMap ls → find_link i (erase_link i ls) ≡ none
unfolding find_link erase_link
find_link-erase_link i [] h = refl
find_link-erase_link i (m ∷ ls) h = elim (Bool-cases (m.link_id == i)) [
  | inl e ↦
      let q : m.link_id ≡ i = ground arith in
      rw e
        (find_link-missing i ls (subst (λ j. All (λ (x : ConnectionLink). x.link_id ≢ j) ls) q h.0))
  | inr e ↦ rw (e, find_link-erase_link i ls h.1) (rw e refl)
]
