-- ===== src/Udp/Client.antt =====
-- What the client of a/to_do/udp.c connects to, by way of a_resolve of a/resolve.c.
use alib4c.Common.{
  ℕ, ◌≡◌, refl, ◌⊎◌, inl, inr, Bool, true, false, ◌&&◌, Option, none, some, List, if◌then◌else◌,
}
use alib4c.World.{World, Returns, perror, and_then, pure}
use alib4c.Error.{other}
use alib4c.Error.Live.{IsLive, pushed}
use alib4c.Resolve.{Resolver}
use alib4c.Resolve.Numbers.{address_of, resolved, resolve-address_of}
use alib4c.Udp.{Network, is_success, connected, address, udp_client}

-- A socket that is bound and connected, and no call of a_cleanup; or none, where the socket is not made,
-- or where it is not bound or not connected, and then a_cleanup is called with it.
abbrev pub Connects : Network → ℕ → ℕ → Option ℕ × Option ℕ → Type 0
Connects net addr port r =
    ((sock : ℕ) × (net.socket ≡ some sock)
      × (net.binds ≡ true)
      × (net.connects addr port ≡ true)
      × (r ≡ (some sock, none)))
    ⊎ ((sock : ℕ) × (net.socket ≡ some sock)
        × ((net.binds ≡ false) ⊎ (net.connects addr port ≡ false))
        × (r ≡ (none, some sock)))
    ⊎ ((net.socket ≡ none) × (r ≡ (none, none)))

connected-Connects :
    (net : Network) (addr port : ℕ) → Connects net addr port (connected net addr port)
unfolding connected
connected-Connects net addr port = go net.socket net.binds (net.connects addr port) refl refl refl
  where
    go :
        (s : Option ℕ) (b c : Bool)
        → net.socket ≡ s
        → net.binds ≡ b
        → net.connects addr port ≡ c
        → Connects net addr port (elim s [
          | none ↦ (none, none)
          | some sock ↦ if b && c then (some sock, none) else (none, some sock)
        ])
    go none b c p q r = inr (inr (p, refl))
    go (some k) true true p q r = inl (k, p, q, r, refl)
    go (some k) true false p q r = inr (inl (k, p, inr r, refl))
    go (some k) false c p q r = inr (inl (k, p, inl q, refl))

-- What the client does with the address of a name, or without one.
abbrev pub Client : Network → ℕ → Option ℕ → World → Option ℕ × Option ℕ → World → Type 0
Client net port none w r v = (r ≡ (none, none)) × (v ≡ pushed perror other w)
Client net port (some a) w r v = Connects net a port r × (v ≡ w)

-- On a live error stack udp_client returns. With an address for the name, from its digits or from the
-- resolver, it gives the socket where it can be made, bound and connected to that address and port, with
-- no call of a_cleanup. Where binding or connecting fails it gives -1 and has called a_cleanup with the
-- socket, and where no socket can be made it gives -1 alone. Without an address it gives -1 and the error
-- is reported.
pub udp_client-Client :
    (r : Resolver) (net : Network) (junk : ℕ) (ip : List ℕ) (port : ℕ) (w : World)
    → IsLive w.errors
    → Returns (udp_client r net junk ip port w) (Client net port (address_of r ip) w)
unfolding udp_client
udp_client-Client r net junk ip port w live =
    rw ((resolve-address_of r w live).0 ip junk) (go (address_of r ip))
  where
    go :
        (a : Option ℕ)
        → Returns
            (and_then (resolved a junk w) (λ (code, addr).
              pure
                (if is_success code then connected net (address addr junk) port else (none, none))))
            (Client net port a w)
    go none = ((none, none), pushed perror other w, refl, (refl, refl))
    go (some a) = (connected net a port, w, refl, (connected-Connects net a port, refl))
