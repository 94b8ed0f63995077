-- ===== src/Udp/Serving.antt =====
-- Which datagrams the server of a/to_do/udp.c serves, in which order, and when it closes its socket.
use alib4c.Common.{
  ℕ, ◌+◌, ◌≡◌, refl, ◌⊎◌, inl, inr, Bool, true, false, ◌&&◌, some, List, [], ◌∷◌, if◌then◌else◌,
  length, take,
}
use alib4c.World.{World, ok, Returns}
use alib4c.Udp.{
  Received, datagram, Seen, Ended, waiting, success, failed_close, Server, Host, max_udp_size,
  udp_server_stop, hand, close_socket, kept_bytes, around, server_loop, started, start_up,
  udp_server,
}

-- a datagram: where it comes from, and its bytes
abbrev pub Packet : Type 0
Packet = (ℕ × ℕ) × List ℕ

abbrev pub arrivals : List Packet → List Received
arrivals [] = []
arrivals (((a, p), bytes) ∷ ps) = datagram a p bytes ∷ arrivals ps

-- what is to be seen of a datagram: its bytes, as many as the buffer has room for, and their number
abbrev pub seen_of : Packet → Seen
seen_of ((a, p), bytes) = record {
  from = some (a, p);
  content = take max_udp_size bytes;
  len = length (take max_udp_size bytes);
}

if_true : {A : Type 0} (b : Bool) (x y : A) → b ≡ true → (if b then x else y) ≡ x
if_true true x y e = refl
if_true false x y e = absurd (cc e)

module _ {S : Type 0} (host : Host S) where
  -- How a run over packets ends, from the flag a_udp_server_go, the state of the function that serves,
  -- what it has served, and the calls of close: after each packet the run goes on when the function says
  -- so, has not called udp_server_stop, and the flag was on; otherwise the socket is closed.
  abbrev pub Serves : List Packet → Bool → S → List Seen → ℕ → Ended × Server S → Type 0
  Serves [] g u log c (e, t) = (e ≡ waiting) × (t.user ≡ u) × (t.handed ≡ log) × (t.closes ≡ c)
  Serves (p ∷ ps) g u log c (e, t) =
      (((host.serve (seen_of p) u).0 ≡ true)
        × ((host.serve (seen_of p) u).1 ≡ false)
        × (g ≡ true)
        × Serves ps true (host.serve (seen_of p) u).2 (seen_of p ∷ log) c (e, t))
      ⊎ ((((host.serve (seen_of p) u).0 ≡ false)
            ⊎ ((host.serve (seen_of p) u).1 ≡ true)
            ⊎ (g ≡ false))
          × (e ≡ (if host.closes_well then success else failed_close))
          × (t.user ≡ (host.serve (seen_of p) u).2)
          × (t.handed ≡ seen_of p ∷ log)
          × (t.closes ≡ c + 1))

  kept_bytes-whole :
      (bytes : List ℕ) (w : World)
      → host.flag_malloc ≡ false
      → kept_bytes host bytes w ≡ ok (some bytes) w
  unfolding kept_bytes
  kept_bytes-whole bytes w f = rw f refl

  server_loop-Serves :
      (ps : List Packet) (s : Server S) (w : World)
      → host.flag_malloc ≡ false
      → Returns
          (server_loop host (arrivals ps) s w)
          (λ r v. (v ≡ w) × Serves ps s.go s.user s.handed s.closes r)
  unfolding server_loop around close_socket hand udp_server_stop
  server_loop-Serves [] s w f = ((waiting, s), w, refl, (refl, (refl, refl, refl, refl)))
  server_loop-Serves (((a, p), bytes) ∷ ps) s w f =
      rw (kept_bytes-whole (take max_udp_size bytes) w f) (
        go (host.serve (seen_of ((a, p), bytes)) s.user).0
          (host.serve (seen_of ((a, p), bytes)) s.user).1 refl refl
          (λ t. server_loop-Serves ps t w f))
    where
      packet : Packet
      packet = ((a, p), bytes)

      next : S
      next = (host.serve (seen_of packet) s.user).2

      -- the server behind the call, by what becomes of the flag
      behind : Bool → Server S
      behind g = record s {
        user = next;
        go = g;
        from = some (a, p);
        content = take max_udp_size bytes;
        handed = seen_of packet ∷ s.handed;
      }

      Ran : Bool × Server S → Type 0
      Ran r =
          Returns (around host (λ t. server_loop host (arrivals ps) t) r w)
            (λ q v. (v ≡ w) × Serves (packet ∷ ps) s.go s.user s.handed s.closes q)

      closed :
          (g : Bool)
          → ((host.serve (seen_of packet) s.user).0 ≡ false)
            ⊎ ((host.serve (seen_of packet) s.user).1 ≡ true)
            ⊎ (s.go ≡ false)
          → Ran (false, behind g)
      closed g why =
          (close_socket host (behind g), w, refl, (refl, inr (why, refl, refl, refl, refl)))

      flagged :
          (host.serve (seen_of packet) s.user).0 ≡ true
          → (host.serve (seen_of packet) s.user).1 ≡ false
          → ((t : Server S)
              → Returns
                  (server_loop host (arrivals ps) t w)
                  (λ q v. (v ≡ w) × Serves ps t.go t.user t.handed t.closes q))
          → (g : Bool) → s.go ≡ g
          → Ran (g, behind g)
      flagged e k ih false b = closed false (inr (inr b))
      flagged e k ih true b =
          let (r, v, run, (same, rest)) = ih (behind true) in
          (r, v, run, (same, inl (e, k, b, rest)))

      go :
          (more stops : Bool)
          → (host.serve (seen_of packet) s.user).0 ≡ more
          → (host.serve (seen_of packet) s.user).1 ≡ stops
          → ((t : Server S)
              → Returns
                  (server_loop host (arrivals ps) t w)
                  (λ q v. (v ≡ w) × Serves ps t.go t.user t.handed t.closes q))
          → Ran (
            more && (if stops then behind false else behind s.go).go,
            if stops then behind false else behind s.go,
          )
      go false true e k ih = closed false (inl e)
      go false false e k ih = closed s.go (inl e)
      go true true e k ih = closed false (inr (inl k))
      go true false e k ih = flagged e k ih s.go refl

  -- With a socket that is bound, and closes without an error, with no UDP_SERVER_FLAG_MALLOC, and with no
  -- startup function or one that says yes, the server hands each datagram that arrives to the function
  -- once and in order, with as many of its bytes as the buffer has room for. It goes on to the next one
  -- exactly when the function says so, has not called udp_server_stop, and a_udp_server_go was on; at the
  -- first datagram where this is not so it closes the socket, once, and returns with success. If there is
  -- none, it waits for more, with the socket open.
  pub udp_server-Serves :
      (ps : List Packet) (s : Server S) (w : World)
      → host.flag_malloc ≡ false
      → host.makes_socket ≡ true
      → host.binds ≡ true
      → host.closes_well ≡ true
      → (start_up host s).0 ≡ true
      → Returns (udp_server host (arrivals ps) s w) (λ r v.
        (v ≡ w)
        × Serves ps
            (start_up host s).1.go
            (start_up host s).1.user
            (start_up host s).1.handed
            (start_up host s).1.closes
            r)
  unfolding udp_server started
  udp_server-Serves ps s w f m b c y =
      rw (if_true host.makes_socket _ _ m, if_true host.binds _ _ b) (go (start_up host s) y)
    where
      go :
          (r : Bool × Server S)
          → r.0 ≡ true
          → Returns
              (started host (arrivals ps) r w)
              (λ q v. (v ≡ w) × Serves ps r.1.go r.1.user r.1.handed r.1.closes q)
      go (true, t) y = server_loop-Serves ps t w f
      go (false, t) y = absurd (cc y)
