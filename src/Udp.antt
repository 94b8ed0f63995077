-- ===== src/Udp.antt =====
-- The server and the client of a/to_do/udp.c, as they are built on Unix. The calls of the system and the
-- function that serves a datagram are parameters.
pub mod Client
pub mod Serving
use alib4c.Common.{
  ℕ, zero, suc, ◌+◌, ◌-◌, ◌^◌, ℤ, pos, negsuc, Bool, true, false, not, ◌&&◌, Option, none, some,
  List, [], ◌∷◌, if◌then◌else◌, length, take,
}
use alib4c.World.{World, M, ok, ◌>>=◌, pure}
use alib4c.Mem.{Block, a_malloc}
use alib4c.Resolve.{Resolver, a_resolve}

-- An answer of recvfrom: a datagram with the address and the port that it comes from, or an errno of
-- EINTR or EAGAIN, or another one.
pub data Received : Type 0 where
  datagram : ℕ → ℕ → List ℕ → Received
  try_again : Received
  broken : Received

-- What the function that serves is given: where the last datagram came from, the bytes that the pointer
-- leads to, and the length.
pub record Seen : Type 0 where
  pub from : Option (ℕ × ℕ)
  pub content : List ℕ
  pub len : ℕ

-- How udp_server ends; `waiting` is a server that waits for the next datagram.
pub data Ended : Type 0 where
  waiting success failed_socket failed_bind failed_recv failed_malloc failed_close : Ended

-- `go` is a_udp_server_go; `handed` is what was served, the latest first, and `closes` the number of
-- the calls of close.
pub record Server (S : Type 0) : Type 0 where
  pub user : S
  pub go : Bool
  pub from : Option (ℕ × ℕ)
  pub content : List ℕ
  pub handed : List Seen
  pub closes : ℕ

-- `serve` says whether to go on and whether it has called udp_server_stop; `startup` is none for NULL.
pub record Host (S : Type 0) : Type 0 where
  pub serve : Seen → S → Bool × Bool × S
  pub startup : Option (S → Bool × S)
  pub makes_socket : Bool
  pub binds : Bool
  pub closes_well : Bool
  pub flag_malloc : Bool

-- MAX_UDP_SIZE
unfoldable pub max_udp_size : ℕ
max_udp_size = 65535

-- -1 as a size_t of 64 bits
abbrev pub minus_one : ℕ
minus_one = 2 ^ 64 - 1

unfoldable pub udp_server_stop : {S : Type 0} → Server S → Server S
udp_server_stop s = record s { go = false }

module _ {S : Type 0} (host : Host S) where
  -- a call of the function that serves
  unfoldable pub hand : ℕ → Server S → Bool × Server S
  hand len s =
      let seen : Seen = record { from = s.from; content = s.content; len = len } in
      let (more, stops, u) = host.serve seen s.user in
      let t = record s { user = u; handed = seen ∷ s.handed } in
      let after = if stops then udp_server_stop t else t in (more && after.go, after)

  unfoldable pub close_socket : Server S → Ended × Server S
  close_socket s =
      (if host.closes_well then success else failed_close, record s { closes = s.closes + 1 })

  -- The bytes for the function that serves, in the buffer or in a block that a_malloc gives for them;
  -- none is a failing a_malloc.
  unfoldable pub kept_bytes : List ℕ → M (Option (List ℕ))
  kept_bytes bytes w =
      if host.flag_malloc
      then (a_malloc (length bytes) >>= λ got.
            pure (elim got [ none ↦ none | some block ↦ some bytes ]))
          w
      else ok (some bytes) w

  -- The end of a round of the loop. In a `do` loop, `continue` leads to the condition too.
  unfoldable pub around : (Server S → M (Ended × Server S)) → Bool × Server S → M (Ended × Server S)
  around again (true, s) w = again s w
  around again (false, s) w = ok (close_socket s) w

  unfoldable pub server_loop : List Received → Server S → M (Ended × Server S)
  server_loop [] s w = ok (waiting, s) w
  server_loop (datagram addr port data_in ∷ rs) s w =
      let bytes = take max_udp_size data_in in
      (kept_bytes bytes >>= λ got. elim got [
        | none ↦ pure (failed_malloc, record s { from = some (addr, port); content = bytes })
        | some content ↦
            around (λ t. server_loop rs t)
              (hand (length bytes) (record s { from = some (addr, port); content = content }))
      ])
        w
  server_loop (try_again ∷ rs) s w = around (λ t. server_loop rs t) (hand minus_one s) w
  server_loop (broken ∷ rs) s w = ok (failed_recv, s) w

  -- When the startup function says no, the socket is closed, and used all the same: recvfrom of the
  -- closed socket fails with EBADF.
  unfoldable pub started : List Received → Bool × Server S → M (Ended × Server S)
  started rs (true, s) w = server_loop rs s w
  started rs (false, s) w =
      let closed = (close_socket s).1 in
      if host.closes_well then server_loop (broken ∷ []) closed w else ok (failed_close, closed) w

  unfoldable pub start_up : Server S → Bool × Server S
  start_up s = elim host.startup [
    | none ↦ (true, s)
    | some f ↦ (let (more, u) = f s.user in (more, record s { user = u }))
  ]

  unfoldable pub udp_server : List Received → Server S → M (Ended × Server S)
  udp_server rs s w =
      if host.makes_socket
      then (if host.binds then started rs (start_up s) w else ok (failed_bind, s) w)
      else ok (failed_socket, s) w

-- socket, bind and connect, with the address and the port
pub record Network : Type 0 where
  pub socket : Option ℕ
  pub binds : Bool
  pub connects : ℕ → ℕ → Bool

abbrev pub is_success : ℤ → Bool
is_success (pos zero) = true
is_success _ = false

-- The socket, with -1 as none, and the socket that a_cleanup, which is no part of the library, was called
-- with. `remote` is not initialized: `junk` is
-- what a_resolve finds in it. The port is the one in the byte order of the host.
unfoldable pub connected : Network → ℕ → ℕ → Option ℕ × Option ℕ
connected net addr port = elim net.socket [
  | none ↦ (none, none)
  | some sock ↦ if net.binds && net.connects addr port then (some sock, none) else (none, some sock)
]

abbrev pub address : Option ℕ → ℕ → ℕ
address none junk = junk
address (some a) junk = a

unfoldable pub udp_client : Resolver → Network → ℕ → List ℕ → ℕ → M (Option ℕ × Option ℕ)
udp_client r net junk ip port w =
    (a_resolve r (some ip) (some junk) >>= λ (code, addr).
    pure (if is_success code then connected net (address addr junk) port else (none, none)))
      w
