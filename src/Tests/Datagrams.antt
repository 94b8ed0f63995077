-- ===== src/Tests/Datagrams.antt =====
-- A server of datagrams, a client, and texts for the event log.
use alib4c.Common.{ℕ, suc, ◌≡◌, refl, true, false, none, some, List, [], ◌∷◌, ◌==◌}
use alib4c.World.{Returns}
use alib4c.Udp.{Host, Server, start_up, udp_server, Network, udp_client}
use alib4c.Udp.Serving.{Packet, arrivals, Serves, udp_server-Serves}
use alib4c.Udp.Client.{Client, udp_client-Client}
use alib4c.Resolve.{Resolver}
use alib4c.Resolve.Numbers.{address_of}
use alib4c.Socket.{inaddr_none}
use alib4c.Log.Events.{Reports, a_log_str_event, str_event-Reports}
use alib4c.Tests.Samples.{ready}

-- A server that goes on after the first datagram and stops at the second.
abbrev server_host : Host ℕ
server_host = record {
  serve = λ seen n. (n == 0, false, suc n);
  startup = some (λ n. (true, n));
  makes_socket = true;
  binds = true;
  closes_well = true;
  flag_malloc = false;
}

abbrev server : Server ℕ
server = record { user = 0; go = true; from = none; content = []; handed = []; closes = 0 }

abbrev packets : List Packet
packets = ((1, 2), 7 ∷ []) ∷ ((3, 4), 8 ∷ []) ∷ ((5, 6), []) ∷ []

udp_server-Serves_example :
    Returns
      (udp_server server_host (arrivals packets) server ready)
      (λ r v. (v ≡ ready) × Serves server_host packets true 0 [] 0 r)
unfolding start_up
udp_server-Serves_example =
    udp_server-Serves server_host packets server ready refl refl refl refl refl

-- The digits of every name are those of the broadcast address, and its host is 9.
abbrev broadcast : Resolver
broadcast = record {
  gethostbyname = λ name. some 9;
  gethostbyaddr = λ a n. none;
  inet_pton = λ name. some inaddr_none;
  inet_ntop = λ a. b'9' ∷ [];
  addr_size = 8;
}

abbrev net : Network
net = record { socket = some 4; binds = true; connects = λ a p. false }

udp_client-Client_example :
    Returns (udp_client broadcast net 0 [] 53 ready) (Client net 53 (address_of broadcast []) ready)
udp_client-Client_example = udp_client-Client broadcast net 0 [] 53 ready tt

str_event-Reports_example : Reports 5 [] (a_log_str_event (λ s. true) 5 [])
str_event-Reports_example = str_event-Reports (λ s. true) 5 []
