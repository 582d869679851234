-- ===== src/Sockets/Tests.antt =====
-- A host with two addresses of version 4 and two of version 6, and the theorems at it.
use jega.Base.{
  ◌==◌, if◌then◌else◌, ==_iff, ℕ, ◌≡◌, refl, inl, true, ◌||◌, none, some, List, [], ◌∷◌,
}
use jega.Sockets.{
  answer, sock_stream, sock_raw, af_unspec, af_inet, match_proto, match_socktype,
  append_addrinfo_result, getsocktype_list, Resolver, contains, append_iplists, getaddrinfohosts,
  convert_socktypes, convert_hosts, convert_getaddrinfo_result, getservbyname_socktype,
  getaddrinfo_result, host_str, port_bytes, addresses, getaddrinfo,
}
use jega.Sockets.Kinds.{AllCommon, getsocktype_list-AllCommon}
use jega.Sockets.Pairs.{all_entries}
use jega.Sockets.Hosts.{Distinct, getaddrinfohosts-joins}

-- Addresses are numbers here; the service 7 has the port 80 over TCP.
abbrev two_each : Resolver ℕ ℕ
two_each = record {
  resolve = λ name family. if family == af_inet then some (1 ∷ 2 ∷ []) else some (2 ∷ 61 ∷ []);
  same = ◌==◌;
  formats = λ host. true;
  service = λ tcp name. if tcp then some 80 else none;
  idna = λ name. some name;
  original = answer 5;
}

getaddrinfohosts-joins_example :
    (extra : List ℕ) × (getaddrinfohosts two_each [] af_unspec ≡ answer (1 ∷ 2 ∷ extra))
    × Distinct two_each ==_iff (1 ∷ 2 ∷ []) extra
    × ((a : ℕ)
        → contains two_each (1 ∷ 2 ∷ extra) a
          ≡ (contains two_each (1 ∷ 2 ∷ []) a || contains two_each (2 ∷ 61 ∷ []) a))
getaddrinfohosts-joins_example =
    getaddrinfohosts-joins two_each ==_iff [] (1 ∷ 2 ∷ []) (2 ∷ 61 ∷ []) refl (inl refl)

-- A raw socket over UDP is answered as a stream.
raw_as_stream : getsocktype_list sock_raw 17 ≡ answer ((sock_stream, 6) ∷ [])
unfolding getsocktype_list match_proto match_socktype append_addrinfo_result
raw_as_stream = refl

no_raw_socket : AllCommon ((sock_stream, 6) ∷ [])
no_raw_socket = getsocktype_list-AllCommon sock_raw 17 ((sock_stream, 6) ∷ []) raw_as_stream

-- The service gives the port and the type.
service_port :
    getaddrinfo two_each (host_str (b'h' ∷ [])) (port_bytes (b's' ∷ [])) af_inet 0 0 0
    ≡ answer (addresses (all_entries two_each 80 af_inet (1 ∷ 2 ∷ []) ((sock_stream, 6) ∷ [])))
unfolding getaddrinfo getaddrinfo_result getservbyname_socktype getsocktype_list match_proto
    match_socktype append_addrinfo_result getaddrinfohosts append_iplists convert_getaddrinfo_result
    convert_hosts convert_socktypes
service_port = refl
