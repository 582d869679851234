-- ===== src/Sockets.antt =====
-- src/socket.c: getaddrinfo and what it is made of. The resolver (c-ares behind src/lookup.c), the
-- service table, the codec and the original getaddrinfo are the parameter Resolver. A C int is its bit
-- pattern, and the constants are those of Linux. Memory is granted.
pub mod Kinds
pub mod Hosts
pub mod Pairs
mod Tests
use jega.Base.{
  ltb, leb, ◌==◌, if◌then◌else◌, ℕ, ◌/◌, ◌%◌, Bool, true, false, not, ◌&&◌, ◌||◌, Option, none,
  some, List, [], ◌∷◌, ◌++◌,
}

pub data SocketError : Type 0 where
  socktype_unsupported service_unknown family_unsupported lookup_failed : SocketError
  encoding_failed host_type port_type : SocketError
  -- NULL is returned and no exception is set.
  no_exception : SocketError

pub data Answer {ℓ} (A : Type ℓ) : Type ℓ where
  answer : A → Answer A
  raised : SocketError → Answer A

abbrev pub and_then {ℓ κ} : {A : Type ℓ} {B : Type κ} → Answer A → (A → Answer B) → Answer B
and_then (answer a) next = next a
and_then (raised e) next = raised e

abbrev pub sock_stream : ℕ
sock_stream = 1

abbrev pub sock_dgram : ℕ
sock_dgram = 2

abbrev pub sock_raw : ℕ
sock_raw = 3

abbrev pub af_unspec : ℕ
af_unspec = 0

abbrev pub af_inet : ℕ
af_inet = 2

abbrev pub af_inet6 : ℕ
af_inet6 = 10

abbrev pub is_negative : ℕ → Bool
is_negative i = leb 2147483648 i

-- `t & SOCK_STREAM`, `t & SOCK_DGRAM` and `t & SOCK_RAW` are not 0: their values are 1, 2 and 3.
abbrev pub has_stream : ℕ → Bool
has_stream t = not (t % 2 == 0)

abbrev pub has_dgram : ℕ → Bool
has_dgram t = not (t / 2 % 2 == 0)

abbrev pub has_raw : ℕ → Bool
has_raw t = not (t % 4 == 0)

-- The socket type of a protocol.
pub match_proto : ℕ → Answer ℕ
match_proto proto =
    if proto == 0
    then answer 0
    else if proto == 6
    then answer sock_stream
    else if proto == 17
    then answer sock_dgram
    else raised socktype_unsupported

pub match_socktype : ℕ → Answer ℕ
match_socktype socktype =
    if socktype == 0 || has_stream socktype || has_dgram socktype || has_raw socktype
    then answer socktype
    else raised socktype_unsupported

-- A socket type with its protocol goes to the end of the list.
pub append_addrinfo_result : List (ℕ × ℕ) → ℕ → Answer (List (ℕ × ℕ))
append_addrinfo_result list socktype =
    if has_stream socktype
    then answer (list ++ (sock_stream, 6) ∷ [])
    else if has_dgram socktype
    then answer (list ++ (sock_dgram, 17) ∷ [])
    else if has_raw socktype
    then answer (list ++ (sock_raw, 0) ∷ [])
    else raised socktype_unsupported

pub every_socktype : Answer (List (ℕ × ℕ))
every_socktype = and_then (append_addrinfo_result [] sock_stream) λ one.
    and_then (append_addrinfo_result one sock_dgram) λ two. append_addrinfo_result two sock_raw

pub getsocktype_list : ℕ → ℕ → Answer (List (ℕ × ℕ))
getsocktype_list socktype proto = and_then (match_socktype socktype) λ t.
    if is_negative t
    then raised no_exception
    else and_then (match_proto proto) λ s.
      if ltb 0 socktype
      then append_addrinfo_result [] socktype
      else if ltb 0 proto && not (is_negative proto)
      then append_addrinfo_result [] s
      else every_socktype

-- What the code asks of others. `resolve` is async_gethostbyname_ex, with `none` for an exception;
-- `formats` is the answer of ares_inet_ntop in is_af_inet_address; `service` looks a name up for tcp
-- (true) or udp; `same` is the equality of two addresses.
pub record Resolver (Host Result : Type 0) : Type 0 where
  pub resolve : List ℕ → ℕ → Option (List Host)
  pub same : Host → Host → Bool
  pub formats : Host → Bool
  pub service : Bool → List ℕ → Option ℕ
  pub idna : List ℕ → Option (List ℕ)
  pub original : Answer Result

-- The 5-tuple of a result: its canonical name is always empty.
pub record Entry (Host : Type 0) : Type 0 where
  pub family : ℕ
  pub socktype : ℕ
  pub proto : ℕ
  pub host : Host
  pub port : ℕ

abbrev pub any_v4 : List ℕ
any_v4 = b'0' ∷ b'.' ∷ b'0' ∷ b'.' ∷ b'0' ∷ b'.' ∷ b'0' ∷ []

abbrev pub local_v6 : List ℕ
local_v6 = b':' ∷ b':' ∷ b'1' ∷ []

-- `name`, or the default when name[0] is 0.
abbrev pub or_default : List ℕ → List ℕ → List ℕ
or_default default [] = default
or_default default (c ∷ name) = c ∷ name

module _ {Host Result : Type 0} (r : Resolver Host Result) where
  abbrev pub contains : List Host → Host → Bool
  contains [] h = false
  contains (x ∷ xs) h = r.same x h || contains xs h

  pub append_iplists : List Host → List Host → Bool → List Host
  append_iplists list [] check = list
  append_iplists list (item ∷ rest) check =
      append_iplists (if check && contains list item then list else list ++ item ∷ []) rest check

  abbrev pub listed : Option (List Host) → Answer (List Host)
  listed none = raised lookup_failed
  listed (some hosts) = answer (append_iplists [] hosts false)

  abbrev pub resolved : List ℕ → ℕ → Answer (List Host)
  resolved name family = listed (r.resolve name family)

  -- The addresses of version 6 join those of version 4; that there are none is no error.
  abbrev pub joined : List Host → Option (List Host) → List Host
  joined list none = list
  joined list (some hosts) = append_iplists list hosts true

  pub getaddrinfohosts : List ℕ → ℕ → Answer (List Host)
  getaddrinfohosts name family =
      if family == af_unspec
      then and_then (resolved (or_default any_v4 name) af_inet)
          (λ list. answer (joined list (r.resolve (or_default local_v6 name) af_inet6)))
      else if family == af_inet
      then resolved (or_default any_v4 name) af_inet
      else if family == af_inet6
      then resolved (or_default local_v6 name) af_inet6
      else raised family_unsupported

  -- is_af_inet_address formats the first bytes of the text as an address.
  abbrev pub known_family : ℕ → Host → ℕ
  known_family family host =
      if family == af_unspec then if r.formats host then af_inet else af_inet6 else family

  -- The inner loop of convert_getaddrifo_result: the family is a variable of the whole function.
  pub convert_socktypes : Host → ℕ → List (ℕ × ℕ) → ℕ × List (Entry Host) → ℕ × List (Entry Host)
  convert_socktypes host port [] (family, result) = (family, result)
  convert_socktypes host port ((socktype, proto) ∷ rest) (family, result) =
      let f = known_family family host in
      let item : Entry Host = record {
        family = f;
        socktype = socktype;
        proto = proto;
        host = host;
        port = port;
      } in
      convert_socktypes host port rest (f, result ++ item ∷ [])

  pub convert_hosts : List Host → List (ℕ × ℕ) → ℕ → ℕ × List (Entry Host) → ℕ × List (Entry Host)
  convert_hosts [] socktypes port state = state
  convert_hosts (host ∷ rest) socktypes port state =
      convert_hosts rest socktypes port (convert_socktypes host port socktypes state)

  pub convert_getaddrinfo_result : List Host → List (ℕ × ℕ) → ℕ → ℕ → List (Entry Host)
  convert_getaddrinfo_result hosts socktypes port family =
      (convert_hosts hosts socktypes port (family, [])).1

  -- The port and the socket type that the service has.
  pub getservbyname_socktype : ℕ → List ℕ → Answer (ℕ × ℕ)
  getservbyname_socktype socktype name =
      let tcp = r.service true name in
      let udp = r.service false name in
      let found = λ (s : Option ℕ) (t : ℕ). elim s as (λ _. Answer (ℕ × ℕ)) [
        | none ↦ raised service_unknown
        | some port ↦ answer (port, t)
      ] in
      if socktype == 0
      then elim tcp [ none ↦ found udp sock_dgram | some port ↦ answer (port, sock_stream) ]
      else if socktype == sock_stream
      then found tcp socktype
      else if socktype == sock_dgram
      then found udp socktype
      else raised service_unknown

  pub getaddrinfo_result : List ℕ → ℕ → ℕ → ℕ → ℕ → Answer (List (Entry Host))
  getaddrinfo_result name port family socktype proto =
      and_then (getsocktype_list socktype proto) λ socktypes.
        and_then (getaddrinfohosts name family)
          λ hosts. answer (convert_getaddrinfo_result hosts socktypes port family)

-- The arguments by their Python types.
pub data HostArg : Type 0 where
  no_host other_host : HostArg
  host_str host_bytes : List ℕ → HostArg

pub data PortArg : Type 0 where
  no_port other_port : PortArg
  port_int : ℕ → PortArg
  port_bytes : List ℕ → PortArg

-- What the original getaddrinfo returns is its own.
pub data AddrInfo (Host Result : Type 0) : Type 0 where
  addresses : List (Entry Host) → AddrInfo Host Result
  original_result : Result → AddrInfo Host Result

module _ {Host Result : Type 0} (r : Resolver Host Result) where
  abbrev pub host_name : HostArg → Answer (Option (List ℕ))
  host_name no_host = answer none
  host_name other_host = raised host_type
  host_name (host_str name) = elim (r.idna name) [
    | none ↦ raised encoding_failed
    | some bytes ↦ answer (some bytes)
  ]
  host_name (host_bytes name) = answer (some name)

  abbrev pub call_origin_getaddrinfo : Answer (AddrInfo Host Result)
  call_origin_getaddrinfo = and_then r.original (λ result. answer (original_result result))

  abbrev pub with_port : List ℕ → PortArg → ℕ → ℕ → ℕ → Answer (AddrInfo Host Result)
  with_port host no_port family socktype proto =
      and_then (getaddrinfo_result r host 0 family socktype proto)
        (λ found. answer (addresses found))
  with_port host other_port family socktype proto = raised port_type
  with_port host (port_int port) family socktype proto =
      and_then (getaddrinfo_result r host port family socktype proto)
        (λ found. answer (addresses found))
  with_port host (port_bytes name) family socktype proto =
      and_then (getservbyname_socktype r socktype name) λ (port, t).
        and_then (getaddrinfo_result r host port family t proto) (λ found. answer (addresses found))

  abbrev pub is_other_port : PortArg → Bool
  is_other_port other_port = true
  is_other_port no_port = false
  is_other_port (port_int port) = false
  is_other_port (port_bytes name) = false

  pub getaddrinfo : HostArg → PortArg → ℕ → ℕ → ℕ → ℕ → Answer (AddrInfo Host Result)
  getaddrinfo host port family socktype proto flags = and_then (host_name host) λ name.
      if is_other_port port then raised port_type else elim name [
        | none ↦ call_origin_getaddrinfo
        | some bytes ↦
            let found = with_port bytes port family socktype proto in
            -- flags & AI_NUMERICHOST, which is 4
            if not (flags / 4 % 2 == 0) then call_origin_getaddrinfo else found
      ]
