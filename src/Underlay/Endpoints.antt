-- ===== src/Underlay/Endpoints.antt =====
-- `_backend_endpoints`: the destinations that a network's namespace may reach.
use Prim.Native.Char.{Char, code}
use neutron_local_services_p.Base.{
  ℕ, ◌+◌, String, Bool, true, false, not, ◌&&◌, Option, none, some, List, [], ◌∷◌, ◌++◌, ◌==◌,
  string_eq, nat_eq, option_eq, if◌then◌else◌, leb, truthy, nonzero, or_else, default_true,
}
use neutron_local_services_p.Constants.{proto_tcp, proto_udp, proto_tcp_udp}
use neutron_local_services_p.Records.{Backend, AttachedService}

-- Protocol, address and port.
abbrev pub Endpoint : Type 0
Endpoint = String × (String × ℕ)

-- The code of a letter in lower case; other characters do not become letters of a protocol's name.
abbrev lower_code : Char → ℕ
lower_code c = if leb 65 (code c) && leb (code c) 90 then code c + 32 else code c

-- `proto.lower() == name`, for a name in lower case.
unfoldable pub is_lower : String → String → Bool
is_lower String.[] String.[] = true
is_lower String.[] (String.◌∷◌ d t) = false
is_lower (String.◌∷◌ c s) String.[] = false
is_lower (String.◌∷◌ c s) (String.◌∷◌ d t) = lower_code c == code d && is_lower s t

abbrev text_of : Option String → String
text_of none = ""
text_of (some s) = s

-- The empty list where the loop goes on to the next service.
unfoldable pub protos_of : AttachedService → List String
unfolding is_lower
protos_of svc =
    let proto = text_of svc.protocol in
    if is_lower proto proto_tcp_udp
    then proto_tcp ∷ proto_udp ∷ []
    else if is_lower proto proto_tcp
    then proto_tcp ∷ []
    else if is_lower proto proto_udp
    then proto_udp ∷ []
    else []

abbrev over : List String → String → ℕ → List Endpoint
over [] addr port = []
over (p ∷ ps) addr port = (p, (addr, port)) ∷ over ps addr port

unfoldable pub data_endpoints : List String → Backend → List Endpoint
data_endpoints protos be = elim (truthy be.address) [
  | none ↦ []
  | some addr ↦ elim (nonzero be.port) [ none ↦ [] | some port ↦ over protos addr port ]
]

-- `hc_addr != data_addr or int(hc_port) != int(data_port)`; `none` for the `TypeError` of
-- `int(None)`.
unfoldable pub is_override : Backend → String → ℕ → Option Bool
is_override be hc_addr hc_port =
    if not (be.address == some hc_addr)
    then some true
    else elim be.port [ none ↦ none | some port ↦ some (not (hc_port == port)) ]

unfoldable pub hc_endpoints : Backend → Option (List Endpoint)
unfolding is_override
hc_endpoints be = elim (truthy (or_else (truthy be.health_check_address) be.address)) [
  | none ↦ some []
  | some addr ↦ elim (nonzero (or_else (nonzero be.health_check_port) be.port)) [
    | none ↦ some []
    | some port ↦ elim (is_override be addr port) [
      | none ↦ none
      | some false ↦ some []
      | some true ↦ some (over (proto_tcp ∷ proto_udp ∷ []) addr port)
    ]
  ]
]

-- One list before another, unless one of them raised.
abbrev joined : Option (List Endpoint) → Option (List Endpoint) → Option (List Endpoint)
joined none b = none
joined (some es) none = none
joined (some es) (some fs) = some (es ++ fs)

unfoldable pub endpoints_of : List String → List Backend → Option (List Endpoint)
unfolding data_endpoints hc_endpoints
endpoints_of protos [] = some []
endpoints_of protos (be ∷ backends) =
    let rest = endpoints_of protos backends in
    if default_true be.enabled
    then joined (joined (some (data_endpoints protos be)) (hc_endpoints be)) rest
    else rest

-- The list of all that is yielded, or `none` if a `TypeError` ends the generator.
unfoldable pub backend_endpoints : List AttachedService → Option (List Endpoint)
unfolding protos_of endpoints_of
backend_endpoints [] = some []
backend_endpoints (svc ∷ services) =
    let rest = backend_endpoints services in
    if not (default_true svc.enabled) then rest else elim (protos_of svc) [
      | [] ↦ rest
      | p ∷ protos ↦ joined (endpoints_of (p ∷ protos) svc.backends) rest
    ]
