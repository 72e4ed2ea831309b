-- ===== src/Vless/Transport.antt =====
-- backend/internal/vless/transport: the registry of transports and what each does with its
-- parameters. JSON's validity and the order in which a map is printed are arguments.
pub mod RoundTrip
pub mod Settings
use xray2wg.Base.{
  ℕ, Bool, true, false, Option, none, some, List, [], ◌∷◌, ◌++◌, Text, codes, text_eq, ◌==◌, ◌&&◌,
  ◌||◌, if◌then◌else◌, is_empty, trim_space, to_lower, has_prefix, contains, lookup, text_beq, not,
}
use xray2wg.Domain.Errors.{GoError, plain, Result, ok, err}
use xray2wg.Vless.Query.{
  Query, get, put, Json, bool, number, text, texts, object, Fields, end, field, field_if,
  default_string,
}

pub data Transport : Type 0 where
  tcp ws grpc kcp xhttp httpupgrade : Transport

pub record WsSpec : Type 0 where
  pub path : Text
  pub host : Text

pub record GrpcSpec : Type 0 where
  pub service_name : Text
  pub multi_mode : Bool
  pub authority : Text

pub record KcpSpec : Type 0 where
  pub header_type : Text
  pub seed : Text

pub record XhttpSpec : Type 0 where
  pub path : Text
  pub host : Text
  pub mode : Text
  pub extra : Text

pub record HttpUpgradeSpec : Type 0 where
  pub path : Text
  pub host : Text
  pub headers : List (Text × Text)

-- transport.Spec: what each transport's methods expect of it.
pub data Spec : Type 0 where
  tcp_spec : Spec
  ws_spec : WsSpec → Spec
  grpc_spec : GrpcSpec → Spec
  kcp_spec : KcpSpec → Spec
  xhttp_spec : XhttpSpec → Spec
  httpupgrade_spec : HttpUpgradeSpec → Spec

abbrev pub transport_of : Spec → Transport
transport_of tcp_spec = tcp
transport_of (ws_spec s) = ws
transport_of (grpc_spec s) = grpc
transport_of (kcp_spec s) = kcp
transport_of (xhttp_spec s) = xhttp
transport_of (httpupgrade_spec s) = httpupgrade

-- Name
unfoldable pub name : Transport → Text
name tcp = codes "tcp"
name ws = codes "ws"
name grpc = codes "grpc"
name kcp = codes "kcp"
name xhttp = codes "xhttp"
name httpupgrade = codes "httpupgrade"

-- Default.byName and Default.aliases once every file is registered
unfoldable pub by_name : List (Text × Transport)
by_name =
    (codes "tcp", tcp)
    ∷ (codes "ws", ws)
    ∷ (codes "grpc", grpc)
    ∷ (codes "kcp", kcp)
    ∷ (codes "xhttp", xhttp)
    ∷ (codes "httpupgrade", httpupgrade)
    ∷ []

unfoldable pub aliases : List (Text × Text)
aliases =
    (codes "websocket", codes "ws")
    ∷ (codes "gun", codes "grpc")
    ∷ (codes "mkcp", codes "kcp")
    ∷ (codes "splithttp", codes "xhttp")
    ∷ []

-- What the library answers: the names that are listed in an error, whether a text is JSON, and the
-- object that a text holds.
pub record Library : Type 0 where
  pub quote : Text → Text
  pub names : Text
  pub header_types : Text
  pub json_valid : Text → Bool
  pub json_object : Text → Option Fields

-- Resolve
unfoldable pub resolve : Library → Text → Result Transport
unfolding lookup by_name aliases trim_space to_lower
resolve lib n =
    let key = to_lower (trim_space n) in
    elim (lookup key by_name) [
      | some t ↦ ok t
      | none ↦ elim (lookup key aliases) [
        | some canon ↦ elim (lookup canon by_name) [ some t ↦ ok t | none ↦ unknown ]
        | none ↦ unknown
      ]
    ]
  where
    unknown : Result Transport
    unknown = err (
        plain (
          codes "vless/transport: unknown "
          ++ lib.quote n
          ++ codes " (supported: "
          ++ lib.names
          ++ codes ")"))

-- The extra parameters of a link, if they are JSON.
abbrev pub valid_extra : Library → Text → Text
valid_extra lib raw = if is_empty raw then [] else if lib.json_valid raw then raw else []

-- ParseURI of each transport
abbrev pub parse_ws : Query → WsSpec
parse_ws q = record {
  path = trim_space (get (codes "path") q);
  host = trim_space (get (codes "host") q);
}

abbrev pub parse_grpc : Query → GrpcSpec
parse_grpc q = record {
  service_name =
      default_string (trim_space (get (codes "serviceName") q)) (trim_space (get (codes "alpn") q));
  multi_mode = to_lower (trim_space (get (codes "mode") q)) == codes "multi";
  authority = trim_space (get (codes "authority") q);
}

abbrev pub parse_kcp : Query → KcpSpec
parse_kcp q = record {
  header_type = trim_space (get (codes "headerType") q);
  seed = trim_space (get (codes "seed") q);
}

abbrev pub parse_xhttp : Library → Query → XhttpSpec
parse_xhttp lib q = record {
  path = trim_space (get (codes "path") q);
  host = trim_space (get (codes "host") q);
  mode = default_string (trim_space (get (codes "mode") q)) (codes "auto");
  extra = valid_extra lib (trim_space (get (codes "extra") q));
}

abbrev pub parse_httpupgrade : Query → HttpUpgradeSpec
parse_httpupgrade q = record {
  path = trim_space (get (codes "path") q);
  host = trim_space (get (codes "host") q);
  headers = [];
}

unfoldable pub parse : Library → Transport → Query → Spec
unfolding get trim_space to_lower
parse lib tcp q = tcp_spec
parse lib ws q = ws_spec (parse_ws q)
parse lib grpc q = grpc_spec (parse_grpc q)
parse lib kcp q = kcp_spec (parse_kcp q)
parse lib xhttp q = xhttp_spec (parse_xhttp lib q)
parse lib httpupgrade q = httpupgrade_spec (parse_httpupgrade q)

abbrev pub allowed_header_types : List Text
allowed_header_types =
    codes "none"
    ∷ codes "srtp"
    ∷ codes "utp"
    ∷ codes "wechat-video"
    ∷ codes "dtls"
    ∷ codes "wireguard"
    ∷ codes "dns"
    ∷ []

abbrev pub allowed_modes : List Text
allowed_modes = [] ∷ codes "auto" ∷ codes "packet-up" ∷ codes "stream-up" ∷ codes "stream-one" ∷ []

-- Validate of each transport
abbrev pub validate_kcp : Library → KcpSpec → Option GoError
validate_kcp lib s =
    if is_empty s.header_type || contains s.header_type allowed_header_types
    then none
    else some (
        plain (
          codes "kcp: invalid headerType "
          ++ lib.quote s.header_type
          ++ codes " (allowed: "
          ++ lib.header_types
          ++ codes ")"))

abbrev pub validate_xhttp : Library → XhttpSpec → Option GoError
validate_xhttp lib s =
    if contains s.mode allowed_modes
    then none
    else some (
        plain (
          codes "xhttp: invalid mode "
          ++ lib.quote s.mode
          ++ codes " (allowed: auto, packet-up, stream-up, stream-one)"))

unfoldable pub validate : Library → Spec → Option GoError
unfolding contains
validate lib (kcp_spec s) = validate_kcp lib s
validate lib (xhttp_spec s) = validate_xhttp lib s
validate lib s = none

-- ShareLink of each transport
abbrev pub share_ws : WsSpec → Query
share_ws s = put (codes "host") s.host (put (codes "path") s.path [])

abbrev pub share_grpc : GrpcSpec → Query
share_grpc s = put (codes "authority") s.authority (
    put (codes "mode") (if s.multi_mode then codes "multi" else [])
      (put (codes "serviceName") s.service_name []))

abbrev pub share_kcp : KcpSpec → Query
share_kcp s = put (codes "seed") s.seed (put (codes "headerType") s.header_type [])

abbrev pub share_xhttp : XhttpSpec → Query
share_xhttp s = put (codes "extra") s.extra (
    put (codes "mode") (if s.mode == codes "auto" then [] else s.mode)
      (put (codes "host") s.host (put (codes "path") s.path [])))

abbrev pub share_httpupgrade : HttpUpgradeSpec → Query
share_httpupgrade s = put (codes "host") s.host (put (codes "path") s.path [])

unfoldable pub share_link : Spec → Query
unfolding put
share_link tcp_spec = []
share_link (ws_spec s) = share_ws s
share_link (grpc_spec s) = share_grpc s
share_link (kcp_spec s) = share_kcp s
share_link (xhttp_spec s) = share_xhttp s
share_link (httpupgrade_spec s) = share_httpupgrade s
