-- ===== src/Vless/Build.antt =====
-- backend/internal/vless/parse.go and build.go: nodes of links, and links of structured inputs. The
-- packages net/url, strconv and encoding/json are arguments.
pub mod Keys
pub mod Reading
pub mod RoundTrip
use xray2wg.Base.{
  ℕ, suc, ◌&&◌, Bool, true, false, Option, none, some, List, [], ◌∷◌, ◌++◌, Text, codes, text_eq,
  ◌==◌, ◌||◌, not, if◌then◌else◌, is_empty, trim_space, to_lower, itoa, ltb, insert, text_beq,
}
use xray2wg.Base.Int.{ℤ, pos, negsuc, leb_ℤ, pos_part}
use xray2wg.Domain.{VlessNode}
use xray2wg.Domain.Errors.{GoError, sentinel, Sentinel, plain, wrap, Result, ok, err, ◌>>=◌, ◌>>◌}
use xray2wg.Vless.Query.{Query, get, put, set_all, default_string}
use xray2wg.Vless.Transport as Tr
use xray2wg.Vless.Security as Sec

pub record Url : Type 0 where
  pub scheme : Text
  pub user : Option Text
  pub hostname : Text
  pub port : Text
  pub query : Query
  pub fragment : Text

-- What the packages answer: `hostname` and `port` are those of the URL's host.
pub record Library : Type 0 where
  pub url_parse : Text → Result Url
  pub url_string : Url → Text
  pub atoi : Text → Result ℕ
  pub transports : Tr.Library
  pub security_names : Text
  pub encode_transport : Tr.Spec → Result Text
  pub decode_transport : Tr.Transport → Text → Result Tr.Spec
  pub encode_security : Sec.Spec → Result Text
  pub decode_security : Sec.Security → Text → Result Sec.Spec

-- `if err := Validate(spec); err != nil { return nil, err }`
abbrev pub refuse : Option GoError → Result {0} Unit
refuse none = ok tt
refuse (some e) = err e

abbrev pub require : Bool → GoError → Result {0} Unit
require true e = ok tt
require false e = err e

-- A username that is not empty.
abbrev pub username : Option Text → Text
username none = []
username (some u) = u

-- `user.Username()`, `u.Port()` with its default, and `u.Hostname()`.
unfoldable pub port_of : Library → Text → Result ℕ
port_of lib [] = ok 443
port_of lib (c ∷ p) = lib.atoi (c ∷ p)

-- The transport of a query with its parameters, validated.
unfoldable pub parse_transport : Library → Query → Result Tr.Spec
unfolding get Tr.resolve Tr.parse Tr.validate
parse_transport lib q = do
  t ← Tr.resolve lib.transports (default_string (get (codes "type") q) (codes "tcp"))
  refuse (Tr.validate lib.transports (Tr.parse lib.transports t q))
  ok (Tr.parse lib.transports t q)

unfoldable pub parse_security : Library → Query → Result Sec.Spec
unfolding get Sec.resolve Sec.parse Sec.validate
parse_security lib q = do
  s ←
      Sec.resolve lib.transports.quote lib.security_names
        (default_string (get (codes "security") q) (codes "none"))
  refuse (Sec.validate (Sec.parse s q))
  ok (Sec.parse s q)

-- What is read of a URL whose user, host and port are there.
unfoldable pub node_of : Library → Text → Url → ℕ → Result VlessNode
unfolding parse_transport parse_security get trim_space
node_of lib raw u port = do
  t ← parse_transport lib u.query
  tj ← lib.encode_transport t
  s ← parse_security lib u.query
  sj ← lib.encode_security s
  ok (record {
    id = 0;
    subscription_id = 0;
    display_name = default_string u.fragment u.hostname;
    uuid = username u.user;
    address = u.hostname;
    port = port;
    flow = trim_space (get (codes "flow") u.query);
    encryption = default_string (trim_space (get (codes "encryption") u.query)) (codes "none");
    packet_encoding = trim_space (get (codes "packetEncoding") u.query);
    network = Tr.name (Tr.transport_of t);
    transport_config = tj;
    security = Sec.name (Sec.security_of s);
    security_config = sj;
    raw_uri = raw;
  })

-- ParseURI
unfoldable pub parse_uri : Library → Text → Result VlessNode
unfolding node_of port_of trim_space to_lower
parse_uri lib raw = do
  u ← lib.url_parse (trim_space raw)
  require (to_lower u.scheme == codes "vless") (sentinel Sentinel.validation)
  require (not (is_empty (username u.user))) (sentinel Sentinel.validation)
  port ← port_of lib u.port
  require (not (is_empty u.hostname)) (sentinel Sentinel.validation)
  node_of lib raw u port

pub record BuildInput : Type 0 where
  pub display_name : Text
  pub uuid : Text
  pub address : Text
  pub port : ℤ
  pub flow : Text
  pub encryption : Text
  pub packet_encoding : Text
  pub network : Text
  pub transport_config : Text
  pub security : Text
  pub security_config : Text

-- `if strings.TrimSpace(v) == "" { v = d }`, where the trimmed text is what is kept.
abbrev pub trimmed_or : Text → Text → Text
trimmed_or v d = default_string (trim_space v) d

-- The query of buildRawURI.
unfoldable pub build_query : BuildInput → Text → Tr.Spec → Sec.Spec → Query
unfolding put set_all Tr.share_link Sec.share_link Tr.name Sec.name trim_space insert
build_query i encryption t s =
    let q =
      insert (codes "security") (Sec.name (Sec.security_of s))
        (insert (codes "type") (Tr.name (Tr.transport_of t)) []) in
    let q = put (codes "encryption") (if encryption == codes "none" then [] else encryption) q in
    let q = put (codes "packetEncoding") (trim_space i.packet_encoding) q in
    let q = put (codes "flow") (trim_space i.flow) q in
    set_all (Sec.share_link s) (set_all (Tr.share_link t) q)

-- buildRawURI
unfoldable pub build_raw_uri : Library → BuildInput → Text → Tr.Spec → Sec.Spec → Text
unfolding build_query itoa
build_raw_uri lib i encryption t s = lib.url_string record {
  scheme = codes "vless";
  user = some i.uuid;
  hostname = i.address;
  port = itoa (pos_part i.port);
  query = build_query i encryption t s;
  fragment = i.display_name;
}

abbrev pub show_ℤ : ℤ → Text
show_ℤ (pos n) = itoa n
show_ℤ (negsuc n) = codes "-" ++ itoa (suc n)

abbrev pub explain : {A : Type 0} → Text → Result A → Result A
explain what (ok a) = ok a
explain what (err e) = err (wrap what e)

-- Both specs of an input, validated.
unfoldable pub input_transport : Library → BuildInput → Result Tr.Spec
unfolding Tr.resolve Tr.validate trim_space
input_transport lib i = do
  t ← Tr.resolve lib.transports (trimmed_or i.network (codes "tcp"))
  spec ←
      explain (codes "vless.Build: decode transport config")
        (lib.decode_transport t i.transport_config)
  refuse (Tr.validate lib.transports spec)
  ok spec

unfoldable pub input_security : Library → BuildInput → Result Sec.Spec
unfolding Sec.resolve Sec.validate trim_space
input_security lib i = do
  s ← Sec.resolve lib.transports.quote lib.security_names (trimmed_or i.security (codes "none"))
  spec ←
      explain (codes "vless.Build: decode security config")
        (lib.decode_security s i.security_config)
  refuse (Sec.validate spec)
  ok spec

-- Build
unfoldable pub build : Library → BuildInput → Result VlessNode
unfolding input_transport input_security build_raw_uri trim_space
build lib i = do
  require (not (is_empty (trim_space i.uuid))) (plain (codes "vless.Build: uuid is required"))
  require (not (is_empty (trim_space i.address))) (plain (codes "vless.Build: address is required"))
  require (not (leb_ℤ i.port (pos 0)) && leb_ℤ i.port (pos 65535))
      (plain (codes "vless.Build: invalid port " ++ show_ℤ i.port))
  t ← input_transport lib i
  tj ← lib.encode_transport t
  s ← input_security lib i
  sj ← lib.encode_security s
  let encryption = trimmed_or i.encryption (codes "none")
  ok (record {
    id = 0;
    subscription_id = 0;
    display_name = trimmed_or i.display_name i.address;
    uuid = i.uuid;
    address = i.address;
    port = pos_part i.port;
    flow = trim_space i.flow;
    encryption = encryption;
    packet_encoding = trim_space i.packet_encoding;
    network = Tr.name (Tr.transport_of t);
    transport_config = tj;
    security = Sec.name (Sec.security_of s);
    security_config = sj;
    raw_uri = build_raw_uri lib i encryption t s;
  })
