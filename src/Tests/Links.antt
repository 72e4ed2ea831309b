-- ===== src/Tests/Links.antt =====
-- Witnesses: a gRPC link over TLS, built and parsed, and parameters of other links.
use xray2wg.Base.{
  true, false, none, [], ◌∷◌, codes, ◌≡◌, refl, inl, text_eq, text_beq, lookup, trim_space,
  trim_left, trim_right, is_space, to_lower,
}
use xray2wg.Base.Int.{pos}
use xray2wg.Domain.Errors.{ok, ◌>>=◌}
use xray2wg.Vless.Transport as Tr
use xray2wg.Vless.Transport.RoundTrip.{parse-share_link_transport}
use xray2wg.Vless.Security as Sec
use xray2wg.Vless.Security.RoundTrip.{has_comma, IsShared, parse-share_link_security}
use xray2wg.Vless.Build.{BuildInput, Library, build, parse_uri, input_transport, input_security}
use xray2wg.Vless.Build.RoundTrip.{link_url, IsLinked, parse_uri-build}

abbrev transports : Tr.Library
transports = record {
  quote = λ t. t;
  names = [];
  header_types = [];
  json_valid = λ t. true;
  json_object = λ t. none;
}

abbrev stream : Tr.XhttpSpec
stream = record {
  path = codes "/up";
  host = codes "cdn.example.org";
  mode = codes "auto";
  extra = codes "{}";
}

parse-share_link_transport_example :
    Tr.parse transports Tr.xhttp (Tr.share_link (Tr.xhttp_spec stream)) ≡ Tr.xhttp_spec stream
unfolding trim_space trim_left trim_right is_space
parse-share_link_transport_example =
    parse-share_link_transport transports (Tr.xhttp_spec stream)
      (refl, refl, refl, refl, refl, refl)

abbrev tls_spec : Sec.TlsSpec
tls_spec = record {
  server_name = codes "example.org";
  alpn = codes "h2" ∷ codes "http/1.1" ∷ [];
  fingerprint = codes "chrome";
  allow_insecure = false;
}

tls_spec-IsShared : IsShared (Sec.tls_spec tls_spec)
unfolding trim_space trim_left trim_right is_space has_comma
tls_spec-IsShared = (refl, ((refl, refl, refl), ((refl, refl, refl), tt)), refl)

parse-share_link_security_example :
    Sec.parse Sec.tls (Sec.share_link (Sec.tls_spec tls_spec)) ≡ Sec.tls_spec tls_spec
parse-share_link_security_example =
    parse-share_link_security (Sec.tls_spec tls_spec) tls_spec-IsShared

abbrev service : Tr.Spec
service = Tr.grpc_spec record { service_name = codes "svc"; multi_mode = true; authority = [] }

abbrev input : BuildInput
input = record {
  display_name = codes "home";
  uuid = codes "u";
  address = codes "example.org";
  port = pos 443;
  flow = [];
  encryption = [];
  packet_encoding = codes " xudp";
  network = codes "gun";
  transport_config = [];
  security = codes "TLS";
  security_config = [];
}

-- Packages that know this one link.
abbrev library : Library
library = record {
  url_parse = λ t. ok (link_url input service (Sec.tls_spec tls_spec));
  url_string = λ u. codes "vless://u@example.org:443";
  atoi = λ t. ok 443;
  transports = transports;
  security_names = [];
  encode_transport = λ t. ok (codes "{}");
  decode_transport = λ t x. ok service;
  encode_security = λ s. ok (codes "{}");
  decode_security = λ s x. ok (Sec.tls_spec tls_spec);
}

input-IsLinked : IsLinked library input service (Sec.tls_spec tls_spec)
unfolding input_transport input_security Tr.resolve Tr.by_name Tr.aliases Tr.validate Sec.resolve
    Sec.by_name Sec.validate lookup trim_space trim_left trim_right is_space to_lower text_beq
input-IsLinked = (refl, refl, (refl, refl), tls_spec-IsShared, inl refl, refl)

parse_uri-build_example :
    (build library input >>= λ n. parse_uri library n.raw_uri) ≡ build library input
parse_uri-build_example =
    parse_uri-build library input service (Sec.tls_spec tls_spec) input-IsLinked refl refl
