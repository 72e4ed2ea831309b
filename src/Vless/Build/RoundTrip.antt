-- ===== src/Vless/Build/RoundTrip.antt =====
-- backend/internal/vless: Build followed by ParseURI.
use xray2wg.Base.{
  ℕ, false, none, some, [], ◌∷◌, Text, codes, text_eq, ◌&&◌, not, is_empty, trim_space, to_lower,
  ◌≡◌, refl, arith, text_beq, Bool-cases, inl, inr, ◌∙◌, trim_space-trim_space, itoa, itoa_full,
  trim_space_source,
}
use xray2wg.Base.Int.{pos, leb_ℤ, pos_part}
use xray2wg.Domain.{VlessNode}
use xray2wg.Domain.Errors.{ok, Result-cases, ◌>>=◌}
use xray2wg.Vless.Query.{get}
use xray2wg.Vless.Transport as Tr
use xray2wg.Vless.Transport.RoundTrip as Tr_trip
use xray2wg.Vless.Security as Sec
use xray2wg.Vless.Security.RoundTrip as Sec_trip
use xray2wg.Vless.Build.{
  Url, Library, BuildInput, parse_transport, parse_security, port_of, node_of, parse_uri,
  trimmed_or, build_query, build_raw_uri, input_transport, input_security, build,
}
use xray2wg.Vless.Build.Keys.{own_values, HasNoClash, parse_transport-merged, parse_security-merged}
use xray2wg.Vless.Build.Reading.{
  resolve-name_transport, resolve-name_security, input_transport-validate, input_security-validate,
  shown_encryption, encryption_read,
}

-- The URL of a built link.
abbrev pub link_url : BuildInput → Tr.Spec → Sec.Spec → Url
link_url i t s = record {
  scheme = codes "vless";
  user = some i.uuid;
  hostname = i.address;
  port = itoa (pos_part i.port);
  query = build_query i (trimmed_or i.encryption (codes "none")) t s;
  fragment = i.display_name;
}

port_of_digits :
    (lib : Library) (p : Text) (n : ℕ)
    → is_empty p ≡ false
    → lib.atoi p ≡ ok n
    → port_of lib p ≡ ok n
unfolding port_of
port_of_digits lib [] n e h = ground arith
port_of_digits lib (c ∷ p) n e h = h

module _ (lib : Library) (i : BuildInput) (t : Tr.Spec) (s : Sec.Spec) where
  query_values :
      (get (codes "type") (link_url i t s).query ≡ Tr.name (Tr.transport_of t))
      × (get (codes "security") (link_url i t s).query ≡ Sec.name (Sec.security_of s))
      × (get (codes "encryption") (link_url i t s).query
          ≡ shown_encryption (trimmed_or i.encryption (codes "none")))
      × (get (codes "packetEncoding") (link_url i t s).query ≡ trim_space i.packet_encoding)
      × (get (codes "flow") (link_url i t s).query ≡ trim_space i.flow)
  unfolding build_query
  query_values =
      own_values (Tr.name (Tr.transport_of t)) (Sec.name (Sec.security_of s))
        (shown_encryption (trimmed_or i.encryption (codes "none"))) (trim_space i.packet_encoding)
        (trim_space i.flow) t s

  parse_transport-link_url :
      Tr_trip.IsShared lib.transports t
      → HasNoClash t s
      → Tr.validate lib.transports t ≡ none
      → parse_transport lib (link_url i t s).query ≡ ok t
  unfolding parse_transport
  parse_transport-link_url h a v =
      let own = query_values in
      let read : Tr.parse lib.transports (Tr.transport_of t) (link_url i t s).query ≡ t =
        unfold build_query in
        parse_transport-merged (Tr.name (Tr.transport_of t)) (Sec.name (Sec.security_of s))
          (shown_encryption (trimmed_or i.encryption (codes "none"))) (trim_space i.packet_encoding)
          (trim_space i.flow) lib.transports t s h a in
      rw (own.0, resolve-name_transport lib.transports (Tr.transport_of t), read, v) refl

  parse_security-link_url :
      Sec_trip.IsShared s → Sec.validate s ≡ none → parse_security lib (link_url i t s).query ≡ ok s
  unfolding parse_security
  parse_security-link_url h v =
      let own = query_values in
      let read : Sec.parse (Sec.security_of s) (link_url i t s).query ≡ s =
        unfold build_query in
        parse_security-merged (Tr.name (Tr.transport_of t)) (Sec.name (Sec.security_of s))
          (shown_encryption (trimmed_or i.encryption (codes "none"))) (trim_space i.packet_encoding)
          (trim_space i.flow) t s
        ∙ Sec_trip.parse-share_link_security s h in
      rw
        (
          own.1,
          resolve-name_security lib.transports.quote lib.security_names (Sec.security_of s),
          read,
          v,
        )
        refl

  -- The node that Build gives, with its encoded parameters.
  built_node : Text → Text → VlessNode
  built_node tj sj = record {
    id = 0;
    subscription_id = 0;
    display_name = trimmed_or i.display_name i.address;
    uuid = i.uuid;
    address = i.address;
    port = pos_part i.port;
    flow = trim_space i.flow;
    encryption = trimmed_or i.encryption (codes "none");
    packet_encoding = trim_space i.packet_encoding;
    network = Tr.name (Tr.transport_of t);
    transport_config = tj;
    security = Sec.name (Sec.security_of s);
    security_config = sj;
    raw_uri = build_raw_uri lib i (trimmed_or i.encryption (codes "none")) t s;
  }

  node_of-link_url :
      (tj sj : Text)
      → parse_transport lib (link_url i t s).query ≡ ok t
      → parse_security lib (link_url i t s).query ≡ ok s
      → lib.encode_transport t ≡ ok tj
      → lib.encode_security s ≡ ok sj
      → trim_space i.display_name ≡ i.display_name
      → node_of lib
          (build_raw_uri lib i (trimmed_or i.encryption (codes "none")) t s)
          (link_url i t s)
          (pos_part i.port)
        ≡ ok (built_node tj sj)
  unfolding node_of built_node
  node_of-link_url tj sj pt ps et es d =
      let own = query_values in
      rw
        (
          pt,
          et,
          ps,
          es,
          own.2,
          own.3,
          own.4,
          encryption_read i.encryption,
          trim_space-trim_space i.packet_encoding,
          trim_space-trim_space i.flow,
          d,
        )
        refl

  -- The specs that an input names and a link can carry.
  abbrev pub IsLinked : Type 0
  IsLinked =
      (input_transport lib i ≡ ok t)
      × (input_security lib i ≡ ok s)
      × Tr_trip.IsShared lib.transports t
      × Sec_trip.IsShared s
      × HasNoClash t s
      × (trim_space i.display_name ≡ i.display_name)

  read_back :
      (tj sj : Text)
      → IsLinked
      → lib.encode_transport t ≡ ok tj
      → lib.encode_security s ≡ ok sj
      → is_empty (trim_space i.uuid) ≡ false
      → is_empty (trim_space i.address) ≡ false
      → lib.url_parse (trim_space (lib.url_string (link_url i t s))) ≡ ok (link_url i t s)
      → lib.atoi (itoa (pos_part i.port)) ≡ ok (pos_part i.port)
      → parse_uri lib (build_raw_uri lib i (trimmed_or i.encryption (codes "none")) t s)
        ≡ ok (built_node tj sj)
  unfolding parse_uri build_raw_uri to_lower text_beq
  read_back tj sj (it, is, th, sh, a, d) et es uuid address parsed digits =
      let port =
        port_of_digits lib (itoa (pos_part i.port)) (pos_part i.port) (itoa_full (pos_part i.port))
          digits in
      rw (parsed, trim_space_source i.uuid uuid, port, trim_space_source i.address address)
        (node_of-link_url tj sj
          (parse_transport-link_url th a (input_transport-validate lib i t it))
          (parse_security-link_url sh (input_security-validate lib i s is)) et es d)

  -- Where net/url reads back the URL that it writes of a link, and strconv the port: a structured
  -- input, whose parameters are such as a link can carry and whose display name has no spaces around
  -- it, gives a node whose link is parsed to the same node, or is refused. A gRPC transport has a
  -- service name, or there are no protocols of TLS.
  pub parse_uri-build :
      IsLinked
      → lib.url_parse (trim_space (lib.url_string (link_url i t s))) ≡ ok (link_url i t s)
      → lib.atoi (itoa (pos_part i.port)) ≡ ok (pos_part i.port)
      → (build lib i >>= λ n. parse_uri lib n.raw_uri) ≡ build lib i
  unfolding build built_node
  parse_uri-build linked parsed digits = elim (Bool-cases (is_empty (trim_space i.uuid))) [
    | inl z ↦ rw (z) refl
    | inr z ↦ elim (Bool-cases (is_empty (trim_space i.address))) [
      | inl y ↦ rw (z, y) refl
      | inr y ↦ elim (Bool-cases (not (leb_ℤ i.port (pos 0)) && leb_ℤ i.port (pos 65535))) [
        | inr x ↦ rw (z, y, x) refl
        | inl x ↦ elim (Result-cases (lib.encode_transport t)) [
          | inl (e, et) ↦ rw (z, y, x, linked.0, et) refl
          | inr (tj, et) ↦ elim (Result-cases (lib.encode_security s)) [
            | inl (e, es) ↦ rw (z, y, x, linked.0, et, linked.1, es) refl
            | inr (sj, es) ↦
                rw (z, y, x, linked.0, et, linked.1, es)
                  (read_back tj sj linked et es z y parsed digits)
          ]
        ]
      ]
    ]
  ]
