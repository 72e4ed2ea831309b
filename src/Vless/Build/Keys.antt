-- ===== src/Vless/Build/Keys.antt =====
-- backend/internal/vless/build.go: what ParseURI reads of the query that buildRawURI writes.
use xray2wg.Base.{
  false, none, [], Text, codes, text_eq, is_empty, contains, lookup, insert, lookup-insert,
  trim_space, ◌≡◌, refl, arith, text_beq, ◌∙◌, ◌⊎◌,
}
use xray2wg.Vless.Query.{Query, get, put, get-put_same, over}
use xray2wg.Vless.Transport as Tr
use xray2wg.Vless.Transport.RoundTrip as Tr_trip
use xray2wg.Vless.Security as Sec
use xray2wg.Vless.Merge.{
  merged, lookup-put, get-merged_base, get-merged_transport, get-merged_security,
}

-- What buildRawURI sets before the transport and the security do.
abbrev pub own_query : Text → Text → Text → Text → Text → Query
own_query network security encryption packet flow = put (codes "flow") flow (
    put (codes "packetEncoding") packet (
      put (codes "encryption") encryption
        (insert (codes "security") security (insert (codes "type") network []))))

-- The name of a gRPC service, or that no protocols of TLS are there to stand for it.
abbrev pub HasNoClash : Tr.Spec → Sec.Spec → Type 0
HasNoClash (Tr.grpc_spec x) s =
    (is_empty x.service_name ≡ false) ⊎ (trim_space (get (codes "alpn") (Sec.share_link s)) ≡ [])
HasNoClash t s = Unit

module _ (n c e p f : Text) where
  -- The keys of the transport and the security are not among them.
  own_lacks :
      (k : Text)
      → text_beq (codes "type") k ≡ false
      → text_beq (codes "security") k ≡ false
      → text_beq (codes "encryption") k ≡ false
      → text_beq (codes "packetEncoding") k ≡ false
      → text_beq (codes "flow") k ≡ false
      → lookup k (own_query n c e p f) ≡ none
  unfolding lookup
  own_lacks k h1 h2 h3 h4 h5 = lookup-put k (codes "flow") f _ h5 (
      lookup-put k (codes "packetEncoding") p _ h4 (
        lookup-put k (codes "encryption") e _ h3 (
          ground (
            arith,
            lookup-insert (codes "security") k c (insert (codes "type") n []),
            lookup-insert (codes "type") k n [],
          ))))

  pub parse_security-merged :
      (t : Tr.Spec) (s : Sec.Spec)
      → Sec.parse (Sec.security_of s) (merged t s (own_query n c e p f))
        ≡ Sec.parse (Sec.security_of s) (Sec.share_link s)
  unfolding Sec.parse text_beq contains
  parse_security-merged t Sec.none_spec = refl
  parse_security-merged t (Sec.tls_spec x) =
      let q = own_query n c e p f in
      let s = Sec.tls_spec x in
      rw
        (
          get-merged_security (codes "sni") t s q refl (own_lacks _ refl refl refl refl refl),
          get-merged_security (codes "alpn") t s q refl (own_lacks _ refl refl refl refl refl),
          get-merged_security (codes "fp") t s q refl (own_lacks _ refl refl refl refl refl),
          get-merged_security (codes "allowInsecure") t s q refl
              (own_lacks _ refl refl refl refl refl),
        )
        refl
  parse_security-merged t (Sec.reality_spec x) =
      let q = own_query n c e p f in
      let s = Sec.reality_spec x in
      rw
        (
          get-merged_security (codes "sni") t s q refl (own_lacks _ refl refl refl refl refl),
          get-merged_security (codes "fp") t s q refl (own_lacks _ refl refl refl refl refl),
          get-merged_security (codes "pbk") t s q refl (own_lacks _ refl refl refl refl refl),
          get-merged_security (codes "sid") t s q refl (own_lacks _ refl refl refl refl refl),
          get-merged_security (codes "spx") t s q refl (own_lacks _ refl refl refl refl refl),
        )
        refl

  -- A gRPC service without a name is read from the protocols of TLS, if there are some.
  pub parse_transport-merged :
      (lib : Tr.Library) (t : Tr.Spec) (s : Sec.Spec)
      → Tr_trip.IsShared lib t
      → HasNoClash t s
      → Tr.parse lib (Tr.transport_of t) (merged t s (own_query n c e p f)) ≡ t
  unfolding Tr.parse text_beq contains
  parse_transport-merged lib Tr.tcp_spec s h a = refl
  parse_transport-merged lib (Tr.ws_spec x) s h a =
      let q = own_query n c e p f in
      let t = Tr.ws_spec x in
      rw
        (
          get-merged_transport (codes "path") t s q refl (own_lacks _ refl refl refl refl refl),
          get-merged_transport (codes "host") t s q refl (own_lacks _ refl refl refl refl refl),
        )
        (Tr_trip.parse-share_link_transport lib t h)
  parse_transport-merged lib (Tr.kcp_spec x) s h a =
      let q = own_query n c e p f in
      let t = Tr.kcp_spec x in
      rw
        (
          get-merged_transport (codes "headerType") t s q refl
              (own_lacks _ refl refl refl refl refl),
          get-merged_transport (codes "seed") t s q refl (own_lacks _ refl refl refl refl refl),
        )
        (Tr_trip.parse-share_link_transport lib t h)
  parse_transport-merged lib (Tr.xhttp_spec x) s h a =
      let q = own_query n c e p f in
      let t = Tr.xhttp_spec x in
      rw
        (
          get-merged_transport (codes "path") t s q refl (own_lacks _ refl refl refl refl refl),
          get-merged_transport (codes "host") t s q refl (own_lacks _ refl refl refl refl refl),
          get-merged_transport (codes "mode") t s q refl (own_lacks _ refl refl refl refl refl),
          get-merged_transport (codes "extra") t s q refl (own_lacks _ refl refl refl refl refl),
        )
        (Tr_trip.parse-share_link_transport lib t h)
  parse_transport-merged lib (Tr.httpupgrade_spec x) s h a =
      let q = own_query n c e p f in
      let t = Tr.httpupgrade_spec x in
      rw
        (
          get-merged_transport (codes "path") t s q refl (own_lacks _ refl refl refl refl refl),
          get-merged_transport (codes "host") t s q refl (own_lacks _ refl refl refl refl refl),
        )
        (Tr_trip.parse-share_link_transport lib t h)
  parse_transport-merged lib (Tr.grpc_spec x) s h a =
      let q = own_query n c e p f in
      let t = Tr.grpc_spec x in
      rw
        (
          get-merged_transport (codes "serviceName") t s q refl
              (own_lacks _ refl refl refl refl refl),
          get-merged_transport (codes "mode") t s q refl (own_lacks _ refl refl refl refl refl),
          get-merged_transport (codes "authority") t s q refl
              (own_lacks _ refl refl refl refl refl),
          get-merged_security (codes "alpn") t s q refl (own_lacks _ refl refl refl refl refl),
        )
        (Tr_trip.read_grpc-share_link lib (trim_space (get (codes "alpn") (Sec.share_link s))) x h
          a)

module _ (n c e p f : Text) (t : Tr.Spec) (s : Sec.Spec) where
  abbrev built : Query
  built = merged t s (own_query n c e p f)

  inserted_lacks :
      (k : Text)
      → text_beq (codes "type") k ≡ false
      → text_beq (codes "security") k ≡ false
      → get k (insert (codes "security") c (insert (codes "type") n [])) ≡ []
  unfolding get lookup
  inserted_lacks k h1 h2 = ground (
    arith,
    lookup-insert (codes "security") k c (insert (codes "type") n []),
    lookup-insert (codes "type") k n [],
  )

  inserted_type : get (codes "type") (insert (codes "security") c (insert (codes "type") n [])) ≡ n
  unfolding get lookup text_beq
  inserted_type =
      rw
        (
          lookup-insert (codes "security") (codes "type") c (insert (codes "type") n []),
          lookup-insert (codes "type") (codes "type") n [],
        )
        refl

  inserted_security :
      get (codes "security") (insert (codes "security") c (insert (codes "type") n [])) ≡ c
  unfolding get lookup text_beq
  inserted_security =
      rw (lookup-insert (codes "security") (codes "security") c (insert (codes "type") n [])) refl

  -- The link's own parameters are read back from the whole query.
  pub own_values :
      (get (codes "type") built ≡ n)
      × (get (codes "security") built ≡ c)
      × (get (codes "encryption") built ≡ e)
      × (get (codes "packetEncoding") built ≡ p)
      × (get (codes "flow") built ≡ f)
  unfolding text_beq contains
  own_values =
      let q = own_query n c e p f in
      (
        get-merged_base (codes "type") t s q refl refl
            ∙ over (codes "type") (codes "flow") f _ _ refl (
                over (codes "type") (codes "packetEncoding") p _ _ refl
                  (over (codes "type") (codes "encryption") e _ _ refl inserted_type)),
        get-merged_base (codes "security") t s q refl refl
            ∙ over (codes "security") (codes "flow") f _ _ refl (
                over (codes "security") (codes "packetEncoding") p _ _ refl
                  (over (codes "security") (codes "encryption") e _ _ refl inserted_security)),
        get-merged_base (codes "encryption") t s q refl refl
            ∙ over (codes "encryption") (codes "flow") f _ _ refl (
                over (codes "encryption") (codes "packetEncoding") p _ _ refl (
                  get-put_same (codes "encryption") e _
                    (inserted_lacks (codes "encryption") refl refl))),
        get-merged_base (codes "packetEncoding") t s q refl refl
            ∙ over (codes "packetEncoding") (codes "flow") f _ _ refl (
                get-put_same (codes "packetEncoding") p _ (
                  over (codes "packetEncoding") (codes "encryption") e _ _ refl
                    (inserted_lacks (codes "packetEncoding") refl refl))),
        get-merged_base (codes "flow") t s q refl refl
            ∙ get-put_same (codes "flow") f _ (
                over (codes "flow") (codes "packetEncoding") p _ _ refl (
                  over (codes "flow") (codes "encryption") e _ _ refl
                    (inserted_lacks (codes "flow") refl refl))),
      )
