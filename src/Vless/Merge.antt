-- ===== src/Vless/Merge.antt =====
-- backend/internal/vless/build.go: which parameters of a built link come from the transport, which from
-- the security, and which from the link itself.
use xray2wg.Base.{
  false, Option, none, some, List, [], ◌∷◌, Text, codes, text_eq, ◌==◌, if◌then◌else◌, contains,
  lookup, Distinct, insert-Distinct, lookup-insert, ◌≡◌, refl, arith, text_beq,
}
use xray2wg.Vless.Query.{Query, get, put, set_all, lookup-set_all, or_none, first_of}
use xray2wg.Vless.Transport as Tr
use xray2wg.Vless.Security as Sec

-- The keys that some transport writes, and those that some security writes.
abbrev pub transport_keys : List Text
transport_keys =
    codes "path"
    ∷ codes "host"
    ∷ codes "serviceName"
    ∷ codes "mode"
    ∷ codes "authority"
    ∷ codes "headerType"
    ∷ codes "seed"
    ∷ codes "extra"
    ∷ []

abbrev pub security_keys : List Text
security_keys =
    codes "sni"
    ∷ codes "alpn"
    ∷ codes "fp"
    ∷ codes "allowInsecure"
    ∷ codes "pbk"
    ∷ codes "sid"
    ∷ codes "spx"
    ∷ []

pub lookup-put :
    (k j v : Text) (q : Query)
    → text_beq j k ≡ false
    → lookup k q ≡ none
    → lookup k (put j v q) ≡ none
unfolding put
lookup-put k j [] q h e = e
lookup-put k j (c ∷ v) q h e = ground (arith, lookup-insert j k (c ∷ v) q)

put-Distinct : (j v : Text) (q : Query) → Distinct q → Distinct (put j v q)
unfolding put
put-Distinct j [] q d = d
put-Distinct j (c ∷ v) q d = insert-Distinct j (c ∷ v) q d

-- Each key of a list is another one.
abbrev Apart : Text → List Text → Type 0
Apart k [] = Unit
Apart k (j ∷ ks) = (text_beq j k ≡ false) × Apart k ks

contains-Apart : (k : Text) (ks : List Text) → contains k ks ≡ false → Apart k ks
unfolding contains
contains-Apart k [] h = tt
contains-Apart k (j ∷ ks) h = ground (arith, contains-Apart k ks)

lookup-share_link_plain :
    (k : Text) → Apart k transport_keys → (s : Tr.Spec) → lookup k (Tr.share_link s) ≡ none
unfolding Tr.share_link lookup
lookup-share_link_plain k a Tr.tcp_spec = refl
lookup-share_link_plain k a (Tr.ws_spec s) =
    lookup-put k (codes "host") s.host _ a.1.0 (lookup-put k (codes "path") s.path [] a.0 refl)
lookup-share_link_plain k a (Tr.grpc_spec s) =
    lookup-put k (codes "authority") s.authority _ a.1.1.1.1.0 (
      lookup-put k (codes "mode") (if s.multi_mode then codes "multi" else []) _ a.1.1.1.0
        (lookup-put k (codes "serviceName") s.service_name [] a.1.1.0 refl))
lookup-share_link_plain k a (Tr.kcp_spec s) =
    lookup-put k (codes "seed") s.seed _ a.1.1.1.1.1.1.0
      (lookup-put k (codes "headerType") s.header_type [] a.1.1.1.1.1.0 refl)
lookup-share_link_plain k a (Tr.xhttp_spec s) =
    lookup-put k (codes "extra") s.extra _ a.1.1.1.1.1.1.1.0 (
      lookup-put k (codes "mode") (if s.mode == codes "auto" then [] else s.mode) _ a.1.1.1.0 (
        lookup-put k (codes "host") s.host _ a.1.0
          (lookup-put k (codes "path") s.path [] a.0 refl)))
lookup-share_link_plain k a (Tr.httpupgrade_spec s) =
    lookup-put k (codes "host") s.host _ a.1.0 (lookup-put k (codes "path") s.path [] a.0 refl)

-- A transport writes no key but its own.
pub lookup-share_link_transport :
    (k : Text) (s : Tr.Spec) → contains k transport_keys ≡ false → lookup k (Tr.share_link s) ≡ none
lookup-share_link_transport k s h = lookup-share_link_plain k (contains-Apart k transport_keys h) s

pub share_link_transport-Distinct : (s : Tr.Spec) → Distinct (Tr.share_link s)
unfolding Tr.share_link
share_link_transport-Distinct Tr.tcp_spec = tt
share_link_transport-Distinct (Tr.ws_spec s) =
    put-Distinct (codes "host") s.host _ (put-Distinct (codes "path") s.path [] tt)
share_link_transport-Distinct (Tr.grpc_spec s) = put-Distinct (codes "authority") s.authority _ (
    put-Distinct (codes "mode") (if s.multi_mode then codes "multi" else []) _
      (put-Distinct (codes "serviceName") s.service_name [] tt))
share_link_transport-Distinct (Tr.kcp_spec s) =
    put-Distinct (codes "seed") s.seed _ (put-Distinct (codes "headerType") s.header_type [] tt)
share_link_transport-Distinct (Tr.xhttp_spec s) = put-Distinct (codes "extra") s.extra _ (
    put-Distinct (codes "mode") (if s.mode == codes "auto" then [] else s.mode) _
      (put-Distinct (codes "host") s.host _ (put-Distinct (codes "path") s.path [] tt)))
share_link_transport-Distinct (Tr.httpupgrade_spec s) =
    put-Distinct (codes "host") s.host _ (put-Distinct (codes "path") s.path [] tt)

lookup-put_alpn :
    (k : Text) (ps : List Text) (q : Query)
    → text_beq (codes "alpn") k ≡ false
    → lookup k q ≡ none
    → lookup k (Sec.put_alpn ps q) ≡ none
lookup-put_alpn k [] q h e = e
lookup-put_alpn k (p ∷ ps) q h e =
    ground (arith, lookup-insert (codes "alpn") k (Sec.join_commas (p ∷ ps)) q)

put_alpn-Distinct : (ps : List Text) (q : Query) → Distinct q → Distinct (Sec.put_alpn ps q)
put_alpn-Distinct [] q d = d
put_alpn-Distinct (p ∷ ps) q d = insert-Distinct (codes "alpn") (Sec.join_commas (p ∷ ps)) q d

lookup-share_link_clean :
    (k : Text) → Apart k security_keys → (s : Sec.Spec) → lookup k (Sec.share_link s) ≡ none
unfolding Sec.share_link lookup
lookup-share_link_clean k a Sec.none_spec = refl
lookup-share_link_clean k a (Sec.tls_spec s) =
    lookup-put k (codes "allowInsecure") (if s.allow_insecure then codes "1" else []) _ a.1.1.1.0 (
      lookup-put k (codes "fp") s.fingerprint _ a.1.1.0
        (lookup-put_alpn k s.alpn _ a.1.0 (lookup-put k (codes "sni") s.server_name [] a.0 refl)))
lookup-share_link_clean k a (Sec.reality_spec s) =
    lookup-put k (codes "spx") s.spider_x _ a.1.1.1.1.1.1.0 (
      lookup-put k (codes "sid") s.short_id _ a.1.1.1.1.1.0 (
        lookup-put k (codes "pbk") s.public_key _ a.1.1.1.1.0 (
          lookup-put k (codes "fp") s.fingerprint _ a.1.1.0
            (lookup-put k (codes "sni") s.server_name [] a.0 refl))))

-- A security writes no key but its own.
pub lookup-share_link_security :
    (k : Text) (s : Sec.Spec)
    → contains k security_keys ≡ false
    → lookup k (Sec.share_link s) ≡ none
lookup-share_link_security k s h = lookup-share_link_clean k (contains-Apart k security_keys h) s

pub share_link_security-Distinct : (s : Sec.Spec) → Distinct (Sec.share_link s)
unfolding Sec.share_link
share_link_security-Distinct Sec.none_spec = tt
share_link_security-Distinct (Sec.tls_spec s) =
    put-Distinct (codes "allowInsecure") (if s.allow_insecure then codes "1" else []) _ (
      put-Distinct (codes "fp") s.fingerprint _
        (put_alpn-Distinct s.alpn _ (put-Distinct (codes "sni") s.server_name [] tt)))
share_link_security-Distinct (Sec.reality_spec s) = put-Distinct (codes "spx") s.spider_x _ (
    put-Distinct (codes "sid") s.short_id _ (
      put-Distinct (codes "pbk") s.public_key _ (
        put-Distinct (codes "fp") s.fingerprint _
          (put-Distinct (codes "sni") s.server_name [] tt))))

same_or_none : (o : Option Text) → or_none (first_of o none) ≡ or_none o
same_or_none none = refl
same_or_none (some v) = refl

-- The query that the transport and then the security have written to.
abbrev pub merged : Tr.Spec → Sec.Spec → Query → Query
merged t s base = set_all (Sec.share_link s) (set_all (Tr.share_link t) base)

-- What is read of it.
module _ (k : Text) (t : Tr.Spec) (s : Sec.Spec) (base : Query) where
  pub get-merged_base :
      contains k transport_keys ≡ false
      → contains k security_keys ≡ false
      → get k (merged t s base) ≡ get k base
  unfolding get
  get-merged_base a b =
      rw
        (
          get,
          lookup-set_all k (Sec.share_link s) (set_all (Tr.share_link t) base)
              (share_link_security-Distinct s),
          lookup-share_link_security k s b,
          lookup-set_all k (Tr.share_link t) base (share_link_transport-Distinct t),
          lookup-share_link_transport k t a,
        )
        refl

  pub get-merged_transport :
      contains k security_keys ≡ false
      → lookup k base ≡ none
      → get k (merged t s base) ≡ get k (Tr.share_link t)
  unfolding get
  get-merged_transport b e =
      rw
        (
          lookup-set_all k (Sec.share_link s) (set_all (Tr.share_link t) base)
              (share_link_security-Distinct s),
          lookup-share_link_security k s b,
          lookup-set_all k (Tr.share_link t) base (share_link_transport-Distinct t),
          e,
        )
        (same_or_none (lookup k (Tr.share_link t)))

  pub get-merged_security :
      contains k transport_keys ≡ false
      → lookup k base ≡ none
      → get k (merged t s base) ≡ get k (Sec.share_link s)
  unfolding get
  get-merged_security a e =
      rw
        (
          lookup-set_all k (Sec.share_link s) (set_all (Tr.share_link t) base)
              (share_link_security-Distinct s),
          lookup-set_all k (Tr.share_link t) base (share_link_transport-Distinct t),
          lookup-share_link_transport k t a,
          e,
        )
        (same_or_none (lookup k (Sec.share_link s)))
