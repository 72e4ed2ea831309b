-- ===== src/Vless/Transport/RoundTrip.antt =====
-- backend/internal/vless/transport: what ParseURI makes of the parameters that ShareLink writes.
use xray2wg.Base.{
  ◌⊎◌, Bool, true, false, [], ◌∷◌, Text, codes, text_eq, ◌==◌, ◌||◌, if◌then◌else◌, is_empty,
  trim_space, to_lower, trim_left, trim_right, is_space, ◌≡◌, refl, arith, text_beq, Bool-cases,
  sym, text_beq_iff, inl, inr,
}
use xray2wg.Vless.Query.{Query, get, get-put_same, get-nil, over, default_string}
use xray2wg.Vless.Transport.{
  Spec, WsSpec, GrpcSpec, KcpSpec, XhttpSpec, HttpUpgradeSpec, tcp_spec, ws_spec, grpc_spec,
  kcp_spec, xhttp_spec, httpupgrade_spec, ws, grpc, kcp, xhttp, httpupgrade, transport_of, Library,
  parse, share_link, valid_extra,
}

-- The parameters that a link can carry: without spaces around them, an explicit mode, extra
-- parameters that are JSON, and no further headers.
abbrev pub IsShared : Library → Spec → Type 0
IsShared lib tcp_spec = Unit
IsShared lib (ws_spec s) = (trim_space s.path ≡ s.path) × (trim_space s.host ≡ s.host)
IsShared lib (grpc_spec s) =
    (trim_space s.service_name ≡ s.service_name) × (trim_space s.authority ≡ s.authority)
IsShared lib (kcp_spec s) =
    (trim_space s.header_type ≡ s.header_type) × (trim_space s.seed ≡ s.seed)
IsShared lib (xhttp_spec s) =
    (trim_space s.path ≡ s.path)
    × (trim_space s.host ≡ s.host)
    × (trim_space s.mode ≡ s.mode)
    × (is_empty s.mode ≡ false)
    × (trim_space s.extra ≡ s.extra)
    × ((is_empty s.extra || lib.json_valid s.extra) ≡ true)
IsShared lib (httpupgrade_spec s) =
    (trim_space s.path ≡ s.path) × (trim_space s.host ≡ s.host) × (s.headers ≡ [])

default_string_nil : (v : Text) → default_string v [] ≡ v
default_string_nil [] = refl
default_string_nil (c ∷ v) = refl

default_string_full : (v d : Text) → is_empty v ≡ false → default_string v d ≡ v
default_string_full [] d h = ground arith
default_string_full (c ∷ v) d h = refl

multi_read :
    (b : Bool) → (to_lower (trim_space (if b then codes "multi" else [])) == codes "multi") ≡ b
unfolding to_lower trim_space trim_left trim_right is_space text_beq
multi_read true = refl
multi_read false = refl

parse-share_link_ws :
    (lib : Library) (s : WsSpec)
    → IsShared lib (ws_spec s)
    → parse lib ws (share_link (ws_spec s)) ≡ ws_spec s
unfolding parse share_link text_beq
parse-share_link_ws lib s (p, h) =
    rw
      (
        over (codes "path") (codes "host") s.host _ _ refl
            (get-put_same (codes "path") s.path [] (get-nil (codes "path"))),
        get-put_same (codes "host") s.host _
            (over (codes "host") (codes "path") s.path _ _ refl (get-nil (codes "host"))),
        p,
        h,
      )
      refl

-- What the transport grpc reads, with a text that stands for the name where there is none.
abbrev pub read_grpc : Text → Query → Spec
read_grpc other q = grpc_spec record {
  service_name = default_string (trim_space (get (codes "serviceName") q)) other;
  multi_mode = to_lower (trim_space (get (codes "mode") q)) == codes "multi";
  authority = trim_space (get (codes "authority") q);
}

default_string_unused :
    (v other : Text) → (is_empty v ≡ false) ⊎ (other ≡ []) → default_string v other ≡ v
default_string_unused v other (inl h) = default_string_full v other h
default_string_unused v other (inr e) = rw (e) (default_string_nil v)

pub read_grpc-share_link :
    (lib : Library) (other : Text) (s : GrpcSpec)
    → IsShared lib (grpc_spec s)
    → (is_empty s.service_name ≡ false) ⊎ (other ≡ [])
    → read_grpc other (share_link (grpc_spec s)) ≡ grpc_spec s
unfolding share_link text_beq
read_grpc-share_link lib other s (p, h) named =
    let mode = if s.multi_mode then codes "multi" else [] in
    rw
      (
        over (codes "serviceName") (codes "authority") s.authority _ _ refl (
            over (codes "serviceName") (codes "mode") mode _ _ refl (
              get-put_same (codes "serviceName") s.service_name []
                (get-nil (codes "serviceName")))),
        over (codes "mode") (codes "authority") s.authority _ _ refl (
            get-put_same (codes "mode") mode _ (
              over (codes "mode") (codes "serviceName") s.service_name _ [] refl
                (get-nil (codes "mode")))),
        get-put_same (codes "authority") s.authority _ (
            over (codes "authority") (codes "mode") mode _ _ refl (
              over (codes "authority") (codes "serviceName") s.service_name _ [] refl
                (get-nil (codes "authority")))),
        p,
        h,
        default_string_unused s.service_name other named,
        multi_read s.multi_mode,
      )
      refl

no_alpn : (s : GrpcSpec) → trim_space (get (codes "alpn") (share_link (grpc_spec s))) ≡ []
unfolding share_link text_beq trim_space trim_left trim_right
no_alpn s =
    let mode = if s.multi_mode then codes "multi" else [] in
    let absent = over (codes "alpn") (codes "authority") s.authority [] _ refl (
      over (codes "alpn") (codes "mode") mode [] _ refl (
        over (codes "alpn") (codes "serviceName") s.service_name [] [] refl
          (get-nil (codes "alpn")))) in
    rw (absent) refl

parse-share_link_grpc :
    (lib : Library) (s : GrpcSpec)
    → IsShared lib (grpc_spec s)
    → parse lib grpc (share_link (grpc_spec s)) ≡ grpc_spec s
unfolding parse
parse-share_link_grpc lib s h =
    read_grpc-share_link lib (trim_space (get (codes "alpn") (share_link (grpc_spec s)))) s h
      (inr (no_alpn s))

parse-share_link_kcp :
    (lib : Library) (s : KcpSpec)
    → IsShared lib (kcp_spec s)
    → parse lib kcp (share_link (kcp_spec s)) ≡ kcp_spec s
unfolding parse share_link text_beq
parse-share_link_kcp lib s (p, h) =
    rw
      (
        over (codes "headerType") (codes "seed") s.seed _ _ refl
            (get-put_same (codes "headerType") s.header_type [] (get-nil (codes "headerType"))),
        get-put_same (codes "seed") s.seed _ (
            over (codes "seed") (codes "headerType") s.header_type _ [] refl
              (get-nil (codes "seed"))),
        p,
        h,
      )
      refl

parse-share_link_httpupgrade :
    (lib : Library) (s : HttpUpgradeSpec)
    → IsShared lib (httpupgrade_spec s)
    → parse lib httpupgrade (share_link (httpupgrade_spec s)) ≡ httpupgrade_spec s
unfolding parse share_link text_beq
parse-share_link_httpupgrade lib s (p, h, none_left) =
    rw
      (
        over (codes "path") (codes "host") s.host _ _ refl
            (get-put_same (codes "path") s.path [] (get-nil (codes "path"))),
        get-put_same (codes "host") s.host _
            (over (codes "host") (codes "path") s.path _ [] refl (get-nil (codes "host"))),
        p,
        h,
        sym none_left,
      )
      refl

-- The mode as a link shows it.
abbrev shown_mode : Text → Text
shown_mode m = if m == codes "auto" then [] else m

shown_mode_read :
    (m : Text)
    → trim_space m ≡ m
    → is_empty m ≡ false
    → default_string (trim_space (shown_mode m)) (codes "auto") ≡ m
unfolding trim_space trim_left trim_right
shown_mode_read m t e = elim (Bool-cases (m == codes "auto")) [
  | inl z ↦ rw (z) (sym ((text_beq_iff m (codes "auto")).0 z))
  | inr z ↦ rw (z, t) (default_string_full m (codes "auto") e)
]

valid_extra_kept :
    (lib : Library) (x : Text) → (is_empty x || lib.json_valid x) ≡ true → valid_extra lib x ≡ x
valid_extra_kept lib [] h = refl
valid_extra_kept lib (c ∷ x) h = rw (h) refl

parse-share_link_xhttp :
    (lib : Library) (s : XhttpSpec)
    → IsShared lib (xhttp_spec s)
    → parse lib xhttp (share_link (xhttp_spec s)) ≡ xhttp_spec s
unfolding parse share_link text_beq
parse-share_link_xhttp lib s (p, h, m, full, x, json) =
    let mode = shown_mode s.mode in
    rw
      (
        over (codes "path") (codes "extra") s.extra _ _ refl (
            over (codes "path") (codes "mode") mode _ _ refl (
              over (codes "path") (codes "host") s.host _ _ refl
                (get-put_same (codes "path") s.path [] (get-nil (codes "path"))))),
        over (codes "host") (codes "extra") s.extra _ _ refl (
            over (codes "host") (codes "mode") mode _ _ refl (
              get-put_same (codes "host") s.host _
                (over (codes "host") (codes "path") s.path _ [] refl (get-nil (codes "host"))))),
        over (codes "mode") (codes "extra") s.extra _ _ refl (
            get-put_same (codes "mode") mode _ (
              over (codes "mode") (codes "host") s.host _ _ refl
                (over (codes "mode") (codes "path") s.path _ [] refl (get-nil (codes "mode"))))),
        get-put_same (codes "extra") s.extra _ (
            over (codes "extra") (codes "mode") mode _ _ refl (
              over (codes "extra") (codes "host") s.host _ _ refl
                (over (codes "extra") (codes "path") s.path _ [] refl (get-nil (codes "extra"))))),
        p,
        h,
        shown_mode_read s.mode m full,
        x,
        valid_extra_kept lib s.extra json,
      )
      refl

-- For every transport, ParseURI reads the parameters that ShareLink wrote, where a link can carry
-- them.
pub parse-share_link_transport :
    (lib : Library) (s : Spec) → IsShared lib s → parse lib (transport_of s) (share_link s) ≡ s
unfolding parse
parse-share_link_transport lib tcp_spec h = refl
parse-share_link_transport lib (ws_spec s) h = parse-share_link_ws lib s h
parse-share_link_transport lib (grpc_spec s) h = parse-share_link_grpc lib s h
parse-share_link_transport lib (kcp_spec s) h = parse-share_link_kcp lib s h
parse-share_link_transport lib (xhttp_spec s) h = parse-share_link_xhttp lib s h
parse-share_link_transport lib (httpupgrade_spec s) h = parse-share_link_httpupgrade lib s h
