-- ===== src/Vless/Security/RoundTrip.antt =====
-- backend/internal/vless/security: what ParseURI makes of the parameters that ShareLink writes.
use xray2wg.Base.{
  Bool, true, false, List, [], ◌∷◌, ◌++◌, Text, codes, text_eq, nat_beq, ◌||◌, if◌then◌else◌,
  is_empty, trim_space, to_lower, trim_left, trim_right, is_space, trim_space_full, not, ◌≡◌, refl,
  arith, text_beq, ap, ◌∙◌, split_on, contains, All,
}
use xray2wg.Vless.Query.{Query, put, get-put_same, get-nil, over}
use xray2wg.Vless.Security.{
  Spec, TlsSpec, RealitySpec, none_spec, tls_spec, reality_spec, tls, reality, security_of, parse,
  share_link, split_alpn, trimmed_parts, join_commas, put_alpn, truths,
}

-- A protocol of a list that a link can carry: not empty, without a comma or spaces around it.
unfoldable pub has_comma : Text → Bool
has_comma [] = false
has_comma (c ∷ s) = nat_beq c b',' || has_comma s

-- Whether a text starts with a character that is no space.
abbrev pub is_visible : Text → Bool
is_visible [] = false
is_visible (c ∷ s) = not (is_space c)

abbrev pub IsProtocol : Text → Type 0
IsProtocol p = (trim_space p ≡ p) × (is_visible p ≡ true) × (has_comma p ≡ false)

is_visible_full : (p : Text) → is_visible p ≡ true → is_empty p ≡ false
is_visible_full [] h = ground arith
is_visible_full (c ∷ p) h = refl

split_on-plain : (p : Text) → has_comma p ≡ false → split_on b',' p ≡ p ∷ []
unfolding split_on has_comma
split_on-plain [] h = refl
split_on-plain (c ∷ p) h = ground (arith, split_on-plain p)

split_on-append :
    (p r : Text) → has_comma p ≡ false → split_on b',' (p ++ (b',' ∷ r)) ≡ p ∷ split_on b',' r
unfolding split_on has_comma
split_on-append [] r h = refl
split_on-append (c ∷ p) r h = ground (arith, split_on-append p r)

split_on-join_commas :
    (p : Text) (ps : List Text)
    → All IsProtocol (p ∷ ps)
    → split_on b',' (join_commas (p ∷ ps)) ≡ p ∷ ps
unfolding join_commas
split_on-join_commas p [] (h, t) = split_on-plain p h.2
split_on-join_commas p (r ∷ ps) (h, t) =
    split_on-append p (join_commas (r ∷ ps)) h.2 ∙ ap (λ l. p ∷ l) (split_on-join_commas r ps t)

trimmed_parts_same : (ps : List Text) → All IsProtocol ps → trimmed_parts ps ≡ ps
unfolding trimmed_parts
trimmed_parts_same [] h = refl
trimmed_parts_same (p ∷ ps) (h, t) =
    rw (trimmed_parts, h.0, is_visible_full p h.1, trimmed_parts_same ps t) refl

join_commas_full :
    (p : Text) (ps : List Text)
    → is_visible p ≡ true
    → is_empty (trim_space (join_commas (p ∷ ps))) ≡ false
unfolding join_commas
join_commas_full [] ps h = ground arith
join_commas_full (c ∷ p) [] h = trim_space_full c p (ground (arith, h))
join_commas_full (c ∷ p) (r ∷ ps) h =
    trim_space_full c (p ++ (b',' ∷ join_commas (r ∷ ps))) (ground (arith, h))

join_commas_filled :
    (p : Text) (ps : List Text) → is_visible p ≡ true → is_empty (join_commas (p ∷ ps)) ≡ false
unfolding join_commas
join_commas_filled [] ps h = ground arith
join_commas_filled (c ∷ p) [] h = refl
join_commas_filled (c ∷ p) (r ∷ ps) h = refl

-- The list as a link shows it.
abbrev shown_alpn : List Text → Text
shown_alpn [] = []
shown_alpn (p ∷ ps) = join_commas (p ∷ ps)

split_alpn-shown_alpn : (ps : List Text) → All IsProtocol ps → split_alpn (shown_alpn ps) ≡ ps
unfolding split_alpn trim_space trim_left trim_right
split_alpn-shown_alpn [] h = refl
split_alpn-shown_alpn (p ∷ ps) h =
    rw (split_alpn, join_commas_full p ps h.0.1, split_on-join_commas p ps h)
      (trimmed_parts_same (p ∷ ps) h)

-- A list is put as its text.
put_alpn_shown :
    (ps : List Text) (q : Query)
    → All IsProtocol ps
    → put_alpn ps q ≡ put (codes "alpn") (shown_alpn ps) q
unfolding put
put_alpn_shown [] q h = refl
put_alpn_shown (p ∷ ps) q h = rw (put, join_commas_filled p ps h.0.1) refl

-- The parameters that a link can carry.
abbrev pub IsShared : Spec → Type 0
IsShared none_spec = Unit
IsShared (tls_spec s) =
    (trim_space s.server_name ≡ s.server_name)
    × All IsProtocol s.alpn
    × (trim_space s.fingerprint ≡ s.fingerprint)
IsShared (reality_spec s) =
    (trim_space s.server_name ≡ s.server_name)
    × (trim_space s.fingerprint ≡ s.fingerprint)
    × (trim_space s.public_key ≡ s.public_key)
    × (trim_space s.short_id ≡ s.short_id)
    × (trim_space s.spider_x ≡ s.spider_x)

allow_read : (b : Bool) → contains (to_lower (trim_space (if b then codes "1" else []))) truths ≡ b
unfolding to_lower trim_space trim_left trim_right is_space text_beq contains
allow_read true = refl
allow_read false = refl

parse-share_link_tls :
    (s : TlsSpec) → IsShared (tls_spec s) → parse tls (share_link (tls_spec s)) ≡ tls_spec s
unfolding parse share_link text_beq
parse-share_link_tls s (n, ps, f) =
    let allow = if s.allow_insecure then codes "1" else [] in
    rw
      (
        put_alpn_shown s.alpn (put (codes "sni") s.server_name []) ps,
        over (codes "sni") (codes "allowInsecure") allow _ _ refl (
            over (codes "sni") (codes "fp") s.fingerprint _ _ refl (
              over (codes "sni") (codes "alpn") (shown_alpn s.alpn) _ _ refl
                (get-put_same (codes "sni") s.server_name [] (get-nil (codes "sni"))))),
        over (codes "alpn") (codes "allowInsecure") allow _ _ refl (
            over (codes "alpn") (codes "fp") s.fingerprint _ _ refl (
              get-put_same (codes "alpn") (shown_alpn s.alpn) _ (
                over (codes "alpn") (codes "sni") s.server_name _ [] refl
                  (get-nil (codes "alpn"))))),
        over (codes "fp") (codes "allowInsecure") allow _ _ refl (
            get-put_same (codes "fp") s.fingerprint _ (
              over (codes "fp") (codes "alpn") (shown_alpn s.alpn) _ _ refl
                (over (codes "fp") (codes "sni") s.server_name _ [] refl (get-nil (codes "fp"))))),
        get-put_same (codes "allowInsecure") allow _ (
            over (codes "allowInsecure") (codes "fp") s.fingerprint _ _ refl (
              over (codes "allowInsecure") (codes "alpn") (shown_alpn s.alpn) _ _ refl (
                over (codes "allowInsecure") (codes "sni") s.server_name _ [] refl
                  (get-nil (codes "allowInsecure"))))),
        n,
        split_alpn-shown_alpn s.alpn ps,
        f,
        allow_read s.allow_insecure,
      )
      refl

parse-share_link_reality :
    (s : RealitySpec)
    → IsShared (reality_spec s)
    → parse reality (share_link (reality_spec s)) ≡ reality_spec s
unfolding parse share_link text_beq
parse-share_link_reality s (n, f, k, i, x) =
    rw
      (
        over (codes "sni") (codes "spx") s.spider_x _ _ refl (
            over (codes "sni") (codes "sid") s.short_id _ _ refl (
              over (codes "sni") (codes "pbk") s.public_key _ _ refl (
                over (codes "sni") (codes "fp") s.fingerprint _ _ refl
                  (get-put_same (codes "sni") s.server_name [] (get-nil (codes "sni")))))),
        over (codes "fp") (codes "spx") s.spider_x _ _ refl (
            over (codes "fp") (codes "sid") s.short_id _ _ refl (
              over (codes "fp") (codes "pbk") s.public_key _ _ refl (
                get-put_same (codes "fp") s.fingerprint _ (
                  over (codes "fp") (codes "sni") s.server_name _ [] refl
                    (get-nil (codes "fp")))))),
        over (codes "pbk") (codes "spx") s.spider_x _ _ refl (
            over (codes "pbk") (codes "sid") s.short_id _ _ refl (
              get-put_same (codes "pbk") s.public_key _ (
                over (codes "pbk") (codes "fp") s.fingerprint _ _ refl (
                  over (codes "pbk") (codes "sni") s.server_name _ [] refl
                    (get-nil (codes "pbk")))))),
        over (codes "sid") (codes "spx") s.spider_x _ _ refl (
            get-put_same (codes "sid") s.short_id _ (
              over (codes "sid") (codes "pbk") s.public_key _ _ refl (
                over (codes "sid") (codes "fp") s.fingerprint _ _ refl (
                  over (codes "sid") (codes "sni") s.server_name _ [] refl
                    (get-nil (codes "sid")))))),
        get-put_same (codes "spx") s.spider_x _ (
            over (codes "spx") (codes "sid") s.short_id _ _ refl (
              over (codes "spx") (codes "pbk") s.public_key _ _ refl (
                over (codes "spx") (codes "fp") s.fingerprint _ _ refl (
                  over (codes "spx") (codes "sni") s.server_name _ [] refl
                    (get-nil (codes "spx")))))),
        n,
        f,
        k,
        i,
        x,
      )
      refl

-- For every security, ParseURI reads the parameters that ShareLink wrote, where a link can carry
-- them.
pub parse-share_link_security : (s : Spec) → IsShared s → parse (security_of s) (share_link s) ≡ s
unfolding parse
parse-share_link_security none_spec h = refl
parse-share_link_security (tls_spec s) h = parse-share_link_tls s h
parse-share_link_security (reality_spec s) h = parse-share_link_reality s h
