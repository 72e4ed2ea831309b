-- ===== src/Auth/Tokens.antt =====
-- The session behind a refresh token: it is used once, and failures add none.
use xray2wg.Base.{
  ℕ, ◌≤◌, ◌<◌, ◌+◌, ◌*◌, ◌/◌, false, Option, none, some, List, Text, ◌≡◌, ◌≢◌, refl, arith, lookup,
  insert, erase, lookup-insert, text_eq, Option-cases, inl, inr, Distinct, insert-Distinct, sym,
  beq_refl, is_empty, codes,
}
use xray2wg.Domain.Errors.{Result, ok, err, Result-cases}
use xray2wg.RefreshToken.{Session, Sessions, StoreError, is_expired, new_session, rotate}
use xray2wg.RefreshToken.Replay.{rotate_replayed, run, AllAvoid, Call}
use xray2wg.RefreshToken.Spared.{AllSpare, run_spared}
use xray2wg.RefreshToken.Outcome.{rotate-ok, rotate-live, create_session-ok}
use xray2wg.Auth.{
  Claims, Jwt, access_claims, refresh_claims, Pair, sign_token_pair, or_revoke, issue_pair_for_user,
  issue_tokens, appliance_user, unauthorized, store_error, named_session, sign_rotated,
  rotate_refresh_token, refresh_ttl, second,
}

-- A token for session `old` that the store refuses is refused as unauthorized.
refused_unauthorized :
    (jwt : Jwt) (now at : ℕ) (drawn : Result Text) (token : Text) (ss : Sessions) (c : Claims)
    (old : Text)
    → jwt.parse now token ≡ some c
    → named_session c ≡ some old
    → rotate drawn now old refresh_ttl ss ≡ ((some StoreError.not_found, codes "", 0), ss)
    → rotate_refresh_token jwt now at drawn token ss ≡ (unauthorized, ss)
unfolding rotate_refresh_token sign_rotated store_error
refused_unauthorized jwt now at drawn token ss c old p n r =
    rw (p, rotate_refresh_token, n, r, sign_rotated) refl

-- Once the store has been asked to rotate session `old`, with whatever outcome, every token that
-- names this session is refused with ErrUnauthorized and changes no session, after any further
-- calls on the store, provided that the store had one entry for a key and that the random generator
-- never hands out the identifier again.
pub rotate_refresh_token_replayed :
    (jwt : Jwt) (t0 : ℕ) (r0 : Result Text) (old : Text) (ss : Sessions) (cs : List Call)
    (now at : ℕ) (drawn : Result Text) (token : Text) (c : Claims)
    → Distinct ss
    → r0 ≢ ok old
    → AllAvoid old cs
    → jwt.parse now token ≡ some c
    → named_session c ≡ some old
    → let ss' = run cs (rotate r0 t0 old refresh_ttl ss).1 in
      rotate_refresh_token jwt now at drawn token ss' ≡ (unauthorized, ss')
rotate_refresh_token_replayed jwt t0 r0 old ss cs now at drawn token c d ne a p n =
    refused_unauthorized jwt now at drawn token _ c old p n
      (rotate_replayed r0 t0 old refresh_ttl ss cs drawn now refresh_ttl d ne a)

-- The pair that is handed out is signed for the user of the session that the token names.
abbrev pub Rotated : Jwt → ℕ → ℕ → Text → Sessions → Text → Text → Sessions → Type 0
Rotated jwt now at token ss access refresh ss' =
    (c : Claims) × (old : Text) × (s : Session) × (new : Text) × (jwt.parse now token ≡ some c)
    × (named_session c ≡ some old)
    × (lookup old ss ≡ some s)
    × (is_expired now s ≡ false)
    × (jwt.sign (access_claims at s.user_id) ≡ ok access)
    × (jwt.sign (refresh_claims at new) ≡ ok refresh)
    × (lookup new ss' ≡ some (new_session s.user_id now refresh_ttl))

sign_token_pair-ok :
    (jwt : Jwt) (at user : ℕ) (jti access refresh : Text)
    → sign_token_pair jwt at user jti ≡ ok (access, refresh)
    → (jwt.sign (access_claims at user) ≡ ok access)
      × (jwt.sign (refresh_claims at jti) ≡ ok refresh)
unfolding sign_token_pair
sign_token_pair-ok jwt at user jti access refresh h = ground (
  arith,
  Result-cases (jwt.sign (access_claims at user)),
  Result-cases (jwt.sign (refresh_claims at jti)),
)

or_revoke-ok :
    (jti : Text) (p : Pair) (q : Text × Text) (ss ss' : Sessions)
    → or_revoke jti p ss ≡ (ok q, ss')
    → (p ≡ ok q) × (ss ≡ ss')
unfolding or_revoke
or_revoke-ok jti (ok p) q ss ss' h = ground arith
or_revoke-ok jti (err e) q ss ss' h = ground arith

sign_rotated-ok :
    (jwt : Jwt) (at : ℕ) (r : (Option StoreError × Text × ℕ) × Sessions) (ss' : Sessions)
    (q : Text × Text)
    → sign_rotated jwt at r ≡ (ok q, ss')
    → (r ≡ ((none, r.0.1, r.0.2), ss')) × (sign_token_pair jwt at r.0.2 r.0.1 ≡ ok q)
unfolding sign_rotated
sign_rotated-ok jwt at ((some e, new, user), ss) ss' q h = ground arith
sign_rotated-ok jwt at ((none, new, user), ss) ss' q h =
    ground (arith, or_revoke-ok new (sign_token_pair jwt at user new) q ss ss' h)

sign_rotated-Rotated :
    (jwt : Jwt) (now at : ℕ) (drawn : Result Text) (token : Text) (ss ss' : Sessions)
    (access refresh : Text) (c : Claims) (old : Text)
    → jwt.parse now token ≡ some c
    → named_session c ≡ some old
    → sign_rotated jwt at (rotate drawn now old refresh_ttl ss) ≡ (ok (access, refresh), ss')
    → Rotated jwt now at token ss access refresh ss'
sign_rotated-Rotated jwt now at drawn token ss ss' access refresh c old p n h =
    let r = rotate drawn now old refresh_ttl ss in
    let (r_ok, signed) = sign_rotated-ok jwt at r ss' (access, refresh) h in
    let (s, moved) = rotate-ok drawn now old refresh_ttl ss ss' _ _ r_ok in
    let (found, live, user, stored) = moved in
    let (access_ok, refresh_ok) = sign_token_pair-ok jwt at r.0.2 r.0.1 access refresh signed in
    (
      c,
      old,
      s,
      r.0.1,
      p,
      n,
      found,
      live,
      rw (sym user) access_ok,
      refresh_ok,
      rw
          (
            stored,
            lookup-insert r.0.1 r.0.1 (new_session r.0.2 now refresh_ttl) (erase old ss),
            beq_refl r.0.1,
            user,
          )
          refl,
    )

-- A refresh that succeeds was made with a token that the JWT library accepts, of type "refresh",
-- for a session that the store holds and that has not expired; both new tokens are signed for that
-- session's user and the new session, which is in the store with a full term.
pub rotate_refresh_token-Rotated :
    (jwt : Jwt) (now at : ℕ) (drawn : Result Text) (token : Text) (ss ss' : Sessions)
    (access refresh : Text)
    → rotate_refresh_token jwt now at drawn token ss ≡ (ok (access, refresh), ss')
    → Rotated jwt now at token ss access refresh ss'
unfolding rotate_refresh_token
rotate_refresh_token-Rotated jwt now at drawn token ss ss' access refresh h =
    elim (Option-cases (jwt.parse now token)) [
      | inl p ↦ ground arith
      | inr (c, p) ↦ elim (Option-cases (named_session c)) [
        | inl n ↦ ground arith
        | inr (old, n) ↦
            sign_rotated-Rotated jwt now at drawn token ss ss' access refresh c old p n
              (ground arith)
      ]
    ]

issue_tokens-ok :
    (jwt : Jwt) (now at : ℕ) (jti : Text) (ss ss' : Sessions) (p : Text × Text)
    → issue_tokens jwt now at (ok jti) ss ≡ (ok p, ss')
    → (sign_token_pair jwt at appliance_user jti ≡ ok p)
      × (insert jti (new_session appliance_user now refresh_ttl) ss ≡ ss')
unfolding issue_tokens issue_pair_for_user
issue_tokens-ok jwt now at jti ss ss' p h =
    let s = new_session appliance_user now refresh_ttl in
    let created = create_session-ok jti now appliance_user refresh_ttl ss in
    or_revoke-ok jti (sign_token_pair jwt at appliance_user jti) p (insert jti s ss) ss'
      (rw (created, issue_pair_for_user, created) at h)

-- The session that is issued is the store's one for its identifier, after calls that spare it.
issued_session :
    (jwt : Jwt) (now at : ℕ) (jti : Text) (ss ss' : Sessions) (p : Text × Text) (cs : List Call)
    → Distinct ss
    → issue_tokens jwt now at (ok jti) ss ≡ (ok p, ss')
    → AllSpare jti (new_session appliance_user now refresh_ttl) cs
    → lookup jti (run cs ss') ≡ some (new_session appliance_user now refresh_ttl)
issued_session jwt now at jti ss ss' p cs d h spared =
    let s = new_session appliance_user now refresh_ttl in
    let stored = (issue_tokens-ok jwt now at jti ss ss' p h).1 in
    run_spared jti s cs ss' (rw (sym stored) (insert-Distinct jti s ss d)) spared
      (rw (sym stored, lookup-insert jti jti s ss, beq_refl jti) refl)

named_session-refresh_claims :
    (at : ℕ) (jti : Text) → is_empty jti ≡ false → named_session (refresh_claims at jti) ≡ some jti
unfolding named_session
named_session-refresh_claims at jti ne = rw (beq_refl (codes "refresh"), ne) refl

-- The JWT library accepts what it has signed and returns the claims, before the second `exp`.
abbrev pub ReadsBack : Jwt → Type 0
ReadsBack jwt =
    (c : Claims) (token : Text) (now : ℕ)
    → jwt.sign c ≡ ok token
    → now < c.exp * second
    → jwt.parse now token ≡ some c

-- A pair that was issued can be exchanged: after any further calls on the store that do not name its
-- session jti (not empty, and not drawn again) and clean up no later than its end, the refresh token
-- of the pair gets a new pair, up to the end of the session and before the second in which the
-- token's term ends (`exp` is rounded down). The store had one entry for a key, the JWT library reads
-- back what it signs, and the random generator and the signing of the new pair work.
pub issue_tokens-rotate_refresh_token :
    (jwt : Jwt) (t0 at0 : ℕ) (jti : Text) (ss ss' : Sessions) (cs : List Call) (now at : ℕ)
    (old_access token new access refresh : Text)
    → ReadsBack jwt
    → Distinct ss
    → issue_tokens jwt t0 at0 (ok jti) ss ≡ (ok (old_access, token), ss')
    → is_empty jti ≡ false
    → AllSpare jti (new_session appliance_user t0 refresh_ttl) cs
    → now ≤ t0 + refresh_ttl
    → now < (at0 + refresh_ttl) / second * second
    → sign_token_pair jwt at appliance_user new ≡ ok (access, refresh)
    → (rotate_refresh_token jwt now at (ok new) token (run cs ss')).0 ≡ ok (access, refresh)
unfolding rotate_refresh_token sign_rotated or_revoke
issue_tokens-rotate_refresh_token jwt t0 at0 jti ss ss' cs now at old_access token new access
      refresh reads d h ne spared le lt sg =
    let s = new_session appliance_user t0 refresh_ttl in
    let signed = (issue_tokens-ok jwt t0 at0 jti ss ss' (old_access, token) h).0 in
    let refresh_ok = (sign_token_pair-ok jwt at0 appliance_user jti old_access token signed).1 in
    rw
      (
        reads (refresh_claims at0 jti) token now refresh_ok lt,
        rotate_refresh_token,
        named_session-refresh_claims at0 jti ne,
        rotate-live new now jti refresh_ttl (run cs ss') s
            (issued_session jwt t0 at0 jti ss ss' (old_access, token) cs d h spared) (ground arith),
        sign_rotated,
        sg,
        or_revoke,
      )
      refl
