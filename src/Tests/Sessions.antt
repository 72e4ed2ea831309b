-- ===== src/Tests/Sessions.antt =====
-- Witnesses: refresh sessions, tokens and the login.
use xray2wg.Base.{
  ℕ, ◌+◌, ◌-◌, ◌≤◌, false, Option, none, some, List, [], ◌∷◌, Text, codes, lookup, insert, text_eq,
  text_beq, ◌==◌, if◌then◌else◌, erase, ◌≡◌, ◌≢◌, refl, arith,
}
use xray2wg.Domain.Errors.{ok, plain}
use xray2wg.RefreshToken.{
  Session, Sessions, StoreError, purge_expired, new_session, rotate, renew, create_session,
}
use xray2wg.RefreshToken.Replay.{
  lookup-rotate, left_by, Call, revoke_call, purge_call, run, rotate_replayed, rotate-purge,
  granted,
}
use xray2wg.Auth.{
  Jwt, access_claims, refresh_claims, refresh_ttl, rotate_refresh_token, issue_tokens, unauthorized,
  issue_pair_for_user, sign_rotated, or_revoke, named_session, sign_token_pair,
}
use xray2wg.Auth.Tokens.{
  rotate_refresh_token_replayed, rotate_refresh_token-Rotated, issue_tokens-rotate_refresh_token,
  Rotated,
}
use xray2wg.Login.{
  Request, Event, arrives, proceeds, login_step, finish_login, take_out, check_rate, check_password,
  attempts_of, Settings, Answers, byte_length, bootstrap,
}
use xray2wg.Login.Bootstrap.{IsDecided, bootstrap-IsDecided}
use xray2wg.Login.RateLimit.{in_flight, wrong_guesses, serve, idle, wrong_guesses-serve, since}
use xray2wg.Tests.Jwt.{codec, write_claims, codec-ReadsBack}

abbrev old : Text
old = codes "a1"

abbrev new : Text
new = codes "b"

abbrev session : Session
session = record { user_id = 1; created_at = 0; expires_at = 100 }

abbrev sessions : Sessions
sessions = (old, session) ∷ []

new_not_old : ok new ≢ ok old
new_not_old e = ground arith

new_is_not_old : new ≢ old
new_is_not_old e = ground arith

abbrev calls : List Call
calls = purge_call 60 ∷ revoke_call new ∷ []

rotate_replayed_example :
    rotate (ok new) 70 old 100 (run calls (rotate (ok new) 50 old 100 sessions).1)
    ≡ ((some StoreError.not_found, codes "", 0), run calls (rotate (ok new) 50 old 100 sessions).1)
unfolding lookup
rotate_replayed_example =
    rotate_replayed (ok new) 50 old 100 sessions calls (ok new) 70 100 (refl, tt) new_not_old
      (tt, (tt, tt))

rotate-purge_example :
    granted (rotate (ok new) 70 old 100 (purge_expired 60 sessions))
    ≡ granted (rotate (ok new) 70 old 100 sessions)
unfolding lookup
rotate-purge_example = rotate-purge (ok new) 60 70 old 100 sessions (refl, tt) (omega arith)

-- A library of JWT that knows one refresh token, and signs every claim with the claim's type.
abbrev token : Text
token = codes "token"

abbrev type_text : Option Text → Text
type_text none = []
type_text (some t) = t

abbrev jwt : Jwt
jwt = record {
  sign = λ c. ok (type_text c.typ);
  parse = λ now t. if t == token then some (refresh_claims 0 old) else none;
}

rotate_refresh_token_replayed_example :
    rotate_refresh_token jwt 70 70
      (ok new)
      token
      (run calls (rotate (ok new) 50 old refresh_ttl sessions).1)
    ≡ (unauthorized, run calls (rotate (ok new) 50 old refresh_ttl sessions).1)
unfolding named_session lookup text_beq
rotate_refresh_token_replayed_example =
    rotate_refresh_token_replayed jwt 50 (ok new) old sessions calls 70 70 (ok new) token
      (refresh_claims 0 old) (refl, tt) new_not_old (tt, (tt, tt)) refl refl

rotate_refresh_token-Rotated_example :
    Rotated jwt 50 60 token sessions
      (codes "access")
      (codes "refresh")
      ((new, new_session 1 50 refresh_ttl) ∷ [])
unfolding rotate_refresh_token named_session sign_rotated rotate renew sign_token_pair or_revoke
    lookup insert erase text_beq
rotate_refresh_token-Rotated_example =
    rotate_refresh_token-Rotated jwt 50 60 (ok new) token sessions
      ((new, new_session 1 50 refresh_ttl) ∷ []) (codes "access") (codes "refresh") refl

-- The pair is issued at 0 and the refresh token of it is exchanged at 50, after two other calls.
abbrev issued : Text
issued = write_claims (refresh_claims 0 old)

abbrev store : Sessions
store = (old, new_session 1 0 refresh_ttl) ∷ []

issue_tokens-rotate_refresh_token_example :
    (rotate_refresh_token codec 50 60 (ok new) issued (run calls store)).0
    ≡ ok (write_claims (access_claims 60 1), write_claims (refresh_claims 60 new))
unfolding issue_tokens issue_pair_for_user create_session sign_token_pair or_revoke insert erase
    text_beq
issue_tokens-rotate_refresh_token_example =
    issue_tokens-rotate_refresh_token codec 0 0 old [] store calls 50 60
      (write_claims (access_claims 0 1)) issued new (write_claims (access_claims 60 1))
      (write_claims (refresh_claims 60 new)) codec-ReadsBack tt refl refl
      (omega arith, (new_is_not_old, tt)) (omega arith) (omega arith) refl

-- A request with a wrong password.
abbrev guess : ℕ → Request
guess n = record {
  client_ip = codes "10.0.0.9";
  password = codes "guess";
  now = n;
  failed_at = n;
  stored_hash = ok (codes "hash");
  issued_at = n;
  signed_at = n;
  drawn = ok new;
}

-- Two calls that are past the rate limit together, with a wrong password.
abbrev two_at_once : List Event
two_at_once = arrives (guess 7) ∷ arrives (guess 9) ∷ proceeds 1 ∷ proceeds 0 ∷ []

wrong_guesses-serve_example :
    let s = serve (λ h p. false) jwt two_at_once (idle [] []) in
    wrong_guesses (codes "10.0.0.9") s.answered + in_flight (codes "10.0.0.9") s.admitted
    ≤ (4 + 2) - since 5 (codes "10.0.0.9") []
unfolding login_step finish_login take_out check_rate check_password attempts_of lookup insert erase
    text_beq
wrong_guesses-serve_example =
    wrong_guesses-serve (λ h p. false) jwt 5 (codes "10.0.0.9") 2 two_at_once [] []
      (((omega arith, omega arith), refl), (((omega arith, omega arith), refl), (tt, (tt, tt))))
      (omega arith, (omega arith, (omega arith, (omega arith, tt))))

-- Six calls that are past the rate limit together have six passwords compared.
abbrev six_at_once : List Event
six_at_once =
    arrives (guess 7)
    ∷ arrives (guess 7)
    ∷ arrives (guess 7)
    ∷ arrives (guess 7)
    ∷ arrives (guess 7)
    ∷ arrives (guess 7)
    ∷ proceeds 0
    ∷ proceeds 0
    ∷ proceeds 0
    ∷ proceeds 0
    ∷ proceeds 0
    ∷ proceeds 0
    ∷ []

six_compared :
    wrong_guesses (codes "10.0.0.9") (serve (λ h p. false) jwt six_at_once (idle [] [])).answered
    ≡ 6
unfolding serve login_step finish_login take_out check_rate check_password attempts_of lookup insert
    erase text_beq
six_compared = refl

lookup-rotate_example :
    lookup old (rotate (ok new) 50 old 100 sessions).1
    ≡ left_by (ok new) 50 old 100 (lookup old sessions) old (lookup old sessions)
lookup-rotate_example = lookup-rotate (ok new) 50 old 100 sessions old

-- A first password of eight letters, where the second setting cannot be written.
abbrev bootstrap_answers : Answers
bootstrap_answers = record {
  get_fault = none;
  set_fault = none;
  first_run_fault = some (plain (codes "db is locked"));
  hashed = ok (codes "hash");
  now = 50;
  signed_at = 60;
  drawn = ok new;
}

abbrev no_settings : Settings
no_settings = record { admin_password_hash = []; first_run = [] }

bootstrap-IsDecided_example :
    IsDecided bootstrap_answers
      (codes "longpass")
      (codes "longpass")
      no_settings
      (bootstrap jwt bootstrap_answers (codes "longpass") (codes "longpass") no_settings [])
bootstrap-IsDecided_example =
    bootstrap-IsDecided jwt bootstrap_answers (codes "longpass") (codes "longpass") no_settings []

-- Eight bytes, four letters.
byte_length_example : byte_length (233 ∷ 233 ∷ 233 ∷ 233 ∷ []) ≡ 8
unfolding byte_length
byte_length_example = refl
