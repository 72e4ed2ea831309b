-- ===== src/Login.antt =====
-- backend/internal/app/auth_public_api.go: the login with its rate limit and the bootstrap. The
-- setting read from the database and bcrypt's answers are arguments. Login takes its lock twice, with
-- bcrypt between: it is two steps, and the steps of several calls come in any order.
pub mod RateLimit
pub mod Bootstrap
use xray2wg.Base.{
  ℕ, zero, suc, ◌+◌, ◌*◌, Bool, true, false, Option, none, some, List, [], ◌∷◌, ◌++◌, Text, codes,
  text_eq, length, keep_if, lookup, insert, ltb, leb, is_empty, if◌then◌else◌, text_beq, not, ◌||◌,
}
use xray2wg.Domain.Errors.{GoError, sentinel, Sentinel, Result, ok, err}
use xray2wg.RefreshToken.{Sessions}
use xray2wg.Auth.{Jwt, Pair, issue_tokens, second}

-- loginAttempts
abbrev pub Attempts : Type 0
Attempts = List (Text × List ℕ)

abbrev pub minute : ℕ
minute = 60 * second

-- `m[k]` of a map to slices: nil when the key is missing.
unfoldable pub attempts_of : Text → Attempts → List ℕ
attempts_of ip m = elim (lookup ip m) [ none ↦ [] | some ts ↦ ts ]

-- `t.After(now.Add(-time.Minute))`
abbrev pub is_recent : ℕ → ℕ → Bool
is_recent now t = ltb now (t + minute)

-- One request: when it reads the clock, what it brings, and what the services answer.
pub record Request : Type 0 where
  pub client_ip : Text
  pub password : Text
  pub now : ℕ
  pub failed_at : ℕ
  pub stored_hash : Result Text
  pub issued_at : ℕ
  pub signed_at : ℕ
  pub drawn : Result Text

-- The first critical section of Login: whether the address is blocked.
unfoldable pub check_rate : Text → ℕ → Attempts → Bool × Attempts
check_rate ip now m =
    let bucket = keep_if (is_recent now) (attempts_of ip m) in
    (leb 5 (length bucket), insert ip bucket m)

-- What Login does after the rate limit; its second critical section is the change of the attempts.
-- The first argument is bcrypt's comparison.
unfoldable pub check_password :
    (Text → Text → Bool) → Jwt → Request → Attempts → Sessions → Pair × Attempts × Sessions
check_password compare jwt q m ss = elim q.stored_hash [
  | err e ↦ (err e, m, ss)
  | ok hash ↦
      if is_empty hash
      then (err (sentinel Sentinel.unauthorized), m, ss)
      else if compare hash q.password
      then (let (pair, ss') = issue_tokens jwt q.issued_at q.signed_at q.drawn ss in
          (pair, insert q.client_ip [] m, ss'))
      else (
        err (sentinel Sentinel.invalid_password),
        insert q.client_ip (attempts_of q.client_ip m ++ (q.failed_at ∷ [])) m,
        ss,
      )
]

-- Calls of Login that run at the same time: those that have passed the rate limit, and the answers.
pub record Logins : Type 0 where
  pub attempts : Attempts
  pub sessions : Sessions
  pub admitted : List Request
  pub answered : List (Request × Pair)

-- A call arrives and looks at the rate limit; the n-th call that has passed it goes on to its end.
pub data Event : Type 0 where
  arrives : Request → Event
  proceeds : ℕ → Event

abbrev kept_back : Request → Option (Request × List Request) → Option (Request × List Request)
kept_back q none = none
kept_back q (some (p, rest)) = some (p, q ∷ rest)

-- The n-th of the calls, and the others.
unfoldable pub take_out : ℕ → List Request → Option (Request × List Request)
take_out n [] = none
take_out zero (q ∷ qs) = some (q, qs)
take_out (suc n) (q ∷ qs) = kept_back q (take_out n qs)

unfoldable pub finish_login : (Text → Text → Bool) → Jwt → Request → List Request → Logins → Logins
finish_login compare jwt q rest s =
    let (pair, m, ss) = check_password compare jwt q s.attempts s.sessions in
    record { attempts = m; sessions = ss; admitted = rest; answered = (q, pair) ∷ s.answered }

-- Login, one critical section after the other.
unfoldable pub login_step : (Text → Text → Bool) → Jwt → Event → Logins → Logins
login_step compare jwt (arrives q) s =
    let (blocked, m) = check_rate q.client_ip q.now s.attempts in
    if blocked
    then record s {
      attempts = m;
      answered = (q, err (sentinel Sentinel.rate_limited)) ∷ s.answered;
    }
    else record s { attempts = m; admitted = q ∷ s.admitted }
login_step compare jwt (proceeds n) s = elim (take_out n s.admitted) [
  | none ↦ s
  | some (q, rest) ↦ finish_login compare jwt q rest s
]

-- The two settings that the program reads here or writes, absent ones empty.
pub record Settings : Type 0 where
  pub admin_password_hash : Text
  pub first_run : Text

-- What the outside does in a Bootstrap: the errors of the settings' Get and of the two Sets,
-- HashPassword's answer, and the clock and the random identifier of IssueTokens.
pub record Answers : Type 0 where
  pub get_fault : Option GoError
  pub set_fault : Option GoError
  pub first_run_fault : Option GoError
  pub hashed : Result Text
  pub now : ℕ
  pub signed_at : ℕ
  pub drawn : Result Text

-- `len` of a string: the bytes of the UTF-8 encoding of its code points.
unfoldable pub byte_length : Text → ℕ
byte_length [] = 0
byte_length (c ∷ t) =
    let n = byte_length t in
    (if ltb c 128 then 1 else if ltb c 2048 then 2 else if ltb c 65536 then 3 else 4) + n

-- The password is stored. The error of the second Set is dropped.
unfoldable pub store_password : Answers → Text → Settings → Option GoError × Settings
store_password a hash st = elim a.set_fault [
  | some e ↦ (some e, st)
  | none ↦
      (let st' = record st { admin_password_hash = hash } in
        elim a.first_run_fault [
          | some e ↦ (none, st')
          | none ↦ (none, record st' { first_run = codes "false" })
        ])
]

-- Bootstrap
unfoldable pub bootstrap :
    Jwt → Answers → Text → Text → Settings → Sessions → Pair × Settings × Sessions
unfolding store_password
bootstrap jwt a password confirm st ss = elim a.get_fault [
  | some e ↦ (err e, st, ss)
  | none ↦
      if not (is_empty st.admin_password_hash)
      then (err (sentinel Sentinel.bootstrap_done), st, ss)
      else if ltb (byte_length password) 8 || not (text_beq password confirm)
      then (err (sentinel Sentinel.validation), st, ss)
      else elim a.hashed [
        | err e ↦ (err e, st, ss)
        | ok hash ↦
            (let (fault, st') = store_password a hash st in
              elim fault [
                | some e ↦ (err e, st', ss)
                | none ↦
                    (let (pair, ss') = issue_tokens jwt a.now a.signed_at a.drawn ss in
                      (pair, st', ss'))
              ])
      ]
]
