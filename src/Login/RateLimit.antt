-- ===== src/Login/RateLimit.antt =====
-- Guessing: how many wrong passwords one address may try within a minute.
use xray2wg.Base.{
  ℕ, zero, suc, Option-cases, some, ◌+◌, ◌-◌, ◌≤◌, ◌<◌, Bool, true, false, List, [], ◌∷◌, ◌++◌,
  Text, text_eq, text_beq_iff, text_beq, length, keep_if, All, insert, lookup-insert, leb, is_empty,
  if◌then◌else◌, ◌==◌, ◌≡◌, refl, arith, Bool-cases, inl, inr,
}
use xray2wg.Domain.Errors.{sentinel, Sentinel, Result, ok, err, Result-cases}
use xray2wg.RefreshToken.{Sessions}
use xray2wg.Auth.{Jwt, Pair}
use xray2wg.Login.{
  Attempts, minute, attempts_of, is_recent, Request, check_password, check_rate, Logins, Event,
  arrives, proceeds, take_out, finish_login, login_step,
}

-- Calls of Login, their steps in this order.
unfoldable pub serve : (Text → Text → Bool) → Jwt → List Event → Logins → Logins
serve compare jwt [] s = s
serve compare jwt (e ∷ es) s = serve compare jwt es (login_step compare jwt e s)

-- A password was compared with the stored hash and refused.
abbrev pub is_wrong : Pair → Result Text → Bool
is_wrong (err (sentinel Sentinel.invalid_password)) (ok hash) = true
is_wrong _ _ = false

abbrev pub wrong_guesses : Text → List (Request × Pair) → ℕ
wrong_guesses ip [] = 0
wrong_guesses ip ((q, pair) ∷ rest) =
    (if q.client_ip == ip then (if is_wrong pair q.stored_hash then 1 else 0) else 0)
    + wrong_guesses ip rest

-- The request's clock readings lie in the minute that starts at t.
abbrev pub InMinute : ℕ → Request → Type 0
InMinute t q = (q.now < t + minute) × (t ≤ q.failed_at)

-- bcrypt does not accept the request's password for the stored hash.
abbrev pub is_right : (Text → Text → Bool) → Request → Bool
is_right compare q = elim q.stored_hash [ err e ↦ false | ok hash ↦ compare hash q.password ]

-- The calls of an address that have passed the rate limit and have not ended.
abbrev pub in_flight : Text → List Request → ℕ
in_flight ip [] = 0
in_flight ip (q ∷ qs) = (if q.client_ip == ip then 1 else 0) + in_flight ip qs

-- At no time do more than k calls of an address run past the rate limit.
abbrev pub AtMost : (Text → Text → Bool) → Jwt → ℕ → Text → List Event → Logins → Type 0
AtMost compare jwt k ip [] s = Unit
AtMost compare jwt k ip (e ∷ es) s =
    (in_flight ip (login_step compare jwt e s).admitted ≤ k)
    × AtMost compare jwt k ip es (login_step compare jwt e s)

-- A call that reads its clock in the minute that starts at t, with a password that is not right.
abbrev pub IsGuess : (Text → Text → Bool) → ℕ → Request → Type 0
IsGuess compare t q = InMinute t q × (is_right compare q ≡ false)

abbrev pub Guesses : (Text → Text → Bool) → ℕ → Event → Type 0
Guesses compare t (arrives q) = IsGuess compare t q
Guesses compare t (proceeds n) = Unit

-- No call is under way.
abbrev pub idle : Attempts → Sessions → Logins
idle m ss = record { attempts = m; sessions = ss; admitted = []; answered = [] }

-- The attempts of an address since t.
pub since : ℕ → Text → Attempts → ℕ
since t ip m = length (keep_if (λ u. leb t u) (attempts_of ip m))

attempts_of-insert :
    (ip ip' : Text) (ts : List ℕ) (m : Attempts)
    → attempts_of ip' (insert ip ts m) ≡ (if ip == ip' then ts else attempts_of ip' m)
unfolding attempts_of
attempts_of-insert ip ip' ts m = ground (arith, lookup-insert ip ip' ts m)

since-recent :
    (t now : ℕ) (ts : List ℕ)
    → now < t + minute
    → length (keep_if (λ u. leb t u) (keep_if (is_recent now) ts))
      ≡ length (keep_if (λ u. leb t u) ts)
since-recent t now [] h = refl
since-recent t now (u ∷ ts) h = ground (arith, since-recent t now ts h)

length-keep_if : (p : ℕ → Bool) (ts : List ℕ) → length (keep_if p ts) ≤ length ts
length-keep_if p [] = omega arith
length-keep_if p (u ∷ ts) = ground (arith, length-keep_if p ts)

since-snoc :
    (t u : ℕ) (ts : List ℕ)
    → t ≤ u
    → length (keep_if (λ v. leb t v) (ts ++ (u ∷ []))) ≡ suc (length (keep_if (λ v. leb t v) ts))
since-snoc t u [] h = ground arith
since-snoc t u (v ∷ ts) h = ground (arith, since-snoc t u ts h)

-- What a request counts for.
abbrev counted : Text → Request → Pair → ℕ
counted ip q pair = if q.client_ip == ip then (if is_wrong pair q.stored_hash then 1 else 0) else 0

since-insert :
    (t : ℕ) (ip ip' : Text) (ts : List ℕ) (m : Attempts)
    → since t ip' (insert ip ts m)
      ≡ (if ip == ip' then length (keep_if (λ u. leb t u) ts) else since t ip' m)
unfolding since
since-insert t ip ip' ts m = ground (arith, attempts_of-insert ip ip' ts m)

check_password-since :
    (compare : Text → Text → Bool) (jwt : Jwt) (q : Request) (m : Attempts) (ss : Sessions) (t : ℕ)
    (ip : Text)
    → InMinute t q
    → is_right compare q ≡ false
    → let r = check_password compare jwt q m ss in since t ip r.1 ≡ counted ip q r.0 + since t ip m
unfolding check_password since
check_password-since compare jwt q m ss t ip h wrong = elim (Result-cases q.stored_hash) [
  | inl (e, failed) ↦ ground arith
  | inr (hash, read) ↦ ground (
    arith,
    since-snoc t q.failed_at (attempts_of q.client_ip m) h.1,
    text_beq_iff q.client_ip ip,
    since-insert t q.client_ip ip (attempts_of q.client_ip m ++ (q.failed_at ∷ [])) m,
    Bool-cases (is_empty hash),
    Bool-cases (text_beq q.client_ip ip),
  )
]

-- Forgetting the attempts that are a minute old forgets none since t.
since-forget :
    (t now : ℕ) (ip ip' : Text) (m : Attempts)
    → now < t + minute
    → since t ip' (insert ip (keep_if (is_recent now) (attempts_of ip m)) m) ≡ since t ip' m
unfolding since
since-forget t now ip ip' m h = ground (
  arith,
  since-recent t now (attempts_of ip m) h,
  since-insert t ip ip' (keep_if (is_recent now) (attempts_of ip m)) m,
  text_beq_iff ip ip',
)

since-length :
    (t : ℕ) (ip : Text) (m : Attempts) (now : ℕ)
    → now < t + minute
    → since t ip m ≤ length (keep_if (is_recent now) (attempts_of ip m))
unfolding since
since-length t ip m now h = ground (
  arith,
  since-recent t now (attempts_of ip m) h,
  length-keep_if (λ u. leb t u) (keep_if (is_recent now) (attempts_of ip m)),
)

take_out-in_flight :
    (ip : Text) (P : Request → Type 0) (n : ℕ) (qs rest : List Request) (q : Request)
    → All P qs
    → take_out n qs ≡ some (q, rest)
    → P q
      × All P rest
      × (in_flight ip qs ≡ (if q.client_ip == ip then 1 else 0) + in_flight ip rest)
unfolding take_out
take_out-in_flight ip P n [] rest q h e = ground arith
take_out-in_flight ip P zero (p ∷ qs) rest q h e = ground arith
take_out-in_flight ip P (suc n) (p ∷ qs) rest q h e = elim (Option-cases (take_out n qs)) [
  | inl missing ↦ ground arith
  | inr ((r, others), found) ↦ ground (arith, take_out-in_flight ip P n qs others r h.1 found)
]

-- Between any two steps: the wrong guesses that are answered are on record, and those on record with
-- those under way are not more than b.
module _ (compare : Text → Text → Bool) (jwt : Jwt) (t : ℕ) (ip : Text) where
  abbrev Within : ℕ → Logins → Logins → Type 0
  Within b s s' =
      All (IsGuess compare t) s'.admitted
      × (since t ip s'.attempts + in_flight ip s'.admitted ≤ b)
      × (wrong_guesses ip s'.answered + since t ip s.attempts
          ≡ wrong_guesses ip s.answered + since t ip s'.attempts)

  check_rate-since :
      (q : Request) (m : Attempts)
      → InMinute t q
      → (since t ip (check_rate q.client_ip q.now m).1 ≡ since t ip m)
        × ((check_rate q.client_ip q.now m).0 ≡ false
            → (q.client_ip == ip) ≡ true
            → since t ip m < 5)
  unfolding check_rate
  check_rate-since q m h = ground (
    arith,
    text_beq_iff q.client_ip ip,
    since-forget t q.now q.client_ip ip m h.0,
    since-length t ip m q.now h.0,
  )

  finish_login-Within :
      (b : ℕ) (q : Request) (rest : List Request) (s : Logins)
      → IsGuess compare t q
      → All (IsGuess compare t) rest
      → in_flight ip s.admitted ≡ (if q.client_ip == ip then 1 else 0) + in_flight ip rest
      → since t ip s.attempts + in_flight ip s.admitted ≤ b
      → Within b s (finish_login compare jwt q rest s)
  unfolding finish_login
  finish_login-Within b q rest s g gs flight h =
      let r = check_password compare jwt q s.attempts s.sessions in
      let e = check_password-since compare jwt q s.attempts s.sessions t ip g.0 g.1 in
      (gs, ground (arith, e, flight, h, Bool-cases (is_wrong r.0 q.stored_hash)), ground (arith, e))

  login_step-Within :
      (b k : ℕ) (e : Event) (s : Logins)
      → Guesses compare t e
      → All (IsGuess compare t) s.admitted
      → since t ip s.attempts + in_flight ip s.admitted ≤ b
      → 4 + k ≤ b
      → in_flight ip (login_step compare jwt e s).admitted ≤ k
      → Within b s (login_step compare jwt e s)
  unfolding login_step
  login_step-Within b k (arrives q) s g gs h le most =
      let (kept, below) = check_rate-since q s.attempts g.0 in
      elim (Bool-cases (check_rate q.client_ip q.now s.attempts).0) [
        | inl blocked ↦ rw (blocked) (gs, ground (arith, kept, h), ground (arith, kept))
        | inr free ↦
            let few : (if q.client_ip == ip then 1 else 0) + in_flight ip s.admitted ≤ k =
              rw (free) at most in
            rw (free) ((g, gs), ground (arith, kept, below free, h, le, few), ground (arith, kept))
      ]
  login_step-Within b k (proceeds n) s g gs h le most =
      elim (Option-cases (take_out n s.admitted)) [
        | inl missing ↦ rw (missing, login_step) (gs, h, refl)
        | inr ((q, rest), found) ↦
            (let (guess, guesses, flight) =
                take_out-in_flight ip (IsGuess compare t) n s.admitted rest q gs found in
              rw (found, login_step) (finish_login-Within b q rest s guess guesses flight h))
      ]

  serve-Within :
      (b k : ℕ) (es : List Event) (s : Logins)
      → All (Guesses compare t) es
      → All (IsGuess compare t) s.admitted
      → since t ip s.attempts + in_flight ip s.admitted ≤ b
      → 4 + k ≤ b
      → AtMost compare jwt k ip es s
      → Within b s (serve compare jwt es s)
  unfolding serve
  serve-Within b k [] s g gs h le most = (gs, h, refl)
  serve-Within b k (e ∷ es) s g gs h le most =
      let s' = login_step compare jwt e s in
      let (gs', h', w) = login_step-Within b k e s g.0 gs h le most.0 in
      let (gs'', h'', w') = serve-Within b k es s' g.1 gs' h' le most.1 in
      (gs'', h'', omega (arith, w, w'))

  -- From a time when no call of Login is under way, calls run with their critical sections in any
  -- order. Where none carries a password that bcrypt accepts, and at most k calls of one address are
  -- past the rate limit at a time, at most 4 + k wrong passwords of the address are compared or being
  -- compared within a minute, less those on record since it began: five, if they come one at a time.
  -- Calls of other addresses make no difference.
  pub wrong_guesses-serve :
      (k : ℕ) (es : List Event) (m : Attempts) (ss : Sessions)
      → All (Guesses compare t) es
      → AtMost compare jwt k ip es (idle m ss)
      → let s = serve compare jwt es (idle m ss) in
        wrong_guesses ip s.answered + in_flight ip s.admitted ≤ (4 + k) - since t ip m
  wrong_guesses-serve k es m ss g most =
      let (gs, h, w) =
        serve-Within (since t ip m + (4 + k - since t ip m)) k es (idle m ss) g tt (omega arith)
          (omega arith) most in
      omega (arith, h, w)
