-- ===== src/Login/Bootstrap.antt =====
-- The first password: when Bootstrap changes the settings.
use xray2wg.Base.{◌≤◌, true, Text, text_beq_iff, is_empty, ◌≡◌, arith, Option-cases, ◌⊎◌}
use xray2wg.Domain.Errors.{ok, Result-cases}
use xray2wg.RefreshToken.{Sessions}
use xray2wg.Auth.{Jwt, Pair}
use xray2wg.Login.{Settings, Answers, byte_length, store_password, bootstrap}

-- There was no password, the new one is long enough and confirmed, and its hash is stored.
abbrev pub IsFirst : Answers → Text → Text → Settings → Settings → Type 0
IsFirst a password confirm st st' =
    (is_empty st.admin_password_hash ≡ true)
    × (8 ≤ byte_length password)
    × (password ≡ confirm)
    × (a.hashed ≡ ok st'.admin_password_hash)

-- Nothing is changed and the answer is an error, or the password is stored.
abbrev pub IsDecided : Answers → Text → Text → Settings → Pair × Settings × Sessions → Type 0
IsDecided a password confirm st (pair, st', ss') =
    ((st' ≡ st) × ((p : Text × Text) → pair ≡ ok p → ⊥)) ⊎ IsFirst a password confirm st st'

-- A Bootstrap that changes a setting, or that returns tokens, found no password, got one of at least
-- eight bytes with the same confirmation, and stored its hash; every other Bootstrap changes no
-- setting and returns an error.
pub bootstrap-IsDecided :
    (jwt : Jwt) (a : Answers) (password confirm : Text) (st : Settings) (ss : Sessions)
    → IsDecided a password confirm st (bootstrap jwt a password confirm st ss)
unfolding bootstrap store_password
bootstrap-IsDecided jwt a password confirm st ss = ground (
  arith,
  text_beq_iff password confirm,
  Option-cases a.get_fault,
  Option-cases a.set_fault,
  Option-cases a.first_run_fault,
  Result-cases a.hashed,
)
