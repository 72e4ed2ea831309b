-- ===== src/Subscription/State.antt =====
-- backend/internal/domain/subscription.go with the tables that the subscription service reads and
-- writes, and a call of the service as a function on them. Tables hold their rows in the order of
-- their ids, which the database counts up. `faults` says of each coming statement whether the
-- database fails at it and with what text; past its end none fails.
use xray2wg.Base.{ℕ, Option, none, some, List, [], ◌∷◌, Text}
use xray2wg.Base.Int.{ℤ}
use xray2wg.Domain.{VlessNode}
use xray2wg.Domain.Errors.{GoError, plain, Result, ok, err}
use xray2wg.EventLog.{EventLog}
use xray2wg.Tunnel.Repo.{Rows}

pub data SubscriptionStatus : Type 0 where
  inactive active error : SubscriptionStatus

pub record Subscription : Type 0 where
  pub id : ℕ
  pub name : Text
  pub url : Text
  pub refresh_interval : ℤ
  pub last_fetched_at : Option ℕ
  pub node_count : ℕ
  pub status : SubscriptionStatus
  pub error_message : Text

pub record ActiveNodeBinding : Type 0 where
  pub interface_id : ℕ
  pub raw_uri : Text

pub record TunnelNodeBinding : Type 0 where
  pub interface_id : ℕ
  pub raw_uri : Text
  pub position : ℕ

-- A row of tunnel_nodes.
pub record TunnelNode : Type 0 where
  pub id : ℕ
  pub interface_id : ℕ
  pub node_id : ℕ
  pub position : ℕ

pub record State : Type 0 where
  pub faults : List (Option Text)
  pub subs : List Subscription
  pub next_sub : ℕ
  pub nodes : List VlessNode
  pub next_node : ℕ
  pub interfaces : Rows
  pub junction : List TunnelNode
  pub next_junction : ℕ
  pub log : EventLog
  -- the subscriptions with a refresh loop, the keys of `stopped`
  pub loops : List ℕ

abbrev pub Op : Type 0 → Type 0
Op A = State → Result A × State

abbrev pub after : {A B : Type 0} → Result A × State → (A → Op B) → Result B × State
after (ok a, s) f = f a s
after (err e, s) f = (err e, s)

infixl 5 ◌>>=◌ ◌>>◌
abbrev pub ◌>>=◌ : {A B : Type 0} → Op A → (A → Op B) → Op B
(m >>= f) s = after (m s) f

abbrev pub ◌>>◌ : {A B : Type 0} → Op A → Op B → Op B
(m >> n) s = after (m s) λ a. n

abbrev pub return : {A : Type 0} → A → Op A
return a s = (ok a, s)

abbrev pub fail : {A : Type 0} → GoError → Op A
fail e s = (err e, s)

-- One statement of the database: it fails as foretold, or runs.
abbrev pub run_or_fault : {A : Type 0} → List (Option Text) → Op A → Op A
run_or_fault [] act s = act s
run_or_fault (none ∷ fs) act s = act (record s { faults = fs })
run_or_fault (some m ∷ fs) act s = (err (plain m), record s { faults = fs })

unfoldable pub statement : {A : Type 0} → Op A → Op A
statement act s = run_or_fault s.faults act s

-- `_ = call`
abbrev pub ignored : {A : Type 0} → Result A × State → Result {0} Unit × State
ignored (r, s) = (ok tt, s)

abbrev pub ignore : {A : Type 0} → Op A → Op Unit
ignore m s = ignored (m s)

-- What is left of a failed transaction on `s`: its statements count, its changes do not.
abbrev pub rollback : {A : Type 0} → State → Result A × State → Result A × State
rollback s (ok a, s') = (ok a, s')
rollback s (err e, s') = (err e, record s { faults = s'.faults })

-- db.Transaction: the body and the commit.
unfoldable pub transaction : {A : Type 0} → Op A → Op A
unfolding statement
transaction m s = rollback s ((do a ← m; statement (return tt); return a) s)
