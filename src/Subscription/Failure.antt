-- ===== src/Subscription/Failure.antt =====
-- FetchAndUpdate of backend/internal/service/subscription.go where it fails: what it leaves alone, and
-- that no path breaks the promises of the tables.
use xray2wg.Base.{
  true, false, Option, some, List, ◌++◌, Text, ℕ, is_some, is_empty, trim_space, ◌≡◌, refl, arith,
  Bool-cases, Option-cases, inl, inr, ◌⊎◌, if◌then◌else◌, codes,
}
use xray2wg.Domain.Errors.{GoError, sentinel, Sentinel, Result, ok, err, Result-cases, error_text}
use xray2wg.EventLog
use xray2wg.Subscription.State.{State, Subscription, ignored, return, ◌>>◌, ignore, fail}
use xray2wg.Subscription.Repo.{find_sub, get_sub, update_sub, replace_sub}
use xray2wg.Subscription.Decode.{decode_subscription_body}
use xray2wg.Subscription.Service.{
  Outside, Fetched, no_request, no_response, no_body, body, is_manual, take_lines, take_body,
  fetch_and_update, failed_sub, record_failure, write_log,
}
use xray2wg.Subscription.Outcome.{Outcome, Blame, at, after-Outcome, statement-Outcome}
use xray2wg.Subscription.Sound.{IsSound}
use xray2wg.Subscription.Refresh.{find_sub-id, take_lines-Outcome, fetch_and_update-Outcome}

-- The lines that a fetch brings.
abbrev pub lines_of : Outside → Fetched → Result (List Text)
lines_of out (no_request e) = err e
lines_of out (no_response e) = err e
lines_of out (no_body e) = err e
lines_of out (body b) = decode_subscription_body out.raw_std out.std b

-- The state with other subscriptions, another log and other faults to come.
abbrev pub renewed : State → List (Option Text) → List Subscription → EventLog.EventLog → State
renewed s gs ss l = record s { faults = gs; subs = ss; log = l }

module _ {Q : Unit → State → Type 0} {E : State → Type 0} where
  ignored-Outcome :
      (r : Result {0} Unit × State)
      → Outcome (λ u t. Q tt t) (λ t. Q tt t) r
      → Outcome Q E (ignored r)
  ignored-Outcome (ok a, s) h = record { holds = h.holds }
  ignored-Outcome (err e, s) h = record { holds = h.holds }

module _ (F : Type 0) {Q : Unit → State → Type 0} {E : State → Type 0} where
  pub update_sub_any :
      (x : Subscription) (s : State)
      → Blame F s.faults
      → ((gs : List (Option Text))
          → Blame F gs
          → Q tt (record s { faults = gs; subs = replace_sub x s.subs }))
      → ((gs : List (Option Text)) → Blame F gs → E (at s gs))
      → Outcome Q E (update_sub x s)
  unfolding update_sub
  update_sub_any x s b q e =
      statement-Outcome F _ s b (λ gs f. e gs (inr f))
        λ gs c. elim (Bool-cases (is_some (find_sub x.id s.subs))) [
          | inl z ↦ rw (z) (record { holds = q gs c })
          | inr z ↦ rw (z) (record { holds = e gs c })
        ]

-- A failure of a call on `sub` leaves the subscriptions as they are, or writes it with a text.
abbrev pub IsNoted : Subscription → List Subscription → List Subscription → Type 0
IsNoted sub old new = (new ≡ old) ⊎ ((m : Text) × (new ≡ replace_sub (failed_sub m sub) old))

module _ (F : Type 0) {Q : Unit → State → Type 0} {E : State → Type 0} where
  fail_after_update :
      (sub : Subscription) (m : Text) (x : GoError) (s : State)
      → Blame F s.faults
      → ((gs : List (Option Text)) (ss : List Subscription)
          → Blame F gs
          → IsNoted sub s.subs ss
          → E (record s { faults = gs; subs = ss }))
      → Outcome Q E ((ignore (update_sub (failed_sub m sub)) >> fail x) s)
  fail_after_update sub m x s b e =
      let y = failed_sub m sub in
      after-Outcome (ignored (update_sub y s)) (λ u. fail x)
        (ignored-Outcome (update_sub y s) (
          update_sub_any F y s b
            (λ gs c. record { holds = e gs (replace_sub y s.subs) c (inr (m, refl)) })
            λ gs c. record { holds = e gs s.subs c (inl refl) }))

  record_failure-Outcome :
      (out : Outside) (what : Text) (x : GoError) (sub : Subscription) (s : State)
      → Blame F s.faults
      → ((gs : List (Option Text)) (ss : List Subscription) (l : EventLog.EventLog)
          → Blame F gs
          → IsNoted sub s.subs ss
          → E (renewed s gs ss l))
      → Outcome Q E (record_failure out what x sub s)
  unfolding record_failure write_log
  record_failure-Outcome out what x sub s b e =
      fail_after_update sub (error_text x) x
        (record s {
          log =
              EventLog.add out.now (codes "warn")
                (codes "subscription " ++ out.quote sub.name ++ what ++ error_text x) s.log;
        })
        b λ gs ss. e gs ss _

  pub take_body_unserved :
      (out : Outside) (x : Subscription) (sub : ℕ) (f : Fetched) (e : GoError) (s : State)
      → lines_of out f ≡ err e
      → Blame F s.faults
      → ((gs : List (Option Text)) (ss : List Subscription) (l : EventLog.EventLog)
          → Blame F gs
          → IsNoted x s.subs ss
          → E (renewed s gs ss l))
      → Outcome Q E (take_body out x sub f s)
  unfolding take_body
  take_body_unserved out x sub (no_request d) e s h b bad = record {
    holds = bad s.faults s.subs s.log b (inl refl);
  }
  take_body_unserved out x sub (no_response d) e s h b bad =
      record_failure-Outcome out _ d x s b bad
  take_body_unserved out x sub (no_body d) e s h b bad = record {
    holds = bad s.faults s.subs s.log b (inl refl);
  }
  take_body_unserved out x sub (body t) e s h c bad =
      rw (take_body, h) (record_failure-Outcome out _ e x s c bad)

-- A refresh that fetches no vless line of its subscription does not succeed, and leaves the nodes,
-- the interfaces and tunnel_nodes as they are.
pub fetch_and_update_unserved :
    (out : Outside) (id : ℕ) (x : Subscription) (e : GoError) (s : State)
    → find_sub id s.subs ≡ some x
    → is_manual x ≡ false
    → is_empty (trim_space x.url) ≡ false
    → lines_of out (out.fetch x.url) ≡ err e
    → Outcome
        (λ u t. ⊥)
        (λ t. (t.nodes ≡ s.nodes) × (t.interfaces ≡ s.interfaces) × (t.junction ≡ s.junction))
        (fetch_and_update out id s)
fetch_and_update_unserved out id x e s found auto url none_of =
    fetch_and_update-Outcome Unit out id x s found auto url (inr tt) (λ gs u. (refl, refl, refl))
      λ gs c.
        take_body_unserved Unit out x id (out.fetch x.url) e (at s gs) none_of c
          λ hs ss l d k. (refl, refl, refl)

pub served_body :
    (out : Outside) (x : Subscription) (sub : ℕ) (f : Fetched) (ls : List Text) (s : State)
    → lines_of out f ≡ ok ls
    → take_body out x sub f s ≡ take_lines out x sub ls s
unfolding take_body
served_body out x sub (no_request e) ls s h = ground arith
served_body out x sub (no_response e) ls s h = ground arith
served_body out x sub (no_body e) ls s h = ground arith
served_body out x sub (body b) ls s h = rw (take_body, h) refl

Stays : {A : Type 0} → Result A × State → Type 0
Stays r = Outcome (λ a t. IsSound t) IsSound r

take_body-IsSound :
    (out : Outside) (x : Subscription) (sub : ℕ) (f : Fetched) (s : State)
    → is_some (find_sub x.id s.subs) ≡ true
    → IsSound s
    → Stays (take_body out x sub f s)
unfolding Stays
take_body-IsSound out x sub f s found sound = elim (Result-cases (lines_of out f)) [
  | inl (e, h) ↦ take_body_unserved Unit out x sub f e s h (inr tt) λ gs ss l c k. sound
  | inr (ls, h) ↦
      rw (served_body out x sub f ls s h)
        (take_lines-Outcome Unit out x sub ls s sound found (inr tt) (λ t p e u. p) λ gs c p. p)
]

go_on-IsSound :
    (out : Outside) (x : Subscription) (id : ℕ) (s : State)
    → find_sub id s.subs ≡ some x
    → IsSound s
    → Stays (
        (if is_manual x
            then return tt
            else if is_empty (trim_space x.url)
            then fail (sentinel Sentinel.validation)
            else take_body out x id (out.fetch x.url))
          s)
unfolding Stays
go_on-IsSound out x id s found sound = elim (Bool-cases (is_manual x)) [
  | inl z ↦ rw (z) (record { holds = sound })
  | inr z ↦ elim (Bool-cases (is_empty (trim_space x.url))) [
    | inl y ↦ rw (z, y) (record { holds = sound })
    | inr y ↦
        rw (z, y)
          (take_body-IsSound out x id (out.fetch x.url) s
            (rw (find_sub-id id s.subs x found, found) refl) sound)
  ]
]

-- A refresh of a sound store leaves it sound, whether it succeeds or fails and at whatever statement.
pub fetch_and_update-IsSound :
    (out : Outside) (id : ℕ) (s : State)
    → IsSound s
    → Outcome (λ u t. IsSound t) IsSound (fetch_and_update out id s)
unfolding fetch_and_update get_sub Stays
fetch_and_update-IsSound out id s sound = after-Outcome (get_sub id s) _ (
    statement-Outcome Unit _ s (inr tt) (λ gs u. sound)
      λ gs c. elim (Option-cases (find_sub id s.subs)) [
        | inl e ↦ rw (e) (record { holds = sound })
        | inr (x, e) ↦ rw (e) (record { holds = go_on-IsSound out x id (at s gs) e sound })
      ])
