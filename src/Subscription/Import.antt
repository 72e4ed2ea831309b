-- ===== src/Subscription/Import.antt =====
-- ImportMinimal of backend/internal/service/subscription.go on what ExportMinimal wrote, possibly of
-- another store.
use xray2wg.Base.{
  true, ℕ, suc, false, Option, none, some, List, [], ◌∷◌, ◌++◌, Text, nat_eq, text_eq,
  if◌then◌else◌, All, is_empty, text_beq, trim_space, ◌≡◌, refl, arith, Bool-cases, Option-cases,
  inl, inr, ◌∙◌, sym, ap, length,
}
use xray2wg.Base.Int.{ℤ, pos, negsuc, leb_ℤ}
use xray2wg.Domain.Errors.{sentinel, Sentinel, Result, ok, err, Result-cases}
use xray2wg.Subscription.State.{State, Subscription, SubscriptionStatus, return, fail}
use xray2wg.Subscription.Repo.{find_sub, get_sub, create_sub, replace_sub, or_interval}
use xray2wg.Subscription.Service.{
  Outside, Fetched, is_manual, take_body, fetch_and_update, failed_sub, logged, write_log, add_sub,
  parse_lines, start_refresh_loop, manual_name,
}
use xray2wg.Subscription.Manual.{Exported, exported, import_minimal}
use xray2wg.Subscription.Outcome.{
  has_fault, Blame-faults, Outcome, Blame, at, after-Outcome, statement-Outcome, weaken,
}
use xray2wg.Subscription.Sound.{IsSound}
use xray2wg.Subscription.Fresh.{append_assoc, append_nil}
use xray2wg.Subscription.Refresh.{find_sub-id, take_lines-Outcome, exchanged-subs, refreshed_sub}
use xray2wg.Subscription.Failure.{IsNoted, lines_of, take_body_unserved, served_body}

-- What an export shows of a row.
abbrev IsAlike : Subscription → Subscription → Type 0
IsAlike x y =
    (y.id ≡ x.id) × (y.name ≡ x.name) × (y.url ≡ x.url) × (y.refresh_interval ≡ x.refresh_interval)

replace_sub-exported :
    (id : ℕ) (x y : Subscription) (ss : List Subscription)
    → find_sub id ss ≡ some x
    → IsAlike x y
    → exported (replace_sub y ss) ≡ exported ss
unfolding find_sub replace_sub exported
replace_sub-exported id x y [] h a = refl
replace_sub-exported id x y (s ∷ ss) h a =
    ground
      (arith, find_sub-id id (s ∷ ss) x h, replace_sub-exported id x y ss, Bool-cases (is_manual s))

module _ (F : Type 0) (xs : List Exported) where
  Keeps : State → Type 0
  Keeps t = IsSound t × Blame F t.faults × (exported t.subs ≡ xs)

  take_body-Keeps :
      (out : Outside) (x : Subscription) (id : ℕ) (f : Fetched) (s : State)
      → find_sub id s.subs ≡ some x
      → Keeps s
      → Outcome (λ u t. Keeps t) Keeps (take_body out x id f s)
  unfolding Keeps
  take_body-Keeps out x id f s found (sound, b, same) = elim (Result-cases (lines_of out f)) [
    | inl (e, h) ↦ take_body_unserved F out x id f e s h b λ gs ss l c k. (sound, c, noted ss k)
    | inr (ls, h) ↦ rw (served_body out x id f ls s h) (
        take_lines-Outcome F out x id ls s sound (rw (find_sub-id id s.subs x found, found) refl) b
          (λ t p e g. (p, inr g, ap exported e ∙ same))
          λ gs c p. (
            p,
            c,
            rw (exchanged-subs id (parse_lines out id ls) s)
                (rewritten (length (parse_lines out id ls))),
          ))
  ]
    where
      rewritten : (count : ℕ) → exported (replace_sub (refreshed_sub out count x) s.subs) ≡ xs
      rewritten count =
          replace_sub-exported id x (refreshed_sub out count x) s.subs found
            (refl, refl, refl, refl)
          ∙ same

      noted : (ss : List Subscription) → IsNoted x s.subs ss → exported ss ≡ xs
      noted ss (inl e) = ap exported e ∙ same
      noted ss (inr (m, e)) =
          ap exported e
          ∙ replace_sub-exported id x (failed_sub m x) s.subs found (refl, refl, refl, refl)
          ∙ same

  go_on-Keeps :
      (out : Outside) (x : Subscription) (id : ℕ) (s : State)
      → find_sub id s.subs ≡ some x
      → Keeps s
      → Outcome
          (λ u t. Keeps t)
          Keeps
          ((if is_manual x
              then return tt
              else if is_empty (trim_space x.url)
              then fail (sentinel Sentinel.validation)
              else take_body out x id (out.fetch x.url))
            s)
  go_on-Keeps out x id s found kept = elim (Bool-cases (is_manual x)) [
    | inl z ↦ rw (z) (record { holds = kept })
    | inr z ↦ elim (Bool-cases (is_empty (trim_space x.url))) [
      | inl y ↦ rw (z, y) (record { holds = kept })
      | inr y ↦ rw (z, y) (take_body-Keeps out x id (out.fetch x.url) s found kept)
    ]
  ]

  fetch_and_update-Keeps :
      (out : Outside) (id : ℕ) (s : State)
      → Keeps s
      → Outcome (λ u t. Keeps t) Keeps (fetch_and_update out id s)
  unfolding fetch_and_update get_sub Keeps
  fetch_and_update-Keeps out id s (sound, b, same) = after-Outcome (get_sub id s) _ (
      statement-Outcome F _ s b (λ gs f. (sound, inr f, same))
        λ gs c. elim (Option-cases (find_sub id s.subs)) [
          | inl e ↦ rw (e) (record { holds = (sound, c, same) })
          | inr (x, e) ↦
              rw (e) (record { holds = go_on-Keeps out x id (at s gs) e (sound, c, same) })
        ])

  logged-Keeps :
      (out : Outside) (name : Text) (r : Result {0} Unit × State)
      → Outcome (λ u t. Keeps t) Keeps r
      → Outcome (λ u t. Keeps t) (λ t. F) (logged out name r)
  unfolding Keeps write_log
  logged-Keeps out name (ok a, s) h = record { holds = h.holds }
  logged-Keeps out name (err e, s) h = record { holds = h.holds }

abbrev pub Importable : Exported → Type 0
Importable x = (text_beq x.name manual_name ≡ false) × (leb_ℤ x.refresh_interval (pos 0) ≡ false)

or_interval_positive : (z : ℤ) → leb_ℤ z (pos 0) ≡ false → or_interval z ≡ z
or_interval_positive (pos ℕ.zero) h = ground arith
or_interval_positive (pos (suc n)) h = refl
or_interval_positive (negsuc n) h = refl

exported-append : (xs ys : List Subscription) → exported (xs ++ ys) ≡ exported xs ++ exported ys
unfolding exported
exported-append [] ys = refl
exported-append (x ∷ xs) ys = ground (arith, exported-append xs ys, Bool-cases (is_manual x))

-- The row that Add creates.
abbrev created : ℕ → Exported → Subscription
created id x = record {
  id = id;
  name = x.name;
  url = x.url;
  refresh_interval = or_interval x.refresh_interval;
  last_fetched_at = none;
  node_count = 0;
  status = SubscriptionStatus.inactive;
  error_message = [];
}

created-exported : (id : ℕ) (x : Exported) → Importable x → exported (created id x ∷ []) ≡ x ∷ []
unfolding exported
created-exported id x (n, i) = rw (n, or_interval_positive x.refresh_interval i) refl

module _ (F : Type 0) (out : Outside) where
  add_sub-Keeps :
      (base : List Exported) (x : Exported) (s : State)
      → Importable x
      → Keeps F base s
      → Outcome
          (λ id t. Keeps F (base ++ (x ∷ [])) t)
          (λ t. F)
          (add_sub out x.name x.url x.refresh_interval s)
  unfolding add_sub create_sub start_refresh_loop Keeps
  add_sub-Keeps base x s ok_x (sound, b, same) = rw (ok_x.1) (
      after-Outcome (create_sub x.name x.url x.refresh_interval s) _ (
        statement-Outcome F _ s b (λ gs f. f)
          λ gs c. record {
            holds =
                after-Outcome (logged out x.name (fetch_and_update out s.next_sub (with_row gs))) _
                  (weaken _ (λ u t k. record { holds = k }) (λ t f. f)
                    (logged-Keeps F (base ++ (x ∷ [])) out x.name
                      (fetch_and_update out s.next_sub (with_row gs))
                      (fetch_and_update-Keeps F (base ++ (x ∷ [])) out s.next_sub (with_row gs)
                        (sound, c, more))));
          }))
    where
      with_row : List (Option Text) → State
      with_row gs = record s {
        faults = gs;
        subs = s.subs ++ (created s.next_sub x ∷ []);
        next_sub = suc s.next_sub;
      }

      more : exported (s.subs ++ (created s.next_sub x ∷ [])) ≡ base ++ (x ∷ [])
      more =
          rw
            (
              exported-append s.subs (created s.next_sub x ∷ []),
              same,
              created-exported s.next_sub x ok_x,
            )
            refl

  import_minimal-Keeps :
      (xs base : List Exported) (s : State)
      → All Importable xs
      → Keeps F base s
      → Outcome (λ u t. Keeps F (base ++ xs) t) (λ t. F) (import_minimal out xs s)
  unfolding import_minimal
  import_minimal-Keeps [] base s h k = rw (append_nil base) (record { holds = k })
  import_minimal-Keeps (x ∷ xs) base s h k =
      after-Outcome (add_sub out x.name x.url x.refresh_interval s) (λ id. import_minimal out xs)
        (weaken _
          (λ id t k'.
            rw (sym (append_assoc base (x ∷ []) xs))
              (import_minimal-Keeps xs (base ++ (x ∷ [])) t h.1 k'))
          (λ t f. f) (add_sub-Keeps base x s h.0 k))

exported-Importable :
    (ss : List Subscription)
    → All (λ x. leb_ℤ x.refresh_interval (pos 0) ≡ false) ss
    → All Importable (exported ss)
unfolding exported
exported-Importable [] h = tt
exported-Importable (x ∷ ss) h = elim (Bool-cases (is_manual x)) [
  | inl z ↦ rw (exported, z) (exported-Importable ss h.1)
  | inr z ↦ rw (exported, z) ((z, h.0), exported-Importable ss h.1)
]

-- The import into a sound store of what was exported of subscriptions with positive intervals either
-- succeeds, whatever the fetches bring, and an export then shows the subscriptions that the store
-- showed before and after them, in their order, those imported; or a statement of the database
-- failed.
pub exported-import_minimal :
    (out : Outside) (ss : List Subscription) (s : State)
    → All (λ x. leb_ℤ x.refresh_interval (pos 0) ≡ false) ss
    → IsSound s
    → Outcome
        (λ u t. exported t.subs ≡ exported s.subs ++ exported ss)
        (λ t. has_fault s.faults ≡ true)
        (import_minimal out (exported ss) s)
unfolding Keeps
exported-import_minimal out ss s timed sound =
    weaken _ (λ u t k. k.2) (λ t f. f)
      (import_minimal-Keeps (has_fault s.faults ≡ true) out (exported ss) (exported s.subs) s
        (exported-Importable ss timed) (sound, Blame-faults s.faults, refl))
