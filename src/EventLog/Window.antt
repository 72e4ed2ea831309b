-- ===== src/EventLog/Window.antt =====
-- The log holds the last events, newest first.
use xray2wg.Base.{
  ℕ, zero, suc, ◌-◌, ◌≤◌, List, [], ◌∷◌, ◌++◌, Text, length, length-append, length-drop, drop, take,
  ltb, if◌then◌else◌, ◌≡◌, refl, arith, sym, ap, ◌⊎◌, inl, inr, ◌<◌,
}
use xray2wg.EventLog.{EventEntry, EventLog, trim_to, add_source, reverse, list, summary_events}

length-reverse : (xs : List EventEntry) → length (reverse xs) ≡ length xs
unfolding reverse
length-reverse [] = refl
length-reverse (x ∷ xs) = omega (arith, length-append (reverse xs) (x ∷ []), length-reverse xs)

reverse-snoc : (xs : List EventEntry) (x : EventEntry) → reverse (xs ++ (x ∷ [])) ≡ x ∷ reverse xs
unfolding reverse
reverse-snoc [] x = refl
reverse-snoc (y ∷ xs) x = rw (reverse-snoc xs x) refl

reverse-reverse : (xs : List EventEntry) → reverse (reverse xs) ≡ xs
unfolding reverse
reverse-reverse [] = refl
reverse-reverse (x ∷ xs) = rw (reverse-snoc (reverse xs) x, reverse-reverse xs) refl

take-append : (n : ℕ) (xs ys : List EventEntry) → n ≤ length xs → take n (xs ++ ys) ≡ take n xs
take-append zero xs ys h = refl
take-append (suc n) [] ys h = ground arith
take-append (suc n) (x ∷ xs) ys h = ap (λ zs. x ∷ zs) (take-append n xs ys (omega arith))

take-all : (n : ℕ) (xs : List EventEntry) → length xs ≤ n → take n xs ≡ xs
take-all zero [] h = refl
take-all zero (x ∷ xs) h = ground arith
take-all (suc n) [] h = refl
take-all (suc n) (x ∷ xs) h = ap (λ zs. x ∷ zs) (take-all n xs (omega arith))

take-take : (n m : ℕ) (xs : List EventEntry) → n ≤ m → take n (take m xs) ≡ take n xs
take-take zero m xs h = refl
take-take (suc n) zero xs h = ground arith
take-take (suc n) (suc m) [] h = refl
take-take (suc n) (suc m) (x ∷ xs) h = ap (λ zs. x ∷ zs) (take-take n m xs (omega arith))

take-append-take :
    (n m : ℕ) (ys zs : List EventEntry) → n ≤ m → take n (ys ++ take m zs) ≡ take n (ys ++ zs)
take-append-take n m [] zs h = take-take n m zs h
take-append-take zero m (y ∷ ys) zs h = refl
take-append-take (suc n) m (y ∷ ys) zs h =
    ap (λ xs. y ∷ xs) (take-append-take n m ys zs (omega arith))

drop-cons :
    (n : ℕ) (x : EventEntry) (xs : List EventEntry)
    → n ≤ length xs
    → drop (length (x ∷ xs) - n) (x ∷ xs) ≡ drop (length xs - n) xs
drop-cons n x xs h = by_suc (length xs - n) (length (x ∷ xs) - n) (omega arith)
  where
    by_suc : (k m : ℕ) → m ≡ suc k → drop m (x ∷ xs) ≡ drop k xs
    by_suc k m e = rw (e) refl

drop-zero : (m : ℕ) (xs : List EventEntry) → m ≡ 0 → drop m xs ≡ xs
drop-zero m xs e = rw (e) refl

reverse-drop :
    (n : ℕ) (xs : List EventEntry) → reverse (drop (length xs - n) xs) ≡ take n (reverse xs)
unfolding reverse
reverse-drop n [] = rw (drop-zero (0 - n) [] (omega arith), take-all n [] (omega arith)) refl
reverse-drop n (x ∷ xs) = elim (le_cases n (length xs)) [
  | inl le ↦
      rw (drop-cons n x xs le, take-append n (reverse xs) (x ∷ []) (rw (length-reverse xs) le))
        (reverse-drop n xs)
  | inr gt ↦
      rw
        (
          drop-zero (length (x ∷ xs) - n) (x ∷ xs) (omega arith),
          take-all n (reverse (x ∷ xs)) (rw (length-reverse (x ∷ xs)) gt),
        )
        refl
]
  where
    le_cases : (a b : ℕ) → (a ≤ b) ⊎ (b < a)
    le_cases a b = omega arith

reverse-trim_to : (n : ℕ) (xs : List EventEntry) → reverse (trim_to n xs) ≡ take n (reverse xs)
unfolding trim_to
reverse-trim_to n xs = ground (arith, reverse-drop n xs, take-all n (reverse xs), length-reverse xs)

-- A call of AddSource.
abbrev pub Added : Type 0
Added = ℕ × Text × Text × Text

abbrev pub entry_of : Added → EventEntry
entry_of (now, level, source, msg) = record { ts = now; level = level; message = msg }

abbrev pub add_all : List Added → EventLog → EventLog
add_all [] log = log
add_all ((now, level, source, msg) ∷ rest) log = add_all rest (add_source now level source msg log)

abbrev pub entries : List Added → List EventEntry
entries [] = []
entries (a ∷ rest) = entry_of a ∷ entries rest

list-add_source :
    (a : Added) (log : EventLog)
    → list (add_source a.0 a.1 a.2 a.3 log) ≡ take log.max (entry_of a ∷ list log)
unfolding list add_source
list-add_source a log =
    rw
      (
        reverse-trim_to log.max (log.events ++ (entry_of a ∷ [])),
        reverse-snoc log.events (entry_of a),
      )
      refl

max-add_source : (a : Added) (log : EventLog) → (add_source a.0 a.1 a.2 a.3 log).max ≡ log.max
unfolding add_source
max-add_source a log = refl

length-add_source :
    (a : Added) (log : EventLog)
    → length (add_source a.0 a.1 a.2 a.3 log).events ≤ (add_source a.0 a.1 a.2 a.3 log).max
unfolding add_source trim_to
length-add_source a log =
    let es = log.events ++ (entry_of a ∷ []) in ground (arith, length-drop (length es - log.max) es)

append-snoc : (ys zs : List EventEntry) (x : EventEntry) → (ys ++ (x ∷ [])) ++ zs ≡ ys ++ (x ∷ zs)
append-snoc [] zs x = refl
append-snoc (y ∷ ys) zs x = ap (λ xs. y ∷ xs) (append-snoc ys zs x)

list-bound : (log : EventLog) → length log.events ≤ log.max → length (list log) ≤ log.max
unfolding list
list-bound log h = rw (length-reverse log.events) h

shown : (es : List EventEntry) → take (if ltb 20 (length es) then 20 else length es) es ≡ take 20 es
shown es = ground (arith, take-all (length es) es, take-all 20 es)

-- A log that holds no more than its bound: after any further events, List gives the latest of all of
-- them, newest first, as many as the bound allows.
pub list-add_all :
    (es : List Added) (log : EventLog)
    → length log.events ≤ log.max
    → list (add_all es log) ≡ take log.max (reverse (entries es) ++ list log)
unfolding reverse list
list-add_all [] log h = sym (take-all log.max (list log) (list-bound log h))
list-add_all (a ∷ es) log h =
    let log' = add_source a.0 a.1 a.2 a.3 log in
    rw
      (
        list-add_all es log' (length-add_source a log),
        max-add_source a log,
        list-add_source a log,
        append-snoc (reverse (entries es)) (list log) (entry_of a),
      )
      (take-append-take log.max log.max (reverse (entries es)) (entry_of a ∷ list log)
        (omega arith))

-- The events of the statistics summary are the oldest twenty that the log still holds, oldest first.
pub summary_events-oldest : (log : EventLog) → summary_events log ≡ take 20 log.events
unfolding summary_events list
summary_events-oldest log =
    rw (reverse-reverse log.events, length-reverse log.events) (shown log.events)
