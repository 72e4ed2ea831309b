-- ===== src/EventLog.antt =====
-- backend/internal/service/eventlog.go: the bounded log of events in memory, and what StatsSummary of
-- backend/internal/app/tunnels_api.go shows of it. The audit table is the list of what was saved.
pub mod Window
use xray2wg.Base.{
  ℕ, ◌+◌, ◌-◌, Bool, true, false, List, [], ◌∷◌, ◌++◌, Text, codes, text_eq, ◌==◌, ◌||◌, ◌&&◌,
  length, drop, take, ltb, if◌then◌else◌,
}
use xray2wg.Base.Int.{ℤ, pos, leb_ℤ}

pub record EventEntry : Type 0 where
  pub ts : ℕ
  pub level : Text
  pub message : Text

-- A row of the audit table: level, source and message.
abbrev pub Saved : Type 0
Saved = Text × Text × Text

pub record EventLog : Type 0 where
  pub max : ℕ
  pub events : List EventEntry
  pub has_db : Bool
  pub saved : List Saved

-- NewEventLog
pub new_event_log : ℤ → EventLog
new_event_log max = record {
  max = if leb_ℤ max (pos 0) then 64 else max_of max;
  events = [];
  has_db = false;
  saved = [];
}
  where
    max_of : ℤ → ℕ
    max_of (pos n) = n
    max_of _ = 0

-- SetPersister
pub set_persister : EventLog → EventLog
set_persister log = record log { has_db = true }

-- `events[len(events)-max:]` when there are more than max.
pub trim_to : ℕ → List EventEntry → List EventEntry
trim_to max es = if ltb max (length es) then drop (length es - max) es else es

-- AddSource
pub add_source : ℕ → Text → Text → Text → EventLog → EventLog
add_source now level source msg log = record log {
  events = trim_to log.max (log.events ++ (record { ts = now; level = level; message = msg } ∷ []));
  saved =
      if log.has_db && ((level == codes "warn") || (level == codes "error"))
      then log.saved ++ ((level, source, msg) ∷ [])
      else log.saved;
}

-- Add
pub add : ℕ → Text → Text → EventLog → EventLog
add now level msg log = add_source now level (codes "system") msg log

-- The loop that exchanges the ends of a slice until they meet.
pub reverse : List EventEntry → List EventEntry
reverse [] = []
reverse (x ∷ xs) = reverse xs ++ (x ∷ [])

-- List
pub list : EventLog → List EventEntry
list log = reverse log.events

-- `el`, and `rev[i] = ev[len(ev)-1-i]` for i below it.
pub summary_events : EventLog → List EventEntry
summary_events log =
    let ev = list log in take (if ltb 20 (length ev) then 20 else length ev) (reverse ev)
