-- ===== src/Traffic/Total.antt =====
-- The accumulated counters are the traffic that the samples saw, over restarts of the device.
use xray2wg.Base.{
  ℕ, ◌+◌, ◌<◌, Option, none, some, List, [], ◌∷◌, lookup, lookup-insert, beq_refl, nat_eq, ◌≡◌,
  refl, arith,
}
use xray2wg.Base.Int.{pos}
use xray2wg.Traffic.{Counters, Rows, delta, update_counters, update_traffic}

-- What the device did between two samples: it counted on; or it first counted on, by the first two
-- numbers, then restarted from zero, and counted by the last two.
pub data Step : Type 0 where
  carried_on : ℕ → ℕ → Step
  restarted : ℕ → ℕ → ℕ → ℕ → Step

-- The device's cumulative counters after a step, from those before.
abbrev pub raw_rx : ℕ → Step → ℕ
raw_rx last (carried_on rx tx) = last + rx
raw_rx last (restarted lost_rx lost_tx rx tx) = rx

abbrev pub raw_tx : ℕ → Step → ℕ
raw_tx last (carried_on rx tx) = last + tx
raw_tx last (restarted lost_rx lost_tx rx tx) = tx

-- A restart shows in a counter that stands lower than before.
abbrev pub Shows : ℕ → ℕ → Step → Type 0
Shows last_rx last_tx (carried_on rx tx) = Unit
Shows last_rx last_tx (restarted lost_rx lost_tx rx tx) = (rx < last_rx) × (tx < last_tx)

abbrev pub AllShow : ℕ → ℕ → List Step → Type 0
AllShow last_rx last_tx [] = Unit
AllShow last_rx last_tx (s ∷ steps) =
    Shows last_rx last_tx s × AllShow (raw_rx last_rx s) (raw_tx last_tx s) steps

-- The traffic that passed, and the part of it that no sample saw.
abbrev pub passed_rx : List Step → ℕ
passed_rx [] = 0
passed_rx (carried_on rx tx ∷ steps) = rx + passed_rx steps
passed_rx (restarted lost_rx lost_tx rx tx ∷ steps) = lost_rx + rx + passed_rx steps

abbrev pub passed_tx : List Step → ℕ
passed_tx [] = 0
passed_tx (carried_on rx tx ∷ steps) = tx + passed_tx steps
passed_tx (restarted lost_rx lost_tx rx tx ∷ steps) = lost_tx + tx + passed_tx steps

abbrev pub unseen_rx : List Step → ℕ
unseen_rx [] = 0
unseen_rx (carried_on rx tx ∷ steps) = unseen_rx steps
unseen_rx (restarted lost_rx lost_tx rx tx ∷ steps) = lost_rx + unseen_rx steps

abbrev pub unseen_tx : List Step → ℕ
unseen_tx [] = 0
unseen_tx (carried_on rx tx ∷ steps) = unseen_tx steps
unseen_tx (restarted lost_rx lost_tx rx tx ∷ steps) = lost_tx + unseen_tx steps

-- One call of UpdateTraffic for each step, with the device's counters after it.
abbrev pub sample_all : ℕ → Option ℕ → ℕ → ℕ → List Step → Rows → Rows
sample_all id hs last_rx last_tx [] rows = rows
sample_all id hs last_rx last_tx (s ∷ steps) rows =
    let rx = raw_rx last_rx s in
    let tx = raw_tx last_tx s in
    sample_all id hs rx tx steps (update_traffic none id hs (pos rx) (pos tx) rows).1

-- The row holds these totals, and the device's counters at the last sample.
abbrev pub Holds : ℕ → Rows → ℕ → ℕ → ℕ → ℕ → Type 0
Holds id rows rx tx last_rx last_tx =
    (c : Counters) × (lookup id rows ≡ some c)
    × (c.rx_bytes ≡ rx)
    × (c.tx_bytes ≡ tx)
    × (c.last_seen_rx_raw ≡ last_rx)
    × (c.last_seen_tx_raw ≡ last_tx)

update-Holds :
    (id : ℕ) (hs : Option ℕ) (rows : Rows) (rx tx last_rx last_tx raw raw' : ℕ)
    → Holds id rows rx tx last_rx last_tx
    → Holds id
        (update_traffic none id hs (pos raw) (pos raw') rows).1
        (rx + delta raw last_rx)
        (tx + delta raw' last_tx)
        raw
        raw'
unfolding update_traffic update_counters
update-Holds id hs rows rx tx last_rx last_tx raw raw' (c, found, h_rx, h_tx, h_lrx, h_ltx) = (
  update_counters hs raw raw' c,
  rw (found, update_traffic, lookup-insert id id (update_counters hs raw raw' c) rows, beq_refl id)
      refl,
  rw (h_rx, h_lrx) refl,
  rw (h_tx, h_ltx) refl,
  refl,
  refl,
)

delta-step :
    (last_rx last_tx : ℕ) (s : Step)
    → Shows last_rx last_tx s
    → (delta (raw_rx last_rx s) last_rx + unseen_rx (s ∷ []) ≡ passed_rx (s ∷ []))
      × (delta (raw_tx last_tx s) last_tx + unseen_tx (s ∷ []) ≡ passed_tx (s ∷ []))
unfolding delta
delta-step last_rx last_tx (carried_on rx tx) h = ground arith
delta-step last_rx last_tx (restarted lost_rx lost_tx rx tx) h = ground arith

-- A peer's row holds totals rx and tx, and the raw counters of the last sample. After samples of any
-- sequence of steps of the device, in which every restart leaves both raw counters lower than the
-- sample before, the totals have grown by exactly the traffic that passed, less what passed between
-- the last sample before a restart and the restart.
pub sample_all-Total :
    (id : ℕ) (hs : Option ℕ) (steps : List Step) (rows : Rows) (rx tx last_rx last_tx : ℕ)
    → Holds id rows rx tx last_rx last_tx
    → AllShow last_rx last_tx steps
    → (c : Counters) × (lookup id (sample_all id hs last_rx last_tx steps rows) ≡ some c)
      × (c.rx_bytes + unseen_rx steps ≡ rx + passed_rx steps)
      × (c.tx_bytes + unseen_tx steps ≡ tx + passed_tx steps)
sample_all-Total id hs [] rows rx tx last_rx last_tx (c, found, h_rx, h_tx, h_lrx, h_ltx) all =
    (c, found, omega (arith, h_rx), omega (arith, h_tx))
sample_all-Total id hs (s ∷ steps) rows rx tx last_rx last_tx h all =
    let raw = raw_rx last_rx s in
    let raw' = raw_tx last_tx s in
    let (c, found, e_rx, e_tx) =
      sample_all-Total id hs steps (update_traffic none id hs (pos raw) (pos raw') rows).1
        (rx + delta raw last_rx) (tx + delta raw' last_tx) raw raw'
        (update-Holds id hs rows rx tx last_rx last_tx raw raw' h) all.1 in
    let (d_rx, d_tx) = delta-step last_rx last_tx s all.0 in
    (c, found, passed_rx_step s steps rx _ _ e_rx d_rx, passed_tx_step s steps tx _ _ e_tx d_tx)
  where
    passed_rx_step :
        (s : Step) (steps : List Step) (rx d total : ℕ)
        → total + unseen_rx steps ≡ rx + d + passed_rx steps
        → d + unseen_rx (s ∷ []) ≡ passed_rx (s ∷ [])
        → total + unseen_rx (s ∷ steps) ≡ rx + passed_rx (s ∷ steps)
    passed_rx_step (carried_on r t) steps rx d total e h = omega arith
    passed_rx_step (restarted l m r t) steps rx d total e h = omega arith

    passed_tx_step :
        (s : Step) (steps : List Step) (tx d total : ℕ)
        → total + unseen_tx steps ≡ tx + d + passed_tx steps
        → d + unseen_tx (s ∷ []) ≡ passed_tx (s ∷ [])
        → total + unseen_tx (s ∷ steps) ≡ tx + passed_tx (s ∷ steps)
    passed_tx_step (carried_on r t) steps tx d total e h = omega arith
    passed_tx_step (restarted l m r t) steps tx d total e h = omega arith
