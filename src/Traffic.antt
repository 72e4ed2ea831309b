-- ===== src/Traffic.antt =====
-- backend/internal/infrastructure/db/peer_repo.go: the traffic counters of a peer, one UPDATE for
-- each sample of the device's cumulative counters. The columns are 64-bit integers in the code and
-- unbounded here; the sample may be negative and is then read as 0.
pub mod Total
use xray2wg.Base.{
  ℕ, ◌+◌, ◌-◌, Option, none, some, List, Text, codes, lookup, insert, nat_eq, leb, if◌then◌else◌,
}
use xray2wg.Base.Int.{ℤ, pos_part}
use xray2wg.Domain.Errors.{GoError, sentinel, plain, Sentinel, Result, ok, err}

-- The columns of wg_peers that UpdateTraffic reads or writes.
pub record Counters : Type 0 where
  pub rx_bytes : ℕ
  pub tx_bytes : ℕ
  pub last_seen_rx_raw : ℕ
  pub last_seen_tx_raw : ℕ
  pub last_handshake : Option ℕ

abbrev pub Rows : Type 0
Rows = List (ℕ × Counters)

-- `CASE WHEN raw >= last THEN raw - last ELSE raw END`
pub delta : ℕ → ℕ → ℕ
delta raw last = if leb last raw then raw - last else raw

pub update_counters : Option ℕ → ℕ → ℕ → Counters → Counters
update_counters hs rx tx c = record {
  rx_bytes = c.rx_bytes + delta rx c.last_seen_rx_raw;
  tx_bytes = c.tx_bytes + delta tx c.last_seen_tx_raw;
  last_seen_rx_raw = rx;
  last_seen_tx_raw = tx;
  last_handshake = hs;
}

-- UpdateTraffic; the fault is the database's answer to the UPDATE.
pub update_traffic : Option Text → ℕ → Option ℕ → ℤ → ℤ → Rows → Result (ℕ × ℕ) × Rows
update_traffic (some m) id hs rx tx rows = (err (plain m), rows)
update_traffic none id hs rx tx rows = elim (lookup id rows) [
  | none ↦ (err (sentinel Sentinel.not_found), rows)
  | some c ↦
      (let c' = update_counters hs (pos_part rx) (pos_part tx) c in
        (ok (c'.rx_bytes, c'.tx_bytes), insert id c' rows))
]
