-- ===== src/Endpoint/Maximum.antt =====
-- The address that is picked has the highest score of those that may be picked.
use xray2wg.Base.{
  Bool, true, ◌&&◌, none, some, List, [], ◌∷◌, ◌++◌, if◌then◌else◌, ◌≡◌, refl, arith, All,
  Bool-cases, inl, inr, ◌⊎◌, sym, ap,
}
use xray2wg.Base.Int.{ℤ, negsuc, ltb_ℤ, leb_ℤ}
use xray2wg.ClientIp.{Ip4}
use xray2wg.Endpoint.{
  Snapshot, Best, no_best, in_docker_default_bridge, score_ipv4, consider, consider_ips, is_usable,
  consider_snapshots,
}

-- The addresses that may be picked, in the order of the interfaces.
abbrev pub eligible_ips : Bool → List Ip4 → List Ip4
eligible_ips in_docker [] = []
eligible_ips in_docker (ip ∷ ips) =
    if in_docker && in_docker_default_bridge ip
    then eligible_ips in_docker ips
    else ip ∷ eligible_ips in_docker ips

abbrev pub eligible : Bool → List Snapshot → List Ip4
eligible in_docker [] = []
eligible in_docker (s ∷ snaps) =
    (if is_usable s then eligible_ips in_docker s.ips else []) ++ eligible in_docker snaps

-- The better one of the choice so far and an address.
abbrev pub next : Best → Ip4 → Best
next best ip =
    if ltb_ℤ best.score (score_ipv4 ip)
    then record { ip = some ip; score = score_ipv4 ip }
    else best

-- The choice is the loop over the addresses that may be picked.
abbrev pub choose : Best → List Ip4 → Best
choose best [] = best
choose best (ip ∷ ips) = choose (next best ip) ips

choose-append :
    (best : Best) (xs ys : List Ip4) → choose best (xs ++ ys) ≡ choose (choose best xs) ys
choose-append best [] ys = refl
choose-append best (x ∷ xs) ys = choose-append (next best x) xs ys

consider_ips-choose :
    (in_docker : Bool) (best : Best) (ips : List Ip4)
    → consider_ips in_docker best ips ≡ choose best (eligible_ips in_docker ips)
unfolding consider_ips consider
consider_ips-choose in_docker best [] = refl
consider_ips-choose in_docker best (ip ∷ ips) =
    elim (Bool-cases (in_docker && in_docker_default_bridge ip)) [
      | inl skipped ↦ rw (skipped) (consider_ips-choose in_docker best ips)
      | inr kept ↦ rw (kept) (consider_ips-choose in_docker (next best ip) ips)
    ]

consider_snapshots-choose :
    (in_docker : Bool) (best : Best) (snaps : List Snapshot)
    → consider_snapshots in_docker best snaps ≡ choose best (eligible in_docker snaps)
unfolding consider_snapshots
consider_snapshots-choose in_docker best [] = refl
consider_snapshots-choose in_docker best (s ∷ snaps) = elim (Bool-cases (is_usable s)) [
  | inl usable ↦
      rw
        (
          usable,
          consider_ips-choose in_docker best s.ips,
          choose-append best (eligible_ips in_docker s.ips) (eligible in_docker snaps),
        )
        (consider_snapshots-choose in_docker (choose best (eligible_ips in_docker s.ips)) snaps)
  | inr unusable ↦ rw (unusable) (consider_snapshots-choose in_docker best snaps)
]

abbrev pub Among : Ip4 → List Ip4 → Type 0
Among ip [] = ⊥
Among ip (x ∷ xs) = (ip ≡ x) ⊎ Among ip xs

-- Scores up to this one.
abbrev pub UpTo : ℤ → List Ip4 → Type 0
UpTo top xs = All (λ x. leb_ℤ (score_ipv4 x) top ≡ true) xs

UpTo-eq : (a b : ℤ) (xs : List Ip4) → a ≡ b → UpTo a xs → UpTo b xs
UpTo-eq a b xs e h = rw (sym e) h

leb_refl : (a : ℤ) → leb_ℤ a a ≡ true
leb_refl a = ground arith

leb_trans : (a b c : ℤ) → leb_ℤ a b ≡ true → leb_ℤ b c ≡ true → leb_ℤ a c ≡ true
leb_trans a b c h k = ground arith

next-bounds :
    (best : Best) (ip : Ip4)
    → (leb_ℤ best.score (next best ip).score ≡ true)
      × (leb_ℤ (score_ipv4 ip) (next best ip).score ≡ true)
next-bounds best ip = ground arith

choose-score : (best : Best) (xs : List Ip4) → leb_ℤ best.score (choose best xs).score ≡ true
choose-score best [] = leb_refl best.score
choose-score best (x ∷ xs) =
    leb_trans best.score (next best x).score (choose (next best x) xs).score (next-bounds best x).0
      (choose-score (next best x) xs)

choose-UpTo : (best : Best) (xs : List Ip4) → UpTo (choose best xs).score xs
choose-UpTo best [] = tt
choose-UpTo best (x ∷ xs) = (
  leb_trans (score_ipv4 x) (next best x).score (choose (next best x) xs).score
      (next-bounds best x).1 (choose-score (next best x) xs),
  choose-UpTo (next best x) xs,
)

-- Where the choice comes from.
abbrev From : Best → List Ip4 → Best → Type 0
From best xs b =
    (b ≡ best) ⊎ ((ip : Ip4) × (b.ip ≡ some ip) × (b.score ≡ score_ipv4 ip) × Among ip xs)

choose-From : (best : Best) (xs : List Ip4) → From best xs (choose best xs)
choose-From best [] = inl refl
choose-From best (x ∷ xs) = elim (choose-From (next best x) xs) [
  | inl same ↦ elim (Bool-cases (ltb_ℤ best.score (score_ipv4 x))) [
    | inl better ↦ inr (x, rw (same, better) refl, rw (same, better) refl, inl refl)
    | inr worse ↦ inl (rw (same, worse) refl)
  ]
  | inr (ip, is_ip, is_score, among) ↦ inr (ip, is_ip, is_score, inr among)
]

-- Of the addresses that may be picked (on an interface that is up, no loopback and of no skipped
-- name, and not on Docker's default bridge when inside Docker), the one that is picked is among them
-- and has the highest score; none is picked only if no score is above -1.
pub consider_snapshots-Maximum :
    (in_docker : Bool) (snaps : List Snapshot)
    → let b = consider_snapshots in_docker no_best snaps in
      ((b.ip ≡ none) × UpTo (negsuc 0) (eligible in_docker snaps))
      ⊎ ((ip : Ip4) × (b.ip ≡ some ip)
          × Among ip (eligible in_docker snaps)
          × UpTo (score_ipv4 ip) (eligible in_docker snaps))
consider_snapshots-Maximum in_docker snaps =
    let xs = eligible in_docker snaps in
    rw (consider_snapshots-choose in_docker no_best snaps) (maximum xs)
  where
    maximum :
        (xs : List Ip4)
        → ((choose no_best xs).ip ≡ none) × UpTo (negsuc 0) xs
          ⊎ ((ip : Ip4) × ((choose no_best xs).ip ≡ some ip)
              × Among ip xs
              × UpTo (score_ipv4 ip) xs)
    maximum xs = elim (choose-From no_best xs) [
      | inl same ↦
          inl (rw (same) refl, UpTo-eq _ _ xs (ap (λ b. b.score) same) (choose-UpTo no_best xs))
      | inr (ip, is_ip, is_score, among) ↦
          inr (ip, is_ip, among, UpTo-eq _ _ xs is_score (choose-UpTo no_best xs))
    ]
