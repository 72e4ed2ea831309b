-- ===== src/Tunnel/Flags.antt =====
-- What there is of a tunnel: its WireGuard device, its Xray instance, its mark and its statistics.
use xray2wg.Base.{ℕ, Bool, Option, none, some, ◌≡◌, lookup, contains, nat_eq, is_some, arith, refl}
use xray2wg.Domain.Errors.{GoError, Result, ok, err}
use xray2wg.Tunnel.World.{World}

abbrev pub Flags : {K : Type 0} → ℕ → Bool → Bool → Bool → World K → Type 0
Flags j d i r w =
    (is_some (lookup j w.devices) ≡ d)
    × (is_some (lookup j w.instances) ≡ i)
    × (contains j w.running ≡ r)
    × (contains j w.tracked ≡ r)

-- An operation that brings a tunnel up ends with j's flags at `new`, or with an error and at `old`.
unfoldable pub Ends : {K : Type 0} → ℕ → Bool → Bool → Option GoError × World K → Type 0
Ends j old new (none, w) = Flags j new new new w
Ends j old new (some e, w) = Flags j old old old w

-- Each tunnel has all of these, and then it is marked as running, or none.
abbrev pub IsCoherent : {K : Type 0} → World K → Type 0
IsCoherent w =
    (j : ℕ)
    → let r = contains j w.running in
      (is_some (lookup j w.devices) ≡ r)
      × (is_some (lookup j w.instances) ≡ r)
      × (contains j w.tracked ≡ r)

-- The part of coherence that speaks of one tunnel.
abbrev pub CoherentAt : {K : Type 0} → ℕ → World K → Type 0
CoherentAt j w =
    let r = contains j w.running in
    (is_some (lookup j w.devices) ≡ r)
    × (is_some (lookup j w.instances) ≡ r)
    × (contains j w.tracked ≡ r)

pub Ends-CoherentAt :
    {K : Type 0} (j : ℕ) (old new : Bool) (r : Option GoError × World K)
    → Ends j old new r
    → CoherentAt j r.1
unfolding Ends
Ends-CoherentAt j old new (none, w) f = ground arith
Ends-CoherentAt j old new (some e, w) f = ground arith

-- The mark at the end: the new one, or the old one and an error.
pub Ends-mark :
    {K : Type 0} (j : ℕ) (old new : Bool) (r : Option GoError × World K)
    → Ends j old new r
    → contains j r.1.running ≡ (elim r.0 [ none ↦ new | some e ↦ old ])
unfolding Ends
Ends-mark j old new (none, w) f = f.2
Ends-mark j old new (some e, w) f = f.2

module _ {K : Type 0} (j : ℕ) (old new : Bool) where
  -- A step that may fail: both ways end well.
  pub Ends-step :
      (e : Option GoError) (f : GoError → Option GoError × World K) (g : Option GoError × World K)
      → ((m : GoError) → Ends {K = K} j old new (f m))
      → Ends {K = K} j old new g
      → Ends {K = K} j old new (elim e [ some m ↦ f m | none ↦ g ])
  Ends-step none f g hf hg = hg
  Ends-step (some m) f g hf hg = hf m

  pub Ends-result :
      {A : Type 0} (r : Result A) (f : GoError → Option GoError × World K)
      (g : A → Option GoError × World K)
      → ((m : GoError) → Ends {K = K} j old new (f m))
      → ((a : A) → r ≡ ok a → Ends {K = K} j old new (g a))
      → Ends {K = K} j old new (elim r [ err m ↦ f m | ok a ↦ g a ])
  Ends-result (ok a) f g hf hg = hg a refl
  Ends-result (err m) f g hf hg = hf m
