-- ===== src/Tunnel/Stop/Teardown.antt =====
-- What a teardown leaves of a tunnel and of the others.
use xray2wg.Base.{
  ℕ, Bool, false, Text, ◌≡◌, arith, contains, contains-remove, lookup, is_some, Option-cases, ◌==◌,
  nat_eq, if◌then◌else◌, refl, Option, none, some,
}
use xray2wg.Netconf.Kernel.{Kernel}
use xray2wg.Wireguard.{is_some-destroy}
use xray2wg.Xray.{is_some-stop}
use xray2wg.Tunnel.World.{World, Env}
use xray2wg.Domain.{WgInterface}
use xray2wg.Domain.Errors.{GoError, Result, ok, err}
use xray2wg.Tunnel.Repo.{get_by_id}
use xray2wg.Tunnel.Flags.{Flags, IsCoherent}
use xray2wg.Tunnel.Stop.{stop_internal, teardown_runtime, record_stop, stop}

module _ (h : Kernel) (id j : ℕ) (tun : Text) (fwmark table : ℕ) (subnet : Text) where
  -- The tunnel is gone in every respect; another keeps what it has.
  pub stop_internal-Flags :
      (d i r : Bool) (w : World h.K)
      → Flags j d i r w
      → Flags j
          (if id == j then false else d)
          (if id == j then false else i)
          (if id == j then false else r)
          (stop_internal h id tun fwmark table subnet w)
  unfolding stop_internal
  stop_internal-Flags d i r w f = ground (
    arith,
    is_some-destroy id j w.devices,
    is_some-stop id j w.instances,
    contains-remove id j w.running,
    contains-remove id j w.tracked,
  )

module _ (h : Kernel) (env : Env) (id : ℕ) (j : ℕ) where
  -- What is left of tunnel j where a call of Stop returned this.
  abbrev pub left : Option GoError → Bool → Bool
  left none b = if id == j then false else b
  left (some m) b = b

  -- Of tunnel j, its device, its instance, its mark and its statistics are left.
  abbrev pub Leaves : World h.K → Option GoError × World h.K → Type 0
  Leaves w (e, w') =
      (is_some (lookup j w'.devices) ≡ left e (is_some (lookup j w.devices)))
      × (is_some (lookup j w'.instances) ≡ left e (is_some (lookup j w.instances)))
      × (contains j w'.running ≡ left e (contains j w.running))
      × (contains j w'.tracked ≡ left e (contains j w.tracked))

  stop_case :
      (r : Result (WgInterface × Text)) (w : World h.K)
      → Leaves w (elim r as (λ _. Option GoError × World h.K) [
        | err m ↦ (some m, w)
        | ok row ↦ (none, record_stop h env id row.0 (teardown_runtime h env id row.0 w))
      ])
  unfolding record_stop teardown_runtime stop_internal
  stop_case (err m) w = (refl, refl, refl, refl)
  stop_case (ok row) w = (
    is_some-destroy id j w.devices,
    is_some-stop id j w.instances,
    contains-remove id j w.running,
    contains-remove id j w.tracked,
  )

  -- In any state, a Stop that returns no error takes away the device, the Xray instance, the mark and
  -- the statistics of its tunnel, whichever of them are there, and of no other tunnel; a Stop that
  -- returns an error takes away none.
  pub stop_ends : (w : World h.K) → Leaves w (stop h env id w)
  unfolding stop
  stop_ends w = stop_case (get_by_id env.get_fault id w.rows) w

pub stop-IsCoherent :
    (h : Kernel) (env : Env) (id : ℕ) (w : World h.K)
    → IsCoherent w
    → IsCoherent (stop h env id w).1
stop-IsCoherent h env id w c j =
    ground (arith, stop_ends h env id j w, c j, Option-cases (stop h env id w).0)
