-- ===== src/SyncState/Backoff.antt =====
-- Units of time, the fixed delays and the retry schedule of
-- financial_dashboard/services/paisa/sync_state.py.
use Prim.Native.Nat.{min}
use bank_email_fetcher.Prelude.{
  ℕ, zero, suc, ◌-◌, ◌*◌, ◌≤◌, ◌≡◌, refl, List, [], ◌∷◌, arith, leb, eqb, length, get_or,
  if◌then◌else◌,
}

abbrev pub second : ℕ
second = 1000000

abbrev pub minute : ℕ
minute = 60 * second

-- `BACKOFF_MINUTES`
abbrev pub backoff_minutes : List ℕ
backoff_minutes = 1 ∷ 2 ∷ 5 ∷ 10 ∷ 15 ∷ []

-- `DEFAULT_QUIET_DEBOUNCE`
abbrev pub default_quiet_debounce : ℕ
default_quiet_debounce = 5 * second

-- `DEFAULT_MAX_DIRTY_LATENCY`
abbrev pub default_max_dirty_latency : ℕ
default_max_dirty_latency = 30 * second

-- `DEFAULT_FORCE_RELOAD_INTERVAL`
abbrev pub default_force_reload_interval : ℕ
default_force_reload_interval = 6 * 60 * minute

-- `DEFAULT_LEASE_TTL_SECONDS`
abbrev pub default_lease_ttl_seconds : ℕ
default_lease_ttl_seconds = 90

-- `max(0, failure_count - 1)` is the truncated difference.
unfoldable pub backoff_delta : ℕ → List ℕ → ℕ
backoff_delta failure_count [] = 0
backoff_delta failure_count (m ∷ ms) =
    let idx : ℕ = min (failure_count - 1) (length (m ∷ ms) - 1) in get_or (m ∷ ms) idx 0 * minute

-- The schedule as the documentation of `backoff_delta` writes it.
abbrev pub documented_delay : ℕ → ℕ
documented_delay n =
    if leb n 1
    then minute
    else if eqb n 2
    then 2 * minute
    else if eqb n 3
    then 5 * minute
    else if eqb n 4
    then 10 * minute
    else 15 * minute

-- Every count of failures, 0 included, waits as documented.
pub backoff_delta-documented : (n : ℕ) → backoff_delta n backoff_minutes ≡ documented_delay n
unfolding backoff_delta
backoff_delta-documented zero = refl
backoff_delta-documented (suc zero) = refl
backoff_delta-documented (suc (suc zero)) = refl
backoff_delta-documented (suc (suc (suc zero))) = refl
backoff_delta-documented (suc (suc (suc (suc zero)))) = refl
backoff_delta-documented (suc (suc (suc (suc (suc n))))) =
    let last : min (suc (suc (suc (suc (suc n)))) - 1) 4 ≡ 4 = omega arith in rw last (ground arith)

pub backoff_delta_bounds :
    (n : ℕ)
    → (minute ≤ backoff_delta n backoff_minutes) × (backoff_delta n backoff_minutes ≤ 15 * minute)
backoff_delta_bounds n = ground (arith, backoff_delta-documented n)

pub backoff_delta_mono :
    (a b : ℕ) → a ≤ b → backoff_delta a backoff_minutes ≤ backoff_delta b backoff_minutes
backoff_delta_mono a b h = ground (arith, backoff_delta-documented a, backoff_delta-documented b)
