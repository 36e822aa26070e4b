-- ===== src/Tuner/Semaphore.antt =====
-- The crate `tokio`'s `Semaphore`, which the lock is built on. It is not part of the repository, so it
-- is a parameter of the lock.
use recisdb_proxy_rs.Base.{ℕ, ◌+◌, ◌≤◌, ◌≡◌, Option, some}

pub record Semaphore : Type 1 where
  pub Permits : Type 0
  pub with_permits : ℕ → Permits
  pub available_permits : Permits → ℕ
  -- `try_acquire_many`; `none` when fewer are available.
  pub try_acquire_many : ℕ → Permits → Option Permits
  -- What the drop of an owned permit does.
  pub release : ℕ → Permits → Permits

-- What the crate documents.
pub record IsSemaphore (s : Semaphore) : Type 1 where
  pub available-with_permits : (n : ℕ) → s.available_permits (s.with_permits n) ≡ n
  pub available-acquire :
      (n : ℕ) (p q : s.Permits)
      → s.try_acquire_many n p ≡ some q
      → s.available_permits q + n ≡ s.available_permits p
  pub acquire_available :
      (n : ℕ) (p : s.Permits)
      → n ≤ s.available_permits p
      → (q : s.Permits) × (s.try_acquire_many n p ≡ some q)
  pub available-release :
      (n : ℕ) (p : s.Permits) → s.available_permits (s.release n p) ≡ s.available_permits p + n
