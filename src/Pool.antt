-- ===== src/Pool.antt =====
-- sdk/rust/src/connection_pool.rs: `ConnectionPool` and `PooledConnection`.
-- The semaphore of tokio and the connections of the database are parameters. A call that waits is one
-- step, which ends in a timeout when no permit is there for it. Between two steps the vector of
-- connections is not locked, but for a drop that meets another task that holds the lock.
pub mod Bound
use airyfs.Prelude.{
  ℕ, zero, suc, ◌+◌, ◌<◌, ◌≡◌, Bool, true, false, Option, none, some, List, [], ◌∷◌, if◌then◌else◌,
}

-- `tokio::sync::Semaphore`: what `try_acquire` gives, and what dropping a permit does, in terms of
-- `available_permits`
pub record Semaphore (S : Type 0) : Type 0 where
  pub new : ℕ → S
  pub available_permits : S → ℕ
  pub acquire : S → Option S
  pub release : S → S
  pub new_permits : (n : ℕ) → available_permits (new n) ≡ n
  pub acquire_none : (s : S) → available_permits s ≡ 0 → acquire s ≡ none
  pub acquire_some :
      (s : S)
      → 0 < available_permits s
      → (s' : S) × (acquire s ≡ some s') × (available_permits s' + 1 ≡ available_permits s)
  pub release_permits : (s : S) → available_permits (release s) ≡ available_permits s + 1

abbrev pub max_connections : ℕ
max_connections = 1

-- `ConnectionPoolInner`, without the database and the timeout
pub record ConnectionPool (S C : Type 0) : Type 0 where
  pub semaphore : S
  pub pool : List C

pub data PoolError : Type 0 where
  connection_pool_timeout connect_failed : PoolError

-- what `get_connection` returns
pub data Connected (C : Type 0) : Type 0 where
  connected : C → Connected C
  refused : PoolError → Connected C

module _ {S C : Type 0} (sem : Semaphore S) where
  unfoldable pub with_timeout : ConnectionPool S C
  with_timeout = record { semaphore = sem.new max_connections; pool = [] }

  -- no connection is there to be used again; one that fails drops the permit
  abbrev pub connect_new : Option C → S → Connected C × ConnectionPool S C
  connect_new none s = (refused connect_failed, record { semaphore = sem.release s; pool = [] })
  connect_new (some c) s = (connected c, record { semaphore = s; pool = [] })

  abbrev pub with_permit : Option C → S → List C → Connected C × ConnectionPool S C
  with_permit fresh s [] = connect_new fresh s
  with_permit fresh s (c ∷ cs) = (connected c, record { semaphore = s; pool = cs })

  -- the first argument is what the database answers, if it is asked for a connection
  unfoldable pub get_connection : Option C → ConnectionPool S C → Connected C × ConnectionPool S C
  get_connection fresh p = elim (sem.acquire p.semaphore) [
    | none ↦ (refused connection_pool_timeout, p)
    | some s ↦ with_permit fresh s p.pool
  ]

  -- `Drop`; the first argument is whether `try_lock` succeeds
  unfoldable pub drop_connection : Bool → C → ConnectionPool S C → ConnectionPool S C
  drop_connection locks c p = record {
    semaphore = sem.release p.semaphore;
    pool = if locks then c ∷ p.pool else p.pool;
  }
