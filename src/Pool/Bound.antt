-- ===== src/Pool/Bound.antt =====
-- The pool and the connections that its callers hold, through any calls.
use airyfs.Prelude.{
  ℕ, zero, suc, ◌+◌, ◌≤◌, ◌≡◌, ◌≢◌, ◌↔◌, refl, sym, ap, ◌∙◌, Bool, true, false, Option, none, some,
  List, [], ◌∷◌, length, arith, ltb, ◌⊎◌, Bool-cases, Option-cases, inl, inr,
}
use airyfs.Pool.{
  Semaphore, ConnectionPool, connection_pool_timeout, Connected, connected, refused,
  max_connections, with_timeout, with_permit, get_connection, drop_connection,
}

pub record System (S C : Type 0) : Type 0 where
  pub pool : ConnectionPool S C
  pub held : List C

-- A caller asks for a connection, or drops one of those that are held.
pub data Call (C : Type 0) : Type 0 where
  gets : Option C → Call C
  drops : Bool → ℕ → Call C

unfoldable pub take_at : {C : Type 0} → ℕ → List C → Option (C × List C)
take_at n [] = none
take_at zero (c ∷ cs) = some (c, cs)
take_at (suc n) (c ∷ cs) =
    let rest = take_at n cs in elim rest [ none ↦ none | some (d, ds) ↦ some (d, c ∷ ds) ]

List-cases : {A : Type 0} (xs : List A) → (xs ≡ []) ⊎ ((x : A) × (rest : List A) × (xs ≡ x ∷ rest))
List-cases [] = inl refl
List-cases (x ∷ rest) = inr (x, rest, refl)

module _ {S : Type 0} (sem : Semaphore S) where
  abbrev NoPermit : S → Type 0
  NoPermit q = (sem.acquire q ≡ none) × (sem.available_permits q ≡ 0)

  abbrev Permit : S → Type 0
  Permit q =
      (q' : S) × (sem.acquire q ≡ some q')
      × (sem.available_permits q' + 1 ≡ sem.available_permits q)

  acquire-cases : (q : S) → NoPermit q ⊎ Permit q
  acquire-cases q = elim (Bool-cases (ltb 0 (sem.available_permits q))) [
    | inl there ↦ inr (sem.acquire_some q (ground arith))
    | inr absent ↦
        let empty : sem.available_permits q ≡ 0 = ground arith in
        inl (sem.acquire_none q empty, empty)
  ]

module _ {S C : Type 0} (sem : Semaphore S) where
  abbrev pub got : List C → Connected C × ConnectionPool S C → System S C
  got held (connected c, p) = record { pool = p; held = c ∷ held }
  got held (refused e, p) = record { pool = p; held = held }

  abbrev pub dropped : Bool → System S C → Option (C × List C) → System S C
  dropped locks s none = s
  dropped locks s (some (c, rest)) = record {
    pool = drop_connection sem locks c s.pool;
    held = rest;
  }

  unfoldable pub call : Call C → System S C → System S C
  call (gets fresh) s = got s.held (get_connection sem fresh s.pool)
  call (drops locks n) s = dropped locks s (take_at n s.held)

  unfoldable pub call_all : List (Call C) → System S C → System S C
  call_all [] s = s
  call_all (c ∷ cs) s = call_all cs (call c s)

  abbrev pub started : System S C
  started = record { pool = with_timeout sem; held = [] }

  -- A permit is out for each connection that is held, and no more connections exist than permits.
  pub record IsBounded (s : System S C) : Type 0 where
    pub permits : sem.available_permits s.pool.semaphore + length s.held ≡ max_connections
    pub open_connections : length s.pool.pool + length s.held ≤ max_connections

  started-IsBounded : IsBounded started
  unfolding with_timeout
  started-IsBounded = record {
    permits = ground (arith, sem.new_permits max_connections);
    open_connections = omega arith;
  }

  -- a permit was acquired
  with_permit-IsBounded :
      (fresh : Option C) (q : S) (held cs : List C)
      → sem.available_permits q + 1 + length held ≡ max_connections
      → length cs + length held ≤ max_connections
      → IsBounded (got held (with_permit sem fresh q cs))
  with_permit-IsBounded none q held [] e le = record {
    permits = omega (arith, sem.release_permits q);
    open_connections = omega arith;
  }
  with_permit-IsBounded (some c) q held [] e le = record {
    permits = omega arith;
    open_connections = omega arith;
  }
  with_permit-IsBounded fresh q held (c ∷ cs) e le = record {
    permits = omega arith;
    open_connections = omega arith;
  }

  get-IsBounded :
      (fresh : Option C) (s : System S C)
      → IsBounded s
      → IsBounded (got s.held (get_connection sem fresh s.pool))
  unfolding get_connection
  get-IsBounded fresh s h = elim (acquire-cases sem s.pool.semaphore) [
    | inl (none_left, empty) ↦ rw (none_left, get_connection) h
    | inr (q, acquired, fewer) ↦
        rw (acquired, get_connection)
          (with_permit-IsBounded fresh q s.held s.pool.pool (omega (arith, h.permits, fewer))
            h.open_connections)
  ]

  take_at-length :
      (n : ℕ) (cs : List C) (c : C) (rest : List C)
      → take_at n cs ≡ some (c, rest)
      → length cs ≡ length rest + 1
  unfolding take_at
  take_at-length n [] c rest e = ground arith
  take_at-length zero (d ∷ ds) c rest e = ground arith
  take_at-length (suc n) (d ∷ ds) c rest e = elim (Option-cases (take_at n ds)) [
    | inl missing ↦ ground arith
    | inr ((c', rest'), there) ↦ ground (arith, take_at-length n ds c' rest' there)
  ]

  drop-IsBounded :
      (locks : Bool) (s : System S C) (c : C) (rest : List C)
      → IsBounded s
      → length s.held ≡ length rest + 1
      → IsBounded (dropped locks s (some (c, rest)))
  unfolding drop_connection
  drop-IsBounded true s c rest h e = record {
    permits = omega (arith, h.permits, sem.release_permits s.pool.semaphore);
    open_connections = omega (arith, h.open_connections);
  }
  drop-IsBounded false s c rest h e = record {
    permits = omega (arith, h.permits, sem.release_permits s.pool.semaphore);
    open_connections = omega (arith, h.open_connections);
  }

  call-IsBounded : (c : Call C) (s : System S C) → IsBounded s → IsBounded (call c s)
  unfolding call
  call-IsBounded (gets fresh) s h = get-IsBounded fresh s h
  call-IsBounded (drops locks n) s h = elim (Option-cases (take_at n s.held)) [
    | inl missing ↦ rw missing h
    | inr ((c, rest), there) ↦
        rw there (drop-IsBounded locks s c rest h (take_at-length n s.held c rest there))
  ]

  calls-IsBounded : (cs : List (Call C)) (s : System S C) → IsBounded s → IsBounded (call_all cs s)
  unfolding call_all
  calls-IsBounded [] s h = h
  calls-IsBounded (c ∷ cs) s h = calls-IsBounded cs (call c s) (call-IsBounded c s h)

  -- With a semaphore that counts its permits, after any calls on a new pool, each of which asks
  -- for a connection, which the database may refuse, or drops one that is held, whether the
  -- lock is free for it or not: a permit is out for each connection that is held, and the
  -- connections that are held and those that wait to be used again are together at most one.
  pub call_all-IsBounded : (cs : List (Call C)) → IsBounded (call_all cs started)
  call_all-IsBounded cs = calls-IsBounded cs started started-IsBounded

  -- the value of the next `get_connection`
  abbrev pub next_get : Option C → System S C → Connected C
  next_get fresh s = (get_connection sem fresh s.pool).0

  get-no_permit :
      (fresh : Option C) (p : ConnectionPool S C)
      → sem.acquire p.semaphore ≡ none
      → get_connection sem fresh p ≡ (refused connection_pool_timeout, p)
  unfolding get_connection
  get-no_permit fresh p e = rw (e, get_connection) refl

  get-permit :
      (fresh : Option C) (p : ConnectionPool S C) (q : S)
      → sem.acquire p.semaphore ≡ some q
      → get_connection sem fresh p ≡ with_permit sem fresh q p.pool
  unfolding get_connection
  get-permit fresh p q e = rw (e, get_connection) refl

  with_permit-timeout :
      (fresh : Option C) (q : S) (cs : List C)
      → (with_permit sem fresh q cs).0 ≢ refused connection_pool_timeout
  with_permit-timeout none q [] e = ground arith
  with_permit-timeout (some c) q [] e = ground arith
  with_permit-timeout fresh q (c ∷ cs) e = ground arith

  with_permit-connected :
      (fresh : C) (q : S) (cs : List C)
      → (c : C) × ((with_permit sem (some fresh) q cs).0 ≡ connected c)
  with_permit-connected fresh q [] = (fresh, refl)
  with_permit-connected fresh q (c ∷ cs) = (c, refl)

  abbrev AtTimeout : Option C → System S C → Type 0
  AtTimeout fresh s = next_get fresh s ≡ refused connection_pool_timeout

  timeout-held :
      (fresh : Option C) (s : System S C) → IsBounded s → AtTimeout fresh s ↔ (length s.held ≡ 1)
  unfolding get_connection
  timeout-held fresh s h = elim (acquire-cases sem s.pool.semaphore) [
    | inl (none_left, empty) ↦
        let at : AtTimeout fresh s = ap (λ r. r.0) (get-no_permit fresh s.pool none_left) in
        ((λ e. omega (arith, h.permits)), (λ e. at))
    | inr (q, acquired, fewer) ↦
        let at : next_get fresh s ≡ (with_permit sem fresh q s.pool.pool).0 =
          ap (λ r. r.0) (get-permit fresh s.pool q acquired) in
        (
          (λ e. elim (with_permit-timeout fresh q s.pool.pool (sym at ∙ e)) [ ]),
          (λ e. elim (let bad : ⊥ = omega (arith, h.permits) in bad) [ ]),
        )
  ]

  get-connected :
      (fresh : C) (s : System S C)
      → IsBounded s
      → length s.held ≡ 0
      → (c : C) × (next_get (some fresh) s ≡ connected c)
  unfolding get_connection
  get-connected fresh s h none_held = elim (acquire-cases sem s.pool.semaphore) [
    | inl (none_left, empty) ↦ elim (let bad : ⊥ = omega (arith, h.permits) in bad) [ ]
    | inr (q, acquired, fewer) ↦
        let (c, e) = with_permit-connected fresh q s.pool.pool in
        (c, ap (λ r. r.0) (get-permit (some fresh) s.pool q acquired) ∙ e)
  ]

  drop-none_held :
      (locks : Bool) (s : System S C)
      → length s.held ≤ 1
      → length (dropped locks s (take_at 0 s.held)).held ≡ 0
  unfolding take_at
  drop-none_held locks s le = elim (List-cases s.held) [
    | inl none_held ↦ rw none_held refl
    | inr (c, rest, held) ↦ rw held (omega (arith, ap length held))
  ]

  call_all-one_held : (cs : List (Call C)) → length (call_all cs started).held ≤ 1
  call_all-one_held cs = let h = call_all-IsBounded cs in omega (arith, h.permits)

  -- After any calls on a new pool, the next get_connection ends in a timeout exactly when a
  -- connection is held: neither a refused connection nor a drop that did not get the lock uses
  -- a permit up.
  pub get_connection-timeout :
      (cs : List (Call C)) (fresh : Option C)
      → (next_get fresh (call_all cs started) ≡ refused connection_pool_timeout)
        ↔ (length (call_all cs started).held ≡ 1)
  get_connection-timeout cs fresh = timeout-held fresh (call_all cs started) (call_all-IsBounded cs)

  -- After any calls on a new pool, and after the connection that is held, if any, is dropped,
  -- whether the lock was free for that or not, the next caller gets a connection, where the
  -- database gives one when it is asked.
  pub get_connection-after_drop :
      (cs : List (Call C)) (locks : Bool) (fresh : C)
      → (c : C) × (next_get (some fresh) (call (drops locks 0) (call_all cs started)) ≡ connected c)
  unfolding call
  get_connection-after_drop cs locks fresh =
      let s : System S C = call_all cs started in
      get-connected fresh (call (drops locks 0) s)
        (call-IsBounded (drops locks 0) s (call_all-IsBounded cs))
        (drop-none_held locks s (call_all-one_held cs))
