-- ===== src/Tests/Pool.antt =====
-- A pool on a semaphore that is its number of permits; connections are numbers.
use airyfs.Prelude.{
  ℕ, ◌+◌, ◌-◌, ◌≡◌, ◌↔◌, refl, true, false, Option, none, some, List, [], ◌∷◌, length, nat_beq,
  if◌then◌else◌, arith,
}
use airyfs.Pool.{Semaphore, connected, refused, connection_pool_timeout}
use airyfs.Pool.Bound.{
  Call, gets, drops, call, call_all, started, IsBounded, next_get, call_all-IsBounded,
  get_connection-timeout, get_connection-after_drop,
}

abbrev taken : ℕ → Option ℕ
taken n = if nat_beq n 0 then none else some (n - 1)

abbrev counter : Semaphore ℕ
counter = record {
  new = λ n. n;
  available_permits = λ n. n;
  acquire = taken;
  release = λ n. n + 1;
  new_permits = λ n. refl;
  acquire_none = λ n e. ground arith;
  acquire_some = λ n p. (n - 1, ground arith, omega arith);
  release_permits = λ n. refl;
}

-- one connection is held, a second caller times out, the first drops its own, a third takes it
abbrev calls : List (Call ℕ)
calls = gets (some 7) ∷ gets (some 8) ∷ drops true 0 ∷ gets none ∷ []

call_all-IsBounded_example : IsBounded counter (call_all counter calls (started counter))
call_all-IsBounded_example = call_all-IsBounded counter calls

get_connection-timeout_example :
    (next_get counter (some 9) (call_all counter calls (started counter))
      ≡ refused connection_pool_timeout)
    ↔ (length (call_all counter calls (started counter)).held ≡ 1)
get_connection-timeout_example = get_connection-timeout counter calls (some 9)

get_connection-after_drop_example :
    (c : ℕ) × (next_get counter
        (some 9)
        (call counter (drops false 0) (call_all counter calls (started counter)))
      ≡ connected c)
get_connection-after_drop_example = get_connection-after_drop counter calls false 9
