-- ===== src/FdTable/Scan.antt =====
-- The loops over descriptors: the search for an unused one, and the gap that a skip leaves.
use airyfs.Prelude.{
  ℕ, ◌+◌, ◌-◌, ◌≤◌, ◌<◌, ◌≡◌, not, ◌&&◌, none, some, Option-cases, Bool-cases, inl, inr, List, ◌∷◌,
  arith, ltb, leb, nat_eq, if◌then◌else◌, zero, suc, true,
}
use airyfs.Prelude.Table.{select}
use airyfs.FdTable.{
  FdEntry, FdTable, contains, find_unused, push_gap, first_user_fd, i32_max, skip_to,
}
use airyfs.FdTable.Heap.{copies}

module _ {Ops : Type 0} where
  -- The search finds the least unused descriptor of its range.
  pub find_unused-least :
      (n : ℕ) (entries : List (ℕ × FdEntry Ops)) (fd x : ℕ)
      → find_unused n entries fd ≡ some x
      → (fd ≤ x)
        × (x < fd + n)
        × (select x entries ≡ none)
        × ((j : ℕ) → fd ≤ j → j < x → contains entries j ≡ true)
  unfolding find_unused
  find_unused-least zero entries fd x e = cc
  find_unused-least (suc n) entries fd x e = elim (Option-cases (select fd entries)) [
    | inl free ↦ ground arith
    | inr (entry, used) ↦
        let rest = find_unused-least n entries (fd + 1) x (ground arith) in
        (
          omega (arith, rest.0),
          omega (arith, rest.1),
          rest.2,
          λ j low high. ground (arith, rest.3 j),
        )
  ]

  find_unused-full :
      (n : ℕ) (entries : List (ℕ × FdEntry Ops)) (fd j : ℕ)
      → find_unused n entries fd ≡ none
      → fd ≤ j
      → j < fd + n
      → contains entries j ≡ true
  unfolding find_unused
  find_unused-full zero entries fd j e low high = ground arith
  find_unused-full (suc n) entries fd j e low high =
      ground (arith, find_unused-full n entries (fd + 1) j)

  -- The gap adds each unused descriptor of its range once.
  copies-push_gap :
      (n : ℕ) (entries : List (ℕ × FdEntry Ops)) (fd : ℕ) (free : List ℕ) (j : ℕ)
      → copies j (push_gap n entries fd free)
        ≡ copies j free
          + (if leb fd j && ltb j (fd + n) && leb first_user_fd j && not (contains entries j)
              then 1
              else 0)
  unfolding push_gap copies
  copies-push_gap zero entries fd free j = ground arith
  copies-push_gap (suc n) entries fd free j = ground (
    arith,
    copies-push_gap n entries (fd + 1)
        (if leb first_user_fd fd && not (contains entries fd) then fd ∷ free else free) j,
  )

-- A skip keeps the entries, and adds the descriptors of the gap to the free list.
pub skip_to-ok :
    {Ops : Type 0} (fd : ℕ) (t skipped : FdTable Ops)
    → skip_to fd t ≡ some skipped
    → (skipped.entries ≡ t.entries)
      × (skipped.next_vfd ≡ (if leb t.next_vfd fd then fd + 1 else t.next_vfd))
      × (t.next_vfd ≤ fd → fd < i32_max)
      × ((j : ℕ)
          → copies j skipped.free_fds
            ≡ copies j t.free_fds
              + (if leb t.next_vfd j
                    && ltb j fd
                    && leb first_user_fd j
                    && not (contains t.entries j)
                  then 1
                  else 0))
unfolding skip_to
skip_to-ok fd t skipped e = elim (Bool-cases (leb t.next_vfd fd)) [
  | inr inside ↦ (ground arith, ground arith, λ far. ground arith, λ j. ground arith)
  | inl beyond ↦ (
    ground arith,
    ground arith,
    λ far. ground arith,
    λ j. ground (arith, copies-push_gap (fd - t.next_vfd) t.entries t.next_vfd t.free_fds j),
  )
]

pub skip_to-total :
    {Ops : Type 0} (fd : ℕ) (t : FdTable Ops)
    → fd < i32_max
    → (skipped : FdTable Ops) × (skip_to fd t ≡ some skipped)
unfolding skip_to
skip_to-total fd t small = elim (Option-cases (skip_to fd t)) [
  | inl panics ↦ absurd (ground arith)
  | inr found ↦ found
]
