-- ===== src/FdTable/Lowest.antt =====
-- The descriptor that each operation of the table gives or frees.
use mathlib.Core.Path.{subst}
use airyfs.Prelude.{
  ℕ, ◌+◌, ◌-◌, ◌≤◌, ◌<◌, ◌≡◌, ◌≢◌, refl, sym, false, none, some, Option-cases, Bool-cases, inl, inr,
  List, ◌∷◌, arith, leb, nat_beq, nat_eq, if◌then◌else◌,
}
use airyfs.Prelude.Table.{select, delete, select-delete_where}
use airyfs.FdTable.{
  FdEntry, FdTable, find_unused, first_user_fd, i32_max, pop, without_all, with_entry, skip_to,
  allocate, allocate_min, allocate_at, deallocate, get,
}
use airyfs.FdTable.Heap.{copies, copies-without_all, pop-least, pop-none}
use airyfs.FdTable.Scan.{find_unused-least, skip_to-ok, skip_to-total}
use airyfs.FdTable.Puts.{IsTable, Puts, Allocated, Puts-at}

module _ {Ops : Type 0} (t : FdTable Ops) (h : IsTable t) (entry : FdEntry Ops) where
  -- a descriptor that is free, all lower ones in use
  popped :
      (fd : ℕ) (rest : List ℕ)
      → pop t.free_fds ≡ some (fd, rest)
      → Allocated first_user_fd t (with_entry fd entry (record t { free_fds = rest })) fd entry
  unfolding get
  popped fd rest e =
      let least = pop-least t.free_fds rest fd e in
      record {
        enough = ground (arith, h.free fd, least.0);
        bounded = ground (arith, h.free fd, least.0, h.high);
        was_free = ground (arith, h.free fd, least.0);
        all_used = λ j low high. ground (arith, h.free j, h.free fd, least.0, least.1 j);
        puts =
            Puts-at t (record t { free_fds = rest }) fd entry refl h.low h.high
              (ground (arith, h.free fd, least.0)) h.below
              (λ j. ground (arith, h.free j, least.2 j, h.free fd, least.0));
      }

  fresh :
      pop t.free_fds ≡ none
      → nat_beq t.next_vfd i32_max ≡ false
      → Allocated first_user_fd t
          (with_entry t.next_vfd entry (record t { next_vfd = t.next_vfd + 1 }))
          t.next_vfd
          entry
  unfolding get
  fresh e room = record {
    enough = h.low;
    bounded = ground (arith, h.high);
    was_free = ground (arith, h.below t.next_vfd);
    all_used = λ j low high. ground (arith, h.free j, pop-none t.free_fds j e);
    puts =
        Puts-at t (record t { next_vfd = t.next_vfd + 1 }) t.next_vfd entry refl
          (omega (arith, h.low)) (ground (arith, h.high)) (omega arith)
          (λ j c. omega (arith, h.below j c))
          (λ j. ground (arith, h.free j, pop-none t.free_fds j e, h.below j));
  }

  -- On a sound table, a descriptor that `allocate` gives is the lowest one from 3 on that was
  -- not open, also after descriptors were freed; it is open with the given entry then, every
  -- other descriptor keeps its entry, and the table is sound.
  pub allocate-Allocated :
      (fd : ℕ) (t' : FdTable Ops)
      → allocate entry t ≡ some (fd, t')
      → Allocated first_user_fd t t' fd entry
  unfolding allocate
  allocate-Allocated fd t' e = elim (Option-cases (pop t.free_fds)) [
    | inr ((x, rest), top) ↦
        let done : (x, with_entry x entry (record t { free_fds = rest })) ≡ (fd, t') =
          ground arith in
        subst (λ (p : ℕ × FdTable Ops). Allocated first_user_fd t p.1 p.0 entry) done
          (popped x rest top)
    | inl empty ↦ elim (Bool-cases (nat_beq t.next_vfd i32_max)) [
      | inr room ↦
          let done : (
            t.next_vfd,
            with_entry t.next_vfd entry (record t { next_vfd = t.next_vfd + 1 }),
          )
              ≡ (fd, t') =
            ground arith in
          subst (λ (p : ℕ × FdTable Ops). Allocated first_user_fd t p.1 p.0 entry) done
            (fresh empty room)
      | inl full ↦
          elim (Option-cases (find_unused (i32_max - first_user_fd) t.entries first_user_fd)) [
            | inl all_used ↦ absurd (ground arith)
            | inr (x, found) ↦
                let least =
                  find_unused-least (i32_max - first_user_fd) t.entries first_user_fd x found in
                absurd
                  (ground (arith, h.free x, pop-none t.free_fds x empty, least.0, least.1, least.2))
          ]
    ]
  ]

  -- On a sound table, a descriptor that `allocate_min` gives is the lowest one from the minimum
  -- on that was not open; it is open with the given entry then, every other descriptor keeps
  -- its entry, and the table is sound.
  allocate_min-Allocated :
      (min_vfd fd : ℕ) (t' : FdTable Ops)
      → allocate_min min_vfd entry t ≡ some (fd, t')
      → Allocated min_vfd t t' fd entry
  unfolding allocate_min get
  allocate_min-Allocated min_vfd fd t' e =
      elim (Option-cases (find_unused (i32_max - min_vfd) t.entries min_vfd)) [
        | inl all_used ↦ absurd (ground arith)
        | inr (x, found) ↦ elim (Option-cases (skip_to x t)) [
          | inl panics ↦ absurd (ground arith)
          | inr (skipped, skips) ↦
              let freed : FdTable Ops = record skipped {
                free_fds = without_all x skipped.free_fds;
              } in
              let done : Path (ℕ × FdTable Ops) (x, with_entry x entry freed) (fd, t') =
                ground arith in
              let least = find_unused-least (i32_max - min_vfd) t.entries min_vfd x found in
              let after = skip_to-ok x t skipped skips in
              let used : (j : ℕ) → min_vfd ≤ j → j < x → get t j ≢ none =
                λ j low high. let c = least.3 j low high in ground arith in
              subst (λ (p : ℕ × FdTable Ops). Allocated min_vfd t p.1 p.0 entry) done
                (record {
                  enough = least.0;
                  bounded = omega (arith, least.1, least.0);
                  was_free = least.2;
                  all_used = used;
                  puts =
                      Puts-at t freed x entry after.0 (ground (arith, after.1, h.low))
                        (ground (arith, after.1, h.high, after.2)) (ground (arith, after.1))
                        (λ j c. ground (arith, after.1, h.below j))
                        (λ j. ground (
                          arith,
                          after.1,
                          after.3 j,
                          h.free j,
                          h.below j,
                          copies-without_all j x skipped.free_fds,
                        ));
                })
        ]
      ]

  -- On a sound table, `allocate_at` of a descriptor below the greatest i32 does not panic and
  -- returns the entry that stood there; the descriptor has the given entry then, every other
  -- one keeps its entry, and the table is sound.
  allocate_at-Puts :
      (fd : ℕ)
      → fd < i32_max
      → (t' : FdTable Ops) × (allocate_at fd entry t ≡ some (get t fd, t')) × Puts t t' fd entry
  unfolding allocate_at get
  allocate_at-Puts fd small =
      let freed : FdTable Ops = record t { free_fds = without_all fd t.free_fds } in
      let (skipped, skips) = skip_to-total fd freed small in
      let after = skip_to-ok fd freed skipped skips in
      (
        with_entry fd entry skipped,
        (rw (skips, after.0) refl),
        Puts-at t skipped fd entry after.0 (ground (arith, after.1, h.low))
            (ground (arith, after.1, h.high)) (ground (arith, after.1))
            (λ j c. ground (arith, after.1, h.below j))
            (λ j.
              ground (
                arith,
                after.1,
                after.3 j,
                h.free j,
                h.below j,
                copies-without_all j fd t.free_fds,
              )),
      )

-- On a sound table, `deallocate` returns the entry of the descriptor; the descriptor is closed
-- then, every other one keeps its entry, and the table is sound.
pub deallocate-frees :
    {Ops : Type 0} (t : FdTable Ops) (fd : ℕ)
    → IsTable t
    → ((deallocate fd t).0 ≡ get t fd)
      × (get (deallocate fd t).1 fd ≡ none)
      × ((j : ℕ) → j ≢ fd → get (deallocate fd t).1 j ≡ get t j)
      × IsTable (deallocate fd t).1
unfolding deallocate get copies
deallocate-frees {Ops} t fd h = elim (Option-cases (select fd t.entries)) [
  | inl absent ↦
      let is : deallocate fd t ≡ (none, t) = rw (deallocate, absent) refl in
      rw is (sym absent, absent, (λ j apart. refl), h)
  | inr (entry, there) ↦
      let freed : FdTable Ops = record t {
        entries = delete fd t.entries;
        free_fds = if leb first_user_fd fd then fd ∷ t.free_fds else t.free_fds;
      } in
      let is : deallocate fd t ≡ (some entry, freed) = rw (deallocate, there) refl in
      let gone : (j : ℕ)
          → select j freed.entries ≡ (if nat_beq j fd then none else select j t.entries) =
        λ j. select-delete_where (λ (i : ℕ). nat_beq i fd) j t.entries in
      rw is (
        sym there,
        ground (arith, gone fd),
        (λ j apart. ground (arith, gone j)),
        record {
          low = h.low;
          high = h.high;
          below = λ j e. ground (arith, gone j, h.below j);
          free = λ j. ground (arith, gone j, h.free j, h.below fd);
        },
      )
]
