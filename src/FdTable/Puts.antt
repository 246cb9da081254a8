-- ===== src/FdTable/Puts.antt =====
-- What an operation does to the table: the descriptor it gives, the other descriptors, and the free
-- list, which has exactly the unused descriptors below the next one.
use airyfs.Prelude.{
  ℕ, ◌≤◌, ◌<◌, ◌≡◌, ◌≢◌, true, not, ◌&&◌, none, some, List, arith, ltb, leb, nat_beq, nat_eq,
  if◌then◌else◌,
}
use airyfs.Prelude.Table.{select, replace, select-delete_where}
use airyfs.FdTable.{FdEntry, FdTable, contains, first_user_fd, i32_max, with_entry, get, new}
use airyfs.FdTable.Heap.{copies}

module _ {Ops : Type 0} where
  -- 1 for an unused descriptor below `next_vfd` that is not a standard one
  abbrev pub unused : FdTable Ops → ℕ → ℕ
  unused t fd =
      if leb first_user_fd fd && ltb fd t.next_vfd && not (contains t.entries fd) then 1 else 0

  -- A sound table: the descriptors that are open are below the next one, and the free list has each
  -- unused one once.
  pub record IsTable (t : FdTable Ops) : Type 0 where
    pub low : first_user_fd ≤ t.next_vfd
    pub high : t.next_vfd ≤ i32_max
    pub below : (fd : ℕ) → contains t.entries fd ≡ true → fd < t.next_vfd
    pub free : (fd : ℕ) → copies fd t.free_fds ≡ unused t fd

  -- One descriptor gets an entry, and every other one keeps what it had.
  pub record Puts (t t' : FdTable Ops) (fd : ℕ) (entry : FdEntry Ops) : Type 0 where
    pub put : get t' fd ≡ some entry
    pub kept : (j : ℕ) → j ≢ fd → get t' j ≡ get t j
    pub table : IsTable t'

  -- The descriptor is the least one from `least` on that was not open, and it is now.
  pub record Allocated (least : ℕ) (t t' : FdTable Ops) (fd : ℕ) (entry : FdEntry Ops)
      : Type 0 where
    pub enough : least ≤ fd
    pub bounded : fd < i32_max
    pub was_free : get t fd ≡ none
    pub all_used : (j : ℕ) → least ≤ j → j < fd → get t j ≢ none
    pub puts : Puts t t' fd entry

  pub new-IsTable : IsTable (new {Ops = Ops})
  unfolding new select copies
  new-IsTable = record {
    low = ground arith;
    high = ground arith;
    below = λ fd e. ground arith;
    free = λ fd. ground arith;
  }

  pub select-replace :
      (fd j : ℕ) (entry : FdEntry Ops) (m : List (ℕ × FdEntry Ops))
      → select j (replace fd entry m) ≡ (if nat_beq fd j then some entry else select j m)
  unfolding select
  select-replace fd j entry m = ground (arith, select-delete_where (λ (i : ℕ). nat_beq i fd) j m)

  -- An entry is put where `skipped` has room for it.
  pub Puts-at :
      (t skipped : FdTable Ops) (fd : ℕ) (entry : FdEntry Ops)
      → skipped.entries ≡ t.entries
      → first_user_fd ≤ skipped.next_vfd
      → skipped.next_vfd ≤ i32_max
      → fd < skipped.next_vfd
      → ((j : ℕ) → contains t.entries j ≡ true → j < skipped.next_vfd)
      → ((j : ℕ)
          → copies j skipped.free_fds ≡ (
              if leb first_user_fd j
                && ltb j skipped.next_vfd
                && not (contains t.entries j)
                && not (nat_beq fd j)
              then 1
              else 0))
      → Puts t (with_entry fd entry skipped) fd entry
  unfolding get
  Puts-at t skipped fd entry same low high room below free = record {
    put = ground (arith, select-replace fd fd entry skipped.entries);
    kept = λ j apart. ground (arith, select-replace fd j entry skipped.entries);
    table = record {
      low = low;
      high = high;
      below = λ j e. ground (arith, select-replace fd j entry skipped.entries, below j);
      free = λ j. ground (arith, select-replace fd j entry skipped.entries, free j);
    };
  }
