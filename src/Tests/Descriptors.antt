-- ===== src/Tests/Descriptors.antt =====
-- A table with the descriptors 0 to 4, of which 3 is free.
use airyfs.Prelude.{ℕ, ◌≡◌, refl, Bool, none, some, Option, nat_eq}
use airyfs.Prelude.Int.{pos}
use airyfs.Prelude.Table.{select, delete_where}
use airyfs.FdTable.{
  FdEntry, passthrough, FdTable, new, allocate, allocate_min, deallocate, first_user_fd, pop,
  skip_to, find_unused,
}
use airyfs.FdTable.Puts.{IsTable, Allocated, new-IsTable}
use airyfs.FdTable.Lowest.{allocate-Allocated, deallocate-frees}

abbrev Table : Type 0
Table = FdTable Bool

abbrev entry : FdEntry Bool
entry = passthrough (pos 10) (pos 0) none

abbrev standard : Table
standard = new

standard-IsTable : IsTable standard
standard-IsTable = new-IsTable

-- two descriptors are given, and the first one is freed
abbrev table_of : Option (ℕ × Table) → Table
table_of none = standard
table_of (some (fd, t)) = t

abbrev one : Table
one = table_of (allocate entry standard)

abbrev two : Table
two = table_of (allocate entry one)

abbrev freed : Table
freed = (deallocate 3 two).1

first : allocate entry standard ≡ some (3, one)
unfolding allocate new pop
first = refl

second : allocate entry one ≡ some (4, two)
unfolding allocate new pop
second = refl

one-IsTable : IsTable one
one-IsTable = (allocate-Allocated standard standard-IsTable entry 3 one first).puts.table

two-IsTable : IsTable two
two-IsTable = (allocate-Allocated one one-IsTable entry 4 two second).puts.table

freed-IsTable : IsTable freed
freed-IsTable = (deallocate-frees two 3 two-IsTable).3

abbrev reused : Table
reused = table_of (allocate entry freed)

third : allocate entry freed ≡ some (3, reused)
unfolding allocate new pop deallocate select delete_where
third = refl

allocate-Allocated_example : Allocated first_user_fd freed reused 3 entry
allocate-Allocated_example = allocate-Allocated freed freed-IsTable entry 3 reused third

abbrev skipped : Table
skipped = table_of (allocate_min 9 entry freed)

skips : allocate_min 9 entry freed ≡ some (9, skipped)
unfolding allocate_min new find_unused select deallocate allocate pop delete_where skip_to
skips = refl
