-- ===== src/FdTable.antt =====
-- sandbox/src/vfs/fdtable.rs: the table of virtual file descriptors of a process. A descriptor is
-- a non-negative i32. The mutex serialises the operations, so each is a function of the table; a
-- panic is none. The heap of freed descriptors is the list of its elements, in no order.
pub mod Heap
pub mod Scan
pub mod Puts
pub mod Lowest
use airyfs.Prelude.{
  ℕ, zero, suc, ◌+◌, ◌-◌, Bool, true, false, not, ◌&&◌, Option, none, some, List, [], ◌∷◌, ltb, leb,
  nat_beq, nat_eq, if◌then◌else◌,
}
use airyfs.Prelude.Int.{ℤ, pos}
use airyfs.Prelude.Table.{select, delete, replace}
use airyfs.Db.{Bytes}

abbrev pub first_user_fd : ℕ
first_user_fd = 3

abbrev pub i32_max : ℕ
i32_max = 2147483647

-- The operations of a virtual file are opaque here.
pub data FdEntry (Ops : Type 0) : Type 0 where
  passthrough : ℤ → ℤ → Option Bytes → FdEntry Ops
  virtual_file : Ops → ℤ → Option Bytes → FdEntry Ops

module _ {Ops : Type 0} where
  unfoldable pub kernel_fd : FdEntry Ops → Option ℤ
  kernel_fd (passthrough fd fl p) = some fd
  kernel_fd (virtual_file ops fl p) = none

  unfoldable pub flags : FdEntry Ops → ℤ
  flags (passthrough fd fl p) = fl
  flags (virtual_file ops fl p) = fl

  unfoldable pub path : FdEntry Ops → Option Bytes
  path (passthrough fd fl p) = p
  path (virtual_file ops fl p) = p

  unfoldable pub file_ops : FdEntry Ops → Option Ops
  file_ops (passthrough fd fl p) = none
  file_ops (virtual_file ops fl p) = some ops

-- `FdTableInner`
pub record FdTable (Ops : Type 0) : Type 0 where
  pub entries : List (ℕ × FdEntry Ops)
  pub next_vfd : ℕ
  pub free_fds : List ℕ

-- the top of the min-heap
abbrev pub top : ℕ → List ℕ → ℕ
top x [] = x
top x (y ∷ ys) = let rest = top y ys in if ltb rest x then rest else x

-- the heap without one copy of an element
abbrev pub without_one : ℕ → List ℕ → List ℕ
without_one x [] = []
without_one x (y ∷ ys) = let rest = without_one x ys in if nat_beq y x then ys else y ∷ rest

-- `free_fds.pop()`
unfoldable pub pop : List ℕ → Option (ℕ × List ℕ)
pop [] = none
pop (x ∷ xs) = some (top x xs, without_one (top x xs) (x ∷ xs))

-- `.filter(|&Reverse(fd)| fd != vfd)`
unfoldable pub without_all : ℕ → List ℕ → List ℕ
without_all x [] = []
without_all x (y ∷ ys) = let rest = without_all x ys in if nat_beq y x then rest else y ∷ rest

infixl 5 ◌>>=◌
abbrev pub ◌>>=◌ {ℓ κ} : {A : Type ℓ} {B : Type κ} → Option A → (A → Option B) → Option B
none >>= f = none
some a >>= f = f a

module _ {Ops : Type 0} where
  abbrev pub is_some : Option (FdEntry Ops) → Bool
  is_some none = false
  is_some (some e) = true

  -- `entries.contains_key(&fd)`
  abbrev pub contains : List (ℕ × FdEntry Ops) → ℕ → Bool
  contains entries fd = is_some (select fd entries)

  -- `FdTable::new`
  unfoldable pub new : FdTable Ops
  new = record {
    entries =
        (0, passthrough (pos 0) (pos 0) none)
        ∷ (1, passthrough (pos 1) (pos 0) none)
        ∷ (2, passthrough (pos 2) (pos 0) none)
        ∷ [];
    next_vfd = first_user_fd;
    free_fds = [];
  }

  -- `deep_clone`: the new table has a copy of each field
  unfoldable pub deep_clone : FdTable Ops → FdTable Ops
  deep_clone t = record { entries = t.entries; next_vfd = t.next_vfd; free_fds = t.free_fds }

  -- `(fd..i32::MAX).find(|fd| !entries.contains_key(fd))`; the first argument is the length of the
  -- range
  unfoldable pub find_unused : ℕ → List (ℕ × FdEntry Ops) → ℕ → Option ℕ
  find_unused zero entries fd = none
  find_unused (suc left) entries fd = elim (select fd entries) [
    | none ↦ some fd
    | some _ ↦ find_unused left entries (fd + 1)
  ]

  -- `while fd < vfd`: the unused descriptors that are skipped go to the heap; the first argument is
  -- vfd - fd
  unfoldable pub push_gap : ℕ → List (ℕ × FdEntry Ops) → ℕ → List ℕ → List ℕ
  push_gap zero entries fd free = free
  push_gap (suc left) entries fd free =
      push_gap left entries (fd + 1)
        (if leb first_user_fd fd && not (contains entries fd) then fd ∷ free else free)

  -- `entries.insert(vfd, entry)`
  abbrev pub with_entry : ℕ → FdEntry Ops → FdTable Ops → FdTable Ops
  with_entry vfd entry t = record t { entries = replace vfd entry t.entries }

  -- a descriptor at or above `next_vfd` moves it; past i32::MAX the addition panics
  unfoldable pub skip_to : ℕ → FdTable Ops → Option (FdTable Ops)
  skip_to vfd t =
      if leb t.next_vfd vfd
      then (if ltb vfd i32_max
          then some (record t {
            next_vfd = vfd + 1;
            free_fds = push_gap (vfd - t.next_vfd) t.entries t.next_vfd t.free_fds;
          })
          else none)
      else some t

  unfoldable pub allocate : FdEntry Ops → FdTable Ops → Option (ℕ × FdTable Ops)
  allocate entry t = elim (pop t.free_fds) [
    | some (fd, free) ↦ some (fd, with_entry fd entry (record t { free_fds = free }))
    | none ↦
        if nat_beq t.next_vfd i32_max
        then (elim (find_unused (i32_max - first_user_fd) t.entries first_user_fd) [
          | none ↦ none
          | some fd ↦ some (fd, with_entry fd entry t)
        ])
        else some (t.next_vfd, with_entry t.next_vfd entry (record t { next_vfd = t.next_vfd + 1 }))
  ]

  unfoldable pub allocate_min : ℕ → FdEntry Ops → FdTable Ops → Option (ℕ × FdTable Ops)
  allocate_min min_vfd entry t = do
    vfd ← find_unused (i32_max - min_vfd) t.entries min_vfd
    skipped ← skip_to vfd t
    some
        (vfd, with_entry vfd entry (record skipped { free_fds = without_all vfd skipped.free_fds }))

  -- the result has the entry that stood at the descriptor
  unfoldable pub allocate_at :
      ℕ → FdEntry Ops → FdTable Ops → Option (Option (FdEntry Ops) × FdTable Ops)
  allocate_at vfd entry t = do
    skipped ← skip_to vfd (record t { free_fds = without_all vfd t.free_fds })
    some (select vfd skipped.entries, with_entry vfd entry skipped)

  unfoldable pub get : FdTable Ops → ℕ → Option (FdEntry Ops)
  get t vfd = select vfd t.entries

  unfoldable pub translate : FdTable Ops → ℕ → Option ℤ
  translate t vfd = elim (get t vfd) [ none ↦ none | some entry ↦ kernel_fd entry ]

  unfoldable pub deallocate : ℕ → FdTable Ops → Option (FdEntry Ops) × FdTable Ops
  deallocate vfd t = elim (select vfd t.entries) [
    | none ↦ (none, t)
    | some entry ↦ (
      some entry,
      record t {
        entries = delete vfd t.entries;
        free_fds = if leb first_user_fd vfd then vfd ∷ t.free_fds else t.free_fds;
      },
    )
  ]

  -- `duplicate`: the inner none is a descriptor that is not open
  unfoldable pub duplicate : ℕ → FdTable Ops → Option (Option ℕ × FdTable Ops)
  duplicate old_vfd t = elim (get t old_vfd) [
    | none ↦ some (none, t)
    | some entry ↦ elim (allocate entry t) [ none ↦ none | some (fd, t') ↦ some (some fd, t') ]
  ]

  unfoldable pub duplicate_at : ℕ → ℕ → FdTable Ops → Option (Option (FdEntry Ops) × FdTable Ops)
  duplicate_at old_vfd new_vfd t = elim (get t old_vfd) [
    | none ↦ some (none, t)
    | some entry ↦ allocate_at new_vfd entry t
  ]
