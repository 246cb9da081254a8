-- ===== src/Fs/Cache/Changes.antt =====
-- `rename`, the changes of attributes and the writes of a file leave the cache coherent.
use airyfs.Prelude.{
  ℕ, ◌^◌, ◌<◌, ◌≡◌, ◌≢◌, refl, sym, ap, ◌∙◌, Option, some, Option-cases, Bool-cases, inl, inr, List,
  ◌∷◌, arith, nat_eq, entry_eq, pair_eq, bytes_eq, entry_beq, entry_beq_iff, if◌then◌else◌,
}
use airyfs.Prelude.Table.{length-delete_where, select, delete, select-delete_where}
use airyfs.Mode.{Stamp, TimeChange, Stats, ok}
use airyfs.Db.{Bytes, build_stats}
use airyfs.Fs.{Fs, Entry, insert, remove}
use airyfs.Fs.Move.{rename, rekey}
use airyfs.Fs.Modify.{chmod, chown, utimens, both_none, both_omit}
use airyfs.Fs.WellFormed.{IsWellFormed, IsDir, row_at, entry_at, link_count}
use airyfs.Fs.Rename.{rename-Renamed}
use airyfs.Fs.Rename.Target.{replace_target-Cleared}
use airyfs.Fs.Rename.Rows.{move_entry-rest}
use airyfs.Fs.Cache.{latest, IsCoherent, Advances}
use airyfs.Fs.Cache.Calls.{same-Advances, entry_at-cons}

-- An entry has moved from one key to another that was free, and the cache was told so.
moved-IsCoherent :
    (fs fs' : Fs) (old new : Entry) (ino : ℕ)
    → IsCoherent fs
    → old ≢ new
    → ((j : Entry) → j ≢ old → j ≢ new → entry_at fs'.db j ≡ entry_at fs.db j)
    → entry_at fs'.db new ≡ some ino
    → fs'.cache ≡ insert new ino ∷ remove new ∷ remove old ∷ fs.cache
    → IsCoherent fs'
unfolding latest
moved-IsCoherent fs fs' old new ino c apart others there calls j v e =
    let e' : latest (insert new ino ∷ remove new ∷ remove old ∷ fs.cache) j ≡ some v =
      rw calls at e in
    elim (Bool-cases (entry_beq new j)) [
      | inl same ↦
          let at : new ≡ j = (entry_beq_iff new j).0 same in
          let is : ino ≡ v = ground arith in rw (← at, ← is) there
      | inr other ↦ elim (Bool-cases (entry_beq old j)) [
        | inl gone ↦ absurd (ground arith)
        | inr kept ↦
            let off_old : j ≢ old = λ at. ground (arith, entry_beq_iff old j) in
            let off_new : j ≢ new = λ at. ground (arith, entry_beq_iff new j) in
            others j off_old off_new ∙ c j v (ground arith)
      ]
    ]

-- A table whose rows are those of `db'` with one entry moved.
rekeyed :
    (m : List (Entry × ℕ)) (old new j : Entry) (ino : ℕ)
    → select old m ≡ some ino
    → j ≢ old
    → select j (rekey old new m) ≡ (if entry_beq new j then some ino else select j m)
unfolding rekey
rekeyed m old new j ino there apart =
    rw (there, rekey)
      (entry_at-cons (delete old m) new j ino
        ∙ ground
            (arith, select-delete_where (λ (i : Entry). entry_beq i old) j m, entry_beq_iff j old))

module _ (now_dst now : Stamp) (fs fs' : Fs) (old_parent new_parent : ℕ) (old_name new_name : Bytes)
    (h : IsWellFormed fs.db) (small : (ino : ℕ) → link_count fs.db ino < 2 ^ 32) (c : IsCoherent fs)
    (to : IsDir fs.db new_parent)
    (apart : ◌≢◌ {A = Entry} (old_parent, old_name) (new_parent, new_name)) where
  pub rename-Advances :
      rename now_dst now fs old_parent old_name new_parent new_name ≡ ok fs' → Advances fs fs'
  unfolding rekey
  rename-Advances e =
      let old : Entry = (old_parent, old_name) in
      let new : Entry = (new_parent, new_name) in
      let done = rename-Renamed now_dst now fs fs' old_parent new_parent old_name new_name h e in
      let src : Stats = build_stats done.ino done.row in
      let cleared =
        replace_target-Cleared now_dst fs.db src new_parent new_name h small (entry_at fs.db new)
          done.cleared refl done.replaced in
      let there : entry_at done.cleared old ≡ some done.ino =
        cleared.others old apart ∙ done.entry in
      let entries : fs'.db.dentries ≡ rekey old new done.cleared.dentries =
        ap (λ (s : Fs). s.db.dentries) done.result
        ∙ (move_entry-rest now done.cleared src old new (cleared.dirs old done.ino done.entry)
            (cleared.dir to)).0 in
      let at : (j : Entry)
          → j ≢ old
          → entry_at fs'.db j
            ≡ (if entry_beq new j then some done.ino else entry_at done.cleared j) =
        λ j off. rw entries (rekeyed done.cleared.dentries old new j done.ino there off) in
      record {
        coherent =
            moved-IsCoherent fs fs' old new done.ino c apart
              (λ j off_old off_new.
                at j off_old ∙ ground (arith, cleared.others j off_new, entry_beq_iff new j))
              (at new (λ e'. apart (sym e')) ∙ ground (arith, entry_beq_iff new new))
              (rw done.result refl);
        grown =
            rw (entries, rekey, there)
              (omega (
                arith,
                cleared.shorter,
                length-delete_where (λ (i : Entry). entry_beq i old) done.cleared.dentries,
              ));
      }

module _ (fs fs' : Fs) (c : IsCoherent fs) where
  pub chmod-Advances :
      (now : Stamp) (ino mode : ℕ) → chmod now fs ino mode ≡ ok fs' → Advances fs fs'
  unfolding chmod
  chmod-Advances now ino mode e = elim (Option-cases (row_at fs.db ino)) [
    | inl absent ↦ absurd (ground arith)
    | inr (r, was) ↦ same-Advances fs fs' c (ground arith) (ground arith)
  ]

  pub chown-Advances :
      (now : Stamp) (ino : ℕ) (uid gid : Option ℕ)
      → chown now fs ino uid gid ≡ ok fs'
      → Advances fs fs'
  unfolding chown
  chown-Advances now ino uid gid e = elim (Bool-cases (both_none uid gid)) [
    | inl none_given ↦ same-Advances fs fs' c (ground arith) (ground arith)
    | inr given ↦ elim (Option-cases (row_at fs.db ino)) [
      | inl absent ↦ absurd (ground arith)
      | inr (r, was) ↦ same-Advances fs fs' c (ground arith) (ground arith)
    ]
  ]

  pub utimens-Advances :
      (now_a now_m now : Stamp) (ino : ℕ) (atime mtime : TimeChange)
      → utimens now_a now_m now fs ino atime mtime ≡ ok fs'
      → Advances fs fs'
  unfolding utimens
  utimens-Advances now_a now_m now ino atime mtime e = elim (Option-cases (row_at fs.db ino)) [
    | inl absent ↦ absurd (ground arith)
    | inr (r, was) ↦ elim (Bool-cases (both_omit atime mtime)) [
      | inl omitted ↦ same-Advances fs fs' c (ground arith) (ground arith)
      | inr given ↦ same-Advances fs fs' c (ground arith) (ground arith)
    ]
  ]
