-- ===== src/PathApi/Stat/Follow.antt =====
-- The loop of `stat` against the links that the table has.
use mathlib.Core.Path.{subst}
use airyfs.Prelude.{
  ℕ, zero, suc, ◌%◌, ◌^◌, ◌<◌, ◌≡◌, refl, sym, ap, ◌∙◌, false, some, Option-cases, inl, inr, arith,
  nat_beq, nat_eq, entry_eq, pair_eq, bytes_eq,
}
use airyfs.Prelude.Table.{select, Distinct}
use airyfs.Mode.{FsError, ok, file_type, s_iflnk, invalid_path, is_symlink}
use airyfs.Db.{Bytes, Inode, Db, build_stats}
use airyfs.Fs.{Fs, getattr, readlink}
use airyfs.Fs.WellFormed.{row_at}
use airyfs.Fs.Cache.{Lru, IsCoherent}
use airyfs.PathName.{normalize_path}
use airyfs.PathApi.Walk.{Answers, resolve_path-walk}
use airyfs.PathApi.Stat.{
  readlink_path, next_path, target_path, stat_loop, stat_with_conn, max_symlink_depth,
}
use airyfs.PathApi.Stat.Links.{named_ino, attributes, Ends, Links, split_path-normalize_path}

module _ (lru : Lru) where
  -- The state is carried along a database that does not change.
  readlink-target :
      (path target : Bytes) (ino : ℕ) (row : Inode) (fs : Fs)
      → Distinct fs.db.dentries
      → IsCoherent fs
      → named_ino fs.db (normalize_path path) ≡ some ino
      → row_at fs.db ino ≡ some row
      → file_type row.mode ≡ s_iflnk
      → select ino fs.db.symlinks ≡ some target
      → Answers (readlink_path lru path) fs (ok (some target))
  unfolding readlink_path readlink
  readlink-target path target ino row fs d c named there kind stored =
      let found = resolve_path-walk lru (normalize_path path) fs d c in
      record {
        after = found.after;
        result = ground (arith, found.result, found.tables, named);
        tables = found.tables;
        chunking = found.chunking;
        coherent = found.coherent;
      }

  -- one link is followed
  stat_loop-hop :
      (rounds : ℕ) (missing : FsError) (given target : Bytes) (ino : ℕ) (row : Inode) (fs : Fs)
      → Distinct fs.db.dentries
      → IsCoherent fs
      → named_ino fs.db (normalize_path given) ≡ some ino
      → row_at fs.db ino ≡ some row
      → file_type row.mode ≡ s_iflnk
      → select ino fs.db.symlinks ≡ some target
      → (fs' : Fs) × (fs'.db ≡ fs.db)
        × IsCoherent fs'
        × (fs'.chunk_size ≡ fs.chunk_size)
        × (stat_loop lru (suc rounds) missing (normalize_path given) fs
            ≡ stat_loop lru rounds missing (next_path (normalize_path given) target) fs')
  unfolding stat_loop
  stat_loop-hop rounds missing given target ino row fs d c named there kind stored =
      let cur : Bytes = normalize_path given in
      let found = resolve_path-walk lru cur fs d c in
      let read =
        readlink-target cur target ino row found.after (rw found.tables d) found.coherent
          (rw (found.tables, split_path-normalize_path given) named) (rw found.tables there) kind
          (rw found.tables stored) in
      (
        read.after,
        read.tables ∙ found.tables,
        read.coherent,
        read.chunking ∙ found.chunking,
        ground (arith, found.result, found.tables, read.result),
      )

  -- the loop ends at what is no link
  stat_loop-Ends :
      (rounds : ℕ) (missing : FsError) (path : Bytes) (fs : Fs)
      → Distinct fs.db.dentries
      → IsCoherent fs
      → Ends (attributes fs.db path)
      → Answers (stat_loop lru (suc rounds) missing path) fs (ok (attributes fs.db path))
  unfolding stat_loop attributes getattr build_stats
  stat_loop-Ends rounds missing path fs d c ends =
      let found = resolve_path-walk lru path fs d c in
      record {
        after = found.after;
        result = elim (Option-cases (named_ino fs.db path)) [
          | inl absent ↦ ground (arith, found.result)
          | inr (ino, named) ↦ elim (Option-cases (row_at fs.db ino)) [
            | inl gone ↦ ground (arith, found.result, found.tables)
            | inr (row, there) ↦
                let kind : nat_beq (file_type row.mode) s_iflnk ≡ false =
                  let low : file_type (row.mode % 2 ^ 32) ≡ file_type row.mode = omega arith in
                  let shown : attributes fs.db path ≡ some (build_stats ino row) = ground arith in
                  let plain : is_symlink (build_stats ino row) ≡ false = subst Ends shown ends in
                  ap (λ t. nat_beq t s_iflnk) (sym low) ∙ plain in
                ground (arith, found.result, found.tables)
          ]
        ];
        tables = found.tables;
        chunking = found.chunking;
        coherent = found.coherent;
      }

  -- fewer links than rounds
  stat_loop-reaches :
      (rounds n : ℕ) (missing : FsError) (given q : Bytes) (db : Db) (fs : Fs)
      → fs.db ≡ db
      → Distinct db.dentries
      → IsCoherent fs
      → Links db (normalize_path given) n q
      → n < rounds
      → Ends (attributes db q)
      → Answers (stat_loop lru rounds missing (normalize_path given)) fs (ok (attributes db q))
  unfolding next_path
  stat_loop-reaches zero n missing given q db fs same d c links few ends = absurd (omega arith)
  stat_loop-reaches (suc rounds) _ missing given _ db fs same d c (Links.here path q n at is) few
        ends =
      rw (← is, ← same)
        (stat_loop-Ends rounds missing (normalize_path given) fs (rw same d) c (rw (is, same) ends))
  stat_loop-reaches (suc rounds) _ missing given _ db fs same d c
        (Links.hop path q n ino row target named there kind stored links) few ends =
      let (fs', tables, c', chunking, next) =
        stat_loop-hop rounds missing given target ino row fs (rw same d) c (rw same named)
          (rw same there) kind (rw same stored) in
      let rest =
        stat_loop-reaches rounds n missing (target_path (normalize_path given) target) q db fs'
          (tables ∙ same) d c' links (omega arith) ends in
      record {
        after = rest.after;
        result = next ∙ rest.result;
        tables = rest.tables ∙ tables;
        chunking = rest.chunking ∙ chunking;
        coherent = rest.coherent;
      }

  -- `stat_with_conn`, which `remove` and `rename` call.
  pub stat_with_conn-follows :
      (path q : Bytes) (n : ℕ) (fs : Fs)
      → Distinct fs.db.dentries
      → IsCoherent fs
      → Links fs.db (normalize_path path) n q
      → n < max_symlink_depth
      → Ends (attributes fs.db q)
      → Answers (stat_with_conn lru path) fs (ok (attributes fs.db q))
  unfolding stat_with_conn
  stat_with_conn-follows path q n fs d c links few ends =
      stat_loop-reaches max_symlink_depth n invalid_path path q fs.db fs refl d c links few ends
