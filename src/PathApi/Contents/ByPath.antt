-- ===== src/PathApi/Contents/ByPath.antt =====
-- `pwrite` by path, of a path that names a file.
use airyfs.Prelude.{
  ℕ, ◌+◌, ◌^◌, ◌<◌, ◌≡◌, refl, ◌∙◌, true, false, some, List, ◌∷◌, arith, length, nat_eq, entry_eq,
  pair_eq, bytes_eq,
}
use airyfs.Prelude.Table.{Distinct}
use airyfs.Mode.{Stamp}
use airyfs.Db.{Bytes, Db, root_ino}
use airyfs.File.{FileHandle, pwrite, size_of}
use airyfs.Fs.{Fs}
use airyfs.Fs.WellFormed.{entry_at}
use airyfs.File.Content.{IsFile, contents}
use airyfs.Fs.Cache.{Lru, IsCoherent}
use airyfs.PathName.{normalize_path, split_path, without_last}
use airyfs.PathName.Pieces.{is_clean, all_of}
use airyfs.PathName.Clean.{split_path-clean}
use airyfs.PathApi.{returns, last_name}
use airyfs.PathApi.Walk.{walk, resolve_path-walk}
use airyfs.PathApi.Make.Parent.{walk-last, resolve_parent-Answers}
use airyfs.PathApi.Stat.Links.{named_ino, normalize_path-slash}
use airyfs.PathApi.Contents.{write_bytes, pwrite_path}
use airyfs.PathApi.Contents.Write.{contents-write_bytes}

module _ (lru : Lru) (now now' : Stamp) (given : Bytes) (ino parent : ℕ) (w : Bytes)
    (ws : List Bytes) (fs : Fs) (off b : ℕ) (bs : Bytes)
    (cut : split_path (normalize_path given) ≡ w ∷ ws) (d : Distinct fs.db.dentries)
    (c : IsCoherent fs) (up : walk fs.db (without_last (w ∷ ws)) root_ino ≡ some parent)
    (entry : entry_at fs.db (parent, last_name (w ∷ ws)) ≡ some ino) where
  -- the open file that the path names
  abbrev pub opened : FileHandle
  opened = record { ino = ino; chunk_size = fs.chunk_size }

  -- Where no name stands twice in a directory, the cache is coherent and the path leads to an
  -- entry of a sound file, `pwrite` by path of at least one byte, ending below 2^63, succeeds,
  -- and leaves the file with the contents that `pwrite` of the open file gives it, though it
  -- cuts the bytes into chunks in another way.
  pub pwrite_path-contents :
      IsFile fs.db opened
      → off + length (b ∷ bs) < 2 ^ 63
      → (fs' : Fs) × (pwrite_path lru now given off (b ∷ bs) fs ≡ returns tt fs')
        × (contents fs'.db opened ≡ contents (pwrite now' fs.db opened off (b ∷ bs)) opened)
  unfolding pwrite_path
  pwrite_path-contents sound bound =
      let all : all_of is_clean (split_path (normalize_path given)) ≡ true =
        (let (rest, is) = normalize_path-slash given in rw is (split_path-clean rest)) in
      let clean : all_of is_clean (w ∷ ws) ≡ true = rw cut at all in
      let named : named_ino fs.db (normalize_path given) ≡ some ino =
        ground (arith, walk-last fs.db w ws root_ino) in
      let first = resolve_parent-Answers lru fs w ws clean d c parent up in
      let found =
        resolve_path-walk lru (normalize_path given) first.after (rw first.tables d)
          first.coherent in
      let unit : found.after.chunk_size ≡ fs.chunk_size = found.chunking ∙ first.chunking in
      let same : found.after.db ≡ fs.db = found.tables ∙ first.tables in
      let db' : Db =
        write_bytes now ino false fs.chunk_size (b ∷ bs) (size_of fs.db ino) off fs.db in
      let moved : write_bytes now ino false found.after.chunk_size (b ∷ bs)
            (size_of found.after.db ino) off found.after.db
          ≡ db' =
        rw (same, unit) refl in
      (
        record found.after { db = db' },
        ground (arith, named, first.result, first.tables, found.result, moved),
        contents-write_bytes now now' fs.db opened off b bs sound bound,
      )
