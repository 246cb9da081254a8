-- ===== src/PathApi/Remove/Links.antt =====
-- `remove` by path, of a symbolic link.
use airyfs.Prelude.{
  ℕ, ◌<◌, ◌≡◌, ◌≢◌, refl, ◌∙◌, true, none, some, List, ◌∷◌, arith, nat_eq, entry_eq, pair_eq,
  bytes_eq,
}
use airyfs.Prelude.Int.{dec}
use airyfs.Prelude.Table.{select, update, select-update_ne, select-update_self, Distinct}
use airyfs.Mode.{Stamp, Stats, err, is_directory, not_found}
use airyfs.Db.{Bytes, Inode, root_ino}
use airyfs.Fs.{Fs, Entry, remove}
use airyfs.Fs.Delete.{child_count}
use airyfs.Fs.WellFormed.{row_at, entry_at}
use airyfs.Fs.Drop.{drop_if_unlinked-others}
use airyfs.Fs.Cache.{Lru, IsCoherent}
use airyfs.PathName.{normalize_path, split_path, without_last}
use airyfs.PathName.Pieces.{is_clean, all_of}
use airyfs.PathName.Clean.{split_path-clean}
use airyfs.PathApi.{returns, last_name}
use airyfs.PathApi.Make.Parent.{walk-last, resolve_parent-Answers}
use airyfs.PathApi.Walk.{walk, Answers, resolve_path-walk}
use airyfs.PathApi.Stat.{max_symlink_depth}
use airyfs.PathApi.Stat.Links.{attributes, named_ino, Links, Ends, normalize_path-slash}
use airyfs.PathApi.Stat.Follow.{stat_with_conn-follows}
use airyfs.PathApi.Remove.{remove_path, removed_path}

module _ (lru : Lru) (now : Stamp) (given q : Bytes) (n ino parent : ℕ) (w : Bytes)
    (ws : List Bytes) (fs : Fs) (cut : split_path (normalize_path given) ≡ w ∷ ws)
    (d : Distinct fs.db.dentries) (c : IsCoherent fs)
    (up : walk fs.db (without_last (w ∷ ws)) root_ino ≡ some parent)
    (entry : entry_at fs.db (parent, last_name (w ∷ ws)) ≡ some ino) (plain : ino ≢ root_ino)
    (few : n < max_symlink_depth) where
  -- the path names the entry's inode
  named : named_ino fs.db (normalize_path given) ≡ some ino
  named = ground (arith, walk-last fs.db w ws root_ino)

  clean : all_of is_clean (w ∷ ws) ≡ true
  clean =
      let (rest, is) = normalize_path-slash given in
      let all : all_of is_clean (split_path (normalize_path given)) ≡ true =
        rw is (split_path-clean rest) in
      rw cut at all

  module _ (links : Links fs.db (normalize_path (normalize_path given)) n q) where
    -- Where no name stands twice in a directory, the cache is coherent, the parent and the last
    -- name of the path lead to an entry of an inode other than the root, and fewer than 40
    -- symbolic links lead from the path to one that names nothing, `remove` of the path fails
    -- with `not_found`, and leaves the tables as they are: a dangling symbolic link cannot be
    -- removed.
    pub remove_path-dangling :
        attributes fs.db q ≡ none → Answers (remove_path lru now given) fs (err not_found)
    unfolding remove_path
    remove_path-dangling gone =
        let path : Bytes = normalize_path given in
        let found = resolve_path-walk lru path fs d c in
        let stat =
          stat_with_conn-follows lru path q n found.after (rw found.tables d) found.coherent
            (rw found.tables links) few (rw (found.tables, gone) tt) in
        record {
          after = stat.after;
          result = ground (arith, named, found.result, stat.result, found.tables);
          tables = stat.tables ∙ found.tables;
          chunking = stat.chunking ∙ found.chunking;
          coherent = stat.coherent;
        }

    -- What `remove` has done to the tables.
    pub remove_path-removes :
        (stats : Stats)
        → attributes fs.db q ≡ some stats
        → Ends (some stats)
        → child_count fs.db ino ≡ 0
        → (fs' : Fs) × (remove_path lru now given fs ≡ returns tt fs')
          × (fs'.db ≡ removed_path now ino (is_directory stats) (parent, last_name (w ∷ ws)) fs.db)
    unfolding remove_path
    remove_path-removes stats shown ends empty =
        let path : Bytes = normalize_path given in
        let found = resolve_path-walk lru path fs d c in
        let stat =
          stat_with_conn-follows lru path q n found.after (rw found.tables d) found.coherent
            (rw found.tables links) few (rw (found.tables, shown) ends) in
        let tables : stat.after.db ≡ fs.db = stat.tables ∙ found.tables in
        let up' =
          resolve_parent-Answers lru stat.after w ws clean (rw tables d) stat.coherent parent
            (rw tables up) in
        let k : Entry = (parent, last_name (w ∷ ws)) in
        let fs' : Fs = record up'.after {
          db = removed_path now ino (is_directory stats) k up'.after.db;
          cache = remove k ∷ up'.after.cache;
        } in
        (
          fs',
          ground (
            arith, named, found.result, stat.result, found.tables, tables, up'.result, up'.tables,
          ),
          rw (up'.tables ∙ tables) refl,
        )

    -- Where no name stands twice in a directory, the cache is coherent, the path leads to an
    -- entry of an inode other than the root and its parent that has no children, and zero to 39
    -- symbolic links lead from the path to a directory, `remove` of the path succeeds and
    -- lowers the link count of the parent by one, also where the path names a link to the
    -- directory and not the directory.
    pub remove_path-lowers_parent :
        (stats : Stats) (row : Inode)
        → attributes fs.db q ≡ some stats
        → is_directory stats ≡ true
        → child_count fs.db ino ≡ 0
        → parent ≢ ino
        → row_at fs.db parent ≡ some row
        → (fs' : Fs) × (remove_path lru now given fs ≡ returns tt fs')
          × (row_at fs'.db parent
              ≡ some (record row { nlink = dec row.nlink; ctime = now; mtime = now }))
    unfolding removed_path
    remove_path-lowers_parent stats row shown dir empty apart there =
        let ends : Ends (some stats) = ground arith in
        let (fs', result, tables) = remove_path-removes stats shown ends empty in
        let f : Inode → Inode = λ r. record r { nlink = dec r.nlink } in
        let g : Inode → Inode = λ r. record r { nlink = dec r.nlink; ctime = now; mtime = now } in
        let before : select parent (update ino f fs.db.inodes) ≡ some row =
          select-update_ne ino parent f fs.db.inodes apart ∙ there in
        (
          fs',
          result,
          rw (tables, dir)
              (drop_if_unlinked-others ino _ parent apart
                ∙ select-update_self parent g (update ino f fs.db.inodes) row before),
        )
