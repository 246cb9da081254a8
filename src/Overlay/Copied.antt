-- ===== src/Overlay/Copied.antt =====
-- What `copy_up` puts into the delta for a file of the base.
use airyfs.Prelude.{
  ℕ, ◌+◌, ◌^◌, ◌<◌, ◌≡◌, refl, ap, ◌∙◌, none, some, List, [], ◌∷◌, length, ◌/◌, nat_beq, nat_eq,
  pair_eq, if◌then◌else◌, arith,
}
use airyfs.Prelude.Table.{select, update, select-update}
use airyfs.Mode
use airyfs.Prelude.Int.{pos}
use airyfs.Mode.{Result, Stamp, Stats, s_ifreg, permissions}
use airyfs.Db.{Bytes, Inode, Db}
use airyfs.File.{FileHandle, pwrite, size_of}
use airyfs.File.Content.{byte_at, slice, IsFile, contents, chunk_of_none}
use airyfs.File.Refine.{contents-pwrite, overwrite, overwrite-empty}
use airyfs.Fs.{Fs, touch, with_db}
use airyfs.Fs.Make.{check_new, create_file, created_file, new_inode, new_stats}
use airyfs.Overlay.{Base, Overlay, returns, ◌>>◌, done, in_delta_layer}
use airyfs.Overlay.CopyUp.{create_in, write_delta, copy_file}
use airyfs.Overlay.Quiet.{bind-returns}
use airyfs.Overlay.Quiet.Lookup.{in_layer}

-- the file that is created next
abbrev pub next_file : Fs → FileHandle
next_file fs = record { ino = fs.db.last_ino + 1; chunk_size = fs.chunk_size }

-- No chunks are left of an inode whose number was not given yet.
abbrev pub NoneLeft : Fs → Type 0
NoneLeft fs = (index : ℕ) → select (fs.db.last_ino + 1, index) fs.db.chunks ≡ none

row_inserted :
    (parent ino : ℕ) (now : Stamp) (row : Inode) (rows : List (ℕ × Inode))
    → select ino (update parent (touch now) ((ino, row) ∷ rows))
      ≡ some (if nat_beq ino parent then touch now row else row)
unfolding select
row_inserted parent ino now row rows =
    ground (arith, select-update parent ino (touch now) ((ino, row) ∷ rows))

module _ (now : Stamp) (fs : Fs) (parent : ℕ) (name : Bytes) (mode uid gid : ℕ)
    (positive : 0 < fs.chunk_size) (none_left : NoneLeft fs) where
  abbrev made : Db
  made = (created_file now fs parent name mode uid gid).db

  made-empty : size_of made (fs.db.last_ino + 1) ≡ 0
  unfolding created_file size_of
  made-empty = ground (
    arith,
    row_inserted parent (fs.db.last_ino + 1) now
        (new_inode (s_ifreg + permissions mode) (pos 1) uid gid 0 0 now) fs.db.inodes,
  )

  made-byte : (p : ℕ) → byte_at made (next_file fs) p ≡ 0
  unfolding created_file byte_at
  made-byte p =
      rw
        (chunk_of_none made (fs.db.last_ino + 1) (p / fs.chunk_size)
          (none_left (p / fs.chunk_size)))
        refl

  made-IsFile : IsFile made (next_file fs)
  unfolding created_file
  made-IsFile = record {
    row = _;
    stored =
        row_inserted parent (fs.db.last_ino + 1) now
          (new_inode (s_ifreg + permissions mode) (pos 1) uid gid 0 0 now) fs.db.inodes;
    fit = record {
      positive = positive;
      fits = λ index.
          rw (chunk_of_none made (fs.db.last_ino + 1) index (none_left index)) (omega arith);
    };
    tail = λ p above. made-byte p;
  }

  made-contents : contents made (next_file fs) ≡ []
  unfolding contents slice
  made-contents = rw made-empty refl

  written-contents :
      (content : Bytes)
      → length content < 2 ^ 63
      → contents (pwrite now made (next_file fs) 0 content) (next_file fs) ≡ content
  written-contents content short =
      contents-pwrite now made (next_file fs) 0 content made-IsFile (omega arith)
      ∙ ap (overwrite 0 content) made-contents
      ∙ overwrite-empty content

create_in-ok :
    (now : Stamp) (parent : ℕ) (name : Bytes) (mode uid gid : ℕ) (fs : Fs)
    → check_new fs.db parent name ≡ Mode.ok tt
    → create_in now parent name mode uid gid fs
      ≡ Mode.ok (
        (
          new_stats (fs.db.last_ino + 1) (s_ifreg + permissions mode) 1 uid gid 0 0 now,
          next_file fs,
        ),
        created_file now fs parent name mode uid gid,
      )
unfolding create_file
create_in-ok now parent name mode uid gid fs free = rw (free, create_in, create_file) refl

module _ (base : Base) (now : Stamp) (o : Overlay) (parent : ℕ) (name : Bytes) (base_ino : ℕ)
    (stats : Stats) (read : ℕ → ℕ → Result Bytes) (content : Bytes) where
  -- Where the name is free in the delta, the chunk size is positive, no chunk is left of an
  -- inode number that was not given yet, and the base opens the file and reads content of fewer
  -- than 2^63 bytes, copy_file returns the next inode number, and that file of the delta has
  -- exactly the content as its contents.
  pub copy_file-contents :
      0 < o.delta.chunk_size
      → NoneLeft o.delta
      → check_new o.delta.db parent name ≡ Mode.ok tt
      → base.open_file base_ino ≡ Mode.ok read
      → read 0 stats.size ≡ Mode.ok content
      → length content < 2 ^ 63
      → (o' : Overlay) × (copy_file base now parent name base_ino stats o
          ≡ returns (o.delta.db.last_ino + 1) o')
        × (contents o'.delta.db (next_file o.delta) ≡ content)
  unfolding copy_file create_file
  copy_file-contents positive none_left free opens reads short =
      let fs : Fs = created_file now o.delta parent name stats.mode stats.uid stats.gid in
      let written : Fs = with_db fs (pwrite now fs.db (next_file o.delta) 0 content) in
      (
        record o { delta = written },
        rw (opens, reads)
            (bind-returns
              (in_delta_layer (create_in now parent name stats.mode stats.uid stats.gid))
              (λ made. write_delta now made.1 0 content >> done made.0.ino)
              (ap (in_layer o)
                (create_in-ok now parent name stats.mode stats.uid stats.gid o.delta free))),
        written-contents now o.delta parent name stats.mode stats.uid stats.gid positive none_left
            content short,
      )
