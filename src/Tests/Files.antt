-- ===== src/Tests/Files.antt =====
-- Reads and writes of the file /a, with chunks of four bytes.
use airyfs.Prelude.{◌≡◌, refl, [], ◌∷◌, take, drop, arith, nat_eq, pair_eq}
use airyfs.Prelude.Table.{select, update, delete_where}
use airyfs.Db.{Bytes, Db}
use airyfs.File.{
  FileHandle, pread, pwrite, truncate, size_of, chunk_or_empty, write_data_at_offset, write_loop,
  to_write, read_rows, select_chunks, read_chunk, new_chunk, copy_at, pad_to, skip_of, fill_gap,
}
use airyfs.File.Content.{ChunksFit, IsFile, contents, byte_at}
use airyfs.File.Refine.{
  overwrite, resize, pread-contents, contents-pwrite, pwrite-IsFile, contents-truncate,
}
use airyfs.Fs.Make.{created_file}
use airyfs.Schema.{ensure_root}
use airyfs.Tests.{later, file_fs}

abbrev pub handle : FileHandle
handle = record { ino = 2; chunk_size = 4 }

abbrev pub hello : Bytes
hello = b'h' ∷ b'e' ∷ b'l' ∷ b'l' ∷ b'o' ∷ []

-- the empty file
empty_fit : ChunksFit file_fs.db handle
unfolding created_file ensure_root chunk_or_empty select update
empty_fit = record { positive = omega arith; fits = λ index. omega arith }

pub empty-IsFile : IsFile file_fs.db handle
unfolding created_file ensure_root chunk_or_empty select update byte_at
empty-IsFile = record { row = _; stored = refl; fit = empty_fit; tail = λ p above. refl }

-- two bytes of five stand past the first chunk
abbrev written : Db
written = pwrite later file_fs.db handle 2 hello

written-IsFile : IsFile written handle
written-IsFile = pwrite-IsFile later file_fs.db handle 2 hello empty-IsFile (omega arith)

read_back : pread written handle 0 9 ≡ 0 ∷ 0 ∷ hello
unfolding created_file ensure_root pwrite pread size_of select update write_data_at_offset
    write_loop to_write read_rows select_chunks delete_where read_chunk new_chunk copy_at pad_to
    chunk_or_empty skip_of fill_gap
read_back = refl

contents-pwrite_example :
    contents (pwrite later written handle 1 hello) handle
    ≡ overwrite 1 hello (contents written handle)
contents-pwrite_example = contents-pwrite later written handle 1 hello written-IsFile (omega arith)

pread-contents_example : pread written handle 1 4 ≡ take 4 (drop 1 (contents written handle))
pread-contents_example = pread-contents written handle 1 4 written-IsFile

contents-truncate_example :
    contents (truncate later written handle 5) handle ≡ resize 5 (contents written handle)
contents-truncate_example = contents-truncate later written handle 5 written-IsFile
