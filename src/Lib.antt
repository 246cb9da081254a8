-- ===== src/Lib.antt =====
-- A model of AgentFS: the filesystem for agents that is stored in a SQLite database
-- (agentfs/upstream/sdk/rust), with the overlay that puts it over a read-only base, its connection
-- pool, its key-value store and tool call log, and the descriptor and mount tables of its sandbox
-- (agentfs/upstream/sandbox).
--
-- The parts and the files that model them:
--
--   Mode     sdk/rust/src/filesystem/mod.rs: FsError with errno values, file types, Stats.
--   Db       the tables of initialize_schema in sdk/rust/src/filesystem/agentfs.rs: fs_inode,
--            fs_dentry, fs_data and fs_symlink as association lists, and the counter of
--            AUTOINCREMENT. A SQL statement is an operation of Prelude/Table.
--   Schema   initialize_schema, as far as the root directory goes.
--   File     impl File for AgentFSFile: pread, pwrite, truncate, fstat. Content, Read, Write,
--            Truncate and Refine hold the proofs; the last gives the refinement to lists of bytes.
--   Fs       impl FileSystem for AgentFS: the state and the queries (lookup, getattr, readlink,
--            open). Make: mkdir, create_file, mknod, symlink, link. Delete: unlink, rmdir.
--            Move: rename. Modify: chmod, chown, utimens. The other modules below Fs hold the
--            proofs: WellFormed with the invariant, and one for each group of operations.
--            Cache: which answers of the LRU cache may come, and the proofs that every operation keeps
--            them true. Requests: sequences of requests, and what holds after all of them.
--   PathApi  the methods of impl AgentFS that take a path, in the same source file: resolve_path,
--            Stat (lstat, stat, readlink, open), Make (mkdir, mknod, create_file, symlink, link),
--            Remove (remove, rename), Contents (read_file, pread, pwrite) and Listing (readdir,
--            readdir_plus, statfs, chown); the modules below them hold the proofs. A name that the
--            trait uses too ends in _path or _ino.
--   PathName normalize_path and split_path of sdk/rust/src/filesystem/agentfs.rs; Pieces
--            and Clean hold the proofs.
--   FdTable  sandbox/src/vfs/fdtable.rs: FdTable. Heap, Scan, Puts and Lowest hold the proofs.
--   Mounts   sandbox/src/vfs/mount.rs, bind.rs and sqlite.rs: the mount table (add_mount, resolve), the
--            translation of paths, and in Config the parser of a mount on the command line. Resolve,
--            Inside and Config.RoundTrip hold the proofs. OpenFile: read, write and seek of a file of
--            a virtual mount; ReadBack holds the proofs.
--   Overlay  sdk/rust/src/filesystem/overlayfs.rs: OverlayFS over a base and a delta. Maps: the
--            numbers, whiteouts and origins in memory and in the tables. CopyUp: the
--            directories and files that are brought into the delta. Read: lookup, getattr, readlink,
--            readdir, readdir_plus, statfs. Change: the methods that change. Requests: sequences of
--            requests, and a new overlay on the same database. The others hold the proofs: Sound,
--            Moved and Safe that every method keeps the maps sound, Hidden, Quiet, Ends and Removed what
--            a name that was taken away leaves, Copied the bytes of a copy, Listed and Layers the names
--            of a listing.
--   Pool     sdk/rust/src/connection_pool.rs: get_connection and the drop of a connection. Bound holds
--            the proofs.
--   ToolCalls sdk/rust/src/toolcalls.rs: start, success, error, record, get, stats_for. Life and Counts
--            hold the proofs.
--   KvStore  sdk/rust/src/kvstore.rs: set, get, delete, keys. History holds the proofs.
--   Prelude  shared helpers: tests, lists, keys of tables, tables, signed integers.
--   Tests    concrete runs, and the theorems at concrete states.
--
-- An operation of Fs takes the state and returns an error, or a result with the new state; an
-- error leaves the state. A method of PathApi threads the state, and keeps on an error what it did
-- to the cache; a transaction that fails puts the tables back. A method of the overlay threads the
-- state and keeps on an error all that it did before; it calls the methods of Fs on its delta, and
-- its base is a record of functions (Overlay.Base). The namespace keeps the link counts
-- that decide in unlink and rename whether the data of an inode goes, and File reads and writes
-- that data by inode number.
--
-- Conventions and bounds. Numbers are natural numbers; offsets of a write wrap at 2^64 as in the
-- source, and sizes are the u64 whose bits the column holds. Link counts and seconds are signed;
-- a link count is cast to u32 where the source does so. The loop of write_data_at_offset_with_conn
-- runs on fuel, the number of bytes to write, which is enough since each round writes at least one.
-- The gap loop of pread, and both loops of the descriptor table, recurse on the length of their
-- range. stat follows 40 links at most, as in the source. The cache of the crate lru is a parameter
-- (Fs.Cache.Lru): it may forget an entry, and otherwise answers what was put last; the calls on it
-- are recorded in the state. std::path::Path is modelled on normalised paths, but for the number of
-- components of a mount. Chunk indices are below 2^63. The clock is an argument. A descriptor is a
-- non-negative i32, and a panic is none. serde_json, canonicalize and the test for UTF-8 are parameters. A
-- duration wraps at 64 bits. An id of the log is a natural number. The base of an overlay is read only
-- and answers a question always in the same way; a request to the overlay reads the clock once; its
-- numbers stay below 2^63. The semaphore of the connection pool is a parameter (Pool.Semaphore).
--
-- A file is sound if its row exists, no chunk is longer than the chunk size and only zeros stand
-- past its size. A namespace is well formed if no name stands twice in a directory, each entry
-- names a row and stands in a directory, no row is above the counter, the link count of what is no
-- directory is the number of its names, and a directory has at most one name. A descriptor table is
-- sound if the free list has exactly the unused descriptors from 3 up to the next one, once each.
-- An overlay is sound if its numbers are below the next one, its maps lead to numbers that are known,
-- the root is that of the delta, and its sets in memory are those of its tables.
--
-- Not modelled: errors of the database (a statement succeeds, and the other parts get their
-- connection), the order of statements outside a transaction as others see it, truncate by path,
-- recent and stats of the tool call log and its average duration, opening and writing back a file of a
-- virtual mount, forget of the overlay and its row of configuration, the host filesystems, the front
-- ends (FUSE, NFS, the command line), the interception of system calls, and the vendored crates.
pub mod Prelude
pub mod Mode
pub mod Db
pub mod File
pub mod Fs
pub mod PathName
pub mod PathApi
pub mod Schema
pub mod FdTable
pub mod Mounts
pub mod Overlay
pub mod Pool
pub mod ToolCalls
pub mod KvStore
pub mod Tests
