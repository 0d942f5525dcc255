-- ===== src/Fuse/Inode.antt =====
-- crates/tgcryptfs-core/src/metadata/inode.rs and types.rs, and the attributes that
-- crates/tgcryptfs-fuse/src/fs.rs makes of an inode. A time is in nanoseconds since the epoch; the
-- clock's reading is an argument.
use tgcryptfs.Crypto.Aead.{Bytes}
use tgcryptfs.Block.Manifest.{FileManifest}
use tgcryptfs.Common.Dict.{Dict}
use tgcryptfs.Common.{
  ℕ, ◌+◌, ◌/◌, ◌%◌, ◌^◌, Bool, true, false, Option, none, some, List, [], u64_mod, length,
  replicate,
}

pub data FileType : Type 0 where
  regular_file directory symlink : FileType

pub record Timestamps : Type 0 where
  pub atime_ns : ℕ
  pub mtime_ns : ℕ
  pub ctime_ns : ℕ
  pub crtime_ns : ℕ

abbrev pub at_once : ℕ → Timestamps
at_once ns = record { atime_ns = ns; mtime_ns = ns; ctime_ns = ns; crtime_ns = ns }

pub record Inode : Type 0 where
  pub ino : ℕ
  pub parent : ℕ
  pub name : Bytes
  pub file_type : FileType
  pub mode : ℕ
  pub uid : ℕ
  pub gid : ℕ
  pub size : ℕ
  pub nlink : ℕ
  pub timestamps : Timestamps
  pub manifest : Option FileManifest
  pub symlink_target : Option Bytes
  pub children : List ℕ
  pub xattrs : Dict Bytes Bytes
  pub policy_id : Option ℕ

-- `FileManifest::new`
abbrev pub new_manifest : ℕ → FileManifest
new_manifest inode = record {
  inode = inode;
  version = 0;
  total_size = 0;
  file_hash = replicate 32 0;
  blocks = [];
}

abbrev pub root : ℕ → Inode
root now = record {
  ino = 1;
  parent = 0;
  name = [];
  file_type = directory;
  mode = 493;
  uid = 0;
  gid = 0;
  size = 0;
  nlink = 2;
  timestamps = at_once now;
  manifest = none;
  symlink_target = none;
  children = [];
  xattrs = [];
  policy_id = none;
}

abbrev pub new_file : ℕ → ℕ → Bytes → ℕ → ℕ → ℕ → ℕ → Inode
new_file now parent name mode uid gid ino = record {
  ino = ino;
  parent = parent;
  name = name;
  file_type = regular_file;
  mode = mode;
  uid = uid;
  gid = gid;
  size = 0;
  nlink = 1;
  timestamps = at_once now;
  manifest = some (new_manifest ino);
  symlink_target = none;
  children = [];
  xattrs = [];
  policy_id = none;
}

abbrev pub new_dir : ℕ → ℕ → Bytes → ℕ → ℕ → ℕ → ℕ → Inode
new_dir now parent name mode uid gid ino = record {
  ino = ino;
  parent = parent;
  name = name;
  file_type = directory;
  mode = mode;
  uid = uid;
  gid = gid;
  size = 0;
  nlink = 2;
  timestamps = at_once now;
  manifest = none;
  symlink_target = none;
  children = [];
  xattrs = [];
  policy_id = none;
}

abbrev pub new_symlink : ℕ → ℕ → Bytes → Bytes → ℕ → ℕ → ℕ → Inode
new_symlink now parent name target uid gid ino = record {
  ino = ino;
  parent = parent;
  name = name;
  file_type = symlink;
  mode = 511;
  uid = uid;
  gid = gid;
  size = length target;
  nlink = 1;
  timestamps = at_once now;
  manifest = none;
  symlink_target = some target;
  children = [];
  xattrs = [];
  policy_id = none;
}

abbrev pub is_directory : FileType → Bool
is_directory directory = true
is_directory regular_file = false
is_directory symlink = false

abbrev pub is_dir : Inode → Bool
is_dir i = is_directory i.file_type

pub record FileAttr : Type 0 where
  pub ino : ℕ
  pub size : ℕ
  pub blocks : ℕ
  pub atime : ℕ
  pub mtime : ℕ
  pub ctime : ℕ
  pub crtime : ℕ
  pub kind : FileType
  pub perm : ℕ
  pub nlink : ℕ
  pub uid : ℕ
  pub gid : ℕ
  pub rdev : ℕ
  pub blksize : ℕ
  pub flags : ℕ

abbrev pub block_size : ℕ
block_size = 4096

-- `ns as u64`; no time here is negative.
abbrev pub ns_to_system_time : ℕ → ℕ
ns_to_system_time ns = ns % u64_mod

abbrev pub inode_to_attr : Inode → FileAttr
inode_to_attr i = record {
  ino = i.ino;
  size = i.size;
  blocks = (i.size + 511) / 512;
  atime = ns_to_system_time i.timestamps.atime_ns;
  mtime = ns_to_system_time i.timestamps.mtime_ns;
  ctime = ns_to_system_time i.timestamps.ctime_ns;
  crtime = ns_to_system_time i.timestamps.crtime_ns;
  kind = i.file_type;
  perm = i.mode % 2 ^ 16;
  nlink = i.nlink;
  uid = i.uid;
  gid = i.gid;
  rdev = 0;
  blksize = block_size;
  flags = 0;
}
