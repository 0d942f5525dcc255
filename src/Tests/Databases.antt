-- ===== src/Tests/Databases.antt =====
-- A database that meets the assumptions on SQLite, with a list that says which of its next
-- statements fail, and an encoding of the inodes that have no manifest, link target or attributes.
use tgcryptfs.Tests.Toy.{toy}
use tgcryptfs.Crypto.Aead.{Bytes, nonce_size}
use tgcryptfs.Fuse.Inode.{Inode, FileType, regular_file, directory, symlink}
use tgcryptfs.Fuse.BlockRows.{select_blocks}
use tgcryptfs.Fuse.Database.{Table, Statement, effect, Sqlite, SameOrRolledBack, select, max_ino}
use tgcryptfs.Fuse.Store.{Env, Session}
use tgcryptfs.Common.{
  ℕ, ◌+◌, ◌≡◌, refl, sym, ap, ◌∙◌, inl, inr, Bool, true, false, Option, none, some, List, [], ◌∷◌,
  ◌++◌, arith, ◌==◌, if◌then◌else◌, Option-cases, length, take, drop, replicate, take-append_exact,
  drop-append_exact,
}

abbrev pub ToyConn : Type 0
ToyConn = Table × List Bool

abbrev pub run_effect : Table → List Bool → Option Table → ToyConn × Bool
run_effect t faults none = ((t, faults), false)
run_effect t faults (some t') = ((t', faults), true)

-- A fault rolls the open transaction back.
abbrev roll_back : Table → Table
roll_back t = elim t.before [
  | none ↦ t
  | some rows ↦ record t { rows = rows; before = none; blocks = t.blocks_before }
]

roll_back_lem : (t : Table) → SameOrRolledBack t (roll_back t)
unfolding effect
roll_back_lem t = elim (Option-cases t.before) [
  | inl e ↦ inl (rw e refl)
  | inr (rows, e) ↦ inr (rw e refl)
]

abbrev pub toy_execute : Statement → ToyConn → ToyConn × Bool
toy_execute s (t, []) = run_effect t [] (effect s t)
toy_execute s (t, true ∷ faults) = ((roll_back t, faults), false)
toy_execute s (t, false ∷ faults) = run_effect t faults (effect s t)

run_effect_ok :
    (t : Table) (faults : List Bool) (o : Option Table)
    → (run_effect t faults o).1 ≡ true
    → o ≡ some (run_effect t faults o).0.0
run_effect_ok t faults none h = absurd (ground arith)
run_effect_ok t faults (some t') h = refl

run_effect_err :
    (t : Table) (faults : List Bool) (o : Option Table)
    → (run_effect t faults o).1 ≡ false
    → (run_effect t faults o).0.0 ≡ t
run_effect_err t faults none h = refl
run_effect_err t faults (some t') h = absurd (ground arith)

pub toy_executes :
    (s : Statement) (c : ToyConn)
    → (toy_execute s c).1 ≡ true
    → effect s c.0 ≡ some (toy_execute s c).0.0
toy_executes s (t, []) h = run_effect_ok t [] (effect s t) h
toy_executes s (t, true ∷ faults) h = absurd (ground arith)
toy_executes s (t, false ∷ faults) h = run_effect_ok t faults (effect s t) h

pub toy_refuses :
    (s : Statement) (c : ToyConn)
    → (toy_execute s c).1 ≡ false
    → SameOrRolledBack c.0 (toy_execute s c).0.0
unfolding effect
toy_refuses s (t, []) h = inl (run_effect_err t [] (effect s t) h)
toy_refuses s (t, true ∷ faults) h = roll_back_lem t
toy_refuses s (t, false ∷ faults) h = inl (run_effect_err t faults (effect s t) h)

pub toy_answered : {A : Type 0} (a b : A) → some a ≡ some b → b ≡ a
toy_answered a b h = cc

abbrev pub toy_db : Sqlite
toy_db = record {
  Conn = ToyConn;
  table = λ c. c.0;
  execute = toy_execute;
  query = λ q c. some (select q c.0.rows);
  query_blocks = λ q c. some (select_blocks q c.0.blocks);
  query_next = λ c. some (max_ino c.0.rows + 1);
  executes = toy_executes;
  refuses = toy_refuses;
  answers = λ q c rows h. toy_answered (select q c.0.rows) rows h;
  answers_blocks = λ q c blocks h. toy_answered (select_blocks q c.0.blocks) blocks h;
  answers_next = λ c n h. toy_answered (max_ino c.0.rows + 1) n h;
}

abbrev pub kind_number : FileType → ℕ
kind_number regular_file = 0
kind_number directory = 1
kind_number symlink = 2

abbrev pub number_kind : ℕ → FileType
number_kind n = if n == 0 then regular_file else if n == 1 then directory else symlink

abbrev pub pack : Inode → Bytes
pack i =
    i.ino
    ∷ i.parent
    ∷ kind_number i.file_type
    ∷ i.mode
    ∷ i.uid
    ∷ i.gid
    ∷ i.size
    ∷ i.nlink
    ∷ i.timestamps.atime_ns
    ∷ i.timestamps.mtime_ns
    ∷ i.timestamps.ctime_ns
    ∷ i.timestamps.crtime_ns
    ∷ length i.name
    ∷ (i.name ++ i.children)

abbrev pub unpack : Bytes → Option Inode
unpack (ino ∷ parent ∷ kind ∷ mode ∷ uid ∷ gid ∷ size ∷ nlink ∷ a ∷ m ∷ c ∷ b ∷ n ∷ rest) =
    some (record {
      ino = ino;
      parent = parent;
      name = take n rest;
      file_type = number_kind kind;
      mode = mode;
      uid = uid;
      gid = gid;
      size = size;
      nlink = nlink;
      timestamps = record { atime_ns = a; mtime_ns = m; ctime_ns = c; crtime_ns = b };
      manifest = none;
      symlink_target = none;
      children = drop n rest;
      xattrs = [];
      policy_id = none;
    })
unpack _ = none

abbrev pub toy_serialize : Inode → Option Bytes
toy_serialize i = elim i.manifest [
  | some _ ↦ none
  | none ↦ elim i.symlink_target [
    | some _ ↦ none
    | none ↦ elim i.xattrs [
      | _ ∷ _ ↦ none
      | [] ↦ elim i.policy_id [ some _ ↦ none | none ↦ some (pack i) ]
    ]
  ]
]

number_kind-kind_number : (k : FileType) → number_kind (kind_number k) ≡ k
number_kind-kind_number regular_file = refl
number_kind-kind_number directory = refl
number_kind-kind_number symlink = refl

unpack-pack :
    (i : Inode)
    → unpack (pack i)
      ≡ some (record i { manifest = none; symlink_target = none; xattrs = []; policy_id = none })
unpack-pack i =
    rw
      (
        take-append_exact (length i.name) i.name i.children refl,
        drop-append_exact (length i.name) i.name i.children refl,
        number_kind-kind_number i.file_type,
      )
      refl

-- An inode that is encoded has none of the parts that the encoding leaves out.
pub toy_deserializes :
    (i : Inode) (bytes : Bytes) → toy_serialize i ≡ some bytes → unpack bytes ≡ some i
toy_deserializes i bytes h = elim (Option-cases i.manifest) [
  | inr (_, e) ↦ absurd (ground arith)
  | inl m ↦ elim (Option-cases i.symlink_target) [
    | inr (_, e) ↦ absurd (ground arith)
    | inl s ↦ elim (Option-cases i.policy_id) [
      | inr (_, e) ↦ absurd (ground arith)
      | inl p ↦
          let plain : (i.xattrs ≡ []) × (pack i ≡ bytes) = ground arith in
          rw (sym plain.1) (
            unpack-pack i
            ∙ ap some (
                ap
                  (λ x. record i {
                    manifest = x;
                    symlink_target = none;
                    xattrs = [];
                    policy_id = none;
                  })
                  (sym m)
                ∙ ap (λ x. record i { symlink_target = x; xattrs = []; policy_id = none }) (sym s)
                ∙ ap (λ x. record i { xattrs = x; policy_id = none }) (sym plain.0)
                ∙ ap (λ x. record i { policy_id = x }) (sym p)))
    ]
  ]
]

abbrev pub toy_env : Env
toy_env = record {
  db = toy_db;
  cipher = toy;
  meta_key = 1 ∷ [];
  nonce = λ n. replicate nonce_size n;
  sized = λ n. refl;
  hash = λ bytes. bytes;
  serialize = toy_serialize;
  deserialize = unpack;
  deserializes = toy_deserializes;
}

abbrev pub empty_session : List Bool → Session ToyConn
empty_session faults = record {
  conn = (record { rows = []; before = none; blocks = []; blocks_before = [] }, faults);
  drawn = 0;
}
