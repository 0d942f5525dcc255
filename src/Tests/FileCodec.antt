-- ===== src/Tests/FileCodec.antt =====
-- An encoding of inodes that has the manifest of one uncompressed block without hashes.
use tgcryptfs.Crypto.Aead.{Bytes}
use tgcryptfs.Common.Dict.{list_eq, nat_eq}
use tgcryptfs.Block.Manifest.{BlockPointer, FileManifest}
use tgcryptfs.Tests.Databases.{toy_serialize, toy_deserializes, unpack}
use tgcryptfs.Fuse.Inode.{Inode}
use tgcryptfs.Common.{
  ℕ, zero, suc, ◌≡◌, refl, sym, ap, ◌∙◌, inl, inr, false, Option, none, some, List, [], ◌∷◌, ◌++◌,
  arith, if◌then◌else◌, Option-cases,
}

abbrev pub pack_block : List BlockPointer → Option Bytes
pack_block [] = none
pack_block (b ∷ _ ∷ _) = none
pack_block (b ∷ []) = elim b.rid [
  | _ ∷ _ ↦ none
  | [] ↦ elim b.content_hash [
    | _ ∷ _ ↦ none
    | [] ↦
        if b.compressed
        then none
        else some (
            b.message_id ∷ b.file_offset ∷ b.length ∷ b.block_data_offset ∷ b.encrypted_size
            ∷ b.epoch ∷ [])
  ]
]

abbrev pub unpack_block : ℕ → ℕ → ℕ → ℕ → ℕ → ℕ → BlockPointer
unpack_block message_id file_offset len block_data_offset encrypted_size epoch = record {
  rid = [];
  message_id = message_id;
  file_offset = file_offset;
  length = len;
  block_data_offset = block_data_offset;
  encrypted_size = encrypted_size;
  compressed = false;
  content_hash = [];
  epoch = epoch;
}

abbrev pub bare : Inode → Inode
bare i = record i { manifest = none }

abbrev pub with_front : ℕ → ℕ → ℕ → Option Bytes → Option Bytes → Option Bytes
with_front ino version size none rest = none
with_front ino version size (some front) none = none
with_front ino version size (some front) (some rest) =
    some (1 ∷ ino ∷ version ∷ size ∷ (front ++ rest))

abbrev pub tagged : Option Bytes → Option Bytes
tagged none = none
tagged (some bytes) = some (0 ∷ bytes)

abbrev pub serialize_file : Inode → Option Bytes
serialize_file i = elim i.manifest [
  | none ↦ tagged (toy_serialize i)
  | some m ↦ elim m.file_hash [
    | _ ∷ _ ↦ none
    | [] ↦ with_front m.inode m.version m.total_size (pack_block m.blocks) (toy_serialize (bare i))
  ]
]

abbrev pub attach : FileManifest → Option Inode → Option Inode
attach m none = none
attach m (some i) = some (record i { manifest = some m })

abbrev pub deserialize_file : Bytes → Option Inode
deserialize_file (zero ∷ bytes) = unpack bytes
deserialize_file (suc _ ∷ ino ∷ version ∷ size ∷ a ∷ b ∷ c ∷ d ∷ e ∷ f ∷ rest) =
    attach
      (record {
        inode = ino;
        version = version;
        total_size = size;
        file_hash = [];
        blocks = unpack_block a b c d e f ∷ [];
      })
      (unpack rest)
deserialize_file _ = none

unpack_same :
    (b : BlockPointer)
    → b.rid ≡ []
    → b.content_hash ≡ []
    → b.compressed ≡ false
    → unpack_block b.message_id b.file_offset b.length b.block_data_offset b.encrypted_size b.epoch
      ≡ b
unpack_same b rid content_hash compressed = sym (
    ap (λ x. record b { rid = x }) rid
    ∙ ap (λ x. record b { rid = []; content_hash = x }) content_hash
    ∙ ap (λ x. record b { rid = []; content_hash = []; compressed = x }) compressed)

-- What `pack_block` packs.
packed :
    (blocks : List BlockPointer) (front : Bytes)
    → pack_block blocks ≡ some front
    → (b : BlockPointer) × (blocks ≡ b ∷ [])
      × (b.rid ≡ [])
      × (b.content_hash ≡ [])
      × (b.compressed ≡ false)
      × (b.message_id ∷ b.file_offset ∷ b.length ∷ b.block_data_offset ∷ b.encrypted_size ∷ b.epoch
            ∷ []
          ≡ front)
packed [] front h = absurd (ground arith)
packed (b ∷ _ ∷ _) front h = absurd (ground arith)
packed (b ∷ []) front h =
    let (rid, content_hash, compressed, e) : (b.rid ≡ [])
        × (b.content_hash ≡ [])
        × (b.compressed ≡ false)
        × (b.message_id ∷ b.file_offset ∷ b.length ∷ b.block_data_offset ∷ b.encrypted_size
              ∷ b.epoch ∷ []
            ≡ front) =
      ground arith in
    (b, refl, rid, content_hash, compressed, e)

attached :
    (m : FileManifest) (front rest : Bytes)
    → m.file_hash ≡ []
    → pack_block m.blocks ≡ some front
    → deserialize_file (1 ∷ m.inode ∷ m.version ∷ m.total_size ∷ (front ++ rest))
      ≡ attach m (unpack rest)
attached m front rest file_hash p =
    let (b, blocks, rid, content_hash, compressed, e) = packed m.blocks front p in
    rw (sym e) (
      ap (λ x. attach x (unpack rest))
        (ap (λ x. record m { file_hash = []; blocks = x ∷ [] })
            (unpack_same b rid content_hash compressed)
          ∙ sym (
              ap (λ x. record m { file_hash = x }) file_hash
              ∙ ap (λ x. record m { file_hash = []; blocks = x }) blocks)))

joined :
    (m : FileManifest) (front rest : Option Bytes) (bytes : Bytes)
    → with_front m.inode m.version m.total_size front rest ≡ some bytes
    → (f : Bytes) × (r : Bytes) × (front ≡ some f)
      × (rest ≡ some r)
      × (1 ∷ m.inode ∷ m.version ∷ m.total_size ∷ (f ++ r) ≡ bytes)
joined m none rest bytes h = absurd (ground arith)
joined m (some f) none bytes h = absurd (ground arith)
joined m (some f) (some r) bytes h = (f, r, refl, refl, ground arith)

with_manifest :
    (i : Inode) (bytes : Bytes) (m : FileManifest)
    → i.manifest ≡ some m
    → (elim m.file_hash [
      | _ ∷ _ ↦ none
      | [] ↦
          with_front m.inode m.version m.total_size (pack_block m.blocks) (toy_serialize (bare i))
    ])
      ≡ some bytes
    → deserialize_file bytes ≡ some i
with_manifest i bytes m e h =
    let file_hash : m.file_hash ≡ [] = ground arith in
    let (front, rest, packs, serialized, same) =
      joined m (pack_block m.blocks) (toy_serialize (bare i)) bytes (ground arith) in
    rw (sym same) (
      attached m front rest file_hash packs
      ∙ ap (attach m) (toy_deserializes (bare i) rest serialized)
      ∙ ap (λ x. some (record i { manifest = x })) (sym e))

pub deserializes_file :
    (i : Inode) (bytes : Bytes) → serialize_file i ≡ some bytes → deserialize_file bytes ≡ some i
deserializes_file i bytes h = elim (Option-cases i.manifest) [
  | inl e ↦ elim (Option-cases (toy_serialize i)) [
    | inl s ↦ absurd (ground arith)
    | inr (front, s) ↦
        let e : 0 ∷ front ≡ bytes = ground arith in rw (sym e) (toy_deserializes i front s)
  ]
  | inr (m, e) ↦ with_manifest i bytes m e (ground arith)
]
