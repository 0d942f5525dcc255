-- ===== src/Block/Dedup.antt =====
-- crates/tgcryptfs-core/src/block/dedup.rs: the index from content hashes to blocks with reference
-- counts. BLAKE3 is the parameter `hash`.
pub mod Counting
use tgcryptfs.Common.Dict.{Dict, lookup, insert, remove, list_eq, nat_eq}
use tgcryptfs.Crypto.Aead.{Bytes}
use tgcryptfs.Common.{
  ℕ, ◌+◌, ◌-◌, ◌%◌, Bool, true, false, none, some, [], ◌==◌, if◌then◌else◌, u32_mod, length,
}

pub record DedupEntry : Type 0 where
  pub rid : Bytes
  pub ref_count : ℕ

pub record DedupIndex : Type 0 where
  pub entries : Dict Bytes DedupEntry

pub data DedupResult : Type 0 where
  duplicate : Bytes → DedupResult
  unique : Bytes → DedupResult

unfoldable pub empty_index : DedupIndex
empty_index = record { entries = [] }

unfoldable pub check : (Bytes → Bytes) → DedupIndex → Bytes → DedupResult
check hash d contents = elim (lookup (hash contents) d.entries) [
  | some entry ↦ duplicate entry.rid
  | none ↦ unique (hash contents)
]

-- The count is a u32, which wraps.
unfoldable pub insert_block : Bytes → Bytes → DedupIndex → DedupIndex
insert_block content_hash rid d = elim (lookup content_hash d.entries) [
  | some entry ↦ record {
    entries =
        insert content_hash (record entry { ref_count = (entry.ref_count + 1) % u32_mod })
          d.entries;
  }
  | none ↦ record { entries = insert content_hash (record { rid = rid; ref_count = 1 }) d.entries }
]

-- The new index, and whether the block can be collected. `-` is `saturating_sub`.
unfoldable pub release : Bytes → DedupIndex → DedupIndex × Bool
release content_hash d = elim (lookup content_hash d.entries) [
  | none ↦ (d, false)
  | some entry ↦
      if entry.ref_count - 1 == 0
      then (record { entries = remove content_hash d.entries }, true)
      else (
        record {
          entries =
              insert content_hash (record entry { ref_count = entry.ref_count - 1 }) d.entries;
        },
        false,
      )
]

unfoldable pub index_len : DedupIndex → ℕ
index_len d = length d.entries
