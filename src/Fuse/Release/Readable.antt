-- ===== src/Fuse/Release/Readable.antt =====
-- What is read of a file after its handle has been released.
use tgcryptfs.Crypto.Aead.{Bytes}
use tgcryptfs.Common.Dict.{lookup, lookup-remove, list_eq, nat_eq}
use tgcryptfs.Block.Manifest.{validate, check_blocks, check_from}
use tgcryptfs.Fuse.BlockRows.{BlockRecord}
use tgcryptfs.Fuse.Inode.{Inode}
use tgcryptfs.Fuse.Database.{Row, by_ino}
use tgcryptfs.Fuse.Store.{Session, get_inode, update_inode}
use tgcryptfs.Fuse.Store.Update.{get_inode-update_inode}
use tgcryptfs.Fuse.Handles.{FileHandle, HandleTable, get_handle, close_handle, read_at}
use tgcryptfs.Fuse.Handles.Buffers.{length-read_at, get_or-read_at}
use tgcryptfs.Fuse.Requests.{change_inode}
use tgcryptfs.Fuse.Files.{Outside, State, read_inode, read_manifest}
use tgcryptfs.Fuse.Files.Blocks.{Supplies, read_manifest-bytes}
use tgcryptfs.Fuse.Release.{
  Uploads, pointer_to, one_block, to_flush, flushed_inode, flush_to_transport, flush_handle,
  release,
}
use tgcryptfs.Common.{
  ℕ, ◌+◌, ◌<◌, ◌≡◌, refl, sym, ◌∙◌, inl, inr, true, false, none, some, List, arith, Option-cases,
  u64_mod, ok, length, get_or, is_empty, eq_of_get_or,
}

validate-one_block :
    (ino : ℕ) (file_hash : Bytes) (block : BlockRecord) (len : ℕ)
    → len < u64_mod
    → validate (one_block ino file_hash block len) ≡ ok tt
unfolding validate check_blocks check_from one_block
validate-one_block ino file_hash block len small = ground arith

module _ (o : Outside) (u : Uploads o) where
  -- Where the flushed block can be had from every good state with the bytes that were flushed,
  -- fewer than 2^64, a read from a good state of the inode that `release` stores replies what the
  -- handle's buffer would have given, for a range that ends before 2^64.
  pub read_inode-flushed_inode :
      (Good : State o → Type 0) (ino offset size : ℕ) (contents : Bytes) (block : BlockRecord)
      (i : Inode) (m : State o)
      → length contents < u64_mod
      → offset + size < u64_mod
      → Supplies o Good (λ k. get_or contents k 0) (pointer_to block (length contents))
      → Good m
      → (read_inode o offset size (flushed_inode o u ino contents block i) m).1
        ≡ read_at offset size contents
  unfolding read_inode one_block
  read_inode-flushed_inode Good ino offset size contents block i m fits small supplied good =
      let manifest = one_block ino (o.env.hash contents) block (length contents) in
      let (_, many, bytes) =
        read_manifest-bytes o Good (λ k. get_or contents k 0) offset size
          (flushed_inode o u ino contents block i) manifest m small (omega arith, tt)
          (validate-one_block ino (o.env.hash contents) block (length contents) fits) refl
          (supplied, tt) good in
      eq_of_get_or 0
        (read_manifest o offset size (flushed_inode o u ino contents block i) manifest m).1
        (read_at offset size contents) (many ∙ sym (length-read_at offset size contents))
        (λ k h.
          bytes k (omega (arith, many))
          ∙ sym (get_or-read_at offset size contents k (omega (arith, many))))

  module _ (ino fh : ℕ) (m : State o) (h : FileHandle) (block : BlockRecord) (i : Inode) where
    abbrev flushed : State o
    flushed = (flush_to_transport o u ino h.write_buffer m).0

    abbrev stored : Inode
    stored = flushed_inode o u ino h.write_buffer block i

    abbrev updated : Session o.env.Conn
    updated = (update_inode o.env stored flushed.session).0

    release_lem :
        get_handle fh m.handles ≡ some h
        → h.dirty ≡ true
        → is_empty h.write_buffer ≡ false
        → (flush_to_transport o u ino h.write_buffer m).1 ≡ some block
        → get_inode o.env ino flushed.session ≡ ok (some i)
        → flush_handle o u ino fh m ≡ record flushed { session = updated }
    unfolding flush_handle change_inode
    release_lem there dirty full sent found =
        let ready : to_flush o u fh m ≡ some h.write_buffer = ground arith in
        rw (ready, sent, found, flush_handle, change_inode) refl

    -- When a handle that is dirty and not empty is released, the flush gives a block, an inode with
    -- the number that was asked for is found and its update works, then `get` finds the inode with
    -- the size of the buffer and the manifest of that block, if SQLite answers the query, and the
    -- handle is gone.
    pub release-get_inode :
        (rows : List Row)
        → get_handle fh m.handles ≡ some h
        → h.dirty ≡ true
        → is_empty h.write_buffer ≡ false
        → (flush_to_transport o u ino h.write_buffer m).1 ≡ some block
        → get_inode o.env ino flushed.session ≡ ok (some i)
        → i.ino ≡ ino
        → (update_inode o.env stored flushed.session).1 ≡ ok tt
        → o.env.query (by_ino ino) updated.conn ≡ some rows
        → (get_inode o.env ino (release o u ino fh m).session ≡ ok (some stored))
          × (get_handle fh (release o u ino fh m).handles ≡ none)
    unfolding release close_handle get_handle
    release-get_inode rows there dirty full sent found number worked asked = (
      rw (release_lem there dirty full sent found) (
          get_inode-update_inode o.env ino i stored flushed.session rows number found worked asked),
      closed (flush_handle o u ino fh m).handles,
    )
      where
        closed : (t : HandleTable) → get_handle fh (close_handle fh t).0 ≡ none
        closed t = elim (Option-cases (lookup fh t.handles)) [
          | inl e ↦ ground arith
          | inr (g, e) ↦ ground (arith, lookup-remove fh fh t.handles)
        ]
