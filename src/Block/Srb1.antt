-- ===== src/Block/Srb1.antt =====
-- crates/tgcryptfs-core/src/block/srb1.rs: the SRB1 block format, as lists of bytes.
pub mod RoundTrip
use Prim.Native.Nat.{bit_and}
use tgcryptfs.Crypto.Aead.{Bytes, Cipher, AeadError, nonce_size, tag_size, encrypt, decrypt}
use tgcryptfs.Common.{
  ℕ, ◌+◌, ◌-◌, ◌*◌, ◌/◌, ◌%◌, Bool, true, false, not, ◌&&◌, [], ◌∷◌, ◌++◌, ltb, ◌==◌, if◌then◌else◌,
  u32_mod, Result, ok, err, ◌>>=◌, ◌>>◌, length, take, drop, get_or,
}

-- b"SRB1"
abbrev pub magic : Bytes
magic = b'S' ∷ b'R' ∷ b'B' ∷ b'1' ∷ []

abbrev pub format_version : ℕ
format_version = 1

abbrev pub header_size : ℕ
header_size = 46

abbrev pub flag_compressed : ℕ
flag_compressed = 1

-- u32::to_le_bytes
abbrev pub to_le_bytes : ℕ → Bytes
to_le_bytes n = n % 256 ∷ n / 256 % 256 ∷ n / 65536 % 256 ∷ n / 16777216 % 256 ∷ []

-- u32::from_le_bytes
abbrev pub from_le_bytes : Bytes → ℕ
from_le_bytes bs =
    get_or bs 0 0 + 256 * get_or bs 1 0 + 65536 * get_or bs 2 0 + 16777216 * get_or bs 3 0

pub data BlockError : Type 0 where
  cipher_error : AeadError → BlockError
  too_short invalid_magic length_mismatch : BlockError
  unsupported_version : ℕ → BlockError

abbrev map_cipher_error : Result AeadError Bytes → Result BlockError Bytes
map_cipher_error (ok bs) = ok bs
map_cipher_error (err e) = err (cipher_error e)

-- The header behind the magic, which the associated data bind.
unfoldable pub header_tail : ℕ → Bool → Bytes → ℕ → Bytes
header_tail epoch compressed content_hash plaintext_len =
    format_version ∷ to_le_bytes epoch
    ++ (if compressed then flag_compressed else 0) ∷ content_hash
    ++ to_le_bytes plaintext_len

pub record DecodedBlock : Type 0 where
  pub epoch : ℕ
  pub compressed : Bool
  pub content_hash : Bytes
  pub plaintext_len : ℕ
  pub plaintext : Bytes

bytes_eq : Bytes → Bytes → Bool
bytes_eq [] [] = true
bytes_eq (a ∷ as_) (b ∷ bs) = a == b && bytes_eq as_ bs
bytes_eq _ _ = false

-- `block[from..to]`
abbrev pub slice : ℕ → ℕ → Bytes → Bytes
slice from to block = take (to - from) (drop from block)

-- The tests of `decode` up to the header's fields.
unfoldable pub check_header : Bytes → Result BlockError (Unit {0})
unfolding bytes_eq
check_header block =
    if ltb (length block) (header_size + nonce_size + tag_size)
    then err too_short
    else if not (bytes_eq (take 4 block) magic)
    then err invalid_magic
    else if not (get_or block 4 0 == format_version)
    then err (unsupported_version (get_or block 4 0))
    else ok tt

module _ (cipher : Cipher) where
  -- `plaintext.len() as u32` keeps the low 32 bits.
  unfoldable pub encode : Bytes → Bytes → ℕ → Bytes → Bool → Bytes → Bytes → Result BlockError Bytes
  unfolding header_tail
  encode nonce key epoch plaintext compressed content_hash aad =
      let header = header_tail epoch compressed content_hash (length plaintext % u32_mod) in
      do
        encrypted ← map_cipher_error (encrypt cipher nonce key plaintext (aad ++ header))
        ok (magic ++ header ++ encrypted)

  unfoldable pub decode : Bytes → Bytes → Bytes → Result BlockError DecodedBlock
  unfolding check_header
  decode key block aad =
      let plaintext_len = from_le_bytes (slice 42 46 block) in
      do
        check_header block
        plaintext ←
            map_cipher_error
              (decrypt cipher key (drop header_size block) (aad ++ slice 4 header_size block))
        if not (length plaintext == plaintext_len)
            then err length_mismatch
            else ok (record {
              epoch = from_le_bytes (slice 5 9 block);
              compressed = not (bit_and (get_or block 9 0) flag_compressed == 0);
              content_hash = slice 10 42 block;
              plaintext_len = plaintext_len;
              plaintext = plaintext;
            })
