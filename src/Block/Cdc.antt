-- ===== src/Block/Cdc.antt =====
-- crates/tgcryptfs-core/src/block/cdc.rs: content-defined chunking. The one float computation,
-- `(target as f64).log2().floor() as u32`, is the parameter `float_log2`. The loop runs on fuel.
pub mod Loop
pub mod Chunking
pub mod Window
use Prim.Native.Nat.{bit_and, bit_xor}
use tgcryptfs.Common.{
  ℕ, zero, suc, ◌+◌, ◌-◌, ◌*◌, ◌%◌, ◌^◌, Bool, ◌||◌, List, [], ◌∷◌, ◌++◌, ltb, leb, ◌==◌,
  if◌then◌else◌, u64_mod, add_u64, Result, ok, err, ◌>>=◌, ◌>>◌, length, get_or, is_empty,
}

pub record CdcConfig : Type 0 where
  pub min_size : ℕ
  pub max_size : ℕ
  pub target_size : ℕ

pub record Chunk : Type 0 where
  pub offset : ℕ
  pub length : ℕ

-- `out_of_fuel` is the model's own.
pub data CdcError : Type 0 where
  zero_size min_above_max target_out_of_range out_of_fuel : CdcError

abbrev pub polynomial : ℕ
polynomial = 0x3DA3358B4DC173

abbrev pub window_size : ℕ
window_size = 48

abbrev pub mul_u64 : ℕ → ℕ → ℕ
mul_u64 a b = (a * b) % u64_mod

-- wrapping_sub of two numbers below 2^64
abbrev pub sub_u64 : ℕ → ℕ → ℕ
sub_u64 a b = (a + u64_mod - b) % u64_mod

-- The loop of `pow_mod`, with the rounds left and its `result`.
unfoldable pub pow_loop : ℕ → ℕ → ℕ → ℕ
pow_loop base zero result = result
pow_loop base (suc n) result = pow_loop base n (mul_u64 result base)

unfoldable pub pow_mod : ℕ → ℕ → ℕ
unfolding pow_loop
pow_mod base exp = pow_loop base exp 1

-- The fingerprint after the byte at `i`, before the polynomial is xored in.
unfoldable pub roll : List ℕ → ℕ → ℕ → ℕ
unfolding pow_mod
roll data_bytes i fingerprint =
    let pushed = add_u64 (mul_u64 fingerprint 256) (get_or data_bytes i 0) in
    if leb window_size i
    then sub_u64 pushed (mul_u64 (get_or data_bytes (i - window_size) 0) (pow_mod 256 window_size))
    else pushed

unfoldable pub next_fingerprint : List ℕ → ℕ → ℕ → ℕ
unfolding roll
next_fingerprint data_bytes i fingerprint = bit_xor (roll data_bytes i fingerprint) polynomial

-- The cut test: the masked fingerprint is 0, or the chunk has reached `max_size`.
unfoldable pub cuts : CdcConfig → ℕ → ℕ → ℕ → Bool
cuts config mask fingerprint chunk_len =
    (bit_and fingerprint mask == 0) || leb config.max_size chunk_len

-- After the loop, what is left is the last chunk.
unfoldable pub finish : List ℕ → ℕ → List Chunk → List Chunk
finish data_bytes chunk_start chunks =
    if ltb chunk_start (length data_bytes)
    then chunks ++ record { offset = chunk_start; length = length data_bytes - chunk_start } ∷ []
    else chunks

-- The `while` loop: fuel, `i`, `chunk_start`, `fingerprint` and `chunks`.
unfoldable pub chunk_loop :
    CdcConfig → ℕ → List ℕ → ℕ → ℕ → ℕ → ℕ → List Chunk → Result CdcError (List Chunk)
chunk_loop config mask data_bytes zero i chunk_start fingerprint chunks = err out_of_fuel
chunk_loop config mask data_bytes (suc fuel) i chunk_start fingerprint chunks =
    let fp = next_fingerprint data_bytes i fingerprint in
    let chunk_len = i - chunk_start + 1 in
    let cut =
      chunk_loop config mask data_bytes fuel (i + 1 + config.min_size) (i + 1) 0
        (chunks ++ record { offset = chunk_start; length = chunk_len } ∷ []) in
    let go_on = chunk_loop config mask data_bytes fuel (i + 1) chunk_start fp chunks in
    let step = if cuts config mask fp chunk_len then cut else go_on in
    if ltb i (length data_bytes) then step else ok (finish data_bytes chunk_start chunks)

unfoldable pub check_config : CdcConfig → Result CdcError (Unit {0})
check_config config =
    if (config.min_size == 0) || ((config.max_size == 0) || (config.target_size == 0))
    then err zero_size
    else if ltb config.max_size config.min_size
    then err min_above_max
    else if ltb config.target_size config.min_size || ltb config.max_size config.target_size
    then err target_out_of_range
    else ok tt

module _ (float_log2 : ℕ → ℕ) where
  unfoldable pub mask_from_target : ℕ → ℕ
  mask_from_target target = 2 ^ float_log2 target - 1

  unfoldable pub chunk : CdcConfig → List ℕ → Result CdcError (List Chunk)
  unfolding check_config chunk_loop finish mask_from_target
  chunk config data_bytes = do
    check_config config
    if is_empty data_bytes
        then ok []
        else if leb (length data_bytes) config.min_size
        then ok (record { offset = 0; length = length data_bytes } ∷ [])
        else chunk_loop config (mask_from_target config.target_size) data_bytes
            (suc (length data_bytes)) config.min_size 0 0 []
