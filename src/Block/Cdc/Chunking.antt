-- ===== src/Block/Cdc/Chunking.antt =====
-- `chunk` of block/cdc.rs: the chunks split the data, and their sizes lie in the configured range.
use tgcryptfs.Common
use tgcryptfs.Common.{
  is_ok, ℕ, zero, suc, ◌+◌, ◌-◌, ◌≤◌, ◌<◌, max, ◌≡◌, refl, ap, ◌↔◌, inl, inr, true, List, [], ◌∷◌,
  ◌++◌, arith, ltb, leb, Bool-cases, Result, ok, All,
}
use tgcryptfs.Block.Cdc.Loop.{size, Splits, largest, IsFull, IsChunking, chunk_loop_lem}
use tgcryptfs.Block.Cdc.{mask_from_target, chunk, check_config, CdcConfig, Chunk}

-- The first chunk, where a full one is one byte longer than the rest may be.
IsChunking-first :
    (config : CdcConfig) (n : ℕ) (cs : List Chunk)
    → IsChunking config 0 n cs
    → config.min_size ≡ config.max_size
    → config.max_size < n
    → (c : Chunk) × (rest : List Chunk) × (cs ≡ c ∷ rest) × (c.length ≡ config.max_size + 1)
IsChunking-first config n cs k same long =
    go k.full k.rest k.parts (rw k.parts at k.splits) k.sized k.few k.small
  where
    go :
        (full rest : List Chunk)
        → cs ≡ full ++ rest
        → Splits 0 (full ++ rest) n
        → All (IsFull config) full
        → Common.length rest ≤ 1
        → All (λ c. c.length ≤ largest config) rest
        → (c : Chunk) × (more : List Chunk) × (cs ≡ c ∷ more) × (c.length ≡ config.max_size + 1)
    go (c ∷ full) rest e s sized few small = (c, full ++ rest, e, omega arith)
    go [] (c ∷ []) e s sized few small = (c, [], e, omega arith)
    go [] (c ∷ d ∷ rest) e s sized few small = absurd (omega arith)
    go [] [] e s sized few small = absurd (omega arith)

-- What the configuration has to satisfy.
abbrev pub Sensible : CdcConfig → Type 0
Sensible config =
    (0 < config.min_size)
    × (config.min_size ≤ config.target_size)
    × (config.target_size ≤ config.max_size)

check_config_iff : (config : CdcConfig) → (check_config config ≡ ok tt) ↔ Sensible config
unfolding check_config
check_config_iff config = (λ h. (ground arith, ground arith, ground arith), λ s. ground arith)

module _ (float_log2 : ℕ → ℕ) (config : CdcConfig) where
  -- With 0 < min_size ≤ target_size ≤ max_size, whatever mask the float computation gives, `chunk`
  -- ends and returns chunks that split the data from 0 to its length, in order, none empty: all but
  -- at most one last chunk are longer than `min_size`, and no chunk is longer than the greater of
  -- `max_size` and `min_size + 1`.
  pub chunk-IsChunking :
      (data_bytes : List ℕ)
      → Sensible config
      → (cs : List Chunk) × (chunk float_log2 config data_bytes ≡ ok cs)
        × IsChunking config 0 (size data_bytes) cs
  unfolding chunk
  chunk-IsChunking [] s = (
    [],
    rw ((check_config_iff config).1 s),
    record {
      full = [];
      rest = [];
      parts = refl;
      splits = refl;
      sized = tt;
      few = omega arith;
      small = tt;
    },
  )
  chunk-IsChunking (b ∷ bs) s = elim (Bool-cases (leb (size (b ∷ bs)) config.min_size)) [
    | inl short ↦ (
      record { offset = 0; length = size (b ∷ bs) } ∷ [],
      rw ((check_config_iff config).1 s, short),
      record {
        full = [];
        rest = record { offset = 0; length = size (b ∷ bs) } ∷ [];
        parts = refl;
        splits = (refl, omega arith, omega arith);
        sized = tt;
        few = omega arith;
        small = (ground arith, tt);
      },
    )
    | inr long ↦
        let (more, e, k) =
          chunk_loop_lem config (mask_from_target float_log2 config.target_size) (b ∷ bs)
            (suc (size (b ∷ bs))) config.min_size 0 0 [] (omega arith) (omega arith) (omega arith)
            (omega arith) (omega arith) in
        (more, rw ((check_config_iff config).1 s, long) e, k)
  ]

  -- `chunk` accepts a configuration exactly when 0 < min_size ≤ target_size ≤ max_size.
  chunk-is_ok_iff :
      (data_bytes : List ℕ) → (is_ok (chunk float_log2 config data_bytes) ≡ true) ↔ Sensible config
  chunk-is_ok_iff data_bytes = (
    λ h. (check_config_iff config).0 (unfold chunk in ground arith),
    λ s. let (cs, e, _) = chunk-IsChunking data_bytes s in rw e,
  )

  -- Where `min_size` and `max_size` are equal, which `chunk` accepts, and the data are longer, the
  -- first chunk has `max_size + 1` bytes.
  chunk-over_max :
      (data_bytes : List ℕ)
      → Sensible config
      → config.min_size ≡ config.max_size
      → config.max_size < size data_bytes
      → (c : Chunk) × (cs : List Chunk) × (chunk float_log2 config data_bytes ≡ ok (c ∷ cs))
        × (c.length ≡ config.max_size + 1)
  chunk-over_max data_bytes s same long =
      let (cs, e, k) = chunk-IsChunking data_bytes s in
      let (c, rest, parts, long) = IsChunking-first config (size data_bytes) cs k same long in
      (c, rest, rw (← parts) e, long)
