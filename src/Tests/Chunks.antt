-- ===== src/Tests/Chunks.antt =====
-- Chunking of short data with small sizes.
use tgcryptfs.Block.Cdc.{CdcConfig, Chunk, pow_loop, pow_mod, roll, next_fingerprint, cuts, chunk}
use tgcryptfs.Block.Cdc.Chunking.{Sensible, chunk-IsChunking}
use tgcryptfs.Block.Cdc.Loop.{IsChunking}
use tgcryptfs.Common
use tgcryptfs.Common.{ℕ, ◌≡◌, refl, List, [], ◌∷◌, arith, ok}

abbrev small : CdcConfig
small = record { min_size = 2; max_size = 4; target_size = 3 }

-- floor(log2 3)
abbrev log2_of_3 : ℕ → ℕ
log2_of_3 target = 1

abbrev bytes : List ℕ
bytes = 9 ∷ 8 ∷ 7 ∷ 6 ∷ 5 ∷ 4 ∷ 3 ∷ []

chunks_of_bytes :
    chunk log2_of_3 small bytes
    ≡ ok (record { offset = 0; length = 3 } ∷ record { offset = 3; length = 4 } ∷ [])
unfolding chunk pow_loop pow_mod roll next_fingerprint cuts
chunks_of_bytes = refl

small-Sensible : Sensible small
small-Sensible = omega arith

chunk-IsChunking_example :
    (cs : List Chunk) × (chunk log2_of_3 small bytes ≡ ok cs)
    × IsChunking small 0 (Common.length bytes) cs
chunk-IsChunking_example = chunk-IsChunking log2_of_3 small bytes small-Sensible

abbrev fixed : CdcConfig
fixed = record { min_size = 3; max_size = 3; target_size = 3 }
