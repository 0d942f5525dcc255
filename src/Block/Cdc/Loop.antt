-- ===== src/Block/Cdc/Loop.antt =====
-- The loop of `chunk` from one state on: what the chunks are that it adds.
use tgcryptfs.Common
use tgcryptfs.Common.{
  is_ok, ℕ, zero, suc, ◌+◌, ◌-◌, ◌≤◌, ◌<◌, max, ◌≡◌, refl, ap, ◌↔◌, inl, inr, true, List, [], ◌∷◌,
  ◌++◌, arith, ltb, leb, Bool-cases, Result, ok, All,
}
use mathlib.Core.List.{append-nil, append_assoc}
use tgcryptfs.Block.Cdc.{next_fingerprint, cuts, finish, chunk_loop, CdcConfig, CdcError, Chunk}

abbrev pub size : List ℕ → ℕ
size = Common.length

-- The chunks follow one another from `a` to `b`, and none is empty.
abbrev pub Splits : ℕ → List Chunk → ℕ → Type 0
Splits a [] b = a ≡ b
Splits a (c ∷ rest) b = (c.offset ≡ a) × (0 < c.length) × Splits (a + c.length) rest b

Splits-append :
    (a b c : ℕ) (xs ys : List Chunk) → Splits a xs b → Splits b ys c → Splits a (xs ++ ys) c
Splits-append a b c [] ys s t = rw s t
Splits-append a b c (x ∷ xs) ys (e, p, s) t = (e, p, Splits-append (a + x.length) b c xs ys s t)

-- The largest chunk that the loop cuts: it tests the length only after `min_size` bytes and one.
abbrev pub largest : CdcConfig → ℕ
largest config = max config.max_size (config.min_size + 1)

-- The length of a chunk that the loop has cut.
abbrev pub IsFull : CdcConfig → Chunk → Type 0
IsFull config c = (config.min_size < c.length) × (c.length ≤ largest config)

-- `more` splits what is left from `a` to `n`: chunks that were cut, and at most one shorter rest.
pub record IsChunking (config : CdcConfig) (a n : ℕ) (more : List Chunk) : Type 0 where
  pub full : List Chunk
  pub rest : List Chunk
  pub parts : more ≡ full ++ rest
  pub splits : Splits a more n
  pub sized : All (IsFull config) full
  pub few : Common.length rest ≤ 1
  pub small : All (λ c. c.length ≤ largest config) rest

-- What the loop does from a state, as a statement about its result.
abbrev pub LoopResult : CdcConfig → ℕ → ℕ → List Chunk → Result CdcError (List Chunk) → Type 0
LoopResult config chunk_start n chunks r =
    (more : List Chunk) × (r ≡ ok (chunks ++ more)) × IsChunking config chunk_start n more

IsChunking-cons :
    (config : CdcConfig) (a b n : ℕ) (c : Chunk) (more : List Chunk)
    → c.offset ≡ a
    → a + c.length ≡ b
    → IsFull config c
    → IsChunking config b n more
    → IsChunking config a n (c ∷ more)
IsChunking-cons config a b n c more at_a to_b sized k = record {
  full = c ∷ k.full;
  rest = k.rest;
  parts = ap (◌∷◌ c) k.parts;
  splits = (at_a, omega arith, rw to_b k.splits);
  sized = (sized, k.sized);
  few = k.few;
  small = k.small;
}

finish_lem :
    (config : CdcConfig) (data_bytes : List ℕ) (chunk_start : ℕ) (chunks : List Chunk)
    → chunk_start ≤ size data_bytes
    → size data_bytes ≤ chunk_start + largest config
    → LoopResult config chunk_start
        (size data_bytes)
        chunks
        (ok (finish data_bytes chunk_start chunks))
unfolding finish
finish_lem config data_bytes chunk_start chunks le near =
    elim (Bool-cases (ltb chunk_start (size data_bytes))) [
      | inl some_left ↦ (
        record { offset = chunk_start; length = size data_bytes - chunk_start } ∷ [],
        rw some_left,
        record {
          full = [];
          rest = record { offset = chunk_start; length = size data_bytes - chunk_start } ∷ [];
          parts = refl;
          splits = (refl, ground arith, omega arith);
          sized = tt;
          few = omega arith;
          small = (omega arith, tt);
        },
      )
      | inr none_left ↦ (
        [],
        rw (none_left, append-nil),
        record {
          full = [];
          rest = [];
          parts = refl;
          splits = ground arith;
          sized = tt;
          few = omega arith;
          small = tt;
        },
      )
    ]

module _ (config : CdcConfig) (mask : ℕ) (data_bytes : List ℕ) where
  pub chunk_loop_lem :
      (fuel i chunk_start fingerprint : ℕ) (chunks : List Chunk)
      → chunk_start + config.min_size ≤ i
      → i < chunk_start + largest config
      → chunk_start ≤ size data_bytes
      → 0 < fuel
      → size data_bytes < i + fuel
      → LoopResult config chunk_start
          (size data_bytes)
          chunks
          (chunk_loop config mask data_bytes fuel i chunk_start fingerprint chunks)
  unfolding chunk_loop
  chunk_loop_lem zero i chunk_start fingerprint chunks lo hi le pos room = absurd (omega arith)
  chunk_loop_lem (suc fuel) i chunk_start fingerprint chunks lo hi le pos room =
      elim (Bool-cases (ltb i (size data_bytes))) [
        | inr done ↦ rw done (finish_lem config data_bytes chunk_start chunks le (ground arith))
        | inl going ↦ rw going (elim (Bool-cases (cuts config mask fp (i - chunk_start + 1))) [
          | inl cut ↦
              let (more, e, k) =
                chunk_loop_lem fuel (i + 1 + config.min_size) (i + 1) 0 (chunks ++ c ∷ [])
                  (omega arith) (omega arith) (ground arith) (ground arith) (ground arith) in
              (
                c ∷ more,
                rw (cut, e, append_assoc),
                IsChunking-cons config chunk_start (i + 1) (size data_bytes) c more refl
                    (omega arith) (omega arith) k,
              )
          | inr on ↦ rw on (
              chunk_loop_lem fuel (i + 1) chunk_start fp chunks (omega arith)
                (unfold cuts in ground arith) le (ground arith) (omega arith))
        ])
      ]
    where
      fp : ℕ
      fp = next_fingerprint data_bytes i fingerprint

      c : Chunk
      c = record { offset = chunk_start; length = i - chunk_start + 1 }
