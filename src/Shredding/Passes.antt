-- ===== src/Shredding/Passes.antt =====
-- One file: it is removed after all passes, or it is still there.
use tgcryptfs.Crypto.Aead.{Bytes}
use tgcryptfs.Shredding.{Io, FileShred, pass_loop, shred_file}
use tgcryptfs.Common.{
  ℕ, zero, suc, ◌+◌, ◌≡◌, refl, ap, ◌⊎◌, inl, inr, true, ◌&&◌, none, some, List, ◌∷◌, arith,
  Bool-cases, length, All,
}

-- As many writes as passes, each as long as the file.
abbrev pub Overwritten : ℕ → ℕ → List Bytes → Type 0
Overwritten passes size written =
    (length written ≡ passes) × All (λ (w : Bytes). length w ≡ size) written

abbrev pub Removed : ℕ → ℕ → FileShred → Type 0
Removed passes size s = (s.left ≡ none) × Overwritten passes size s.written

module _ (io : Io) where
  pass_loop-suc :
      (passes size n : ℕ) (contents : Bytes)
      → io.works n ≡ true
      → (io.works (n + 1) && io.works (n + 2)) ≡ true
      → pass_loop io (suc passes) size contents n ≡ (
          let next = pass_loop io passes size (io.random n size) (n + 3) in
          record next { written = io.random n size ∷ next.written })
  unfolding pass_loop
  pass_loop-suc passes size n contents e f = rw (e, f, pass_loop) refl

  pass_loop_cases :
      (passes size n : ℕ) (contents : Bytes)
      → Removed passes size (pass_loop io passes size contents n)
        ⊎ ((changed : Bytes) × ((pass_loop io passes size contents n).left ≡ some changed))
  unfolding pass_loop
  pass_loop_cases zero size n contents = elim (Bool-cases (io.works n)) [
    | inl e ↦ inl (rw e refl, (refl, tt))
    | inr e ↦ inr (contents, rw e refl)
  ]
  pass_loop_cases (suc passes) size n contents = elim (Bool-cases (io.works n)) [
    | inr e ↦ inr (io.leftover n, ground arith)
    | inl e ↦ elim (Bool-cases (io.works (n + 1) && io.works (n + 2))) [
      | inr f ↦ inr (io.random n size, ground arith)
      | inl f ↦ elim (pass_loop_cases passes size (n + 3) (io.random n size)) [
        | inr (changed, g) ↦ inr (changed, ground arith)
        | inl (g, h) ↦
            rw (pass_loop-suc passes size n contents e f)
              (inl (g, (ap suc h.0, (io.sized n size, h.1))))
      ]
    ]
  ]

  pub shred_file_cases :
      (passes n : ℕ) (contents : Bytes)
      → Removed passes (length contents) (shred_file io passes contents n)
        ⊎ ((changed : Bytes) × ((shred_file io passes contents n).left ≡ some changed))
  unfolding shred_file
  shred_file_cases passes n contents = elim (Bool-cases (io.works n)) [
    | inr e ↦ inr (contents, ground arith)
    | inl e ↦ rw (e, shred_file) (pass_loop_cases passes (length contents) (n + 1) contents)
  ]
