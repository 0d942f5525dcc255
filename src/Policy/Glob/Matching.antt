-- ===== src/Policy/Glob/Matching.antt =====
-- The path matcher decides an independent description of the patterns.
use mathlib.Core.Path.{subst}
use tgcryptfs.Common.Dict.{list_eq, nat_eq, list_beq, list_beq_iff}
use tgcryptfs.Policy.Glob.{
  Text, double_star, any_tail, match_head, glob_match_segment, glob_match_parts,
}
use tgcryptfs.Common.{
  ◌≡◌, refl, sym, ◌≢◌, ◌↔◌, inl, inr, Bool, true, List, [], ◌∷◌, arith, Bool-cases,
}

-- `**` stands for any number of segments, any other part for one segment that it matches.
pub data Matches : List Text → List Text → Type 0 where
  done : Matches [] []
  stop : {ps path : List Text} → Matches ps path → Matches (double_star ∷ ps) path
  skip :
      {s : Text} {ps path : List Text}
      → Matches (double_star ∷ ps) path
      → Matches (double_star ∷ ps) (s ∷ path)
  step :
      {p s : Text} {ps path : List Text}
      → p ≢ double_star
      → glob_match_segment p s ≡ true
      → Matches ps path
      → Matches (p ∷ ps) (s ∷ path)

any_tail-Matches :
    (ps path : List Text)
    → ((rest : List Text) → glob_match_parts ps rest ≡ true → Matches ps rest)
    → any_tail (glob_match_parts ps) path ≡ true
    → Matches (double_star ∷ ps) path
unfolding any_tail
any_tail-Matches ps [] sound h = stop (sound [] h)
any_tail-Matches ps (s ∷ path) sound h = elim (Bool-cases (glob_match_parts ps (s ∷ path))) [
  | inl now ↦ stop (sound (s ∷ path) now)
  | inr later ↦ skip (any_tail-Matches ps path sound (ground arith))
]

match_head-Matches :
    (p : Text) (ps path : List Text)
    → ((rest : List Text) → glob_match_parts ps rest ≡ true → Matches ps rest)
    → p ≢ double_star
    → match_head p (glob_match_parts ps) path ≡ true
    → Matches (p ∷ ps) path
unfolding match_head
match_head-Matches p ps [] sound ne h = absurd (ground arith)
match_head-Matches p ps (s ∷ path) sound ne h = step ne (ground arith) (sound path (ground arith))

sound : (ps path : List Text) → glob_match_parts ps path ≡ true → Matches ps path
unfolding glob_match_parts
sound [] [] h = done
sound [] (s ∷ path) h = absurd (ground arith)
sound (p ∷ ps) path h = elim (Bool-cases (list_beq p double_star)) [
  | inl two ↦
      let e = (list_beq_iff p double_star).0 two in
      subst (λ q. Matches (q ∷ ps) path) (sym e)
        (any_tail-Matches ps path (sound ps) (ground arith))
  | inr other ↦
      match_head-Matches p ps path (sound ps)
        (λ e. absurd (ground (arith, list_beq_iff p double_star))) (ground arith)
]

any_tail-stop : (f : List Text → Bool) (path : List Text) → f path ≡ true → any_tail f path ≡ true
unfolding any_tail
any_tail-stop f [] h = h
any_tail-stop f (s ∷ path) h = ground arith

complete : {ps path : List Text} → Matches ps path → glob_match_parts ps path ≡ true
unfolding glob_match_parts any_tail match_head
complete done = refl
complete (stop {ps} {path} m) = any_tail-stop (glob_match_parts ps) path (complete m)
complete (skip {s} {ps} {path} m) = ground (arith, complete m)
complete (step {p} {s} {ps} {path} ne hit m) =
    ground (arith, complete m, list_beq_iff p double_star)

-- `glob_match_parts` is true exactly when the path matches the pattern: `**` takes any number of
-- segments, none included, and any other part takes one segment that it matches.
pub glob_match_parts_iff :
    (ps path : List Text) → (glob_match_parts ps path ≡ true) ↔ Matches ps path
glob_match_parts_iff ps path = (sound ps path, complete)
