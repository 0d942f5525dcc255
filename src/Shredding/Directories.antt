-- ===== src/Shredding/Directories.antt =====
-- The entries of a directory: all files are overwritten and gone, or the work stopped at one of them.
use tgcryptfs.Crypto.Aead.{Bytes}
use tgcryptfs.Shredding.{
  Forest, nothing, file, dir, files, Io, FileShred, ForestShred, shred_file, shred_entries,
}
use tgcryptfs.Shredding.Passes.{Overwritten, Removed, shred_file_cases}
use tgcryptfs.Common.{
  ℕ, ◌+◌, ◌≡◌, refl, ◌⊎◌, inl, inr, Bool, true, false, not, ◌&&◌, List, [], ◌∷◌, ◌++◌,
  if◌then◌else◌, Bool-cases, length,
}

-- File by file, what was written.
abbrev pub Matches : ℕ → List Bytes → List (List Bytes) → Type 0
Matches passes [] [] = Unit
Matches passes [] (w ∷ ws) = ⊥
Matches passes (c ∷ cs) [] = ⊥
Matches passes (c ∷ cs) (w ∷ ws) = Overwritten passes (length c) w × Matches passes cs ws

Matches-append :
    (passes : ℕ) (cs ds : List Bytes) (ws vs : List (List Bytes))
    → Matches passes cs ws
    → Matches passes ds vs
    → Matches passes (cs ++ ds) (ws ++ vs)
Matches-append passes [] ds [] vs h k = k
Matches-append passes [] ds (w ∷ ws) vs h k = absurd h
Matches-append passes (c ∷ cs) ds [] vs h k = absurd h
Matches-append passes (c ∷ cs) ds (w ∷ ws) vs (a, h) k = (a, Matches-append passes cs ds ws vs h k)

-- Of the files some at the front are gone, the next may be altered, and the others are as they were.
pub data Remains : List Bytes → List Bytes → Type 0 where
  kept : (cs : List Bytes) → Remains cs cs
  altered : (c d : Bytes) (cs : List Bytes) → Remains (c ∷ cs) (d ∷ cs)
  gone : {cs ls : List Bytes} (c : Bytes) → Remains cs ls → Remains (c ∷ cs) ls

Remains-append :
    {cs ls : List Bytes} (more : List Bytes) → Remains cs ls → Remains (cs ++ more) (ls ++ more)
Remains-append more (kept cs) = kept (cs ++ more)
Remains-append more (altered c d cs) = altered c d (cs ++ more)
Remains-append more (gone c r) = gone c (Remains-append more r)

skip_front : {cs ls : List Bytes} (front : List Bytes) → Remains cs ls → Remains (front ++ cs) ls
skip_front [] r = r
skip_front (c ∷ front) r = gone c (skip_front front r)

pub all_gone : (cs : List Bytes) → Remains cs []
all_gone [] = kept []
all_gone (c ∷ cs) = gone c (all_gone cs)

abbrev pub AllShredded : ℕ → Forest → ForestShred → Type 0
AllShredded passes entries s =
    (s.done ≡ true) × (files s.left ≡ []) × Matches passes (files entries) s.written

abbrev pub Stopped : Forest → ForestShred → Type 0
Stopped entries s = (s.done ≡ false) × Remains (files entries) (files s.left)

module _ (io : Io) (passes : ℕ) (removes : Bool) where
  abbrev pub Shreds : Forest → ForestShred → Type 0
  Shreds entries s = AllShredded passes entries s ⊎ Stopped entries s

  file_step :
      (name contents : Bytes) (rest : Forest) (one : FileShred) (others : ForestShred)
      → Removed passes (length contents) one
      → Shreds rest others
      → Shreds (file name contents rest) (record others { written = one.written ∷ others.written })
  file_step name contents rest one others r (inl (done, empty, matches)) =
      inl (done, empty, (r.1, matches))
  file_step name contents rest one others r (inr (stopped, remains)) =
      inr (stopped, gone contents remains)

  dir_step :
      (name : Bytes) (sub rest : Forest) (inner others : ForestShred)
      → AllShredded passes sub inner
      → Shreds rest others
      → Shreds (dir name sub rest) (record others {
        left = if removes then others.left else dir name inner.left others.left;
        written = inner.written ++ others.written;
      })
  dir_step name sub rest inner others (d, e, m) (inl (done, empty, matches)) = inl (
    done,
    (elim (Bool-cases removes) [ inl r ↦ rw r empty | inr r ↦ rw (r, e, empty) refl ]),
    Matches-append passes (files sub) (files rest) inner.written others.written m matches,
  )
  dir_step name sub rest inner others (d, e, m) (inr (stopped, remains)) = inr (
    stopped,
    (elim (Bool-cases removes) [
      | inl r ↦ rw r (skip_front (files sub) remains)
      | inr r ↦ rw (r, e) (skip_front (files sub) remains)
    ]),
  )

  pub shred_entries-Shreds :
      (entries : Forest) (n : ℕ) → Shreds entries (shred_entries io passes removes entries n)
  unfolding shred_entries
  shred_entries-Shreds nothing n = inl (refl, refl, tt)
  shred_entries-Shreds (file name contents rest) n =
      let one = shred_file io passes contents (n + 1) in
      let others = shred_entries-Shreds rest one.calls in
      elim (Bool-cases (io.works n)) [
        | inr e ↦ rw (e, shred_entries) (inr (refl, kept (contents ∷ files rest)))
        | inl e ↦ elim (shred_file_cases io passes (n + 1) contents) [
          | inl r ↦
              rw (e, r.0, shred_entries)
                (file_step name contents rest one (shred_entries io passes removes rest one.calls) r
                  others)
          | inr (left_over, f) ↦
              rw (e, f, shred_entries) (inr (refl, altered contents left_over (files rest)))
        ]
      ]
  shred_entries-Shreds (dir name sub rest) n =
      let inner = shred_entries io passes removes sub (n + 2) in
      let calls = if removes then inner.calls + 1 else inner.calls in
      let others = shred_entries-Shreds rest calls in
      let entered = shred_entries-Shreds sub (n + 2) in
      elim (Bool-cases (io.works n && io.works (n + 1))) [
        | inr e ↦ rw e (inr (refl, kept (files sub ++ files rest)))
        | inl e ↦ elim entered [
          | inr (stopped, remains) ↦
              rw (e, stopped) (inr (refl, Remains-append (files rest) remains))
          | inl (done, empty, m) ↦ elim (Bool-cases (removes && not (io.works inner.calls))) [
            | inl f ↦
                rw (e, done, f) (inr (refl, rw empty (skip_front (files sub) (kept (files rest)))))
            | inr f ↦
                rw (e, done, f)
                  (dir_step name sub rest inner (shred_entries io passes removes rest calls)
                    (done, empty, m) others)
          ]
        ]
      ]
