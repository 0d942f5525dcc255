-- ===== src/Records/Orders.antt =====
-- Rows in another order open to the same records in that order.
use mathlib.Core.Path.{subst}
use mathlib.Core.List.{Permᴰ}
use tgcryptfs.Crypto.Aead.{Bytes}
use tgcryptfs.Common.Dict.{Eq}
use tgcryptfs.Records.{TableRow, Store}
use tgcryptfs.Records.Opening.{Opens, OpensTo, contents_of}
use tgcryptfs.Common.{refl, ap, List, [], ◌∷◌}

contents_of-Permᴰ :
    {K C X : Type 0} {rows found : List (TableRow K C X)}
    → Permᴰ rows found
    → Permᴰ (contents_of rows) (contents_of found)
contents_of-Permᴰ Permᴰ.nil = Permᴰ.nil
contents_of-Permᴰ (Permᴰ.cons e p) = Permᴰ.cons (ap (λ r. r.contents) e) (contents_of-Permᴰ p)
contents_of-Permᴰ (Permᴰ.swap e f) = Permᴰ.swap (ap (λ r. r.contents) e) (ap (λ r. r.contents) f)
contents_of-Permᴰ (Permᴰ.trans p q) = Permᴰ.trans (contents_of-Permᴰ p) (contents_of-Permᴰ q)

module _ {K C A : Type 0} ⦃e : Eq K⦄ (store : Store K C A) (aad : K → Bytes) where
  abbrev Reordered : List (TableRow K C Bytes) → List (TableRow K C A) → Type 0
  Reordered found plain =
      (ordered : List (TableRow K C A)) × Permᴰ plain ordered × Opens store aad found ordered

  Opens-Reordered :
      {rows found : List (TableRow K C Bytes)} (plain : List (TableRow K C A))
      → Permᴰ rows found
      → Opens store aad rows plain
      → Reordered found plain
  Opens-Reordered [] Permᴰ.nil h = ([], Permᴰ.nil, tt)
  Opens-Reordered (p ∷ plain) Permᴰ.nil h = absurd h
  Opens-Reordered [] (Permᴰ.cons e q) h = absurd h
  Opens-Reordered (p ∷ plain) (Permᴰ.cons e q) (a, h) =
      let (ordered, q', k) : Reordered _ plain = Opens-Reordered plain q h in
      (p ∷ ordered, Permᴰ.cons refl q', (subst (λ r. OpensTo store aad r p) e a, k))
  Opens-Reordered [] (Permᴰ.swap e f) h = absurd h
  Opens-Reordered (p ∷ []) (Permᴰ.swap e f) (a, h) = absurd h
  Opens-Reordered (p ∷ other ∷ plain) (Permᴰ.swap e f) (a, h) = (
    other ∷ p ∷ plain,
    Permᴰ.swap refl refl,
    (subst (λ r. OpensTo store aad r other) f h.0, (subst (λ r. OpensTo store aad r p) e a, h.1)),
  )
  Opens-Reordered plain (Permᴰ.trans q r) h =
      let (middle, q', k) : Reordered _ plain = Opens-Reordered plain q h in
      let (ordered, r', l) : Reordered _ middle = Opens-Reordered middle r k in
      (ordered, Permᴰ.trans q' r', l)

  -- The records of the reordered rows are those of the rows, in some order.
  pub contents_of-Reordered :
      {rows found : List (TableRow K C Bytes)} (plain : List (TableRow K C A))
      → Permᴰ rows found
      → Opens store aad rows plain
      → (ordered : List (TableRow K C A)) × Permᴰ (contents_of plain) (contents_of ordered)
        × Opens store aad found ordered
  contents_of-Reordered plain q h =
      let (ordered, q', k) : Reordered _ plain = Opens-Reordered plain q h in
      (ordered, contents_of-Permᴰ q', k)
