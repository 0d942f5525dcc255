-- ===== src/Tests/Toy.antt =====
-- A cipher that meets the assumptions on XChaCha20-Poly1305: the text behind a tag of 16 equal
-- numbers, the sum of the key, the nonce, the associated data and the text.
use mathlib.Core.Path.{subst}
use tgcryptfs.Common.Dict.{list_eq, nat_eq, list_beq, list_beq_iff}
use tgcryptfs.Crypto.Aead.{Bytes, Cipher}
use tgcryptfs.Common.{
  ℕ, ◌+◌, ◌≡◌, sym, ap, ◌∙◌, inl, inr, Option, none, some, [], ◌∷◌, ◌++◌, arith, if◌then◌else◌,
  Bool-cases, length, take, drop, replicate, take-append-drop,
}

abbrev total : Bytes → ℕ
total [] = 0
total (b ∷ bs) = b + total bs

abbrev tag : Bytes → Bytes → Bytes → Bytes → Bytes
tag key nonce text aad = replicate 16 (total key + total nonce + total text + total aad)

abbrev toy_seal : Bytes → Bytes → Bytes → Bytes → Option Bytes
toy_seal key nonce text aad = some (tag key nonce text aad ++ text)

abbrev toy_open : Bytes → Bytes → Bytes → Bytes → Option Bytes
toy_open key nonce sealed aad =
    if list_beq (take 16 sealed) (tag key nonce (drop 16 sealed) aad)
    then some (drop 16 sealed)
    else none

unwrapped : {a b : Bytes} → some a ≡ some b → a ≡ b
unwrapped h = cc

pub toy_opens :
    (key nonce text aad sealed : Bytes)
    → toy_seal key nonce text aad ≡ some sealed
    → toy_open key nonce sealed aad ≡ some text
toy_opens key nonce text aad sealed h =
    subst (λ s. toy_open key nonce s aad ≡ some text) (unwrapped h)
      (ground (arith, list_beq_iff (tag key nonce text aad) (tag key nonce text aad)))

pub toy_authentic :
    (key nonce sealed aad text : Bytes)
    → toy_open key nonce sealed aad ≡ some text
    → toy_seal key nonce text aad ≡ some sealed
toy_authentic key nonce sealed aad text h =
    elim (Bool-cases (list_beq (take 16 sealed) (tag key nonce (drop 16 sealed) aad))) [
      | inl same ↦
          let at : drop 16 sealed ≡ text = ground arith in
          let e = (list_beq_iff (take 16 sealed) (tag key nonce (drop 16 sealed) aad)).0 same in
          subst (λ t. toy_seal key nonce t aad ≡ some sealed) at
            (ap some (ap (λ (x : Bytes). x ++ drop 16 sealed) (sym e) ∙ take-append-drop 16 sealed))
      | inr other ↦ absurd (ground arith)
    ]

pub toy_adds_tag :
    (key nonce text aad sealed : Bytes)
    → toy_seal key nonce text aad ≡ some sealed
    → length sealed ≡ length text + 16
toy_adds_tag key nonce text aad sealed h =
    subst (λ s. length s ≡ length text + 16) (unwrapped h) (omega arith)

abbrev pub toy : Cipher
toy = record {
  seal = toy_seal;
  open_sealed = toy_open;
  opens = toy_opens;
  authentic = toy_authentic;
  adds_tag = toy_adds_tag;
}

abbrev pub nonce24 : Bytes
nonce24 = replicate 24 7

abbrev pub hash32 : Bytes
hash32 = replicate 32 5
