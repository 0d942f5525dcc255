-- ===== src/Fuse/Requests/Transactions.antt =====
-- What the statements of a transaction do to the rows, and what a failed one does not lose.
use tgcryptfs.Fuse.Database.{
  Row, Table, effect, begin_immediate, commit, rollback, SameOrRolledBack,
}
use tgcryptfs.Common.{◌≡◌, ◌≢◌, ap, ◌∙◌, ◌⊎◌, inl, inr, none, some, List, arith, Option-cases}

pub begin_effect :
    (t t' : Table)
    → effect begin_immediate t ≡ some t'
    → (t.before ≡ none) × (t'.rows ≡ t.rows) × (t'.before ≡ some t.rows)
unfolding effect
begin_effect t t' h = elim (Option-cases t.before) [
  | inl e ↦ ground arith
  | inr (_, e) ↦ absurd (ground arith)
]

pub commit_effect :
    (t t' : Table) → effect commit t ≡ some t' → (t'.rows ≡ t.rows) × (t'.before ≡ none)
unfolding effect
commit_effect t t' h = elim (Option-cases t.before) [
  | inl e ↦ absurd (ground arith)
  | inr (_, e) ↦ ground arith
]

pub rollback_effect :
    (t t' : Table) (rows : List Row)
    → t.before ≡ some rows
    → effect rollback t ≡ some t'
    → (t'.rows ≡ rows) × (t'.before ≡ none)
unfolding effect
rollback_effect t t' rows e h = ground arith

-- A transaction is open over `rows`, or there is none and the rows are these.
abbrev pub Has : List Row → Table → Type 0
Has rows t = (t.before ≡ some rows) ⊎ (t.rows ≡ rows) × (t.before ≡ none)

no_rollback : (t t' : Table) → t.before ≡ none → effect rollback t ≢ some t'
unfolding effect
no_rollback t t' e h = absurd (ground arith)

-- What a failed statement does not lose.
pub Has-SameOrRolledBack :
    (rows : List Row) (t t' : Table) → Has rows t → SameOrRolledBack t t' → Has rows t'
Has-SameOrRolledBack rows t t' (inl e) (inl same) = inl (ap (λ (x : Table). x.before) same ∙ e)
Has-SameOrRolledBack rows t t' (inl e) (inr did) = inr (rollback_effect t t' rows e did)
Has-SameOrRolledBack rows t t' (inr (e, closed)) (inl same) =
    inr (ap (λ (x : Table). x.rows) same ∙ e, ap (λ (x : Table). x.before) same ∙ closed)
Has-SameOrRolledBack rows t t' (inr (e, closed)) (inr did) = absurd (no_rollback t t' closed did)
