-- ===== src/Deadman/Destroy/Keys.antt =====
-- What the sequence does when it is given no path.
use tgcryptfs.Deadman.Destroy.{
  keys_wiped, DestructionPhase, custom_command, DestructionConfig, Action, phase_action,
}
use tgcryptfs.Deadman.Destroy.Phases.{all_actions}
use tgcryptfs.Common.{◌≡◌, refl, inl, inr, Bool, false, none, List, [], ◌∷◌, Bool-cases, All}

module _ (works : Action → Bool) (config : DestructionConfig) where
  -- Without a path of the database and of the cache, as the daemon calls it, a sequence does nothing
  -- but the wiping of the keys, whatever its phases are.
  pub only_keys :
      (phases : List DestructionPhase)
      → All (λ a. a ≡ keys_wiped) (all_actions works config none none false phases)
  unfolding phase_action
  only_keys [] = tt
  only_keys (DestructionPhase.wipe_keys ∷ phases) = elim (Bool-cases config.wipe_key_hierarchy) [
    | inl e ↦ rw e (refl, only_keys phases)
    | inr e ↦ rw e (only_keys phases)
  ]
  only_keys (DestructionPhase.shred_database ∷ phases) =
      elim (Bool-cases config.shred_metadata_db) [
        | inl e ↦ rw e (only_keys phases)
        | inr e ↦ rw e (only_keys phases)
      ]
  only_keys (DestructionPhase.wipe_cache ∷ phases) = elim (Bool-cases config.wipe_cache_dir) [
    | inl e ↦ rw e (only_keys phases)
    | inr e ↦ rw e (only_keys phases)
  ]
  only_keys (DestructionPhase.delete_telegram_messages ∷ phases) = only_keys phases
  only_keys (custom_command command ∷ phases) = only_keys phases
