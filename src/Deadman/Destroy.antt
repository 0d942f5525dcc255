-- ===== src/Deadman/Destroy.antt =====
-- crates/tgcryptfs-deadman/src/destroy.rs: the sequence of phases. What happens on disk and in the
-- shell is a parameter: whether a shredded file, a wiped directory or a command ends without error.
-- The log of the model lists these calls in their order. A command is its bytes in UTF-8; the message
-- for a command that is denied cuts it after 40 bytes and panics inside a character.
pub mod Phases
pub mod Keys
use tgcryptfs.Crypto.Aead.{Bytes}
use tgcryptfs.Common.{
  ltb, drop, ℕ, ◌+◌, Bool, true, false, Option, none, some, List, [], ◌∷◌, ◌++◌, if◌then◌else◌,
  Result, ok, err, length, ltb, ◌||◌, not, drop,
}

pub data DestructionPhase : Type 0 where
  wipe_keys shred_database wipe_cache delete_telegram_messages : DestructionPhase
  custom_command : Bytes → DestructionPhase

pub record DestructionConfig : Type 0 where
  pub phases : List DestructionPhase
  pub delete_telegram : Bool
  pub shred_metadata_db : Bool
  pub shred_passes : ℕ
  pub wipe_key_hierarchy : Bool
  pub wipe_cache_dir : Bool

pub data Action : Type 0 where
  keys_wiped : Action
  file_shredded : Bytes → ℕ → Action
  directory_wiped : Bytes → Action
  command_run : Bytes → Action

pub record DestructionProgress : Type 0 where
  pub total_phases : ℕ
  pub completed_phases : ℕ
  pub current_phase : Option DestructionPhase
  pub errors : List DestructionPhase
  pub log : List Action

pub data PhaseError : Type 0 where
  custom_command_denied panicked : PhaseError

-- `&command[..command.len().min(40)]` works: a shorter command is taken whole, and a longer one must
-- not have a byte 0b10xxxxxx, the inside of a character, at index 40.
abbrev pub cut_works : Bytes → Bool
cut_works command = elim (drop 40 command) [
  | [] ↦ true
  | byte ∷ _ ↦ ltb byte 128 || not (ltb byte 192)
]

-- What a phase does, if anything, and whether it may be done at all.
unfoldable pub phase_action :
    DestructionConfig
    → Option Bytes
    → Option Bytes
    → Bool
    → DestructionPhase
    → Result PhaseError (Option Action)
phase_action config db_path cache_dir allowed wipe_keys =
    ok (if config.wipe_key_hierarchy then some keys_wiped else none)
phase_action config db_path cache_dir allowed shred_database =
    if config.shred_metadata_db
    then ok
        (elim db_path [ none ↦ none | some path ↦ some (file_shredded path config.shred_passes) ])
    else ok none
phase_action config db_path cache_dir allowed wipe_cache =
    if config.wipe_cache_dir
    then ok (elim cache_dir [ none ↦ none | some dir ↦ some (directory_wiped dir) ])
    else ok none
phase_action config db_path cache_dir allowed delete_telegram_messages = ok none
phase_action config db_path cache_dir allowed (custom_command command) =
    if allowed
    then ok (some (command_run command))
    else err (if cut_works command then custom_command_denied else panicked)

-- The phase ends in a panic, which takes the rest of the sequence with it.
abbrev pub phase_panics : Result PhaseError (Option Action) → Bool
phase_panics (err panicked) = true
phase_panics (err custom_command_denied) = false
phase_panics (ok _) = false

module _ (works : Action → Bool) where
  abbrev pub phase_works : Result PhaseError (Option Action) → Bool
  phase_works (err _) = false
  phase_works (ok none) = true
  phase_works (ok (some a)) = works a

  abbrev pub logged : Result PhaseError (Option Action) → List Action
  logged (err _) = []
  logged (ok none) = []
  logged (ok (some a)) = a ∷ []

  -- One round of the loop; `err` is the panic, with what was done until then.
  unfoldable pub run_phase :
      DestructionConfig
      → Option Bytes
      → Option Bytes
      → Bool
      → DestructionPhase
      → DestructionProgress
      → Result DestructionProgress DestructionProgress
  run_phase config db_path cache_dir allowed phase progress =
      let act = phase_action config db_path cache_dir allowed phase in
      if phase_panics act
      then err (record progress { current_phase = some phase })
      else ok (record progress {
        current_phase = some phase;
        completed_phases = progress.completed_phases + 1;
        errors = if phase_works act then progress.errors else progress.errors ++ phase ∷ [];
        log = progress.log ++ logged act;
      })

  unfoldable pub run_phases :
      DestructionConfig
      → Option Bytes
      → Option Bytes
      → Bool
      → List DestructionPhase
      → DestructionProgress
      → Result DestructionProgress DestructionProgress
  run_phases config db_path cache_dir allowed [] progress = ok progress
  run_phases config db_path cache_dir allowed (phase ∷ phases) progress =
      elim (run_phase config db_path cache_dir allowed phase progress) [
        | err stopped ↦ err stopped
        | ok next ↦ run_phases config db_path cache_dir allowed phases next
      ]

  abbrev pub first_progress : DestructionConfig → DestructionProgress
  first_progress config = record {
    total_phases = length config.phases;
    completed_phases = 0;
    current_phase = none;
    errors = [];
    log = [];
  }

  unfoldable pub execute_with_options :
      DestructionConfig
      → Option Bytes
      → Option Bytes
      → Bool
      → Result DestructionProgress DestructionProgress
  execute_with_options config db_path cache_dir allowed =
      elim (run_phases config db_path cache_dir allowed config.phases (first_progress config)) [
        | err stopped ↦ err stopped
        | ok progress ↦ ok (record progress { current_phase = none })
      ]

  -- `DestructionOptions::default()` denies custom commands.
  unfoldable pub execute :
      DestructionConfig
      → Option Bytes
      → Option Bytes
      → Result DestructionProgress DestructionProgress
  execute config db_path cache_dir = execute_with_options config db_path cache_dir false
