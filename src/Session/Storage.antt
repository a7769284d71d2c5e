-- ===== src/Session/Storage.antt =====
-- cppcms/session_storage.h: class session_storage, where a server keeps the contents of sessions.
-- The clock of the process is an argument of each call.
use cppcms.Prelude.{ℕ, ◌≤◌, ◌≡◌, Option, none, some, ltb, if◌then◌else◌, Bytes, same}

-- The operations, with what their documentation promises: `load` finds what `save` stored, up to
-- its time; what was removed is gone; and nothing else changes.
pub record Storage : Type 1 where
  pub State : Type 0
  pub Valid : State → Type 0
  pub save : ℕ → Bytes → ℕ → Bytes → State → State
  pub load : ℕ → Bytes → State → Option (Bytes × ℕ)
  pub remove : ℕ → Bytes → State → State
  pub save_valid :
      (now : ℕ) (key : Bytes) (to : ℕ) (text : Bytes) (s : State)
      → Valid s
      → Valid (save now key to text s)
  pub remove_valid : (now : ℕ) (key : Bytes) (s : State) → Valid s → Valid (remove now key s)
  pub load-save :
      (now later : ℕ) (j key : Bytes) (to : ℕ) (text : Bytes) (s : State)
      → Valid s
      → now ≤ later
      → load later j (save now key to text s)
        ≡ (if same j key then (if ltb to later then none else some (text, to)) else load later j s)
  pub load-remove :
      (now later : ℕ) (j key : Bytes) (s : State)
      → Valid s
      → now ≤ later
      → load later j (remove now key s) ≡ (if same j key then none else load later j s)
