-- ===== src/Web/Status.antt =====
-- crates/web/src/domain/task.rs and execution.rs: the enumerations that the database and the
-- interface keep as texts. A text is its bytes; an error of `from_str` is `none`.
use terrasync_rs.Base.{
  ℕ, ◌≡◌, ◌↔◌, refl, sym, ap, ◌∙◌, inl, inr, Bool, true, false, List, [], ◌∷◌, Option, none, some,
  some_eq, bytes_eq, bytes_eq→eq, Bool-cases, All, if◌then◌else◌, arith,
}

-- The arms of a match on a text, each a literal and the value that it returns.
unfoldable pub matched : {A : Type 0} → List (List ℕ × A) → List ℕ → Option A
unfolding bytes_eq
matched [] s = none
matched (arm ∷ arms) s = let rest = matched arms s in if bytes_eq arm.0 s then some arm.1 else rest

-- Every arm returns a value whose text is the arm's literal.
abbrev AreTexts : {A : Type 0} → (A → List ℕ) → List (List ℕ × A) → Type 0
AreTexts text arms = All (λ arm. text arm.1 ≡ arm.0) arms

matched-some :
    {A : Type 0} (text : A → List ℕ) (arms : List (List ℕ × A)) (s : List ℕ) (a : A)
    → AreTexts text arms
    → matched arms s ≡ some a
    → text a ≡ s
unfolding matched
matched-some text [] s a same h = absurd (ground arith)
matched-some text (arm ∷ arms) s a same h = elim (Bool-cases (bytes_eq arm.0 s)) [
  | inl here ↦ ap text (sym (some_eq (rw here at h))) ∙ same.0 ∙ bytes_eq→eq arm.0 s here
  | inr other ↦ matched-some text arms s a same.1 (rw other at h)
]

-- What the texts of an enumeration are for: a text is read as a value exactly if it is that
-- value's text.
abbrev pub IsText : {A : Type 0} → (A → List ℕ) → (List ℕ → Option A) → Type 0
IsText {A = A} text from = (s : List ℕ) (a : A) → (from s ≡ some a) ↔ (text a ≡ s)

IsText-matched :
    {A : Type 0} (text : A → List ℕ) (arms : List (List ℕ × A))
    → AreTexts text arms
    → ((a : A) → matched arms (text a) ≡ some a)
    → IsText text (matched arms)
IsText-matched text arms same back s a =
    (matched-some text arms s a same, λ e. ap (matched arms) (sym e) ∙ back a)

pub data TaskType : Type 0 where
  scan sync integrity_check : TaskType

unfoldable pub task_type_text : TaskType → List ℕ
-- "scan"
task_type_text scan = 115 ∷ 99 ∷ 97 ∷ 110 ∷ []
-- "sync"
task_type_text sync = 115 ∷ 121 ∷ 110 ∷ 99 ∷ []
-- "integrity_check"
task_type_text integrity_check =
    105 ∷ 110 ∷ 116 ∷ 101 ∷ 103 ∷ 114 ∷ 105 ∷ 116 ∷ 121 ∷ 95 ∷ 99 ∷ 104 ∷ 101 ∷ 99 ∷ 107 ∷ []

-- "scan", "sync", "integrity_check"
abbrev pub task_type_arms : List (List ℕ × TaskType)
task_type_arms =
    (115 ∷ 99 ∷ 97 ∷ 110 ∷ [], scan)
    ∷ (115 ∷ 121 ∷ 110 ∷ 99 ∷ [], sync)
    ∷ (
      105 ∷ 110 ∷ 116 ∷ 101 ∷ 103 ∷ 114 ∷ 105 ∷ 116 ∷ 121 ∷ 95 ∷ 99 ∷ 104 ∷ 101 ∷ 99 ∷ 107 ∷ [],
      integrity_check,
    )
    ∷ []

unfoldable pub task_type_from_str : List ℕ → Option TaskType
unfolding matched
task_type_from_str s = matched task_type_arms s

task_type_back : (a : TaskType) → matched task_type_arms (task_type_text a) ≡ some a
unfolding matched task_type_text
task_type_back scan = refl
task_type_back sync = refl
task_type_back integrity_check = refl

pub data TaskStatus : Type 0 where
  pending running completed failed cancelled : TaskStatus

unfoldable pub task_status_text : TaskStatus → List ℕ
-- "pending"
task_status_text pending = 112 ∷ 101 ∷ 110 ∷ 100 ∷ 105 ∷ 110 ∷ 103 ∷ []
-- "running"
task_status_text running = 114 ∷ 117 ∷ 110 ∷ 110 ∷ 105 ∷ 110 ∷ 103 ∷ []
-- "completed"
task_status_text completed = 99 ∷ 111 ∷ 109 ∷ 112 ∷ 108 ∷ 101 ∷ 116 ∷ 101 ∷ 100 ∷ []
-- "failed"
task_status_text failed = 102 ∷ 97 ∷ 105 ∷ 108 ∷ 101 ∷ 100 ∷ []
-- "cancelled"
task_status_text cancelled = 99 ∷ 97 ∷ 110 ∷ 99 ∷ 101 ∷ 108 ∷ 108 ∷ 101 ∷ 100 ∷ []

-- "pending", "running", "completed", "failed", "cancelled"
abbrev pub task_status_arms : List (List ℕ × TaskStatus)
task_status_arms =
    (112 ∷ 101 ∷ 110 ∷ 100 ∷ 105 ∷ 110 ∷ 103 ∷ [], pending)
    ∷ (114 ∷ 117 ∷ 110 ∷ 110 ∷ 105 ∷ 110 ∷ 103 ∷ [], running)
    ∷ (99 ∷ 111 ∷ 109 ∷ 112 ∷ 108 ∷ 101 ∷ 116 ∷ 101 ∷ 100 ∷ [], completed)
    ∷ (102 ∷ 97 ∷ 105 ∷ 108 ∷ 101 ∷ 100 ∷ [], failed)
    ∷ (99 ∷ 97 ∷ 110 ∷ 99 ∷ 101 ∷ 108 ∷ 108 ∷ 101 ∷ 100 ∷ [], cancelled)
    ∷ []

unfoldable pub task_status_from_str : List ℕ → Option TaskStatus
unfolding matched
task_status_from_str s = matched task_status_arms s

task_status_back : (a : TaskStatus) → matched task_status_arms (task_status_text a) ≡ some a
unfolding matched task_status_text
task_status_back pending = refl
task_status_back running = refl
task_status_back completed = refl
task_status_back failed = refl
task_status_back cancelled = refl

pub data ExecutionType : Type 0 where
  full incremental : ExecutionType

unfoldable pub execution_type_text : ExecutionType → List ℕ
-- "full"
execution_type_text full = 102 ∷ 117 ∷ 108 ∷ 108 ∷ []
-- "incremental"
execution_type_text incremental = 105 ∷ 110 ∷ 99 ∷ 114 ∷ 101 ∷ 109 ∷ 101 ∷ 110 ∷ 116 ∷ 97 ∷ 108 ∷ []

-- "full", "incremental"
abbrev pub execution_type_arms : List (List ℕ × ExecutionType)
execution_type_arms =
    (102 ∷ 117 ∷ 108 ∷ 108 ∷ [], full)
    ∷ (105 ∷ 110 ∷ 99 ∷ 114 ∷ 101 ∷ 109 ∷ 101 ∷ 110 ∷ 116 ∷ 97 ∷ 108 ∷ [], incremental)
    ∷ []

unfoldable pub execution_type_from_str : List ℕ → Option ExecutionType
unfolding matched
execution_type_from_str s = matched execution_type_arms s

execution_type_back :
    (a : ExecutionType) → matched execution_type_arms (execution_type_text a) ≡ some a
unfolding matched execution_type_text
execution_type_back full = refl
execution_type_back incremental = refl

pub data LogLevel : Type 0 where
  info warn error : LogLevel

unfoldable pub log_level_text : LogLevel → List ℕ
-- "info"
log_level_text info = 105 ∷ 110 ∷ 102 ∷ 111 ∷ []
-- "warn"
log_level_text warn = 119 ∷ 97 ∷ 114 ∷ 110 ∷ []
-- "error"
log_level_text error = 101 ∷ 114 ∷ 114 ∷ 111 ∷ 114 ∷ []

-- "info", "warn", "error"
abbrev pub log_level_arms : List (List ℕ × LogLevel)
log_level_arms =
    (105 ∷ 110 ∷ 102 ∷ 111 ∷ [], info)
    ∷ (119 ∷ 97 ∷ 114 ∷ 110 ∷ [], warn)
    ∷ (101 ∷ 114 ∷ 114 ∷ 111 ∷ 114 ∷ [], error)
    ∷ []

unfoldable pub log_level_from_str : List ℕ → Option LogLevel
unfolding matched
log_level_from_str s = matched log_level_arms s

log_level_back : (a : LogLevel) → matched log_level_arms (log_level_text a) ≡ some a
unfolding matched log_level_text
log_level_back info = refl
log_level_back warn = refl
log_level_back error = refl

unfoldable pub can_start : TaskStatus → Bool
can_start running = false
can_start _ = true

unfoldable pub can_cancel : TaskStatus → Bool
can_cancel running = true
can_cancel _ = false

unfoldable pub can_delete : TaskStatus → Bool
can_delete running = false
can_delete _ = true

-- For the task types, task states, execution types and log levels, from_str reads a text as a
-- value exactly if it is the text that Display writes this value as.
pub from_str-IsText :
    IsText task_type_text task_type_from_str
    × IsText task_status_text task_status_from_str
    × IsText execution_type_text execution_type_from_str
    × IsText log_level_text log_level_from_str
unfolding task_type_from_str task_status_from_str execution_type_from_str log_level_from_str
    task_type_text task_status_text execution_type_text log_level_text
from_str-IsText = (
  IsText-matched task_type_text task_type_arms (refl, (refl, (refl, tt))) task_type_back,
  IsText-matched task_status_text task_status_arms (refl, (refl, (refl, (refl, (refl, tt)))))
      task_status_back,
  IsText-matched execution_type_text execution_type_arms (refl, (refl, tt)) execution_type_back,
  IsText-matched log_level_text log_level_arms (refl, (refl, (refl, tt))) log_level_back,
)
