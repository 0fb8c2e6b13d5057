-- ===== src/Reasoning.antt =====
-- agent/reasoning: the bounded reflection budget, the recovery strategies, and the structural
-- checks of a step.
pub mod Strategy
use mathlib.Core.Option
use isky.Prelude.{
  ℕ, ◌+◌, List, [], ◌∷◌, ◌++◌, Bool, true, false, not, ◌&&◌, Option, none, some, ℤ, pos, ltb, leb,
  ltb_ℤ, is_pos, is_zero, positive_or, Text, text, str_eq, fit, is_blank, ◌==◌, if◌then◌else◌,
}
use isky.Ascii.{contains_ci}

-- reflection.c. `max` is positive, and `used` counts up to it.
pub record ReflectionBudget : Type 0 where
  pub used : ℕ
  pub max : ℕ

unfoldable pub reflection_init : ℤ → ReflectionBudget
reflection_init max_per_step = record { used = 0; max = positive_or max_per_step 2 }

unfoldable pub reflection_reset : ReflectionBudget → ReflectionBudget
reflection_reset r = record r { used = 0 }

unfoldable pub reflection_allowed : ReflectionBudget → ReflectionBudget × Bool
reflection_allowed r =
    if leb r.max r.used then (r, false) else (record r { used = r.used + 1 }, true)

-- verification.h
pub data RecoveryClass : Type 0 where
  none_class tool_error timeout invalid_argument model_error parser_error : RecoveryClass
  permission_error file_not_found compilation_error test_failure network_error : RecoveryClass

pub data RecoveryStrategy : Type 0 where
  retry replan ask_user abort : RecoveryStrategy

unfoldable pub recovery_class_name : RecoveryClass → Text
recovery_class_name none_class = text "NONE"
recovery_class_name tool_error = text "TOOL_ERROR"
recovery_class_name timeout = text "TIMEOUT"
recovery_class_name invalid_argument = text "INVALID_ARGUMENT"
recovery_class_name model_error = text "MODEL_ERROR"
recovery_class_name parser_error = text "PARSER_ERROR"
recovery_class_name permission_error = text "PERMISSION_ERROR"
recovery_class_name file_not_found = text "FILE_NOT_FOUND"
recovery_class_name compilation_error = text "COMPILATION_ERROR"
recovery_class_name test_failure = text "TEST_FAILURE"
recovery_class_name network_error = text "NETWORK_ERROR"

-- `attempts` counts failures and is never negative; the two bounds come from the configuration.
unfoldable pub recovery_strategy_for2 : RecoveryClass → ℕ → ℤ → ℤ → RecoveryStrategy
recovery_strategy_for2 timeout n retries repair = if ltb_ℤ (pos n) retries then retry else replan
recovery_strategy_for2 network_error n retries repair =
    if ltb_ℤ (pos n) retries then retry else replan
recovery_strategy_for2 tool_error n retries repair = if ltb_ℤ (pos n) retries then retry else replan
recovery_strategy_for2 compilation_error n retries repair =
    if is_pos repair && not (ltb_ℤ (pos n) repair) then abort else replan
recovery_strategy_for2 test_failure n retries repair =
    if is_pos repair && not (ltb_ℤ (pos n) repair) then abort else replan
recovery_strategy_for2 invalid_argument n retries repair =
    if ltb_ℤ (pos n) retries then replan else ask_user
recovery_strategy_for2 parser_error n retries repair =
    if ltb_ℤ (pos n) retries then replan else ask_user
recovery_strategy_for2 file_not_found n retries repair = replan
recovery_strategy_for2 permission_error n retries repair = ask_user
recovery_strategy_for2 model_error n retries repair = if ltb_ℤ (pos n) retries then retry else abort
recovery_strategy_for2 none_class n retries repair = abort

unfoldable pub recovery_strategy_for : RecoveryClass → ℕ → ℤ → RecoveryStrategy
unfolding recovery_strategy_for2
recovery_strategy_for c n retries = recovery_strategy_for2 c n retries (pos 5)

pub record VerifyCheck : Type 0 where
  pub kind : Option Text
  pub arg : Option Text

-- `contains_ci` of verification.c: NULL and the empty needle are refused first.
contains_arg : Option Text → Option Text → Bool
contains_arg none needle = false
contains_arg (some hay) none = false
contains_arg (some hay) (some []) = false
contains_arg (some hay) (some (c ∷ r)) = contains_ci hay (c ∷ r)

abbrev path_size : ℕ
path_size = 4096

-- `workspace` is never NULL: it is the sandbox root.
check_path : Text → Option Text → Text
check_path workspace none = fit path_size (workspace ++ text "/")
check_path workspace (some []) = fit path_size (workspace ++ text "/")
check_path workspace (some (c ∷ r)) =
    if c == b'/' then fit path_size (c ∷ r) else fit path_size (workspace ++ (text "/" ++ (c ∷ r)))

-- a failed check, with its reason
refuted : ℕ → Text → Bool × Option Text
refuted size reason = (false, some (fit size reason))

check_kind :
    (Text → Bool) → (ℤ → Text) → Text → Option Text → Text → Option Text → ℤ → Bool × Option Text
unfolding check_path contains_arg refuted
check_kind fs_exists shown kind arg workspace observation code =
    if str_eq kind (text "file_exists")
    then if fs_exists (check_path workspace arg)
      then (true, none)
      else refuted 4200 (text "file does not exist: " ++ check_path workspace arg)
    else if str_eq kind (text "contains")
    then if contains_arg observation arg
      then (true, none)
      else refuted 512 (text "output does not contain '" ++ (Option.get_or arg [] ++ text "'"))
    else if str_eq kind (text "exit_zero")
    then if is_zero code
      then (true, none)
      else refuted 128 (text "exit code was " ++ (shown code ++ text ", expected 0"))
    else if str_eq kind (text "nonempty")
    then if is_blank observation then (false, some (text "observation was empty")) else (true, none)
    else (true, some (fit 128 (text "unknown verification kind '" ++ (kind ++ text "'"))))

-- `fs_exists` asks the file system, and `shown` is the `"%d"` of printf. A check with no kind
-- passes.
unfoldable pub verify_check :
    (Text → Bool) → (ℤ → Text) → VerifyCheck → Text → Option Text → ℤ → Bool × Option Text
unfolding check_kind
verify_check fs_exists shown vc workspace observation code = elim vc.kind [
  | none ↦ (true, none)
  | some kind ↦ check_kind fs_exists shown kind vc.arg workspace observation code
]
