-- ===== src/Core/Dispatch/RunLog.antt =====
-- core/dispatch.py, `should_log_run`: which runs the run log keeps at a level. Of a RunReport it reads
-- the exit code (runtime/result.py), what was sent and what was committed.
use doomtp_bot.Prelude.{
  ℕ, ◌≤◌, String, ◌≡◌, Bool, true, false, not, ◌||◌, Option, arith, eqb, given, is_some,
  if◌then◌else◌,
}
use doomtp_bot.Policy.Service.Permission.{code_denied, code_unknown, code_cooldown}

-- runtime/spec.py
pub data LogLevel : Type 0 where
  off errors output invocations all : LogLevel

-- A write that a run committed is only counted.
pub record RunReport : Type 0 where
  pub code : ℕ
  pub send : Option String
  pub committed : ℕ

abbrev pub code_ok : ℕ
code_ok = 0

-- code in (Code.UNKNOWN, Code.COOLDOWN, Code.DENIED)
abbrev pub refused_code : ℕ → Bool
refused_code code = eqb code code_unknown || eqb code code_cooldown || eqb code code_denied

unfoldable pub logs_at : RunReport → LogLevel → Bool
logs_at report off = false
logs_at report all = true
logs_at report errors = not (eqb report.code code_ok)
logs_at report output =
    not (eqb report.code code_ok) || is_some (given report.send) || not (eqb report.committed 0)
logs_at report invocations = true

abbrev screened : LogLevel → Bool
screened off = false
screened all = false
screened errors = true
screened output = true
screened invocations = true

unfoldable pub should_log_run : RunReport → LogLevel → Bool
should_log_run report level =
    if screened level
    then (if refused_code report.code then false else logs_at report level)
    else logs_at report level

-- The levels from the one that keeps least.
abbrev pub verbosity : LogLevel → ℕ
verbosity off = 0
verbosity errors = 1
verbosity output = 2
verbosity invocations = 3
verbosity all = 4

-- What a level keeps, every more verbose level keeps too.
pub should_log_run-verbosity :
    (report : RunReport) (level more : LogLevel)
    → verbosity level ≤ verbosity more
    → should_log_run report level ≡ true
    → should_log_run report more ≡ true
unfolding should_log_run logs_at
should_log_run-verbosity report level more le h = ground (arith, le, h)
