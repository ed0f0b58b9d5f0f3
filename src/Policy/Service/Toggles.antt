-- ===== src/Policy/Service/Toggles.antt =====
-- policy/service.py: the module and command toggles (ADR-0006 §4).
use doomtp_bot.Prelude.{
  String, ◌≡◌, ◌⊎◌, Bool, true, false, not, Option, none, some, arith, string_eq, pair_eq,
  or_default, if◌then◌else◌,
}
use doomtp_bot.Prelude.Dict
use doomtp_bot.Policy.Roles.{global}
use doomtp_bot.Policy.Service.{PolicyService, CommandSpec, key}

-- toggles.get(…) is False
abbrev pub is_false : Option Bool → Bool
is_false (some false) = true
is_false _ = false

abbrev pub module_toggle : PolicyService → String → String → Option Bool
module_toggle s scope name = Dict.get (scope, name) s.snapshot.module_toggles

abbrev pub command_toggle : PolicyService → String → String → Option Bool
command_toggle s scope name = Dict.get (scope, name) s.snapshot.command_toggles

unfoldable pub is_enabled : PolicyService → String → CommandSpec → Bool
is_enabled s channel_id spec =
    if not spec.toggleable
    then true
    else if is_false (module_toggle s global spec.in_module)
    then false
    else if is_false (command_toggle s global (key spec))
    then false
    else or_default (command_toggle s channel_id (key spec)) (
        or_default (module_toggle s channel_id spec.in_module)
          (or_default (module_toggle s global spec.in_module) true))

unfoldable pub module_on : PolicyService → String → String → Bool
module_on s channel_id name =
    if is_false (module_toggle s global name)
    then false
    else or_default (module_toggle s channel_id name)
        (or_default (module_toggle s global name) true)

pub data Switch : Type 0 where
  by_module by_command : Switch

unfoldable pub switched_off_by : PolicyService → String → CommandSpec → Option Switch
unfolding is_enabled
switched_off_by s channel_id spec =
    if is_enabled s channel_id spec
    then none
    else if is_false (command_toggle s global (key spec))
    then some by_command
    else if is_false (command_toggle s channel_id (key spec))
    then some by_command
    else some by_module

-- A toggleable command with no toggle of its own is on exactly when its module is, and a module
-- that is off everywhere turns off every toggleable command, whatever its channel says.
pub is_enabled-module_on :
    (s : PolicyService) (channel_id : String) (spec : CommandSpec)
    → spec.toggleable ≡ true
    → (command_toggle s channel_id (key spec) ≡ none
        → command_toggle s global (key spec) ≡ none
        → is_enabled s channel_id spec ≡ module_on s channel_id spec.in_module)
      × (module_toggle s global spec.in_module ≡ some false → is_enabled s channel_id spec ≡ false)
unfolding is_enabled module_on
is_enabled-module_on s channel_id spec h = (λ p q. ground arith, λ p. ground arith)

-- The reason given is a toggle that is off: for `by_command` the command's, here or everywhere; for
-- `by_module` the module's, here or everywhere. No reason is given exactly when the command is on.
pub switched_off_by_lem :
    (s : PolicyService) (channel_id : String) (spec : CommandSpec)
    → (switched_off_by s channel_id spec ≡ none → is_enabled s channel_id spec ≡ true)
      × (is_enabled s channel_id spec ≡ true → switched_off_by s channel_id spec ≡ none)
      × (switched_off_by s channel_id spec ≡ some by_command
          → (command_toggle s global (key spec) ≡ some false)
            ⊎ (command_toggle s channel_id (key spec) ≡ some false))
      × (switched_off_by s channel_id spec ≡ some by_module
          → (module_toggle s global spec.in_module ≡ some false)
            ⊎ (module_toggle s channel_id spec.in_module ≡ some false))
unfolding switched_off_by
switched_off_by_lem s channel_id spec =
    (λ h. ground arith, λ h. ground arith, λ h. ground arith, λ h. ground arith)
