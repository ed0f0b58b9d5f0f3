-- ===== src/Runtime/Variables/Names.antt =====
-- runtime/variables.py and runtime/namespaces.py: the namespaces, the names that a variable may have, and
-- the key of a name in a run.
use doomtp_bot.Prelude.{
  ℕ, Bool, true, false, not, ◌&&◌, ◌||◌, Option, none, some, List, [], ◌∷◌, Text, leb, eqb, ◌==◌,
  nat_eq, list_eq, contains, all, length, points, if◌then◌else◌, or_default, is_some,
}
use doomtp_bot.Runtime.Result.{
  Outcome, raised, returned, variable_error, e_bad_namespace, e_bad_var_name, e_bad_reference,
}
use doomtp_bot.Runtime.Variables.{VarKey}

-- VAR_NAMESPACES, with what each needs of the run: a chatter, a publisher, a channel in the key.
pub data Namespace : Type 0 where
  of_chatter of_channel of_channel_chatter of_publisher of_publisher_chatter of_publisher_channel
        of_publisher_channel_chatter :
      Namespace

unfoldable pub namespace_of : Text → Option Namespace
namespace_of t =
    if t == points "chatter"
    then some of_chatter
    else if t == points "channel"
    then some of_channel
    else if t == points "channel.chatter"
    then some of_channel_chatter
    else if t == points "publisher"
    then some of_publisher
    else if t == points "publisher.chatter"
    then some of_publisher_chatter
    else if t == points "publisher.channel"
    then some of_publisher_channel
    else if t == points "publisher.channel.chatter"
    then some of_publisher_channel_chatter
    else none

abbrev pub needs_chatter : Namespace → Bool
needs_chatter of_chatter = true
needs_chatter of_channel = false
needs_chatter of_channel_chatter = true
needs_chatter of_publisher = false
needs_chatter of_publisher_chatter = true
needs_chatter of_publisher_channel = false
needs_chatter of_publisher_channel_chatter = true

abbrev pub needs_publisher : Namespace → Bool
needs_publisher of_chatter = false
needs_publisher of_channel = false
needs_publisher of_channel_chatter = false
needs_publisher of_publisher = true
needs_publisher of_publisher_chatter = true
needs_publisher of_publisher_channel = true
needs_publisher of_publisher_channel_chatter = true

abbrev is_small : ℕ → Bool
is_small c = leb 97 c && leb c 122

abbrev is_name_char : ℕ → Bool
is_name_char c = is_small c || (leb 48 c && leb c 57) || eqb c 95

abbrev at_most : ℕ → Text → Bool
at_most n t = leb (length t) n

-- What follows the first letter; `$` also matches before a line feed that ends the text.
unfoldable pub without_final_break : Text → Text
without_final_break [] = []
without_final_break (c ∷ []) = if c == 10 then [] else c ∷ []
without_final_break (c ∷ d ∷ cs) = c ∷ without_final_break (d ∷ cs)

-- VAR_NAME_RE.match
unfoldable pub is_var_name : Text → Bool
is_var_name [] = false
is_var_name (c ∷ cs) =
    is_small c && at_most 31 (without_final_break cs) && all is_name_char (without_final_break cs)

abbrev pub reserved_everywhere : List Text
reserved_everywhere =
    points "data" ∷ points "code" ∷ points "message" ∷ points "public" ∷ points "root" ∷ []

abbrev pub reserved_in : Namespace → List Text
reserved_in of_chatter = []
reserved_in of_channel = points "chatter" ∷ []
reserved_in of_channel_chatter = []
reserved_in of_publisher = points "chatter" ∷ points "channel" ∷ []
reserved_in of_publisher_chatter = []
reserved_in of_publisher_channel = points "chatter" ∷ []
reserved_in of_publisher_channel_chatter = []

-- is_reserved_var_name
unfoldable pub is_reserved_var_name : Namespace → Text → Bool
is_reserved_var_name namespace name =
    contains name reserved_everywhere || contains name (reserved_in namespace)

-- The ids that a run's keys are made of.
pub record RunIds : Type 0 where
  pub chatter : Option Text
  pub channel : Text
  pub publisher : Option Text

abbrev key_in : Namespace → Text → Text → RunIds → VarKey
key_in namespace ns name ids =
    let chatter = or_default ids.chatter [] in
    let owner = or_default ids.publisher [] in
    elim namespace [
      | of_chatter ↦ record { ns = ns; key1 = chatter; key2 = []; key3 = []; name = name }
      | of_channel ↦ record { ns = ns; key1 = ids.channel; key2 = []; key3 = []; name = name }
      | of_channel_chatter ↦ record {
        ns = ns;
        key1 = ids.channel;
        key2 = chatter;
        key3 = [];
        name = name;
      }
      | of_publisher ↦ record { ns = ns; key1 = owner; key2 = []; key3 = []; name = name }
      | of_publisher_chatter ↦ record {
        ns = ns;
        key1 = owner;
        key2 = chatter;
        key3 = [];
        name = name;
      }
      | of_publisher_channel ↦ record {
        ns = ns;
        key1 = owner;
        key2 = ids.channel;
        key3 = [];
        name = name;
      }
      | of_publisher_channel_chatter ↦ record {
        ns = ns;
        key1 = owner;
        key2 = ids.channel;
        key3 = chatter;
        name = name;
      }
    ]

-- key_for
unfoldable pub key_for : RunIds → Text → Text → Outcome VarKey
key_for ids ns name = elim (namespace_of ns) [
  | none ↦ raised (variable_error e_bad_namespace)
  | some namespace ↦
      if not (is_var_name name) || is_reserved_var_name namespace name
      then raised (variable_error e_bad_var_name)
      else if needs_chatter namespace && not (is_some ids.chatter)
      then raised (variable_error e_bad_reference)
      else if needs_publisher namespace && not (is_some ids.publisher)
      then raised (variable_error e_bad_reference)
      else returned (key_in namespace ns name ids)
]
