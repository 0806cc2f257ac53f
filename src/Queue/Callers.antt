-- ===== src/Queue/Callers.antt =====
-- services/queue_callers.py: which callers are agents, and the check of an agent's action.
use draw_things_control.Prelude.{
  String, Bool, false, Option, none, some, ◌&&◌, not, [], ◌∷◌, str_eq, if◌then◌else◌,
}
use draw_things_control.Errors.{Result, ok, not_permitted, raise, concat}

abbrev pub agent_caller : String
agent_caller = "mcp"

unfoldable pub is_agent : Option String → Bool
is_agent none = false
is_agent (some caller) = str_eq caller agent_caller

abbrev pub maker_text : Option String → String
maker_text none = "a person (made before callers were recorded)"
maker_text (some caller) = caller

-- `label` and `submitted_by` are the entry's.
unfoldable pub check_entry_permitted :
    String → Option String → Option String → String → Result (Unit {0})
check_entry_permitted label submitted_by caller action =
    if is_agent caller && not (is_agent submitted_by)
    then raise not_permitted (
        concat (
          label
          ∷ " was submitted by "
          ∷ maker_text submitted_by
          ∷ "; an agent may "
          ∷ action
          ∷ " only an entry an agent submitted"
          ∷ []))
    else ok tt
