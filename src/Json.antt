-- ===== src/Json.antt =====
-- The values that Python's `json` module reads and writes, as the program's own code sees them. The
-- codec itself is not the program's: it is a parameter.
use draw_things_control.Prelude.{ℕ, String, Bool, Option, none, some, str_eq, if◌then◌else◌}

mutual
  pub data Json : Type 0 where
    null : Json
    bool : Bool → Json
    number : String → Json
    text : String → Json
    array : Items → Json
    object : Members → Json

  pub data Items : Type 0 where
    nil : Items
    cons : Json → Items → Items

  pub data Members : Type 0 where
    end : Members
    member : String → Json → Members → Members

-- `data.get(key)` of a mapping.
abbrev pub lookup : String → Members → Option Json
lookup key end = none
lookup key (member k v rest) = if str_eq k key then some v else lookup key rest

-- `json.loads` (none for a `ValueError`), `json.dumps`, whether `datetime.fromisoformat` accepts a
-- text, and the timestamp that it then has, in whole units.
pub record Codec : Type 0 where
  pub loads : String → Option Json
  pub dumps : Json → String
  pub is_iso : String → Bool
  pub timestamp : String → ℕ
