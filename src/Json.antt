-- ===== src/Json.antt =====
-- The values that the program hands to json.Marshal, and the raw messages that it passes through, as
-- trees. A time stands for its RFC 3339 rendering.
use gomsg.Prelude.{ℕ, String, Text, Bool, Option, none, some}

mutual
  pub data Json : Type 0 where
    null : Json
    bool : Bool → Json
    num : ℕ → Json
    word : String → Json
    str : Text → Json
    time : ℕ → Json
    arr : Items → Json
    obj : Fields → Json

  pub data Items : Type 0 where
    nil : Items
    cons : Json → Items → Items

  pub data Fields : Type 0 where
    end : Fields
    field : String → Json → Fields → Fields

-- map[string]any{}
abbrev pub empty_obj : Json
empty_obj = obj end

-- A pointer field with `omitempty` leaves no key when it is nil.
abbrev pub omit_empty : String → Option Text → Fields → Fields
omit_empty name none rest = rest
omit_empty name (some t) rest = field name (str t) rest
