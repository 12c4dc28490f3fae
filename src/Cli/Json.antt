-- ===== src/Cli/Json.antt =====
-- The JSON that main.rs prints (the macro `json!`), and the crates that only main.rs calls.
use obsigil_rs.Prelude.{Bool, Option, none, some, List, [], ◌∷◌, ℤ, Result}
use obsigil_rs.Types.{Text, Bytes}
use obsigil_rs.Crates.{Crates, Serde}

-- `serde_json::Value`; a number is an integer or the bits of an f64.
mutual
  pub data Json : Type 0 where
    null : Json
    boolean : Bool → Json
    number : ℤ → Json
    float : Bytes → Json
    string : Text → Json
    array : Elements → Json
    object : Members → Json

  pub data Elements : Type 0 where
    no_elements : Elements
    element : Json → Elements → Elements

  pub data Members : Type 0 where
    no_members : Members
    member : Text → Json → Members → Members

abbrev pub strings : List Text → Elements
strings [] = no_elements
strings (s ∷ ss) = element (string s) (strings ss)

-- An optional value; `None` is null.
abbrev pub optional {ℓ} : {A : Type ℓ} → (A → Json) → Option A → Json
optional f none = null
optional f (some a) = f a

pub record Tools : Type 0 where
  pub crates : Crates
  -- `serde_json::from_str` and `to_string`, with the texts of their errors
  pub from_str : Text → Result Text Json
  pub to_string : Json → Result Text Text
  pub json_serde : Serde Json
  -- `Uuid::parse_str`, with the text of its error, and `to_string`
  pub parse_str : Text → Result Text Bytes
  pub uuid_text : Bytes → Text
