-- ===== src/Data/Json.antt =====
-- JSON values as Python holds them: a dict is its entries, in order. A float is its bit pattern.
use agentops_workflow_platfo.Base.{
  ℕ, suc, zero, String, str_eq, Bool, false, ◌||◌, Option, none, some, if◌then◌else◌,
}
use agentops_workflow_platfo.Base.Float.{Float}
pub use agentops_workflow_platfo.Base.Int.{ℤ, pos, negsuc}

mutual
  pub data Json : Type 0 where
    null : Json
    boolean : Bool → Json
    integer : ℤ → Json
    number : Float → Json
    string : String → Json
    array : Items → Json
    object : Fields → Json

  pub data Items : Type 0 where
    nil : Items
    cons : Json → Items → Items

  pub data Fields : Type 0 where
    end : Fields
    field : String → Json → Fields → Fields

-- d.get(k)
abbrev pub get : String → Fields → Option Json
get k end = none
get k (field j v rest) = if str_eq j k then some v else get k rest

-- value[i]
abbrev pub item : ℕ → Items → Option Json
item i nil = none
item zero (cons x xs) = some x
item (suc i) (cons x xs) = item i xs

abbrev pub has_key : String → Fields → Bool
has_key k end = false
has_key k (field j v rest) = str_eq j k || has_key k rest
