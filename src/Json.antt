-- ===== src/Json.antt =====
-- The values that the standard library's `json` reads and prints. An object is the list of its
-- fields, in insertion order; a number is its literal.
pub mod Canonical
pub mod Dict
pub mod Number
pub mod Value
use mcp_multiplex.Prelude.{String, Bool}

mutual
  pub data Json : Type 0 where
    null : Json
    boolean : Bool → Json
    number : String → Json
    text : String → Json
    array : Items → Json
    object : Fields → Json

  pub data Items : Type 0 where
    nil : Items
    cons : Json → Items → Items

  pub data Fields : Type 0 where
    end : Fields
    field : String → Json → Fields → Fields
