-- ===== src/Api.antt =====
-- The client of the HTTP interface: the generated calls (web/src/lib/api/generated/default/default.ts)
-- and the function that sends them (web/src/lib/api/orval-mutator.ts).
pub mod Auth
pub mod Containers
pub mod Stacks
pub mod Resources
pub mod Keys
pub mod Request
pub mod Hooks
pub mod Queries
pub mod Mutations
use dockstack.Prelude.{Option, Text}

pub data Method : Type 0 where
  get post put patch delete : Method

-- What a generated function hands to `orvalInstance`: the method, the address, and the body, which
-- is the JSON text of the call's argument.
pub record Call : Type 0 where
  pub method : Method
  pub url : Text
  pub body : Option Text
