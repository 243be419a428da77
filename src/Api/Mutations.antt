-- ===== src/Api/Mutations.antt =====
-- web/src/lib/api/generated/default/default.ts: the options of every mutation, and the hooks that take
-- them.
pub mod Auth
pub mod Containers
pub mod Stacks
pub mod Resources
pub mod Entries
pub mod Distinct
