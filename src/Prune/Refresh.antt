-- ===== src/Prune/Refresh.antt =====
-- Which list a removal or a prune reads again.
use dockstack.Prelude.{ℕ, ◌≡◌, ◌↔◌, Text, ◌++◌, codes}
use dockstack.Api.Keys.{Key}
use dockstack.Effect.{Refreshes, success-Refreshes}
use dockstack.Prune.{
  Kind, list_key, PruneResult, prune_message, prune_succeeded, Removable, kind_of, label_of,
  remove_succeeded,
}

-- A removal and a prune read the list of their kind again once they succeed, and nothing else.
prune_succeeded_iff :
    (to_fixed : ℕ → Text) (kind : Kind) (result : PruneResult) (r : Removable) (k : Key)
    → (Refreshes (prune_succeeded to_fixed kind result) k ↔ (k ≡ list_key kind))
      × (Refreshes (remove_succeeded r) k ↔ (k ≡ list_key (kind_of r)))
unfolding prune_succeeded remove_succeeded
prune_succeeded_iff to_fixed kind result r k = (
  success-Refreshes (prune_message to_fixed kind result) (list_key kind) k,
  success-Refreshes (label_of r ++ codes " removed") (list_key (kind_of r)) k,
)
