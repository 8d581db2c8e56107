-- ===== src/Examples/Federations.antt =====
-- Concrete inputs for the theorems on ts/src/autobase-view.ts.
use hellgraph.Base.{ℕ, ◌≡◌, true, none, some, List, [], ◌∷◌}
use hellgraph.AtomSpace.Space.{AtomLogEntry, other}
use hellgraph.Federation.{FederatedBlock, FederatedAtomSpace, View, create, data_ops}
use hellgraph.Federation.Numbering.{numbered, ids, append_all, create-append_all}
use hellgraph.Federation.Feed.{pages, grow, pages-grow}

abbrev opening_entry : AtomLogEntry ℕ
opening_entry = record { seq = 1; ts = "2024"; change = other }

abbrev third_entry : AtomLogEntry ℕ
third_entry = record { seq = 3; ts = "2025"; change = other }

abbrev stamped_block : FederatedBlock ℕ
stamped_block = record {
  mutation = opening_entry;
  fed_prov = some (record { writer = "ada"; seq = 1 });
}

-- A block that another program appended, without a stamp.
abbrev bare_block : FederatedBlock ℕ
bare_block = record { mutation = third_entry; fed_prov = none }

abbrev pieces : List (View ℕ)
pieces = (some bare_block ∷ some stamped_block ∷ []) ∷ [] ∷ (none ∷ some stamped_block ∷ []) ∷ []

pages-grow_example : pages [] 0 pieces ≡ stamped_block ∷ stamped_block ∷ []
unfolding grow data_ops
pages-grow_example = pages-grow pieces

create-append_all_example :
    (f : FederatedAtomSpace ℕ) × (append_all
        (create "ada" true [])
        (opening_entry ∷ third_entry ∷ [])
      ≡ some f)
    × ((g : FederatedAtomSpace ℕ) × (append_all (create "ada" true f.log) (opening_entry ∷ [])
          ≡ some g)
        × (ids g.log
            ≡ record { writer = "ada"; seq = 1 }
              ∷ record { writer = "ada"; seq = 2 }
              ∷ record { writer = "ada"; seq = 1 }
              ∷ []))
unfolding numbered
create-append_all_example =
    create-append_all "ada" (opening_entry ∷ third_entry ∷ []) (opening_entry ∷ [])
