-- ===== src/Responder/Permission/Policy.antt =====
-- src/zee/responder/permission.py, `policy_hash`: the policy that the operator confirmed, in the
-- order that `sorted` gives it. What the text of the entries hashes to is a parameter elsewhere.
use Prim.Native.Nat.{Ordering}
use Prim.Native.String.{compare}
use zee.Prelude.{String, List, [], ◌∷◌, ◌==◌, if◌then◌else◌}
use zee.Prelude.Sort.{sorted}
use zee.Config.{AssetProfile}

pub record PolicyEntry : Type 0 where
  pub id : String
  pub cut_method : String
  pub decoys : List String

abbrev then_by : Ordering → Ordering → Ordering
then_by Ordering.eq o = o
then_by o _ = o

compare_texts : List String → List String → Ordering
compare_texts [] [] = Ordering.eq
compare_texts [] (t ∷ ts) = Ordering.lt
compare_texts (s ∷ ss) [] = Ordering.gt
compare_texts (s ∷ ss) (t ∷ ts) = then_by (compare s t) (compare_texts ss ts)

-- tuples compare by their parts, from the left
compare_entries : PolicyEntry → PolicyEntry → Ordering
unfolding compare_texts
compare_entries p q =
    then_by (compare p.id q.id)
      (then_by (compare p.cut_method q.cut_method) (compare_texts p.decoys q.decoys))

auto_entries : List AssetProfile → List PolicyEntry
unfolding sorted
auto_entries [] = []
auto_entries (a ∷ rest) =
    let others = auto_entries rest in
    if a.response_mode == "auto"
    then record { id = a.id; cut_method = a.cut_method; decoys = sorted compare a.decoy_paths }
      ∷ others
    else others

unfoldable pub policy_entries : List AssetProfile → List PolicyEntry
unfolding auto_entries compare_entries sorted
policy_entries assets = sorted compare_entries (auto_entries assets)
