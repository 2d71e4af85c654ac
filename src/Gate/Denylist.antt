-- ===== src/Gate/Denylist.antt =====
-- src/zee/gate/denylist.py: the shipped threat list and the overlay that this machine grows.
-- A file that is missing, unreadable or no object reads as the empty lists.
pub mod Laws
use zee.Prelude.{
  String, Bool, true, false, not, ◌&&◌, ◌||◌, List, [], ◌∷◌, ◌++◌, contains, truthy, take_chars,
  if◌then◌else◌,
}
use zee.Gate.Model.{Flag, Artifact, Severity}

pub record Lists : Type 0 where
  pub hashes : List String
  pub names : List String
  pub domains : List String

-- `list(dict.fromkeys(xs))`, given what was seen before
dedup : List String → List String → List String
unfolding contains
dedup seen [] = []
dedup seen (x ∷ xs) = let rest = dedup (x ∷ seen) xs in if contains x seen then rest else x ∷ rest

-- `_load`: the shipped list, then the overlay
unfoldable pub merged : Lists → Lists → Lists
unfolding dedup
merged repo local = record {
  hashes = dedup [] (repo.hashes ++ local.hashes);
  names = dedup [] (repo.names ++ local.names);
  domains = dedup [] (repo.domains ++ local.domains);
}

-- Appends each entry that is not empty and that neither `known` nor the list so far holds.
unfoldable pub add_all : List String → List String → List String → List String
unfolding contains truthy
add_all known cur [] = cur
add_all known cur (h ∷ hs) =
    add_all known
      (if truthy h && not (contains h cur) && not (contains h known) then cur ++ h ∷ [] else cur) hs

-- `add_local`: the new overlay
unfoldable pub add_local : Lists → Lists → List String → List String → Lists
unfolding add_all merged
add_local repo local hashes names = record {
  hashes = add_all (merged repo local).hashes local.hashes hashes;
  names = add_all (merged repo local).names local.names names;
  domains = local.domains;
}

abbrev hash_flag : Artifact → Flag
hash_flag a = record {
  severity = Severity.high;
  code = "G610";
  message = "content hash is on the denylist";
  evidence = take_chars 16 a.content_hash;
}

abbrev name_flag : Artifact → Flag
name_flag a = record {
  severity = Severity.high;
  code = "G611";
  message = "name is on the denylist";
  evidence = a.name;
}

-- `check`
unfoldable pub check : Lists → Lists → Artifact → List Flag
check repo local a =
    (if contains a.content_hash (merged repo local).hashes then hash_flag a ∷ [] else [])
    ++ (if contains a.name (merged repo local).names then name_flag a ∷ [] else [])
