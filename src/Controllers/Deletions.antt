-- ===== src/Controllers/Deletions.antt =====
-- The machines that a reconciliation has deleted and patched, as its calls tell.
use cluster_api_k3s.Prelude.{String, List, [], ◌∷◌}
use cluster_api_k3s.Api.{Call, delete_machine, patch_machine, Machine, Trace, Session}

abbrev pub deletion : Call → List String → List String
deletion (delete_machine name) names = name ∷ names
deletion _ names = names

-- The names in the calls that delete a machine, the latest first.
abbrev pub deletions : Trace → List String
deletions [] = []
deletions (c ∷ t) = deletion c (deletions t)

abbrev pub deleted : Session → List String
deleted s = deletions s.trace

abbrev pub patch_of : Call → List Machine → List Machine
patch_of (patch_machine m) ms = m ∷ ms
patch_of _ ms = ms

abbrev pub patches : Trace → List Machine
patches [] = []
patches (c ∷ t) = patch_of c (patches t)

-- The machines that were patched, the latest first.
abbrev pub patched : Session → List Machine
patched s = patches s.trace
