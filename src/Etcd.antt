-- ===== src/Etcd.antt =====
-- pkg/etcd/util/util.go: the node that an etcd member runs on, told from the member's name.
-- k3s names a member after its node, a dash and a random suffix.
pub mod Names
use Prim.Native.Char.{Char, code}
use Prim.Native.String.{[], ◌∷◌}
use cluster_api_k3s.Prelude.{
  ℕ, String, Bool, Option, none, some, List, map, find, eqb, if◌then◌else◌, ◌==◌,
}
use cluster_api_k3s.Api.{Capi, Member}

-- `name[:strings.LastIndex(name, "-")]`, or none where there is no dash. The dash is one byte, so the
-- cut at a byte and the cut at a character are the same.
unfoldable pub before_last_dash : String → Option String
before_last_dash [] = none
before_last_dash (c ∷ rest) = elim (before_last_dash rest) [
  | some before ↦ some (c ∷ before)
  | none ↦ if eqb (code c) b'-' then some [] else none
]

unfoldable pub node_name_from_name : String → String
unfolding before_last_dash
node_name_from_name name = elim (before_last_dash name) [ some before ↦ before | none ↦ name ]

unfoldable pub node_name_from_member : Member → String
unfolding node_name_from_name
node_name_from_member m = node_name_from_name m.name

-- MemberForName: the first member on that node
unfoldable pub member_for_name : List Member → String → Option Member
member_for_name members name = find (λ m. node_name_from_member m == name) members

unfoldable pub member_names : List Member → List String
member_names members = map node_name_from_member members

unfoldable pub member_equal : Capi → List Member → List Member → Bool
member_equal capi members1 members2 = capi.set_equal (member_names members1) (member_names members2)
