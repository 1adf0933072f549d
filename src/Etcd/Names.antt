-- ===== src/Etcd/Names.antt =====
-- Laws of the names of pkg/etcd/util/util.go.
use Prim.Native.Char.{code}
use Prim.Native.String.{◌++◌}
use cluster_api_k3s.Prelude.{
  String, Bool, true, false, none, some, List, eqb, ◌≡◌, refl, arith, eq_iff, find-some,
}
use text.Mathlib.TextLemmas.{nil-append, cons-append}
use cluster_api_k3s.Api.{Member}
use cluster_api_k3s.Etcd.{
  before_last_dash, node_name_from_name, node_name_from_member, member_for_name,
}

abbrev pub has_dash : String → Bool
has_dash String.[] = false
has_dash (String.◌∷◌ c s) = elim (eqb (code c) b'-') [ true ↦ true | false ↦ has_dash s ]

before_last_dash-no_dash : (s : String) → has_dash s ≡ false → before_last_dash s ≡ none
unfolding before_last_dash
before_last_dash-no_dash String.[] h = refl
before_last_dash-no_dash (String.◌∷◌ c s) h = ground (arith, before_last_dash-no_dash s)

before_last_dash-append :
    (node suffix : String)
    → has_dash suffix ≡ false
    → before_last_dash (node ++ String.◌∷◌ "-" suffix) ≡ some node
unfolding before_last_dash
before_last_dash-append String.[] suffix h =
    rw nil-append (ground (arith, before_last_dash-no_dash suffix))
before_last_dash-append (String.◌∷◌ c node) suffix h =
    rw cons-append (rw (before_last_dash-append node suffix h, before_last_dash))

-- A member whose name is its node's name, a dash and a suffix with no dash in it, is told to be on
-- that node, whatever dashes the node's own name has.
pub node_name_from_name-append :
    (node suffix : String)
    → has_dash suffix ≡ false
    → node_name_from_name (node ++ String.◌∷◌ "-" suffix) ≡ node
unfolding node_name_from_name
node_name_from_name-append node suffix h =
    rw (before_last_dash-append node suffix h, node_name_from_name)

-- The member that MemberForName returns is on the node that was asked for.
pub member_for_name_node :
    (members : List Member) (name : String) (m : Member)
    → member_for_name members name ≡ some m
    → node_name_from_member m ≡ name
unfolding member_for_name
member_for_name_node members name m h =
    (eq_iff (node_name_from_member m) name).0 (find-some _ members m h)
