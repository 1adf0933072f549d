-- ===== src/Secrets/Certificates/Kept.antt =====
-- LookupOrGenerate as a whole: what it returns is what the secrets hold, now and at its next run.
use cluster_api_k3s.Prelude.{String, Option, some, List, [], ◌∷◌, map, ◌≡◌, refl, sym, ap, ◌∙◌}
use cluster_api_k3s.Prelude.Exec.{Outcome, ok, map_each}
use cluster_api_k3s.Prelude.Exec.Post.{
  Holds-weaken, Ensures, Ensures-bind, Holds-ok, Holds-continue, Always, Anyhow,
}
use cluster_api_k3s.Secrets.Certificates.Loops.{
  Stable, Stable-×, Stable-Each, Each, Both, map_each-Ensures, for_each-Ensures,
}
use cluster_api_k3s.Api.{
  Error, OwnerReference, ObjectKey, KeyPair, Secret, Requests, ManagementClient,
}
use cluster_api_k3s.Secrets.{Purpose, name}
use cluster_api_k3s.Secrets.Certificates.{
  Certificate, secret_to_key_pair, lookup_one, lookup_all, generate_missing, generate_all, save,
  save_generated, lookup_or_generate,
}
use cluster_api_k3s.Secrets.Certificates.Stored.{
  SecretsLaws, IsStored, IsFresh, IsLookedUp, IsComplete, lookup_one-Ensures, IsStored-Stable,
  IsLookedUp-Stable, IsComplete-Stable,
}
use cluster_api_k3s.Secrets.Certificates.Making.{generate_unless-Ensures, save-Ensures}

abbrev pub purposes : List Certificate → List Purpose
purposes cs = map (λ c. c.purpose) cs

abbrev pub key_pairs : List Certificate → List (Option KeyPair)
key_pairs cs = map (λ c. c.key_pair) cs

Both-purposes :
    (P : Certificate → Requests → Type 0) (cs ds : List Certificate) (rs : Requests)
    → Both (λ c d rs. (d.purpose ≡ c.purpose) × P d rs) cs ds rs
    → (purposes ds ≡ purposes cs) × Each P ds rs
Both-purposes P [] [] rs h = (refl, tt)
Both-purposes P [] (d ∷ ds) rs h = absurd h
Both-purposes P (c ∷ cs) [] rs h = absurd h
Both-purposes P (c ∷ cs) (d ∷ ds) rs ((e, p), h) =
    let (es, ps) = Both-purposes P cs ds rs h in (cc, (p, ps))

Stable-constant : (A : Type 0) → Stable (λ rs. A)
Stable-constant A = record { at = λ r rs u a. a }

Stable-same :
    (P : Certificate → Requests → Type 0)
    → ((c : Certificate) → Stable (P c))
    → (c d : Certificate) → Stable (λ rs. (d.purpose ≡ c.purpose) × P d rs)
Stable-same P s c d = Stable-× (λ rs. d.purpose ≡ c.purpose) (P d) (Stable-constant _) (s d)

abbrev pub AllFresh : List Certificate → Type 0
AllFresh [] = Unit
AllFresh (c ∷ cs) = IsFresh c × AllFresh cs

AllFresh-Each :
    (cs : List Certificate) (rs : Requests) → AllFresh cs → Each (λ c rs. IsFresh c) cs rs
AllFresh-Each [] rs h = tt
AllFresh-Each (c ∷ cs) rs (h, hs) = (h, AllFresh-Each cs rs hs)

module _ (client : ManagementClient) (laws : SecretsLaws client) (cluster : ObjectKey) where
  abbrev Stored : Certificate → Requests → Type 0
  Stored = IsStored client laws cluster

  abbrev Ends :
      (Requests → Type 0)
      → (Certificate → Requests → Type 0)
      → List Certificate
      → List Certificate
      → Requests
      → Type 0
  Ends F P cs ds rs = F rs × ((purposes ds ≡ purposes cs) × Each P ds rs)

  lookup_all-Ensures :
      (F : Requests → Type 0)
      → Stable F
      → (cs : List Certificate) → AllFresh cs
      → Ensures F (lookup_all client cluster cs) (Ends F (IsLookedUp client laws cluster) cs) Anyhow
  unfolding lookup_all
  lookup_all-Ensures F sf cs fresh = record {
    at = λ rs f.
        Holds-weaken (map_each (lookup_one client cluster) cs rs)
          (λ ds t.
            F t
            × Both (λ c d t. (d.purpose ≡ c.purpose) × IsLookedUp client laws cluster d t) cs ds t)
          (Ends F (IsLookedUp client laws cluster) cs) Anyhow Anyhow
          ((map_each-Ensures (λ c t. IsFresh c) (λ c. Stable-constant _) _
              (lookup_one client cluster)
              (Stable-same (IsLookedUp client laws cluster) (IsLookedUp-Stable client laws cluster))
              (lookup_one-Ensures client laws cluster) F sf cs).at
            rs (f, AllFresh-Each cs rs fresh))
          (λ ds t (g, b). (g, Both-purposes (IsLookedUp client laws cluster) cs ds t b))
          (λ e t u. u);
  }

  generate_all-Ensures :
      (F : Requests → Type 0)
      → Stable F
      → (cs : List Certificate)
      → Ensures
          (λ rs. F rs × Each (IsLookedUp client laws cluster) cs rs)
          (generate_all client cs)
          (Ends F (IsComplete client laws cluster) cs)
          Anyhow
  unfolding generate_all generate_missing
  generate_all-Ensures F sf cs = record {
    at = λ rs h.
        Holds-weaken (map_each (generate_missing client) cs rs)
          (λ ds t.
            F t
            × Both (λ c d t. (d.purpose ≡ c.purpose) × IsComplete client laws cluster d t) cs ds t)
          (Ends F (IsComplete client laws cluster) cs) Anyhow Anyhow
          ((map_each-Ensures (IsLookedUp client laws cluster)
              (IsLookedUp-Stable client laws cluster) _ (generate_missing client)
              (Stable-same (IsComplete client laws cluster) (IsComplete-Stable client laws cluster))
              (λ G sg c. generate_unless-Ensures client laws cluster G sg c c.key_pair refl) F sf
              cs).at
            rs h)
          (λ ds t (g, b). (g, Both-purposes (IsComplete client laws cluster) cs ds t b))
          (λ e t u. u);
  }

  save_generated-Ensures :
      (F : Requests → Type 0)
      → Stable F
      → (owner : OwnerReference) (cs : List Certificate)
      → Ensures
          (λ rs. F rs × Each (IsComplete client laws cluster) cs rs)
          (save_generated client cluster owner cs)
          (λ u rs. F rs × Each Stored cs rs)
          Anyhow
  unfolding save_generated
  save_generated-Ensures F sf owner cs =
      for_each-Ensures (IsComplete client laws cluster) (IsComplete-Stable client laws cluster)
        Stored (save client cluster owner) (IsStored-Stable client laws cluster)
        (save-Ensures client laws cluster owner) F sf cs

  pub lookup_or_generate-Ensures :
      (F : Requests → Type 0)
      → Stable F
      → (owner : OwnerReference) (cs : List Certificate) → AllFresh cs
      → Ensures F (lookup_or_generate client cluster owner cs) (Ends F Stored cs) Anyhow
  unfolding lookup_or_generate
  lookup_or_generate-Ensures F sf owner cs fresh =
      Ensures-bind (lookup_all client cluster cs) _ (Ends F (IsLookedUp client laws cluster) cs)
        (Ends F Stored cs) (lookup_all-Ensures F sf cs fresh)
        λ found. record {
          at = λ rs (f, (e, ls)).
              Holds-continue (generate_all client found rs) _ _ (Ends F Stored cs) Anyhow
                ((generate_all-Ensures F sf found).at rs (f, ls))
                λ complete rs' (g, (d, ms)).
                  Holds-continue (save_generated client cluster owner complete rs') _ _
                    (Ends F Stored cs) Anyhow
                    ((save_generated-Ensures F sf owner complete).at rs' (g, ms))
                    λ u t (h, is). (h, (d ∙ e, is));
        }

  same_pair :
      (c d : Certificate) (rs : Requests)
      → d.purpose ≡ c.purpose
      → Stored c rs
      → Stored d rs
      → d.key_pair ≡ c.key_pair
  same_pair c d rs e (s, kp, h, k, p) (s', kp', h', k', p') =
      let at : String → Option Secret =
        λ q. laws.stored rs cluster.namespace (name cluster.name q) in
      let same : some s' ≡ some s = sym h' ∙ ap at e ∙ h in
      let secret : s' ≡ s = cc in
      let pair : ◌≡◌ {A = Outcome Error KeyPair} (ok kp') (ok kp) =
        sym k' ∙ ap secret_to_key_pair secret ∙ k in
      cc

  key_pairs-Stored :
      (cs ds : List Certificate) (rs : Requests)
      → purposes ds ≡ purposes cs
      → Each Stored cs rs
      → Each Stored ds rs
      → key_pairs ds ≡ key_pairs cs
  key_pairs-Stored [] [] rs e h i = refl
  key_pairs-Stored [] (d ∷ ds) rs e h i = absurd cc
  key_pairs-Stored (c ∷ cs) [] rs e h i = absurd cc
  key_pairs-Stored (c ∷ cs) (d ∷ ds) rs e (h, hs) (i, is) =
      let first : d.purpose ≡ c.purpose = cc in
      let rest : purposes ds ≡ purposes cs = cc in
      let pair = same_pair c d rs first h i in
      let pairs = key_pairs-Stored cs ds rs rest hs is in cc

  -- If nobody else touches the secrets, then every certificate that LookupOrGenerate returns, for
  -- fresh certificates that a user does not supply, has the key pair that its secret holds at the
  -- end, and the purposes are those that were asked for, in that order.
  pub lookup_or_generate-IsStored :
      (owner : OwnerReference) (cs ds : List Certificate) (rs : Requests)
      → AllFresh cs
      → (lookup_or_generate client cluster owner cs rs).0 ≡ ok ds
      → (purposes ds ≡ purposes cs)
        × Each (IsStored client laws cluster) ds (lookup_or_generate client cluster owner cs rs).1
  lookup_or_generate-IsStored owner cs ds rs fresh e =
      (Holds-ok (lookup_or_generate client cluster owner cs rs) (Ends Always Stored cs) Anyhow ds
        ((lookup_or_generate-Ensures Always (Stable-constant Unit) owner cs fresh).at rs tt) e).1

  -- If nobody else touches the secrets, then two runs of LookupOrGenerate that both return, one after
  -- the other, return the same key pairs: the second one generates no other authority.
  pub lookup_or_generate-again :
      (owner : OwnerReference) (cs ds es : List Certificate) (rs : Requests)
      → AllFresh cs
      → (lookup_or_generate client cluster owner cs rs).0 ≡ ok ds
      → (lookup_or_generate client cluster owner cs
          (lookup_or_generate client cluster owner cs rs).1).0
        ≡ ok es
      → key_pairs es ≡ key_pairs ds
  lookup_or_generate-again owner cs ds es rs fresh first second =
      let (p, stored) = lookup_or_generate-IsStored owner cs ds rs fresh first in
      let (kept, (q, again)) =
        Holds-ok (lookup_or_generate client cluster owner cs _) (Ends (Each Stored ds) Stored cs)
          Anyhow es
          ((lookup_or_generate-Ensures (Each Stored ds)
              (Stable-Each Stored (IsStored-Stable client laws cluster) ds) owner cs fresh).at
            _ stored)
          second in
      key_pairs-Stored ds es _ (q ∙ sym p) kept again
