-- ===== src/Secrets/Token.antt =====
-- pkg/token/token.go: the token with which the machines of a cluster join, in a secret of the
-- management cluster.
pub mod Owned
pub mod Reading
use cluster_api_k3s.Prelude.{
  String, Bool, true, false, Option, none, some, List, [], ◌∷◌, ◌++◌, lookup, any, if◌then◌else◌,
}
use cluster_api_k3s.Prelude.Exec.{Outcome, ok, err, pure, stop, lift, catch, attempt, ◌>>=◌, ◌>>◌}
use cluster_api_k3s.Api.{
  Error, not_found, nil_dereference, other, OwnerReference, ObjectKey, Secret, cluster_name_label,
  cluster_secret_type, ManagementClient, get_secret, create_secret, update_secret, generate_token,
  Io, ask, tell,
}
use cluster_api_k3s.K3sConfig.Ciphers.{concat}

-- The object that owns the token: what NewControllerRef takes from it, and its uid.
pub record Owner : Type 0 where
  pub kind : String
  pub name : String
  pub uid : String

-- metav1.NewControllerRef
abbrev pub new_controller_ref : Owner → OwnerReference
new_controller_ref owner = record {
  kind = owner.kind;
  name = owner.name;
  uid = owner.uid;
  controller = true;
}

unfoldable pub name : String → String
name cluster_name = concat cluster_name "-token"

-- The loop of upsertControllerRef: each controlling reference is replaced.
unfoldable pub replace_controllers : OwnerReference → List OwnerReference → List OwnerReference
replace_controllers new [] = []
replace_controllers new (r ∷ refs) =
    (if r.controller then new else r) ∷ replace_controllers new refs

unfoldable pub upsert_controller_ref : OwnerReference → List OwnerReference → List OwnerReference
unfolding replace_controllers
upsert_controller_ref new refs =
    if any (λ r. r.controller) refs
    then replace_controllers new refs
    else replace_controllers new refs ++ new ∷ []

-- metav1.IsControlledBy, of the owner references and the uid of the owner
pub record Ownership : Type 0 where
  pub is_controlled_by : List OwnerReference → String → Bool
  -- controllerutil.SetControllerReference on an object; its error is ignored
  pub set_controller_reference : Owner → Secret → Secret

unfoldable pub token_of : Secret → Outcome Error String
unfolding lookup
token_of s = elim (lookup "value" s.entries) [
  | none ↦ err (other "found token secret without value")
  | some value ↦ ok value
]

unfoldable pub failed_lookup : Outcome Error Secret → Io String
unfolding token_of
failed_lookup (ok s) = lift (token_of s)
failed_lookup (err e) = stop (other "failed to lookup token")

unfoldable pub token_secret : ObjectKey → String → Secret
unfolding name
token_secret cluster token = record {
  namespace = cluster.namespace;
  name = name cluster.name;
  labels = (cluster_name_label, cluster.name) ∷ [];
  owners = [];
  entries = ("value", token) ∷ [];
  type = cluster_secret_type;
}

-- The secret with the owner as its controller
abbrev pub upserted : Owner → Secret → Secret
upserted owner s = record s { owners = upsert_controller_ref (new_controller_ref owner) s.owners }

-- An error formatted with `%v` loses its kind.
abbrev pub flattened : {A : Type 0} → String → Io A → Io A
flattened text m = catch m (λ e. stop (other text))

module _ (client : ManagementClient) where
  -- getSecret
  unfoldable pub get_token_secret : ObjectKey → Io Secret
  unfolding ask name
  get_token_secret cluster =
      ask (get_secret cluster.namespace (name cluster.name))
        (λ rs. client.get_secret rs cluster.namespace (name cluster.name))

  -- Lookup; the error of the server is flattened to a text by `%v`.
  unfoldable pub lookup_token : ObjectKey → Io String
  unfolding get_token_secret failed_lookup
  lookup_token cluster = attempt (get_token_secret cluster) >>= failed_lookup

  unfoldable pub store_token : Secret → Io Unit
  unfolding tell
  store_token s =
      flattened "failed to store token" (tell (create_secret s) (λ rs. client.create_secret rs s))

module _ (own : Ownership) (client : ManagementClient) where
  unfoldable pub generate_and_store : ObjectKey → Owner → Io String
  unfolding ask store_token token_secret
  generate_and_store cluster owner = do
    token ← flattened "failed to generate token" (ask generate_token client.random)
    store_token client (own.set_controller_reference owner (token_secret cluster token))
    pure token

  unfoldable pub ensure_ownership : Owner → Secret → Io Unit
  unfolding tell upsert_controller_ref
  ensure_ownership owner s =
      if own.is_controlled_by s.owners owner.uid
      then pure tt
      else flattened "failed to update ownership of token" (
          tell (update_secret (upserted owner s))
            (λ rs. client.update_secret rs (upserted owner s)))

  -- An error other than "not found" is not looked at: the code goes on with a nil secret.
  unfoldable pub secret_found : ObjectKey → Owner → Outcome Error Secret → Io Unit
  unfolding generate_and_store ensure_ownership
  secret_found cluster owner (ok s) = ensure_ownership owner s
  secret_found cluster owner (err not_found) = generate_and_store cluster owner >>= λ token. pure tt
  secret_found cluster owner (err e) = stop nil_dereference

  unfoldable pub reconcile : ObjectKey → Owner → Io Unit
  unfolding secret_found
  reconcile cluster owner = attempt (get_token_secret client cluster) >>= secret_found cluster owner
