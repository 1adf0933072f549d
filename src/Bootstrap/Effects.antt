-- ===== src/Bootstrap/Effects.antt =====
-- What the parts of a reconciliation request: none of them calls the
-- initialisation lock.
use cluster_api_k3s.Prelude.{
  String, Bool, true, false, Option, none, some, List, not, ◌≡◌, refl, sym, subst,
}
use cluster_api_k3s.Prelude.Exec.{Outcome, ok, err, modify}
use cluster_api_k3s.Prelude.Exec.Only.{Only, only_rules}
use cluster_api_k3s.Api.{
  Error, already_exists, OwnerReference, Cluster, ObjectKey, Secret, File, KeyPair, KThreesConfig,
  OwnerMachine, Request, Requests, lock, unlock, ManagementClient, Io, ask, tell,
}
use cluster_api_k3s.Secrets.Certificates.{
  Certificate, lookup_one, lookup_all, generate, generate_unless, generate_missing, generate_all,
  save_secret, save, save_generated, lookup_or_generate,
}
use cluster_api_k3s.Secrets.Token.{get_token_secret, failed_lookup, lookup_token}
use cluster_api_k3s.Bootstrap.{
  BootstrapLibrary, BootstrapSession, Action, zoom, mark_true, mark_false,
  reconcile_top_level_object_settings,
}
use cluster_api_k3s.Bootstrap.Files.{
  resolve_secret_file_content, resolve_from, resolve_file, resolve_files,
}
use cluster_api_k3s.Bootstrap.Storing.{update_if_exists, create_or_update, store_bootstrap_data}
use cluster_api_k3s.Bootstrap.Joining.{or_mark_failed, with_etcd_proxy, control_plane_files}
use cluster_api_k3s.Bootstrap.Initializing.{certificates_of, initialize}

abbrev pub is_lock_call : Request → Bool
is_lock_call (lock n) = true
is_lock_call unlock = true
is_lock_call r = false

abbrev pub lockless : Request → Bool
lockless r = not (is_lock_call r)

abbrev pub all_of : Requests → Requests
all_of rs = rs

abbrev pub made : BootstrapSession → Requests
made s = s.requests

Only-ask :
    {A : Type 0} (r : Request) (answer : Requests → Outcome Error A)
    → lockless r ≡ true
    → Only all_of lockless (ask r answer)
unfolding ask
Only-ask r answer l = record { at = λ F stable rs f. stable r rs l f }

Only-tell :
    (r : Request) (answer : Requests → Option Error)
    → lockless r ≡ true
    → Only all_of lockless (tell r answer)
unfolding tell
Only-tell r answer l = record { at = λ F stable rs f. stable r rs l f }

ruleset request_rules = (only_rules, Only-ask, Only-tell, refl)

module _ (client : ManagementClient) where
  lookup_one-Only : (k : ObjectKey) (c : Certificate) → Only all_of lockless (lookup_one client k c)
  unfolding lookup_one
  lookup_one-Only k c = search request_rules depth 6

  generate-Only : (c : Certificate) → Only all_of lockless (generate client c)
  unfolding generate
  generate-Only c = search request_rules depth 6

  generate_unless-Only :
      (c : Certificate) (o : Option KeyPair) → Only all_of lockless (generate_unless client c o)
  unfolding generate_unless
  generate_unless-Only c none = generate-Only c
  generate_unless-Only c (some kp) = search request_rules

  generate_missing-Only : (c : Certificate) → Only all_of lockless (generate_missing client c)
  unfolding generate_missing
  generate_missing-Only c = generate_unless-Only c c.key_pair

  save-Only :
      (k : ObjectKey) (owner : OwnerReference) (c : Certificate)
      → Only all_of lockless (save client k owner c)
  unfolding save save_secret
  save-Only k owner c = search request_rules depth 8

  lookup_or_generate-Only :
      (k : ObjectKey) (owner : OwnerReference) (cs : List Certificate)
      → Only all_of lockless (lookup_or_generate client k owner cs)
  unfolding lookup_or_generate lookup_all generate_all save_generated
  lookup_or_generate-Only k owner cs =
      search (request_rules, lookup_one-Only, generate_missing-Only, save-Only) depth 10

  failed_lookup-Only : (a : Outcome Error Secret) → Only all_of lockless (failed_lookup a)
  unfolding failed_lookup
  failed_lookup-Only (ok s) = search request_rules
  failed_lookup-Only (err e) = search request_rules

  lookup_token-Only : (k : ObjectKey) → Only all_of lockless (lookup_token client k)
  unfolding lookup_token get_token_secret
  lookup_token-Only k = search (request_rules, failed_lookup-Only) depth 6

  resolve_from-Only :
      (namespace : String) (f : File) (o : Option (String × String))
      → Only all_of lockless (resolve_from client namespace f o)
  unfolding resolve_from resolve_secret_file_content
  resolve_from-Only namespace f none = search request_rules
  resolve_from-Only namespace f (some source) = search request_rules depth 8

  resolve_files-Only : (config : KThreesConfig) → Only all_of lockless (resolve_files client config)
  unfolding resolve_files resolve_file
  resolve_files-Only config = search (request_rules, resolve_from-Only) depth 6

  update_if_exists-Only :
      (s : Secret) (e : Error) → Only all_of lockless (update_if_exists client s e)
  unfolding update_if_exists
  update_if_exists-Only s already_exists = search request_rules
  update_if_exists-Only s e = search request_rules

  create_or_update-Only : (s : Secret) → Only all_of lockless (create_or_update client s)
  unfolding create_or_update
  create_or_update-Only s = search (request_rules, update_if_exists-Only) depth 6

zoomed-Only : {A : Type 0} (m : Io A) → Only all_of lockless m → Only made lockless (zoom m)
zoomed-Only m om = record { at = λ F stable s f. om.at F stable s.requests f }

marked-Only :
    {E : Type 0} (f : BootstrapSession → BootstrapSession)
    → ((s : BootstrapSession) → (f s).requests ≡ s.requests)
    → Only made lockless (modify {E = E} f)
marked-Only f h = record { at = λ F stable s x. subst F (sym (h s)) x }

ruleset action_rules = (only_rules, zoomed-Only, marked-Only, refl)

module _ (lib : BootstrapLibrary) (client : ManagementClient) where
  or_mark_failed-Only :
      {A : Type 0} (m : Action A)
      → Only made lockless m
      → Only made lockless (or_mark_failed lib client m)
  unfolding or_mark_failed mark_false
  or_mark_failed-Only m om = search action_rules depth 6

  control_plane_files-Only : Only made lockless (control_plane_files lib client)
  unfolding control_plane_files with_etcd_proxy
  control_plane_files-Only = search (action_rules, or_mark_failed-Only, resolve_files-Only) depth 10

  certificates_of-Only :
      (cluster : Cluster) → Only made lockless (certificates_of lib client cluster)
  unfolding certificates_of mark_true mark_false
  certificates_of-Only cluster = search (action_rules, lookup_or_generate-Only) depth 10

  store_bootstrap_data-Only :
      (cluster : Cluster) (content : String)
      → Only made lockless (store_bootstrap_data lib client cluster content)
  unfolding store_bootstrap_data mark_true
  store_bootstrap_data-Only cluster content = search (action_rules, create_or_update-Only) depth 8

  pub initialize-Only :
      (cluster : Cluster) (machine : OwnerMachine)
      → Only made lockless (initialize lib client cluster machine)
  unfolding initialize reconcile_top_level_object_settings
  initialize-Only cluster machine =
      search
        (
          action_rules, certificates_of-Only, lookup_token-Only, control_plane_files-Only,
          store_bootstrap_data-Only,
        )
        depth 14
