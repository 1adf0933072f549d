-- ===== src/Cloudinit.antt =====
-- pkg/cloudinit: the cloud-init documents that a machine boots with. The engine of the templates is a
-- parameter; the data that they are filled with, and the text that names the version of k3s, are here.
use cluster_api_k3s.Prelude.{String, Bool, List, [], ◌∷◌, ◌++◌, if◌then◌else◌, ◌==◌}
use cluster_api_k3s.Prelude.Exec.{Outcome, ok, err}
use cluster_api_k3s.Api.{Error, File}
use cluster_api_k3s.K3sConfig.Ciphers.{concat}
use cluster_api_k3s.Secrets.Certificates.{Certificate, as_files}

pub record BaseUserData : Type 0 where
  pub header : String
  pub pre_k3s_commands : List String
  pub post_k3s_commands : List String
  pub additional_files : List File
  pub write_files : List File
  pub config_file : File
  pub k3s_version : String
  pub air_gapped : Bool
  pub air_gapped_install_script_path : String
  pub sentinel_file_command : String

abbrev pub cloud_config_header : String
cloud_config_header = "## template: jinja\n#cloud-config\n"

abbrev pub default_air_gapped_install_script_path : String
default_air_gapped_install_script_path = "/opt/install.sh"

abbrev pub sentinel_file_command : String
sentinel_file_command =
    "mkdir -p /run/cluster-api && echo success > /run/cluster-api/bootstrap-success.complete"

unfoldable pub prepare : BaseUserData → BaseUserData
prepare input = record input {
  header = cloud_config_header;
  write_files = (input.write_files ++ input.additional_files) ++ input.config_file ∷ [];
  air_gapped_install_script_path =
      if input.air_gapped_install_script_path == ""
      then default_air_gapped_install_script_path
      else input.air_gapped_install_script_path;
  sentinel_file_command = sentinel_file_command;
}

-- fmt.Sprintf of controlPlaneCloudInit and of workerCloudInit, whose one verb is the version
unfoldable pub control_plane_cloud_init : String → String
control_plane_cloud_init version =
    concat
      "{{.Header}}\n{{template \"files\" .WriteFiles}}\nruncmd:\n{{- template \"commands\" .PreK3sCommands }}\n  - {{ if .AirGapped }} INSTALL_K3S_SKIP_DOWNLOAD=true INSTALL_K3S_EXEC='server' sh {{ .AirGappedInstallScriptPath }} {{ else }} curl -sfL https://get.k3s.io | INSTALL_K3S_VERSION="
      (concat version
        " sh -s - server {{ end }} && {{ .SentinelFileCommand }}\n{{- template \"commands\" .PostK3sCommands }}\n")

unfoldable pub worker_cloud_init : String → String
worker_cloud_init version =
    concat
      "{{.Header}}\n{{template \"files\" .WriteFiles}}\nruncmd:\n{{- template \"commands\" .PreK3sCommands }}\n  - {{ if .AirGapped }} INSTALL_K3S_SKIP_DOWNLOAD=true INSTALL_K3S_EXEC='agent' sh {{ .AirGappedInstallScriptPath }}{{ else }} curl -sfL https://get.k3s.io |  INSTALL_K3S_VERSION="
      (concat version
        " sh -s - agent {{ end }} && {{ .SentinelFileCommand }}\n{{- template \"commands\" .PostK3sCommands }}\n")

-- text/template, with the templates for files and commands: of the document's kind, its template and
-- the data
abbrev pub Engine : Type 0
Engine = String → String → BaseUserData → Outcome Error String

module _ (generate : Engine) where
  unfoldable pub with_certificates : BaseUserData → Outcome Error (List File) → Outcome Error String
  unfolding prepare control_plane_cloud_init
  with_certificates input (err e) = err e
  with_certificates input (ok files) =
      generate "InitControlplane" (control_plane_cloud_init input.k3s_version)
        (prepare (record input { write_files = files }))

  unfoldable pub new_init_control_plane : BaseUserData → List Certificate → Outcome Error String
  unfolding with_certificates as_files
  new_init_control_plane input certificates = with_certificates input (as_files certificates)

  unfoldable pub new_join_control_plane : BaseUserData → Outcome Error String
  unfolding prepare control_plane_cloud_init
  new_join_control_plane input =
      generate "JoinControlplane" (control_plane_cloud_init input.k3s_version) (prepare input)

  unfoldable pub new_worker : BaseUserData → Outcome Error String
  unfolding prepare worker_cloud_init
  new_worker input = generate "Worker" (worker_cloud_init input.k3s_version) (prepare input)
