-- ===== src/Policy/Rules.antt =====
-- policy/policy.go: the rules, what a finding is, and the options.
use antimony_backend.Base.{nat_eq, string_eq, String, List}
use antimony_backend.Policy.Text.{Text}

pub data Impact : Type 0 where
  deploy shell unreviewed : Impact

-- The values that the frontend reads.
unfoldable pub impact_value : Impact → String
impact_value deploy = "deploy"
impact_value shell = "shell"
impact_value unreviewed = "unreviewed"

pub data RuleId : Type 0 where
  netlab unreviewed_field go_template env_expansion mgmt prefix settings env_files host_kind
        image_not_allowed privileged privileges host_namespace kernel_settings runtime host_ports
        volumes static_mgmt_address host_exec remote_file foreign_file host_link :
      RuleId

unfoldable pub rule_value : RuleId → String
rule_value netlab = "netlab"
rule_value unreviewed_field = "unreviewed-field"
rule_value go_template = "go-template"
rule_value env_expansion = "env-expansion"
rule_value mgmt = "mgmt"
rule_value prefix = "prefix"
rule_value settings = "settings"
rule_value env_files = "env-files"
rule_value host_kind = "host-kind"
rule_value image_not_allowed = "image-not-allowed"
rule_value privileged = "privileged"
rule_value privileges = "privileges"
rule_value host_namespace = "host-namespace"
rule_value kernel_settings = "kernel-settings"
rule_value runtime = "runtime"
rule_value host_ports = "host-ports"
rule_value volumes = "volumes"
rule_value static_mgmt_address = "static-mgmt-address"
rule_value host_exec = "host-exec"
rule_value remote_file = "remote-file"
rule_value foreign_file = "foreign-file"
rule_value host_link = "host-link"

pub record Finding : Type 0 where
  pub rule_id : RuleId
  pub impact : Impact
  pub path : String
  pub message : String

pub record Options : Type 0 where
  pub allowed_image_prefixes : List Text
