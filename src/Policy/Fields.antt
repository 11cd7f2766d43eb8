-- ===== src/Policy/Fields.antt =====
-- policy/engine.go, `nodeFields`: how each field of a node is treated.
use antimony_backend.Base.{nat_eq, string_eq, Map, String, [], ◌∷◌}
use antimony_backend.Policy.Rules.{
  Impact, RuleId, deploy, shell, unreviewed, unreviewed_field, env_files, privileges,
  host_namespace, kernel_settings, runtime, host_ports, volumes, static_mgmt_address,
}

pub data NodeField : Type 0 where
  allowed : NodeField
  denied : RuleId → Impact → String → NodeField

abbrev pub node_fields : Map String NodeField
node_fields =
    ("group", allowed)
    ∷ ("type", allowed)
    ∷ ("startup-delay", allowed)
    ∷ ("enforce-startup-config", allowed)
    ∷ ("suppress-startup-config", allowed)
    ∷ ("auto-remove", allowed)
    ∷ ("restart-policy", allowed)
    ∷ ("config", allowed)
    ∷ ("image-pull-policy", allowed)
    ∷ ("position", allowed)
    ∷ ("hostname", allowed)
    ∷ ("entrypoint", allowed)
    ∷ ("cmd", allowed)
    ∷ ("exec", allowed)
    ∷ ("env", allowed)
    ∷ ("user", allowed)
    ∷ ("labels", allowed)
    ∷ ("dns", allowed)
    ∷ ("aliases", allowed)
    ∷ ("healthcheck", allowed)
    ∷ ("link-apply-mode", allowed)
    ∷ ("credentials", allowed)
    ∷ ("certificate", allowed)
    ∷ ("cpu", allowed)
    ∷ ("cpu-set", allowed)
    ∷ ("memory", allowed)
    ∷ ("shm-size", allowed)
    ∷ ("tmpfs", allowed)
    ∷ ("kind", allowed)
    ∷ ("image", allowed)
    ∷ ("privileged", allowed)
    ∷ ("stages", allowed)
    ∷ ("binds", allowed)
    ∷ ("startup-config", allowed)
    ∷ ("license", allowed)
    ∷ (
      "env-files",
      denied env_files deploy
          "env files are read on the server and can expand its environment variables",
    )
    ∷ (
      "network-mode",
      denied host_namespace shell "shares a network namespace with the server or another container",
    )
    ∷ (
      "pid-mode",
      denied host_namespace shell "shares a process namespace with the server or another container",
    )
    ∷ ("cgroupns-mode", denied host_namespace shell "shares the cgroup namespace with the server")
    ∷ ("cgroup-parent", denied host_namespace deploy "places the node in a cgroup of the server")
    ∷ ("cap-add", denied privileges shell "grants additional Linux capabilities")
    ∷ ("devices", denied privileges shell "gives the node access to devices of the server")
    ∷ ("security-opts", denied privileges shell "changes the node's security profile")
    ∷ ("sysctls", denied kernel_settings deploy "changes kernel settings")
    ∷ ("runtime", denied runtime deploy "selects the container runtime")
    ∷ ("ports", denied host_ports deploy "publishes ports on the server")
    ∷ ("volumes", denied volumes shell "mounts container volumes, which other labs can share")
    ∷ (
      "mgmt-ipv4",
      denied static_mgmt_address shell "static management addresses can take another lab's address",
    )
    ∷ (
      "mgmt-ipv6",
      denied static_mgmt_address shell "static management addresses can take another lab's address",
    )
    ∷ (
      "extras",
      denied unreviewed_field unreviewed "kind-specific extras can reference files on the server",
    )
    ∷ ("components", denied unreviewed_field unreviewed "node components are not reviewed")
    ∷ []
