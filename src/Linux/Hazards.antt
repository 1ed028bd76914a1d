-- ===== src/Linux/Hazards.antt =====
-- apps/frontend/src/services/linuxGraphAdapter.ts: `computeRiskFindings`.
use identity_access_graph.Prelude.{
  ℕ, String, Bool, true, false, List, [], ◌∷◌, ◌++◌, Option, none, some, ◌==◌, string_eq, ◌&&◌,
  ◌||◌, if◌then◌else◌, length, ltb, ◌+s◌, decimal, Object, get, truthy,
}
use identity_access_graph.Linux.Graph.{
  GraphData, GraphNode, of_type, or_text, or_value, get_node_by_id, get_links_by_node_id,
}
use identity_access_graph.Linux.Host.{environment_of}
use identity_access_graph.Linux.Policies.{
  Clock, SudoPolicyAccess, SshKeyAccess, find_sudo_policies_for_host, find_ssh_keys_for_user,
}
use identity_access_graph.Linux.Users.{LinuxUserAccess, LinuxGroupAccess, get_linux_users_for_host}
use identity_access_graph.Linux.Directory.{
  ServiceAccountAccess, get_ad_users_for_host, get_service_accounts_for_host,
}

pub data Severity : Type 0 where
  low medium high critical : Severity

pub record LinuxRiskFinding : Type 0 where
  pub type : String
  pub severity : Severity
  pub title : String
  pub description : String
  pub related_nodes : List String

abbrev pub finding : String → Severity → String → String → String → LinuxRiskFinding
finding type severity title description node = record {
  type = type;
  severity = severity;
  title = title;
  description = description;
  related_nodes = node ∷ [];
}

-- `for (const x of xs) if (...) findings.push(...)`.
abbrev pub findings_of {ℓ} :
    {A : Type ℓ} → (A → List LinuxRiskFinding) → List A → List LinuxRiskFinding
findings_of f [] = []
findings_of f (x ∷ xs) = f x ++ findings_of f xs

abbrev pub found_if : Bool → LinuxRiskFinding → List LinuxRiskFinding
found_if true f = f ∷ []
found_if false f = []

abbrev pub access_word : LinuxUserAccess → String
access_word u = if u.sudo_access then "sudo" else "SSH"

unfoldable pub disabled_user_finding : LinuxUserAccess → List LinuxRiskFinding
disabled_user_finding u = found_if (or_value u.locked false && (u.sudo_access || u.ssh_access)) (
    finding "disabled_user_linux_access" high "Disabled user with Linux access"
      ("Linux user \""
        +s u.display_name
        +s "\" is locked but still has "
        +s access_word u
        +s " access to this host.")
      u.id)

abbrev pub is_none {ℓ} : {A : Type ℓ} → List A → Bool
is_none [] = true
is_none (x ∷ xs) = false

unfoldable pub orphan_finding : GraphData → GraphNode → List LinuxRiskFinding
orphan_finding g n = found_if (of_type "LINUX_USER" n && is_none (get_links_by_node_id g n.id)) (
    finding "orphaned_linux_account" medium "Orphaned Linux account"
      ("Linux user \"" +s n.display_name +s "\" has no relationships in the graph.") n.id)

unfoldable pub unused_key_finding : LinuxUserAccess → SshKeyAccess → List LinuxRiskFinding
unused_key_finding u k = found_if k.unused (
    finding "unused_ssh_key" medium "Unused SSH key"
      ("SSH key \""
        +s k.display_name
        +s "\" owned by "
        +s u.display_name
        +s " has not been used since "
        +s or_text k.last_used "unknown"
        +s ".")
      k.id)

unfoldable pub shared_group_finding : LinuxGroupAccess → List LinuxRiskFinding
shared_group_finding h = found_if (h.sudo_access && ltb 1 h.member_count) (
    finding "shared_privileged_account" high "Shared privileged account"
      ("Linux group \""
        +s h.display_name
        +s "\" has sudo access and "
        +s decimal h.member_count
        +s " members, creating a shared privilege risk.")
      h.id)

unfoldable pub policy_findings : SudoPolicyAccess → List LinuxRiskFinding
policy_findings p =
    found_if p.is_wildcard (
      finding "wildcard_sudo_rule" critical "Wildcard sudo rule"
        ("Sudo policy \""
          +s p.display_name
          +s "\" grants ALL commands on "
          +s decimal (length p.host_ids)
          +s " host(s).")
        p.id)
    ++ (found_if (p.nopasswd && p.is_wildcard) (
          finding "high_risk_sudo_policy" critical "High-risk sudo policy"
            ("Sudo policy \"" +s p.display_name
              +s "\" allows passwordless execution of ALL commands.")
            p.id)
        ++ found_if p.is_direct_root (
            finding "direct_root_access" critical "Direct root access"
              ("Sudo policy \"" +s p.display_name
                +s "\" allows direct root access via ALL commands.")
              p.id))

abbrev pub host_environment : Option GraphNode → String
host_environment none = ""
host_environment (some n) = environment_of n

unfoldable pub production_finding : String → String → ℕ → ℕ → List LinuxRiskFinding
production_finding env host linux ad = found_if (env == "Production") (
    finding "production_host_access" high "Production host access"
      ("This host is a Production system. "
        +s decimal linux
        +s " Linux user(s) and "
        +s decimal ad
        +s " AD user(s) have access.")
      host)

abbrev pub links_ad_user : Option Object → Bool
links_ad_user none = false
links_ad_user (some m) = truthy (get m "adUserId")

unfoldable pub cross_system_finding : LinuxUserAccess → List LinuxRiskFinding
cross_system_finding u = found_if (links_ad_user u.metadata) (
    finding "cross_system_linux_privilege" medium "Cross-system identity with Linux privilege"
      ("Linux user \""
        +s u.display_name
        +s "\" is linked to AD user and has "
        +s access_word u
        +s " access.")
      u.id)

unfoldable pub shell_finding : ServiceAccountAccess → List LinuxRiskFinding
shell_finding a = found_if a.interactive_shell (
    finding "svc_account_interactive_shell" high "Service account with interactive shell access"
      ("Service account \"" +s a.display_name +s "\" appears to have an interactive shell.") a.id)

module _ (c : Clock) where
  -- The findings, in the order of the code's loops, and the graph as the two calls of
  -- `getLinuxUsersForHost` leave it.
  unfoldable pub compute_risk_findings : GraphData → String → List LinuxRiskFinding × GraphData
  compute_risk_findings g host =
      let linux = get_linux_users_for_host g host in
      let users = (linux.0).users in
      let g1 = linux.1 in
      let policies = find_sudo_policies_for_host g1 host in
      let ad = get_ad_users_for_host g1 host in
      let services = get_service_accounts_for_host g1 host in
      let again = get_linux_users_for_host g1 host in
      let g2 = again.1 in
      (
        findings_of disabled_user_finding users
            ++ (findings_of (orphan_finding g1) g1.nodes
                ++ (findings_of
                      (λ (u : LinuxUserAccess).
                        findings_of (unused_key_finding u) (find_ssh_keys_for_user c g1 u.id))
                      users
                    ++ (findings_of shared_group_finding (again.0).groups
                        ++ (findings_of policy_findings policies
                            ++ (production_finding (host_environment (get_node_by_id g2 host)) host
                                  (length users) (length ad)
                                ++ (findings_of cross_system_finding users
                                    ++ findings_of shell_finding services)))))),
        g2,
      )
