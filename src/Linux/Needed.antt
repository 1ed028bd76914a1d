-- ===== src/Linux/Needed.antt =====
-- What a host of apps/frontend/src/services/linuxGraphAdapter.ts depends on and what depends on it,
-- described by nodes and links alone.
use identity_access_graph.Prelude.{
  String, Bool, true, false, not, [], Option, none, some, ◌==◌, string_eq, ◌&&◌, ◌||◌, any,
  includes, if◌then◌else◌,
}
use identity_access_graph.Linux.Graph.{
  GraphData, GraphNode, GraphLink, get_node_by_id, or_value, is_text, is_id, end_id,
}
use identity_access_graph.Linux.Host.{get_host_site, environment_of, get_environment}
use identity_access_graph.Linux.Granted.{granted}

abbrev pub is_missing : Option String → Bool
is_missing none = true
is_missing (some o) = false

-- The node, if there is one, has the type and the id.
abbrev pub is_typed : String → Option GraphNode → String → Bool
is_typed type none i = false
is_typed type (some n) i = n.node_type == type && n.id == i

abbrev pub has_name : Option GraphNode → String → Bool
has_name none name = false
has_name (some n) name = n.display_name == name

abbrev pub has_typed_name : String → Option GraphNode → String → Bool
has_typed_name type none name = false
has_typed_name type (some n) name = n.node_type == type && n.display_name == name

module _ (g : GraphData) where
  abbrev pub has_node : String → Bool
  has_node i = any (λ (n : GraphNode). n.id == i) g.nodes

  -- `m` is the id `i`, and a node.
  abbrev pub is_present : String → String → Bool
  is_present m i = (m == i) && has_node i

  -- The key names the member as its owner; where the member is no node, it names no owner.
  abbrev pub is_key_of : String → GraphNode → Bool
  is_key_of m k =
      k.node_type == "SSH_KEY"
      && (if has_node m then is_text k.properties.owner_id m else is_missing k.properties.owner_id)

  -- A member of a group, or a key of the member.
  abbrev pub through_member : String → String → Bool
  through_member m i = is_present m i || any (λ (k : GraphNode). is_key_of m k && k.id == i) g.nodes

  -- A group, or what is reached through the source of a MEMBER_OF link to it.
  abbrev pub through_group : String → String → Bool
  through_group h i =
      is_present h i
      || any
          (λ (l : GraphLink).
            (l.relationship_type == "MEMBER_OF" && is_id l.target h)
            && through_member (end_id l.source) i)
          g.links

  module _ (host : String) where
    -- Through a group that some sudo policy on the host grants.
    abbrev pub through_policy : String → Bool
    through_policy i =
        any
          (λ (p : GraphNode).
            p.node_type == "SUDO_POLICY"
            && (includes (or_value p.properties.host_ids []) host
                && any (λ h. through_group h i) (granted g p)))
          g.nodes

    -- A user that Active Directory lets in.
    abbrev pub through_login : String → Bool
    through_login i =
        any
          (λ (l : GraphLink).
            (l.relationship_type == "AUTHENTICATES_TO"
              && is_id l.target host
              && (l.source_system == "ACTIVE_DIRECTORY"))
            && is_typed "USER" (get_node_by_id g (end_id l.source)) i)
          g.links

    abbrev pub is_database_here : GraphNode → Bool
    is_database_here n = n.node_type == "DATABASE" && is_text n.properties.host_id host

    -- The link leads to a database of the host.
    abbrev pub connects : GraphLink → Bool
    connects l =
        l.relationship_type == "CONNECTS_TO"
        && any (λ (n : GraphNode). is_database_here n && is_id l.target n.id) g.nodes

    -- The name of an application that a link leads from to a database of the host.
    abbrev pub is_application : String → Bool
    is_application name =
        any
          (λ (l : GraphLink).
            connects l && has_typed_name "APPLICATION" (get_node_by_id g (end_id l.source)) name)
          g.links

    -- The name of what the source of such a link is part of.
    abbrev pub is_service : String → Bool
    is_service name =
        any
          (λ (l : GraphLink).
            connects l
            && any
                (λ (k : GraphLink).
                  (k.relationship_type == "PART_OF" && is_id k.source (end_id l.source))
                  && has_name (get_node_by_id g (end_id k.target)) name)
                g.links)
          g.links

    -- Another host, at the same site and in the same environment.
    abbrev pub is_beside : GraphNode → Bool
    is_beside n =
        (n.node_type == "HOST" || n.node_type == "COMPUTER")
        && not (n.id == host)
        && (get_host_site g n.id == get_host_site g host)
        && (environment_of n == get_environment g host)

    abbrev pub is_dependency : String → Bool
    is_dependency i =
        through_policy i
        || (through_login i
            || (any (λ (n : GraphNode). is_database_here n && n.id == i) g.nodes
                || (any (λ (n : GraphNode). is_service n.display_name && n.id == i) g.nodes
                    || (any (λ (n : GraphNode). is_application n.display_name && n.id == i) g.nodes
                        || any (λ (n : GraphNode). is_beside n && n.id == i) g.nodes))))
