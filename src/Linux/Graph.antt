-- ===== src/Linux/Graph.antt =====
-- apps/frontend/src/types/graph.ts, as the modelled parts of the frontend read it,
-- and the look-ups of linuxGraphAdapter.ts.
--
-- A property that the adapter casts (`as string`, `as string[]`) has the type of the cast, and is
-- `none` where it is missing. The layout may have put the node in place of the id at an end of a
-- link: of such a node only the id is read.
use identity_access_graph.Prelude.{
  ℕ, String, Bool, true, false, List, [], ◌∷◌, ◌++◌, Option, none, some, Object, ◌==◌, string_eq,
  find, filter, if◌then◌else◌, ◌||◌, not, ◌&&◌,
}
use text.Mathlib.Text.{find?}

pub record Properties : Type 0 where
  pub os_type : Option String
  pub version : Option String
  pub environment : Option String
  pub hostname : Option String
  pub fqdn : Option String
  pub ip_address : Option String
  pub owner : Option String
  pub managed_by : Option String
  pub team : Option String
  pub department_id : Option String
  pub status : Option String
  pub owner_id : Option String
  pub last_used : Option String
  pub algorithm : Option String
  pub fingerprint : Option String
  pub shell : Option String
  pub home_directory : Option String
  pub service_principal_name : Option String
  pub principal_name : Option String
  pub host_id : Option String
  pub ip_addresses : Option (List String)
  pub host_ids : Option (List String)
  pub commands : Option (List String)
  pub group_ids : Option (List String)
  pub run_as_users : Option (List String)
  pub member_ids : Option (List String)
  pub allowed_host_ids : Option (List String)
  pub nopasswd : Option Bool
  pub locked : Option Bool
  pub key_size : Option ℕ
  pub gid : Option ℕ
  pub uid : Option ℕ
  pub metadata : Option Object

pub record GraphNode : Type 0 where
  pub id : String
  pub display_name : String
  pub node_type : String
  pub source_system : String
  pub source_id : Option String
  pub risk_level : String
  pub properties : Properties

pub data LinkEnd : Type 0 where
  by_id by_node : String → LinkEnd

pub record GraphLink : Type 0 where
  pub id : String
  pub source : LinkEnd
  pub target : LinkEnd
  pub relationship_type : String
  pub source_system : String

pub record GraphData : Type 0 where
  pub nodes : List GraphNode
  pub links : List GraphLink

-- `typeof link.source === 'object' ? link.source.id : link.source`.
abbrev pub end_id : LinkEnd → String
end_id (by_id i) = i
end_id (by_node i) = i

-- `link.source === id`: a node is not its id.
abbrev pub is_id : LinkEnd → String → Bool
is_id (by_id i) j = i == j
is_id (by_node i) j = false

-- `a || b` on an optional text, `a || []`, and `a.includes(b)` on texts.
abbrev pub or_text : Option String → String → String
or_text none b = b
or_text (some a) b = if a == "" then b else a

abbrev pub is_set : Option String → Bool
is_set none = false
is_set (some a) = not (a == "")

module _ {ℓ} {A : Type ℓ} where
  abbrev pub or_value : Option A → A → A
  or_value none d = d
  or_value (some a) d = a

abbrev pub has_text : String → String → Bool
has_text s t = elim (find? s t) [ none ↦ false | some _ ↦ true ]

-- `a === b` for an optional text.
abbrev pub is_text : Option String → String → Bool
is_text none b = false
is_text (some a) b = a == b

abbrev pub of_type : String → GraphNode → Bool
of_type t n = n.node_type == t

abbrev pub of_relation : String → GraphLink → Bool
of_relation t l = l.relationship_type == t

module _ (g : GraphData) where
  unfoldable pub get_node_by_id : String → Option GraphNode
  get_node_by_id i = find (λ n. n.id == i) g.nodes

  unfoldable pub get_links_by_node_id : String → List GraphLink
  get_links_by_node_id i = filter (λ l. is_id l.source i || is_id l.target i) g.links

-- Which end of the link the other nodes are at.
pub data Direction : Type 0 where
  at_source at_target : Direction

-- One round of the loop in `findLinkedNodeIds`.
abbrev pub linked_id : String → String → Direction → GraphLink → List String
linked_id node relation at_target l =
    if of_relation relation l && (end_id l.source == node) then end_id l.target ∷ [] else []
linked_id node relation at_source l =
    if of_relation relation l && (end_id l.target == node) then end_id l.source ∷ [] else []

abbrev pub linked_ids : String → String → Direction → List GraphLink → List String
linked_ids node relation side [] = []
linked_ids node relation side (l ∷ ls) =
    linked_id node relation side l ++ linked_ids node relation side ls

module _ (g : GraphData) where
  unfoldable pub find_linked_node_ids : String → String → Direction → List String
  find_linked_node_ids node relation side = linked_ids node relation side g.links
