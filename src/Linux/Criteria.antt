-- ===== src/Linux/Criteria.antt =====
-- The criteria of `getLinuxHostsByFilter` (apps/frontend/src/services/linuxGraphAdapter.ts), each as
-- a test of one row, and the filters of the code in a row as one filter.
use identity_access_graph.Prelude.{
  String, Bool, true, false, List, [], ◌∷◌, Option, none, some, ◌≡◌, refl, sym, ap, ◌∙◌,
  if◌then◌else◌, ◌&&◌, filter, filter-filter, filter-true, all, ◌==◌, string_eq,
}
use identity_access_graph.Linux.Graph.{GraphData, is_text}
use identity_access_graph.Linux.Host.{LinuxHostSummary}
use identity_access_graph.Linux.Policies.{Clock}
use identity_access_graph.Linux.Detail.{LinuxHostDetail}
use identity_access_graph.Linux.Filtering.{
  LinuxHostFilters, Hosts, filter_listed, filter_answered, filter_summaries, filter_search,
  mentions, detail_has, in_environment, runs_system, from_source, at_risk, some_ssh, no_ssh,
  some_sudo, no_sudo, some_of_both, none_of_both,
}
use identity_access_graph.Linux.Pure.{detail_in}

-- One criterion of the filters at a time, as a test of a row.
abbrev pub listed :
    Option (List String) → (List String → LinuxHostSummary → Bool) → LinuxHostSummary → Bool
listed none test h = true
listed (some []) test h = true
listed (some (w ∷ ws)) test h = test (w ∷ ws) h

abbrev pub answered :
    Option String → (LinuxHostSummary → Bool) → (LinuxHostSummary → Bool) → LinuxHostSummary → Bool
answered none on_yes on_no h = true
answered (some f) on_yes on_no h =
    if f == "yes" then on_yes h else if f == "no" then on_no h else true

abbrev pub searched : (String → String) → Option String → LinuxHostSummary → Bool
searched lower none h = true
searched lower (some s) h = if s == "" then true else mentions lower (lower s) h

abbrev pub criteria_on_row : LinuxHostFilters → List (LinuxHostSummary → Bool)
criteria_on_row f =
    listed f.environment in_environment
    ∷ listed f.operating_system runs_system
    ∷ listed f.source_system from_source
    ∷ listed f.risk_level at_risk
    ∷ answered f.ssh_access some_ssh no_ssh
    ∷ answered f.sudo_access some_sudo no_sudo
    ∷ answered f.privileged_access some_of_both none_of_both
    ∷ []

module _ (c : Clock) (g : GraphData) where
  abbrev pub on_detail : Option String → (LinuxHostDetail → List String) → LinuxHostSummary → Bool
  on_detail wanted items h =
      if is_text wanted "yes" then detail_has items (detail_in c g h.id) else true

-- A row is to be shown when it meets all ten.
abbrev pub meets :
    Clock → (String → String) → GraphData → LinuxHostFilters → LinuxHostSummary → Bool
meets c lower g f h =
    all (λ p. p h) (criteria_on_row f)
    && (on_detail c g f.has_application (λ d. d.applications) h
        && (on_detail c g f.has_database (λ d. d.databases) h && searched lower f.search h))

if_filter :
    (b : Bool) (p q : LinuxHostSummary → Bool) (hs ks ls : Hosts)
    → ks ≡ filter p hs
    → ls ≡ filter q hs
    → (if b then ks else ls) ≡ filter (λ h. if b then p h else q h) hs
if_filter true p q hs ks ls e k = e
if_filter false p q hs ks ls e k = k

filter_listed-filter :
    (w : Option (List String)) (test : List String → LinuxHostSummary → Bool) (hs : Hosts)
    → filter_listed w test hs ≡ filter (listed w test) hs
filter_listed-filter none test hs = sym (filter-true hs)
filter_listed-filter (some []) test hs = sym (filter-true hs)
filter_listed-filter (some (w ∷ ws)) test hs = refl

filter_answered-filter :
    (w : Option String) (on_yes on_no : LinuxHostSummary → Bool) (hs : Hosts)
    → filter_answered w on_yes on_no hs ≡ filter (answered w on_yes on_no) hs
filter_answered-filter none on_yes on_no hs = sym (filter-true hs)
filter_answered-filter (some f) on_yes on_no hs =
    if_filter (f == "yes") on_yes (λ h. if f == "no" then on_no h else true) hs _ _ refl
      (if_filter (f == "no") on_no (λ _. true) hs _ _ refl (sym (filter-true hs)))

pub filter_search-filter :
    (lower : String → String) (s : Option String) (hs : Hosts)
    → filter_search lower s hs ≡ filter (searched lower s) hs
unfolding filter_search
filter_search-filter lower none hs = sym (filter-true hs)
filter_search-filter lower (some s) hs =
    if_filter (s == "") (λ _. true) (mentions lower (lower s)) hs _ _ (sym (filter-true hs)) refl

-- Filters one after the other.
abbrev in_turn : List (LinuxHostSummary → Bool) → Hosts → Hosts
in_turn [] hs = hs
in_turn (p ∷ ps) hs = in_turn ps (filter p hs)

in_turn-filter :
    (ps : List (LinuxHostSummary → Bool)) (hs : Hosts)
    → in_turn ps hs ≡ filter (λ h. all (λ p. p h) ps) hs
in_turn-filter [] hs = sym (filter-true hs)
in_turn-filter (p ∷ ps) hs = in_turn-filter ps (filter p hs) ∙ filter-filter p _ hs

pub filter_summaries-filter :
    (f : LinuxHostFilters) (hs : Hosts)
    → filter_summaries f hs ≡ filter (λ h. all (λ p. p h) (criteria_on_row f)) hs
unfolding filter_summaries
filter_summaries-filter f hs =
    let e1 = filter_listed-filter f.environment in_environment hs in
    let e2 = filter_listed-filter f.operating_system runs_system _ ∙ ap (filter _) e1 in
    let e3 = filter_listed-filter f.source_system from_source _ ∙ ap (filter _) e2 in
    let e4 = filter_listed-filter f.risk_level at_risk _ ∙ ap (filter _) e3 in
    let e5 = filter_answered-filter f.ssh_access some_ssh no_ssh _ ∙ ap (filter _) e4 in
    let e6 = filter_answered-filter f.sudo_access some_sudo no_sudo _ ∙ ap (filter _) e5 in
    filter_answered-filter f.privileged_access some_of_both none_of_both _
    ∙ (ap (filter _) e6 ∙ in_turn-filter (criteria_on_row f) hs)

pub four_filters :
    (p q r s : LinuxHostSummary → Bool) (hs : Hosts)
    → filter s (filter r (filter q (filter p hs))) ≡ filter (λ h. p h && (q h && (r h && s h))) hs
four_filters p q r s hs =
    filter-filter r s _ ∙ (filter-filter q _ (filter p hs) ∙ filter-filter p _ hs)
