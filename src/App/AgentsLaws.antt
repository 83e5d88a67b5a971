-- ===== src/App/AgentsLaws.antt =====
-- About updateAgentStatus of frontend/src/App.tsx.
use acp_webui.Common.{
  Option, none, some, List, [], ◌∷◌, ◌++◌, map, String, ◌==◌, ◌≡◌, refl, ◌∙◌, ap, true, arith,
  is_empty, eq_iff, Option-cases, Bool-cases, inl, inr, if◌then◌else◌,
}
use acp_webui.Common.Keyed.Laws.{at_key}
use acp_webui.Types.{AgentRuntimeStatus, ConnectionStatus, PermissionModeId}
use acp_webui.App.Agents.{changed_agent, fallback_mode, update_agent_status}

-- The agent with an id.
abbrev pub agent_of : String → List AgentRuntimeStatus → Option AgentRuntimeStatus
agent_of k agents = at_key (λ agent. agent.id) k agents

-- The agent after the update, whether it was known or not.
abbrev pub updated_agent :
    String
    → ConnectionStatus
    → Option PermissionModeId
    → Option AgentRuntimeStatus
    → AgentRuntimeStatus
updated_agent id now mode none = record {
  id = id;
  provider_id = none;
  title = id;
  enabled = true;
  status = now;
  permission_modes = fallback_mode mode now ∷ [];
  launch_controls = some [];
}
updated_agent id now mode (some agent) = changed_agent now mode agent

changed_agent-id :
    (now : ConnectionStatus) (mode : Option PermissionModeId) (agent : AgentRuntimeStatus)
    → (changed_agent now mode agent).id ≡ agent.id
unfolding changed_agent
changed_agent-id now none agent = refl
changed_agent-id now (some mode) agent = elim (Bool-cases (is_empty mode)) [
  | inl absent ↦ rw absent refl
  | inr named ↦ rw named refl
]

module _ (id : String) (now : ConnectionStatus) (mode : Option PermissionModeId) (k : String) where
  agent_of-map :
      (agents : List AgentRuntimeStatus)
      → agent_of k (map (λ a. if a.id == id then changed_agent now mode a else a) agents) ≡ (
          if id == k
          then elim (agent_of id agents) [ none ↦ none | some a ↦ some (changed_agent now mode a) ]
          else agent_of k agents)
  agent_of-map [] = ground arith
  agent_of-map (a ∷ agents) = ground (
    arith,
    agent_of-map agents,
    changed_agent-id now mode a,
    eq_iff a.id id,
    eq_iff a.id k,
    eq_iff id k,
  )

  agent_of-append :
      (agents : List AgentRuntimeStatus) (new : AgentRuntimeStatus)
      → new.id ≡ id
      → agent_of id agents ≡ none
      → agent_of k (agents ++ new ∷ []) ≡ (if id == k then some new else agent_of k agents)
  agent_of-append [] new e absent = ground (arith, eq_iff new.id k, eq_iff id k)
  agent_of-append (a ∷ agents) new e absent =
      ground (arith, agent_of-append agents new, eq_iff a.id id, eq_iff a.id k, eq_iff id k)

  update_agent_status-new :
      (agents : List AgentRuntimeStatus)
      → agent_of id agents ≡ none
      → update_agent_status agents id now mode ≡ agents ++ updated_agent id now mode none ∷ []
  unfolding update_agent_status
  update_agent_status-new agents absent = rw (absent, update_agent_status) refl

  update_agent_status-known :
      (agents : List AgentRuntimeStatus) (a : AgentRuntimeStatus)
      → agent_of id agents ≡ some a
      → update_agent_status agents id now mode
        ≡ map (λ x. if x.id == id then changed_agent now mode x else x) agents
  unfolding update_agent_status
  update_agent_status-known agents a known = rw (known, update_agent_status) refl

  -- A status of an agent changes the first agent with its id, or adds one if there is none, and
  -- every other agent stays.
  pub agent_of-update_agent_status :
      (agents : List AgentRuntimeStatus)
      → agent_of k (update_agent_status agents id now mode) ≡ (
          if id == k
          then some (updated_agent id now mode (agent_of id agents))
          else agent_of k agents)
  agent_of-update_agent_status agents = elim (Option-cases (agent_of id agents)) [
    | inl absent ↦
        ap (agent_of k) (update_agent_status-new agents absent)
        ∙ agent_of-append agents (updated_agent id now mode none) refl absent
        ∙ rw absent refl
    | inr (a, known) ↦
        ap (agent_of k) (update_agent_status-known agents a known)
        ∙ agent_of-map agents
        ∙ rw known refl
  ]
