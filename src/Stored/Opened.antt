-- ===== src/Stored/Opened.antt =====
-- About frontend/src/app/workspaceAgentNavigation.ts: the agent that is opened for a workspace.
use acp_webui.Common.{
  String, Bool, true, false, ◌&&◌, ◌||◌, Option, none, some, List, [], ◌∷◌, find, any, ◌≡◌, refl,
  sym, ap, ◌∙◌, ◌==◌, eq_refl, is_empty, is_some, some_inj, Bool-cases, Option-cases, inl, inr,
}
use acp_webui.Types.{AgentRuntimeStatus}
use acp_webui.Stored.Objects.{Codec, Storage, put}
use acp_webui.Stored.Navigation.{
  id_of, is_available_workspace_agent, read_remembered_workspace_agent_id, remember_workspace_agent,
  if_available, or_first_available, remembered_agent, resolve_workspace_agent_id, state_json,
}
use acp_webui.Stored.Remembered.{map_read, read-remember_workspace_agent}

abbrev pub is_id? : Option String → String → Bool
is_id? none id = false
is_id? (some k) id = k == id

-- Whether an agent is available and has the id that is opened.
unfoldable pub is_opened : Option String → AgentRuntimeStatus → Bool
unfolding is_available_workspace_agent
is_opened opened agent = is_available_workspace_agent agent && is_id? opened agent.id

-- An agent that is found and available.
found_available :
    (id : String) (agents : List AgentRuntimeStatus) (agent : AgentRuntimeStatus)
    → find (λ a. a.id == id) agents ≡ some agent
    → is_available_workspace_agent agent ≡ true
    → (any is_available_workspace_agent agents ≡ true)
      × (any (is_opened (some agent.id)) agents ≡ true)
found_available id [] agent found available = cc
found_available id (a ∷ agents) agent found available = elim (Bool-cases (a.id == id)) [
  | inl same ↦
      let e : a ≡ agent = some_inj (rw same at found) in
      let ok : is_available_workspace_agent a ≡ true =
        ap is_available_workspace_agent e ∙ available in
      let own : (agent.id == a.id) ≡ true = rw (ap (λ x. x.id) e) (eq_refl agent.id) in
      (rw ok refl, (unfold is_opened in rw (ok, own) refl))
  | inr other ↦
      let (first, second) = found_available id agents agent (rw other at found) available in
      (
        or_true (is_available_workspace_agent a) (any is_available_workspace_agent agents) first,
        or_true (is_opened (some agent.id) a) (any (is_opened (some agent.id)) agents) second,
      )
]
  where
    or_true : (a b : Bool) → b ≡ true → (a || b) ≡ true
    or_true true b h = refl
    or_true false b h = h

-- What `remembered_agent` finds is in the list and available.
remembered_is_available :
    (o : Option String) (agents : List AgentRuntimeStatus) (agent : AgentRuntimeStatus)
    → remembered_agent o agents ≡ some agent
    → (any is_available_workspace_agent agents ≡ true)
      × (any (is_opened (some agent.id)) agents ≡ true)
unfolding remembered_agent if_available
remembered_is_available none agents agent h = cc
remembered_is_available (some id) agents agent h = elim (Bool-cases (is_empty id)) [
  | inl blank ↦ let missing : none ≡ some agent = rw blank at h in cc
  | inr named ↦ elim (Option-cases (find (λ a. a.id == id) agents)) [
    | inl absent ↦ let missing : none ≡ some agent = rw (named, absent) at h in cc
    | inr (found, there) ↦ elim (Bool-cases (is_available_workspace_agent found)) [
      | inl available ↦
          let e : some found ≡ some agent = rw (named, there, available) at h in
          found_available id agents agent (there ∙ e)
            (ap is_available_workspace_agent (sym (some_inj e)) ∙ available)
      | inr disabled ↦ let missing : none ≡ some agent = rw (named, there, disabled) at h in cc
    ]
  ]
]

no_id : (agents : List AgentRuntimeStatus) → any (is_opened none) agents ≡ false
no_id [] = refl
no_id (a ∷ agents) =
    let not_this : is_opened none a ≡ false =
      unfold is_opened in
      elim (Bool-cases (is_available_workspace_agent a)) [
        | inl available ↦ rw available refl
        | inr disabled ↦ rw disabled refl
      ] in
    rw not_this (no_id agents)

first_available :
    (agents : List AgentRuntimeStatus)
    → (is_some (id_of (find is_available_workspace_agent agents))
        ≡ any is_available_workspace_agent agents)
      × (any (is_opened (id_of (find is_available_workspace_agent agents))) agents
          ≡ any is_available_workspace_agent agents)
first_available [] = (refl, refl)
first_available (a ∷ agents) = elim (Bool-cases (is_available_workspace_agent a)) [
  | inl available ↦
      let this : is_opened (some a.id) a ≡ true = unfold is_opened in rw available (eq_refl a.id) in
      let now : find is_available_workspace_agent (a ∷ agents) ≡ some a = rw available refl in
      (
        rw available refl,
        ap (λ o. any (is_opened (id_of o)) (a ∷ agents)) now ∙ rw (this, available) refl,
      )
  | inr disabled ↦
      let not_this : is_opened (id_of (find is_available_workspace_agent agents)) a ≡ false =
        unfold is_opened in rw disabled refl in
      let later : find is_available_workspace_agent (a ∷ agents)
          ≡ find is_available_workspace_agent agents =
        rw disabled refl in
      let (is_there, opened) = first_available agents in
      (
        ap (λ o. is_some (id_of o)) later ∙ rw disabled is_there,
        ap (λ o. any (is_opened (id_of o)) (a ∷ agents)) later ∙ rw (not_this, disabled) opened,
      )
]

-- An agent is opened for a workspace exactly if one is available, and then it is one of those.
pub resolve_workspace_agent_id_lem :
    (c : Codec) (workspace_id : String) (agents : List AgentRuntimeStatus) (storage : Storage)
    → is_empty workspace_id ≡ false
    → (is_some (resolve_workspace_agent_id c (some workspace_id) agents storage)
        ≡ any is_available_workspace_agent agents)
      × (any (is_opened (resolve_workspace_agent_id c (some workspace_id) agents storage)) agents
          ≡ any is_available_workspace_agent agents)
unfolding resolve_workspace_agent_id or_first_available
resolve_workspace_agent_id_lem c workspace_id agents storage named =
    let remembered = read_remembered_workspace_agent_id c workspace_id storage in
    elim (Option-cases (remembered_agent remembered agents)) [
      | inl absent ↦ rw (named, absent) (first_available agents)
      | inr (agent, there) ↦
          let (some_available, own) = remembered_is_available remembered agents agent there in
          rw (named, there, some_available) (refl, own)
    ]

-- The agent that is remembered for a workspace is the one that is opened there, if it is available
-- and the first with its id, both ids are not empty, and JSON reads the text that it wrote, which
-- is not empty, as the value it wrote.
pub resolve-remember_workspace_agent :
    (c : Codec) (workspace_id : String) (agents : List AgentRuntimeStatus) (storage : Storage)
    (agent : AgentRuntimeStatus) (id : String)
    → is_empty workspace_id ≡ false
    → is_empty id ≡ false
    → find (λ a. a.id == id) agents ≡ some agent
    → is_available_workspace_agent agent ≡ true
    → c.parse (c.stringify (state_json (put workspace_id id (map_read c storage))))
      ≡ some (state_json (put workspace_id id (map_read c storage)))
    → is_empty (c.stringify (state_json (put workspace_id id (map_read c storage)))) ≡ false
    → resolve_workspace_agent_id c
        (some workspace_id)
        agents
        (remember_workspace_agent c workspace_id id storage).1
      ≡ some agent.id
unfolding resolve_workspace_agent_id or_first_available remembered_agent if_available
resolve-remember_workspace_agent c workspace_id agents storage agent id named ink found available
      faithful written =
    let remembered : read_remembered_workspace_agent_id c workspace_id
          (remember_workspace_agent c workspace_id id storage).1
        ≡ some id =
      read-remember_workspace_agent c storage workspace_id id workspace_id faithful written
      ∙ rw (eq_refl workspace_id, named, ink) refl in
    rw (named, remembered) (rw (ink, found, available) refl)
