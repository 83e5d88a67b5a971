-- ===== src/SessionList/ActivityLaws.antt =====
-- About latestTimestamp of frontend/src/app/sessionList.ts.
use acp_webui.Common.{
  Option, none, some, List, [], ◌∷◌, ◌++◌, String, ℕ, ◌≤◌, ◌≡◌, ◌⊎◌, ◌∙◌, ap, Bool, false, arith,
  All, is_empty, trim, Bool-cases, Option-cases, inl, inr, ◌&&◌, ◌||◌, if◌then◌else◌,
}
use acp_webui.Common.Host.{Host}
use acp_webui.SessionList.Activity.{
  Best, beats, consider, later_than, latest_from, latest_round, latest_timestamp, same_time,
}

-- The time that a value stands for: none if it is null, blank or unreadable.
abbrev pub time_of : Host → Option String → Option ℕ
time_of h none = none
time_of h (some value) = if is_empty (trim value) then none else h.parse_date (trim value)

-- `o` holds a time that is not before `t`.
abbrev pub ReachesTime : ℕ → Option ℕ → Type 0
ReachesTime t o = (u : ℕ) × (o ≡ some u) × (t ≤ u)

module _ (h : Host) where
  -- The best time is that of the best value.
  abbrev IsSound : Best → Type 0
  IsSound b =
      (t : ℕ)
      → b.best_time ≡ some t
      → (r : String) × (b.best_value ≡ some r) × (h.parse_date r ≡ some t)

  abbrev wins : ℕ → String → Best → Bool
  wins time trimmed b =
      later_than time b.best_time || same_time time b.best_time && beats trimmed b.best_value

  consider-keeps :
      (b : Best) (trimmed : String) (t : ℕ)
      → b.best_time ≡ some t
      → ReachesTime t (consider h b trimmed).best_time
  unfolding consider
  consider-keeps b trimmed t e = elim (Option-cases (h.parse_date trimmed)) [
    | inl unreadable ↦ (t, ground arith, ground arith)
    | inr (time, readable) ↦ elim (Bool-cases (wins time trimmed b)) [
      | inl won ↦ (time, ground arith, ground arith)
      | inr lost ↦ (t, ground arith, ground arith)
    ]
  ]

  consider-reaches :
      (b : Best) (trimmed : String) (t : ℕ)
      → h.parse_date trimmed ≡ some t
      → ReachesTime t (consider h b trimmed).best_time
  unfolding consider
  consider-reaches b trimmed t e = elim (Bool-cases (wins t trimmed b)) [
    | inl won ↦ (t, ground arith, ground arith)
    | inr lost ↦ elim (Option-cases b.best_time) [
      | inl never ↦ absurd (ground arith)
      | inr (best, known) ↦ (best, ground arith, ground arith)
    ]
  ]

  consider-IsSound : (b : Best) (trimmed : String) → IsSound b → IsSound (consider h b trimmed)
  unfolding consider
  consider-IsSound b trimmed sound t e = elim (Option-cases (h.parse_date trimmed)) [
    | inl unreadable ↦ elim (Option-cases b.best_value) [
      | inl nothing ↦
          let same : b.best_time ≡ some t = ground arith in
          let (r, known, _) = sound t same in absurd (ground arith)
      | inr (best, known) ↦
          let same : b.best_time ≡ some t = ground arith in
          let (r, found, readable) = sound t same in (r, ground arith, readable)
    ]
    | inr (time, readable) ↦ elim (Bool-cases (wins time trimmed b)) [
      | inl won ↦ (trimmed, ground arith, ground arith)
      | inr lost ↦
          let same : b.best_time ≡ some t = ground arith in
          let (r, found, known) = sound t same in (r, ground arith, known)
    ]
  ]

  latest_round-keeps :
      (b : Best) (value : Option String) (t : ℕ)
      → b.best_time ≡ some t
      → ReachesTime t (latest_round h b value).best_time
  unfolding latest_round
  latest_round-keeps b none t e = (t, e, omega arith)
  latest_round-keeps b (some value) t e = elim (Bool-cases (is_empty (trim value))) [
    | inl blank ↦ rw blank (t, e, omega arith)
    | inr text ↦ rw text (consider-keeps b (trim value) t e)
  ]

  latest_round-reaches :
      (b : Best) (value : Option String) (t : ℕ)
      → time_of h value ≡ some t
      → ReachesTime t (latest_round h b value).best_time
  unfolding latest_round
  latest_round-reaches b none t e = cc
  latest_round-reaches b (some value) t e = elim (Bool-cases (is_empty (trim value))) [
    | inl blank ↦ absurd (ground arith)
    | inr text ↦ rw text (consider-reaches b (trim value) t (ground arith))
  ]

  latest_round-IsSound :
      (b : Best) (value : Option String) → IsSound b → IsSound (latest_round h b value)
  unfolding latest_round
  latest_round-IsSound b none sound = sound
  latest_round-IsSound b (some value) sound = elim (Bool-cases (is_empty (trim value))) [
    | inl blank ↦ rw blank sound
    | inr text ↦ rw text (consider-IsSound b (trim value) sound)
  ]

  ReachesTime-trans : {t u : ℕ} {o : Option ℕ} → t ≤ u → ReachesTime u o → ReachesTime t o
  ReachesTime-trans le (v, e, le') = (v, e, omega arith)

  latest_from-keeps :
      (b : Best) (values : List (Option String)) (t : ℕ)
      → b.best_time ≡ some t
      → ReachesTime t (latest_from h b values).best_time
  unfolding latest_from
  latest_from-keeps b [] t e = (t, e, omega arith)
  latest_from-keeps b (value ∷ values) t e =
      let (u, known, le) = latest_round-keeps b value t e in
      ReachesTime-trans le (latest_from-keeps (latest_round h b value) values u known)

  latest_from-reaches :
      (b : Best) (values : List (Option String))
      → All
          (λ value.
            (t : ℕ) → time_of h value ≡ some t → ReachesTime t (latest_from h b values).best_time)
          values
  unfolding latest_from
  latest_from-reaches b [] = tt
  latest_from-reaches b (value ∷ values) = (
    λ t e.
        let (u, known, le) = latest_round-reaches b value t e in
        ReachesTime-trans le (latest_from-keeps (latest_round h b value) values u known),
    latest_from-reaches (latest_round h b value) values,
  )

  latest_from-IsSound :
      (b : Best) (values : List (Option String)) → IsSound b → IsSound (latest_from h b values)
  unfolding latest_from
  latest_from-IsSound b [] sound = sound
  latest_from-IsSound b (value ∷ values) sound =
      latest_from-IsSound (latest_round h b value) values (latest_round-IsSound b value sound)

  abbrev start : Best
  start = record { best_value = none; best_time = none }

  All-map :
      {P Q : Option String → Type 0} (values : List (Option String))
      → ((value : Option String) → P value → Q value)
      → All P values
      → All Q values
  All-map [] f v = tt
  All-map (value ∷ values) f (p, v) = (f value p, All-map values f v)

  latest_timestamp_bound :
      (values : List (Option String))
      → All
          (λ value.
            (t : ℕ)
            → time_of h value ≡ some t
            → (r : String) × (latest_timestamp h values ≡ some r) × ReachesTime t (h.parse_date r))
          values
  unfolding latest_timestamp
  latest_timestamp_bound values =
      All-map values
        (λ value reaches t e.
          let (u, known, le) = reaches t e in
          let (r, found, readable) = latest_from-IsSound start values (λ _ bad. cc) u known in
          (r, found, (u, readable, le)))
        (latest_from-reaches start values)

  All-at :
      (P : Option String → Type 0) (before : List (Option String)) (value : Option String)
      (later : List (Option String))
      → All P (before ++ value ∷ later)
      → P value
  All-at P [] value later v = v.0
  All-at P (_ ∷ before) value later v = All-at P before value later v.1

  -- The text that latestTimestamp returns has a readable time if one of the values has one, and no
  -- value has a later time.
  pub latest_timestamp_max :
      (before later : List (Option String)) (value : Option String) (t : ℕ)
      → time_of h value ≡ some t
      → (r : String) × (latest_timestamp h (before ++ value ∷ later) ≡ some r)
        × ReachesTime t (h.parse_date r)
  latest_timestamp_max before later value t =
      All-at _ before value later (latest_timestamp_bound (before ++ value ∷ later)) t

  -- `r` is one of the values, trimmed, and not blank.
  abbrev pub IsAmong : String → List (Option String) → Type 0
  IsAmong r [] = ⊥
  IsAmong r (none ∷ values) = IsAmong r values
  IsAmong r (some value ∷ values) = ((r ≡ trim value) × (is_empty r ≡ false)) ⊎ IsAmong r values

  consider-from :
      (b : Best) (trimmed r : String)
      → (consider h b trimmed).best_value ≡ some r
      → (b.best_value ≡ some r) ⊎ (r ≡ trimmed)
  unfolding consider
  consider-from b trimmed r e = elim (Option-cases (h.parse_date trimmed)) [
    | inl unreadable ↦ elim (Option-cases b.best_value) [
      | inl nothing ↦ inr (ground arith)
      | inr (best, known) ↦ inl (ground arith)
    ]
    | inr (time, readable) ↦ elim (Bool-cases (wins time trimmed b)) [
      | inl won ↦ inr (ground arith)
      | inr lost ↦ inl (ground arith)
    ]
  ]

  latest_round-from :
      (b : Best) (value r : String)
      → (latest_round h b (some value)).best_value ≡ some r
      → (b.best_value ≡ some r) ⊎ ((r ≡ trim value) × (is_empty r ≡ false))
  unfolding latest_round
  latest_round-from b value r e = elim (Bool-cases (is_empty (trim value))) [
    | inl blank ↦ inl (ground arith)
    | inr text ↦
        let found : (consider h b (trim value)).best_value ≡ some r = ground arith in
        elim (consider-from b (trim value) r found) [
          | inl early ↦ inl early
          | inr now ↦ inr (now, ap is_empty now ∙ text)
        ]
  ]

  latest_from-IsAmong :
      (b : Best) (values : List (Option String)) (r : String)
      → (latest_from h b values).best_value ≡ some r
      → (b.best_value ≡ some r) ⊎ IsAmong r values
  unfolding latest_from latest_round
  latest_from-IsAmong b [] r e = inl e
  latest_from-IsAmong b (none ∷ values) r e = latest_from-IsAmong b values r e
  latest_from-IsAmong b (some value ∷ values) r e =
      elim (latest_from-IsAmong (latest_round h b (some value)) values r e) [
        | inr later ↦ inr (inr later)
        | inl now ↦ elim (latest_round-from b value r now) [
          | inl early ↦ inl early
          | inr here ↦ inr (inl here)
        ]
      ]

  -- The text that latestTimestamp returns is one of the values, trimmed, and is not blank.
  pub latest_timestamp-IsAmong :
      (values : List (Option String)) {r : String}
      → latest_timestamp h values ≡ some r
      → IsAmong r values
  unfolding latest_timestamp
  latest_timestamp-IsAmong values {r} e = elim (latest_from-IsAmong start values r e) [
    | inl early ↦ absurd (ground arith)
    | inr among ↦ among
  ]
