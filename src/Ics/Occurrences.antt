-- ===== src/Ics/Occurrences.antt =====
-- Which events one component of a calendar stands for.
use task_scheduler_mcp.Common.{
  Has-append-right, true, eq_iff, Has-append-left, Has-append, str_eq, select-Has, Has-select, not,
  select, ap, map-Has, Has-map, arith, ◌∷◌, [], ◌∙◌, sym, ==_iff, ◌==◌, Bool-cases, ◌∷◌, inl, ◌≢◌,
  inr, All, ◌*◌, Option-cases, ◌⊎◌, Has, ◌-◌, false, ◌+◌, refl, none, some, List, ◌≡◌, Option, ℕ,
}
use task_scheduler_mcp.Ics.{
  all_events, events_of, DtValue, day, naive, aware, Delta, forward, back, Rule, Component,
  CalendarEvent, event, derive_end, expand_rrule, is_excluded, to_aware_datetime, occurrences,
  default_length,
}
use task_scheduler_mcp.Store.{hour}

abbrev pub instant : DtValue → ℕ
instant (day midnight) = midnight
instant (naive wall) = wall
instant (aware utc) = utc

-- The base event ends at its DTEND, else after its DURATION, else after a day or an hour.
abbrev pub end_of : Option DtValue → Option Delta → DtValue → ℕ
end_of (some dtend) duration d = instant dtend
end_of none (some (forward k)) d = instant d + k
end_of none (some (back k)) d = instant d - k
end_of none none (day midnight) = midnight + 24 * hour
end_of none none (naive wall) = wall + hour
end_of none none (aware utc) = utc + hour

-- What a rule that can be read gives between two instants, the dates excepted left out.
abbrev pub IsRepeated : Component → ℕ → ℕ → ℕ → ℕ → Type 0
IsRepeated c start range_start range_end t =
    (rrule : (ℕ → Option Rule)) × (c.rrule ≡ some rrule)
    × (rule : Rule) × (rrule start ≡ some rule)
    × Has t (rule range_start range_end)
    × All (λ (x : DtValue). instant x ≢ t) c.exdates

-- Without a rule, or with one that cannot be read, there is the base event alone.
abbrev pub IsAlone : Component → ℕ → ℕ → Type 0
IsAlone c start t =
    ((c.rrule ≡ none)
      ⊎ ((rrule : (ℕ → Option Rule)) × (c.rrule ≡ some rrule) × (rrule start ≡ none)))
    × (t ≡ start)

-- An occurrence has the texts of its component and the length of its base event.
abbrev pub IsOccurrence : Component → ℕ → ℕ → CalendarEvent → Type 0
IsOccurrence c range_start range_end e =
    (c.name ≡ "VEVENT")
    × (d : DtValue) × (c.dtstart ≡ some d)
    × (t : ℕ) × (IsAlone c (instant d) t ⊎ IsRepeated c (instant d) range_start range_end t)
    × (e ≡ event c t (t + end_of c.dtend c.duration d - instant d))

instant_lem : (d : DtValue) → to_aware_datetime d ≡ instant d
instant_lem (day midnight) = refl
instant_lem (naive wall) = refl
instant_lem (aware utc) = refl

derive_end_lem : (c : Component) (d : DtValue) → derive_end c d ≡ end_of c.dtend c.duration d
unfolding derive_end
derive_end_lem c d = elim (Option-cases c.dtend) [
  | inr (dtend, given) ↦ rw (derive_end, given) (instant_lem dtend)
  | inl none_given ↦ elim (Option-cases c.duration) [
    | inr (forward k, long) ↦ rw (derive_end, none_given, long, instant_lem d) refl
    | inr (back k, long) ↦ rw (derive_end, none_given, long, instant_lem d) refl
    | inl unsaid ↦ rw (derive_end, none_given, unsaid) (default_lem d)
  ]
]
  where
    default_lem : (d : DtValue) → to_aware_datetime d + default_length d ≡ end_of none none d
    default_lem (day midnight) = refl
    default_lem (naive wall) = refl
    default_lem (aware utc) = refl

not_excluded :
    (xs : List DtValue) (t : ℕ) → is_excluded xs t ≡ false → All (λ (x : DtValue). instant x ≢ t) xs
not_excluded [] t h = tt
not_excluded (x ∷ xs) t h = elim (Bool-cases (to_aware_datetime x == t)) [
  | inl hit ↦ absurd (cc (rw hit at h))
  | inr miss ↦ (
    λ same. absurd (cc (miss, (==_iff (to_aware_datetime x) t).1 (instant_lem x ∙ same))),
    not_excluded xs t (rw miss at h),
  )
]

excluded-All :
    (xs : List DtValue) (t : ℕ) → All (λ (x : DtValue). instant x ≢ t) xs → is_excluded xs t ≡ false
excluded-All [] t h = refl
excluded-All (x ∷ xs) t h = elim (Bool-cases (to_aware_datetime x == t)) [
  | inl hit ↦ absurd (h.0 (sym (instant_lem x) ∙ (==_iff (to_aware_datetime x) t).0 hit))
  | inr miss ↦ rw miss (excluded-All xs t h.1)
]

module _ (c : Component) (range_start range_end : ℕ) (d : DtValue) where
  abbrev IsStart : ℕ → Type 0
  IsStart t = IsAlone c (instant d) t ⊎ IsRepeated c (instant d) range_start range_end t

  abbrev occurrence : ℕ → CalendarEvent
  occurrence t = event c t (t + end_of c.dtend c.duration d - instant d)

  base : occurrence (instant d) ≡ event c (instant d) (end_of c.dtend c.duration d)
  base =
      let same : instant d + end_of c.dtend c.duration d - instant d ≡ end_of c.dtend c.duration d =
        omega arith in
      ap (λ (t : ℕ). event c (instant d) t) same

  Has-occurrences :
      (e : CalendarEvent)
      → Has e (occurrences c d range_start range_end)
      → (t : ℕ) × IsStart t × (e ≡ occurrence t)
  unfolding expand_rrule derive_end
  Has-occurrences e h = elim (Option-cases c.rrule) [
    | inl without ↦
        let it = rw (without, derive_end_lem c d, instant_lem d) at h in
        elim it [
          | inl here ↦ (instant d, inl (inl without, refl), here ∙ sym base)
          | inr nowhere ↦ absurd nowhere
        ]
    | inr (rrule, with_rule) ↦ elim (Option-cases (rrule (instant d))) [
      | inl unreadable ↦
          let it = rw (with_rule, derive_end_lem c d, instant_lem d, unreadable) at h in
          elim it [
            | inl here ↦ (instant d, inl (inr (rrule, with_rule, unreadable), refl), here)
            | inr nowhere ↦ absurd nowhere
          ]
      | inr (rule, readable) ↦
          let it = rw (with_rule, derive_end_lem c d, instant_lem d, readable) at h in
          let (t, chosen, same) =
            Has-map occurrence e
              (select (λ t'. not (is_excluded c.exdates t')) (rule range_start range_end)) it in
          let (listed, kept) =
            Has-select (λ t'. not (is_excluded c.exdates t')) t (rule range_start range_end)
              chosen in
          (
            t,
            inr (
              rrule,
              with_rule,
              rule,
              readable,
              listed,
              not_excluded c.exdates t (ground (arith, kept)),
            ),
            same,
          )
    ]
  ]

  occurrences-Has : (t : ℕ) → IsStart t → Has (occurrence t) (occurrences c d range_start range_end)
  unfolding expand_rrule derive_end
  occurrences-Has t (inl (inl without, here)) =
      rw (without, derive_end_lem c d, instant_lem d, here) (inl base)
  occurrences-Has t (inl (inr (rrule, with_rule, unreadable), here)) =
      rw (with_rule, derive_end_lem c d, instant_lem d, unreadable, here) (inl refl)
  occurrences-Has t (inr (rrule, with_rule, rule, readable, listed, kept)) =
      rw (with_rule, derive_end_lem c d, instant_lem d, readable)
        (map-Has occurrence t
          (select (λ t'. not (is_excluded c.exdates t')) (rule range_start range_end))
          (select-Has (λ t'. not (is_excluded c.exdates t')) t (rule range_start range_end) listed
            (rw (excluded-All c.exdates t kept) refl)))

module _ (range_start range_end : ℕ) (e : CalendarEvent) where
  Has-events_of :
      (c : Component)
      → Has e (events_of range_start range_end c)
      → IsOccurrence c range_start range_end e
  unfolding events_of derive_end expand_rrule
  Has-events_of c h = elim (Bool-cases (str_eq c.name "VEVENT")) [
    | inr otherwise ↦ absurd (rw otherwise at h)
    | inl event_name ↦ elim (Option-cases c.dtstart) [
      | inl missing ↦ absurd (rw (event_name, missing) at h)
      | inr (d, given) ↦
          let (t, start, same) =
            Has-occurrences c range_start range_end d e (rw (event_name, given) at h) in
          ((eq_iff c.name "VEVENT").0 event_name, d, given, t, start, same)
    ]
  ]

  events_of-Has :
      (c : Component)
      → IsOccurrence c range_start range_end e
      → Has e (events_of range_start range_end c)
  unfolding events_of derive_end expand_rrule
  events_of-Has c (named, d, given, t, start, same) =
      let event_name : str_eq c.name "VEVENT" ≡ true = (eq_iff c.name "VEVENT").1 named in
      rw (events_of, event_name, given, same) (occurrences-Has c range_start range_end d t start)

  pub Has-all_events :
      (components : List Component)
      → Has e (all_events range_start range_end components)
      → (c : Component) × Has c components × IsOccurrence c range_start range_end e
  unfolding all_events
  Has-all_events [] h = absurd h
  Has-all_events (c ∷ cs) h =
      elim (Has-append e (events_of range_start range_end c) (all_events range_start range_end cs)
        h) [
          | inl here ↦ (c, inl refl, Has-events_of c here)
          | inr later ↦ let (c', listed, from) = Has-all_events cs later in (c', inr listed, from)
        ]

  pub all_events-Has :
      (c : Component) (components : List Component)
      → Has c components
      → IsOccurrence c range_start range_end e
      → Has e (all_events range_start range_end components)
  unfolding all_events
  all_events-Has c [] h from = absurd h
  all_events-Has c (c' ∷ cs) (inl here) from =
      Has-append-left e (events_of range_start range_end c') (all_events range_start range_end cs)
        (events_of-Has c' (rw here at from))
  all_events-Has c (c' ∷ cs) (inr later) from =
      Has-append-right e (events_of range_start range_end c') (all_events range_start range_end cs)
        (all_events-Has c cs later from)
