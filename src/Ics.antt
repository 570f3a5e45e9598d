-- ===== src/Ics.antt =====
-- `parse_events` of app/ics/parser.py. The components that `icalendar` reads from the text, the rules
-- that `rrulestr` makes and `str.lower` are parameters. Instants are microseconds.
pub mod Occurrences
pub mod Window
use task_scheduler_mcp.Store.{hour, minute, second}
use task_scheduler_mcp.Text.{occurs_in}
use task_scheduler_mcp.Common.{
  ℕ, ◌+◌, ◌-◌, ◌*◌, String, Bool, true, not, ◌&&◌, Option, none, some, List, [], ◌∷◌, ◌++◌, map,
  str_eq, leb, ◌==◌, if◌then◌else◌, select, exists, order_by,
}

-- A date by its midnight in UTC, or a datetime.
pub data DtValue : Type 0 where
  day : (midnight : ℕ) → DtValue
  naive : (wall : ℕ) → DtValue
  aware : (utc : ℕ) → DtValue

-- A timedelta.
pub data Delta : Type 0 where
  forward back : ℕ → Delta

-- The occurrences of a rule between two instants, both included.
abbrev pub Rule : Type 0
Rule = ℕ → ℕ → List ℕ

pub record Component : Type 0 where
  pub name : String
  pub summary : Option String
  pub location : Option String
  pub description : Option String
  pub url : Option String
  pub dtstart : Option DtValue
  pub dtend : Option DtValue
  pub duration : Option Delta
  -- what `rrulestr` makes of the RRULE at a start; `none` inside where it raises
  pub rrule : Option (ℕ → Option Rule)
  pub exdates : List DtValue

pub record CalendarEvent : Type 0 where
  pub summary : String
  pub start : ℕ
  pub end : ℕ
  pub location : Option String
  pub description : Option String
  pub url : Option String

-- An all-day date and a naive datetime are taken as UTC.
abbrev pub to_aware_datetime : DtValue → ℕ
to_aware_datetime (day midnight) = midnight
to_aware_datetime (naive wall) = wall
to_aware_datetime (aware utc) = utc

abbrev shifted : ℕ → Delta → ℕ
shifted t (forward d) = t + d
shifted t (back d) = t - d

-- A day for a date, an hour for a datetime.
abbrev pub default_length : DtValue → ℕ
default_length (day midnight) = 24 * hour
default_length _ = hour

unfoldable pub derive_end : Component → DtValue → ℕ
derive_end component dtstart = elim component.dtend [
  | some dtend ↦ to_aware_datetime dtend
  | none ↦ elim component.duration [
    | some d ↦ shifted (to_aware_datetime dtstart) d
    | none ↦ to_aware_datetime dtstart + default_length dtstart
  ]
]

abbrev pub is_excluded : List DtValue → ℕ → Bool
is_excluded exdates t = exists (λ d. to_aware_datetime d == t) exdates

-- A rule that cannot be read leaves the base event.
unfoldable pub expand_rrule : Component → Option Rule → ℕ → ℕ → ℕ → List ℕ
expand_rrule component none dtstart range_start range_end = dtstart ∷ []
expand_rrule component (some rule) dtstart range_start range_end =
    select (λ t. not (is_excluded component.exdates t)) (rule range_start range_end)

abbrev pub event : Component → ℕ → ℕ → CalendarEvent
event component start end = record {
  summary = elim component.summary [ none ↦ "" | some s ↦ s ];
  start = start;
  end = end;
  location = component.location;
  description = component.description;
  url = component.url;
}

-- An occurrence lasts as long as the base event.
abbrev pub occurrences : Component → DtValue → ℕ → ℕ → List CalendarEvent
unfolding derive_end expand_rrule
occurrences component dtstart range_start range_end =
    let start : ℕ = to_aware_datetime dtstart in
    let end : ℕ = derive_end component dtstart in
    elim component.rrule [
      | none ↦ event component start end ∷ []
      | some rrule ↦
          map (λ (t : ℕ). event component t (t + end - start))
            (expand_rrule component (rrule start) start range_start range_end)
    ]

-- One round of the loop over the components.
unfoldable pub events_of : ℕ → ℕ → Component → List CalendarEvent
unfolding occurrences
events_of range_start range_end component =
    if not (str_eq component.name "VEVENT") then [] else elim component.dtstart [
      | none ↦ []
      | some dtstart ↦ occurrences component dtstart range_start range_end
    ]

unfoldable pub all_events : ℕ → ℕ → List Component → List CalendarEvent
unfolding events_of
all_events range_start range_end [] = []
all_events range_start range_end (c ∷ cs) =
    events_of range_start range_end c ++ all_events range_start range_end cs

-- `e.start <= range_end_dt and e.end >= range_start_dt`
abbrev pub overlaps : ℕ → ℕ → CalendarEvent → Bool
overlaps range_start range_end e = leb e.start range_end && leb range_start e.end

abbrev pub has_title : (String → List ℕ) → Option String → CalendarEvent → Bool
unfolding occurs_in
has_title lower none e = true
has_title lower (some needle) e = occurs_in (lower needle) (lower e.summary)

abbrev pub filter_title :
    (String → List ℕ) → Option String → List CalendarEvent → List CalendarEvent
unfolding has_title
filter_title lower none events = events
filter_title lower (some needle) events = select (has_title lower (some needle)) events

-- The last second of a day.
abbrev pub end_of_day : ℕ → ℕ
end_of_day midnight = midnight + (23 * hour + (59 * minute + 59 * second))

-- `none` stands for InvalidICSError; the two days are given by their midnights.
unfoldable pub parse_events :
    (String → List ℕ)
    → Option (List Component)
    → ℕ
    → ℕ
    → Option String
    → Option (List CalendarEvent)
unfolding all_events filter_title
parse_events lower calendar first_day last_day title_contains = elim calendar [
  | none ↦ none
  | some components ↦ some (
      order_by (λ (a b : CalendarEvent). leb a.start b.start)
        (filter_title lower title_contains (
          select (overlaps first_day (end_of_day last_day))
            (all_events first_day (end_of_day last_day) components))))
]
