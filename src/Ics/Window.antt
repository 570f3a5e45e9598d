-- ===== src/Ics/Window.antt =====
-- Which events a parse returns, and in which order.
use task_scheduler_mcp.Ics.Occurrences.{IsOccurrence, Has-all_events, all_events-Has}
use task_scheduler_mcp.Text.{occurs_in}
use task_scheduler_mcp.Store.{hour, second}
use task_scheduler_mcp.Ics.{
  Component, CalendarEvent, all_events, overlaps, has_title, filter_title, end_of_day, parse_events,
}
use task_scheduler_mcp.Common.{
  order_by-Has, Has-order_by, ◌-◌, ◌↔◌, select-Has, Has-select, ◌*◌, Has, ◌+◌, All-insert_by,
  insert_by, count-select, ℕ, ◌≤◌, String, ◌≡◌, refl, ◌∙◌, inl, inr, Bool, true, false, ◌&&◌,
  Option, none, some, List, [], ◌∷◌, arith, leb, Bool-cases, select, count, All, order_by, All-map,
}

-- Each event starts no later than those after it.
abbrev pub IsSorted : List CalendarEvent → Type 0
IsSorted [] = Unit
IsSorted (e ∷ es) = All (λ (later : CalendarEvent). e.start ≤ later.start) es × IsSorted es

abbrev by_start : CalendarEvent → CalendarEvent → Bool
by_start a b = leb a.start b.start

insert-IsSorted :
    (e : CalendarEvent) (es : List CalendarEvent) → IsSorted es → IsSorted (insert_by by_start e es)
insert-IsSorted e [] h = (tt, tt)
insert-IsSorted e (x ∷ es) h = elim (Bool-cases (leb e.start x.start)) [
  | inl first ↦ rw first (
    (
      ground (arith, first),
      All-map es (λ y (le : x.start ≤ y.start). ground (arith, first, le)) h.0,
    ),
    h,
  )
  | inr later ↦ rw later (
    All-insert_by (λ (y : CalendarEvent). x.start ≤ y.start) by_start e es (ground (arith, later))
        h.0,
    insert-IsSorted e es h.1,
  )
]

order_by-IsSorted : (es : List CalendarEvent) → IsSorted (order_by by_start es)
order_by-IsSorted [] = tt
order_by-IsSorted (e ∷ es) = insert-IsSorted e (order_by by_start es) (order_by-IsSorted es)

count-insert_by :
    (p : CalendarEvent → Bool) (e : CalendarEvent) (es : List CalendarEvent)
    → count p (insert_by by_start e es) ≡ count p (e ∷ es)
count-insert_by p e [] = refl
count-insert_by p e (x ∷ es) = elim (Bool-cases (leb e.start x.start)) [
  | inl first ↦ rw first refl
  | inr later ↦ rw later (omega (arith, count-insert_by p e es))
]

count-order_by :
    (p : CalendarEvent → Bool) (es : List CalendarEvent)
    → count p (order_by by_start es) ≡ count p es
count-order_by p [] = refl
count-order_by p (e ∷ es) =
    omega (arith, count-insert_by p e (order_by by_start es), count-order_by p es)

count-ext :
    (p q : CalendarEvent → Bool)
    → ((e : CalendarEvent) → p e ≡ q e)
    → (es : List CalendarEvent) → count p es ≡ count q es
count-ext p q same [] = refl
count-ext p q same (e ∷ es) = rw (same e, count-ext p q same es) refl

and_assoc : (a b c : Bool) → (a && (b && c)) ≡ ((a && b) && c)
and_assoc true b c = refl
and_assoc false b c = refl

-- The events of the window with the title, in any order.
abbrev pub is_wanted : (String → List ℕ) → ℕ → ℕ → Option String → CalendarEvent → Bool
is_wanted lower first_day last_day title e =
    overlaps first_day (end_of_day last_day) e && has_title lower title e

count-filter_title :
    (lower : String → List ℕ) (title : Option String) (p : CalendarEvent → Bool)
    (es : List CalendarEvent)
    → count p (filter_title lower title es) ≡ count (λ e. has_title lower title e && p e) es
unfolding filter_title
count-filter_title lower none p es = refl
count-filter_title lower (some needle) p es = count-select p (has_title lower (some needle)) es

-- The last second of the window's last day.
abbrev pub last_second : ℕ → ℕ
last_second last_day = last_day + (24 * hour - second)

abbrev pub IsTitled : (String → List ℕ) → Option String → CalendarEvent → Type 0
IsTitled lower none e = Unit
IsTitled lower (some needle) e = occurs_in (lower needle) (lower e.summary) ≡ true

-- An event of the calendar that overlaps the window and has the title.
abbrev pub IsWanted :
    (String → List ℕ) → List Component → ℕ → ℕ → Option String → CalendarEvent → Type 0
IsWanted lower components first_day last_day title e =
    ((c : Component) × Has c components × IsOccurrence c first_day (last_second last_day) e)
    × (e.start ≤ last_second last_day)
    × (first_day ≤ e.end)
    × IsTitled lower title e

Has-filter_title :
    (lower : String → List ℕ) (title : Option String) (e : CalendarEvent) (es : List CalendarEvent)
    → Has e (filter_title lower title es)
    → Has e es × IsTitled lower title e
unfolding filter_title
Has-filter_title lower none e es h = (h, tt)
Has-filter_title lower (some needle) e es h = Has-select (has_title lower (some needle)) e es h

filter_title-Has :
    (lower : String → List ℕ) (title : Option String) (e : CalendarEvent) (es : List CalendarEvent)
    → Has e es
    → IsTitled lower title e
    → Has e (filter_title lower title es)
unfolding filter_title
filter_title-Has lower none e es h titled = h
filter_title-Has lower (some needle) e es h titled =
    select-Has (has_title lower (some needle)) e es h titled

-- A parse of readable calendar data returns the events in the order of their starts, and an event
-- is among them exactly where it is one of a VEVENT with a start, begins no later than the last
-- second of the window, ends no earlier than its first, and has the title asked for. Without a
-- rule, or with one that cannot be read, a VEVENT has its base event; with a rule it has those that
-- the rule makes start between the two ends of the window, on none of its excepted dates, each as
-- long as the base event, so one that begins before the window and reaches into it is not among
-- them. Each event is returned as often as the expansion of the components has it.
pub parse_events-Returns :
    (lower : String → List ℕ) (components : List Component) (first_day last_day : ℕ)
    (title : Option String)
    → (events : List CalendarEvent) × (parse_events lower (some components) first_day last_day title
        ≡ some events)
      × IsSorted events
      × ((e : CalendarEvent) → Has e events ↔ IsWanted lower components first_day last_day title e)
      × ((p : CalendarEvent → Bool)
          → count p events
            ≡ count
                (λ e. is_wanted lower first_day last_day title e && p e)
                (all_events first_day (end_of_day last_day) components))
unfolding parse_events
parse_events-Returns lower components first_day last_day title =
    let window = overlaps first_day (end_of_day last_day) in
    let all = all_events first_day (end_of_day last_day) components in
    let kept = filter_title lower title (select window all) in
    let by_start : CalendarEvent → CalendarEvent → Bool = λ a b. leb a.start b.start in
    (
      order_by by_start kept,
      refl,
      order_by-IsSorted kept,
      λ e. (
        λ h.
            let (inside, titled) =
              Has-filter_title lower title e (select window all) (Has-order_by by_start e kept h) in
            let (listed, overlapping) = Has-select window e all inside in
            (
              Has-all_events first_day (last_second last_day) e components (listed),
              ground (arith, overlapping),
              ground (arith, overlapping),
              titled,
            ),
        λ wanted.
            let ((c, component, from), early, late, titled) = wanted in
            order_by-Has by_start e kept (
              filter_title-Has lower title e (select window all)
                (select-Has window e all
                  ((all_events-Has first_day (last_second last_day) e c components component from))
                  (ground (arith, early, late)))
                titled),
      ),
      λ p.
          count-order_by p kept
          ∙ count-filter_title lower title p (select window all)
          ∙ count-select (λ e. has_title lower title e && p e) window all
          ∙ count-ext _ _
              (λ (e : CalendarEvent). and_assoc (window e) (has_title lower title e) (p e)) all,
    )
