-- ===== src/Logger/Filter.antt =====
-- Which messages the logger lets through.
use find_friend_bot.Base.{
  ap, subst, ◌≡◌, refl, ◌∙◌, Option, none, some, List, [], ◌∷◌, Text, text_eq, text_eq_iff,
  if◌then◌else◌, Option-cases, Bool-cases, inl, inr,
}
use find_friend_bot.Map.{find, assign}
use find_friend_bot.Map.Laws.{find-assign}
use find_friend_bot.Logger.{Severity, trace, str_severity_level, fill_map_severity, severity_of}

-- The severity of a name in the table, the last that stands there.
abbrev pub last_of : Text → List (Text × Severity) → Option Severity → Option Severity
last_of level [] old = old
last_of level ((name, severity) ∷ rest) old =
    last_of level rest (if text_eq name level then some severity else old)

find-fill_map_severity :
    (level : Text) (table m : List (Text × Severity))
    → find level (fill_map_severity table m) ≡ last_of level table (find level m)
unfolding fill_map_severity
find-fill_map_severity level [] m = refl
find-fill_map_severity level ((name, severity) ∷ rest) m =
    find-fill_map_severity level rest (assign name severity m)
    ∙ ap (last_of level rest) (find-assign level name severity m)

-- No name stands twice.
abbrev Distinct : List (Text × Severity) → Type 0
Distinct [] = Unit {0}
Distinct ((name, severity) ∷ rest) = (find name rest ≡ none) × Distinct rest

abbrev or_else : Option Severity → Option Severity → Option Severity
or_else none old = old
or_else (some severity) old = some severity

last_of-Distinct :
    (level : Text) (table : List (Text × Severity)) (old : Option Severity)
    → Distinct table
    → last_of level table old ≡ or_else (find level table) old
unfolding find
last_of-Distinct level [] old d = refl
last_of-Distinct level ((name, severity) ∷ rest) old (n, d) =
    elim (Bool-cases (text_eq name level)) [
      | inl e ↦
          let gone : find level rest ≡ none =
            subst (λ x. find x rest ≡ none) ((text_eq_iff name level).0 e) n in
          rw (e, last_of-Distinct level rest (some severity) d, gone) refl
      | inr e ↦ rw (e, last_of-Distinct level rest old d) refl
    ]

table-Distinct : Distinct str_severity_level
unfolding find text_eq
table-Distinct = (refl, (refl, (refl, (refl, (refl, (refl, tt))))))

-- The filter for a name is the severity that the table gives to it, and `trace` for a name that is
-- not in the table.
pub severity_of_lem :
    (level : Text)
    → severity_of level
      ≡ (elim (find level str_severity_level) [ none ↦ trace | some severity ↦ severity ])
unfolding severity_of find
severity_of_lem level =
    rw
      (
        severity_of,
        find-fill_map_severity level str_severity_level [],
        last_of-Distinct level str_severity_level none table-Distinct,
      )
      (elim (Option-cases (find level str_severity_level)) [
        | inl e ↦ rw e refl
        | inr (severity, e) ↦ rw e refl
      ])
