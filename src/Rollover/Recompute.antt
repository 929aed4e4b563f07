-- ===== src/Rollover/Recompute.antt =====
-- What a recompute of the plan (`_recompute_rollover_lines` of app/domains/tenant/service.py) does to
-- the lines that are stored, and to nothing else.
use mathlib.Core.List
use sams_backend.Base.{
  ℕ, List, [], ◌∷◌, ◌++◌, none, some, Bool, true, false, not, ◌&&◌, ◌||◌, ◌==◌, nat_eq, contains,
  contains-append, is_some, any, where_rows, first_row-where_rows, eq_self, Option-cases,
  first_row-where_rows-none, Bool-cases, ◌≡◌, refl, sym, ap, ◌∙◌, inl, inr, arith,
}
use sams_backend.Tenant.{Store, StudentRow, ClassRow, LevelRow, get_class_by_id}
use sams_backend.Tenant.Years.{LineRow}
use sams_backend.Rollover.Plan.{
  Fact, fact, PlannedLine, student_ids, stays, is_line_of, plan_lines, recompute_rollover_lines,
  upsert_rollover_lines, propose, flag, get_rollover_plan_facts, facts_of_students, student_facts,
  with_next_levels, is_enrolled, is_next_level, get_level_by_id, get_rollover_lines,
}
use sams_backend.Rollover.Upsert.{
  line_at, IsOverridden, KeptAt, upsert_each-KeptAt, line_at-upsert_each_ne, is_some-upsert_each,
}

-- A student who takes part in a rollover: enrolled, in a class of the year that ends.
abbrev pub takes_part : ℕ → Store → StudentRow → Bool
takes_part from_year_id s t = elim t.class_id [
  | none ↦ false
  | some class_id ↦ elim (get_class_by_id class_id s) [
    | none ↦ false
    | some c ↦
        is_some (get_level_by_id c.level_id s)
        && c.academic_year_id == from_year_id
        && is_enrolled t.status
  ]
]

abbrev fact_ids : List Fact → List ℕ
fact_ids [] = []
fact_ids (f ∷ fs) = f.student_id ∷ fact_ids fs

fact_ids-append : (xs ys : List Fact) → fact_ids (xs ++ ys) ≡ (fact_ids xs ++ fact_ids ys)
fact_ids-append [] ys = refl
fact_ids-append (x ∷ xs) ys = ap (λ r. x.student_id ∷ r) (fact_ids-append xs ys)

contains-fact_ids-map :
    (k : ℕ) (t : StudentRow) (c : ClassRow) (ls : List LevelRow)
    → contains k (fact_ids (List.map (λ (nl : LevelRow). fact t c (some nl.level_id)) ls)) ≡ true
    → (t.id == k) ≡ true
contains-fact_ids-map k t c [] h = cc
contains-fact_ids-map k t c (l ∷ ls) h = ground (arith, contains-fact_ids-map k t c ls)

contains-with_next_levels :
    (k : ℕ) (t : StudentRow) (c : ClassRow) (ls : List LevelRow)
    → contains k (fact_ids (with_next_levels t c ls)) ≡ (t.id == k)
contains-with_next_levels k t c [] = ground arith
contains-with_next_levels k t c (l ∷ ls) = ground (arith, contains-fact_ids-map k t c ls)

contains-student_facts :
    (k from_year_id : ℕ) (s : Store) (t : StudentRow)
    → contains k (fact_ids (student_facts from_year_id s t))
      ≡ (t.id == k && takes_part from_year_id s t)
unfolding student_facts
contains-student_facts k from_year_id s t = elim (Option-cases t.class_id) [
  | inl no_class ↦ rw (no_class, student_facts, takes_part) (ground arith)
  | inr (class_id, placed) ↦ elim (Option-cases (get_class_by_id class_id s)) [
    | inl no_row ↦ rw (placed, no_row, student_facts, takes_part) (ground arith)
    | inr (c, row) ↦ elim (Option-cases (get_level_by_id c.level_id s)) [
      | inl no_level ↦ rw (placed, row, no_level, student_facts, takes_part) (ground arith)
      | inr (l, level) ↦
          rw (placed, row, level, student_facts, takes_part)
            (ground
              (arith, contains-with_next_levels k t c (where_rows (is_next_level l) s.levels)))
    ]
  ]
]

contains-facts_of_students :
    (k from_year_id : ℕ) (s : Store) (ts : List StudentRow)
    → contains k (fact_ids (facts_of_students from_year_id s ts))
      ≡ any (λ (t : StudentRow). t.id == k && takes_part from_year_id s t) ts
unfolding facts_of_students
contains-facts_of_students k from_year_id s [] = refl
contains-facts_of_students k from_year_id s (t ∷ ts) =
    rw
      (
        fact_ids-append (student_facts from_year_id s t) (facts_of_students from_year_id s ts),
        contains-append k (fact_ids (student_facts from_year_id s t))
            (fact_ids (facts_of_students from_year_id s ts)),
        contains-student_facts k from_year_id s t,
        contains-facts_of_students k from_year_id s ts,
      )
      refl

student_id-propose : (f : Fact) → (propose f).student_id ≡ f.student_id
unfolding propose
student_id-propose f = ground arith

student_id-flag :
    (existing : List LineRow) (all : List PlannedLine) (line : PlannedLine)
    → (flag existing all line).student_id ≡ line.student_id
unfolding flag
student_id-flag existing all line = ground arith

student_ids-propose : (fs : List Fact) → student_ids (List.map propose fs) ≡ fact_ids fs
student_ids-propose [] = refl
student_ids-propose (f ∷ fs) = rw (student_id-propose f, student_ids-propose fs) refl

student_ids-flag :
    (existing : List LineRow) (all lines : List PlannedLine)
    → student_ids (List.map (flag existing all) lines) ≡ student_ids lines
student_ids-flag existing all [] = refl
student_ids-flag existing all (line ∷ lines) =
    rw (student_id-flag existing all line, student_ids-flag existing all lines) refl

contains-plan_lines :
    (k rid from_year_id : ℕ) (s : Store)
    → contains k (student_ids (plan_lines rid from_year_id s))
      ≡ any (λ (t : StudentRow). t.id == k && takes_part from_year_id s t) s.students
unfolding plan_lines get_rollover_plan_facts
contains-plan_lines k rid from_year_id s =
    let fs = get_rollover_plan_facts from_year_id s in
    let lines = List.map propose fs in
    ap (contains k)
      (student_ids-flag (get_rollover_lines rid s) lines lines ∙ student_ids-propose fs)
    ∙ contains-facts_of_students k from_year_id s s.students

line_keys :
    (j k : ℕ) (l : LineRow) → is_line_of j k l ≡ true → (l.rollover_id ≡ j) × (l.student_id ≡ k)
line_keys j k l h = ground arith

-- Which lines the delete keeps.
stays-line :
    (rid j k : ℕ) (ids : List ℕ) (l : LineRow)
    → is_line_of j k l ≡ true
    → stays rid ids l ≡ (not (j == rid) || contains k ids)
stays-line rid j k ids l h = let (p, q) = line_keys j k l h in rw (p, q) refl

abbrev swept : ℕ → List ℕ → Store → Store
swept rid ids s = record s { rollover_lines = where_rows (stays rid ids) s.rollover_lines }

line_at-swept :
    (rid j k : ℕ) (ids : List ℕ) (s : Store)
    → (not (j == rid) || contains k ids) ≡ true
    → line_at j k (swept rid ids s) ≡ line_at j k s
line_at-swept rid j k ids s h =
    first_row-where_rows (is_line_of j k) (stays rid ids)
      (λ l hit. stays-line rid j k ids l hit ∙ h) s.rollover_lines

line_at-swept-none :
    (rid k : ℕ) (ids : List ℕ) (s : Store)
    → contains k ids ≡ false
    → line_at rid k (swept rid ids s) ≡ none
line_at-swept-none rid k ids s h =
    first_row-where_rows-none (is_line_of rid k) (stays rid ids)
      (λ l hit. stays-line rid rid k ids l hit ∙ rw (eq_self rid, h) refl) s.rollover_lines

module _ (rid from_year_id : ℕ) (s : Store) where
  abbrev planned_ids : List ℕ
  planned_ids = student_ids (plan_lines rid from_year_id s)

  -- After a recompute the rollover has a line for a student exactly if the student takes part: is
  -- enrolled and placed in a class of the year that ends, whatever lines were there before.
  pub recompute_covers :
      (k : ℕ)
      → is_some (line_at rid k (recompute_rollover_lines rid from_year_id s))
        ≡ any (λ (t : StudentRow). t.id == k && takes_part from_year_id s t) s.students
  unfolding recompute_rollover_lines upsert_rollover_lines
  recompute_covers k =
      is_some-upsert_each rid k (plan_lines rid from_year_id s) (swept rid planned_ids s)
      ∙ elim (Bool-cases (contains k planned_ids)) [
        | inl inside ↦ rw inside (sym inside ∙ contains-plan_lines k rid from_year_id s)
        | inr outside ↦
            rw (outside, line_at-swept-none rid k planned_ids s outside)
              (sym outside ∙ contains-plan_lines k rid from_year_id s)
      ]

  -- A recompute leaves the lines of every other rollover alone.
  pub recompute_stays_inside :
      (j k : ℕ)
      → (rid == j) ≡ false
      → line_at j k (recompute_rollover_lines rid from_year_id s) ≡ line_at j k s
  unfolding recompute_rollover_lines upsert_rollover_lines
  recompute_stays_inside j k h =
      line_at-upsert_each_ne rid j k (plan_lines rid from_year_id s) (swept rid planned_ids s)
        (rw h refl)
      ∙ line_at-swept rid j k planned_ids s (ground arith)

  -- A line that a person has overridden, of a student who still takes part, keeps through a
  -- recompute what the person set: the action and its target level and section.
  pub recompute_keeps_overrides :
      (k : ℕ) (old : LineRow)
      → line_at rid k s ≡ some old
      → IsOverridden old
      → any (λ (t : StudentRow). t.id == k && takes_part from_year_id s t) s.students ≡ true
      → KeptAt rid k old (recompute_rollover_lines rid from_year_id s)
  unfolding recompute_rollover_lines upsert_rollover_lines
  recompute_keeps_overrides k old at overridden part =
      upsert_each-KeptAt rid k (plan_lines rid from_year_id s) (swept rid planned_ids s) old
        overridden
        (line_at-swept rid rid k planned_ids s
            (rw (eq_self rid) (contains-plan_lines k rid from_year_id s ∙ part))
          ∙ at)
