-- ===== src/Rollover/Upsert.antt =====
-- What `upsert_rollover_lines` of app/domains/tenant/tenant_repository.py does to the line of one
-- student.
use mathlib.Core.Option
use sams_backend.Base.{
  ℕ, List, [], ◌∷◌, Option, none, some, true, false, ◌&&◌, ◌||◌, ◌==◌, nat_eq, contains, is_some,
  first_row, first_row-update_rows, first_row-update_rows_ne, first_row-append, first_row-append_ne,
  eq_self, Bool-cases, Option-cases, ◌≡◌, refl, sym, ap, ◌∙◌, inl, inr, arith,
}
use sams_backend.Tenant.{Store}
use sams_backend.Tenant.Years.{LineRow, RolloverAction}
use sams_backend.Rollover.Plan.{
  PlannedLine, student_ids, is_line_of, new_line, refresh_line, upsert_line, upsert_each,
}

-- The line of a student in a rollover.
abbrev pub line_at : ℕ → ℕ → Store → Option LineRow
line_at rollover_id student_id s = first_row (is_line_of rollover_id student_id) s.rollover_lines

-- The line that an upsert leaves.
abbrev upserted : ℕ → PlannedLine → Store → Option LineRow → LineRow
upserted rollover_id line s none = new_line s.next_id rollover_id line
upserted rollover_id line s (some old) = refresh_line line old

refresh_line-same :
    (rid k : ℕ) (line : PlannedLine) (l : LineRow)
    → is_line_of rid k (refresh_line line l) ≡ is_line_of rid k l
unfolding refresh_line
refresh_line-same rid k line l = refl

is_line_of-new_line :
    (rid id : ℕ) (line : PlannedLine) → is_line_of rid line.student_id (new_line id rid line) ≡ true
is_line_of-new_line rid id line = rw (eq_self rid, eq_self line.student_id) refl

line_at-upsert_line :
    (rid : ℕ) (line : PlannedLine) (s : Store)
    → line_at rid line.student_id (upsert_line rid line s)
      ≡ some (upserted rid line s (line_at rid line.student_id s))
unfolding upsert_line
line_at-upsert_line rid line s = elim (Option-cases (line_at rid line.student_id s)) [
  | inl new ↦
      rw (new, upsert_line)
        (first_row-append (is_line_of rid line.student_id) s.rollover_lines
          (new_line s.next_id rid line) new (is_line_of-new_line rid s.next_id line))
  | inr (old, found) ↦
      rw
        (
          found,
          upsert_line,
          first_row-update_rows (is_line_of rid line.student_id) (refresh_line line)
              (refresh_line-same rid line.student_id line) s.rollover_lines,
        )
        (ap (Option.map (refresh_line line)) found)
]

-- Two keys of a line that differ: a row that has one has not the other.
is_line_of-apart :
    (rid k rid' k' : ℕ) (l : LineRow)
    → (rid == rid' && k == k') ≡ false
    → is_line_of rid k l ≡ true
    → is_line_of rid' k' l ≡ false
is_line_of-apart rid k rid' k' l apart h = ground arith

line_at-upsert_line_ne :
    (rid j k : ℕ) (line : PlannedLine) (s : Store)
    → (rid == j && line.student_id == k) ≡ false
    → line_at j k (upsert_line rid line s) ≡ line_at j k s
unfolding upsert_line
line_at-upsert_line_ne rid j k line s h = elim (Option-cases (line_at rid line.student_id s)) [
  | inl new ↦
      rw (new, upsert_line)
        (first_row-append_ne (is_line_of j k) s.rollover_lines (new_line s.next_id rid line) h)
  | inr (old, found) ↦
      rw (found, upsert_line)
        (first_row-update_rows_ne (is_line_of rid line.student_id) (refresh_line line)
          (is_line_of j k) (λ l. is_line_of-apart rid line.student_id j k l h)
          (λ l hit. refresh_line-same j k line l ∙ is_line_of-apart rid line.student_id j k l h hit)
          s.rollover_lines)
]

-- What a refresh leaves of a line that a person has overridden.
pub record Frozen (old new : LineRow) : Type 0 where
  pub same_id : new.id ≡ old.id
  pub same_override : new.override_action ≡ old.override_action
  pub same_level : new.to_level_id ≡ old.to_level_id
  pub same_section : new.to_section_label ≡ old.to_section_label
  pub same_class : new.to_class_id ≡ old.to_class_id
  pub same_stamp : new.applied_at ≡ old.applied_at

abbrev pub IsOverridden : LineRow → Type 0
IsOverridden l = (a : RolloverAction) × (l.override_action ≡ some a)

refresh_line-Frozen :
    (line : PlannedLine) (old : LineRow) → IsOverridden old → Frozen old (refresh_line line old)
unfolding refresh_line
refresh_line-Frozen line old (a, h) = record {
  same_id = refl;
  same_override = refl;
  same_level = rw h refl;
  same_section = rw h refl;
  same_class = refl;
  same_stamp = refl;
}

Frozen-trans : (a b c : LineRow) → Frozen a b → Frozen b c → Frozen a c
Frozen-trans a b c f g = record {
  same_id = g.same_id ∙ f.same_id;
  same_override = g.same_override ∙ f.same_override;
  same_level = g.same_level ∙ f.same_level;
  same_section = g.same_section ∙ f.same_section;
  same_class = g.same_class ∙ f.same_class;
  same_stamp = g.same_stamp ∙ f.same_stamp;
}

Frozen-refl : (a : LineRow) → Frozen a a
Frozen-refl a = record {
  same_id = refl;
  same_override = refl;
  same_level = refl;
  same_section = refl;
  same_class = refl;
  same_stamp = refl;
}

-- The line of a student after some calls, which kept what a person set.
abbrev pub KeptAt : ℕ → ℕ → LineRow → Store → Type 0
KeptAt rid k old s = (new : LineRow) × (line_at rid k s ≡ some new) × Frozen old new

upsert_line-KeptAt :
    (rid k : ℕ) (line : PlannedLine) (s : Store) (old : LineRow)
    → IsOverridden old
    → line_at rid k s ≡ some old
    → KeptAt rid k old (upsert_line rid line s)
upsert_line-KeptAt rid k line s old o at = elim (Bool-cases (line.student_id == k)) [
  | inl same ↦
      let e = (nat_eq.test_iff line.student_id k).0 same in
      (
        refresh_line line old,
        cc (line_at-upsert_line rid line s, at, e),
        refresh_line-Frozen line old o,
      )
  | inr other ↦
      (old, line_at-upsert_line_ne rid rid k line s (rw (eq_self rid) other) ∙ at, Frozen-refl old)
]

pub upsert_each-KeptAt :
    (rid k : ℕ) (lines : List PlannedLine) (s : Store) (old : LineRow)
    → IsOverridden old
    → line_at rid k s ≡ some old
    → KeptAt rid k old (upsert_each rid lines s)
unfolding upsert_each
upsert_each-KeptAt rid k [] s old o at = (old, at, Frozen-refl old)
upsert_each-KeptAt rid k (line ∷ lines) s old o at =
    let (mid, at', f) = upsert_line-KeptAt rid k line s old o at in
    let (new, at'', g) =
      upsert_each-KeptAt rid k lines (upsert_line rid line s) mid (o.0, f.same_override ∙ o.1)
        at' in
    (new, at'', Frozen-trans old mid new f g)

pub line_at-upsert_each_ne :
    (rid j k : ℕ) (lines : List PlannedLine) (s : Store)
    → (rid == j && contains k (student_ids lines)) ≡ false
    → line_at j k (upsert_each rid lines s) ≡ line_at j k s
unfolding upsert_each
line_at-upsert_each_ne rid j k [] s h = refl
line_at-upsert_each_ne rid j k (line ∷ lines) s h =
    line_at-upsert_each_ne rid j k lines (upsert_line rid line s) (ground arith)
    ∙ line_at-upsert_line_ne rid j k line s (ground arith)

is_some-upsert_line :
    (rid k : ℕ) (line : PlannedLine) (s : Store)
    → is_some (line_at rid k (upsert_line rid line s))
      ≡ (line.student_id == k || is_some (line_at rid k s))
is_some-upsert_line rid k line s = elim (Bool-cases (line.student_id == k)) [
  | inl same ↦
      let e = (nat_eq.test_iff line.student_id k).0 same in
      rw (same, sym e, line_at-upsert_line rid line s) refl
  | inr other ↦ rw (other, line_at-upsert_line_ne rid rid k line s (rw (eq_self rid) other)) refl
]

pub is_some-upsert_each :
    (rid k : ℕ) (lines : List PlannedLine) (s : Store)
    → is_some (line_at rid k (upsert_each rid lines s))
      ≡ (contains k (student_ids lines) || is_some (line_at rid k s))
unfolding upsert_each
is_some-upsert_each rid k [] s = refl
is_some-upsert_each rid k (line ∷ lines) s = ground (
  arith,
  is_some-upsert_each rid k lines (upsert_line rid line s),
  is_some-upsert_line rid k line s,
)
