-- ===== src/Rollover/Classes.antt =====
-- The first loop of `commit_year_rollover` (app/domains/tenant/tenant_repository.py): each target cell
-- is resolved to a class of the new year.
use sams_backend.Base.{
  ℕ, String, List, [], ◌∷◌, ◌++◌, Option, none, some, Bool, true, false, ◌&&◌, ◌==◌, nat_eq,
  string_eq, Eq, is_some, any, All, first_row, eq_self, some_inj, Option-cases, type_error,
  Bool-cases, ok, bind-steps, pure-steps, or_raise, or_raise-steps, pure, ◌>>=◌, ◌≡◌, refl, sym, ap,
  ◌∙◌, inl, inr, arith,
}
use sams_backend.Tenant.{Store, ClassRow, LevelRow, get_class_by_id}
use sams_backend.Tenant.Years.{LineRow, RolloverAction, promote, graduate, hold, withdraw}
use sams_backend.Rollover.Plan.{Cell, cell_beq, option_beq}
use sams_backend.Rollover.Service.{effective_action}
use sams_backend.Rollover.Commit.{
  Resolved, cell_of, resolved_class, level_of, target_name, is_class_named, ensure_class, new_class,
  insert_class, resolve_line, resolve_target, resolve_round, resolve_classes,
}

option_beq_sound : {A : Type 0} ⦃e : Eq A⦄ (a b : Option A) → option_beq a b ≡ true → a ≡ b
unfolding option_beq
option_beq_sound none none h = refl
option_beq_sound ⦃e = e⦄ (some a) (some b) h = ap some ((e.test_iff a b).0 h)
option_beq_sound none (some b) h = cc
option_beq_sound (some a) none h = cc

and-both : (a b : Bool) → (a && b) ≡ true → (a ≡ true) × (b ≡ true)
and-both a b h = ground arith

cell_beq_sound : (a b : Cell) → cell_beq a b ≡ true → a ≡ b
unfolding cell_beq
cell_beq_sound (a, b) (c, d) h =
    let (p, q) = and-both (option_beq a c) (option_beq b d) h in
    cc (option_beq_sound a c p, option_beq_sound b d q)

abbrev is_this : ℕ → String → ℕ → ClassRow → Bool
is_this class_id name year_id c = c.id == class_id && is_class_named name year_id c

-- The class stands in the year, under the name of the cell's level and section.
abbrev pub ClassFor : ℕ → Store → Cell → ℕ → Type 0
ClassFor year_id s key class_id =
    (level : LevelRow) × (level_of key.0 s ≡ some level)
    × (any (is_this class_id (target_name level key.1) year_id) s.classes ≡ true)

-- Classes are only added.
abbrev Grows : Store → Store → Type 0
Grows s t =
    (t.levels ≡ s.levels)
    × ((p : ClassRow → Bool) → any p s.classes ≡ true → any p t.classes ≡ true)

any-older :
    (p : ClassRow → Bool) (x : ClassRow) (xs : List ClassRow)
    → any p xs ≡ true
    → any p (xs ++ x ∷ []) ≡ true
any-older p x [] h = cc
any-older p x (y ∷ xs) h = ground (arith, any-older p x xs)

any-last :
    (p : ClassRow → Bool) (x : ClassRow) (xs : List ClassRow)
    → p x ≡ true
    → any p (xs ++ x ∷ []) ≡ true
any-last p x [] h = rw h refl
any-last p x (y ∷ xs) h = ground (arith, any-last p x xs h)

new_class-is_this :
    (y : ℕ) (line : LineRow) (source : ClassRow) (level : LevelRow) (id : ℕ)
    → is_this id (target_name level line.to_section_label) y (new_class id y line source level)
      ≡ true
unfolding target_name
new_class-is_this y line source level id =
    rw (eq_self id, eq_self (target_name level line.to_section_label), eq_self y) refl

is_this-miss :
    (k : ℕ) (name : String) (y : ℕ) (c : ClassRow)
    → is_class_named name y c ≡ false
    → is_this k name y c ≡ false
is_this-miss k name y c h = ground arith

any-first_row :
    (name : String) (y : ℕ) (xs : List ClassRow) (c : ClassRow)
    → first_row (is_class_named name y) xs ≡ some c
    → any (is_this c.id name y) xs ≡ true
any-first_row name y [] c h = cc
any-first_row name y (x ∷ xs) c h = elim (Bool-cases (is_class_named name y x)) [
  | inl hit ↦
      let same = some_inj x c (sym (rw hit refl) ∙ h) in rw (sym same, eq_self x.id, hit) refl
  | inr miss ↦
      rw (is_this-miss c.id name y x miss) (any-first_row name y xs c (sym (rw miss refl) ∙ h))
]

level_of-same : (k : Option ℕ) (s t : Store) → t.levels ≡ s.levels → level_of k t ≡ level_of k s
level_of-same none s t e = refl
level_of-same (some k) s t e = ap (first_row (λ (l : LevelRow). l.level_id == k)) e

ensure_class-ClassFor :
    (y : ℕ) (line : LineRow) (source : ClassRow) (level : LevelRow) (s s' : Store) (c : ℕ)
    → level_of line.to_level_id s ≡ some level
    → ensure_class y line source level s ≡ (ok c, s')
    → Grows s s' × ClassFor y s' (cell_of line) c
unfolding ensure_class
ensure_class-ClassFor y line source level s s' c at h =
    elim (Option-cases
      (first_row (is_class_named (target_name level line.to_section_label) y) s.classes)) [
        | inl new ↦
            let (p, q) =
              pure-steps s.next_id c (insert_class y line source level s) s'
                (sym (rw (new, ensure_class) refl) ∙ h) in
            rw (sym q, sym p)
              (
                (refl, λ r k. any-older r (new_class s.next_id y line source level) s.classes k),
                (
                  level,
                  level_of-same line.to_level_id s (insert_class y line source level s) refl ∙ at,
                  any-last (is_this s.next_id (target_name level line.to_section_label) y)
                      (new_class s.next_id y line source level) s.classes
                      (new_class-is_this y line source level s.next_id),
                ),
              )
        | inr (found, hit) ↦
            let (p, q) = pure-steps found.id c s s' (sym (rw (hit, ensure_class) refl) ∙ h) in
            rw (sym q, sym p)
              (
                (refl, λ _ k. k),
                (
                  level,
                  at,
                  any-first_row (target_name level line.to_section_label) y s.classes found hit,
                ),
              )
      ]

Grows-ClassFor :
    (y : ℕ) (s t : Store) (key : Cell) (c : ℕ) → Grows s t → ClassFor y s key c → ClassFor y t key c
Grows-ClassFor y s t key c (levels, classes) (level, at, hit) = (
  level,
  level_of-same key.0 s t levels ∙ at,
  classes (is_this c (target_name level key.1) y) hit,
)

abbrev AllPlaced : ℕ → Store → Resolved → Type 0
AllPlaced y s resolved = All (λ (entry : Cell × ℕ). ClassFor y s entry.0 entry.1) resolved

Grows-AllPlaced :
    (y : ℕ) (s t : Store) (resolved : Resolved)
    → Grows s t
    → AllPlaced y s resolved
    → AllPlaced y t resolved
Grows-AllPlaced y s t [] g h = h
Grows-AllPlaced y s t ((key, c) ∷ rest) g h =
    (Grows-ClassFor y s t key c g h.0, Grows-AllPlaced y s t rest g h.1)

AllPlaced-pure :
    (y : ℕ) (resolved resolved' : Resolved) (s s' : Store)
    → AllPlaced y s resolved
    → pure resolved s ≡ (ok resolved', s')
    → AllPlaced y s' resolved'
AllPlaced-pure y resolved resolved' s s' placed h =
    let (p, q) = pure-steps resolved resolved' s s' h in rw (sym q, sym p) placed

pub resolved_class-ClassFor :
    (y : ℕ) (s : Store) (key : Cell) (c : ℕ) (resolved : Resolved)
    → AllPlaced y s resolved
    → resolved_class key resolved ≡ some c
    → ClassFor y s key c
unfolding resolved_class
resolved_class-ClassFor y s key c [] h found = cc
resolved_class-ClassFor y s key c ((k, d) ∷ rest) h found = elim (Bool-cases (cell_beq k key)) [
  | inl hit ↦
      let same = some_inj d c (sym (rw hit refl) ∙ found) in
      rw (sym (cell_beq_sound k key hit), sym same) h.0
  | inr miss ↦ resolved_class-ClassFor y s key c rest h.1 (sym (rw miss refl) ∙ found)
]

resolve_line-AllPlaced :
    (y from : ℕ) (line : LineRow) (resolved resolved' : Resolved) (s s' : Store)
    → AllPlaced y s resolved
    → resolve_line y from line resolved s ≡ (ok resolved', s')
    → AllPlaced y s' resolved'
unfolding resolve_line
resolve_line-AllPlaced y from line resolved resolved' s s' placed h =
    let subscript = type_error "'NoneType' object is not subscriptable" in
    let (level, t1, found, h1) =
      bind-steps (or_raise (level_of line.to_level_id s) subscript)
        (λ level. or_raise (get_class_by_id from s) subscript >>= λ source.
          ensure_class y line source level >>= λ c. pure ((cell_of line, c) ∷ resolved))
        s s' resolved' h in
    let (at, e1) = or_raise-steps (level_of line.to_level_id s) subscript s t1 level found in
    let (source, t2, found', h2) =
      bind-steps (or_raise (get_class_by_id from s) subscript)
        (λ source. ensure_class y line source level >>= λ c. pure ((cell_of line, c) ∷ resolved)) t1
        s' resolved' h1 in
    let (at', e2) = or_raise-steps (get_class_by_id from s) subscript t1 t2 source found' in
    let (c, t3, made, h3) =
      bind-steps (ensure_class y line source level) (λ c. pure ((cell_of line, c) ∷ resolved)) t2 s'
        resolved' h2 in
    let (grown, for) =
      ensure_class-ClassFor y line source level s t3 c at
        (ap (ensure_class y line source level) (e1 ∙ e2) ∙ made) in
    AllPlaced-pure y ((cell_of line, c) ∷ resolved) resolved' t3 s'
      (for, Grows-AllPlaced y s t3 resolved grown placed) h3

resolve_target-AllPlaced :
    (a : RolloverAction) (from : Option ℕ) (y : ℕ) (line : LineRow) (resolved resolved' : Resolved)
    (s s' : Store)
    → AllPlaced y s resolved
    → resolve_target a from y line resolved s ≡ (ok resolved', s')
    → AllPlaced y s' resolved'
unfolding resolve_target
resolve_target-AllPlaced promote none y line resolved resolved' s s' placed h =
    AllPlaced-pure y resolved resolved' s s' placed h
resolve_target-AllPlaced promote (some from) y line resolved resolved' s s' placed h =
    elim (Bool-cases (is_some (resolved_class (cell_of line) resolved))) [
      | inl known ↦ AllPlaced-pure y resolved resolved' s s' placed (sym (rw known refl) ∙ h)
      | inr new ↦
          resolve_line-AllPlaced y from line resolved resolved' s s' placed (sym (rw new refl) ∙ h)
    ]
resolve_target-AllPlaced graduate from y line resolved resolved' s s' placed h =
    AllPlaced-pure y resolved resolved' s s' placed h
resolve_target-AllPlaced withdraw from y line resolved resolved' s s' placed h =
    AllPlaced-pure y resolved resolved' s s' placed h
resolve_target-AllPlaced hold from y line resolved resolved' s s' placed h =
    AllPlaced-pure y resolved resolved' s s' placed h

pub resolve_classes-AllPlaced :
    (y : ℕ) (lines : List LineRow) (resolved resolved' : Resolved) (s s' : Store)
    → AllPlaced y s resolved
    → resolve_classes y lines resolved s ≡ (ok resolved', s')
    → AllPlaced y s' resolved'
unfolding resolve_classes resolve_round
resolve_classes-AllPlaced y [] resolved resolved' s s' placed h =
    AllPlaced-pure y resolved resolved' s s' placed h
resolve_classes-AllPlaced y (line ∷ lines) resolved resolved' s s' placed h =
    let (mid, t, e, rest) =
      bind-steps (resolve_round y line resolved) (λ r. resolve_classes y lines r) s s' resolved'
        h in
    resolve_classes-AllPlaced y lines mid resolved' t s'
      (resolve_target-AllPlaced (effective_action line) line.from_class_id y line resolved mid s t
        placed e)
      rest

pub ClassFor-same :
    (y : ℕ) (s t : Store) (key : Cell) (c : ℕ)
    → t.levels ≡ s.levels
    → t.classes ≡ s.classes
    → ClassFor y s key c
    → ClassFor y t key c
ClassFor-same y s t key c levels classes h =
    Grows-ClassFor y s t key c (levels, λ p held. ap (any p) classes ∙ held) h
