-- ===== src/Event/Delivery.antt =====
-- The inserts of notifications that app/domains/tenant/service.py makes one after another: each is
-- checked by the database and committed at once, so a refusal keeps those before it.
use mathlib.Core.List.{append_assoc, append-nil}
use sams_backend.Base.{
  List, [], ◌∷◌, ◌++◌, Action, Result, ok, err, Error, pure, checked, ◌>>◌, ◌>>=◌, and_then, ⊤,
  Bool, Passed, checked-ends, All, ◌≡◌, ◌⊎◌, refl, sym, ap, ◌∙◌, inl, inr,
}
use sams_backend.Tenant.{NotificationRow, Store, sent, notification_checks}

pub sent-nil : (s : Store) → s ≡ sent s []
sent-nil s = ap (λ n. record s { notifications = n }) (sym (append-nil _))

sent-sent : (s : Store) (a b : List NotificationRow) → sent (sent s a) b ≡ sent s (a ++ b)
sent-sent s a b = ap (λ n. record s { notifications = n }) (append_assoc s.notifications a b)

-- The insert of one row, and of several.
abbrev pub send_row : NotificationRow → Action Store ⊤
send_row n s = checked (notification_checks n s) (pure tt) (λ t. sent t (n ∷ [])) s

unfoldable pub send_rows : List NotificationRow → Action Store ⊤
send_rows [] = pure tt
send_rows (n ∷ ns) = send_row n >> send_rows ns

-- The database takes the row: the title fits, and the event and the recipient exist.
abbrev pub Accepted : Store → NotificationRow → Type 0
Accepted s n = Passed (notification_checks n s)

checked-Passed :
    {S A : Type 0} (cs : List (Bool × Error)) (m : Action S A) (write : S → S) (s : S)
    → Passed cs
    → checked cs m write s ≡ m (write s)
checked-Passed [] m write s h = refl
checked-Passed ((b, e) ∷ cs) m write s h = rw h.0 (checked-Passed cs m write s h.1)

send_row-Accepted :
    (n : NotificationRow) (s : Store) → Accepted s n → send_row n s ≡ (ok tt, sent s (n ∷ []))
send_row-Accepted n s h =
    checked-Passed (notification_checks n s) (pure tt) (λ t. sent t (n ∷ [])) s h

-- A chain, by the outcome of its first step.
pub bind_at :
    {S A B : Type 0} (m : Action S A) (k : A → Action S B) (s : S) (out : Result A × S)
    → m s ≡ out
    → (m >>= k) s ≡ and_then k out
bind_at m k s out h = ap (and_then k) h

-- Where each row is accepted, all of them are stored.
pub send_rows-Accepted :
    (rows : List NotificationRow) (s : Store)
    → All (Accepted s) rows
    → send_rows rows s ≡ (ok tt, sent s rows)
unfolding send_rows
send_rows-Accepted [] s h = ap (λ t. (ok tt, t)) (sent-nil s)
send_rows-Accepted (n ∷ ns) s h =
    bind_at (send_row n) (λ _. send_rows ns) s (ok tt, sent s (n ∷ [])) (send_row-Accepted n s h.0)
    ∙ send_rows-Accepted ns (sent s (n ∷ [])) h.1
    ∙ ap (λ t. (ok tt, t)) (sent-sent s (n ∷ []) ns)

-- A call that has raised after some of the rows: those before the refused one are stored.
abbrev pub Stopped : List NotificationRow → Store → Result ⊤ × Store → Type 0
Stopped rows s out =
    (e : Error) × (done : List NotificationRow) × (rest : List NotificationRow) × (rows
      ≡ done ++ rest)
    × (out ≡ (err e, sent s done))

Stopped-next :
    (n : NotificationRow) (ns : List NotificationRow) (s : Store)
    → Accepted s n
    → Stopped ns (sent s (n ∷ [])) (send_rows ns (sent s (n ∷ [])))
    → Stopped (n ∷ ns) s (send_rows (n ∷ ns) s)
unfolding send_rows
Stopped-next n ns s taken (e, done, rest, split, out) = (
  e,
  n ∷ done,
  rest,
  ap (λ rows. n ∷ rows) split,
  bind_at (send_row n) (λ _. send_rows ns) s (ok tt, sent s (n ∷ [])) (send_row-Accepted n s taken)
      ∙ out
      ∙ ap (λ t. (err e, t)) (sent-sent s (n ∷ []) done),
)

pub send_rows-ends :
    (rows : List NotificationRow) (s : Store)
    → All (Accepted s) rows ⊎ Stopped rows s (send_rows rows s)
unfolding send_rows
send_rows-ends [] s = inl tt
send_rows-ends (n ∷ ns) s =
    elim (checked-ends (pure tt) s (λ t. sent t (n ∷ [])) (notification_checks n s)) [
      | inl (e, refused) ↦ inr (
        e,
        [],
        n ∷ ns,
        refl,
        bind_at (send_row n) (λ _. send_rows ns) s (err e, s) refused
            ∙ ap (λ t. (err e, t)) (sent-nil s),
      )
      | inr passed ↦ elim (send_rows-ends ns (sent s (n ∷ []))) [
        | inl rest ↦ inl (passed.0, rest)
        | inr stopped ↦ inr (Stopped-next n ns s passed.0 stopped)
      ]
    ]

pub bind_assoc :
    {A : Type 0} (out : Result ⊤ × Store) (k : Action Store ⊤) (last : Action Store A)
    → and_then (λ _. last) (and_then (λ _. k) out) ≡ and_then (λ _. k >> last) out
bind_assoc (ok a, t) k last = refl
bind_assoc (err e, t) k last = refl

-- Rows that are sent in two runs.
pub send_rows-append :
    (a b : List NotificationRow) (s : Store) → send_rows (a ++ b) s ≡ (send_rows a >> send_rows b) s
unfolding send_rows
send_rows-append [] b s = refl
send_rows-append (n ∷ a) b s =
    ap (λ (rest : Action Store ⊤). (send_row n >> rest) s) (λ i t. send_rows-append a b t i)
    ∙ sym (bind_assoc (send_row n s) (send_rows a) (send_rows b))

-- What follows a run of rows may assume that they are stored.
pub send_rows_then :
    {A : Type 0} (rows : List NotificationRow) (k k' : Action Store A) (s : Store)
    → k (sent s rows) ≡ k' (sent s rows)
    → (send_rows rows >> k) s ≡ (send_rows rows >> k') s
send_rows_then rows k k' s h = elim (send_rows-ends rows s) [
  | inl taken ↦
      let stored = send_rows-Accepted rows s taken in
      bind_at (send_rows rows) (λ _. k) s (ok tt, sent s rows) stored
      ∙ h
      ∙ sym (bind_at (send_rows rows) (λ _. k') s (ok tt, sent s rows) stored)
  | inr (e, done, rest, split, out) ↦
      bind_at (send_rows rows) (λ _. k) s (err e, sent s done) out
      ∙ sym (bind_at (send_rows rows) (λ _. k') s (err e, sent s done) out)
]

pub send_row_then :
    {A : Type 0} (n : NotificationRow) (k k' : Action Store A) (s : Store)
    → k (sent s (n ∷ [])) ≡ k' (sent s (n ∷ []))
    → (send_row n >> k) s ≡ (send_row n >> k') s
send_row_then n k k' s h =
    elim (checked-ends (pure tt) s (λ t. sent t (n ∷ [])) (notification_checks n s)) [
      | inl (e, refused) ↦
          bind_at (send_row n) (λ _. k) s (err e, s) refused
          ∙ sym (bind_at (send_row n) (λ _. k') s (err e, s) refused)
      | inr passed ↦
          let stored = send_row-Accepted n s passed.0 in
          bind_at (send_row n) (λ _. k) s (ok tt, sent s (n ∷ [])) stored
          ∙ h
          ∙ sym (bind_at (send_row n) (λ _. k') s (ok tt, sent s (n ∷ [])) stored)
    ]

pub and_then-pure : (out : Result ⊤ × Store) → out ≡ and_then (λ _. pure tt) out
and_then-pure (ok tt, t) = refl
and_then-pure (err e, t) = refl
