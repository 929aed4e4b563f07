-- ===== src/Account/LiveTokens.antt =====
-- How many live tokens a family of refresh tokens has.
use sams_backend.Base.{
  ℕ, ◌+◌, ◌≤◌, String, List, [], ◌∷◌, ◌++◌, some, true, nat_eq, string_eq, eq_self, first_row,
  update_rows, where_rows, length, if◌then◌else◌, ◌≡◌, arith,
}
use sams_backend.Account.{RefreshRow}
use sams_backend.Account.Tokens.{has_digest, is_token, retire, is_live_in, revoke}

abbrev pub live_count : ℕ → List RefreshRow → ℕ
live_count family_id ts = length (where_rows (is_live_in family_id) ts)

-- Every family has at most one live token.
abbrev pub OneLive : List RefreshRow → Type 0
OneLive ts = (family_id : ℕ) → live_count family_id ts ≤ 1

pub live_count-append :
    (f : ℕ) (ts : List RefreshRow) (n : RefreshRow)
    → live_count f (ts ++ n ∷ []) ≡ live_count f ts + (if is_live_in f n then 1 else 0)
live_count-append f [] n = ground arith
live_count-append f (t ∷ ts) n = ground (arith, live_count-append f ts n)

-- Retiring tokens makes none live.
pub live_count-retire_le :
    (f now id new_id : ℕ) (ts : List RefreshRow)
    → live_count f (update_rows (is_token id) (retire now new_id) ts) ≤ live_count f ts
live_count-retire_le f now id new_id [] = omega arith
live_count-retire_le f now id new_id (t ∷ ts) =
    ground (arith, live_count-retire_le f now id new_id ts)

-- Retiring a live token of the family leaves one less.
pub live_count-retire_lt :
    (f now new_id : ℕ) (token_hash : String) (row : RefreshRow) (ts : List RefreshRow)
    → first_row (has_digest token_hash) ts ≡ some row
    → is_live_in f row ≡ true
    → live_count f (update_rows (is_token row.id) (retire now new_id) ts) + 1 ≤ live_count f ts
live_count-retire_lt f now new_id token_hash row [] found alive = cc
live_count-retire_lt f now new_id token_hash row (t ∷ ts) found alive = ground (
  arith,
  eq_self row.id,
  live_count-retire_le f now row.id new_id ts,
  live_count-retire_lt f now new_id token_hash row ts,
)

pub live_count-revoke_le :
    (f g now : ℕ) (ts : List RefreshRow)
    → live_count f (update_rows (is_live_in g) (revoke now) ts) ≤ live_count f ts
live_count-revoke_le f g now [] = omega arith
live_count-revoke_le f g now (t ∷ ts) = ground (arith, live_count-revoke_le f g now ts)
