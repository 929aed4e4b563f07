-- ===== src/Account/Scan.antt =====
-- The candidates of a login, and of the scan of all tenants, are accounts of the person.
use sams_backend.Base.{
  String, List, [], ◌∷◌, Option, none, some, Bool, true, false, string_eq, if◌then◌else◌, is_text,
  All, Action, ok, pure, ◌>>=◌, bind-steps, pure-steps, ◌≡◌, sym, ap, ◌∙◌,
}
use sams_backend.Account.{Control, Outside, TenantRow, ParentRow, SuperAdminRow}
use sams_backend.Account.Directory.{get_parent_by_email, get_super_admin_by_email}
use sams_backend.Account.Candidates.{
  Candidate, fetch_login_candidate, fetch_candidates, local_candidate, legacy_scan, keep_some,
}
use sams_backend.Account.Genuine.{
  people, Genuine, Sound, fetch_login_candidate-Sound, local_candidate-Sound,
}

module _ (out : Outside) (email : String) where
  keep_some-Genuine :
      (s : Control) (tenant_id : String) (found : Option Candidate) (more : List Candidate)
      → Sound email s tenant_id found
      → All (Genuine email s) more
      → All (Genuine email s) (keep_some found more)
  keep_some-Genuine s tenant_id none more h k = k
  keep_some-Genuine s tenant_id (some c) more h k = (h.0, k)

  pub fetch_candidates-Genuine :
      (parent : Option ParentRow) (super_admin : Option SuperAdminRow) (tenants : List String)
      (s s' : Control) (cs : List Candidate)
      → get_parent_by_email email (people s) ≡ parent
      → get_super_admin_by_email email (people s) ≡ super_admin
      → fetch_candidates out email parent super_admin tenants s ≡ (ok cs, s')
      → All (Genuine email (people s)) cs
  unfolding fetch_candidates
  fetch_candidates-Genuine parent super_admin [] s s' cs known admin h =
      rw (sym (pure-steps [] cs s s' h).0) tt
  fetch_candidates-Genuine parent super_admin (tenant_id ∷ rest) s s' cs known admin h =
      let next : Option Candidate → Action Control (List Candidate) = λ found.
        fetch_candidates out email parent super_admin rest >>= λ more.
        pure (keep_some found more) in
      let (found, t, first, h1) =
        bind-steps (fetch_login_candidate out email tenant_id parent super_admin) next s s' cs h in
      let (sound, kept) =
        fetch_login_candidate-Sound out email tenant_id parent super_admin s t found known admin
          first in
      let (more, t2, others, h2) =
        bind-steps (fetch_candidates out email parent super_admin rest)
          (λ more. pure (keep_some found more)) t s' cs h1 in
      let all : All (Genuine email (people t)) more =
        fetch_candidates-Genuine parent super_admin rest t t2 more
          (ap (get_parent_by_email email) kept ∙ known)
          (ap (get_super_admin_by_email email) kept ∙ admin) others in
      rw (sym (pure-steps (keep_some found more) cs t2 s' h2).0)
        (keep_some-Genuine (people s) tenant_id found more sound (rw (sym kept) all))

  -- What the scan of all tenants finds.
  abbrev pub Found : Control → Option Candidate → Type 0
  Found s none = Unit
  Found s (some c) = Genuine email s c

  pub scanned :
      (s : Control) (tenant_id : String) (found : Option Candidate)
      → Sound email s tenant_id found
      → Found s found
  scanned s tenant_id none h = tt
  scanned s tenant_id (some c) h = h.0

  scan_step :
      (b : Bool) (tenant_id : String) (s s' : Control) (found : Option Candidate)
      → (if b then local_candidate out email tenant_id else pure none) s ≡ (ok found, s')
      → Found (people s) found × (people s' ≡ people s)
  scan_step true tenant_id s s' found h =
      let (sound, kept) = local_candidate-Sound out email tenant_id s s' found h in
      (scanned (people s) tenant_id found sound, kept)
  scan_step false tenant_id s s' found h =
      let (e1, e2) = pure-steps none found s s' h in (rw (sym e1) tt, ap people (sym e2))

  scan_rest :
      (s s' : Control) (ts : List TenantRow) (found last : Option Candidate)
      → Found (people s) found
      → ((s s' : Control) (last : Option Candidate)
          → legacy_scan out email ts s ≡ (ok last, s')
          → Found (people s) last)
      → (elim found as (λ _. Action Control (Option Candidate)) [
        | some c ↦ pure (some c)
        | none ↦ legacy_scan out email ts
      ])
          s
        ≡ (ok last, s')
      → Found (people s) last
  scan_rest s s' ts none last sound go h = go s s' last h
  scan_rest s s' ts (some c) last sound go h = rw (sym (pure-steps (some c) last s s' h).0) sound

  pub legacy_scan-Found :
      (ts : List TenantRow) (s s' : Control) (last : Option Candidate)
      → legacy_scan out email ts s ≡ (ok last, s')
      → Found (people s) last
  unfolding legacy_scan
  legacy_scan-Found [] s s' last h = rw (sym (pure-steps none last s s' h).0) tt
  legacy_scan-Found (t ∷ ts) s s' last h =
      let next : Option Candidate → Action Control (Option Candidate) =
        λ found. elim found [ some c ↦ pure (some c) | none ↦ legacy_scan out email ts ] in
      let (found, u, first, h1) =
        bind-steps
          (if is_text t.tenant_id then local_candidate out email t.tenant_id else pure none) next s
          s' last h in
      let (sound, kept) = scan_step (is_text t.tenant_id) t.tenant_id s u found first in
      rw (sym kept) (scan_rest u s' ts found last (rw kept sound) (legacy_scan-Found ts) h1)
