-- ===== src/Updater/Csrf.antt =====
-- `csrf_middleware` of updater/security.py. A request is what the middleware reads of it. `crashed` is
-- the TypeError of `secrets.compare_digest` at texts that are not ASCII. The handler returns a
-- response, and the audit lines written by rejections are counted.
use pv_inverter_master.Base.{
  ℕ, ◌≡◌, refl, String, Bool, true, false, not, ◌&&◌, ◌||◌, Option, none, some, str_eq, eq_iff,
  if◌then◌else◌, is_some, arith, str_eq_self,
}
use pv_inverter_master.Sunspec.{codes, is_ascii}
use pv_inverter_master.Updater.Texts.{strip_prefix, is_empty}

-- `cookie` is none if the request has no `pvim_csrf` cookie, `header` if it has no `X-CSRF-Token`.
pub record Request : Type 0 where
  pub method : String
  pub path : String
  pub cookie : Option String
  pub header : Option String

pub data Answer : Type 0 where
  handled csrf_missing csrf_mismatch crashed : Answer

pub record Response : Type 0 where
  pub answer : Answer
  pub seeded : Bool
  pub audited : ℕ

abbrev pub is_mutating : String → Bool
is_mutating m = str_eq m "POST" || str_eq m "PUT" || str_eq m "PATCH" || str_eq m "DELETE"

unfoldable pub needs_check : Request → Bool
needs_check r = is_mutating r.method && is_some (strip_prefix "/api/update/" r.path)

-- `if not tok`: a missing or an empty text.
abbrev pub is_blank : Option String → Bool
is_blank none = true
is_blank (some t) = is_empty t

-- `secrets.compare_digest`; `none` is the TypeError.
unfoldable pub compare_digest : String → String → Option Bool
compare_digest a b = if is_ascii (codes a) && is_ascii (codes b) then some (str_eq a b) else none

-- `_maybe_seed_csrf_cookie`: the response gets a cookie if the request had none.
abbrev pub seeds : Request → Bool
seeds r = not (is_some r.cookie)

abbrev or_empty : Option String → String
or_empty none = ""
or_empty (some t) = t

abbrev pass : Request → Response
pass r = record { answer = handled; seeded = seeds r; audited = 0 }

compared : Option Bool → Request → Response
compared none r = record { answer = crashed; seeded = false; audited = 0 }
compared (some true) r = pass r
compared (some false) r = record { answer = csrf_mismatch; seeded = false; audited = 1 }

unfoldable pub csrf_middleware : Request → Response
unfolding compared
csrf_middleware r =
    if needs_check r
    then (if is_blank r.cookie || is_blank r.header
        then record { answer = csrf_missing; seeded = seeds r; audited = 1 }
        else compared (compare_digest (or_empty r.cookie) (or_empty r.header)) r)
    else pass r

-- A mutating request to /api/update/ reaches the handler only if its cookie and its header are
-- there, not empty, and equal.
pub handled_needs_token :
    (r : Request)
    → needs_check r ≡ true
    → (csrf_middleware r).answer ≡ handled
    → (t : String) × (r.cookie ≡ some t) × (r.header ≡ some t) × (is_empty t ≡ false)
unfolding csrf_middleware compare_digest
handled_needs_token r n h = go r.cookie r.header refl refl h
  where
    go :
        (c h : Option String)
        → r.cookie ≡ c
        → r.header ≡ h
        → (csrf_middleware r).answer ≡ handled
        → (t : String) × (r.cookie ≡ some t) × (r.header ≡ some t) × (is_empty t ≡ false)
    go none h ec eh k = absurd (ground arith)
    go (some t) none ec eh k = absurd (ground arith)
    go (some t) (some u) ec eh k = (t, ec, ground (arith, eq_iff t u), ground arith)

-- Every request that needs no check is handled. One that does and carries an ASCII token twice is
-- handled too. A rejection for a missing token writes one audit line and seeds a cookie exactly if
-- there was none; a mismatch writes one and never seeds a cookie.
pub csrf_branches :
    (r : Request)
    → (needs_check r ≡ false → (csrf_middleware r).answer ≡ handled)
      × ((t : String)
          → r.cookie ≡ some t
          → r.header ≡ some t
          → is_empty t ≡ false
          → is_ascii (codes t) ≡ true
          → (csrf_middleware r).answer ≡ handled)
      × ((csrf_middleware r).answer ≡ csrf_missing
          → ((csrf_middleware r).audited ≡ 1)
            × ((csrf_middleware r).seeded ≡ not (is_some r.cookie)))
      × ((csrf_middleware r).answer ≡ csrf_mismatch
          → ((csrf_middleware r).audited ≡ 1) × ((csrf_middleware r).seeded ≡ false))
unfolding csrf_middleware compare_digest
csrf_branches r = (
  λ h. ground arith,
  λ t a b c d. ground (arith, str_eq_self t),
  λ h. ground arith,
  λ h. ground arith,
)
