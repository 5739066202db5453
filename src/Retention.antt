-- ===== src/Retention.antt =====
-- Which stored backups a retention run removes (dbs/retention.py).
pub mod Order
pub mod Kept
pub mod Limit
use mathlib.Core.List.{reverse}
use dbs.Prelude.{
  Bool, List, Option, [], false, if◌then◌else◌, leb, length, ltb, map, none, not, some, take, true,
  ℕ, ◌&&◌, ◌++◌, ◌+◌, ◌-◌, ◌==◌, ◌||◌, ◌∷◌,
}
use dbs.Result.{Result, ok, err, configuration_error, ◌>>=◌}
use dbs.Text.{Text, elem, text_leb}

-- Any text but the two of a verdict counts as unknown.
pub data Verification : Type 0 where
  passed : Verification
  failed : Verification
  unknown : Verification

-- The moment is a number of seconds.
pub record StoredBackup : Type 0 where
  pub name : Text
  pub moment : ℕ
  pub verification : Verification

abbrev pub is_failed : Verification → Bool
is_failed failed = true
is_failed _ = false

abbrev pub is_passed : Verification → Bool
is_passed passed = true
is_passed _ = false

-- `(a.moment, a.name) >= (b.moment, b.name)`
unfoldable pub not_older : StoredBackup → StoredBackup → Bool
not_older a b = ltb b.moment a.moment || (a.moment == b.moment && text_leb b.name a.name)

unfoldable pub insert_newest : StoredBackup → List StoredBackup → List StoredBackup
insert_newest a [] = a ∷ []
insert_newest a (b ∷ backups) =
    if not_older a b then a ∷ b ∷ backups else b ∷ insert_newest a backups

-- `sorted(backups, key=..., reverse=True)`, which keeps the order of equal keys
unfoldable pub newest_first : List StoredBackup → List StoredBackup
unfolding insert_newest
newest_first [] = []
newest_first (a ∷ backups) = insert_newest a (newest_first backups)

unfoldable pub not_failed : List StoredBackup → List StoredBackup
not_failed [] = []
not_failed (b ∷ backups) =
    let others = not_failed backups in if is_failed b.verification then others else b ∷ others

abbrev pub names_of : List StoredBackup → List Text
names_of = map (λ b. b.name)

-- the name of the first backup that passed
unfoldable pub first_passed : List StoredBackup → Option Text
first_passed [] = none
first_passed (b ∷ backups) =
    let others = first_passed backups in if is_passed b.verification then some b.name else others

abbrev pub to_list : Option Text → List Text
to_list none = []
to_list (some name) = name ∷ []

-- `{verified} if verified else set()`: an empty name counts as none
abbrev pub truthy : Option Text → List Text
truthy none = []
truthy (some []) = []
truthy (some (c ∷ name)) = (c ∷ name) ∷ []

-- The comprehension over `enumerate(newest_first)`, from `position` on.
unfoldable pub stale_from : ℕ → ℕ → List Text → List StoredBackup → List Text
stale_from keep position kept [] = []
stale_from keep position kept (b ∷ backups) =
    let others = stale_from keep (position + 1) kept backups in
    if not (elem b.name kept) && (not (is_failed b.verification) || leb keep position)
    then b.name ∷ others
    else others

unfoldable pub kept_names : ℕ → List StoredBackup → List Text
unfolding not_failed first_passed
kept_names keep newest = names_of (take keep (not_failed newest)) ++ to_list (first_passed newest)

unfoldable pub stale_stored_backups : List StoredBackup → ℕ → Result (List Text)
stale_stored_backups backups keep =
    let newest = newest_first backups in
    if ltb keep 1
    then err configuration_error
    else ok (reverse (stale_from keep 0 (kept_names keep newest) newest))

-- `set(names) - set(others)`
unfoldable pub without : List Text → List Text → List Text
without [] others = []
without (n ∷ names) others =
    let rest = without names others in if elem n others then rest else n ∷ rest

-- The loop over `reversed(remaining)` while there is a surplus.
unfoldable pub drop_surplus : List Text → ℕ → List Text → List Text → List Text
drop_surplus protected surplus stale [] = stale
drop_surplus protected surplus stale (name ∷ names) = elim (surplus == 0) [
  | true ↦ stale
  | false ↦ elim (elem name protected) [
    | true ↦ drop_surplus protected surplus stale names
    | false ↦ drop_surplus protected (surplus - 1) (name ∷ stale) names
  ]
]

-- The names of `names` that are in `others`, in order.
unfoldable pub those_in : List Text → List Text → List Text
those_in [] others = []
those_in (n ∷ names) others =
    let rest = those_in names others in if elem n others then n ∷ rest else rest

-- `surplus` is cut off at 0 where the source's is negative: the loop stops at both.
unfoldable pub stale_beyond_limit : List StoredBackup → ℕ → List Text → Result (List Text)
stale_beyond_limit backups keep protect = do
  let newest = newest_first backups
  let protected = protect ++ truthy (first_passed newest)
  old ← stale_stored_backups backups keep
  let stale = without old protected
  let remaining = without (names_of newest) stale
  let all = drop_surplus protected (length remaining - keep) stale (reverse remaining)
  ok (those_in (reverse (names_of newest)) all)
