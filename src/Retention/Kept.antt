-- ===== src/Retention/Kept.antt =====
-- What a retention run leaves in place (dbs/retention.py).
use mathlib.Core.List.{reverse}
use dbs.Prelude.{
  Bool-cases, not, ◌&&◌, List, [], ap, arith, false, inl, inr, refl, take, true, ℕ, ◌++◌, ◌+◌, ◌∙◌,
  ◌∷◌, ◌≡◌, ◌≤◌, ◌⊎◌,
}
use dbs.Result.{ok, err, configuration_error}
use dbs.Retention.Order.{
  In, In-newest_first, count_of, count_of-newest_first, elem-first_passed, elem-names_of, is_as_new,
  newest_first-IsSorted,
}
use dbs.Retention.{
  is_failed, is_passed, StoredBackup, first_passed, kept_names, names_of, newest_first, not_failed,
  stale_from, stale_stored_backups, to_list,
}
use dbs.Text.{Text, elem, elem-append, elem-reverse, text_eq, text_eq_sound}

-- The name is not among those to remove.
abbrev pub Keeps : Text → List Text → Type 0
Keeps name stale = elem name stale ≡ false

stale_from-kept :
    (keep position : ℕ) (kept : List Text) (name : Text) (backups : List StoredBackup)
    → elem name kept ≡ true
    → Keeps name (stale_from keep position kept backups)
unfolding stale_from elem
stale_from-kept keep position kept name [] h = refl
stale_from-kept keep position kept name (b ∷ backups) h = elim (Bool-cases (text_eq b.name name)) [
  | inl same ↦
      let e : elem b.name kept ≡ true =
        ap (λ n. elem n kept) (text_eq_sound b.name name same) ∙ h in
      rw e (stale_from-kept keep (position + 1) kept name backups h)
  | inr other ↦ ground (arith, stale_from-kept keep (position + 1) kept name backups h)
]

-- The run keeps what it counts and the newest backup that passed.
module _ (backups : List StoredBackup) (keep : ℕ) where
  abbrev newest : List StoredBackup
  newest = newest_first backups

  abbrev recent : List Text
  recent = names_of (take keep (not_failed newest))

  abbrev result : List Text
  result = reverse (stale_from keep 0 (kept_names keep newest) newest)

  kept :
      (name : Text) → elem name (recent ++ to_list (first_passed newest)) ≡ true → Keeps name result
  unfolding kept_names
  kept name e =
      elem-reverse name (stale_from keep 0 (kept_names keep newest) newest)
      ∙ stale_from-kept keep 0 (kept_names keep newest) name newest e

  stale-result : 1 ≤ keep → stale_stored_backups backups keep ≡ ok result
  unfolding stale_stored_backups
  stale-result h = ground arith

-- With a positive `keep`, a run does not remove a backup that did not fail verification where at
-- most `keep` such backups, itself among them, are as new; nor one that passed where no other one
-- that passed is as new. `is_as_new` compares the moments, and the names at the same moment.
pub stale_stored_backups-Keeps :
    (backups : List StoredBackup) (keep : ℕ) (b : StoredBackup)
    → 1 ≤ keep
    → In b backups
    → ((is_failed b.verification ≡ false)
        × (count_of (λ a. not (is_failed a.verification) && is_as_new a b) backups ≤ keep))
      ⊎ ((is_passed b.verification ≡ true)
          × (count_of (λ a. is_passed a.verification && is_as_new a b) backups ≤ 1))
    → (stale : List Text) × (stale_stored_backups backups keep ≡ ok stale) × Keeps b.name stale
stale_stored_backups-Keeps backups keep b h m (inl (sound, few)) = (
  result backups keep,
  stale-result backups keep h,
  kept backups keep b.name (
      elem-append b.name (recent backups keep) (to_list (first_passed (newest backups keep)))
      ∙ rw
          (elem-names_of b keep (newest_first backups) (newest_first-IsSorted backups)
            (In-newest_first b backups m) sound
            (rw
              (count_of-newest_first (λ a. not (is_failed a.verification) && is_as_new a b) backups)
              few))
          refl),
)
stale_stored_backups-Keeps backups keep b h m (inr (good, few)) = (
  result backups keep,
  stale-result backups keep h,
  kept backups keep b.name (
      elem-append b.name (recent backups keep) (to_list (first_passed (newest backups keep)))
      ∙ rw
          (elem-first_passed b (newest_first backups) (newest_first-IsSorted backups)
            (In-newest_first b backups m) good
            (rw (count_of-newest_first (λ a. is_passed a.verification && is_as_new a b) backups)
              few))
          (ground arith)),
)

-- A run that is to keep nothing is refused.
stale_stored_backups-zero :
    (backups : List StoredBackup) → stale_stored_backups backups 0 ≡ err configuration_error
unfolding stale_stored_backups
stale_stored_backups-zero backups = refl
