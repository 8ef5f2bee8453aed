-- ===== src/Moderation/Frozen.antt =====
-- Histories of saves and discards: what a moderator's work keeps.
use avtosh.Common.{
  ℕ, ◌≤◌, ◌≡◌, refl, ap, ◌∙◌, inl, inr, Bool, true, false, List, [], ◌∷◌, arith, count, update,
  Result-cases, Rows, Rows-refl, Rows-update, Rows-trans, count-update-le, count_empty,
  exists-select, touch,
}
use avtosh.Db.{Db, Clock, after}
use avtosh.Db.Moderation.{Adjustment, is_open_adjustment}
use avtosh.Submission.Catalog.{Catalog}
use avtosh.Content.Selections.{Texts}
use avtosh.Moderation.Adjustments.{
  open_adjustment_of, new_adjustment, at_revision, reworked, discarded_row,
}
use avtosh.Moderation.Save.{AdjustmentSaveInput, save_adjustment, discard_adjustment}
use avtosh.Moderation.Saved.{Untouched, Change, saved_changes, discarded_changes}

-- A moderator's request: the time, who asks, for which listing.
pub data SaveOp : Type 0 where
  save : Clock → ℕ → ℕ → AdjustmentSaveInput → SaveOp
  discard : Clock → ℕ → ℕ → ℕ → SaveOp

abbrev pub run_save : Catalog → Texts → SaveOp → Db → Db
run_save catalog texts (SaveOp.save clock moderator i input) db =
    after db (save_adjustment clock catalog texts moderator i input db)
run_save catalog texts (SaveOp.discard clock moderator i expected) db =
    after db (discard_adjustment clock moderator i expected db)

abbrev pub run_saves : Catalog → Texts → List SaveOp → Db → Db
run_saves catalog texts [] db = db
run_saves catalog texts (op ∷ ops) db = run_saves catalog texts ops (run_save catalog texts op db)

-- The evidence of a pass stays; a row that is applied or discarded stays altogether.
abbrev pub FrozenRow : Adjustment → Adjustment → Type 0
FrozenRow a b =
    (b.id ≡ a.id)
    × (b.listing_id ≡ a.listing_id)
    × (b.edit_revision_id ≡ a.edit_revision_id)
    × (b.submitted_listing_revision ≡ a.submitted_listing_revision)
    × (b.submitted_edit_revision_no ≡ a.submitted_edit_revision_no)
    × (b.submitted_data ≡ a.submitted_data)
    × (b.submitted_images ≡ a.submitted_images)
    × (is_open_adjustment a.status ≡ false → b ≡ a)

FrozenRow-refl : (a : Adjustment) → FrozenRow a a
FrozenRow-refl a = (refl, refl, refl, refl, refl, refl, refl, λ h. refl)

FrozenRow-trans : (a b c : Adjustment) → FrozenRow a b → FrozenRow b c → FrozenRow a c
FrozenRow-trans a b c h k = (
  k.0 ∙ h.0,
  k.1 ∙ h.1,
  k.2 ∙ h.2,
  k.3 ∙ h.3,
  k.4 ∙ h.4,
  k.5 ∙ h.5,
  k.6 ∙ h.6,
  λ z. k.7 (ap (λ t. is_open_adjustment t.status) (h.7 z) ∙ z) ∙ h.7 z,
)

-- The rows of before, at the end of the table.
pub data Keeps (l : List Adjustment) : List Adjustment → Type 0 where
  kept : {m : List Adjustment} → Rows FrozenRow l m → Keeps l m
  added : {m : List Adjustment} (a : Adjustment) → Keeps l m → Keeps l (a ∷ m)

Keeps-update :
    (l m : List Adjustment) (p : Adjustment → Bool) (f : Adjustment → Adjustment)
    → ((x : Adjustment) → p x ≡ true → FrozenRow x (f x))
    → Keeps l m
    → Keeps l (update p f m)
unfolding update
Keeps-update l m p f h (Keeps.kept r) = Keeps.kept (
    Rows-trans FrozenRow FrozenRow-trans l m (update p f m) r
      (Rows-update FrozenRow FrozenRow-refl p f m h))
Keeps-update l _ p f h (Keeps.added {m} a k) = Keeps.added (touch p f a) (Keeps-update l m p f h k)

changed-Keeps : (l m n : List Adjustment) → Keeps l m → Change m n → Keeps l n
changed-Keeps l m _ k Change.none_changed = k
changed-Keeps l m _ k (Change.created id input z) = Keeps.added (new_adjustment id input) k
changed-Keeps l m _ k (Change.worked id revision moderator data' plan) =
    Keeps-update l m (at_revision id revision) (reworked data' plan moderator)
      (λ x h. (refl, refl, refl, refl, refl, refl, refl, λ z. absurd (ground (arith, h, z)))) k
changed-Keeps l m _ k (Change.discarded id revision now) =
    Keeps-update l m (at_revision id revision) (discarded_row now)
      (λ x h. (refl, refl, refl, refl, refl, refl, refl, λ z. absurd (ground (arith, h, z)))) k

abbrev pub OneOpen : List Adjustment → Type 0
OneOpen rows = (j : ℕ) → count (open_adjustment_of j) rows ≤ 1

changed-OneOpen : (m n : List Adjustment) → OneOpen m → Change m n → OneOpen n
unfolding count
changed-OneOpen m _ one Change.none_changed j = one j
changed-OneOpen m _ one (Change.created id input z) j = ground (
  arith,
  one j,
  count_empty (open_adjustment_of input.listing_id) m
      (ground (arith, z, exists-select (open_adjustment_of input.listing_id) m)),
)
changed-OneOpen m _ one (Change.worked id revision moderator data' plan) j = omega (
  arith,
  one j,
  count-update-le (at_revision id revision) (open_adjustment_of j) (reworked data' plan moderator) m
      (λ x h k. ground arith),
)
changed-OneOpen m _ one (Change.discarded id revision now) j = omega (
  arith,
  one j,
  count-update-le (at_revision id revision) (open_adjustment_of j) (discarded_row now) m
      (λ x h k. ground arith),
)

Untouched-trans : (a b c : Db) → Untouched a b → Untouched b c → Untouched a c
Untouched-trans a b c h k =
    k
    ∙ ap {B = Db}
        (λ (t : Db). record t {
          adjustments = c.adjustments;
          audits = c.audits;
          next_id = c.next_id;
        })
        h

module _ (catalog : Catalog) (texts : Texts) where
  step-Untouched :
      (op : SaveOp) (db : Db)
      → Untouched db (run_save catalog texts op db)
        × Change db.adjustments (run_save catalog texts op db).adjustments
  step-Untouched (SaveOp.save clock moderator i input) db =
      elim (Result-cases (save_adjustment clock catalog texts moderator i input db)) [
        | inl (x, e) ↦ rw e (refl, Change.none_changed)
        | inr ((row, d), e) ↦ rw e (saved_changes i db clock moderator catalog texts input e)
      ]
  step-Untouched (SaveOp.discard clock moderator i expected) db =
      elim (Result-cases (discard_adjustment clock moderator i expected db)) [
        | inl (x, e) ↦ rw e (refl, Change.none_changed)
        | inr ((row, d), e) ↦ rw e (discarded_changes i db clock moderator expected e)
      ]

  saves-keep :
      (ops : List SaveOp) (first db : Db)
      → Untouched first db
      → Keeps first.adjustments db.adjustments
      → OneOpen db.adjustments
      → let e = run_saves catalog texts ops db in
        Untouched first e × Keeps first.adjustments e.adjustments × OneOpen e.adjustments
  saves-keep [] first db u k one = (u, k, one)
  saves-keep (op ∷ ops) first db u k one =
      let s = step-Untouched op db in
      saves-keep ops first (run_save catalog texts op db)
        (Untouched-trans first db (run_save catalog texts op db) u s.0)
        (changed-Keeps first.adjustments db.adjustments (run_save catalog texts op db).adjustments k
          s.1)
        (changed-OneOpen db.adjustments (run_save catalog texts op db).adjustments one s.1)

  -- Every history of saves and discards, by any moderators, leaves the whole database exactly as it
  -- is but for the adjustments, the audit rows and the generated ids; keeps of every adjustment its
  -- subject and all that was frozen of the submission, and a closed one altogether; and never opens
  -- a second adjustment of a listing, if none had two.
  pub run_saves-Frozen :
      (ops : List SaveOp) (db : Db)
      → OneOpen db.adjustments
      → let e = run_saves catalog texts ops db in
        Untouched db e × Keeps db.adjustments e.adjustments × OneOpen e.adjustments
  run_saves-Frozen ops db one =
      saves-keep ops db db refl (Keeps.kept (Rows-refl FrozenRow FrozenRow-refl db.adjustments)) one
