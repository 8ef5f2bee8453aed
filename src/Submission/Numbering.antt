-- ===== src/Submission/Numbering.antt =====
-- The publication numbers that submissions hand out.
use avtosh.Common.{ℕ, ◌+◌, ◌≤◌, ◌≡◌, refl, List, [], ◌∷◌, arith, count, max_of, count_empty}
use avtosh.Db.{Db, Clock, after}
use avtosh.Db.Payments.{Publication}
use avtosh.Submission.Store.{publication_of, published_by}
use avtosh.Submission.Catalog.{Catalog}
use avtosh.Submission.Submit.{submit_listing}
use avtosh.Submission.Resubmit.{resubmit_listing}
use avtosh.Submission.Ops.{Op, run, run_all}

-- Newest first: each seller's publications are numbered 1, 2, 3, ... with no gap.
unfoldable pub Consecutive : List Publication → Type 0
Consecutive [] = Unit
Consecutive (p ∷ rest) =
    (p.publication_number ≡ count (published_by p.user_id) rest + 1) × Consecutive rest

-- The numbers are consecutive, and no listing is published twice.
pub record Numbered (db : Db) : Type 0 where
  pub consecutive : Consecutive db.publications
  pub one_each : (i : ℕ) → count (publication_of i) db.publications ≤ 1

pub max_of-count :
    (u : ℕ) (l : List Publication)
    → Consecutive l
    → max_of (published_by u) (λ p. p.publication_number) l ≡ count (published_by u) l
unfolding Consecutive max_of count
max_of-count u [] c = refl
max_of-count u (p ∷ l) c = ground (arith, max_of-count u l c.1)

module _ (catalog : Catalog) (clock : Clock) (db : Db) (n : Numbered db) where
  submit-Consecutive :
      (u i e : ℕ) → Consecutive (after db (submit_listing catalog clock u i e db)).publications
  unfolding submit_listing Consecutive
  submit-Consecutive u i e = ground (arith, n.consecutive, max_of-count u db.publications)

  submit-one_each :
      (u i e j : ℕ)
      → count (publication_of j) (after db (submit_listing catalog clock u i e db)).publications ≤ 1
  unfolding submit_listing count
  submit-one_each u i e j =
      grind (arith, n.one_each j, count_empty (publication_of i) db.publications)

  resubmit-publications :
      (u i e : ℕ)
      → (after db (resubmit_listing catalog clock u i e db)).publications ≡ db.publications
  unfolding resubmit_listing
  resubmit-publications u i e = ground arith

run-Numbered : (clock : Clock) (db : Db) → Numbered db → (op : Op) → Numbered (run clock op db)
run-Numbered clock db n (Op.submit c u i e) = record {
  consecutive = submit-Consecutive c clock db n u i e;
  one_each = submit-one_each c clock db n u i e;
}
run-Numbered clock db n (Op.resubmit c u i e) = record {
  consecutive = rw (resubmit-publications c clock db n u i e) n.consecutive;
  one_each = λ j. rw (resubmit-publications c clock db n u i e) (n.one_each j);
}
run-Numbered clock db n (Op.configure s) = record {
  consecutive = n.consecutive;
  one_each = n.one_each;
}

-- From a database in which each seller's publications are numbered 1, 2, 3, ... in order and no
-- listing has two, every history of submissions, resubmissions and changes of the settings, at any
-- catalogs and clocks, ends in one of the same kind.
pub run_all-Numbered : (ops : List (Clock × Op)) (db : Db) → Numbered db → Numbered (run_all ops db)
run_all-Numbered [] db n = n
run_all-Numbered ((clock, op) ∷ ops) db n =
    run_all-Numbered ops (run clock op db) (run-Numbered clock db n op)
