-- ===== src/WorkReports/Reports/Lifecycle.antt =====
-- The lifecycle of a report as a step relation: work_reports/services.py.
use internet_ms.Base.{
  ℕ, ◌≡◌, ◌∙◌, refl, sym, ap, Bool, true, ◌&&◌, ◌||◌, Option, some, List, [], ◌∷◌, ◌==◌, find,
  found_unique, find-append_some, arith, Bool-cases, inl, inr, if◌then◌else◌, find-All,
}
use internet_ms.Base.Text.{Text}
use internet_ms.Base.Result.{ok}
use internet_ms.Users.Models.{Membership}
use internet_ms.WorkReports.Models.{
  Report, ReportStatus, Store, is_draft, is_rejected, is_submitted, is_approved, same_status,
  is_some,
}
use internet_ms.WorkReports.ServiceDays.{DayRow}
use internet_ms.WorkReports.Reports.{
  Cleaned, submit_report, approve_report, reject_report, update_own_report, correct_approved_report,
  create_report, is_editable,
}
use internet_ms.WorkReports.Reports.Moves.{put, KeepsApproval, IsReplaced, HasMoved, HasCreated}
use internet_ms.WorkReports.Reports.Services.{
  submit_effect, approve_effect, reject_effect, update_effect, correct_effect, create_effect,
}
use internet_ms.WorkReports.Reports.Validity.{IsReviewed, IsValid, moved-IsValid, created-IsValid}

-- The moves of a report's status: it may also stay.
abbrev pub is_move : ReportStatus → ReportStatus → Bool
is_move ReportStatus.draft to = is_draft to || is_submitted to
is_move ReportStatus.rejected to = is_rejected to || is_submitted to
is_move ReportStatus.submitted to = is_submitted to || is_approved to || is_rejected to
is_move ReportStatus.approved to = is_approved to

module _ (valid_fields : Report → Bool) where
  -- One successful call of a lifecycle service.
  pub data Step : Store → Store → Type 0 where
    creates :
        (today : ℕ) (m : Membership) (cleaned : Cleaned) (days : Option (List DayRow)) (s : Store)
        (r : Report) (s' : Store)
        → create_report valid_fields today m cleaned days s ≡ ok (r, s')
        → Step s s'
    updates :
        (today report_id : ℕ) (m : Membership) (cleaned : Cleaned) (days : Option (List DayRow))
        (s : Store) (r : Report) (s' : Store)
        → update_own_report valid_fields today report_id m cleaned days s ≡ ok (r, s')
        → Step s s'
    submits :
        (now today report_id : ℕ) (m : Membership) (s : Store) (r : Report) (s' : Store)
        → submit_report valid_fields now today report_id m s ≡ ok (r, s')
        → Step s s'
    approves :
        (now today report_id : ℕ) (m : Membership) (tenant : Option ℕ) (s : Store) (r : Report)
        (s' : Store)
        → approve_report valid_fields now today report_id m tenant s ≡ ok (r, s')
        → Step s s'
    rejects :
        (today report_id : ℕ) (m : Membership) (reason : Text) (tenant : Option ℕ) (s : Store)
        (r : Report) (s' : Store)
        → reject_report valid_fields today report_id m reason tenant s ≡ ok (r, s')
        → Step s s'
    corrects :
        (today report_id : ℕ) (m : Membership) (cleaned : Cleaned) (reason : Text)
        (days : Option (List DayRow)) (tenant : Option ℕ) (s : Store) (r : Report) (s' : Store)
        → correct_approved_report valid_fields today report_id m cleaned reason days tenant s
          ≡ ok (r, s')
        → Step s s'

  -- Any number of calls, one after the other.
  pub data Reaches : Store → Store → Type 0 where
    stays : {s : Store} → Reaches s s
    follows : {s t u : Store} → Step s t → Reaches t u → Reaches s u

pub find-put :
    (k : ℕ) (r x : Report) (rows : List Report)
    → find (λ y. y.pk == k) rows ≡ some x
    → find (λ y. y.pk == k) (put r rows) ≡ some (if x.pk == r.pk then r else x)
find-put k r x [] h = cc
find-put k r x (y ∷ rows) h = ground (arith, find-put k r x rows)

-- A report with key `k` is there afterwards too, its status has made a move, and an approval is kept.
pub HasNext : ℕ → Report → Store → Type 0
HasNext k x s' =
    (y : Report) × (find (λ r. r.pk == k) s'.reports ≡ some y)
    × (is_move x.status y.status ≡ true)
    × KeepsApproval x y

stays-move : (a : ReportStatus) → is_move a a ≡ true
stays-move ReportStatus.draft = refl
stays-move ReportStatus.submitted = refl
stays-move ReportStatus.rejected = refl
stays-move ReportStatus.approved = refl

moved_next :
    (today : ℕ) (allowed : ReportStatus → ReportStatus → Bool) (r : Report) (s s' : Store)
    → ((a b : ReportStatus) → allowed a b ≡ true → is_move a b ≡ true)
    → HasMoved today allowed r s s'
    → IsValid s
    → (k : ℕ) (x : Report) → find (λ y. y.pk == k) s.reports ≡ some x
    → HasNext k x s'
unfolding HasMoved IsReplaced HasNext
moved_next today allowed r s s' moves (q, old, found, allows, keeps, (key, _, rows, _, _)) valid k x
      here =
    elim (Bool-cases (x.pk == r.pk)) [
      | inl same ↦
          let unique =
            find-All _ (λ y. y.pk == k) s.reports x
              (found_unique (λ y. y.pk) q s.reports old valid.distinct found) here in
          let is_old : x ≡ old = unique (rw (sym key) same) in
          (
            r,
            rw rows (find-put k r x s.reports here ∙ rw same refl),
            rw is_old (moves old.status r.status allows),
            rw is_old keeps,
          )
      | inr other ↦ (
        x,
        rw rows (find-put k r x s.reports here ∙ rw other refl),
        stays-move x.status,
        λ _. (refl, refl),
      )
    ]

created_next :
    (today : ℕ) (r : Report) (s s' : Store)
    → HasCreated today r s s'
    → (k : ℕ) (x : Report) → find (λ y. y.pk == k) s.reports ≡ some x
    → HasNext k x s'
unfolding HasCreated HasNext
created_next today r s s' (_, _, _, rows, _, _) k x here = (
  x,
  rw rows (find-append_some (λ y. y.pk == k) s.reports (r ∷ []) x here),
  stays-move x.status,
  λ _. (refl, refl),
)

submit_moves : (a b : ReportStatus) → (is_editable a && is_submitted b) ≡ true → is_move a b ≡ true
submit_moves a b h = ground arith

approve_moves : (a b : ReportStatus) → (is_submitted a && is_approved b) ≡ true → is_move a b ≡ true
approve_moves a b h = ground arith

reject_moves : (a b : ReportStatus) → (is_submitted a && is_rejected b) ≡ true → is_move a b ≡ true
reject_moves a b h = ground arith

update_moves : (a b : ReportStatus) → (is_editable a && same_status a b) ≡ true → is_move a b ≡ true
update_moves a b h = ground arith

correct_moves : (a b : ReportStatus) → (is_approved a && is_approved b) ≡ true → is_move a b ≡ true
correct_moves a b h = ground arith

module _ (valid_fields : Report → Bool) where
  -- Every successful call keeps the table valid: keys stay distinct, approved reports name approver and
  -- moment, rejected reports have a reason.
  pub step-IsValid : (s s' : Store) → Step valid_fields s s' → IsValid s → IsValid s'
  step-IsValid s s' (creates today m c d _ r _ h) valid =
      created-IsValid today r s s' (create_effect valid_fields today m c d s r s' h) valid
  step-IsValid s s' (updates today k m c d _ r _ h) valid =
      moved-IsValid today _ r s s' (update_effect valid_fields today k m c d s r s' h) valid
  step-IsValid s s' (submits now today k m _ r _ h) valid =
      moved-IsValid today _ r s s' (submit_effect valid_fields now today k m s r s' h) valid
  step-IsValid s s' (approves now today k m t _ r _ h) valid =
      moved-IsValid today _ r s s' (approve_effect valid_fields now today k m t s r s' h) valid
  step-IsValid s s' (rejects today k m why t _ r _ h) valid =
      moved-IsValid today _ r s s' (reject_effect valid_fields today k m why t s r s' h) valid
  step-IsValid s s' (corrects today k m c why d t _ r _ h) valid =
      moved-IsValid today _ r s s' (correct_effect valid_fields today k m c why d t s r s' h) valid

  step_next :
      (s s' : Store)
      → Step valid_fields s s'
      → IsValid s
      → (k : ℕ) (x : Report) → find (λ y. y.pk == k) s.reports ≡ some x
      → HasNext k x s'
  step_next s s' (creates today m c d _ r _ h) valid k x here =
      created_next today r s s' (create_effect valid_fields today m c d s r s' h) k x here
  step_next s s' (updates today i m c d _ r _ h) valid k x here =
      moved_next today _ r s s' update_moves (update_effect valid_fields today i m c d s r s' h)
        valid k x here
  step_next s s' (submits now today i m _ r _ h) valid k x here =
      moved_next today _ r s s' submit_moves (submit_effect valid_fields now today i m s r s' h)
        valid k x here
  step_next s s' (approves now today i m t _ r _ h) valid k x here =
      moved_next today _ r s s' approve_moves (approve_effect valid_fields now today i m t s r s' h)
        valid k x here
  step_next s s' (rejects today i m why t _ r _ h) valid k x here =
      moved_next today _ r s s' reject_moves (reject_effect valid_fields today i m why t s r s' h)
        valid k x here
  step_next s s' (corrects today i m c why d t _ r _ h) valid k x here =
      moved_next today _ r s s' correct_moves
        (correct_effect valid_fields today i m c why d t s r s' h) valid k x here

  -- However many calls follow, an approved report of a valid table is never lost and stays approved, by
  -- the same approver and at the same moment, both of which are set.
  pub approved_forever :
      (s s' : Store)
      → Reaches valid_fields s s'
      → IsValid s
      → (k : ℕ) (x : Report) → find (λ y. y.pk == k) s.reports ≡ some x
      → x.status ≡ ReportStatus.approved
      → (y : Report) × (find (λ r. r.pk == k) s'.reports ≡ some y)
        × (y.status ≡ ReportStatus.approved)
        × (y.approved_by_id ≡ x.approved_by_id)
        × (y.approved_at ≡ x.approved_at)
        × (is_some y.approved_by_id ≡ true)
        × (is_some y.approved_at ≡ true)
  unfolding HasNext
  approved_forever s s' stays valid k x here approved =
      let reviewed = find-All IsReviewed (λ y. y.pk == k) s.reports x valid.reviewed here in
      (
        x,
        here,
        approved,
        refl,
        refl,
        (reviewed.0 (ap is_approved approved)).0,
        (reviewed.0 (ap is_approved approved)).1,
      )
  approved_forever s s' (follows {t = t} step rest) valid k x here approved =
      let (y, there, moves, keeps) = step_next s t step valid k x here in
      let (z, found, still, by, moment, named, timed) =
        approved_forever t s' rest (step-IsValid s t step valid) k y there
          (approved_move y.status (ap (λ a. is_move a y.status) (sym approved) ∙ moves)) in
      let kept = keeps (ap is_approved approved) in
      (z, found, still, by ∙ kept.0, moment ∙ kept.1, named, timed)
    where
      approved_move :
          (b : ReportStatus) → is_move ReportStatus.approved b ≡ true → b ≡ ReportStatus.approved
      approved_move b h = ground arith

  -- In a valid table a successful call keeps every report, and the status of each either stays or makes one
  -- of the four moves: draft or rejected to submitted, submitted to approved or rejected.
  pub step_moves :
      (s s' : Store)
      → Step valid_fields s s'
      → IsValid s
      → (k : ℕ) (x : Report) → find (λ y. y.pk == k) s.reports ≡ some x
      → (y : Report) × (find (λ r. r.pk == k) s'.reports ≡ some y)
        × (is_move x.status y.status ≡ true)
  unfolding HasNext
  step_moves s s' step valid k x here =
      let (y, there, moves, _) = step_next s s' step valid k x here in (y, there, moves)
