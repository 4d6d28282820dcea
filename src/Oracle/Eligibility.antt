-- ===== src/Oracle/Eligibility.antt =====
-- When a project may pay a coupon, and for how long the answer outlives a challenge.
use eco_mint.Prelude.{
  ℕ, ◌<◌, String, Bool, true, false, Option, none, some, List, [], ◌∷◌, ◌≡◌, ◌↔◌, inl, inr, refl,
  ap, ◌∙◌, sym, arith, any, filter, str_eq_iff, Has, All, Bool-cases, string_has_eq,
}
use eco_mint.Prelude.Dict.{lookup}
use eco_mint.Nonce.{Counters, next}
use eco_mint.Oracle.Types.{ReportStatus, verified, challenged, rejected, status_eq, ReportResponse}
use eco_mint.Oracle.Reports.{
  Oracle, Env, cached, read_reports, get_project_reports, is_blocking, conflicts_with, add_id,
  add_conflicts, conflicting_ids, is_empty, report_ids, coupon_eligibility, get_coupon_eligibility,
  coupon_answer, CouponEligibility,
}
use eco_mint.Oracle.Calls.{
  Outcome, Services, challenge, challenge_call, with_nonce, counted, drop_providers,
}

-- Two reports of one provider and methodology whose periods meet.
pub record IsOverlapping (left right : ReportResponse) : Type 0 where
  pub provider : left.provider_address ≡ right.provider_address
  pub methodology : left.methodology ≡ right.methodology
  pub starts : left.period_start < right.period_end
  pub ends : right.period_start < left.period_end

-- No two of the reports overlap.
abbrev pub AreApart : List ReportResponse → Type 0
AreApart [] = Unit {0}
AreApart (left ∷ rest) = All (λ right. ¬ IsOverlapping left right) rest × AreApart rest

abbrev pub IsSettled : ReportResponse → Type 0
IsSettled r = ¬ (r.status ≡ challenged) × ¬ (r.status ≡ rejected)

abbrev pub IsPayable : List ReportResponse → Type 0
IsPayable reports =
    ((r : ReportResponse) × (Has r reports × (r.status ≡ verified)))
    × (All IsSettled reports × AreApart reports)

conflicts_with_iff :
    (left right : ReportResponse) → (conflicts_with left right ≡ true) ↔ IsOverlapping left right
unfolding conflicts_with
conflicts_with_iff left right = (
  λ h. record {
    provider = ground (arith, str_eq_iff left.provider_address right.provider_address);
    methodology = ground (arith, str_eq_iff left.methodology right.methodology);
    starts = ground arith;
    ends = ground arith;
  },
  λ h. ground (
    arith,
    h.provider,
    h.methodology,
    h.starts,
    h.ends,
    str_eq_iff left.provider_address right.provider_address,
    str_eq_iff left.methodology right.methodology,
  ),
)

status_eq_iff : (x y : ReportStatus) → (status_eq x y ≡ true) ↔ (x ≡ y)
status_eq_iff x y = ground arith

-- A Boolean test over a list, and the predicate that it decides.
any-some :
    (p : ReportResponse → Bool) (reports : List ReportResponse)
    → (any p reports ≡ true) ↔ ((r : ReportResponse) × (Has r reports × (p r ≡ true)))
any-some p [] = (λ h. absurd (ground arith), λ (r, (m, t)). absurd m)
any-some p (x ∷ reports) = elim (Bool-cases (p x)) [
  | inl is ↦ (λ h. (x, (inl refl, is)), λ h. rw is refl)
  | inr isnt ↦ rw isnt (
    λ h. let (r, (m, t)) = (any-some p reports).0 h in (r, (inr m, t)),
    λ (r, (m, t)). elim m [
      | inl e ↦ absurd (ground (arith, sym t ∙ ap p e ∙ isnt))
      | inr k ↦ (any-some p reports).1 (r, (k, t))
    ],
  )
]

filter-empty :
    (P : ReportResponse → Type 0) (p : ReportResponse → Bool)
    → ((r : ReportResponse) → (p r ≡ false) ↔ P r)
    → (reports : List ReportResponse)
    → (is_empty (report_ids (filter p reports)) ≡ true) ↔ All P reports
filter-empty P p decides [] = (λ h. tt, λ h. refl)
filter-empty P p decides (x ∷ reports) = elim (Bool-cases (p x)) [
  | inl is ↦
      rw is (
        λ h. absurd (ground arith),
        λ (here, rest). absurd (ground (arith, is, (decides x).1 here)),
      )
  | inr isnt ↦ rw isnt (
    λ h. ((decides x).0 isnt, (filter-empty P p decides reports).0 h),
    λ (here, rest). (filter-empty P p decides reports).1 rest,
  )
]

is_blocking_iff : (r : ReportResponse) → (is_blocking r ≡ false) ↔ IsSettled r
is_blocking_iff r = (
  λ h. (
    λ e. absurd (ground (arith, status_eq_iff r.status challenged)),
    λ e. absurd (ground (arith, status_eq_iff r.status rejected)),
  ),
  λ (a, b). elim (Bool-cases (is_blocking r)) [
    | inl is ↦ ground (arith, status_eq_iff r.status challenged, status_eq_iff r.status rejected)
    | inr isnt ↦ isnt
  ],
)

add_id-nonempty : (id : ℕ) (ids : List ℕ) → is_empty (add_id id ids) ≡ false
unfolding add_id
add_id-nonempty id [] = refl
add_id-nonempty id (x ∷ ids) = ground arith

conflicts_with-false :
    (left right : ReportResponse) → conflicts_with left right ≡ false → ¬ IsOverlapping left right
conflicts_with-false left right h m = ground (arith, (conflicts_with_iff left right).1 m)

add_conflicts-empty :
    (left : ReportResponse) (rest : List ReportResponse) (ids : List ℕ)
    → (is_empty (add_conflicts left rest ids) ≡ true)
      ↔ ((is_empty ids ≡ true) × All (λ right. ¬ IsOverlapping left right) rest)
unfolding add_conflicts
add_conflicts-empty left [] ids = (λ h. (h, tt), λ (h, k). h)
add_conflicts-empty left (right ∷ rest) ids = elim (Bool-cases (conflicts_with left right)) [
  | inl is ↦ rw is (
    λ h. absurd (
        ground (
          arith,
          add_id-nonempty right.id (add_id left.id ids),
          ((add_conflicts-empty left rest (add_id right.id (add_id left.id ids))).0 h).0,
        )),
    λ (h, (apart, k)). absurd (apart ((conflicts_with_iff left right).0 is)),
  )
  | inr isnt ↦ rw isnt (
    λ h.
        let (e, k) = (add_conflicts-empty left rest ids).0 h in
        (e, (conflicts_with-false left right isnt, k)),
    λ (h, (apart, k)). (add_conflicts-empty left rest ids).1 (h, k),
  )
]

conflicting_ids-empty :
    (reports : List ReportResponse) (ids : List ℕ)
    → (is_empty (conflicting_ids reports ids) ≡ true) ↔ ((is_empty ids ≡ true) × AreApart reports)
unfolding conflicting_ids
conflicting_ids-empty [] ids = (λ h. (h, tt), λ (h, k). h)
conflicting_ids-empty (left ∷ rest) ids =
    let (out, back) = conflicting_ids-empty rest (add_conflicts left rest ids) in
    let (first, again) = add_conflicts-empty left rest ids in
    (
      λ h. let (e, k) = out h in let (e', here) = first e in (e', (here, k)),
      λ (h, (here, k)). back (again (h, here), k),
    )

verified_iff :
    (reports : List ReportResponse)
    → (any (λ (r : ReportResponse). status_eq r.status verified) reports ≡ true)
      ↔ ((r : ReportResponse) × (Has r reports × (r.status ≡ verified)))
verified_iff reports =
    let (out, back) = any-some (λ (r : ReportResponse). status_eq r.status verified) reports in
    (
      λ h. let (r, (m, t)) = out h in (r, (m, (status_eq_iff r.status verified).0 t)),
      λ (r, (m, t)). back (r, (m, (status_eq_iff r.status verified).1 t)),
    )

coupon_eligibility_iff :
    (project : String) (reports : List ReportResponse)
    → ((coupon_eligibility project reports).eligible ≡ true) ↔ IsPayable reports
unfolding coupon_eligibility
coupon_eligibility_iff project reports =
    let (seen, see) = verified_iff reports in
    let (settled, settle) = filter-empty IsSettled is_blocking is_blocking_iff reports in
    let (apart, part) = conflicting_ids-empty reports [] in
    (
      λ h. (seen (ground arith), (settled (ground arith), (apart (ground arith)).1)),
      λ (a, (b, c)). ground (arith, see a, settle b, part (refl, c)),
    )

answer-reasons :
    (project : String) (seen : Bool) (blocking conflicting : List ℕ)
    → ((coupon_answer project seen blocking conflicting).eligible ≡ true)
      ↔ ((coupon_answer project seen blocking conflicting).reasons ≡ [])
answer-reasons project seen blocking conflicting = ground arith

-- The answer to a request whose reports come from the ledger.
abbrev pub IsAnswered : Env → String → Oracle → (CouponEligibility → Type 0) → Type 0
IsAnswered env project o Holds =
    (e : CouponEligibility) × (((get_coupon_eligibility env project o).1 ≡ some e) × Holds e)

get_project_reports-read :
    (env : Env) (project : String) (o : Oracle) (ids : List ℕ)
    → cached env (lookup project o.reports) ≡ none
    → env.get_project_reports project ≡ some ids
    → (get_project_reports env project o).1 ≡ some (read_reports env ids)
unfolding get_project_reports
get_project_reports-read env project o ids missed listed =
    rw (get_project_reports, missed, listed) refl

get_project_reports-hit :
    (env : Env) (project : String) (o : Oracle) (reports : List ReportResponse)
    → cached env (lookup project o.reports) ≡ some reports
    → (get_project_reports env project o).1 ≡ some reports
unfolding get_project_reports
get_project_reports-hit env project o reports hit = rw (get_project_reports, hit) refl

answer-of :
    (env : Env) (project : String) (o : Oracle) (reports : List ReportResponse)
    → (get_project_reports env project o).1 ≡ some reports
    → (get_coupon_eligibility env project o).1 ≡ some (coupon_eligibility project reports)
unfolding get_coupon_eligibility
answer-of env project o reports e = rw (get_coupon_eligibility, e) refl

reasons_iff :
    (project : String) (reports : List ReportResponse)
    → ((coupon_eligibility project reports).eligible ≡ true)
      ↔ ((coupon_eligibility project reports).reasons ≡ [])
unfolding coupon_eligibility
reasons_iff project reports =
    answer-reasons project (any (λ (r : ReportResponse). status_eq r.status verified) reports)
      (report_ids (filter is_blocking reports)) (conflicting_ids reports [])

-- Where no cached copy answers and the ledger lists the project's reports, the request is answered
-- the project is eligible for a coupon exactly if one of the reports that can be read is verified,
-- none is challenged or rejected, and no two of a provider and methodology overlap; and exactly then
-- no reason against it is given.
pub get_coupon_eligibility-eligible_iff :
    (env : Env) (project : String) (o : Oracle) (ids : List ℕ)
    → cached env (lookup project o.reports) ≡ none
    → env.get_project_reports project ≡ some ids
    → IsAnswered env project o (λ e.
      ((e.eligible ≡ true) ↔ IsPayable (read_reports env ids))
      × ((e.eligible ≡ true) ↔ (e.reasons ≡ [])))
get_coupon_eligibility-eligible_iff env project o ids missed listed =
    let reports = read_reports env ids in
    (
      coupon_eligibility project reports,
      (
        answer-of env project o reports (get_project_reports-read env project o ids missed listed),
        (coupon_eligibility_iff project reports, reasons_iff project reports),
      ),
    )

counted-reports :
    (o : Oracle) (body : ℕ → Oracle → Outcome (Unit {0})) (r : Counters × Option ℕ)
    → ((n : ℕ) (o' : Oracle) → (body n o').oracle.reports ≡ o'.reports)
    → (counted o body r).oracle.reports ≡ o.reports
counted-reports o body (counters, none) kept = refl
counted-reports o body (counters, some nonce) kept = kept nonce (record o { nonces = counters })

drop_providers-reports : (env : Env) (o : Oracle) → (drop_providers env o).reports ≡ o.reports
drop_providers-reports env o = ground arith

challenge_call-reports :
    (env : Env) (svc : Services) (report_id : ℕ) (evidence challenger : String)
    (reply : Option (Unit {0})) (n : ℕ) (o : Oracle)
    → (challenge_call env svc report_id evidence challenger reply n o).oracle.reports ≡ o.reports
unfolding challenge_call
challenge_call-reports env svc report_id evidence challenger none n o = refl
challenge_call-reports env svc report_id evidence challenger (some _) n o =
    drop_providers-reports env o

challenge-reports :
    (env : Env) (svc : Services) (report_id : ℕ) (evidence challenger : String)
    (reply : Option (Unit {0})) (o : Oracle)
    → (challenge env svc report_id evidence challenger reply o).oracle.reports ≡ o.reports
unfolding challenge with_nonce
challenge-reports env svc report_id evidence challenger reply o =
    counted-reports o (challenge_call env svc report_id evidence challenger reply)
      (next env.redis_up env.oracle_consumer challenger o.nonces)
      (challenge_call-reports env svc report_id evidence challenger reply)

-- A challenge leaves the cached reports of every project: while they live, the eligibility of their
-- project is answered from them as before the challenge, whatever the ledger says.
pub challenge-keeps_eligibility :
    (env later : Env) (svc : Services) (report_id : ℕ) (evidence challenger project : String)
    (reply : Option (Unit {0})) (o : Oracle) (reports : List ReportResponse)
    → cached later (lookup project o.reports) ≡ some reports
    → (get_coupon_eligibility later project
        (challenge env svc report_id evidence challenger reply o).oracle).1
      ≡ some (coupon_eligibility project reports)
challenge-keeps_eligibility env later svc report_id evidence challenger project reply o reports
      hit =
    let o' = (challenge env svc report_id evidence challenger reply o).oracle in
    answer-of later project o' reports (
      get_project_reports-hit later project o' reports (
        ap (λ kept. cached later (lookup project kept))
          (challenge-reports env svc report_id evidence challenger reply o)
        ∙ hit))
