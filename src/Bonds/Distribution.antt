-- ===== src/Bonds/Distribution.antt =====
-- When a coupon reaches the contract, for whom, and what a refusal costs.
use eco_mint.Prelude.{
  ℕ, ◌+◌, ◌-◌, String, true, false, Option, none, some, List, ◌≡◌, ◌↔◌, inl, inr, refl, sym, ap,
  ◌∙◌, arith, Bool-cases, Option-cases, if◌then◌else◌, str_eq_iff, pair_has_eq, pair_eq,
  string_has_eq,
}
use eco_mint.Prelude.Dict.{lookup, insert, lookup-insert}
use eco_mint.Nonce.{next, incr, count_or_zero}
use eco_mint.Holders.Index.{HolderIndex, get_holders_for_coupon}
use eco_mint.Oracle.Types as Report
use eco_mint.Oracle.Types.{ReportResponse, ReportStatus}
use eco_mint.Oracle.Reports as Oracle
use eco_mint.Bonds.Reads.{Bonds, Env}
use eco_mint.Bonds.Calls.{
  Invocation, distribute_coupon, Reply, fails, answers, Outcome, Response, BondError, refuse,
  with_nonce, sent, DistributeCouponDto, dispute, checked, report_error, distribute_call,
  pay_holders, distribute_counted, distribute,
}

-- The report can be read and is neither challenged nor rejected, or the oracle is not wired in.
abbrev pub IsUndisputed : Option Oracle.Env → ℕ → Type 0
IsUndisputed none report_id = Unit {0}
IsUndisputed (some oracle) report_id =
    (report : ReportResponse) × ((Oracle.get_report oracle report_id ≡ some report)
      × (¬ (report.status ≡ Report.challenged) × ¬ (report.status ≡ Report.rejected)))

report_error_iff :
    (status : ReportStatus)
    → (report_error status ≡ none) ↔ (¬ (status ≡ Report.challenged) × ¬ (status ≡ Report.rejected))
report_error_iff status = ground arith

dispute_iff :
    (oracle : Option Oracle.Env) (report_id : ℕ)
    → (dispute oracle report_id ≡ none) ↔ IsUndisputed oracle report_id
unfolding dispute
dispute_iff none report_id = (λ h. tt, λ h. refl)
dispute_iff (some oracle) report_id = go (Oracle.get_report oracle report_id) refl
  where
    go :
        (read : Option ReportResponse)
        → Oracle.get_report oracle report_id ≡ read
        → (checked read ≡ none) ↔ IsUndisputed (some oracle) report_id
    go none e =
        (λ h. absurd (ground arith), λ (report, (found, k)). absurd (ground (arith, sym e ∙ found)))
    go (some report) e = (
      λ h. (report, (e, (report_error_iff report.status).0 h)),
      λ (other, (found, k)).
          let q : report ≡ other = ground (arith, sym e ∙ found) in
          ap (λ (r : ReportResponse). report_error r.status) q
          ∙ (report_error_iff other.status).1 k,
    )

abbrev pub counter : Env → Bonds → ℕ
counter env s = count_or_zero (lookup (env.coupon_engine, env.admin_address) s.nonces)

-- Who is paid, as the holder index answers.
abbrev pub paid : Env → ℕ → HolderIndex → HolderIndex × Option (List String)
paid env id i = get_holders_for_coupon env.holders true env.max_staleness id i

pub record IsDistributed (env : Env) (oracle : Option Oracle.Env) (id : ℕ)
    (dto : DistributeCouponDto) (s : Bonds) (call : Invocation) : Type 0 where
  pub redis : env.redis_up ≡ true
  pub holders : List String
  pub indexed : (paid env id s.index).1 ≡ some holders
  pub undisputed : IsUndisputed oracle dto.report_id
  pub called :
      call
      ≡ distribute_coupon env.admin_address id dto.period_index holders dto.report_id
          (counter env s)

abbrev pub spent : Env → Bonds → Bonds
spent env s = record s {
  nonces = insert (env.coupon_engine, env.admin_address) (counter env s + 1) s.nonces;
}

with_nonce-up :
    {A : Type 0} (env : Env) (s : Bonds) (body : ℕ → Bonds → Outcome A)
    → env.redis_up ≡ true
    → with_nonce env env.coupon_engine env.admin_address s body ≡ body (counter env s) (spent env s)
unfolding with_nonce next incr
with_nonce-up env s body up =
    let e : counter env s + 1 - 1 ≡ counter env s = omega arith in rw (up, e) refl

with_nonce-down :
    {A : Type 0} (env : Env) (s : Bonds) (body : ℕ → Bonds → Outcome A)
    → env.redis_up ≡ false
    → with_nonce env env.coupon_engine env.admin_address s body
      ≡ refuse s BondError.service_unavailable
unfolding with_nonce next
with_nonce-down env s body down = rw down refl

sent-invoked :
    {A B : Type 0} (call other : Invocation) (reply : Reply A) (s : Bonds)
    (after : A → Bonds × Response B)
    → ((sent call reply s after).invoked ≡ some other) ↔ (other ≡ call)
sent-invoked call other (fails e) s after = (λ h. ground arith, λ h. rw h refl)
sent-invoked call other (answers a) s after = (λ h. ground arith, λ h. rw h refl)

-- The call for the holders that the index gave.
abbrev pub call_of : Env → ℕ → DistributeCouponDto → List String → ℕ → Invocation
call_of env id dto holders nonce =
    distribute_coupon env.admin_address id dto.period_index holders dto.report_id nonce

distribute_call-invoked :
    (env : Env) (id : ℕ) (dto : DistributeCouponDto) (reply : Reply (ℕ × ℕ)) (nonce : ℕ)
    (holders : List String) (s : Bonds) (e : Option BondError) (call : Invocation)
    → ((distribute_call env id dto reply nonce holders s e).invoked ≡ some call)
      ↔ ((e ≡ none) × (call ≡ call_of env id dto holders nonce))
unfolding distribute_call
distribute_call-invoked env id dto reply nonce holders s none call =
    let (out, back) =
      sent-invoked (call_of env id dto holders nonce) call reply s
        (λ credits. (s, Response.returns credits)) in
    (λ h. (refl, out h), λ (e, h). back h)
distribute_call-invoked env id dto reply nonce holders s (some e) call =
    (λ h. absurd (ground arith), λ (n, h). absurd (ground arith))

pay_holders-invoked :
    (env : Env) (oracle : Option Oracle.Env) (id : ℕ) (dto : DistributeCouponDto)
    (reply : Reply (ℕ × ℕ)) (nonce : ℕ) (s : Bonds) (found : Option (List String))
    (call : Invocation)
    → ((pay_holders env oracle id dto reply nonce s found).invoked ≡ some call) ↔ (
        (holders : List String) × ((found ≡ some holders)
          × ((dispute oracle dto.report_id ≡ none) × (call ≡ call_of env id dto holders nonce))))
pay_holders-invoked env oracle id dto reply nonce s none call =
    (λ h. absurd (ground arith), λ (xs, (e, h)). absurd (ground arith))
pay_holders-invoked env oracle id dto reply nonce s (some holders) call =
    let (out, back) =
      distribute_call-invoked env id dto reply nonce holders s (dispute oracle dto.report_id)
        call in
    (
      λ h. (holders, (refl, out h)),
      λ (xs, (e, (fine, called))).
          let q : xs ≡ holders = ground (arith, e) in
          back (fine, called ∙ ap (λ ys. call_of env id dto ys nonce) q),
    )

-- A coupon reaches the contract exactly if Redis counts the nonce, the holder index answers, and the
-- report that it pays on is undisputed; the call then names the holders of the index and carries the
-- next nonce of the administrator.
pub distribute-invokes_iff :
    (env : Env) (oracle : Option Oracle.Env) (id : ℕ) (dto : DistributeCouponDto)
    (reply : Reply (ℕ × ℕ)) (s : Bonds) (call : Invocation)
    → ((distribute env oracle id dto reply s).invoked ≡ some call)
      ↔ IsDistributed env oracle id dto s call
unfolding distribute distribute_counted
distribute-invokes_iff env oracle id dto reply s call =
    let body = distribute_counted env oracle id dto reply in
    let (i, found) = paid env id s.index in
    let (out, back) =
      pay_holders-invoked env oracle id dto reply (counter env s)
        (record (spent env s) { index = i }) found call in
    let (safe, fine) = dispute_iff oracle dto.report_id in
    elim (Bool-cases env.redis_up) [
      | inl up ↦ rw (with_nonce-up env s body up) (
        λ h.
            let (holders, (indexed, (e, called))) = out h in
            record {
              redis = up;
              holders = holders;
              indexed = indexed;
              undisputed = safe e;
              called = called;
            },
        λ d. back (d.holders, (d.indexed, (fine d.undisputed, d.called))),
      )
      | inr down ↦
          rw (with_nonce-down env s body down)
            (λ h. absurd (ground arith), λ d. absurd (ground (arith, down, d.redis)))
    ]

refused-counted :
    (env : Env) (oracle : Option Oracle.Env) (id : ℕ) (dto : DistributeCouponDto)
    (reply : Reply (ℕ × ℕ)) (n : ℕ) (s : Bonds) (e : BondError) (found : Option (List String))
    → dispute oracle dto.report_id ≡ some e
    → ((pay_holders env oracle id dto reply n s found).invoked ≡ none)
      × ((pay_holders env oracle id dto reply n s found).bonds ≡ s)
unfolding distribute_call
refused-counted env oracle id dto reply n s e none disputed = (refl, refl)
refused-counted env oracle id dto reply n s e (some holders) disputed =
    rw (disputed, distribute_call) (refl, refl)

-- A coupon on a report that is challenged, rejected or unreadable makes no call, and still uses up a
-- nonce of the administrator.
pub distribute-refusal_counts :
    (env : Env) (oracle : Option Oracle.Env) (id : ℕ) (dto : DistributeCouponDto)
    (reply : Reply (ℕ × ℕ)) (s : Bonds)
    → env.redis_up ≡ true
    → ¬ IsUndisputed oracle dto.report_id
    → ((distribute env oracle id dto reply s).invoked ≡ none)
      × (counter env (distribute env oracle id dto reply s).bonds ≡ counter env s + 1)
unfolding distribute distribute_counted
distribute-refusal_counts env oracle id dto reply s up disputed =
    let body = distribute_counted env oracle id dto reply in
    let (i, found) = paid env id s.index in
    elim (Option-cases (dispute oracle dto.report_id)) [
      | inl fine ↦ absurd (disputed ((dispute_iff oracle dto.report_id).0 fine))
      | inr (e, refused) ↦
          let (quiet, kept) =
            refused-counted env oracle id dto reply (counter env s)
              (record (spent env s) { index = i }) e found refused in
          rw (with_nonce-up env s body up) (
            quiet,
            ap (counter env) kept
                ∙ (ap count_or_zero (
                      lookup-insert (env.coupon_engine, env.admin_address)
                        (env.coupon_engine, env.admin_address) (counter env s + 1) s.nonces)
                    ∙ same env.coupon_engine env.admin_address (counter env s + 1)),
          )
    ]
  where
    same :
        (a b : String) (n : ℕ)
        → count_or_zero (if pair_eq (a, b) (a, b) then some n else lookup (a, b) s.nonces) ≡ n
    same a b n = ground (arith, str_eq_iff a a, str_eq_iff b b)
