-- ===== src/Kyc/Eligibility.antt =====
-- Who is eligible: what the guard lets through, and what a verification without a new expiry does.
use eco_mint.Prelude.{
  ℕ, String, Bool, true, false, Option, none, some, ◌≡◌, ◌≤◌, sym, ap, ◌∙◌, ◌↔◌, inl, inr, arith,
  Bool-cases, string_has_eq, if◌then◌else◌,
}
use eco_mint.Prelude.Dict.{lookup}
use eco_mint.Kyc.Types.{KycStatus, KycStatusSource, KycRecord, status_eq}
use eco_mint.Kyc.Service.{
  KycService, Call, TransitionOptions, VerifyOptions, get_record, get_status, get_full_status,
  is_eligible, is_eligible_record, can_activate, verify, transition_status,
  resolve_effective_status, in_eligible_set, is_expired_at, compare_status, GuardOutcome, passes,
  refusal_of, reason_or,
}
use eco_mint.Kyc.Cache.{IsSound, IsRead, get_record-IsRead, transition_status-IsTransitioned}

-- The record allows its holder in: verified or accredited, and not expired.
abbrev pub IsCleared : KycRecord → ℕ → Type 0
IsCleared r now = (in_eligible_set r.status ≡ true) × (is_expired_at r.expires_at now ≡ false)

effective-IsCleared :
    (r : KycRecord) (now : ℕ)
    → (compare_status (resolve_effective_status r now) KycStatus.verified ≡ true) ↔ IsCleared r now
unfolding resolve_effective_status
effective-IsCleared r now = ground arith

-- What a stored record says of a clearance at the time `now`.
abbrev pub HasClearance : String → ℕ → KycService → Type 0
HasClearance a now s = (r : KycRecord) × (lookup a s.store.records ≡ some r) × IsCleared r now

read-IsCleared :
    (a : String) (now : ℕ) (s s' : KycService) (r : KycRecord)
    → IsRead a s s' r
    → IsCleared r now ↔ HasClearance a now s
read-IsCleared a now s s' r m = (
  λ h. elim m.source [ inl found ↦ (r, found, h) | inr (absent, pending) ↦ absurd (ground arith) ],
  λ (x, found, h). elim m.source [
    | inl same ↦ ground arith
    | inr (absent, pending) ↦ absurd (ground arith)
  ],
)

-- While Redis answers and the cache agrees with the store, `isEligible` for `verified` holds
-- exactly of an address whose stored record is verified or accredited and has not expired.
pub is_eligible_iff :
    (a : String) (c : Call) (s : KycService)
    → c.redis_up ≡ true
    → IsSound s
    → ((is_eligible a KycStatus.verified c s).1 ≡ true) ↔ HasClearance a c.now s
unfolding is_eligible get_status
is_eligible_iff a c s up v =
    let r = (get_record a c s).1 in
    let (cleared, effective) = effective-IsCleared r c.now in
    let (to, from) =
      read-IsCleared a c.now s (get_record a c s).0 r (get_record-IsRead a c s up v) in
    (λ h. to (cleared h), λ h. effective (from h))

status_eq-true : (x y : KycStatus) → status_eq x y ≡ true → x ≡ y
status_eq-true x y h = ground arith

effective_differs :
    (r : KycRecord) (now : ℕ)
    → status_eq (resolve_effective_status r now) r.status ≡ false
    → resolve_effective_status r now ≡ KycStatus.expired
unfolding resolve_effective_status
effective_differs r now h = ground arith

get_full_status-IsSound :
    (message : Option ℕ → String) (a : String) (c : Call) (s : KycService)
    → c.redis_up ≡ true
    → IsSound s
    → IsSound (get_full_status message a c s).0
      × ((get_full_status message a c s).1.status
          ≡ resolve_effective_status (get_record a c s).1 c.now)
unfolding get_full_status
get_full_status-IsSound message a c s up v =
    let r = (get_record a c s).1 in
    let s' = (get_record a c s).0 in
    let m = get_record-IsRead a c s up v in
    let opts : TransitionOptions = record {
      source = KycStatusSource.system;
      actor = none;
      reason = some (message r.expires_at);
      provider_reference = none;
      expires_at = r.expires_at;
    } in
    let t = transition_status-IsTransitioned a KycStatus.expired opts c s' up m.sound in
    elim (Bool-cases (status_eq (resolve_effective_status r c.now) r.status)) [
      | inl same ↦
          rw same (m.sound, sym (status_eq-true (resolve_effective_status r c.now) r.status same))
      | inr differs ↦ rw differs (t.sound, t.status ∙ sym (effective_differs r c.now differs))
    ]

-- What the guard does with the effective status.
guard_of : KycStatus → GuardOutcome
guard_of k = if compare_status k KycStatus.verified then passes k else refusal_of k

guard_of-passes :
    (r : KycRecord) (now : ℕ) (k : KycStatus)
    → (guard_of (resolve_effective_status r now) ≡ passes k) ↔ (IsCleared r now × (r.status ≡ k))
unfolding guard_of resolve_effective_status
guard_of-passes r now k = ground arith

read_exact :
    (a : String) (now : ℕ) (k : KycStatus) (s s' : KycService) (r : KycRecord)
    → IsRead a s s' r
    → (IsCleared r now × (r.status ≡ k))
      ↔ ((x : KycRecord) × (lookup a s.store.records ≡ some x) × IsCleared x now × (x.status ≡ k))
read_exact a now k s s' r m = (
  λ (h, e). elim m.source [
    | inl found ↦ (r, found, h, e)
    | inr (absent, pending) ↦ absurd (ground arith)
  ],
  λ (x, found, h, e). elim m.source [
    | inl same ↦ ground arith
    | inr (absent, pending) ↦ absurd (ground arith)
  ],
)

-- While Redis answers and the cache agrees with the store, the guard lets a signed-in wallet pass
-- exactly if its stored record is verified or accredited and has not expired, hands that record's
-- status on, and leaves the cache in agreement with the store.
pub can_activate_iff :
    (message : Option ℕ → String) (a : String) (c : Call) (s : KycService) (k : KycStatus)
    → c.redis_up ≡ true
    → IsSound s
    → (((can_activate message (some a) c s).1 ≡ passes k) ↔ (
        (r : KycRecord) × (lookup a s.store.records ≡ some r) × IsCleared r c.now × (r.status ≡ k)))
      × IsSound (can_activate message (some a) c s).0
unfolding can_activate is_eligible_record guard_of
can_activate_iff message a c s k up v =
    let r = (get_record a c s).1 in
    let m = get_record-IsRead a c s up v in
    let (sound, same) = get_full_status-IsSound message a c s up v in
    let (to, from) = guard_of-passes r c.now k in
    let (out, back) = read_exact a c.now k s (get_record a c s).0 r m in
    ((λ h. out (to (sym (ap guard_of same) ∙ h)), λ h. ap guard_of same ∙ from (back h)), sound)

read_same :
    (a : String) (s s' : KycService) (r : KycRecord) {x : KycRecord}
    → IsRead a s s' r
    → lookup a s.store.records ≡ some x
    → r ≡ x
read_same a s s' r m found = elim m.source [ inl same ↦ cc | inr (absent, pending) ↦ cc ]

effective_late :
    (r x : KycRecord) (now t : ℕ) (accredited : Bool)
    → r ≡ x
    → x.expires_at ≡ some t
    → t ≤ now
    → x.status ≡ (if accredited then KycStatus.accredited else KycStatus.verified)
    → resolve_effective_status r now ≡ KycStatus.expired
unfolding resolve_effective_status
effective_late r x now t accredited e old late status = rw e (ground arith)

-- A new verification that states no expiry keeps the old one: if that has passed, the address is
-- still reported as expired.
pub verify_keeps_expiry :
    (a : String) (opts : VerifyOptions) (c c' : Call) (s : KycService) (r : KycRecord) (t : ℕ)
    → c.redis_up ≡ true
    → c'.redis_up ≡ true
    → IsSound s
    → lookup a s.store.records ≡ some r
    → r.expires_at ≡ some t
    → opts.expires_at ≡ none
    → t ≤ c'.now
    → (get_status a c' (verify a opts c s).0).1 ≡ KycStatus.expired
unfolding verify get_status resolve_effective_status
verify_keeps_expiry a opts c c' s r t up up' v found old new late =
    let status = if opts.accredited then KycStatus.accredited else KycStatus.verified in
    let given : TransitionOptions = record {
      source = KycStatusSource.provider;
      actor = opts.actor;
      reason = some (reason_or opts.reason "KYC verification completed");
      provider_reference = opts.provider_reference;
      expires_at = opts.expires_at;
    } in
    let moved = transition_status-IsTransitioned a status given c s up v in
    let s1 = (transition_status a status given c s).0 in
    let kept : (transition_status a status given c s).1.record_of.expires_at ≡ some t =
      moved.expires_at ∙ rw (new, found) old in
    effective_late (get_record a c' s1).1 (transition_status a status given c s).1.record_of c'.now
      t opts.accredited
      (read_same a s1 (get_record a c' s1).0 (get_record a c' s1).1
        (get_record-IsRead a c' s1 up' moved.sound) moved.found)
      kept late (moved.status)
