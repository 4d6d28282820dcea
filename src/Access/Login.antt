-- ===== src/Access/Login.antt =====
-- What a verification of a login challenge demands, and what it leaves of the challenge.
use eco_mint.Prelude.{
  ℕ, ◌+◌, ◌≤◌, ◌<◌, String, Bool, true, false, Option, none, some, List, [], ◌∷◌, ltb, str_eq_iff,
  string_has_eq, ◌≡◌, ◌↔◌, inl, inr, refl, sym, ap, ◌∙◌, arith, Bool-cases, Option-cases,
}
use eco_mint.Prelude.Dict.{lookup, remove, lookup-remove, lookup-insert}
use eco_mint.Access.Challenge.{
  StoredChallenge, Auth, Env, VerifySignatureDto, Login, not_found, issued, generate_challenge,
  alive, check_challenge, verify_signature, Request, asks, verifies, step, run, NoneAsked,
}

check_challenge-challenges :
    (env : Env) (dto : VerifySignatureDto) (c : Option StoredChallenge) (s : Auth)
    → (check_challenge env dto c s).0.challenges ≡ s.challenges
unfolding check_challenge
check_challenge-challenges env dto none s = refl
check_challenge-challenges env dto (some c) s = ground arith

step-keeps :
    (a : String) (r : Request) (s : Auth)
    → NoneAsked a (r ∷ [])
    → lookup a s.challenges ≡ none
    → lookup a (step r s).challenges ≡ none
unfolding generate_challenge verify_signature
step-keeps a (asks env fresh b) s (other, _) gone = ground (
  arith,
  lookup-insert b a
      (
        record {
          challenge = fresh.challenge;
          nonce = fresh.nonce;
          address = b;
          timestamp = env.call.now;
          audience = fresh.audience;
        },
        env.call.now + 300000,
      )
      s.challenges,
)
step-keeps a (verifies env dto) s asked gone = ground (
  arith,
  check_challenge-challenges env dto (alive env.call.now (lookup dto.address s.challenges))
      (record s { challenges = remove dto.address s.challenges }),
  lookup-remove dto.address a s.challenges,
)

run-keeps :
    (a : String) (rs : List Request) (s : Auth)
    → NoneAsked a rs
    → lookup a s.challenges ≡ none
    → lookup a (run rs s).challenges ≡ none
run-keeps a [] s asked gone = gone
run-keeps a (asks env fresh b ∷ rs) s (other, asked) gone =
    run-keeps a rs (step (asks env fresh b) s) asked
      (step-keeps a (asks env fresh b) s (other, tt) gone)
run-keeps a (verifies env dto ∷ rs) s asked gone =
    run-keeps a rs (step (verifies env dto) s) asked (step-keeps a (verifies env dto) s tt gone)

verify_signature-takes :
    (env : Env) (dto : VerifySignatureDto) (s : Auth)
    → env.call.redis_up ≡ true
    → lookup dto.address (verify_signature env dto s).0.challenges ≡ none
unfolding verify_signature
verify_signature-takes env dto s up =
    let c = alive env.call.now (lookup dto.address s.challenges) in
    let rest = record s { challenges = remove dto.address s.challenges } in
    ground (
      arith,
      up,
      check_challenge-challenges env dto c rest,
      lookup-remove dto.address dto.address s.challenges,
      str_eq_iff dto.address dto.address,
    )

verify_signature-absent :
    (env : Env) (dto : VerifySignatureDto) (s : Auth)
    → env.call.redis_up ≡ true
    → lookup dto.address s.challenges ≡ none
    → (verify_signature env dto s).1 ≡ not_found
unfolding verify_signature check_challenge
verify_signature-absent env dto s up gone = rw (up, gone)

-- A challenge is good for one verification: once one was tried for the address, accepted or not,
-- the next one finds none, until a new challenge is asked for.
pub verify_signature-once :
    (env env' : Env) (dto dto' : VerifySignatureDto) (rs : List Request) (s : Auth)
    → env.call.redis_up ≡ true
    → env'.call.redis_up ≡ true
    → dto'.address ≡ dto.address
    → NoneAsked dto.address rs
    → (verify_signature env' dto' (run rs (verify_signature env dto s).0)).1 ≡ not_found
verify_signature-once env env' dto dto' rs s up up' same asked =
    let t = (verify_signature env dto s).0 in
    let gone : lookup dto'.address (run rs t).challenges ≡ none =
      ap (λ a. lookup a (run rs t).challenges) same
      ∙ run-keeps dto.address rs t asked (verify_signature-takes env dto s up) in
    verify_signature-absent env' dto' (run rs t) up' gone

-- A challenge that was stored for the address, is at most 300 seconds old and still in Redis, is the
-- one presented, and was signed as the SDK checks.
pub record IsAuthentic (env : Env) (dto : VerifySignatureDto) (s : Auth) : Type 0 where
  pub stored : StoredChallenge
  pub until : ℕ
  pub found : lookup dto.address s.challenges ≡ some (stored, until)
  pub kept : env.call.now < until
  pub address : stored.address ≡ dto.address
  pub content : stored.challenge ≡ dto.original_challenge
  pub recent : env.call.now ≤ stored.timestamp + 300000
  pub signature : env.signature_ok dto.original_challenge dto.signed_challenge dto.address ≡ true

abbrev pub is_issued : Login → Bool
is_issued (issued sub status) = true
is_issued _ = false

abbrev tag : ℕ → Option StoredChallenge → Option (StoredChallenge × ℕ)
tag until none = none
tag until (some c) = some (c, until)

alive_iff :
    (now : ℕ) (o : Option (StoredChallenge × ℕ)) (c : StoredChallenge)
    → alive now o ≡ some c
    → (until : ℕ) × (o ≡ some (c, until)) × (now < until)
alive_iff now none c h = absurd (ground arith)
alive_iff now (some (d, until)) c h = elim (Bool-cases (ltb now until)) [
  | inl in_time ↦
      let e : some d ≡ some c = rw in_time at h in (until, ap (tag until) e, ground arith)
  | inr late ↦ absurd (ground arith)
]

not_issued :
    (env : Env) (dto : VerifySignatureDto) (s : Auth)
    → is_issued (check_challenge env dto none s).1 ≡ false
unfolding check_challenge
not_issued env dto s = refl

checked_iff :
    (env : Env) (dto : VerifySignatureDto) (c : StoredChallenge) (s : Auth)
    → (is_issued (check_challenge env dto (some c) s).1 ≡ true) ↔ (
        (c.address ≡ dto.address)
        × (c.challenge ≡ dto.original_challenge)
        × (env.call.now ≤ c.timestamp + 300000)
        × (env.has_secret ≡ true)
        × (env.signature_ok dto.original_challenge dto.signed_challenge dto.address ≡ true))
unfolding check_challenge
checked_iff env dto c s =
    ground (arith, str_eq_iff c.address dto.address, str_eq_iff c.challenge dto.original_challenge)

issues_iff :
    (env : Env) (dto : VerifySignatureDto) (s rest : Auth)
    → (is_issued
          (check_challenge env dto (alive env.call.now (lookup dto.address s.challenges)) rest).1
        ≡ true)
      ↔ ((env.has_secret ≡ true) × IsAuthentic env dto s)
issues_iff env dto s rest = (
  λ h. elim (Option-cases (alive env.call.now (lookup dto.address s.challenges))) [
    | inl absent ↦ absurd (
        ground (
          arith,
          not_issued env dto rest,
          ap (λ c. is_issued (check_challenge env dto c rest).1) absent,
        ))
    | inr (c, found) ↦
        let (until, stored, kept) =
          alive_iff env.call.now (lookup dto.address s.challenges) c found in
        let (address, content, recent, secret, signature) =
          (checked_iff env dto c rest).0
            (sym (ap (λ c. is_issued (check_challenge env dto c rest).1) found) ∙ h) in
        (
          secret,
          record {
            stored = c;
            until = until;
            found = stored;
            kept = kept;
            address = address;
            content = content;
            recent = recent;
            signature = signature;
          },
        )
  ],
  λ (secret, a).
      let there : alive env.call.now (lookup dto.address s.challenges) ≡ some a.stored =
        ap (alive env.call.now) a.found ∙ ground (arith, a.kept) in
      ap (λ c. is_issued (check_challenge env dto c rest).1) there
      ∙ (checked_iff env dto a.stored rest).1 (a.address, a.content, a.recent, secret, a.signature),
)

-- Tokens are issued exactly where Redis answers, the server has its key and the challenge is
-- authentic.
pub verify_signature-issues_iff :
    (env : Env) (dto : VerifySignatureDto) (s : Auth)
    → (is_issued (verify_signature env dto s).1 ≡ true)
      ↔ ((env.call.redis_up ≡ true) × (env.has_secret ≡ true) × IsAuthentic env dto s)
unfolding verify_signature
verify_signature-issues_iff env dto s = elim (Bool-cases env.call.redis_up) [
  | inr down ↦ (λ h. absurd (ground (arith, down)), λ (up, _, _). absurd (ground arith))
  | inl up ↦
      let rest = record s { challenges = remove dto.address s.challenges } in
      let found = alive env.call.now (lookup dto.address s.challenges) in
      let asked : (verify_signature env dto s).1 ≡ (check_challenge env dto found rest).1 =
        ground (arith, up) in
      let (out, back) = issues_iff env dto s rest in
      (
        λ h. let (secret, a) = out (sym (ap is_issued asked) ∙ h) in (up, secret, a),
        λ (_, secret, a). ap is_issued asked ∙ back (secret, a),
      )
]
