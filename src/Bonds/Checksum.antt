-- ===== src/Bonds/Checksum.antt =====
-- What the checksum of an export depends on, and which events an export lists.
use eco_mint.Prelude.{
  ℕ, suc, zero, List, [], ◌∷◌, ◌≡◌, refl, sym, ap, ◌∙◌, length, if◌then◌else◌, Bool-cases, inl, inr,
}
use eco_mint.Bonds.Types.{RawConfig, RawState}
use eco_mint.Bonds.Export.{
  Json, object, array, Items, nil, cons, end, field, Texts, allow, allow_items, items, payload_json,
  sorted_keys, checksum, Payload, lifecycle_events, exported_matured, holder_json,
  distribution_json, retirement_json, bond_json,
}

-- An array of `n` objects without properties.
blanks : ℕ → Items
blanks zero = nil
blanks (suc n) = cons (object end) (blanks n)

items-blanks :
    {A : Type 0} (f : A → Json) (xs : List A)
    → ((x : A) → allow sorted_keys (f x) ≡ object end)
    → allow_items sorted_keys (items f xs) ≡ blanks (length xs)
unfolding allow_items blanks
items-blanks f [] blank = refl
items-blanks f (x ∷ xs) blank = rw (blank x, items-blanks f xs blank) refl

bond-blank :
    (t : Texts) (id : ℕ) (config : RawConfig) (state : RawState)
    → allow sorted_keys (bond_json t id config state) ≡ object end
unfolding allow
bond-blank t id config state = refl

events-blank :
    (t : Texts) (config : RawConfig) (state : RawState)
    → allow_items sorted_keys (items (λ x. x) (lifecycle_events t config state))
      ≡ blanks (if exported_matured t state.status then 2 else 1)
unfolding allow lifecycle_events blanks
events-blank t config state = elim (Bool-cases (exported_matured t state.status)) [
  | inl is ↦ rw is refl
  | inr isnt ↦ rw isnt refl
]

-- What is hashed of a payload with so many events, holders, distributions and retirements.
skeleton : ℕ → ℕ → ℕ → ℕ → Json
skeleton events holders distributions retirements = object (
    field "bond" (object end) (
      field "couponDistributions" (array (blanks distributions)) (
        field "generationMetadata" (object end) (
          field "holders" (array (blanks holders)) (
            field "lifecycleEvents" (array (blanks events))
              (field "retirements" (array (blanks retirements)) end))))))

payload-skeleton :
    (t : Texts) (p : Payload)
    → allow sorted_keys (payload_json t p)
      ≡ skeleton
          (if exported_matured t p.state.status then 2 else 1)
          (length p.holders)
          (length p.distributions)
          (length p.retirements)
unfolding allow payload_json skeleton
payload-skeleton t p =
    rw
      (
        sym (events-blank t p.config p.state),
        sym (items-blanks (holder_json t) p.holders (λ x. unfold allow in refl)),
        sym (items-blanks (distribution_json t) p.distributions (λ x. unfold allow in refl)),
        sym (items-blanks (retirement_json t) p.retirements (λ x. unfold allow in refl)),
      )
      refl

-- Two exports with equally many holders, distributions and retirements, which list the same lifecycle
-- events or not, have the same checksum, whatever else is in them.
pub checksum-counts :
    (t : Texts) (p q : Payload)
    → length p.holders ≡ length q.holders
    → length p.distributions ≡ length q.distributions
    → length p.retirements ≡ length q.retirements
    → exported_matured t p.state.status ≡ exported_matured t q.state.status
    → checksum t p ≡ checksum t q
unfolding checksum
checksum-counts t p q holders distributions retirements same = ap t.sha256 (
    payload-skeleton t p
    ∙ (rw (holders, distributions, retirements, same) refl ∙ sym (payload-skeleton t q)))
