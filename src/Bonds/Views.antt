-- ===== src/Bonds/Views.antt =====
-- What the previews and the detail of a bond promise.
use eco_mint.Prelude.{
  ℕ, ◌+◌, ◌≤◌, true, false, Option, none, some, ◌≡◌, ◌↔◌, refl, sym, ◌∙◌, subst, arith, nat_has_eq,
  List,
}
use eco_mint.Holders.Index.{HolderWithBalance}
use eco_mint.Bonds.Types.{
  BondResponse, matured, active, is_status, maturity_status_of, bond_response, RawConfig, RawState,
}
use eco_mint.Bonds.Reads.{
  Bonds, Env, build_bond_response, of_parts, preview, Maturity, maturity_at, BondDetail, detail_of,
  get_bond_detail, detail_from, get_holders,
}

-- What the contract asks of a subscription, on the bond as it was read.
pub record IsSubscribable (bond : BondResponse) (amount : ℕ) : Type 0 where
  pub status : is_status "Active" bond.status ≡ true
  pub running : bond.maturity_status ≡ active
  pub fits : bond.total_subscribed + amount ≤ bond.total_supply

-- For a bond that is not oversubscribed, the preview expects no failure exactly if the bond is active,
-- has not matured, and the amount added to what is subscribed stays within the supply.
pub preview-accepts_iff :
    (bond : BondResponse) (amount : ℕ)
    → bond.total_subscribed ≤ bond.total_supply
    → ((preview bond amount).expected_failure ≡ none) ↔ IsSubscribable bond amount
unfolding preview
preview-accepts_iff bond amount within = (
  λ h. record { status = ground arith; running = ground arith; fits = ground arith },
  λ h. ground (arith, h.status, h.running, h.fits),
)

built-maturity :
    (now id : ℕ) (config : Option RawConfig) (state : Option RawState) (bond : BondResponse)
    → of_parts now id config state ≡ some bond
    → bond.maturity_status ≡ maturity_status_of now bond.status bond.maturity_date
unfolding bond_response
built-maturity now id (some config) (some state) bond e =
    let q : bond_response now id config state ≡ bond = ground (arith, e) in
    subst
      (λ (b : BondResponse). b.maturity_status ≡ maturity_status_of now b.status b.maturity_date) q
      refl
built-maturity now id none state bond e = absurd (ground arith)
built-maturity now id (some config) none bond e = absurd (ground arith)

-- What a detail tells of the maturity.
pub record IsTimely (later : ℕ) (d : BondDetail) : Type 0 where
  pub over : (d.maturity.seconds_until ≡ 0) ↔ (d.maturity.reached ≡ true)
  pub due : d.maturity.reached ≡ false → later + d.maturity.seconds_until ≡ d.bond.maturity_date
  pub agrees : d.bond.maturity_status ≡ matured → d.maturity.reached ≡ true

maturity_at-IsTimely :
    (now later : ℕ) (d : BondDetail)
    → now ≤ later
    → d.bond.maturity_status ≡ maturity_status_of now d.bond.status d.bond.maturity_date
    → d.maturity ≡ maturity_at later d.bond
    → IsTimely later d
unfolding maturity_at maturity_status_of
maturity_at-IsTimely now later d order built shown = record {
  over =
      subst (λ (m : Maturity). (m.seconds_until ≡ 0) ↔ (m.reached ≡ true)) (sym shown)
        (ground arith);
  due =
      subst (λ (m : Maturity). m.reached ≡ false → later + m.seconds_until ≡ d.bond.maturity_date)
        (sym shown) (λ h. ground arith);
  agrees =
      λ h. subst (λ (m : Maturity). m.reached ≡ true) (sym shown) (ground (arith, sym h ∙ built));
}

detail_of-IsTimely :
    (now later : ℕ) (holders : List HolderWithBalance) (bond : BondResponse)
    (undistributed : Option ℕ) (d : BondDetail)
    → now ≤ later
    → bond.maturity_status ≡ maturity_status_of now bond.status bond.maturity_date
    → detail_of later holders (some bond) undistributed ≡ some d
    → IsTimely later d
detail_of-IsTimely now later holders bond none d order built e = absurd (ground arith)
detail_of-IsTimely now later holders bond (some u) d order built e =
    let shown : BondDetail = record {
      bond = bond;
      holders = holders;
      undistributed_total = u;
      maturity = maturity_at later bond;
    } in
    let q : shown ≡ d = ground (arith, e) in
    subst (IsTimely later) q (maturity_at-IsTimely now later shown order built refl)

detail_from-IsTimely :
    (env : Env) (later id : ℕ) (s : Bonds) (d : BondDetail)
    → env.now ≤ later
    → (config : Option RawConfig) (state : Option RawState) (read : Option BondResponse)
    → of_parts env.now id config state ≡ read
    → (detail_from env later id s read).1 ≡ some d
    → IsTimely later d
detail_from-IsTimely env later id s d order config state none e shown = absurd (ground arith)
detail_from-IsTimely env later id s d order config state (some bond) e shown =
    detail_of-IsTimely env.now later (get_holders env id s).1 bond
      (env.chain.get_undistributed_total id) d order (built-maturity env.now id config state bond e)
      shown

-- A bond's detail that is answered counts the seconds up to the maturity date, which is reached exactly
-- when none is left, and a bond that it calls matured has reached it. The clock does not go back
-- between the reads.
pub get_bond_detail-IsTimely :
    (env : Env) (later id : ℕ) (s : Bonds) (d : BondDetail)
    → env.now ≤ later
    → (get_bond_detail env later id s).1 ≡ some d
    → IsTimely later d
unfolding get_bond_detail build_bond_response
get_bond_detail-IsTimely env later id s d order shown =
    detail_from-IsTimely env later id s d order (env.chain.get_bond id)
      (env.chain.get_bond_state id) _ refl shown
