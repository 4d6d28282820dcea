-- ===== src/Kyc/Cache.antt =====
-- The cache of the service against the store, and what a transition does to the record.
use eco_mint.Prelude.{
  ℕ, String, Bool, true, false, Option, none, some, List, ◌≡◌, refl, sym, ap, ◌∙◌, ◌⊎◌, inl, inr,
  str_eq, str_eq_iff, or_else, arith, Bool-cases, Option-cases, string_has_eq, if◌then◌else◌,
}
use eco_mint.Prelude.Dict.{lookup, remove, lookup-insert, lookup-remove}
use eco_mint.Kyc.Types.{KycStatus, KycRecord, status_eq}
use eco_mint.Kyc.Store.{
  KycStore, Writes, TransitionInput, TransitionResult, apply_transition, commit, entry_of, merge,
  unchanged, expiry_eq,
}
use eco_mint.Kyc.Service.{
  KycService, Call, TransitionOptions, transition_status, write_through_cache, invalidate_cache,
  get_stored, get_record, initial_options, input_of, publish, changes_record,
}

abbrev pub old_expiry : Option KycRecord → Option ℕ
old_expiry none = none
old_expiry (some r) = r.expires_at

abbrev pub old_address : String → Option KycRecord → String
old_address a none = a
old_address a (some r) = r.address

-- A transition leaves, at its address, a record with the status asked for, the old creation and
-- the old expiry unless a new one is given; no other address changes.
pub record IsApplied (input : TransitionInput) (s s' : KycStore) (r : KycRecord) : Type 0 where
  pub found :
      (j : String)
      → lookup j s'.records ≡ (if str_eq input.address j then some r else lookup j s.records)
  pub status : r.status ≡ input.to_status
  pub expires_at :
      r.expires_at ≡ or_else input.expires_at (old_expiry (lookup input.address s.records))
  pub address : r.address ≡ old_address input.address (lookup input.address s.records)

status_eq-eq : (x y : KycStatus) → status_eq x y ≡ true → x ≡ y
status_eq-eq x y h = ground arith

expiry_eq-eq : (x y : Option ℕ) → expiry_eq x y ≡ true → x ≡ y
expiry_eq-eq x y h = ground arith

commit-IsApplied :
    (existing : Option KycRecord) (input : TransitionInput) (id : String) (now : ℕ) (w : Writes)
    (s : KycStore)
    → lookup input.address s.records ≡ existing
    → IsApplied input s
        (commit existing input id now w s).0
        (commit existing input id now w s).1.record_of
unfolding commit entry_of merge
commit-IsApplied none input id now w s e = record {
  found = λ j. lookup-insert input.address j (merge none (entry_of none input id now)) s.records;
  status = refl;
  expires_at = rw e (ground arith);
  address = rw e;
}
commit-IsApplied (some r) input id now w s e = record {
  found = λ j.
      lookup-insert input.address j (merge (some r) (entry_of (some r) input id now)) s.records;
  status = refl;
  expires_at = rw e;
  address = rw e;
}

unchanged-IsApplied :
    (input : TransitionInput) (s : KycStore) (r : KycRecord)
    → lookup input.address s.records ≡ some r
    → unchanged r input ≡ true
    → IsApplied input s s r
unchanged-IsApplied input s r found same = record {
  found = λ j. ground (arith, str_eq_iff input.address j);
  status = status_eq-eq r.status input.to_status (ground arith);
  expires_at = rw found (ground (arith, expiry_eq-eq r.expires_at input.expires_at));
  address = rw found;
}

-- On every branch, the early return included.
pub apply_transition-IsApplied :
    (input : TransitionInput) (id : String) (now : ℕ) (w : Writes) (s : KycStore)
    → IsApplied input s
        (apply_transition input id now w s).0
        (apply_transition input id now w s).1.record_of
unfolding apply_transition
apply_transition-IsApplied input id now w s = elim (Option-cases (lookup input.address s.records)) [
  | inl absent ↦ rw (absent, apply_transition) (commit-IsApplied none input id now w s absent)
  | inr (r, found) ↦ elim (Bool-cases (unchanged r input)) [
    | inl same ↦ rw (found, apply_transition, same) (unchanged-IsApplied input s r found same)
    | inr differs ↦
        rw (found, apply_transition, differs) (commit-IsApplied (some r) input id now w s found)
  ]
]

pub record IsSound (s : KycService) : Type 0 where
  pub keyed : (a : String) (r : KycRecord) → lookup a s.store.records ≡ some r → r.address ≡ a
  pub coherent :
      (a : String) (r : KycRecord) → lookup a s.cache ≡ some r → lookup a s.store.records ≡ some r

lookup-write_through_cache :
    (j a : String) (r : KycRecord) (cache : List (String × KycRecord))
    → r.address ≡ a
    → lookup j (write_through_cache true r (invalidate_cache true a cache))
      ≡ (if str_eq a j then some r else lookup j cache)
unfolding write_through_cache invalidate_cache
lookup-write_through_cache j a r cache e =
    ground
      (arith, lookup-insert r.address j r (remove a cache), lookup-remove a j cache, str_eq_iff a j)

updated-IsSound :
    (a : String) (r : KycRecord) (s s' : KycService)
    → r.address ≡ a
    → ((j : String)
        → lookup j s'.store.records ≡ (if str_eq a j then some r else lookup j s.store.records))
    → ((j : String) → lookup j s'.cache ≡ (if str_eq a j then some r else lookup j s.cache))
    → IsSound s
    → IsSound s'
updated-IsSound a r s s' e store cache v = record {
  keyed = λ j x h. ground (arith, store j, str_eq_iff a j, v.keyed j x);
  coherent = λ j x h. ground (arith, store j, cache j, v.coherent j x);
}

same-IsSound :
    (s s' : KycService)
    → ((j : String) → lookup j s'.store.records ≡ lookup j s.store.records)
    → ((j : String) → lookup j s'.cache ≡ lookup j s.cache)
    → IsSound s
    → IsSound s'
same-IsSound s s' store cache v = record {
  keyed = λ j x h. v.keyed j x (sym (store j) ∙ h);
  coherent = λ j x h. store j ∙ v.coherent j x (sym (cache j) ∙ h);
}

-- A transition that reports no change made none.
apply_transition-quiet :
    (input : TransitionInput) (id : String) (now : ℕ) (w : Writes) (s : KycStore)
    → changes_record (apply_transition input id now w s).1 ≡ false
    → (apply_transition input id now w s).0 ≡ s
unfolding apply_transition commit
apply_transition-quiet input id now w s quiet = ground arith

publish-changed :
    (up : Bool) (a : String) (cache : List (String × KycRecord)) (result : TransitionResult)
    → changes_record result ≡ true
    → publish up a cache result
      ≡ write_through_cache up result.record_of (invalidate_cache up a cache)
unfolding publish
publish-changed up a cache result h = rw h

publish-quiet :
    (up : Bool) (a : String) (cache : List (String × KycRecord)) (result : TransitionResult)
    → changes_record result ≡ false
    → publish up a cache result ≡ cache
unfolding publish
publish-quiet up a cache result h = rw h

old_address-IsSound :
    (a : String) (s : KycService) → IsSound s → old_address a (lookup a s.store.records) ≡ a
old_address-IsSound a s v = elim (Option-cases (lookup a s.store.records)) [
  | inl absent ↦ rw absent
  | inr (r, found) ↦ rw found (v.keyed a r found)
]

-- What `transition_status` does to the service while Redis answers.
pub record IsTransitioned (a : String) (to : KycStatus) (expiry : Option ℕ) (s s' : KycService)
    (r : KycRecord) : Type 0 where
  pub sound : IsSound s'
  pub found : lookup a s'.store.records ≡ some r
  pub status : r.status ≡ to
  pub expires_at : r.expires_at ≡ or_else expiry (old_expiry (lookup a s.store.records))

pub transition_status-IsTransitioned :
    (a : String) (to : KycStatus) (opts : TransitionOptions) (c : Call) (s : KycService)
    → c.redis_up ≡ true
    → IsSound s
    → IsTransitioned a to opts.expires_at s
        (transition_status a to opts c s).0
        (transition_status a to opts c s).1.record_of
unfolding transition_status
transition_status-IsTransitioned a to opts c s up v =
    let m = apply_transition-IsApplied (input_of a to opts) c.id c.now c.writes s.store in
    let result = (apply_transition (input_of a to opts) c.id c.now c.writes s.store).1 in
    let address : result.record_of.address ≡ a = m.address ∙ old_address-IsSound a s v in
    record {
      sound = elim (Bool-cases (changes_record result)) [
        | inl changed ↦
            updated-IsSound a result.record_of s (transition_status a to opts c s).0 address m.found
              (λ j.
                ap (lookup j) (publish-changed c.redis_up a s.cache result changed)
                ∙ rw up (lookup-write_through_cache j a result.record_of s.cache address))
              v
        | inr quiet ↦
            same-IsSound s (transition_status a to opts c s).0
              (λ j.
                ap (λ (t : KycStore). lookup j t.records)
                  (apply_transition-quiet (input_of a to opts) c.id c.now c.writes s.store quiet))
              (λ j. ap (lookup j) (publish-quiet c.redis_up a s.cache result quiet)) v
      ];
      found = m.found a ∙ ground (arith, str_eq_iff a a);
      status = m.status;
      expires_at = m.expires_at;
    }

refreshed-IsSound :
    (a : String) (r : KycRecord) (s : KycService)
    → lookup a s.store.records ≡ some r
    → IsSound s
    → IsSound (record s { cache = write_through_cache true r s.cache })
unfolding write_through_cache
refreshed-IsSound a r s found v = record {
  keyed = v.keyed;
  coherent = λ j x h. ground (
    arith,
    lookup-insert r.address j r s.cache,
    str_eq_iff r.address j,
    v.keyed a r found,
    v.coherent j x,
  );
}

-- What a read of the record at `a` gives: the stored record, or a new pending one.
pub record IsRead (a : String) (s s' : KycService) (r : KycRecord) : Type 0 where
  pub sound : IsSound s'
  pub found : lookup a s'.store.records ≡ some r
  pub source :
      (lookup a s.store.records ≡ some r)
      ⊎ ((lookup a s.store.records ≡ none) × (r.status ≡ KycStatus.pending))

get_stored-IsRead :
    (a : String) (c : Call) (s : KycService)
    → c.redis_up ≡ true
    → IsSound s
    → IsRead a s (get_stored a c s).0 (get_stored a c s).1
unfolding get_stored
get_stored-IsRead a c s up v = elim (Option-cases (lookup a s.store.records)) [
  | inl absent ↦
      let t = transition_status-IsTransitioned a KycStatus.pending initial_options c s up v in
      rw (absent, get_stored)
        (record { sound = t.sound; found = t.found; source = inr (absent, t.status) })
  | inr (r, found) ↦
      rw (found, get_stored, up)
        (record { sound = refreshed-IsSound a r s found v; found = found; source = inl found })
]

pub get_record-IsRead :
    (a : String) (c : Call) (s : KycService)
    → c.redis_up ≡ true
    → IsSound s
    → IsRead a s (get_record a c s).0 (get_record a c s).1
unfolding get_record
get_record-IsRead a c s up v = elim (Option-cases (lookup a s.cache)) [
  | inl absent ↦ rw (up, absent, get_record) (get_stored-IsRead a c s up v)
  | inr (r, found) ↦
      let stored = v.coherent a r found in
      rw (up, found, get_record) (record { sound = v; found = stored; source = inl stored })
]
